-- ===== src/Srpc.antt =====
-- xdrpp/srpc.cc and srpc.h: messages over a socket that blocks, and the synchronous client.
pub mod Read
pub mod Frames
pub mod Serve
pub mod EndToEnd
use Prim.Native.String.{String}
use xdrpp.Common.{
  ℕ, ◌+◌, ◌-◌, ◌%◌, ◌^◌, Bool, Option, none, some, List, [], ◌∷◌, ◌++◌, length, take, drop, ltb,
  ◌==◌, if◌then◌else◌,
}
use xdrpp.Common.Result.{Error, Res, ok, throw, fault, ill_typed, ◌>>=◌}
use xdrpp.Endian.{swap32le}
use xdrpp.Types.{Ty, Schema, Vals}
use xdrpp.Marshal.{load32}
use xdrpp.Marshal.Get.{get_done}
use xdrpp.Message.{Message, Arg, raw_size, raw_data, get_args, open_get, xdr_to_msg}
use xdrpp.MsgSock.Input.{ReadResult, got, again, failed}
use xdrpp.RpcMsg.{OpaqueAuth, CallBody, Body, cbody, rbody, RpcMsg, rpc_msg, rpc_schema, msg_val}
use xdrpp.RpcMsg.Archive.{archive_hdr}
use xdrpp.RpcMsg.CallStat.{Checked, passed, check_call_hdr}

-- How `fullread` ends: with the bytes it has read and what the kernel has left, or with -1. The
-- kernel's answers to the calls of `read` are a list; behind its end a read waits.
pub data FullRead : Type 0 where
  bytes_read : List ℕ → List ReadResult → FullRead
  read_error waiting : FullRead

-- Of an answer that has more bytes than are asked for, the kernel keeps the rest.
unfoldable pub fullread : ℕ → List ℕ → List ReadResult → FullRead
fullread n buf [] = if n == 0 then bytes_read buf [] else waiting
fullread n buf (got bs ∷ kernel) =
    let rest = fullread (n - length bs) (buf ++ bs) kernel in
    if n == 0
    then bytes_read buf (got bs ∷ kernel)
    else if length bs == 0
    then bytes_read buf kernel
    else if ltb n (length bs)
    then bytes_read (buf ++ take n bs) (got (drop n bs) ∷ kernel)
    else rest
fullread n buf (r ∷ kernel) = if n == 0 then bytes_read buf (r ∷ kernel) else read_error

-- How `read_message` ends: with the content of a message, or with one of its exceptions.
pub data ReadMessage : Type 0 where
  received : List ℕ → List ReadResult → ReadMessage
  premature_eof not_multiple_of_4 fragments_unimplemented read_failed read_waiting : ReadMessage

unfoldable pub whole_body : ℕ → FullRead → ReadMessage
whole_body len read_error = read_failed
whole_body len waiting = read_waiting
whole_body len (bytes_read buf kernel) =
    if length buf == len then received buf kernel else premature_eof

module _ (is_big_endian : Bool) where
  -- The tests on the four bytes of the mark, in the source's order: `len & 3` is taken of the word
  -- as it stands in memory. `len & 0x80000000` is zero for the numbers below 2 ^ 31.
  unfoldable pub read_body : ℕ → List ReadResult → ReadMessage
  unfolding fullread whole_body
  read_body word kernel =
      let len : ℕ = swap32le is_big_endian word in
      let body : ReadMessage = whole_body (len - 2 ^ 31) (fullread (len - 2 ^ 31) [] kernel) in
      if word % 4 == 0
      then (if ltb len (2 ^ 31) then fragments_unimplemented else body)
      else not_multiple_of_4

  unfoldable pub whole_mark : FullRead → ReadMessage
  unfolding read_body
  whole_mark read_error = read_failed
  whole_mark waiting = read_waiting
  whole_mark (bytes_read buf kernel) = elim (load32 is_big_endian buf) [
    | ok (word, rest) ↦ read_body word kernel
    | _ ↦ premature_eof
  ]

  unfoldable pub read_message : List ReadResult → ReadMessage
  unfolding whole_mark fullread
  read_message kernel = whole_mark (fullread 4 [] kernel)

-- How `write_message` ends, by the answer of `write` (none is -1): the bytes are on their way, it
-- throws, or its assertion fails.
pub data Written : Type 0 where
  written : List ℕ → Written
  write_failed short_write : Written

unfoldable pub write_message : Option ℕ → Message → Written
write_message none m = write_failed
write_message (some n) m = if n == raw_size m then written (raw_data m) else short_write

abbrev pub no_auth : OpaqueAuth
no_auth = record { flavor = 0; body = [] }

-- `hdr.body.mtype(CALL)` keeps a call and otherwise makes a default one; then its fields are set.
abbrev pub call_body : Body → CallBody
call_body (cbody c) = c
call_body (rbody r) = record {
  rpcvers = 0;
  prog = 0;
  vers = 0;
  proc = 0;
  cred = no_auth;
  verf = no_auth;
}

-- `prepare_call`, with the value of `xid_counter` before and, in the header, after it.
unfoldable pub prepare_call : ℕ → ℕ → ℕ → RpcMsg → ℕ → RpcMsg
prepare_call prog vers proc hdr xid_counter = record {
  xid = (xid_counter + 1) % 2 ^ 32;
  body = cbody (record (call_body hdr.body) { rpcvers = 2; prog = prog; vers = vers; proc = proc });
}

-- `rpc_msg hdr`: the default value is an empty call.
abbrev pub new_hdr : RpcMsg
new_hdr = record {
  xid = 0;
  body =
      cbody (record { rpcvers = 0; prog = 0; vers = 0; proc = 0; cred = no_auth; verf = no_auth });
}

-- How `invoke` ends.
pub data Invoked : Type 0 where
  returned : Vals → Invoked
  raised : Error → Invoked
  not_written : Written → Invoked
  not_read : ReadMessage → Invoked
  not_passed : Checked → Invoked
  unexpected_xid undefined : Invoked

-- An exception of the archive, or a fault.
abbrev pub or_raise : {A : Type 0} → (A → Invoked) → Res A → Invoked
or_raise k (ok a) = k a
or_raise k (throw e) = raised e
or_raise k fault = undefined
or_raise k ill_typed = undefined

module _ (is_big_endian : Bool) (application : Schema) (depth limit : ℕ) where
  -- The result, behind the header.
  unfoldable pub take_result : List Ty → List ℕ → Invoked
  take_result res inp = or_raise returned (
      get_args is_big_endian (rpc_schema application) depth limit res inp >>= λ (vs, rest).
      get_done rest >>= λ _. ok vs)

  unfoldable pub check_reply : List Ty → ℕ → RpcMsg → List ℕ → Invoked
  unfolding take_result check_call_hdr
  check_reply res xid hdr rest = elim (check_call_hdr hdr) [
    | passed ↦ if hdr.xid == xid then take_result res rest else unexpected_xid
    | stopped ↦ not_passed stopped
  ]

  unfoldable pub take_reply : List Ty → ℕ → ReadMessage → Invoked
  unfolding check_reply archive_hdr open_get
  take_reply res xid (received content kernel) =
      or_raise (λ (hdr, rest). check_reply res xid hdr rest)
        (open_get is_big_endian (rpc_schema application) depth limit content >>= λ inp.
          archive_hdr is_big_endian application limit inp)
  take_reply res xid stopped = not_read stopped

  -- What the socket does: the answer of `write` to some bytes, and what can be read after them.
  abbrev pub Peer : Type 0
  Peer = List ℕ → Option ℕ × List ReadResult

  unfoldable pub after_write : List Ty → ℕ → Written → List ReadResult → Invoked
  unfolding take_reply read_message
  after_write res xid (written bytes) kernel =
      take_reply res xid (read_message is_big_endian kernel)
  after_write res xid stopped kernel = not_written stopped

  unfoldable pub send_and_receive : Peer → List Ty → ℕ → Message → Invoked
  unfolding after_write write_message
  send_and_receive peer res xid m =
      after_write res xid (write_message (peer (raw_data m)).0 m) (peer (raw_data m)).1

  -- `synchronous_client_base::invoke`
  unfoldable pub invoke : Peer → ℕ → ℕ → ℕ → ℕ → List Arg → List Ty → Invoked
  unfolding prepare_call send_and_receive
  invoke peer xid_counter prog vers proc args res =
      let hdr : RpcMsg = prepare_call prog vers proc new_hdr xid_counter in
      or_raise (send_and_receive peer res hdr.xid) (
        xdr_to_msg is_big_endian (rpc_schema application) depth limit
          ((rpc_msg, msg_val hdr) ∷ args))
