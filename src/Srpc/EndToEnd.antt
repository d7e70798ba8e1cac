-- ===== src/Srpc/EndToEnd.antt =====
-- A call from the synchronous client to the synchronous server and back.
use xdrpp.Common.{
  ℕ, suc, ◌+◌, ◌%◌, ◌^◌, ◌<◌, ◌≡◌, refl, sym, ap, ◌∙◌, arith, Bool, some, List, [], ◌∷◌, ◌++◌,
  length, append-nil, append_assoc, length-append, if_true, eq→==,
}
use xdrpp.Common.Result.{ok, ◌>>=◌}
use xdrpp.Types.{Ty, Schema, kind, with_mem_ptr, labelled_field}
use xdrpp.Marshal.Words.{be32, length-be32}
use xdrpp.Marshal.Bytes.{padded}
use xdrpp.Marshal.Put.Encode.{encode, IsWhole, append-IsWhole}
use xdrpp.Marshal.Get.{get_done}
use xdrpp.Message.{Message, Arg, raw_data, raw_size, get_args, open_get}
use xdrpp.Message.Args.{types, values, ArgsFit, encode_args, encode_args-IsWhole}
use xdrpp.Message.Levels.{ArgsFit-two}
use xdrpp.Message.RoundTrip.{xdr_to_msg_lem, get_args_lem}
use xdrpp.MsgSock.Input.{ReadResult, got}
use xdrpp.RpcMsg.{CallBody, rbody, areply, results, RpcMsg, rpc_msg, rpc_schema, msg_val}
use xdrpp.RpcMsg.Codec.{IsMsg, msg-Fits}
use xdrpp.RpcMsg.Archive.{archive_hdr, encode_hdr, archive_hdr-encode_hdr}
use xdrpp.RpcMsg.CallStat.{check_call_hdr, check_accepted}
use xdrpp.Server.Errors.{words}
use xdrpp.Server.Registry.{Procedure, Service, Servers}
use xdrpp.Server.Dispatch.{dispatch}
use xdrpp.Server.Dispatch.Routes.{find_proc, replied, call_hdr, IsServed, arg_limit, open_get_lem}
use xdrpp.Server.Dispatch.Results.{framed_bytes, success_words, success_bytes, dispatch_result}
use xdrpp.Srpc.{
  received, read_message, written, write_message, no_auth, prepare_call, new_hdr, Invoked, or_raise,
  returned, take_result, check_reply, take_reply, after_write, send_and_receive, invoke,
}
use xdrpp.Srpc.Frames.{IsPassed, Receives, read_message-Receives}
use xdrpp.Srpc.Serve.{served, serve_read, run_once, answered, loopback}

-- The header of a success.
abbrev pub success_hdr : ℕ → RpcMsg
success_hdr xid = record {
  xid = xid;
  body = rbody (areply (record { verf = no_auth; reply_data = results }));
}

-- `write` has taken the whole message.
write_message_lem :
    (bs : List ℕ)
    → write_message (some (length (raw_data (framed_bytes bs)))) (framed_bytes bs)
      ≡ written (raw_data (framed_bytes bs))
unfolding write_message
write_message_lem bs = if_true _ _ (
    eq→== (length (raw_data (framed_bytes bs))) (raw_size (framed_bytes bs)) (
      omega
        (arith, length-append (be32 (length bs + 2 ^ 31)) bs, length-be32 (length bs + 2 ^ 31))))

-- One piece that is a whole message.
receive_framed :
    (be : Bool) (bs : List ℕ)
    → length bs < 2 ^ 31
    → IsPassed be (length bs)
    → Receives bs [] (read_message be (got (raw_data (framed_bytes bs)) ∷ []))
receive_framed be bs h p =
    read_message-Receives be bs [] (got (raw_data (framed_bytes bs)) ∷ []) h p
      (
        omega
            (arith, length-append (be32 (length bs + 2 ^ 31)) bs, length-be32 (length bs + 2 ^ 31)),
        tt,
      )
      (append_assoc (be32 (length bs + 2 ^ 31)) bs [])

module _ (be : Bool) (application : Schema) (depth L : ℕ) where
  abbrev pub lim : ℕ
  lim = suc (suc (suc (suc (suc (suc L)))))

  abbrev pub sch : Schema
  sch = rpc_schema application

  encode_hdr-success_hdr :
      (xid : ℕ) → encode_hdr be application lim (success_hdr xid) ≡ words (success_words xid)
  unfolding encode kind with_mem_ptr labelled_field padded be32
  encode_hdr-success_hdr xid = refl

  success_bytes-IsWhole :
      (xid : ℕ) (res : List Arg) → IsWhole (success_bytes be application depth L xid res)
  success_bytes-IsWhole xid res =
      append-IsWhole (words (success_words xid)) (encode_args sch lim res) (unfold be32 in refl)
        (encode_args-IsWhole sch lim res)

  -- The client reads the result of a reply.
  take_result_lem :
      (res : List Arg)
      → ArgsFit sch lim res
      → take_result be application depth lim (types res) (encode_args sch lim res)
        ≡ returned (values res)
  unfolding take_result get_done
  take_result_lem res f = rw read refl
    where
      read : get_args be sch depth lim (types res) (encode_args sch lim res) ≡ ok (values res, [])
      read = rw append-nil at (get_args_lem be sch lim depth res [] f)

  check_reply_lem :
      (xid : ℕ) (ts : List Ty) (rest : List ℕ)
      → check_reply be application depth lim ts xid (success_hdr xid) rest
        ≡ take_result be application depth lim ts rest
  unfolding check_reply check_call_hdr check_accepted
  check_reply_lem xid ts rest = if_true _ _ (eq→== xid xid refl)

  -- Opening a reply with a result, and reading its header.
  pub archive_success :
      (xid : ℕ) (res : List Arg)
      → xid < 2 ^ 32
      → (open_get be sch depth lim (success_bytes be application depth L xid res) >>= λ inp.
          archive_hdr be application lim inp)
        ≡ ok (success_hdr xid, encode_args sch lim res)
  archive_success xid res h =
      ap (λ r. r >>= λ inp. archive_hdr be application lim inp)
        (open_get_lem be application depth L (success_bytes be application depth L xid res)
          (success_bytes-IsWhole xid res))
      ∙ ap (λ bs. archive_hdr be application lim (bs ++ encode_args sch lim res))
          (sym (encode_hdr-success_hdr xid))
      ∙ archive_hdr-encode_hdr be application L (success_hdr xid) (encode_args sch lim res)
          (h, ((omega arith, omega arith), tt))

  take_reply_lem :
      (xid : ℕ) (res : List Arg) (kernel : List ReadResult)
      → xid < 2 ^ 32
      → ArgsFit sch lim res
      → take_reply be application depth lim
          (types res)
          xid
          (received (success_bytes be application depth L xid res) kernel)
        ≡ returned (values res)
  unfolding take_reply open_get
  take_reply_lem xid res kernel h f =
      ap (or_raise checks) (archive_success xid res h)
      ∙ check_reply_lem xid (types res) (encode_args sch lim res)
      ∙ take_result_lem res f
    where
      checks : RpcMsg × List ℕ → Invoked
      checks (hdr, rest) = check_reply be application depth lim (types res) xid hdr rest

-- The fields of the call that `prepare_call` makes.
abbrev pub prepared : ℕ → ℕ → ℕ → CallBody
prepared prog vers proc = record {
  rpcvers = 2;
  prog = prog;
  vers = vers;
  proc = proc;
  cred = no_auth;
  verf = no_auth;
}

abbrev pub next_xid : ℕ → ℕ
next_xid xid_counter = (xid_counter + 1) % 2 ^ 32

prepare_call_lem :
    (prog vers proc xid_counter : ℕ)
    → prepare_call prog vers proc new_hdr xid_counter
      ≡ call_hdr (next_xid xid_counter) (prepared prog vers proc)
unfolding prepare_call
prepare_call_lem prog vers proc xid_counter = refl

module _ (client server : Bool) (application : Schema) (depth L : ℕ) where
  abbrev limit : ℕ
  limit = lim client application depth L

  abbrev schema : Schema
  schema = sch client application depth L

  -- The content of the message of a call.
  abbrev pub call_bytes : ℕ → CallBody → List Arg → List ℕ
  call_bytes xid c args =
      encode_hdr client application limit (call_hdr xid c) ++ encode_args schema limit args

  -- The server's end: a message that `dispatch` replies to is followed by the reply.
  loopback_lem :
      (servers : Servers) (bs : List ℕ) (m : Message)
      → length bs < 2 ^ 31
      → IsPassed server (length bs)
      → dispatch server application depth limit servers bs ≡ replied m
      → (loopback server application depth limit servers (raw_data (framed_bytes bs))).1
        ≡ got (raw_data m) ∷ []
  unfolding loopback run_once serve_read answered
  loopback_lem servers bs m h p d =
      let r : Receives bs [] (read_message server (got (raw_data (framed_bytes bs)) ∷ [])) =
        receive_framed server bs h p in
      ap (λ r. answered (serve_read server application depth limit servers r)) r.ends
      ∙ ap (λ a. answered (served a r.left)) d

  send_and_receive_lem :
      (servers : Servers) (ts : List Ty) (xid : ℕ) (bs reply : List ℕ)
      → length bs < 2 ^ 31
      → IsPassed server (length bs)
      → length reply < 2 ^ 31
      → IsPassed client (length reply)
      → dispatch server application depth limit servers bs ≡ replied (framed_bytes reply)
      → (kernel : List ReadResult) × (send_and_receive client application depth limit
            (loopback server application depth limit servers)
            ts
            xid
            (framed_bytes bs)
          ≡ take_reply client application depth limit ts xid (received reply kernel))
  unfolding send_and_receive after_write loopback
  send_and_receive_lem servers ts xid bs reply h p h' p' d =
      let r : Receives reply [] (read_message client (got (raw_data (framed_bytes reply)) ∷ [])) =
        receive_framed client reply h' p' in
      (
        r.left,
        ap (λ w. after_write client application depth limit ts xid w replies) (write_message_lem bs)
            ∙ ap (λ k. take_reply client application depth limit ts xid (read_message client k))
                (loopback_lem servers bs (framed_bytes reply) h p d)
            ∙ ap (take_reply client application depth limit ts xid) r.ends,
      )
    where
      replies : List ReadResult
      replies = (loopback server application depth limit servers (raw_data (framed_bytes bs))).1

  -- A call goes through: where the server has the procedure, the arguments fit its types within two
  -- levels fewer than the limit of the stack (the server reads them behind a tuple and a pointer), the method
  -- returns a result that fits its types, and the marks of both messages (shorter than 2 ^ 31 bytes)
  -- pass the test of `read_message` on the machine that reads them, `invoke` returns the very result
  -- that the method returned on the arguments, between machines of any byte orders and whatever the
  -- counter of the xids is.
  pub invoke-loopback :
      (servers : Servers) (xid_counter prog vers proc : ℕ) (s : Service) (p : Procedure)
      (args res : List Arg)
      → (prog < 2 ^ 32) × (vers < 2 ^ 32) × (proc < 2 ^ 32)
      → IsServed servers (prepared prog vers proc) s
      → find_proc s.procs proc ≡ some p
      → types args ≡ p.arg
      → ArgsFit schema (arg_limit server application depth L) args
      → p.method (values args) ≡ ok res
      → ArgsFit schema limit res
      → let call : List ℕ = call_bytes (next_xid xid_counter) (prepared prog vers proc) args in
        let reply : List ℕ = success_bytes server application depth L (next_xid xid_counter) res in
        (length call < 2 ^ 31)
        → IsPassed server (length call)
        → length reply < 2 ^ 31
        → IsPassed client (length reply)
        → invoke client application depth limit
            (loopback server application depth limit servers)
            xid_counter
            prog
            vers
            proc
            args
            (types res)
          ≡ returned (values res)
  unfolding invoke
  invoke-loopback servers xid_counter prog vers proc s p args res (hp, hv, hq) is_served found t f m
        g h q h' q' =
      ap (or_raise sends) (
        xdr_to_msg_lem client schema limit depth ((rpc_msg, msg_val hdr) ∷ args)
          (
            msg-Fits application L hdr is,
            (ArgsFit-two schema (arg_limit server application depth L) args f).0,
          )
          h)
      ∙ sent.1
      ∙ take_reply_lem client application depth L xid res sent.0 is.0 g
    where
      xid : ℕ
      xid = next_xid xid_counter

      hdr : RpcMsg
      hdr = call_hdr xid (prepared prog vers proc)

      is : IsMsg hdr
      is = (
        omega arith,
        (omega arith, hp, hv, hq, (omega arith, omega arith), (omega arith, omega arith)),
      )

      sends : Message → Invoked
      sends =
          send_and_receive client application depth limit
            (loopback server application depth limit servers) (types res) xid

      sent :
          (kernel : List ReadResult) × (send_and_receive client application depth limit
              (loopback server application depth limit servers)
              (types res)
              xid
              (framed_bytes (call_bytes xid (prepared prog vers proc) args))
            ≡ take_reply client application depth limit
                (types res)
                xid
                (received (success_bytes server application depth L xid res) kernel))
      sent =
          send_and_receive_lem servers (types res) xid
            (call_bytes xid (prepared prog vers proc) args)
            (success_bytes server application depth L xid res) h q h' q'
            (dispatch_result server application depth L servers xid (prepared prog vers proc) s p
              args res is refl is_served found t f m g h')
