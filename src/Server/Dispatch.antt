-- ===== src/Server/Dispatch.antt =====
-- The server side of a call: `dispatch` of xdrpp/server.cc and `srpc_service` of xdrpp/srpc.h.
pub mod Arguments
pub mod Routes
pub mod Refusals
pub mod Results
pub mod Replies
use xdrpp.Common.{
  ℕ, zero, suc, Bool, Option, none, some, false, List, [], ◌∷◌, ◌++◌, ◌==◌, ◌&&◌, if◌then◌else◌,
}
use xdrpp.Common.Result.{Res, ok, throw, fault, ill_typed, stack_overflow, ◌>>=◌}
use xdrpp.Types.{Ty, Schema, Val, Vals, num}
use xdrpp.Marshal.{rfc_base}
use xdrpp.Marshal.Get.{get, get_fields, get_done}
use xdrpp.Message.{Message, Arg, open_get, xdr_to_msg}
use xdrpp.RpcMsg.{CallBody, Body, cbody, rbody, RpcMsg, enum, rpc_schema}
use xdrpp.RpcMsg.Archive.{archive_hdr}
use xdrpp.Server.{
  accepted_header, success, rpc_accepted_error_msg, rpc_prog_mismatch_msg, rpc_rpc_mismatch_msg,
}
use xdrpp.Server.Registry.{Procedure, Service, Servers, lookup, first_key, last_key}

-- What a piece of code has given to `reply` (`none` is a null pointer), and how it ended.
abbrev pub Attempt : Type 0
Attempt = List (Option Message) × Res (Unit {0})

abbrev pub ignore : Attempt
ignore = ([], ok tt)

-- `reply(m)`, where making the message may fail.
unfoldable pub reply : Res Message → Attempt
reply (ok m) = (some m ∷ [], ok tt)
reply (throw e) = ([], throw e)
reply fault = ([], fault)
reply ill_typed = ([], ill_typed)

abbrev pub prog_unavail : ℕ
prog_unavail = 1

abbrev pub proc_unavail : ℕ
proc_unavail = 3

abbrev pub garbage_args : ℕ
garbage_args = 4

-- The six words that the `save` of `rpc_success_hdr` archives.
abbrev pub rpc_success_hdr : ℕ → List Arg
rpc_success_hdr xid = accepted_header xid ((enum, num success) ∷ [])

-- `service_base::check_call`
unfoldable pub check_call : Service → RpcMsg → Bool
check_call s hdr = elim hdr.body [
  | cbody c ↦ (c.rpcvers == 2) && ((c.prog == s.prog) && (c.vers == s.vers))
  | rbody r ↦ false
]

module _ (is_big_endian : Bool) (application : Schema) where
  -- An argument, which stands behind a `transparent_ptr`: a class of its own for the stack limit.
  unfoldable pub load_pointer : ℕ → Ty → List ℕ → Res (Val × List ℕ)
  load_pointer zero t inp = throw stack_overflow
  load_pointer (suc limit) t inp = get (rfc_base is_big_endian) (rpc_schema application) limit t inp

  -- The tuple of the arguments, which is a class as well.
  unfoldable pub load_arguments : ℕ → List Ty → List ℕ → Res (Vals × List ℕ)
  load_arguments zero ts inp = throw stack_overflow
  load_arguments (suc limit) ts inp = get_fields (load_pointer limit) ts inp

module _ (is_big_endian : Bool) (application : Schema) (depth limit : ℕ) where
  -- `decode_arg`, where a throw is the answer `false`.
  unfoldable pub decode_arg : List Ty → List ℕ → Res Vals
  unfolding load_arguments load_pointer
  decode_arg ts inp = do
    (vs, rest) ← load_arguments is_big_endian application limit ts inp
    _ ← get_done rest
    ok vs

  abbrev pub error_reply : ℕ → ℕ → Attempt
  error_reply xid stat =
      reply (rpc_accepted_error_msg is_big_endian (rpc_schema application) depth limit xid stat)

  -- `dispatch1` and the reply with its result.
  unfoldable pub answer_call : Procedure → ℕ → Vals → Attempt
  unfolding reply
  answer_call p xid vs = reply (
      p.method vs >>= λ res.
      xdr_to_msg is_big_endian (rpc_schema application) depth limit (rpc_success_hdr xid ++ res))

  -- `srpc_service::dispatch<P>`
  unfoldable pub dispatch_proc : Procedure → ℕ → List ℕ → Attempt
  unfolding decode_arg answer_call reply
  dispatch_proc p xid inp = elim (decode_arg p.arg inp) [
    | ok vs ↦ answer_call p xid vs
    | throw e ↦ error_reply xid garbage_args
    | fault ↦ ([], fault)
    | ill_typed ↦ ([], ill_typed)
  ]

  -- `call_dispatch`, with what follows it where it returns `false`.
  unfoldable pub call_dispatch : List Procedure → ℕ → ℕ → List ℕ → Attempt
  unfolding dispatch_proc reply
  call_dispatch [] proc xid inp = error_reply xid proc_unavail
  call_dispatch (p ∷ ps) proc xid inp =
      if proc == p.proc then dispatch_proc p xid inp else call_dispatch ps proc xid inp

  abbrev pub and_then : List (Option Message) → Attempt → Attempt
  and_then before (rs, end) = (before ++ rs, end)

  -- `srpc_service::process`, which goes on after the reply with a null pointer.
  unfoldable pub process : Service → RpcMsg → CallBody → List ℕ → Attempt
  unfolding call_dispatch check_call
  process s hdr c inp =
      and_then (if check_call s hdr then [] else none ∷ [])
        (call_dispatch s.procs c.proc hdr.xid inp)

  -- The `catch` around `process`.
  unfoldable pub recover : ℕ → Attempt → Attempt
  unfolding reply
  recover xid (rs, throw e) = and_then rs (error_reply xid garbage_args)
  recover xid a = a

  unfoldable pub mismatch_reply : ℕ → List (ℕ × Service) → Attempt
  unfolding reply first_key last_key
  mismatch_reply xid versions = reply (
      first_key versions >>= λ low. last_key versions >>= λ high.
      rpc_prog_mismatch_msg is_big_endian (rpc_schema application) depth limit xid low high)

  unfoldable pub route : Servers → RpcMsg → CallBody → List ℕ → Attempt
  unfolding recover process mismatch_reply lookup reply
  route servers hdr c inp = elim (lookup c.prog servers) [
    | none ↦ error_reply hdr.xid prog_unavail
    | some versions ↦ elim (lookup c.vers versions) [
      | none ↦ mismatch_reply hdr.xid versions
      | some s ↦ recover hdr.xid (process s hdr c inp)
    ]
  ]

  unfoldable pub dispatch_msg : Servers → RpcMsg → List ℕ → Attempt
  unfolding route reply
  dispatch_msg servers hdr inp = elim hdr.body [
    | rbody r ↦ ignore
    | cbody c ↦
        if c.rpcvers == 2
        then route servers hdr c inp
        else reply (rpc_rpc_mismatch_msg is_big_endian (rpc_schema application) depth limit hdr.xid)
  ]

  -- A header that cannot be read is ignored.
  unfoldable pub read_header : Servers → List ℕ → Attempt
  unfolding dispatch_msg archive_hdr
  read_header servers inp = elim (archive_hdr is_big_endian application limit inp) [
    | ok (hdr, rest) ↦ dispatch_msg servers hdr rest
    | throw e ↦ ignore
    | fault ↦ ([], fault)
    | ill_typed ↦ ([], ill_typed)
  ]

  -- `dispatch`; the constructor of `xdr_get` stands outside the `try`.
  unfoldable pub dispatch : Servers → List ℕ → Attempt
  unfolding read_header
  dispatch servers content =
      elim (open_get is_big_endian (rpc_schema application) depth limit content) [
        | ok inp ↦ read_header servers inp
        | throw e ↦ ([], throw e)
        | fault ↦ ([], fault)
        | ill_typed ↦ ([], ill_typed)
      ]
