-- ===== src/Arpc.antt =====
-- xdrpp/arpc.h and arpc.cc: the asynchronous client and server.
pub mod Replying
pub mod Calling
pub mod Loopback
use xdrpp.Common.{
  ℕ, zero, suc, Bool, true, false, Option, none, some, List, [], ◌∷◌, ◌++◌, ◌==◌, if◌then◌else◌,
}
use xdrpp.Common.Result.{Error, Res, ok, throw, fault, ill_typed, ◌>>=◌}
use xdrpp.Types.{Ty, Schema, Vals}
use xdrpp.Marshal.Get.{get_done}
use xdrpp.Message.{Message, Arg, get_args, open_get, xdr_to_msg}
use xdrpp.MsgSock.Rpc.{Rpc, get_xid, send_call}
use xdrpp.RpcMsg.{CallBody, cbody, RpcMsg, rpc_msg, rpc_schema, msg_val}
use xdrpp.RpcMsg.Archive.{archive_hdr}
use xdrpp.RpcMsg.CallStat.{CallStat, network_error, garbage_res, succeeded, rpc_call_stat}
use xdrpp.Server.{rpc_auth_error_msg, rpc_accepted_error_msg}
use xdrpp.Server.Registry.{Service}
use xdrpp.Server.Dispatch.{
  Attempt, and_then, error_reply, proc_unavail, garbage_args, check_call, decode_arg, recover,
  rpc_success_hdr,
}
use xdrpp.Srpc.{no_auth}

-- `call_result`: the result, or why there is none.
pub data CallResult : Type 0 where
  result : Vals → CallResult
  no_result : CallStat → CallResult

-- What the callback of a call was given, and how the code ended. A callback returns or throws an
-- `xdr_runtime_error`.
abbrev pub Callback : Type 0
Callback = CallResult → Res (Unit {0})

abbrev pub Called : Type 0
Called = List CallResult × Res (Unit {0})

abbrev pub call_back : Callback → CallResult → Called
call_back cb r = (r ∷ [], cb r)

abbrev pub and_called : List CallResult → Called → Called
and_called before (rs, end) = (before ++ rs, end)

-- What the server object does with a `reply_cb`.
pub data ReplyOp : Type 0 where
  send_reply : List Arg → ReplyOp
  reject_accept reject_auth : ℕ → ReplyOp

-- A procedure of an asynchronous interface: what its method does with the `reply_cb` before and
-- after it has ended, in order, and how it ends. A method that throws keeps no copy, and a message
-- that cannot be made is one of the method itself.
pub record AsyncProcedure : Type 0 where
  pub proc : ℕ
  pub arg : List Ty
  pub method : Vals → List ReplyOp × Res (Unit {0})

-- `arpc_service`
pub record AsyncService : Type 0 where
  pub base : Service
  pub procs : List AsyncProcedure

module _ (is_big_endian : Bool) (application : Schema) (depth limit : ℕ) where
  -- `rpc_msg hdr`, `call_result res` and `*res`, in the `try` of the callback.
  unfoldable pub read_body : List Ty → RpcMsg → List ℕ → Res CallResult
  read_body res hdr rest =
      if succeeded (rpc_call_stat hdr)
      then (get_args is_big_endian (rpc_schema application) depth limit res rest >>= λ (vs, rest').
          get_done rest' >>= λ _. ok (result vs))
      else (get_done rest >>= λ _. ok (no_result (rpc_call_stat hdr)))

  unfoldable pub read_reply : List Ty → List ℕ → Res CallResult
  unfolding read_body
  read_reply res content =
      (open_get is_big_endian (rpc_schema application) depth limit content >>= λ inp.
      archive_hdr is_big_endian application limit inp)
      >>= λ (hdr, rest). read_body res hdr rest

  -- `catch`, behind the call of the callback in the `try`.
  unfoldable pub catch_error : Callback → Called → Called
  catch_error cb (rs, throw e) = and_called rs (call_back cb (no_result garbage_res))
  catch_error cb c = c

  unfoldable pub take_reply : Callback → Res CallResult → Called
  unfolding catch_error
  take_reply cb (ok r) = catch_error cb (call_back cb r)
  take_reply cb (throw e) = call_back cb (no_result garbage_res)
  take_reply cb fault = ([], fault)
  take_reply cb ill_typed = ([], ill_typed)

  -- The callback that `invoke` gives to `send_call`.
  unfoldable pub on_reply : List Ty → Callback → Option (List ℕ) → Called
  unfolding take_reply read_reply
  on_reply res cb none = call_back cb (no_result network_error)
  on_reply res cb (some content) = take_reply cb (read_reply res content)

  -- The header of a call.
  abbrev pub async_hdr : ℕ → ℕ → ℕ → ℕ → RpcMsg
  async_hdr prog vers proc xid = record {
    xid = xid;
    body = cbody (record {
      rpcvers = 2;
      prog = prog;
      vers = vers;
      proc = proc;
      cred = no_auth;
      verf = no_auth;
    });
  }

  unfoldable pub send_invoke : List Arg → ℕ → RpcMsg → Rpc → Res Rpc
  unfolding send_call
  send_invoke args cb hdr r =
      xdr_to_msg is_big_endian (rpc_schema application) depth limit ((rpc_msg, msg_val hdr) ∷ args)
      >>= λ m. send_call is_big_endian m.content cb r

  -- `asynchronous_client_base::invoke`, with `xid_` and the turns of `get_xid`. `cb` names the
  -- callback.
  unfoldable pub invoke : ℕ → ℕ → ℕ → ℕ → ℕ → List Arg → ℕ → Rpc → Option (Res (ℕ × Rpc))
  unfolding get_xid send_invoke
  invoke turns xid prog vers proc args cb r = elim (get_xid turns xid r.calls) [
    | none ↦ none
    | some x ↦ some (send_invoke args cb (async_hdr prog vers proc x) r >>= λ r'. ok (x, r'))
  ]

  -- The message of a call of a `reply_cb`.
  unfoldable pub op_msg : ℕ → ReplyOp → Res Message
  op_msg xid (send_reply res) =
      xdr_to_msg is_big_endian (rpc_schema application) depth limit (rpc_success_hdr xid ++ res)
  op_msg xid (reject_accept stat) =
      rpc_accepted_error_msg is_big_endian (rpc_schema application) depth limit xid stat
  op_msg xid (reject_auth stat) =
      rpc_auth_error_msg is_big_endian (rpc_schema application) depth limit xid stat

  -- `~reply_cb_impl`; the flag says whether `cb_` is set.
  unfoldable pub destroy : ℕ → Bool → Attempt
  destroy xid true = error_reply is_big_endian application depth limit xid proc_unavail
  destroy xid false = ([], ok tt)

  -- How the code ends behind a destructor.
  abbrev pub end_with : Res (Unit {0}) → Attempt → Attempt
  end_with end (rs, ok x) = (rs, end)
  end_with end (rs, failed) = (rs, failed)

  -- `send_reply_msg`, and what follows it. Where the message cannot be made, the exception leaves
  -- the method.
  unfoldable pub send_reply_msg : ℕ → Bool → Res Message → Attempt → Attempt
  unfolding destroy
  send_reply_msg xid true (ok m) rest =
      and_then is_big_endian application depth limit (some m ∷ []) rest
  send_reply_msg xid false (ok m) rest = ([], fault)
  send_reply_msg xid live failed rest = end_with (failed >>= λ m. ok tt) (destroy xid live)

  -- The calls of a `reply_cb`, and then its destruction.
  unfoldable pub run_ops : ℕ → Bool → List ReplyOp → Res (Unit {0}) → Attempt
  unfolding destroy op_msg send_reply_msg
  run_ops xid live [] end = end_with end (destroy xid live)
  run_ops xid live (op ∷ ops) end =
      send_reply_msg xid live (op_msg xid op) (run_ops xid false ops end)

  unfoldable pub run_method : ℕ → List ReplyOp × Res (Unit {0}) → Attempt
  unfolding run_ops
  run_method xid (ops, end) = run_ops xid true ops end

  -- `arpc_service::dispatch<P>`
  unfoldable pub async_proc : AsyncProcedure → ℕ → List ℕ → Attempt
  unfolding run_method
  async_proc p xid inp = elim (decode_arg is_big_endian application depth limit p.arg inp) [
    | ok vs ↦ run_method xid (p.method vs)
    | throw e ↦ error_reply is_big_endian application depth limit xid garbage_args
    | fault ↦ ([], fault)
    | ill_typed ↦ ([], ill_typed)
  ]

  -- `call_dispatch`, with what follows it where it returns `false`.
  unfoldable pub async_dispatch : List AsyncProcedure → ℕ → ℕ → List ℕ → Attempt
  unfolding async_proc
  async_dispatch [] proc xid inp =
      error_reply is_big_endian application depth limit xid proc_unavail
  async_dispatch (p ∷ ps) proc xid inp =
      if proc == p.proc then async_proc p xid inp else async_dispatch ps proc xid inp

  -- `arpc_service::process`, which goes on after the reply with a null pointer.
  unfoldable pub async_process : AsyncService → RpcMsg → CallBody → List ℕ → Attempt
  unfolding async_dispatch check_call
  async_process s hdr c inp =
      and_then is_big_endian application depth limit
        (if check_call s.base hdr then [] else none ∷ [])
        (async_dispatch s.procs c.proc hdr.xid inp)

  -- The call of `process` in `rpc_server_base::dispatch`, with its `catch`.
  unfoldable pub async_served : AsyncService → RpcMsg → CallBody → List ℕ → Attempt
  unfolding async_process recover
  async_served s hdr c inp =
      recover is_big_endian application depth limit hdr.xid (async_process s hdr c inp)
