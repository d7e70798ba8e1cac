-- ===== src/RpcMsg/CallStat.antt =====
-- xdrpp/exception.h and rpc_msg.cc: what became of a call, as `rpc_call_stat` and as the exceptions
-- of `check_call_hdr` tell it.
use Prim.Native.String.{String}
use xdrpp.Common.{ℕ, Bool, false, ◌==◌, if◌then◌else◌}
use xdrpp.RpcMsg.{
  ReplyData, RejectedReply, rejected_mismatch, rj_why, other_reject, areply, rreply, other_reply,
  cbody, rbody, RpcMsg, data_stat,
}

-- `rpc_call_stat`: `type_`, with the member of the union that goes with it.
pub data CallStat : Type 0 where
  accept_stat auth_stat : ℕ → CallStat
  rpcvers_mismatch garbage_res network_error bad_alloc : CallStat

-- `rpc_errmsg` of an `accept_stat`.
unfoldable pub accept_errmsg : ℕ → String
accept_errmsg ev =
    if ev == 0
    then "RPC executed successfully"
    else if ev == 1
    then "remote hasn't exported program"
    else if ev == 2
    then "remote can't support version #"
    else if ev == 3
    then "program can't support procedure"
    else if ev == 4
    then "procedure can't decode params"
    else if ev == 5
    then "RPC system error"
    else "unknown accept_stat error"

-- `rpc_errmsg` of an `auth_stat`.
unfoldable pub auth_errmsg : ℕ → String
auth_errmsg ev =
    if ev == 0
    then "success"
    else if ev == 1
    then "bad credential (seal broken)"
    else if ev == 2
    then "client must begin new session"
    else if ev == 3
    then "bad verifier (seal broken)"
    else if ev == 4
    then "verifier expired or replayed"
    else if ev == 5
    then "rejected for security reasons"
    else if ev == 6
    then "bogus response verifier"
    else if ev == 7
    then "reason unknown"
    else if ev == 8
    then "kerberos generic error"
    else if ev == 9
    then "time of credential expired"
    else if ev == 10
    then "problem with ticket file"
    else if ev == 11
    then "can't decode authenticator"
    else if ev == 12
    then "wrong net address in ticket"
    else if ev == 13
    then "no credentials for user"
    else if ev == 14
    then "problem with context"
    else "auth_stat error"

-- `rpc_call_stat::message`
unfoldable pub stat_message : CallStat → String
unfolding accept_errmsg auth_errmsg
stat_message (accept_stat ev) = accept_errmsg ev
stat_message (auth_stat ev) = auth_errmsg ev
stat_message rpcvers_mismatch = "server reported rpcvers field with wrong value"
stat_message garbage_res = "unable to unmarshal reply value sent by server"
stat_message network_error = "network error when communicating with server"
stat_message bad_alloc = "insufficient memory to unmarshal result"

-- `rpc_call_stat::operator bool`
unfoldable pub succeeded : CallStat → Bool
succeeded (accept_stat ev) = ev == 0
succeeded _ = false

-- `rpc_call_stat::rpc_call_stat(const rpc_msg &)`
unfoldable pub rejected_call_stat : RejectedReply → CallStat
rejected_call_stat (rejected_mismatch low high) = rpcvers_mismatch
rejected_call_stat (rj_why why) = auth_stat why
rejected_call_stat (other_reject stat) = garbage_res

unfoldable pub rpc_call_stat : RpcMsg → CallStat
unfolding rejected_call_stat
rpc_call_stat hdr = elim hdr.body [
  | rbody (areply a) ↦ accept_stat (data_stat a.reply_data)
  | rbody (rreply r) ↦ rejected_call_stat r
  | rbody (other_reply stat) ↦ garbage_res
  | cbody c ↦ garbage_res
]

-- How `check_call_hdr` ends: it returns, or it throws an exception with a text. An
-- `xdr_call_error` has the status too, and the text is its message.
pub data Checked : Type 0 where
  passed : Checked
  runtime_error : String → Checked
  call_error : CallStat → String → Checked

unfoldable pub xdr_call_error : CallStat → Checked
unfolding stat_message
xdr_call_error s = call_error s (stat_message s)

unfoldable pub check_rejected : RejectedReply → Checked
unfolding xdr_call_error
check_rejected (rj_why why) = xdr_call_error (auth_stat why)
check_rejected (rejected_mismatch low high) = xdr_call_error rpcvers_mismatch
check_rejected (other_reject stat) = xdr_call_error rpcvers_mismatch

unfoldable pub check_accepted : ReplyData → Checked
unfolding xdr_call_error
check_accepted d = if data_stat d == 0 then passed else xdr_call_error (accept_stat (data_stat d))

unfoldable pub check_call_hdr : RpcMsg → Checked
unfolding check_accepted check_rejected
check_call_hdr hdr = elim hdr.body [
  | cbody c ↦ runtime_error "call received when reply expected"
  | rbody (areply a) ↦ check_accepted a.reply_data
  | rbody (rreply r) ↦ check_rejected r
  | rbody (other_reply stat) ↦ runtime_error "check_call_hdr: garbage reply_stat"
]
