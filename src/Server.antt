-- ===== src/Server.antt =====
-- xdrpp/server.cc: the replies that say that a call was accepted and failed.
pub mod Errors
pub mod Registry
pub mod Dispatch
use xdrpp.Common.{ℕ, Bool, false, List, [], ◌∷◌, ◌==◌, ◌||◌, if◌then◌else◌}
use xdrpp.Common.Result.{Res, ok, fault, ◌>>=◌}
use xdrpp.Types.{uint32, Schema, num}
use xdrpp.Message.{Message, Arg, alloc, put_args}
use xdrpp.RpcMsg.{enum}

-- The numbers of `msg_type`, `reply_stat`, `auth_flavor` and `accept_stat` in xdrpp/rpc_msg.x.
abbrev pub msg_reply : ℕ
msg_reply = 1

abbrev pub msg_accepted : ℕ
msg_accepted = 0

abbrev pub msg_denied : ℕ
msg_denied = 1

abbrev pub auth_error : ℕ
auth_error = 1

abbrev pub rpc_mismatch : ℕ
rpc_mismatch = 0

abbrev pub auth_none : ℕ
auth_none = 0

abbrev pub success : ℕ
success = 0

abbrev pub prog_mismatch : ℕ
prog_mismatch = 2

abbrev pub accepted_header : ℕ → List Arg → List Arg
accepted_header xid rest =
    (uint32, num xid)
    ∷ (enum, num msg_reply)
    ∷ (enum, num msg_accepted)
    ∷ (enum, num auth_none)
    ∷ (uint32, num 0)
    ∷ rest

module _ (is_big_endian : Bool) (s : Schema) (depth limit : ℕ) where
  -- A message of `size` bytes that the arguments fill; the assertion is `p.p_ == p.e_`.
  unfoldable pub filled : ℕ → List Arg → Res Message
  unfolding alloc
  filled size args = do
    (header, o) ← alloc is_big_endian size
    o' ← put_args is_big_endian s depth limit args o
    if o'.room == 0
        then ok (record { size = size; header = header; content = o'.written })
        else fault

  unfoldable pub rpc_accepted_error_msg : ℕ → ℕ → Res Message
  unfolding filled
  rpc_accepted_error_msg xid stat =
      if (stat == success) || (stat == prog_mismatch)
      then fault
      else filled 24 (accepted_header xid ((enum, num stat) ∷ []))

  unfoldable pub rpc_prog_mismatch_msg : ℕ → ℕ → ℕ → Res Message
  unfolding filled
  rpc_prog_mismatch_msg xid low high = filled 32 (
      accepted_header xid ((enum, num prog_mismatch) ∷ (uint32, num low) ∷ (uint32, num high) ∷ []))

  unfoldable pub rpc_auth_error_msg : ℕ → ℕ → Res Message
  unfolding filled
  rpc_auth_error_msg xid stat = filled 20 (
      (uint32, num xid)
      ∷ (enum, num msg_reply)
      ∷ (enum, num msg_denied)
      ∷ (enum, num auth_error)
      ∷ (enum, num stat)
      ∷ [])

  -- The versions of RPC that are supported, both 2.
  unfoldable pub rpc_rpc_mismatch_msg : ℕ → Res Message
  unfolding filled
  rpc_rpc_mismatch_msg xid = filled 24 (
      (uint32, num xid)
      ∷ (enum, num msg_reply)
      ∷ (enum, num msg_denied)
      ∷ (enum, num rpc_mismatch)
      ∷ (uint32, num 2)
      ∷ (uint32, num 2)
      ∷ [])
