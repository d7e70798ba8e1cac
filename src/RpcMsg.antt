-- ===== src/RpcMsg.antt =====
-- xdrpp/rpc_msg.x: the messages of RFC5531 as structures, and as the classes that xdrc makes of them.
pub mod Codec
pub mod Archive
pub mod CallStat
use xdrpp.Common.{ℕ, true, false, Option, none, some, List, [], ◌∷◌, get_elem?, ltb, if◌then◌else◌}
use xdrpp.Types.{
  Ty, uint32, enumeration, opaque_array, opaque_vec, named, Val, num, bytes, seq, choice, Vals, nil,
  cons, UnionField, Class, struct, union, Schema,
}

pub record OpaqueAuth : Type 0 where
  pub flavor : ℕ
  pub body : List ℕ

pub record CallBody : Type 0 where
  pub rpcvers : ℕ
  pub prog : ℕ
  pub vers : ℕ
  pub proc : ℕ
  pub cred : OpaqueAuth
  pub verf : OpaqueAuth

-- `reply_data`: the results of a success follow the message; a status other than success and a
-- mismatch has no data.
pub data ReplyData : Type 0 where
  results : ReplyData
  mismatch_info : ℕ → ℕ → ReplyData
  no_data : ℕ → ReplyData

pub record AcceptedReply : Type 0 where
  pub verf : OpaqueAuth
  pub reply_data : ReplyData

pub data RejectedReply : Type 0 where
  rejected_mismatch : ℕ → ℕ → RejectedReply
  rj_why : ℕ → RejectedReply
  -- Another `reject_stat`, which has no arm.
  other_reject : ℕ → RejectedReply

pub data ReplyBody : Type 0 where
  areply : AcceptedReply → ReplyBody
  rreply : RejectedReply → ReplyBody
  -- Another `reply_stat`, which has no arm.
  other_reply : ℕ → ReplyBody

pub data Body : Type 0 where
  cbody : CallBody → Body
  rbody : ReplyBody → Body

pub record RpcMsg : Type 0 where
  pub xid : ℕ
  pub body : Body

-- The discriminant of `reply_data`.
abbrev pub data_stat : ReplyData → ℕ
data_stat results = 0
data_stat (mismatch_info low high) = 2
data_stat (no_data stat) = stat

-- An enumeration that is not validated.
abbrev pub enum : Ty
enum = enumeration [] false

abbrev pub arm : ℕ → ℕ → Option Ty → UnionField
arm label n decl = record { cases = label ∷ []; has_default = false; fieldno = n; decl = decl }

abbrev pub default_arm : UnionField
default_arm = record { cases = []; has_default = true; fieldno = 0; decl = none }

-- opaque_auth, call_body, mismatch_info (of both kinds of replies), reply_data, accepted_reply,
-- rejected_reply, reply_body, body and rpc_msg.
abbrev pub declared : List Class
declared =
    struct (enum ∷ opaque_vec 400 ∷ [])
    ∷ struct (uint32 ∷ uint32 ∷ uint32 ∷ uint32 ∷ named 0 ∷ named 0 ∷ [])
    ∷ struct (uint32 ∷ uint32 ∷ [])
    ∷ union enum (arm 0 1 (some (opaque_array 0)) ∷ arm 2 2 (some (named 2)) ∷ default_arm ∷ [])
    ∷ struct (named 0 ∷ named 3 ∷ [])
    ∷ union enum (arm 0 1 (some (named 2)) ∷ arm 1 2 (some enum) ∷ [])
    ∷ union enum (arm 0 1 (some (named 4)) ∷ arm 1 2 (some (named 5)) ∷ [])
    ∷ union enum (arm 0 1 (some (named 1)) ∷ arm 1 2 (some (named 6)) ∷ [])
    ∷ struct (uint32 ∷ named 7 ∷ [])
    ∷ []

-- The classes of rpc_msg.x stand in front of those of the application, which has no `validate` for
-- them.
abbrev pub rpc_schema : Schema → Schema
rpc_schema application = record {
  classes = λ k. elim (get_elem? declared k) [ some c ↦ c | none ↦ application.classes k ];
  validate = λ k v. if ltb k 9 then true else application.validate k v;
}

abbrev pub rpc_msg : Ty
rpc_msg = named 8

abbrev pub auth_val : OpaqueAuth → Val
auth_val a = seq (cons (num a.flavor) (cons (bytes a.body) nil))

abbrev pub call_val : CallBody → Val
call_val c = seq (
    cons (num c.rpcvers) (
      cons (num c.prog) (
        cons (num c.vers)
          (cons (num c.proc) (cons (auth_val c.cred) (cons (auth_val c.verf) nil))))))

abbrev pub pair_val : ℕ → ℕ → Val
pair_val low high = seq (cons (num low) (cons (num high) nil))

abbrev pub data_val : ReplyData → Val
data_val results = choice 0 (cons (bytes []) nil)
data_val (mismatch_info low high) = choice 2 (cons (pair_val low high) nil)
data_val (no_data stat) = choice stat nil

abbrev pub accepted_val : AcceptedReply → Val
accepted_val a = seq (cons (auth_val a.verf) (cons (data_val a.reply_data) nil))

abbrev pub rejected_val : RejectedReply → Val
rejected_val (rejected_mismatch low high) = choice 0 (cons (pair_val low high) nil)
rejected_val (rj_why stat) = choice 1 (cons (num stat) nil)
rejected_val (other_reject stat) = choice stat nil

abbrev pub reply_val : ReplyBody → Val
reply_val (areply a) = choice 0 (cons (accepted_val a) nil)
reply_val (rreply r) = choice 1 (cons (rejected_val r) nil)
reply_val (other_reply stat) = choice stat nil

abbrev pub body_val : Body → Val
body_val (cbody c) = choice 0 (cons (call_val c) nil)
body_val (rbody r) = choice 1 (cons (reply_val r) nil)

-- A message as a value of its class.
abbrev pub msg_val : RpcMsg → Val
msg_val m = seq (cons (num m.xid) (cons (body_val m.body) nil))
