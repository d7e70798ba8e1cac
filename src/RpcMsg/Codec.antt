-- ===== src/RpcMsg/Codec.antt =====
-- The structure that a value of one of the classes of xdrpp/rpc_msg.x stands for.
use xdrpp.Common.{
  ℕ, zero, suc, get_elem?, ◌^◌, ◌<◌, ◌≤◌, ◌≡◌, ◌≢◌, refl, arith, List, [], ◌∷◌, length, none, some,
}
use xdrpp.Common.Result.{Res, ok, ill_typed, ◌>>=◌}
use xdrpp.Types.{
  Class, Val, num, bytes, seq, choice, nil, cons, Schema, named, opaque_array, kind, with_mem_ptr,
  labelled_field,
}
use xdrpp.Marshal.Put.Encode.{Fits}
use xdrpp.Marshal.Get.Formed.{IsClass, IsSchema}
use xdrpp.RpcMsg.{
  OpaqueAuth, CallBody, ReplyData, results, mismatch_info, no_data, AcceptedReply, RejectedReply,
  rejected_mismatch, rj_why, other_reject, ReplyBody, areply, rreply, other_reply, Body, cbody,
  rbody, RpcMsg, rpc_schema, declared, rpc_msg, arm, default_arm, pair_val, auth_val, call_val,
  data_val, accepted_val, rejected_val, reply_val, body_val, msg_val,
}

unfoldable pub to_auth : Val → Res OpaqueAuth
to_auth (seq (cons (num f) (cons (bytes b) nil))) = ok (record { flavor = f; body = b })
to_auth _ = ill_typed

unfoldable pub to_call : Val → Res CallBody
unfolding to_auth
to_call (seq (cons (num r) (cons (num p) (cons (num v) (cons (num q) (cons c (cons a nil))))))) = do
  cred ← to_auth c
  verf ← to_auth a
  ok (record { rpcvers = r; prog = p; vers = v; proc = q; cred = cred; verf = verf })
to_call _ = ill_typed

unfoldable pub to_data : Val → Res ReplyData
to_data (choice stat nil) = ok (no_data stat)
to_data (choice stat (cons (bytes b) nil)) = ok results
to_data (choice stat (cons (seq (cons (num low) (cons (num high) nil))) nil)) =
    ok (mismatch_info low high)
to_data _ = ill_typed

unfoldable pub to_accepted : Val → Res AcceptedReply
unfolding to_auth to_data
to_accepted (seq (cons a (cons d nil))) = do
  verf ← to_auth a
  data' ← to_data d
  ok (record { verf = verf; reply_data = data' })
to_accepted _ = ill_typed

unfoldable pub to_rejected : Val → Res RejectedReply
to_rejected (choice stat (cons (num why) nil)) = ok (rj_why why)
to_rejected (choice stat (cons (seq (cons (num low) (cons (num high) nil))) nil)) =
    ok (rejected_mismatch low high)
to_rejected (choice stat nil) = ok (other_reject stat)
to_rejected _ = ill_typed

unfoldable pub to_reply : Val → Res ReplyBody
unfolding to_accepted to_rejected
to_reply (choice zero (cons a nil)) = do r ← to_accepted a; ok (areply r)
to_reply (choice (suc stat) (cons a nil)) = do r ← to_rejected a; ok (rreply r)
to_reply (choice stat nil) = ok (other_reply stat)
to_reply _ = ill_typed

unfoldable pub to_body : Val → Res Body
unfolding to_call to_reply
to_body (choice zero (cons a nil)) = do c ← to_call a; ok (cbody c)
to_body (choice (suc mtype) (cons a nil)) = do r ← to_reply a; ok (rbody r)
to_body _ = ill_typed

unfoldable pub to_msg : Val → Res RpcMsg
unfolding to_body
to_msg (seq (cons (num x) (cons b nil))) = do body ← to_body b; ok (record { xid = x; body = body })
to_msg _ = ill_typed

to_call-call_val : (c : CallBody) → to_call (call_val c) ≡ ok c
unfolding to_call
to_call-call_val c = refl

to_data-data_val : (d : ReplyData) → to_data (data_val d) ≡ ok d
unfolding to_data
to_data-data_val results = refl
to_data-data_val (mismatch_info low high) = refl
to_data-data_val (no_data stat) = refl

to_accepted-accepted_val : (a : AcceptedReply) → to_accepted (accepted_val a) ≡ ok a
unfolding to_accepted
to_accepted-accepted_val a = rw (to_data-data_val a.reply_data) refl

to_rejected-rejected_val : (r : RejectedReply) → to_rejected (rejected_val r) ≡ ok r
unfolding to_rejected
to_rejected-rejected_val (rejected_mismatch low high) = refl
to_rejected-rejected_val (rj_why stat) = refl
to_rejected-rejected_val (other_reject stat) = refl

to_reply-reply_val : (r : ReplyBody) → to_reply (reply_val r) ≡ ok r
unfolding to_reply
to_reply-reply_val (areply a) = rw (to_accepted-accepted_val a) refl
to_reply-reply_val (rreply r) = rw (to_rejected-rejected_val r) refl
to_reply-reply_val (other_reply zero) = refl
to_reply-reply_val (other_reply (suc stat)) = refl

to_body-body_val : (b : Body) → to_body (body_val b) ≡ ok b
unfolding to_body
to_body-body_val (cbody c) = refl
to_body-body_val (rbody r) = rw (to_reply-reply_val r) refl

-- A message stands for itself.
pub to_msg-msg_val : (m : RpcMsg) → to_msg (msg_val m) ≡ ok m
unfolding to_msg
to_msg-msg_val m = rw (to_body-body_val m.body) refl

-- The numbers of a message are `uint32_t`s, its authenticators have at most 400 bytes, and a reply
-- without data has a status that is neither a success nor a mismatch. A `reply_stat` or a
-- `reject_stat` is one of the two that there are.
abbrev pub IsAuth : OpaqueAuth → Type 0
IsAuth a = (a.flavor < 2 ^ 32) × (length a.body ≤ 400)

abbrev pub IsCall : CallBody → Type 0
IsCall c =
    (c.rpcvers < 2 ^ 32)
    × (c.prog < 2 ^ 32)
    × (c.vers < 2 ^ 32)
    × (c.proc < 2 ^ 32)
    × IsAuth c.cred
    × IsAuth c.verf

abbrev pub IsData : ReplyData → Type 0
IsData results = Unit
IsData (mismatch_info low high) = (low < 2 ^ 32) × (high < 2 ^ 32)
IsData (no_data stat) = (stat < 2 ^ 32) × (stat ≢ 0) × (stat ≢ 2)

abbrev pub IsReply : ReplyBody → Type 0
IsReply (areply a) = IsAuth a.verf × IsData a.reply_data
IsReply (rreply (rejected_mismatch low high)) = (low < 2 ^ 32) × (high < 2 ^ 32)
IsReply (rreply (rj_why stat)) = stat < 2 ^ 32
IsReply (rreply (other_reject stat)) = ⊥
IsReply (other_reply stat) = ⊥

abbrev pub IsBody : Body → Type 0
IsBody (cbody c) = IsCall c
IsBody (rbody r) = IsReply r

abbrev pub IsMsg : RpcMsg → Type 0
IsMsg m = (m.xid < 2 ^ 32) × IsBody m.body

void_arm :
    (stat : ℕ)
    → stat ≢ 0
    → stat ≢ 2
    → with_mem_ptr
        (arm 0 1 (some (opaque_array 0)) ∷ arm 2 2 (some (named 2)) ∷ default_arm ∷ [])
        stat
      ≡ some default_arm
unfolding with_mem_ptr labelled_field
void_arm stat z t = ground arith

module _ (application : Schema) where
  abbrev Fit : ℕ → ℕ → Val → Type 0
  Fit L k v = Fits (rpc_schema application) L (named k) v

  auth-Fits : (L : ℕ) (a : OpaqueAuth) → IsAuth a → Fit (suc L) 0 (auth_val a)
  unfolding Fits kind
  auth-Fits zero a h = (refl, ((h.0, tt), ((h.1, omega arith), tt)))
  auth-Fits (suc L) a h = (refl, ((h.0, tt), ((h.1, omega arith), tt)))

  call-Fits : (L : ℕ) (c : CallBody) → IsCall c → Fit (suc (suc L)) 1 (call_val c)
  unfolding Fits kind
  call-Fits L c (r, p, v, q, a, b) = (
    refl,
    ((r, tt), ((p, tt), ((v, tt), ((q, tt), (auth-Fits L c.cred a, (auth-Fits L c.verf b, tt)))))),
  )

  pair-Fits : (L low high : ℕ) → low < 2 ^ 32 → high < 2 ^ 32 → Fit (suc L) 2 (pair_val low high)
  unfolding Fits kind
  pair-Fits zero low high l h = (refl, ((l, tt), ((h, tt), tt)))
  pair-Fits (suc L) low high l h = (refl, ((l, tt), ((h, tt), tt)))

  data-Fits : (L : ℕ) (d : ReplyData) → IsData d → Fit (suc (suc L)) 3 (data_val d)
  unfolding Fits kind with_mem_ptr labelled_field
  data-Fits L results h = (refl, (refl, omega arith, tt, (refl, omega arith)))
  data-Fits L (mismatch_info low high) h =
      (refl, (refl, omega arith, tt, pair-Fits L low high h.0 h.1))
  data-Fits L (no_data stat) (h, z, t) = (refl, (refl, h, tt, rw (void_arm stat z t) tt))

  accepted-Fits :
      (L : ℕ) (a : AcceptedReply)
      → IsAuth a.verf
      → IsData a.reply_data
      → Fit (suc (suc (suc L))) 4 (accepted_val a)
  unfolding Fits kind
  accepted-Fits L a v d = (refl, (auth-Fits (suc L) a.verf v, (data-Fits L a.reply_data d, tt)))

  reply-Fits : (L : ℕ) (r : ReplyBody) → IsReply r → Fit (suc (suc (suc (suc L)))) 6 (reply_val r)
  unfolding Fits kind with_mem_ptr labelled_field
  reply-Fits L (areply a) h = (refl, (refl, omega arith, tt, accepted-Fits L a h.0 h.1))
  reply-Fits L (rreply (rejected_mismatch low high)) h = (
    refl,
    (refl, omega arith, tt, (refl, (refl, omega arith, tt, pair-Fits (suc L) low high h.0 h.1))),
  )
  reply-Fits L (rreply (rj_why stat)) h =
      (refl, (refl, omega arith, tt, (refl, (refl, omega arith, tt, (h, tt)))))
  reply-Fits L (rreply (other_reject stat)) h = absurd h
  reply-Fits L (other_reply stat) h = absurd h

  body-Fits : (L : ℕ) (b : Body) → IsBody b → Fit (suc (suc (suc (suc (suc L))))) 7 (body_val b)
  unfolding Fits kind with_mem_ptr labelled_field
  body-Fits L (cbody c) h = (refl, (refl, omega arith, tt, call-Fits (suc (suc L)) c h))
  body-Fits L (rbody r) h = (refl, (refl, omega arith, tt, reply-Fits L r h))

  -- Every message is a value of its class, nested at most six deep.
  pub msg-Fits :
      (L : ℕ) (m : RpcMsg)
      → IsMsg m
      → Fits (rpc_schema application) (suc (suc (suc (suc (suc (suc L)))))) rpc_msg (msg_val m)
  unfolding Fits kind
  msg-Fits L m (x, b) = (refl, ((x, tt), (body-Fits L m.body b, tt)))

abbrev AreClasses : List Class → Type 0
AreClasses [] = Unit
AreClasses (c ∷ cs) = IsClass c × AreClasses cs

class_from-IsClass :
    (cs : List Class) (k : ℕ) (c : Class)
    → AreClasses cs
    → IsClass c
    → IsClass (elim (get_elem? cs k) [ some d ↦ d | none ↦ c ])
class_from-IsClass [] k c w h = h
class_from-IsClass (d ∷ cs) zero c w h = w.0
class_from-IsClass (d ∷ cs) (suc k) c w h = class_from-IsClass cs k c w.1 h

-- The compiler of the interface accepts the classes of rpc_msg.x.
pub rpc_schema-IsSchema : (s : Schema) → IsSchema s → IsSchema (rpc_schema s)
unfolding kind
rpc_schema-IsSchema s w k =
    class_from-IsClass declared k (s.classes k)
      (
        (tt, (omega arith, tt)),
        (
          (tt, (tt, (tt, (tt, (tt, (tt, tt)))))),
          (
            (tt, (tt, tt)),
            (
              (refl, (omega arith, (tt, (tt, tt)))),
              (
                (tt, (tt, tt)),
                (
                  (refl, (tt, (tt, tt))),
                  ((refl, (tt, (tt, tt))), ((refl, (tt, (tt, tt))), ((tt, (tt, tt)), tt))),
                ),
              ),
            ),
          ),
        ),
      )
      (w k)
