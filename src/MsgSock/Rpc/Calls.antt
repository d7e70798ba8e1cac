-- ===== src/MsgSock/Rpc/Calls.antt =====
-- Every callback is called once at most, and none is lost but by a call whose xid is in use.
use xdrpp.Common.{
  ℕ, ◌+◌, ◌*◌, ◌≤◌, ◌≡◌, refl, ◌∙◌, arith, Bool, true, Option, none, some, List, [], ◌∷◌, ◌++◌,
  length, drop, ltb, ◌==◌, if◌then◌else◌, Bool-cases, Option-cases, inl, inr, ltb→le, if_true,
  length-drop,
}
use xdrpp.Common.Result.{ok, ◌>>=◌, Returns, gives, Returns-bind}
use xdrpp.Endian.{swap32le}
use xdrpp.Marshal.{load32}
use xdrpp.MsgSock.Rpc.{
  Effect, invoke, serve, unavailable, ignored, Rpc, find, erase, invoke_all, abort_all_calls, word,
  recv_call, recv_reply, answer, recv_whole, recv_msg, call, reply,
}

-- How often a callback has been called, and how often it is waiting.
abbrev pub invoked : ℕ → List Effect → ℕ
invoked cb [] = 0
invoked cb (invoke k b ∷ es) = if cb == k then 1 + invoked cb es else invoked cb es
invoked cb (_ ∷ es) = invoked cb es

abbrev pub waiting : ℕ → List (ℕ × ℕ) → ℕ
waiting cb [] = 0
waiting cb ((x, k) ∷ calls) = if cb == k then 1 + waiting cb calls else waiting cb calls

abbrev pub owed : ℕ → Rpc → ℕ
owed cb r = invoked cb r.effects + waiting cb r.calls

invoked-append :
    (cb : ℕ) (es fs : List Effect) → invoked cb (es ++ fs) ≡ invoked cb es + invoked cb fs
invoked-append cb [] fs = omega arith
invoked-append cb (invoke k b ∷ es) fs = ground (arith, invoked-append cb es fs)
invoked-append cb (serve b ∷ es) fs = invoked-append cb es fs
invoked-append cb (unavailable x ∷ es) fs = invoked-append cb es fs
invoked-append cb (ignored ∷ es) fs = invoked-append cb es fs

invoked-invoke_all :
    (cb : ℕ) (calls : List (ℕ × ℕ)) → invoked cb (invoke_all calls) ≡ waiting cb calls
invoked-invoke_all cb [] = refl
invoked-invoke_all cb ((x, k) ∷ calls) = ground (arith, invoked-invoke_all cb calls)

waiting-erase :
    (cb x k : ℕ) (calls : List (ℕ × ℕ))
    → find x calls ≡ some k
    → (if cb == k then 1 else 0) + waiting cb (erase x calls) ≡ waiting cb calls
unfolding find erase
waiting-erase cb x k [] e = absurd (cc)
waiting-erase cb x k ((y, j) ∷ calls) e = ground (arith, waiting-erase cb x k calls)

-- The messages that a socket with a server gets leave what is owed to every callback as it is.
abbrev pub Same : Rpc → Rpc → Type 0
Same r t = (t.has_servcb ≡ r.has_servcb) × ((cb : ℕ) → owed cb t ≡ owed cb r)

abort_all_calls-Same : (r : Rpc) → Same r (abort_all_calls r)
unfolding abort_all_calls
abort_all_calls-Same r = (
  refl,
  λ cb.
      omega
        (arith, invoked-append cb r.effects (invoke_all r.calls), invoked-invoke_all cb r.calls),
)

module _ (be : Bool) where
  word-Returns : (i : ℕ) (m : List ℕ) → 4 * i + 4 ≤ length m → Returns (λ x. Unit) (word be i m)
  unfolding word load32
  word-Returns i m h = go (drop (4 * i) m) (omega (arith, length-drop (4 * i) m))
    where
      go : (l : List ℕ) → 4 ≤ length l → Returns (λ x. Unit) (load32 be l >>= λ r. ok r.0)
      go (a ∷ b ∷ c ∷ d ∷ l) h = gives tt
      go [] h = absurd (omega arith)
      go (_ ∷ []) h = absurd (omega arith)
      go (_ ∷ _ ∷ []) h = absurd (omega arith)
      go (_ ∷ _ ∷ _ ∷ []) h = absurd (omega arith)

  recv_call-Same :
      (b : Option (List ℕ)) (r t : Rpc)
      → r.has_servcb ≡ true
      → Same r t
      → Returns (Same r) (recv_call be b t)
  unfolding recv_call
  recv_call-Same b r t h s =
      rw (if_true _ _ (s.0 ∙ h))
        (gives (s.0, λ cb. omega (arith, invoked-append cb t.effects (serve b ∷ []), s.1 cb)))

  recv_reply-Same : (m : List ℕ) (r : Rpc) → 8 ≤ length m → Returns (Same r) (recv_reply be m r)
  unfolding recv_reply answer
  recv_reply-Same m r h = Returns-bind (word-Returns 0 m (omega arith)) λ x _.
      (elim (Option-cases (find x r.calls)) [
        | inl unknown ↦
            rw (answer, unknown)
              (gives (refl, λ cb. omega (arith, invoked-append cb r.effects (ignored ∷ []))))
        | inr (k, known) ↦
            rw (answer, known)
              (gives (
                refl,
                λ cb. omega (
                  arith,
                  invoked-append cb r.effects (invoke k (some m) ∷ []),
                  waiting-erase cb x k r.calls known,
                  one cb k m,
                ),
              ))
      ])
    where
      one :
          (cb k : ℕ) (m : List ℕ) → invoked cb (invoke k (some m) ∷ []) ≡ (if cb == k then 1 else 0)
      one cb k m = ground arith

  recv_whole-Same :
      (m : List ℕ) (r : Rpc)
      → r.has_servcb ≡ true
      → 8 ≤ length m
      → Returns (Same r) (recv_whole be m r)
  unfolding recv_whole
  recv_whole-Same m r s h = Returns-bind (word-Returns 1 m (omega arith)) λ kind _.
      (elim (Bool-cases (kind == swap32le be call)) [
        | inl is_call ↦ rw is_call (recv_call-Same (some m) r r s (refl, λ cb. refl))
        | inr not_call ↦ rw not_call (elim (Bool-cases (kind == swap32le be reply)) [
          | inl is_reply ↦ rw is_reply (recv_reply-Same m r h)
          | inr neither ↦
              rw neither (recv_call-Same none r (abort_all_calls r) s (abort_all_calls-Same r))
        ])
      ])

  -- A socket with a server takes any message, or the end of the connection, and returns. For every
  -- callback the times it has been called and the times it is waiting in `calls_` together stay the
  -- same: a callback that leaves the table is called once, and no other is called.
  pub recv_msg-Same :
      (b : Option (List ℕ)) (r : Rpc) → r.has_servcb ≡ true → Returns (Same r) (recv_msg be b r)
  unfolding recv_msg
  recv_msg-Same none r h = recv_call-Same none r (abort_all_calls r) h (abort_all_calls-Same r)
  recv_msg-Same (some m) r h = elim (Bool-cases (ltb (length m) 8)) [
    | inl short ↦ rw short (recv_call-Same none r (abort_all_calls r) h (abort_all_calls-Same r))
    | inr whole ↦ rw whole (recv_whole-Same m r h (ltb→le _ _ whole))
  ]
