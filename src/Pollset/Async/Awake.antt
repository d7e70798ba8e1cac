-- ===== src/Pollset/Async/Awake.antt =====
-- No wakeup is lost.
use xdrpp.Common.{
  ℕ, ◌<◌, ◌≢◌, ◌≡◌, refl, sym, ap, subst, ◌∙◌, arith, Bool, true, false, List, [], ◌∷◌, ◌++◌,
  length, append-nil, ltb, Bool-cases, inl, inr, if_true, if_false,
}
use xdrpp.Pollset.Async.{
  Shared, Pc, polling, draining, locking, undefined, running, World, WakeType, normal, read_pipe,
  read_or_lock, advance_from, advance, inject_cb_vec, wake, inject_cb, Step, inject, woken, ready,
  go_on, throw_from, Reach, here, next, start,
}
use xdrpp.Pollset.Async.Order.{Ordered, wake-async_cbs, Reach-InOrder}

wake-async_pending :
    (capacity : ℕ) (b : WakeType) (s : Shared) → (wake capacity b s).async_pending ≡ s.async_pending
unfolding wake
wake-async_pending capacity b s = ground arith

-- The callbacks that wait are announced, and the announcement is not yet read unless the reader is
-- about to take them.
abbrev IsAnnounced : Pc → Shared → Type 0
IsAnnounced polling s = s.async_pending ≡ true → s.pipe ≢ []
IsAnnounced (running cs) s = s.async_pending ≡ true → s.pipe ≢ []
IsAnnounced draining s = Unit
IsAnnounced locking s = Unit
IsAnnounced undefined s = Unit

abbrev pub IsAwake : World → Type 0
IsAwake w = (w.shared.async_pending ≡ false → w.shared.async_cbs ≡ []) × IsAnnounced w.pc w.shared

of_pipe : (pc : Pc) (s : Shared) → (s.async_pending ≡ true → s.pipe ≢ []) → IsAnnounced pc s
of_pipe polling s h = h
of_pipe (running cs) s h = h
of_pipe draining s h = tt
of_pipe locking s h = tt
of_pipe undefined s h = tt

append-ne-nil : {A : Type 0} (xs : List A) (x : A) → xs ++ (x ∷ []) ≢ []
append-ne-nil [] x e = cc
append-ne-nil (y ∷ ys) x e = cc

ltb_empty :
    (s : List WakeType) (capacity : ℕ) → 0 < capacity → ltb (length s) capacity ≡ false → s ≢ []
ltb_empty [] capacity h e = absurd (ground arith)
ltb_empty (b ∷ bs) capacity h e = λ k. cc

wake-pipe :
    (capacity : ℕ) (b : WakeType) (s : Shared) → 0 < capacity → (wake capacity b s).pipe ≢ []
unfolding wake
wake-pipe capacity b s h = elim (Bool-cases (ltb (length s.pipe) capacity)) [
  | inl e ↦ subst (λ (t : Shared). t.pipe ≢ []) (sym (if_true _ _ e)) (append-ne-nil s.pipe b)
  | inr e ↦
      subst (λ (t : Shared). t.pipe ≢ []) (sym (if_false _ _ e)) (ltb_empty s.pipe capacity h e)
]

wake-IsAnnounced :
    (capacity : ℕ) (b : WakeType) (pc : Pc) (s : Shared)
    → 0 < capacity
    → IsAnnounced pc (wake capacity b s)
wake-IsAnnounced capacity b pc s h = of_pipe pc (wake capacity b s) (λ e. wake-pipe capacity b s h)

same_pipe :
    (pc : Pc) (s t : Shared)
    → t.async_pending ≡ s.async_pending
    → t.pipe ≡ s.pipe
    → IsAnnounced pc s
    → IsAnnounced pc t
same_pipe polling s t e p h = λ k q. h (sym e ∙ k) (sym p ∙ q)
same_pipe (running cs) s t e p h = λ k q. h (sym e ∙ k) (sym p ∙ q)
same_pipe draining s t e p h = tt
same_pipe locking s t e p h = tt
same_pipe undefined s t e p h = tt

true_or_false : (b : Bool) → b ≡ true → b ≡ false → ⊥
true_or_false b h k = cc

inject_cb-IsAwake :
    (capacity cb : ℕ) (w : World)
    → 0 < capacity
    → IsAwake w
    → IsAwake
        (record w { shared = inject_cb capacity cb w.shared; injected = w.injected ++ (cb ∷ []) })
unfolding inject_cb
inject_cb-IsAwake capacity cb w h (n, a) = elim (Bool-cases w.shared.async_pending) [
  | inl e ↦
      subst (λ s. IsAwake (record w { shared = s; injected = w.injected ++ (cb ∷ []) }))
        (sym (if_true _ _ e))
        (
          λ k. absurd (true_or_false w.shared.async_pending e k),
          same_pipe w.pc w.shared (record w.shared { async_cbs = w.shared.async_cbs ++ (cb ∷ []) })
              refl refl a,
        )
  | inr e ↦
      let s : Shared = record w.shared {
        async_cbs = w.shared.async_cbs ++ (cb ∷ []);
        async_pending = true;
      } in
      subst (λ s. IsAwake (record w { shared = s; injected = w.injected ++ (cb ∷ []) }))
        (sym (if_false _ _ e))
        (
          λ k. absurd (
              true_or_false (wake capacity normal s).async_pending
                (wake-async_pending capacity normal s) k),
          wake-IsAnnounced capacity normal w.pc s h,
        )
]

wake-IsAwake :
    (capacity : ℕ) (b : WakeType) (w : World)
    → 0 < capacity
    → IsAwake w
    → IsAwake (record w { shared = wake capacity b w.shared })
wake-IsAwake capacity b w h (n, a) = (
  λ k. wake-async_cbs capacity b w.shared ∙ n (sym (wake-async_pending capacity b w.shared) ∙ k),
  wake-IsAnnounced capacity b w.pc w.shared h,
)

advance-IsAwake :
    (pc : Pc) (w : World)
    → w.pc ≡ pc
    → (w.shared.async_pending ≡ false → w.shared.async_cbs ≡ [])
    → IsAnnounced pc w.shared
    → IsAwake (advance_from pc w)
advance-IsAwake polling w e n a = (n, subst (λ pc. IsAnnounced pc w.shared) (sym e) a)
advance-IsAwake undefined w e n a = (n, subst (λ pc. IsAnnounced pc w.shared) (sym e) a)
advance-IsAwake draining w e n a = reads w.shared.pipe
  where
    reads : (p : List WakeType) → IsAwake (read_or_lock p w)
    reads [] = (n, tt)
    reads (b ∷ bs) = (n, subst (λ pc. IsAnnounced pc (read_pipe w.shared)) (sym e) tt)
advance-IsAwake locking w e n a = (λ k. refl, λ k. absurd (cc))
advance-IsAwake (running []) w e n a = (n, a)
advance-IsAwake (running (c ∷ cs)) w e n a = (n, a)

after_throw :
    (c : ℕ) (cs : List ℕ) (s : Shared)
    → IsAnnounced (running (c ∷ cs)) s
    → IsAnnounced (inject_cb_vec cs) s
after_throw c [] s a = a
after_throw c (d ∷ ds) s a = tt

module _ (capacity : ℕ) (h : 0 < capacity) where
  Step-IsAwake : {w v : World} → Step capacity w v → IsAwake w → IsAwake v
  unfolding advance
  Step-IsAwake {w} (inject cb) a = inject_cb-IsAwake capacity cb w h a
  Step-IsAwake {w} (woken b) a = wake-IsAwake capacity b w h a
  Step-IsAwake {w} (ready e p) (n, a) = (n, tt)
  Step-IsAwake {w} go_on (n, a) = advance-IsAwake w.pc w refl n a
  Step-IsAwake {w} (throw_from c cs e) (n, a) =
      (n, after_throw c cs w.shared (subst (λ pc. IsAnnounced pc w.shared) e a))

  Reach-IsAwake : {w : World} → Reach capacity start w → IsAwake w
  Reach-IsAwake here = (λ k. refl, λ k. absurd (cc))
  Reach-IsAwake (next r s) = Step-IsAwake s (Reach-IsAwake r)

  -- No wakeup is lost: in every state that the threads can reach, whatever order they run in, if the
  -- thread of the event loop is in `poll` and a callback that was injected has not been called, the
  -- pipe can be read, so that `poll` returns.
  pub Reach-pipe :
      {w : World}
      → Reach capacity start w
      → w.pc ≡ polling
      → w.injected ≢ w.called
      → w.shared.pipe ≢ []
  Reach-pipe {w} r e n =
      let (k, a) = Reach-IsAwake r in
      elim (Bool-cases w.shared.async_pending) [
        | inl p ↦ subst (λ pc. IsAnnounced pc w.shared) e a p
        | inr p ↦ absurd (
            n (
              subst (λ pc. Ordered pc w.injected w.called w.shared.async_cbs) e
                (Reach-InOrder capacity r)
              ∙ ap (λ l. w.called ++ l) (k p)
              ∙ append-nil w.called))
      ]
