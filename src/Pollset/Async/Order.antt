-- ===== src/Pollset/Async/Order.antt =====
-- What other threads hand over is called once, in order.
use xdrpp.Common.{
  ℕ, ◌≡◌, refl, sym, ap, subst, ◌∙◌, arith, List, [], ◌∷◌, ◌++◌, append_assoc, append-nil,
}
use xdrpp.Pollset.Async.{
  Shared, Pc, polling, draining, locking, undefined, running, World, WakeType, read_or_lock,
  advance_from, advance, inject_cb_vec, wake, inject_cb, Step, inject, woken, ready, go_on,
  throw_from, Reach, here, next, start,
}

abbrev pub Ordered : Pc → List ℕ → List ℕ → List ℕ → Type 0
Ordered polling injected called waiting = injected ≡ called ++ waiting
Ordered draining injected called waiting = injected ≡ called ++ waiting
Ordered locking injected called waiting = injected ≡ called ++ waiting
Ordered undefined injected called waiting = Unit
Ordered (running cs) injected called waiting = injected ≡ called ++ (cs ++ waiting)

-- Every callback that was injected has been called, is to be called by the loop that runs, or waits,
-- in the order of their injection.
abbrev pub InOrder : World → Type 0
InOrder w = Ordered w.pc w.injected w.called w.shared.async_cbs

Ordered-inject :
    (pc : Pc) (injected called waiting : List ℕ) (c : ℕ)
    → Ordered pc injected called waiting
    → Ordered pc (injected ++ (c ∷ [])) called (waiting ++ (c ∷ []))
Ordered-inject polling i d a c h = ap (λ l. l ++ (c ∷ [])) h ∙ append_assoc d a (c ∷ [])
Ordered-inject draining i d a c h = ap (λ l. l ++ (c ∷ [])) h ∙ append_assoc d a (c ∷ [])
Ordered-inject locking i d a c h = ap (λ l. l ++ (c ∷ [])) h ∙ append_assoc d a (c ∷ [])
Ordered-inject undefined i d a c h = tt
Ordered-inject (running cs) i d a c h =
    ap (λ l. l ++ (c ∷ [])) h
    ∙ append_assoc d (cs ++ a) (c ∷ [])
    ∙ ap (λ l. d ++ l) (append_assoc cs a (c ∷ []))

inject_cb-async_cbs :
    (capacity cb : ℕ) (s : Shared) → (inject_cb capacity cb s).async_cbs ≡ s.async_cbs ++ (cb ∷ [])
unfolding inject_cb
inject_cb-async_cbs capacity cb s = ground arith

pub wake-async_cbs :
    (capacity : ℕ) (b : WakeType) (s : Shared) → (wake capacity b s).async_cbs ≡ s.async_cbs
unfolding wake
wake-async_cbs capacity b s = ground arith

read_or_lock-InOrder :
    (w : World) (p : List WakeType)
    → w.pc ≡ draining
    → w.injected ≡ w.called ++ w.shared.async_cbs
    → InOrder (read_or_lock p w)
read_or_lock-InOrder w [] e h = h
read_or_lock-InOrder w (b ∷ bs) e h =
    subst (λ pc. Ordered pc w.injected w.called w.shared.async_cbs) (sym e) h

advance-InOrder :
    (pc : Pc) (w : World)
    → w.pc ≡ pc
    → Ordered pc w.injected w.called w.shared.async_cbs
    → InOrder (advance_from pc w)
advance-InOrder polling w e h =
    subst (λ pc. Ordered pc w.injected w.called w.shared.async_cbs) (sym e) h
advance-InOrder undefined w e h =
    subst (λ pc. Ordered pc w.injected w.called w.shared.async_cbs) (sym e) h
advance-InOrder draining w e h = read_or_lock-InOrder w w.shared.pipe e h
advance-InOrder locking w e h = h ∙ ap (λ l. w.called ++ l) (sym (append-nil w.shared.async_cbs))
advance-InOrder (running []) w e h = h
advance-InOrder (running (c ∷ cs)) w e h =
    h ∙ sym (append_assoc w.called (c ∷ []) (cs ++ w.shared.async_cbs))

module _ (capacity : ℕ) where
  Step-InOrder : {w v : World} → Step capacity w v → InOrder w → InOrder v
  unfolding advance
  Step-InOrder {w} (inject cb) o =
      subst (λ a. Ordered w.pc (w.injected ++ (cb ∷ [])) w.called a)
        (sym (inject_cb-async_cbs capacity cb w.shared))
        (Ordered-inject w.pc w.injected w.called w.shared.async_cbs cb o)
  Step-InOrder {w} (woken b) o =
      subst (λ a. Ordered w.pc w.injected w.called a) (sym (wake-async_cbs capacity b w.shared)) o
  Step-InOrder {w} (ready e p) o =
      subst (λ pc. Ordered pc w.injected w.called w.shared.async_cbs) e o
  Step-InOrder {w} go_on o = advance-InOrder w.pc w refl o
  Step-InOrder {w} (throw_from c cs e) o =
      thrown cs (subst (λ pc. Ordered pc w.injected w.called w.shared.async_cbs) e o)
    where
      thrown :
          (cs : List ℕ)
          → w.injected ≡ w.called ++ ((c ∷ cs) ++ w.shared.async_cbs)
          → Ordered (inject_cb_vec cs) w.injected (w.called ++ (c ∷ [])) w.shared.async_cbs
      thrown [] o = o ∙ sym (append_assoc w.called (c ∷ []) w.shared.async_cbs)
      thrown (d ∷ ds) o = tt

  -- In every state that the threads can reach, whatever order they run in, each callback that was
  -- injected has been called once, is next in the loop that runs or waits, in the order in which they
  -- were injected, unless a callback has thrown with others behind it.
  pub Reach-InOrder : {w : World} → Reach capacity start w → InOrder w
  Reach-InOrder here = refl
  Reach-InOrder (next r s) = Step-InOrder s (Reach-InOrder r)
