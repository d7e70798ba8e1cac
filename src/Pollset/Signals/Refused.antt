-- ===== src/Pollset/Signals/Refused.antt =====
-- A signal that `sigaction` refuses.
use xdrpp.Common.{
  ℕ, zero, suc, ◌≡◌, refl, sym, ap, ◌∙◌, Bool, true, false, none, some, List, [], ◌∷◌, ◌==◌,
  Bool-cases, Option-cases, inl, inr, ==_iff, if_true, if◌then◌else◌,
}
use xdrpp.Server.Registry.{lookup}
use xdrpp.Pollset.Signals.{
  put, Signals, returned, thrown, out_of_turns, take_signal, signal_cb, raise_flagged,
  release_signal, erase_signal_cb, and_then, destroy,
}
use xdrpp.Pollset.Signals.Owners.{is_some, moved, with_cb, has-moved, has-with_cb}
use xdrpp.Pollset.Signals.Calls.{destroy-turn, released, erase_owned}

-- `p` has a callback for a signal that nobody owns.
abbrev IsStuck : ℕ → ℕ → Signals → Type 0
IsStuck p sig s = (is_some (lookup sig (s.cbs p)) ≡ true) × (s.owners sig ≡ none)

raise_flagged-IsStuck :
    (k p sig : ℕ) (s : Signals) → IsStuck p sig s → IsStuck p sig (raise_flagged k s)
raise_flagged-IsStuck k p sig s h = elim (Bool-cases (s.flags k == 0)) [
  | inl e ↦ rw e h
  | inr e ↦ rw e h
]

-- Another signal is taken from its owner.
released-IsStuck :
    (k q p sig : ℕ) (s : Signals)
    → s.owners k ≡ some q
    → IsStuck p sig s
    → IsStuck p sig (released k q s)
released-IsStuck k q p sig s e (c, n) = raise_flagged-IsStuck k p sig (moved k q none s) (
  has-moved k q none s p sig ∙ either (p == q) (sig == k) (other (sig == k) refl),
  unowned (sig == k),
)
  where
    other : (b : Bool) → (sig == k) ≡ b → b ≡ false
    other true h = absurd (cc (sym n ∙ ap s.owners ((==_iff sig k).0 h) ∙ e))
    other false h = refl

    either :
        (a b : Bool)
        → b ≡ false
        → (if a
            then (if b then false else is_some (lookup sig (s.cbs p)))
            else is_some (lookup sig (s.cbs p)))
          ≡ true
    either true true h = cc
    either true false h = c
    either false b h = c

    unowned : (b : Bool) → (if b then none else s.owners sig) ≡ none
    unowned true = refl
    unowned false = n

erase_unowned : (k : ℕ) (s : Signals) → s.owners k ≡ none → erase_signal_cb true k s ≡ returned s
unfolding erase_signal_cb release_signal
erase_unowned k s o = ap (λ o. release_signal true k o s) o

destroy-stuck : (turns p sig : ℕ) (s : Signals) → IsStuck p sig s → destroy turns p s ≡ out_of_turns
unfolding destroy lookup
destroy-stuck zero p sig s (c, n) = first (s.cbs p) refl c
  where
    first :
        (m : List (ℕ × ℕ))
        → s.cbs p ≡ m
        → is_some (lookup sig m) ≡ true
        → destroy zero p s ≡ out_of_turns
    first [] e c = absurd (cc)
    first (x ∷ m) e c = rw (e, destroy) refl
destroy-stuck (suc turns) p sig s (c, n) =
    first (s.cbs p) refl c (λ t h. destroy-stuck turns p sig t h)
  where
    first :
        (m : List (ℕ × ℕ))
        → s.cbs p ≡ m
        → is_some (lookup sig m) ≡ true
        → ((t : Signals) → IsStuck p sig t → destroy turns p t ≡ out_of_turns)
        → destroy (suc turns) p s ≡ out_of_turns
    first [] e c ih = absurd (cc)
    first ((k, cb) ∷ m) e d ih =
        destroy-turn turns p s ((k, cb) ∷ m) e ∙ elim (Option-cases (s.owners k)) [
          | inl o ↦ ap (λ r. and_then r (destroy turns p)) (erase_unowned k s o) ∙ ih s (c, n)
          | inr (q, o) ↦
              ap (λ r. and_then r (destroy turns p)) (erase_owned k q s o)
              ∙ ih (released k q s) (released-IsStuck k q p sig s o (c, n))
        ]

-- Where `sigaction` refuses a signal that nobody owns, `signal_cb` throws and keeps the callback, and
-- the destructor of the object never ends: the loop meets the callback again and again, and the
-- signal has no owner whose callback would be erased.
pub signal_cb-destroy :
    (p sig cb : ℕ) (s : Signals)
    → s.owners sig ≡ none
    → (t : Signals) × (signal_cb false p sig cb s ≡ thrown t)
      × ((turns : ℕ) → destroy turns p t ≡ out_of_turns)
unfolding signal_cb take_signal
signal_cb-destroy p sig cb s n = (
  kept,
  ap (λ o. take_signal false p sig o (with_cb p sig cb s)) n,
  λ turns. destroy-stuck turns p sig kept (has, unowned (sig == sig)),
)
  where
    kept : Signals
    kept = record (with_cb p sig cb s) { owners = put sig none s.owners }

    has : is_some (lookup sig (kept.cbs p)) ≡ true
    has =
        has-with_cb p sig cb s p sig
        ∙ if_true _ _ ((==_iff p p).1 refl)
        ∙ if_true _ _ ((==_iff sig sig).1 refl)

    unowned : (b : Bool) → (if b then none else s.owners sig) ≡ none
    unowned true = refl
    unowned false = n
