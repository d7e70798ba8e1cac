-- ===== src/Pollset/Signals/Calls.antt =====
-- The calls that give signals to a `pollset_plus` and take them away.
use xdrpp.Common.{
  ℕ, zero, suc, ◌≤◌, ◌≡◌, ◌≢◌, refl, sym, ap, subst, ◌∙◌, arith, Bool, true, false, Option, none,
  some, List, [], ◌∷◌, length, ◌==◌, Bool-cases, inl, inr, ==_iff, if_true, if_false,
}
use xdrpp.Server.Registry.{lookup}
use xdrpp.Pollset.Signals.{
  put, erase, Signals, Ended, returned, wake_flagged, take_signal, signal_cb, raise_flagged,
  release_signal, erase_signal_cb, and_then, destroy,
}
use xdrpp.Pollset.Signals.Owners.{
  is_some, owns, IsOwned, moved, with_cb, wake_flagged-IsOwned, raise_flagged-IsOwned,
  release-IsOwned, kept-IsOwned, given-IsOwned, steals-IsOwned,
}

wake_flagged-owners : (p sig : ℕ) (s : Signals) → (wake_flagged p sig s).owners ≡ s.owners
wake_flagged-owners p sig s = elim (Bool-cases (s.flags sig == 0)) [
  | inl e ↦ rw e refl
  | inr e ↦ rw e refl
]

pub raise_flagged-cbs : (sig : ℕ) (s : Signals) → (raise_flagged sig s).cbs ≡ s.cbs
raise_flagged-cbs sig s = elim (Bool-cases (s.flags sig == 0)) [
  | inl e ↦ rw e refl
  | inr e ↦ rw e refl
]

-- The signal has an owner already, or `sigaction` works.
abbrev pub Installs : Bool → Option ℕ → Type 0
Installs installs none = installs ≡ true
Installs installs (some q) = Unit

-- What has come of a `signal_cb` that returns.
abbrev pub IsTaken : ℕ → ℕ → Ended → Type 0
IsTaken p sig r = (s : Signals) × (r ≡ returned s) × IsOwned s × (s.owners sig ≡ some p)

new_owner :
    (p sig : ℕ) (s : Signals) (owners : ℕ → Option ℕ)
    → s.owners ≡ put sig (some p) owners
    → (wake_flagged p sig s).owners sig ≡ some p
new_owner p sig s owners e =
    ap (λ (f : ℕ → Option ℕ). f sig) (wake_flagged-owners p sig s ∙ e)
    ∙ if_true _ _ ((==_iff sig sig).1 refl)

take_signal-IsTaken :
    (installs : Bool) (p sig cb : ℕ) (o : Option ℕ) (s : Signals)
    → s.owners sig ≡ o
    → Installs installs o
    → IsOwned s
    → IsTaken p sig (take_signal installs p sig o (with_cb p sig cb s))
unfolding take_signal
take_signal-IsTaken true p sig cb none s e i h =
    let given : Signals = record (with_cb p sig cb s) { owners = put sig (some p) s.owners } in
    (
      wake_flagged p sig given,
      refl,
      wake_flagged-IsOwned p sig given (given-IsOwned p sig cb s e h),
      new_owner p sig given s.owners refl,
    )
take_signal-IsTaken false p sig cb none s e i h = absurd (cc)
take_signal-IsTaken installs p sig cb (some q) s e i h = elim (Bool-cases (q == p)) [
  | inl a ↦
      let own : s.owners sig ≡ some p = e ∙ ap some ((==_iff q p).0 a) in
      (with_cb p sig cb s, if_true _ _ a, kept-IsOwned p sig cb s own h, own)
  | inr a ↦
      let stolen : Signals = moved sig q (some p) (with_cb p sig cb s) in
      (
        wake_flagged p sig stolen,
        if_false _ _ a,
        wake_flagged-IsOwned p sig stolen (steals-IsOwned p q sig cb s a e h),
        new_owner p sig stolen s.owners refl,
      )
]

-- Where a signal has an owner or `sigaction` works, `signal_cb` returns, its caller is the owner of
-- the signal then, whoever was before, and again each `pollset_plus` has callbacks for the signals
-- that it owns and no others.
pub signal_cb-IsTaken :
    (installs : Bool) (p sig cb : ℕ) (s : Signals)
    → Installs installs (s.owners sig)
    → IsOwned s
    → IsTaken p sig (signal_cb installs p sig cb s)
unfolding signal_cb
signal_cb-IsTaken installs p sig cb s i h =
    take_signal-IsTaken installs p sig cb (s.owners sig) s refl i h

length-erase : (k : ℕ) (m : List (ℕ × ℕ)) → length (erase k m) ≤ length m
unfolding erase
length-erase k [] = omega arith
length-erase k ((j, a) ∷ m) = ground (arith, length-erase k m)

-- The first entry is erased.
length-erase_first : (k a : ℕ) (m : List (ℕ × ℕ)) → length (erase k ((k, a) ∷ m)) ≤ length m
unfolding erase
length-erase_first k a m = ground (arith, length-erase k m)

owner_of : (o : Option ℕ) (p : ℕ) → true ≡ owns o p → o ≡ some p
owner_of none p e = cc
owner_of (some q) p e = ap some ((==_iff q p).0 (sym e))

-- The destructor has ended.
abbrev pub IsDestroyed : ℕ → Ended → Type 0
IsDestroyed p r =
    (s : Signals) × (r ≡ returned s)
    × IsOwned s
    × (s.cbs p ≡ [])
    × ((sig : ℕ) → s.owners sig ≢ some p)

gone : (o : Option ℕ) (p : ℕ) → false ≡ owns o p → o ≢ some p
gone none p e k = cc
gone (some q) p e k = absurd (ground arith)

no_cbs-IsDestroyed : (p : ℕ) (s : Signals) → IsOwned s → s.cbs p ≡ [] → IsDestroyed p (returned s)
unfolding lookup
no_cbs-IsDestroyed p s h e = (
  s,
  refl,
  h,
  e,
  λ sig. gone (s.owners sig) p (ap (λ m. is_some (lookup sig m)) (sym e) ∙ h p sig),
)

pub has_first : (sig cb : ℕ) (m : List (ℕ × ℕ)) → is_some (lookup sig ((sig, cb) ∷ m)) ≡ true
unfolding lookup
has_first sig cb m = ap is_some (if_true _ _ ((==_iff sig sig).1 refl))

abbrev pub released : ℕ → ℕ → Signals → Signals
released sig q s = raise_flagged sig (moved sig q none s)

released-cbs : (sig p : ℕ) (s : Signals) → (released sig p s).cbs p ≡ erase sig (s.cbs p)
released-cbs sig p s =
    ap (λ (f : ℕ → List (ℕ × ℕ)). f p) (raise_flagged-cbs sig (moved sig p none s))
    ∙ if_true _ _ ((==_iff p p).1 refl)

abbrev pub turn_from : List (ℕ × ℕ) → ℕ → ℕ → Signals → Ended
turn_from [] turns p s = returned s
turn_from ((sig, cb) ∷ m) turns p s = and_then (erase_signal_cb true sig s) (destroy turns p)

pub destroy-turn :
    (turns p : ℕ) (s : Signals) (m : List (ℕ × ℕ))
    → s.cbs p ≡ m
    → destroy (suc turns) p s ≡ turn_from m turns p s
unfolding destroy
destroy-turn turns p s [] e = rw (e, destroy) refl
destroy-turn turns p s ((sig, cb) ∷ m) e = rw (e, destroy) refl

pub erase_owned :
    (sig q : ℕ) (s : Signals)
    → s.owners sig ≡ some q
    → erase_signal_cb true sig s ≡ returned (released sig q s)
unfolding erase_signal_cb release_signal
erase_owned sig q s e = ap (λ o. release_signal true sig o s) e

destroy-empty : (turns p : ℕ) (s : Signals) → s.cbs p ≡ [] → destroy turns p s ≡ returned s
unfolding destroy
destroy-empty zero p s e = rw (e, destroy) refl
destroy-empty (suc turns) p s e = rw (e, destroy) refl

-- Where `sigaction` works, the destructor ends, within as many turns as it has callbacks, and it
-- leaves no callback and no signal to the object that it ends; each other one has callbacks for the
-- signals that it owns and no others.
pub destroy-IsDestroyed :
    (turns p : ℕ) (s : Signals)
    → IsOwned s
    → length (s.cbs p) ≤ turns
    → IsDestroyed p (destroy turns p s)
destroy-IsDestroyed zero p s h n =
    let e = empty (s.cbs p) n in
    subst (IsDestroyed p) (sym (destroy-empty zero p s e)) (no_cbs-IsDestroyed p s h e)
  where
    empty : (m : List (ℕ × ℕ)) → length m ≤ 0 → m ≡ []
    empty [] n = refl
    empty (e ∷ m) n = absurd (omega arith)
destroy-IsDestroyed (suc turns) p s h n =
    turns_left (s.cbs p) refl n (λ t k. destroy-IsDestroyed turns p t k)
  where
    turns_left :
        (m : List (ℕ × ℕ))
        → s.cbs p ≡ m
        → length m ≤ suc turns
        → ((t : Signals) → IsOwned t → length (t.cbs p) ≤ turns → IsDestroyed p (destroy turns p t))
        → IsDestroyed p (destroy (suc turns) p s)
    turns_left [] e n ih =
        subst (IsDestroyed p) (sym (destroy-empty (suc turns) p s e)) (no_cbs-IsDestroyed p s h e)
    turns_left ((sig, cb) ∷ m) e n ih =
        let own =
          owner_of (s.owners sig) p
            (sym (has_first sig cb m) ∙ ap (λ l. is_some (lookup sig l)) (sym e) ∙ h p sig) in
        subst (IsDestroyed p)
          (sym (
            destroy-turn turns p s ((sig, cb) ∷ m) e
            ∙ ap (λ r. and_then r (destroy turns p)) (erase_owned sig p s own)))
          (ih (released sig p s)
            (raise_flagged-IsOwned sig (moved sig p none s) (release-IsOwned sig p s own h))
            (subst (λ l. length l ≤ turns) (sym (released-cbs sig p s ∙ ap (erase sig) e))
              (omega (arith, length-erase_first sig cb m))))
