-- ===== src/Pollset/Signals/Owners.antt =====
-- Who has a callback for a signal is its owner.
use xdrpp.Common.{
  ℕ, ◌≡◌, sym, ap, subst, arith, Bool, true, false, Option, none, some, List, [], ◌∷◌, ◌==◌,
  Bool-cases, inl, inr, ==_iff, ne_of_==, if◌then◌else◌,
}
use xdrpp.Server.Registry.{lookup, assign}
use xdrpp.Server.Registry.Order.{lookup-assign, lookup-assign_other}
use xdrpp.Pollset.Signals.{put, erase, Signals, wake_flagged, raise_flagged}

abbrev pub is_some : {A : Type 0} → Option A → Bool
is_some none = false
is_some (some a) = true

abbrev pub owns : Option ℕ → ℕ → Bool
owns none p = false
owns (some q) p = q == p

-- Each `pollset_plus` has callbacks for the signals that it owns, and no others.
abbrev pub IsOwned : Signals → Type 0
IsOwned s = (p sig : ℕ) → is_some (lookup sig (s.cbs p)) ≡ owns (s.owners sig) p

has-erase :
    (s k : ℕ) (m : List (ℕ × ℕ))
    → is_some (lookup s (erase k m)) ≡ (if s == k then false else is_some (lookup s m))
unfolding lookup erase
has-erase s k [] = ground arith
has-erase s k ((j, a) ∷ m) = ground (arith, has-erase s k m)

has-assign :
    (s k a : ℕ) (m : List (ℕ × ℕ))
    → is_some (lookup s (assign k a m)) ≡ (if s == k then true else is_some (lookup s m))
has-assign s k a m = elim (Bool-cases (s == k)) [
  | inl e ↦ rw e (
      subst (λ i. is_some (lookup i (assign k a m)) ≡ true) (sym ((==_iff s k).0 e))
        (ap is_some (lookup-assign k a m)))
  | inr e ↦ rw e (ap is_some (lookup-assign_other s k a m (ne_of_== s k e)))
]

has-put :
    (s k p : ℕ) (m : List (ℕ × ℕ)) (f : ℕ → List (ℕ × ℕ))
    → is_some (lookup s (put k m f p))
      ≡ (if p == k then is_some (lookup s m) else is_some (lookup s (f p)))
has-put s k p m f = ground arith

owns-put :
    (s k p : ℕ) (o : Option ℕ) (f : ℕ → Option ℕ)
    → owns (put k o f s) p ≡ (if s == k then owns o p else owns (f s) p)
owns-put s k p o f = ground arith

pub wake_flagged-IsOwned : (p sig : ℕ) (s : Signals) → IsOwned s → IsOwned (wake_flagged p sig s)
wake_flagged-IsOwned p sig s h i k = ground (arith, h i k)

pub raise_flagged-IsOwned : (sig : ℕ) (s : Signals) → IsOwned s → IsOwned (raise_flagged sig s)
raise_flagged-IsOwned sig s h i k = ground (arith, h i k)

-- A signal with the owner `q` is given to `o`, and `q` gives its callback up.
abbrev pub moved : ℕ → ℕ → Option ℕ → Signals → Signals
moved sig q o s = record s { owners = put sig o s.owners; cbs = put q (erase sig (s.cbs q)) s.cbs }

pub has-moved :
    (sig q : ℕ) (o : Option ℕ) (s : Signals) (i k : ℕ)
    → is_some (lookup k ((moved sig q o s).cbs i)) ≡ (
        if i == q
        then (if k == sig then false else is_some (lookup k (s.cbs i)))
        else is_some (lookup k (s.cbs i)))
has-moved sig q o s i k =
    ground (arith, has-put k q i (erase sig (s.cbs q)) s.cbs, has-erase k sig (s.cbs q))

pub release-IsOwned :
    (sig q : ℕ) (s : Signals) → s.owners sig ≡ some q → IsOwned s → IsOwned (moved sig q none s)
release-IsOwned sig q s e h i k =
    ground (arith, has-moved sig q none s i k, owns-put k sig i none s.owners, h i k)

abbrev pub with_cb : ℕ → ℕ → ℕ → Signals → Signals
with_cb p sig cb s = record s { cbs = put p (assign sig cb (s.cbs p)) s.cbs }

pub has-with_cb :
    (p sig cb : ℕ) (s : Signals) (i k : ℕ)
    → is_some (lookup k ((with_cb p sig cb s).cbs i)) ≡ (
        if i == p
        then (if k == sig then true else is_some (lookup k (s.cbs i)))
        else is_some (lookup k (s.cbs i)))
has-with_cb p sig cb s i k =
    ground (arith, has-put k p i (assign sig cb (s.cbs p)) s.cbs, has-assign k sig cb (s.cbs p))

-- The owner stays.
pub kept-IsOwned :
    (p sig cb : ℕ) (s : Signals) → s.owners sig ≡ some p → IsOwned s → IsOwned (with_cb p sig cb s)
kept-IsOwned p sig cb s e h i k = ground (arith, has-with_cb p sig cb s i k, h i k)

-- The signal had no owner, or another one that has given its callback up.
pub given-IsOwned :
    (p sig cb : ℕ) (s : Signals)
    → s.owners sig ≡ none
    → IsOwned s
    → IsOwned (record (with_cb p sig cb s) { owners = put sig (some p) s.owners })
given-IsOwned p sig cb s e h i k =
    ground (arith, has-with_cb p sig cb s i k, owns-put k sig i (some p) s.owners, h i k)

-- Stealing is giving up and taking.
pub steals-IsOwned :
    (p q sig cb : ℕ) (s : Signals)
    → (q == p) ≡ false
    → s.owners sig ≡ some q
    → IsOwned s
    → IsOwned (moved sig q (some p) (with_cb p sig cb s))
steals-IsOwned p q sig cb s n e h i k = ground (
  arith,
  has-moved sig q (some p) (with_cb p sig cb s) i k,
  has-with_cb p sig cb s i k,
  owns-put k sig i (some p) s.owners,
  h i k,
)
