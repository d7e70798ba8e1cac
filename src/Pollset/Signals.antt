-- ===== src/Pollset/Signals.antt =====
-- The signals of `pollset_plus` (xdrpp/pollset.cc): each has one owner in the process. A `pollset_plus`
-- is a number, and so is a callback; what runs under `signal_owners_lock` is one step.
pub mod Owners
pub mod Calls
pub mod Refused
use xdrpp.Common.{
  ℕ, zero, suc, Bool, true, false, Option, none, some, List, [], ◌∷◌, ◌++◌, ◌==◌, if◌then◌else◌,
}
use xdrpp.Server.Registry.{lookup, assign}

abbrev pub put {ℓ} : {A : Type ℓ} → ℕ → A → (ℕ → A) → ℕ → A
put k a f i = if i == k then a else f i

-- `map::erase` of a key: of the entries with the key, of which a map has one at most.
unfoldable pub erase : ℕ → List (ℕ × ℕ) → List (ℕ × ℕ)
erase k [] = []
erase k ((j, a) ∷ m) = let rest = erase k m in if k == j then rest else (j, a) ∷ rest

-- `signal_owners` and `signal_flags` of the process, `signal_cbs_` of each `pollset_plus`, and what has
-- been done: those that have been woken, and the signals that were raised again.
pub record Signals : Type 0 where
  pub owners : ℕ → Option ℕ
  pub cbs : ℕ → List (ℕ × ℕ)
  pub flags : ℕ → ℕ
  pub woken : List ℕ
  pub raised : List ℕ

pub data Ended : Type 0 where
  returned thrown : Signals → Ended
  out_of_turns : Ended

-- `wake` where the signal has come before.
abbrev pub wake_flagged : ℕ → ℕ → Signals → Signals
wake_flagged p sig s = if s.flags sig == 0 then s else record s { woken = s.woken ++ (p ∷ []) }

-- The owner before is `owner`; `installs` is false where `sigaction` fails.
unfoldable pub take_signal : Bool → ℕ → ℕ → Option ℕ → Signals → Ended
unfolding erase
take_signal installs p sig (some q) s =
    if q == p
    then returned s
    else returned (
        wake_flagged p sig (record s {
          owners = put sig (some p) s.owners;
          cbs = put q (erase sig (s.cbs q)) s.cbs;
        }))
take_signal true p sig none s =
    returned (wake_flagged p sig (record s { owners = put sig (some p) s.owners }))
take_signal false p sig none s = thrown (record s { owners = put sig none s.owners })

-- `signal_cb(sig, cb)` of `p` with a callback.
unfoldable pub signal_cb : Bool → ℕ → ℕ → ℕ → Signals → Ended
unfolding take_signal assign
signal_cb installs p sig cb s =
    take_signal installs p sig (s.owners sig)
      (record s { cbs = put p (assign sig cb (s.cbs p)) s.cbs })

-- A handler that still runs is waited for, whatever it leaves; then a signal that has come is raised
-- again.
abbrev pub raise_flagged : ℕ → Signals → Signals
raise_flagged sig s =
    if s.flags sig == 0
    then s
    else record s { flags = put sig 0 s.flags; raised = s.raised ++ (sig ∷ []) }

unfoldable pub release_signal : Bool → ℕ → Option ℕ → Signals → Ended
unfolding erase
release_signal uninstalls sig none s = returned s
release_signal false sig (some q) s = thrown s
release_signal true sig (some q) s = returned (
    raise_flagged sig
      (record s { owners = put sig none s.owners; cbs = put q (erase sig (s.cbs q)) s.cbs }))

unfoldable pub erase_signal_cb : Bool → ℕ → Signals → Ended
unfolding release_signal
erase_signal_cb uninstalls sig s = release_signal uninstalls sig (s.owners sig) s

-- What follows a call in the loop of the destructor.
abbrev pub and_then : Ended → (Signals → Ended) → Ended
and_then (returned s) k = k s
and_then (thrown s) k = thrown s
and_then out_of_turns k = out_of_turns

-- The loop of the destructor of `p`, where `sigaction` works.
unfoldable pub destroy : ℕ → ℕ → Signals → Ended
unfolding erase_signal_cb
destroy zero p s = elim (s.cbs p) [ [] ↦ returned s | e ∷ m ↦ out_of_turns ]
destroy (suc turns) p s = elim (s.cbs p) [
  | [] ↦ returned s
  | (sig, cb) ∷ m ↦ and_then (erase_signal_cb true sig s) (destroy turns p)
]
