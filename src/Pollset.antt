-- ===== src/Pollset.antt =====
-- xdrpp/pollset.h and pollset.cc: the table of file descriptors with their callbacks.
pub mod Vector
pub mod Table
pub mod Register
pub mod Consolidate
pub mod Gaps
pub mod Timers
pub mod Async
pub mod Signals
pub mod Handlers
pub mod Poll
use xdrpp.Common.{
  ℕ, zero, suc, ◌+◌, ◌-◌, Bool, true, false, not, ◌&&◌, ◌||◌, Option, none, some, List, [], ◌∷◌,
  ◌++◌, length, get_elem?, ◌==◌, if◌then◌else◌,
}
use xdrpp.Common.Result.{Res, ok, fault, ◌>>=◌}
use xdrpp.Pollset.Vector.{set_at, back, pop_back}

-- `pollfd`: of `events` only POLLIN and POLLOUT are ever set.
pub record Pollfd : Type 0 where
  pub fd : ℕ
  pub pollin : Bool
  pub pollout : Bool

-- A callback is a number that names it. `idx` is none for -1.
pub record FdState : Type 0 where
  pub rcb : Option ℕ
  pub wcb : Option ℕ
  pub idx : Option ℕ
  pub roneshot : Bool
  pub woneshot : Bool

-- The vector `pollfds_` and the hash map `state_`.
pub record Pollset : Type 0 where
  pub pollfds : List Pollfd
  pub state : ℕ → Option FdState

pub data Op : Type 0 where
  read write read_write read_once write_once : Op

-- `op & kReadFlag`, `op & kWriteFlag` and `op & kOnceFlag`.
abbrev pub is_read : Op → Bool
is_read read = true
is_read read_once = true
is_read read_write = true
is_read _ = false

abbrev pub is_write : Op → Bool
is_write write = true
is_write write_once = true
is_write read_write = true
is_write _ = false

abbrev pub is_once : Op → Bool
is_once read_once = true
is_once write_once = true
is_once _ = false

abbrev pub put_state : ℕ → Option FdState → (ℕ → Option FdState) → ℕ → Option FdState
put_state s st state t = if t == s then st else state t

abbrev pub has_events : Pollfd → Bool
has_events p = p.pollin || p.pollout

-- `state_[s]` of a new descriptor.
abbrev pub new_state : FdState
new_state = record { rcb = none; wcb = none; idx = none; roneshot = false; woneshot = false }

-- `vector::at`, which throws out of range.
abbrev pub at_index : List Pollfd → ℕ → Res Pollfd
at_index pollfds i = elim (get_elem? pollfds i) [ none ↦ fault | some p ↦ ok p ]

-- `set_events` of entry `i` and the state of `s`.
abbrev pub store : ℕ → ℕ → Pollfd → FdState → Pollset → Pollset
store s i p fs ps = record {
  pollfds = set_at i p ps.pollfds;
  state = put_state s (some fs) ps.state;
}

-- The first half of `fd_cb_helper`: the entry of `s` in `pollfds_`, appended if there is none.
unfoldable pub find_slot : ℕ → FdState → Pollset → Res (ℕ × Pollset)
find_slot s fs ps = elim fs.idx [
  | none ↦ ok (
    length ps.pollfds,
    record ps { pollfds = ps.pollfds ++ (record { fd = s; pollin = false; pollout = false } ∷ []) },
  )
  | some i ↦ at_index ps.pollfds i >>= λ p. if p.fd == s then ok (i, ps) else fault
]

-- The second half, with the assignment of the callback; `terminate` is a fault.
unfoldable pub set_callback : ℕ → Op → ℕ → ℕ → FdState → Pollset → Res Pollset
set_callback s op cb i fs ps = at_index ps.pollfds i >>= λ p.
    if is_read op
    then (if is_write op
        then fault
        else ok (
            store s i (record p { pollin = true })
              (record fs { idx = some i; roneshot = is_once op; rcb = some cb }) ps))
    else ok (
        store s i (record p { pollout = true })
          (record fs { idx = some i; woneshot = is_once op; wcb = some cb }) ps)

abbrev pub state_of : ℕ → Pollset → FdState
state_of s ps = elim (ps.state s) [ none ↦ new_state | some fs ↦ fs ]

-- `fd_cb` with a callback.
unfoldable pub fd_cb : ℕ → Op → ℕ → Pollset → Res Pollset
unfolding find_slot set_callback
fd_cb s op cb ps =
    find_slot s (state_of s ps) ps >>= λ (i, ps'). set_callback s op cb i (state_of s ps) ps'

abbrev pub clear_read : Op → FdState → FdState
clear_read op fs = record fs { rcb = if is_read op then none else fs.rcb }

abbrev pub clear_write : Op → FdState → FdState
clear_write op fs = record fs { wcb = if is_write op then none else fs.wcb }

abbrev pub clear_events : Op → Pollfd → Pollfd
clear_events op p = record p {
  pollin = p.pollin && not (is_read op);
  pollout = p.pollout && not (is_write op);
}

unfoldable pub remove_at : ℕ → Op → FdState → Pollset → Option ℕ → Res Pollset
remove_at s op fs ps none = fault
remove_at s op fs ps (some i) = at_index ps.pollfds i >>= λ p.
    ok (store s i (clear_events op p) (clear_write op (clear_read op fs)) ps)

-- `fd_cb` with a null pointer.
unfoldable pub remove_cb : ℕ → Op → Pollset → Res Pollset
unfolding remove_at
remove_cb s op ps = elim (ps.state s) [ none ↦ ok ps | some fs ↦ remove_at s op fs ps fs.idx ]

-- The assertion of `~fd_state`, that the state has no callback, is left out.
abbrev pub erase_state : Option Pollfd → (ℕ → Option FdState) → ℕ → Option FdState
erase_state none state = state
erase_state (some p) state = put_state p.fd none state

-- The last entry goes, and the state of its descriptor.
abbrev pub drop_back : Pollset → Pollset
drop_back ps = record {
  pollfds = pop_back ps.pollfds;
  state = erase_state (back ps.pollfds) ps.state;
}

-- The first loop of `consolidate`, with the number of the entries that are left to look at: entries
-- without events are taken off the back.
unfoldable pub trim : ℕ → Pollset → Pollset
trim zero ps = ps
trim (suc n) ps =
    let rest = trim n (drop_back ps) in
    elim (back ps.pollfds) [ none ↦ ps | some p ↦ if has_events p then ps else rest ]

-- Entry `i` becomes `p`, the last one, whose state is `fs`, and the last one goes.
abbrev pub moved : ℕ → Pollfd → FdState → List Pollfd → (ℕ → Option FdState) → Pollset
moved i p fs pollfds state = record {
  pollfds = pop_back (set_at i p pollfds);
  state = put_state p.fd (some (record fs { idx = some i })) state;
}

-- `state_.at`, which throws where there is no state.
abbrev pub move_found :
    ℕ → Pollfd → List Pollfd → (ℕ → Option FdState) → Option FdState → Res Pollset
move_found i p pollfds state none = fault
move_found i p pollfds state (some fs) = ok (moved i p fs pollfds state)

-- The last entry takes the place of entry `i`, which has no events and whose state is erased.
unfoldable pub move_back : ℕ → Pollfd → Pollset → Res Pollset
move_back i p1 ps =
    let state = put_state p1.fd none ps.state in
    elim (back ps.pollfds) [ none ↦ fault | some p ↦ move_found i p ps.pollfds state (state p.fd) ]

-- The second loop, for the indices below its argument, downwards.
unfoldable pub fill_gaps : ℕ → Pollset → Res Pollset
unfolding move_back
fill_gaps zero ps = ok ps
fill_gaps (suc i) ps = at_index ps.pollfds i >>= λ p1.
    if has_events p1 then fill_gaps i ps else (move_back i p1 ps >>= fill_gaps i)

unfoldable pub consolidate : Pollset → Res Pollset
unfolding trim fill_gaps
consolidate ps =
    let ps' : Pollset = trim (length ps.pollfds) ps in fill_gaps (length ps'.pollfds - 1) ps'
