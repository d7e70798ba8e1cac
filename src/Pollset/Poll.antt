-- ===== src/Pollset/Poll.antt =====
-- `poll` of xdrpp/pollset.cc: the callbacks of the descriptors that are ready.
pub mod Round
use xdrpp.Common.{
  ℕ, suc, ◌+◌, ◌-◌, Bool, true, false, ◌||◌, Option, none, some, List, [], ◌∷◌, ◌++◌, ◌==◌,
  if◌then◌else◌,
}
use xdrpp.Common.Result.{Res, ok, fault, ◌>>=◌}
use xdrpp.Pollset.{Pollfd, FdState, Pollset, Op, at_index, store, fd_cb, remove_cb, consolidate}

-- `revents`: POLLNVAL, POLLIN, POLLOUT, and POLLHUP or POLLERR.
pub record Revents : Type 0 where
  pub pollnval : Bool
  pub pollin : Bool
  pub pollout : Bool
  pub hangup : Bool

-- What the kernel answers: -1 with EINTR, -1 with another error, or the number of entries that are
-- ready, and the `revents` of all.
pub data PollResult : Type 0 where
  interrupted : PollResult
  failed : PollResult
  ready : ℕ → List Revents → PollResult

-- What a callback does to the table.
pub data FdRequest : Type 0 where
  set_cb : ℕ → Op → ℕ → FdRequest
  unset_cb : ℕ → Op → FdRequest

unfoldable pub do_requests : List FdRequest → Pollset → Res Pollset
do_requests [] ps = ok ps
do_requests (set_cb s op cb ∷ rs) ps = fd_cb s op cb ps >>= do_requests rs
do_requests (unset_cb s op ∷ rs) ps = remove_cb s op ps >>= do_requests rs

-- A run of callbacks: what it does to the table, and whether it then throws.
pub record Behavior : Type 0 where
  pub requests : List FdRequest
  pub throws : Bool

-- The table, and the callbacks that have been called.
abbrev pub State : Type 0
State = Pollset × List ℕ

-- With them, whether an exception of a callback is under way. A `fault` is the end of the program, by
-- `std::terminate` or an assertion, or the exception of `at`.
abbrev pub Progress : Type 0
Progress = Pollset × List ℕ × Bool

abbrev pub unless_thrown : (State → Res Progress) → Progress → Res Progress
unless_thrown k (ps, called, true) = ok (ps, called, true)
unless_thrown k (ps, called, false) = k (ps, called)

abbrev pub is_ready : Revents → Bool
is_ready r = r.pollnval || (r.pollin || (r.pollout || r.hangup))

-- `state_.at`
unfoldable pub state_at : ℕ → Pollset → Res FdState
state_at s ps = elim (ps.state s) [ none ↦ fault | some fs ↦ ok fs ]

module _ (behave : ℕ → Behavior) where
  unfoldable pub call : ℕ → List ℕ → Pollset → Res Progress
  unfolding do_requests
  call cb called ps = do_requests (behave cb).requests ps >>= λ ps'.
      ok (ps', called ++ (cb ∷ []), (behave cb).throws)

  -- The callback for reading, if there is one; one that is called once is removed first.
  unfoldable pub call_read : ℕ → ℕ → Pollfd → FdState → Option ℕ → State → Res Progress
  unfolding call
  call_read s i p fs none (ps, called) = ok (ps, called, false)
  call_read s i p fs (some cb) (ps, called) =
      if fs.roneshot
      then call cb called (store s i (record p { pollin = false }) (record fs { rcb = none }) ps)
      else call cb called ps

  unfoldable pub call_write : ℕ → ℕ → Pollfd → FdState → Option ℕ → State → Res Progress
  unfolding call
  call_write s i p fs none (ps, called) = ok (ps, called, false)
  call_write s i p fs (some cb) (ps, called) =
      if fs.woneshot
      then call cb called (store s i (record p { pollout = false }) (record fs { wcb = none }) ps)
      else call cb called ps

  unfoldable pub on_read : ℕ → Pollfd → Revents → State → Res Progress
  unfolding call_read
  on_read i p r (ps, called) = state_at p.fd ps >>= λ fs.
      if r.pollnval
      then fault
      else if r.pollin || r.hangup
      then call_read p.fd i p fs fs.rcb (ps, called)
      else ok (ps, called, false)

  -- The entry is looked up again, since a callback might have moved the vector; the state is still
  -- that of `s`.
  unfoldable pub on_write : ℕ → ℕ → Revents → State → Res Progress
  unfolding call_write
  on_write i s r (ps, called) = at_index ps.pollfds i >>= λ p. state_at s ps >>= λ fs.
      if r.pollout || r.hangup
      then call_write s i p fs fs.wcb (ps, called)
      else ok (ps, called, false)

  unfoldable pub poll_entry : ℕ → Revents → State → Res Progress
  unfolding on_read on_write
  poll_entry i r (ps, called) = at_index ps.pollfds i >>= λ p.
      on_read i p r (ps, called) >>= unless_thrown (on_write i p.fd r)

  -- The loop over the entries, with the number of those that are still to come, and are ready.
  unfoldable pub poll_loop : List Revents → ℕ → ℕ → State → Res Progress
  unfolding poll_entry
  poll_loop [] i todo (ps, called) = ok (ps, called, false)
  poll_loop (r ∷ rs) i todo (ps, called) =
      if todo == 0
      then ok (ps, called, false)
      else (poll_entry i r (ps, called)
          >>= unless_thrown (poll_loop rs (i + 1) (if is_ready r then todo - 1 else todo)))

  -- Behind the loop: `others` is what the callbacks of timeouts and of signals do, in a call of
  -- `run_timeouts` and of `run_subtype_handlers` that ends.
  unfoldable pub finish : Behavior → State → Res Progress
  unfolding do_requests
  finish others (ps, called) = do_requests others.requests ps >>= λ ps1.
      if others.throws
      then ok (ps1, called, true)
      else (consolidate ps1 >>= λ ps2. ok (ps2, called, false))

  unfoldable pub poll : Behavior → PollResult → Pollset → Res Progress
  unfolding poll_loop finish
  poll others interrupted ps = ok (ps, [], false)
  poll others failed ps = fault
  poll others (ready n rs) ps = poll_loop rs 0 n (ps, []) >>= unless_thrown (finish others)
