-- ===== src/Pollset/Timers.antt =====
-- The timeouts of xdrpp/pollset.cc: `time_cbs_`, `next_timeout` and `run_timeouts`.
pub mod Due
pub mod Run
use xdrpp.Common.{
  ℕ, zero, suc, ◌+◌, ◌-◌, ◌^◌, Bool, true, false, Option, none, some, List, [], ◌∷◌, ◌++◌, ltb, leb,
  ◌==◌, min, if◌then◌else◌,
}

-- An entry of `time_cbs_`; `id` stands for the iterator that a `Timeout` holds.
pub record Timer : Type 0 where
  pub time : ℕ
  pub id : ℕ
  pub cb : ℕ

-- `multimap::emplace`: behind the entries with the same or an earlier time.
unfoldable pub emplace : Timer → List Timer → List Timer
emplace t [] = t ∷ []
emplace t (u ∷ us) = let rest = emplace t us in if ltb t.time u.time then t ∷ u ∷ us else u ∷ rest

unfoldable pub erase : ℕ → List Timer → List Timer
erase id [] = []
erase id (u ∷ us) = let rest = erase id us in if id == u.id then us else u ∷ rest

-- `next_timeout`: none is a negative number, which means to wait for ever. The entries are in the
-- order of their times, in milliseconds like `now`.
unfoldable pub next_timeout : Option ℕ → ℕ → List Timer → Option ℕ
next_timeout ms now [] = ms
next_timeout ms now (u ∷ us) =
    let wait : ℕ = min (u.time - now) (2 ^ 31 - 1) in
    if leb u.time now
    then some 0
    else elim ms [ none ↦ some wait | some m ↦ if leb m wait then some m else some wait ]

-- What a callback does to the timeouts: `timeout_at`, and `timeout_cancel` of one that is pending.
pub data Request : Type 0 where
  timeout_at : ℕ → ℕ → Request
  timeout_cancel : ℕ → Request

-- The map while the callback of entry `current` runs: the entries before and behind it.
pub record Walk : Type 0 where
  pub before : List Timer
  pub current : Timer
  pub behind : List Timer
  pub next_id : ℕ

-- How `run_timeouts` ends: with the entries that are left and the callbacks that it has called; or
-- a callback has erased its own entry, which is erased again; or it needs more turns.
pub data Ran : Type 0 where
  ran : List Timer → List ℕ → Ran
  undefined out_of_turns : Ran

-- An entry with an earlier time than the current one goes in front of it.
unfoldable pub request : Request → Walk → Option Walk
unfolding emplace erase
request (timeout_at ms cb) w =
    let t : Timer = record { time = ms; id = w.next_id; cb = cb } in
    if ltb ms w.current.time
    then some (record w { before = emplace t w.before; next_id = w.next_id + 1 })
    else some (record w { behind = emplace t w.behind; next_id = w.next_id + 1 })
request (timeout_cancel id) w =
    if id == w.current.id
    then none
    else some (record w { before = erase id w.before; behind = erase id w.behind })

unfoldable pub requests : List Request → Walk → Option Walk
unfolding request
requests [] w = some w
requests (r ∷ rs) w = elim (request r w) [ none ↦ none | some w' ↦ requests rs w' ]

module _ (behave : ℕ → List Request) (now : ℕ) where
  -- `run_timeouts` from the iterator on, with at most `turns` callbacks; `called` has those that
  -- were called before.
  unfoldable pub run_from : ℕ → List Timer → List Timer → ℕ → List ℕ → Ran
  unfolding requests
  run_from turns before [] next_id called = ran before called
  run_from zero before (u ∷ us) next_id called =
      if leb u.time now then out_of_turns else ran (before ++ (u ∷ us)) called
  run_from (suc turns) before (u ∷ us) next_id called =
      let start : Walk = record { before = before; current = u; behind = us; next_id = next_id } in
      let turn : Ran = elim (requests (behave u.cb) start) [
        | none ↦ undefined
        | some w ↦ run_from turns w.before w.behind w.next_id (called ++ (u.cb ∷ []))
      ] in
      if leb u.time now then turn else ran (before ++ (u ∷ us)) called

  unfoldable pub run_timeouts : ℕ → List Timer → ℕ → Ran
  unfolding run_from
  run_timeouts turns entries next_id = run_from turns [] entries next_id []
