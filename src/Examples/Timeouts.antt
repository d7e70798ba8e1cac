-- ===== src/Examples/Timeouts.antt =====
-- Timeouts at 10, 20 and 90, and a callback that asks for another one.
use xdrpp.Common.{ℕ, ◌≡◌, arith, some, List, [], ◌∷◌, length}
use xdrpp.Pollset.Timers.{Timer, Request, timeout_at, next_timeout, run_timeouts}
use xdrpp.Pollset.Timers.Due.{IsWait, next_timeout-IsWait}
use xdrpp.Pollset.Timers.Run.{due, Runs, run_timeouts-Runs}

abbrev timers : List Timer
timers =
    record { time = 10; id = 0; cb = 4 }
    ∷ record { time = 20; id = 1; cb = 5 }
    ∷ record { time = 90; id = 2; cb = 6 }
    ∷ []

next_timeout-IsWait_example :
    (w : ℕ) × (next_timeout (some 100) 3 timers ≡ some w) × IsWait (some 100) 3 10 w
next_timeout-IsWait_example =
    next_timeout-IsWait (some 100) 3 (record { time = 10; id = 0; cb = 4 })
      (record { time = 20; id = 1; cb = 5 } ∷ record { time = 90; id = 2; cb = 6 } ∷ [])

-- Every callback asks for itself, 50 milliseconds after now.
abbrev again : ℕ → List Request
again cb = timeout_at 80 cb ∷ []

run_timeouts-Runs_example :
    Runs 30 timers [] (run_timeouts again 30 (length (due 30 timers)) timers 3)
run_timeouts-Runs_example =
    run_timeouts-Runs 30 again (λ cb. (omega arith, tt)) timers 3
      ((omega arith, (omega arith, tt)), ((omega arith, tt), (tt, tt)))
