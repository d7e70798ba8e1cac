-- ===== src/Examples/Threads.antt =====
-- A callback that another thread hands over while the event loop calls one, and signals of two
-- event loops.
use xdrpp.Common.{ℕ, ◌≡◌, ◌≢◌, refl, arith, true, false, none, some, [], ◌∷◌}
use xdrpp.Server.Registry.{lookup, assign}
use xdrpp.Pollset.Async.{
  World, polling, draining, running, normal, signal, wake, inject_cb, advance, Reach, here, next,
  inject, ready, go_on, start,
}
use xdrpp.Pollset.Async.Order.{InOrder, Reach-InOrder}
use xdrpp.Pollset.Async.Awake.{Reach-pipe}
use xdrpp.Pollset.Async.Settle.{Runs, run_pending_asyncs_lem}
use xdrpp.Pollset.Handlers
use xdrpp.Pollset.Handlers.{Loop, clear, waking, awake, outside, idle}
use xdrpp.Pollset.Handlers.Noticed.{IsNoticed, Reach-IsNoticed}
use xdrpp.Pollset.Signals.{put, Signals, thrown, out_of_turns, signal_cb, destroy}
use xdrpp.Pollset.Signals.Owners.{IsOwned, with_cb, given-IsOwned}
use xdrpp.Pollset.Signals.Calls.{IsTaken, signal_cb-IsTaken, IsDestroyed, destroy-IsDestroyed}
use xdrpp.Pollset.Signals.Refused.{signal_cb-destroy}

-- Callback 5 has come.
abbrev one_waits : World
one_waits = record {
  shared = record {
    pipe = normal ∷ [];
    async_cbs = 5 ∷ [];
    async_pending = true;
    signal_pending = false;
  };
  pc = polling;
  injected = 5 ∷ [];
  called = [];
}

one_waits-Reach : Reach 4096 start one_waits
unfolding inject_cb wake
one_waits-Reach = next here (inject 5)

-- Callback 5 has been taken, and callback 6 has come before it is called.
abbrev one_more : World
one_more = record {
  shared = record {
    pipe = normal ∷ [];
    async_cbs = 6 ∷ [];
    async_pending = true;
    signal_pending = false;
  };
  pc = running (5 ∷ []);
  injected = 5 ∷ 6 ∷ [];
  called = [];
}

one_more-Reach : Reach 4096 start one_more
unfolding inject_cb wake advance
one_more-Reach =
    next (next (next (next (next one_waits-Reach (ready refl (λ e. cc))) go_on) go_on) go_on)
      (inject 6)

Reach-InOrder_example : InOrder one_more
Reach-InOrder_example = Reach-InOrder 4096 one_more-Reach

Reach-pipe_example : one_waits.shared.pipe ≢ []
Reach-pipe_example = Reach-pipe 4096 (omega arith) one_waits-Reach refl (λ e. cc)

run_pending_asyncs_example :
    Runs
      (record {
        shared = record {
          pipe = [];
          async_cbs = [];
          async_pending = false;
          signal_pending = false;
        };
        pc = polling;
        injected = 5 ∷ [];
        called = 5 ∷ [];
      })
      (record one_waits { pc = draining })
run_pending_asyncs_example = run_pending_asyncs_lem 4096 one_waits one_waits-Reach refl

-- The handler of signal 2 has written to the pipe.
abbrev came : Loop
came = record {
  pipe = signal ∷ [];
  signal_pending = false;
  flags = put 2 awake (put 2 waking (λ i. clear));
  phase = outside;
  called = [];
}

came-Reach : Handlers.Reach 4096 (2 ∷ []) idle came
came-Reach =
    Handlers.Reach.next (Handlers.Reach.next Handlers.Reach.here (Handlers.Step.arrive 2 refl))
      (Handlers.Step.write_signal 2 refl (omega arith))

Reach-IsNoticed_example : IsNoticed (2 ∷ []) came
Reach-IsNoticed_example = Reach-IsNoticed 4096 (2 ∷ []) came-Reach

abbrev nobody : Signals
nobody = record { owners = λ sig. none; cbs = λ p. []; flags = λ sig. 0; woken = []; raised = [] }

nobody-IsOwned : IsOwned nobody
unfolding lookup
nobody-IsOwned p sig = refl

-- Object 1 has signal 2.
abbrev owned : Signals
owned = record (with_cb 1 2 30 nobody) { owners = put 2 (some 1) nobody.owners }

owned-IsOwned : IsOwned owned
owned-IsOwned = given-IsOwned 1 2 30 nobody refl nobody-IsOwned

signal_cb-IsTaken_example : IsTaken 0 2 (signal_cb false 0 2 31 owned)
signal_cb-IsTaken_example = signal_cb-IsTaken false 0 2 31 owned tt owned-IsOwned

destroy-IsDestroyed_example : IsDestroyed 1 (destroy 1 1 owned)
unfolding assign
destroy-IsDestroyed_example = destroy-IsDestroyed 1 1 owned owned-IsOwned (omega arith)

-- SIGKILL.
signal_cb-destroy_example :
    (t : Signals) × (signal_cb false 0 9 30 nobody ≡ thrown t)
    × ((turns : ℕ) → destroy turns 0 t ≡ out_of_turns)
signal_cb-destroy_example = signal_cb-destroy 0 9 30 nobody refl
