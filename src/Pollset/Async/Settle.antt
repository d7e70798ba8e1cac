-- ===== src/Pollset/Async/Settle.antt =====
-- `run_pending_asyncs`, when no other thread comes between its steps.
use xdrpp.Common.{
  ℕ, zero, suc, ◌≤◌, ◌≡◌, refl, sym, ap, subst, ◌∙◌, arith, Bool, true, false, ◌||◌, List, [], ◌∷◌,
  ◌++◌, length, length-drop, take, drop, append_assoc, append-nil,
}
use xdrpp.Pollset.Async.{
  Pc, polling, draining, locking, running, World, WakeType, normal, signal, has_signal, advance,
  Reach, start,
}
use xdrpp.Pollset.Async.Order.{Ordered, Reach-InOrder}

-- The thread of the event loop alone gets from one state to another.
pub data Runs (v : World) : World → Type 0 where
  stops : Runs v v
  turn : {w : World} → Runs v (advance w) → Runs v w

Runs_trans : {v w u : World} → Runs v u → Runs w v → Runs w u
Runs_trans stops r = r
Runs_trans (turn q) r = turn (Runs_trans q r)

or_assoc : (a b c : Bool) → ((a || b) || c) ≡ (a || (b || c))
or_assoc true b c = refl
or_assoc false b c = refl

or_false : (a : Bool) → (a || false) ≡ a
or_false true = refl
or_false false = refl

pub has_signal-take :
    (n : ℕ) (ws : List WakeType)
    → (has_signal (take n ws) || has_signal (drop n ws)) ≡ has_signal ws
has_signal-take zero ws = refl
has_signal-take (suc n) [] = refl
has_signal-take (suc n) (normal ∷ ws) = has_signal-take n ws
has_signal-take (suc n) (signal ∷ ws) = refl

-- The state of the reading loop.
abbrev at_pipe : World → Pc → List WakeType → Bool → World
at_pipe w pc pipe noticed = record w {
  shared = record w.shared { pipe = pipe; signal_pending = noticed };
  pc = pc;
}

reads :
    (n : ℕ) (w : World) (p : List WakeType) (b : Bool)
    → length p ≤ n
    → Runs (at_pipe w locking [] (b || has_signal p)) (at_pipe w draining p b)
unfolding advance
reads n w [] b h =
    subst (λ c. Runs (at_pipe w locking [] c) (at_pipe w draining [] b)) (sym (or_false b))
      (turn stops)
reads zero w (x ∷ xs) b h = absurd (omega arith)
reads (suc n) w (x ∷ xs) b h = turn (
    subst
      (λ c.
        Runs (at_pipe w locking [] c)
          (at_pipe w draining (drop 128 (x ∷ xs)) (b || has_signal (take 128 (x ∷ xs)))))
      (or_assoc b (has_signal (take 128 (x ∷ xs))) (has_signal (drop 128 (x ∷ xs)))
        ∙ ap (λ c. b || c) (has_signal-take 128 (x ∷ xs)))
      (reads n w (drop 128 (x ∷ xs)) (b || has_signal (take 128 (x ∷ xs)))
        (omega (arith, length-drop 127 xs))))

calls :
    (w : World) (cs called : List ℕ)
    → Runs
        (record w { pc = polling; called = called ++ cs })
        (record w { pc = running cs; called = called })
unfolding advance
calls w [] called =
    subst
      (λ l.
        Runs (record w { pc = polling; called = l })
          (record w { pc = running []; called = called }))
      (sym (append-nil called)) (turn stops)
calls w (c ∷ cs) called =
    subst
      (λ l.
        Runs (record w { pc = polling; called = l })
          (record w { pc = running (c ∷ cs); called = called }))
      (append_assoc called (c ∷ []) cs) (turn (calls w cs (called ++ (c ∷ []))))

-- `run_pending_asyncs` ends, unless a callback throws: in every state that the threads can reach and
-- in which `poll` calls it, if no other thread comes between its steps, it goes back to `poll` with
-- the pipe empty and each callback called that was ever injected, in the order of their injection,
-- and a signal is pending exactly where one was or the pipe told of one.
pub run_pending_asyncs_lem :
    (capacity : ℕ) (w : World)
    → Reach capacity start w
    → w.pc ≡ polling
    → Runs
        (record {
          shared = record {
            pipe = [];
            async_cbs = [];
            async_pending = false;
            signal_pending = w.shared.signal_pending || has_signal w.shared.pipe;
          };
          pc = polling;
          injected = w.injected;
          called = w.injected;
        })
        (record w { pc = draining })
unfolding advance
run_pending_asyncs_lem capacity w r e =
    let o =
      subst (λ pc. Ordered pc w.injected w.called w.shared.async_cbs) e
        (Reach-InOrder capacity r) in
    Runs_trans (reads (length w.shared.pipe) w w.shared.pipe w.shared.signal_pending (omega arith))
      (turn (subst (λ l. Runs (settled l) taken) (sym o) (calls taken w.shared.async_cbs w.called)))
  where
    taken : World
    taken = record w {
      shared = record {
        pipe = [];
        async_cbs = [];
        async_pending = false;
        signal_pending = w.shared.signal_pending || has_signal w.shared.pipe;
      };
      pc = running w.shared.async_cbs;
    }

    settled : List ℕ → World
    settled l = record taken { pc = polling; called = l }
