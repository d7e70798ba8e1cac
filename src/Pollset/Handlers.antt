-- ===== src/Pollset/Handlers.antt =====
-- The handler of signals of xdrpp/pollset.cc, which interrupts any thread, and the calls of the
-- callbacks in `run_subtype_handlers`, whose steps come in any order. One `pollset_plus` owns all
-- signals that have callbacks.
pub mod Noticed
use xdrpp.Common.{
  ℕ, ◌<◌, ◌≡◌, ◌≢◌, Bool, true, false, ◌||◌, List, [], ◌∷◌, ◌++◌, length, take, drop, ◌==◌,
  if◌then◌else◌,
}
use xdrpp.Pollset.Async.{WakeType, signal, has_signal}
use xdrpp.Pollset.Signals.{put}

-- `signal_flags[sig]`: 0, 1 in front of `wake`, 1 behind it, and 2.
pub data Flag : Type 0 where
  clear waking awake raised : Flag

abbrev pub flag_value : Flag → ℕ
flag_value clear = 0
flag_value waking = 1
flag_value awake = 1
flag_value raised = 2

-- Outside `run_subtype_handlers`, or in it with the rest of `pending`.
pub data Phase : Type 0 where
  outside : Phase
  handling : List ℕ → Phase

pub record Loop : Type 0 where
  pub pipe : List WakeType
  pub signal_pending : Bool
  pub flags : ℕ → Flag
  pub phase : Phase
  pub called : List ℕ

-- The signals with a callback whose flag is not 0.
unfoldable pub pending_of : (ℕ → Flag) → List ℕ → List ℕ
pending_of flags [] = []
pending_of flags (i ∷ sigs) =
    let rest = pending_of flags sigs in if flag_value (flags i) == 0 then rest else i ∷ rest

-- The signals that have callbacks are `sigs`. A handler runs as long as the pipe has room.
module _ (capacity : ℕ) (sigs : List ℕ) where
  pub data Step (w : Loop) : Loop → Type 0 where
    -- The handler of a signal whose flag is 0; another one returns at once.
    arrive : (i : ℕ) → w.flags i ≡ clear → Step w (record w { flags = put i waking w.flags })
    write_signal :
        (i : ℕ)
        → w.flags i ≡ waking
        → length w.pipe < capacity
        → Step w (record w { flags = put i awake w.flags; pipe = w.pipe ++ (signal ∷ []) })
    finish : (i : ℕ) → w.flags i ≡ awake → Step w (record w { flags = put i raised w.flags })
    -- A byte that another thread writes, and a turn of the reading loop of `run_pending_asyncs`.
    woken : (b : WakeType) → Step w (record w { pipe = w.pipe ++ (b ∷ []) })
    read :
        w.phase ≡ outside
        → Step w (record w {
          pipe = drop 128 w.pipe;
          signal_pending = w.signal_pending || has_signal (take 128 w.pipe);
        })
    begin :
        w.phase ≡ outside
        → w.signal_pending ≡ true
        → Step w (record w { phase = handling (pending_of w.flags sigs) })
    -- The flag is 1 while the handler runs, which is waited for.
    handle :
        (i : ℕ) (todo : List ℕ)
        → w.phase ≡ handling (i ∷ todo)
        → flag_value (w.flags i) ≢ 1
        → Step w (record w {
          flags = put i clear w.flags;
          phase = handling todo;
          called = w.called ++ (i ∷ []);
        })
    -- The same with a callback that throws, so that `run_subtype_handlers` is left.
    handle_throw :
        (i : ℕ) (todo : List ℕ)
        → w.phase ≡ handling (i ∷ todo)
        → flag_value (w.flags i) ≢ 1
        → Step w (record w {
          flags = put i clear w.flags;
          phase = outside;
          called = w.called ++ (i ∷ []);
        })
    end : w.phase ≡ handling [] → Step w (record w { phase = outside; signal_pending = false })

  pub data Reach (w : Loop) : Loop → Type 0 where
    here : Reach w w
    next : {u v : Loop} → Reach w u → Step u v → Reach w v

abbrev pub idle : Loop
idle = record {
  pipe = [];
  signal_pending = false;
  flags = λ i. clear;
  phase = outside;
  called = [];
}
