-- ===== src/Pollset/Async.antt =====
-- `pollset_plus` of xdrpp/pollset.h and pollset.cc: callbacks that other threads hand to the thread
-- of the event loop, and the pipe that wakes it. What runs under `async_cbs_lock_` is one step here,
-- and the steps of the threads come in any order. A callback is a number.
pub mod Order
pub mod Awake
pub mod Settle
use xdrpp.Common.{
  ℕ, zero, suc, ◌≢◌, ◌≡◌, Bool, true, false, ◌||◌, List, [], ◌∷◌, ◌++◌, length, take, drop, ltb,
  if◌then◌else◌,
}

-- `wake_type`
pub data WakeType : Type 0 where
  normal signal : WakeType

-- What stands in the pipe, and the fields that the threads share.
pub record Shared : Type 0 where
  pub pipe : List WakeType
  pub async_cbs : List ℕ
  pub async_pending : Bool
  pub signal_pending : Bool

-- Where the thread of the event loop is: in `poll`, in the reading loop of `run_pending_asyncs`, in
-- front of its lock, or at the callbacks that are left. `undefined` is a write past the end of
-- `async_cbs_`.
pub data Pc : Type 0 where
  polling draining locking undefined : Pc
  running : List ℕ → Pc

-- Beside the program's state, the callbacks that have been injected and those that have been called.
pub record World : Type 0 where
  pub shared : Shared
  pub pc : Pc
  pub injected : List ℕ
  pub called : List ℕ

abbrev pub has_signal : List WakeType → Bool
has_signal [] = false
has_signal (normal ∷ ws) = has_signal ws
has_signal (signal ∷ ws) = true

-- A `read` of as much as there is, up to 128 bytes, and the loop over it.
abbrev pub read_pipe : Shared → Shared
read_pipe s = record s {
  pipe = drop 128 s.pipe;
  signal_pending = s.signal_pending || has_signal (take 128 s.pipe);
}

-- The callbacks that are taken under the lock are those that run.
abbrev pub take_asyncs : World → World
take_asyncs w = record w {
  shared = record w.shared { async_cbs = []; async_pending = false };
  pc = running w.shared.async_cbs;
}

abbrev pub read_or_lock : List WakeType → World → World
read_or_lock [] w = record w { pc = locking }
read_or_lock (b ∷ bs) w = record w { shared = read_pipe w.shared }

-- A step of the thread of the event loop in `run_pending_asyncs`, where the callback, if it calls
-- one, returns.
abbrev pub advance_from : Pc → World → World
advance_from polling w = w
advance_from undefined w = w
advance_from draining w = read_or_lock w.shared.pipe w
advance_from locking w = take_asyncs w
advance_from (running []) w = record w { pc = polling }
advance_from (running (c ∷ cs)) w = record w { pc = running cs; called = w.called ++ (c ∷ []) }

unfoldable pub advance : World → World
advance w = advance_from w.pc w

-- What follows a callback that throws, when the exception has left `poll`, which can be called again:
-- `inject_cb_vec` of the rest moves callbacks to the end of `async_cbs_`, where there is no room for
-- them.
abbrev pub inject_cb_vec : List ℕ → Pc
inject_cb_vec [] = polling
inject_cb_vec (c ∷ cs) = undefined

-- The pipe holds `capacity` bytes; a `write` to a full one is refused.
module _ (capacity : ℕ) where
  unfoldable pub wake : WakeType → Shared → Shared
  wake b s = if ltb (length s.pipe) capacity then record s { pipe = s.pipe ++ (b ∷ []) } else s

  unfoldable pub inject_cb : ℕ → Shared → Shared
  unfolding wake
  inject_cb cb s =
      if s.async_pending
      then record s { async_cbs = s.async_cbs ++ (cb ∷ []) }
      else wake normal (record s { async_cbs = s.async_cbs ++ (cb ∷ []); async_pending = true })

  -- The steps of all threads: `inject_cb` by any of them, `wake` by any of them or by the handler of
  -- a signal, and the thread of the event loop, which finds that the pipe can be read, goes on, or
  -- calls a callback that throws.
  pub data Step (w : World) : World → Type 0 where
    inject :
        (cb : ℕ)
        → Step w (record w { shared = inject_cb cb w.shared; injected = w.injected ++ (cb ∷ []) })
    woken : (b : WakeType) → Step w (record w { shared = wake b w.shared })
    ready : w.pc ≡ polling → w.shared.pipe ≢ [] → Step w (record w { pc = draining })
    go_on : Step w (advance w)
    throw_from :
        (c : ℕ) (cs : List ℕ)
        → w.pc ≡ running (c ∷ cs)
        → Step w (record w { pc = inject_cb_vec cs; called = w.called ++ (c ∷ []) })

  pub data Reach (w : World) : World → Type 0 where
    here : Reach w w
    next : {u v : World} → Reach w u → Step u v → Reach w v

abbrev pub start : World
start = record {
  shared = record { pipe = []; async_cbs = []; async_pending = false; signal_pending = false };
  pc = polling;
  injected = [];
  called = [];
}
