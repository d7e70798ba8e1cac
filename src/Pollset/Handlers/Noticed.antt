-- ===== src/Pollset/Handlers/Noticed.antt =====
-- No signal goes unnoticed.
use xdrpp.Common.{
  ℕ, ◌≡◌, refl, sym, ap, subst, ◌∙◌, arith, Bool, true, false, ◌||◌, List, [], ◌∷◌, ◌++◌, take,
  drop,
}
use xdrpp.Types.{contains}
use xdrpp.Pollset.Async.{WakeType, normal, signal, has_signal}
use xdrpp.Pollset.Async.Settle.{has_signal-take}
use xdrpp.Pollset.Handlers.{
  Flag, clear, waking, awake, raised, Phase, outside, handling, Loop, pending_of, Step, arrive,
  write_signal, finish, woken, read, begin, handle, handle_throw, end, Reach, here, next, idle,
}

-- The handler has written to the pipe.
abbrev pub has_come : Flag → Bool
has_come clear = false
has_come waking = false
has_come awake = true
has_come raised = true

abbrev pub is_noticed : Phase → Bool → ℕ → Bool
is_noticed outside pending i = pending
is_noticed (handling todo) pending i = contains todo i

abbrev pub is_handling : Phase → Bool
is_handling outside = false
is_handling (handling todo) = true

-- A signal whose handler has written to the pipe is noticed: the pipe tells of it, or the loop has read
-- that and is going to call its callback. While callbacks are called, a signal is pending.
pub record IsNoticed (sigs : List ℕ) (w : Loop) : Type 0 where
  pub noticed :
      (i : ℕ)
      → contains sigs i ≡ true
      → has_come (w.flags i) ≡ true
      → (has_signal w.pipe || is_noticed w.phase w.signal_pending i) ≡ true
  pub pending : is_handling w.phase ≡ true → w.signal_pending ≡ true

has_signal-append : (ws : List WakeType) → has_signal (ws ++ (signal ∷ [])) ≡ true
has_signal-append [] = refl
has_signal-append (normal ∷ ws) = has_signal-append ws
has_signal-append (signal ∷ ws) = refl

has_signal-more :
    (ws : List WakeType) (b : WakeType) → has_signal ws ≡ true → has_signal (ws ++ (b ∷ [])) ≡ true
has_signal-more [] b h = cc
has_signal-more (normal ∷ ws) b h = has_signal-more ws b h
has_signal-more (signal ∷ ws) b h = refl

contains-pending_of :
    (flags : ℕ → Flag) (sigs : List ℕ) (i : ℕ)
    → contains sigs i ≡ true
    → has_come (flags i) ≡ true
    → contains (pending_of flags sigs) i ≡ true
unfolding pending_of
contains-pending_of flags [] i c h = cc
contains-pending_of flags (j ∷ sigs) i c h = ground (arith, contains-pending_of flags sigs i)

reads_on : (p a b : Bool) → ((a || b) || p) ≡ true → (b || (p || a)) ≡ true
reads_on p true true h = refl
reads_on true a false h = refl
reads_on false true false h = refl
reads_on false false false h = h
reads_on p false true h = refl

module _ (capacity : ℕ) (sigs : List ℕ) where
  Step-noticed :
      {w v : Loop}
      → Step capacity sigs w v
      → IsNoticed sigs w
      → (i : ℕ) → contains sigs i ≡ true
      → has_come (v.flags i) ≡ true
      → (has_signal v.pipe || is_noticed v.phase v.signal_pending i) ≡ true
  Step-noticed {w} (arrive k e) n i c h = ground (arith, n.noticed i)
  Step-noticed {w} (write_signal k e r) n i c h = ground (arith, has_signal-append w.pipe)
  Step-noticed {w} (finish k e) n i c h = ground (arith, n.noticed i)
  Step-noticed {w} (woken b) n i c h = ground (arith, n.noticed i, has_signal-more w.pipe b)
  Step-noticed {w} (read e) n i c h =
      subst
        (λ p.
          (has_signal (drop 128 w.pipe)
            || is_noticed p (w.signal_pending || has_signal (take 128 w.pipe)) i)
          ≡ true)
        (sym e)
        (reads_on w.signal_pending (has_signal (take 128 w.pipe)) (has_signal (drop 128 w.pipe)) (
          ap (λ b. b || w.signal_pending) (has_signal-take 128 w.pipe)
          ∙ subst (λ p. (has_signal w.pipe || is_noticed p w.signal_pending i) ≡ true) e
              (n.noticed i c h)))
  Step-noticed {w} (begin e p) n i c h = ground (arith, contains-pending_of w.flags sigs i)
  Step-noticed {w} (handle k todo e f) n i c h = ground (arith, n.noticed i)
  Step-noticed {w} (handle_throw k todo e f) n i c h = ground (arith, n.noticed i, n.pending)
  Step-noticed {w} (end e) n i c h = ground (arith, n.noticed i)

  Step-pending :
      {w v : Loop}
      → Step capacity sigs w v
      → IsNoticed sigs w
      → is_handling v.phase ≡ true
      → v.signal_pending ≡ true
  Step-pending {w} (arrive k e) n h = n.pending h
  Step-pending {w} (write_signal k e r) n h = n.pending h
  Step-pending {w} (finish k e) n h = n.pending h
  Step-pending {w} (woken b) n h = n.pending h
  Step-pending {w} (read e) n h = ground (arith, n.pending)
  Step-pending {w} (begin e p) n h = p
  Step-pending {w} (handle k todo e f) n h = ground (arith, n.pending)
  Step-pending {w} (handle_throw k todo e f) n h = absurd (cc)
  Step-pending {w} (end e) n h = absurd (cc)

  -- As long as the pipe has room, no signal is lost: in every state that the handlers, which interrupt
  -- any thread at any step, and the thread of the event loop can reach, each signal with a callback
  -- whose handler has written to the pipe since the callback was last called is told of by the pipe,
  -- or read and still to be called, also where a callback has thrown.
  pub Reach-IsNoticed : {w : Loop} → Reach capacity sigs idle w → IsNoticed sigs w
  Reach-IsNoticed here = record { noticed = λ i c h. absurd (cc); pending = λ h. absurd (cc) }
  Reach-IsNoticed (next r s) =
      let n = Reach-IsNoticed r in record { noticed = Step-noticed s n; pending = Step-pending s n }
