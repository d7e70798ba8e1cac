-- ===== src/Pollset/Timers/Due.antt =====
-- How long the event loop waits, and which callbacks it calls.
use xdrpp.Common.{
  ℕ, ◌-◌, ◌^◌, ◌≤◌, ◌<◌, ◌≡◌, refl, ◌∙◌, arith, false, Option, none, some, List, [], ◌∷◌, ltb, leb,
  min, if_true, if_false, Bool-cases, inl, inr, ◌⊎◌, leb→le, leb→lt, ltb→lt, ltb→le,
}
use xdrpp.Pollset.Timers.{Timer, emplace, next_timeout}

-- No longer than the caller's limit, if there is one.
abbrev pub IsWithin : Option ℕ → ℕ → Type 0
IsWithin none w = Unit
IsWithin (some m) w = w ≤ m

-- What a wait with a timeout at `time` pending may be.
pub record IsWait (ms : Option ℕ) (now time w : ℕ) : Type 0 where
  pub fits : w < 2 ^ 31
  pub in_time : w ≤ time - now
  pub within : IsWithin ms w
  pub longest : (w ≡ time - now) ⊎ ((ms ≡ some w) ⊎ (w ≡ 2 ^ 31 - 1))

wait_lem :
    (ms : Option ℕ) (now time : ℕ)
    → now ≤ time
    → IsWithin ms (min (time - now) (2 ^ 31 - 1))
    → IsWait ms now time (min (time - now) (2 ^ 31 - 1))
wait_lem ms now time h w = record {
  fits = omega arith;
  in_time = omega arith;
  within = w;
  longest = elim (Bool-cases (leb (time - now) (2 ^ 31 - 1))) [
    | inl short ↦ inl (omega (arith, leb→le (time - now) (2 ^ 31 - 1) short))
    | inr long ↦ inr (inr (omega (arith, leb→lt (time - now) (2 ^ 31 - 1) long)))
  ];
}

over_lem : (ms : Option ℕ) (now time : ℕ) → time ≤ now → IsWait ms now time 0
over_lem ms now time h = record {
  fits = omega arith;
  in_time = omega arith;
  within = zero_within ms;
  longest = inl (omega arith);
}
  where
    zero_within : (ms : Option ℕ) → IsWithin ms 0
    zero_within none = tt
    zero_within (some m) = omega arith

-- While a timeout is pending, `next_timeout` is a number of milliseconds that fits in an `int`, that
-- ends no later than the first timeout (it is 0 where that is over) and that is no more than the
-- caller's limit, if the caller gives one and not a negative number. It is as long as these allow: the
-- time to the first timeout, the limit or the largest `int`.
pub next_timeout-IsWait :
    (ms : Option ℕ) (now : ℕ) (u : Timer) (us : List Timer)
    → (w : ℕ) × (next_timeout ms now (u ∷ us) ≡ some w) × IsWait ms now u.time w
unfolding next_timeout
next_timeout-IsWait ms now u us = elim (Bool-cases (leb u.time now)) [
  | inl over ↦ (0, if_true _ _ over, over_lem ms now u.time (leb→le u.time now over))
  | inr later ↦ let h : now ≤ u.time = omega (arith, leb→lt u.time now later) in by_limit ms later h
]
  where
    wait : ℕ
    wait = min (u.time - now) (2 ^ 31 - 1)

    by_limit :
        (ms : Option ℕ)
        → leb u.time now ≡ false
        → now ≤ u.time
        → (w : ℕ) × (next_timeout ms now (u ∷ us) ≡ some w) × IsWait ms now u.time w
    by_limit none later h = (wait, if_false _ _ later, wait_lem none now u.time h tt)
    by_limit (some m) later h = elim (Bool-cases (leb m wait)) [
      | inl limited ↦
          let le : m ≤ wait = leb→le m wait limited in
          (
            m,
            if_false _ _ later ∙ if_true _ _ limited,
            record {
              fits = omega arith;
              in_time = omega arith;
              within = omega arith;
              longest = inr (inl refl);
            },
          )
      | inr free ↦ (
        wait,
        if_false _ _ later ∙ if_false _ _ free,
        wait_lem (some m) now u.time h (omega (arith, leb→lt m wait free)),
      )
    ]

-- The entries come in the order of their times.
abbrev pub AllFrom : ℕ → List Timer → Type 0
AllFrom t [] = Unit
AllFrom t (u ∷ us) = (t ≤ u.time) × AllFrom t us

abbrev pub AreOrdered : List Timer → Type 0
AreOrdered [] = Unit
AreOrdered (u ∷ us) = AllFrom u.time us × AreOrdered us

AllFrom-emplace :
    (k : ℕ) (t : Timer) (us : List Timer) → k ≤ t.time → AllFrom k us → AllFrom k (emplace t us)
unfolding emplace
AllFrom-emplace k t [] h a = (h, tt)
AllFrom-emplace k t (u ∷ us) h (le, a) = elim (Bool-cases (ltb t.time u.time)) [
  | inl before ↦ rw before (h, (le, a))
  | inr behind ↦ rw behind (le, AllFrom-emplace k t us h a)
]

AllFrom-lower : (j k : ℕ) (us : List Timer) → j ≤ k → AllFrom k us → AllFrom j us
AllFrom-lower j k [] h a = tt
AllFrom-lower j k (u ∷ us) h (le, a) = (omega arith, AllFrom-lower j k us h a)

-- `emplace` keeps the order.
pub emplace-AreOrdered : (t : Timer) (us : List Timer) → AreOrdered us → AreOrdered (emplace t us)
unfolding emplace
emplace-AreOrdered t [] o = (tt, tt)
emplace-AreOrdered t (u ∷ us) (a, o) = elim (Bool-cases (ltb t.time u.time)) [
  | inl before ↦
      let h : t.time ≤ u.time = omega (arith, ltb→lt t.time u.time before) in
      rw before ((h, AllFrom-lower t.time u.time us h a), (a, o))
  | inr behind ↦
      rw behind
        (AllFrom-emplace u.time t us (ltb→le t.time u.time behind) a, emplace-AreOrdered t us o)
]
