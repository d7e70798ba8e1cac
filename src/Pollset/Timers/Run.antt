-- ===== src/Pollset/Timers/Run.antt =====
-- `run_timeouts` calls the callbacks that are due.
use xdrpp.Common.{
  ℕ, zero, suc, ◌+◌, ◌≤◌, ◌<◌, ◌≡◌, refl, sym, subst, ap, ◌∙◌, arith, false, Option, none, some,
  List, [], ◌∷◌, ◌++◌, length, ltb, leb, if◌then◌else◌, if_true, if_false, Bool-cases, inl, inr,
  ◌⊎◌, append_assoc, append-nil, leb→le, ltb→lt, le→ltb, lt→leb,
}
use xdrpp.Pollset.Timers.{
  Timer, emplace, Request, timeout_at, timeout_cancel, Walk, Ran, ran, undefined, request, requests,
  run_from, run_timeouts,
}
use xdrpp.Pollset.Timers.Due.{AreOrdered, emplace-AreOrdered}

abbrev pub Has : Timer → List Timer → Type 0
Has t [] = ⊥
Has t (u ∷ us) = (t ≡ u) ⊎ Has t us

Has-emplace : (t v : Timer) (us : List Timer) → Has v us → Has v (emplace t us)
unfolding emplace
Has-emplace t v [] h = absurd h
Has-emplace t v (u ∷ us) h = elim (Bool-cases (ltb t.time u.time)) [
  | inl before ↦ rw before (inr h)
  | inr behind ↦ rw behind (elim h [ inl e ↦ inl e | inr later ↦ inr (Has-emplace t v us later) ])
]

module _ (now : ℕ) where
  -- The callbacks of the entries in front that are due.
  unfoldable pub due : List Timer → List ℕ
  due [] = []
  due (u ∷ us) = let rest = due us in if leb u.time now then u.cb ∷ rest else []

  due-emplace : (t : Timer) (us : List Timer) → now < t.time → due (emplace t us) ≡ due us
  unfolding due emplace
  due-emplace t [] h = if_false _ _ (lt→leb now t.time h)
  due-emplace t (u ∷ us) h = elim (Bool-cases (ltb t.time u.time)) [
    | inl before ↦ rw before (
        if_false _ _ (lt→leb now t.time h)
        ∙ sym (if_false _ _ (lt→leb now u.time (omega (arith, ltb→lt t.time u.time before)))))
    | inr behind ↦
        rw behind
          (ap (λ (r : List ℕ). if leb u.time now then u.cb ∷ r else []) (due-emplace t us h))
  ]

  -- Requests for timeouts after `now`, and none to cancel one.
  abbrev pub AreLater : List Request → Type 0
  AreLater [] = Unit
  AreLater (timeout_at ms cb ∷ rs) = (now < ms) × AreLater rs
  AreLater (timeout_cancel id ∷ rs) = ⊥

  -- Such requests change nothing that is due, nor take away what is there.
  record IsQuiet (w w' : Walk) : Type 0 where
    same_before : w'.before ≡ w.before
    same_due : due w'.behind ≡ due w.behind
    ordered : AreOrdered w'.behind
    keeps : (t : Timer) → Has t w.behind → Has t w'.behind

  requests-IsQuiet :
      (rs : List Request) (w : Walk)
      → w.current.time ≤ now
      → AreOrdered w.behind
      → AreLater rs
      → (w' : Walk) × (requests rs w ≡ some w') × IsQuiet w w'
  unfolding requests request
  requests-IsQuiet [] w c o a =
      (w, refl, record { same_before = refl; same_due = refl; ordered = o; keeps = λ t h. h })
  requests-IsQuiet (timeout_cancel id ∷ rs) w c o a = absurd a
  requests-IsQuiet (timeout_at ms cb ∷ rs) w c o (later, a) =
      let t : Timer = record { time = ms; id = w.next_id; cb = cb } in
      let w1 : Walk = record w { behind = emplace t w.behind; next_id = w.next_id + 1 } in
      let (w', e, q) = requests-IsQuiet rs w1 c (emplace-AreOrdered t w.behind o) a in
      (
        w',
        ap (λ (o : Option Walk). elim o [ none ↦ none | some v ↦ requests rs v ])
              (if_false _ _ (le→ltb ms w.current.time (omega (arith, c, later))))
            ∙ e,
        record {
          same_before = q.same_before;
          same_due = q.same_due ∙ due-emplace t w.behind later;
          ordered = q.ordered;
          keeps = λ v h. q.keeps v (Has-emplace t v w.behind h);
        },
      )

  -- What a walk over the entries comes to.
  pub record Runs (us : List Timer) (called : List ℕ) (r : Ran) : Type 0 where
    pub left : List Timer
    pub ends : r ≡ ran left (called ++ due us)
    pub ordered : AreOrdered left
    pub none_due : due left ≡ []
    pub keeps : (t : Timer) → Has t us → now < t.time → Has t left

  stops :
      (u : Timer) (us : List Timer) (called : List ℕ)
      → AreOrdered (u ∷ us)
      → leb u.time now ≡ false
      → Runs (u ∷ us) called (ran (u ∷ us) called)
  unfolding due
  stops u us called o waits =
      let nothing : due (u ∷ us) ≡ [] = if_false _ _ waits in
      record {
        left = u ∷ us;
        ends =
            ap (ran (u ∷ us))
              (sym (append-nil called) ∙ ap (λ (r : List ℕ). called ++ r) (sym nothing));
        ordered = o;
        none_due = nothing;
        keeps = λ t h n. h;
      }

  module _ (behave : ℕ → List Request) (later : (cb : ℕ) → AreLater (behave cb)) where
    run_from-Runs :
        (turns : ℕ) (us : List Timer) (next_id : ℕ) (called : List ℕ)
        → AreOrdered us
        → length (due us) ≤ turns
        → Runs us called (run_from behave now turns [] us next_id called)
    unfolding run_from due
    run_from-Runs turns [] next_id called o h = record {
      left = [];
      ends = ap (ran []) (sym (append-nil called));
      ordered = tt;
      none_due = refl;
      keeps = λ t h n. h;
    }
    run_from-Runs zero (u ∷ us) next_id called o h = elim (Bool-cases (leb u.time now)) [
      | inl over ↦ absurd (omega (arith, h, ap length (if_true (u.cb ∷ due us) [] over)))
      | inr waits ↦
          subst (Runs (u ∷ us) called) (sym (if_false _ _ waits)) (stops u us called o waits)
    ]
    run_from-Runs (suc turns) (u ∷ us) next_id called o h = elim (Bool-cases (leb u.time now)) [
      | inl over ↦
          let is_due : due (u ∷ us) ≡ u.cb ∷ due us = if_true _ _ over in
          let (w, e, q) =
            requests-IsQuiet (behave u.cb)
              (record { before = []; current = u; behind = us; next_id = next_id })
              (leb→le u.time now over) o.1 (later u.cb) in
          let fits : length (due w.behind) ≤ turns =
            omega (arith, h, ap length is_due, ap length q.same_due) in
          let rest : Runs w.behind (called ++ (u.cb ∷ []))
              (run_from behave now turns [] w.behind w.next_id (called ++ (u.cb ∷ []))) =
            run_from-Runs turns w.behind w.next_id (called ++ (u.cb ∷ [])) q.ordered fits in
          record {
            left = rest.left;
            ends =
                if_true _ _ over
                ∙ ap
                    (λ (o : Option Walk). elim o [
                      | none ↦ undefined
                      | some v ↦
                          run_from behave now turns v.before v.behind v.next_id
                            (called ++ (u.cb ∷ []))
                    ])
                    e
                ∙ ap
                    (λ (b : List Timer).
                      run_from behave now turns b w.behind w.next_id (called ++ (u.cb ∷ [])))
                    q.same_before
                ∙ rest.ends
                ∙ ap (ran rest.left) (
                    append_assoc called (u.cb ∷ []) (due w.behind)
                    ∙ ap (λ (cbs : List ℕ). called ++ cbs) (ap (◌∷◌ u.cb) q.same_due ∙ sym is_due));
            ordered = rest.ordered;
            none_due = rest.none_due;
            keeps = λ t h n. elim h [
              | inl same ↦
                  absurd (omega (arith, n, leb→le u.time now over, ap (λ (v : Timer). v.time) same))
              | inr there ↦ rest.keeps t (q.keeps t there) n
            ];
          }
      | inr waits ↦
          subst (Runs (u ∷ us) called) (sym (if_false _ _ waits)) (stops u us called o waits)
    ]

    -- Where callbacks ask only for timeouts after `now`, and cancel none, `run_timeouts` returns after
    -- as many turns as there are entries due. It has called exactly the callbacks of the entries that
    -- were due, in the order of the entries; none that is left is due, and no later one is lost.
    pub run_timeouts-Runs :
        (us : List Timer) (next_id : ℕ)
        → AreOrdered us
        → Runs us [] (run_timeouts behave now (length (due us)) us next_id)
    unfolding run_timeouts
    run_timeouts-Runs us next_id o = run_from-Runs (length (due us)) us next_id [] o (omega arith)
