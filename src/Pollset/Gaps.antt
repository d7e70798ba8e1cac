-- ===== src/Pollset/Gaps.antt =====
-- The second loop of `consolidate`, and the whole of it.
use xdrpp.Common.{
  ℕ, zero, suc, ◌-◌, ◌≤◌, ◌<◌, ◌≡◌, ◌≢◌, refl, sym, subst, ap, ◌∙◌, arith, false, Option, none,
  some, length, get_elem?, ◌==◌, Bool-cases, get_some, inl, inr, ==_iff, ne_of_==, if_true,
  if_false,
}
use xdrpp.Common.Result.{ok, ◌>>=◌, Returns, gives, Returns-weaken}
use xdrpp.Pollset.{
  Pollfd, FdState, Pollset, put_state, at_index, has_events, trim, moved, move_found, move_back,
  fill_gaps, consolidate,
}
use xdrpp.Pollset.Vector.{
  set_at, length-set_at, length-pop_back, get_set_same, get_set_other, get_pop, get_in_range,
  get_defined, back-get,
}
use xdrpp.Pollset.Table.{HasEntry, IsTable, one_entry, put_same, put_other}
use xdrpp.Pollset.Consolidate.{
  Keeps, Keeps-trans, HaveEvents, entry_of, no_callbacks, not_none, Consolidated, last_index,
  trim-Consolidated,
}

-- Entry `i`, which is polled for nothing, is replaced by the last entry, entry `n`.
module _ (i n : ℕ) (p1 p : Pollfd) (fs : FdState) (ps : Pollset) (t : IsTable ps)
    (l : length ps.pollfds ≡ suc n) (lt : i < n) (e1 : get_elem? ps.pollfds i ≡ some p1)
    (e : get_elem? ps.pollfds n ≡ some p) (unused : has_events p1 ≡ false)
    (st : ps.state p.fd ≡ some fs) where
  abbrev erased : ℕ → Option FdState
  erased = put_state p1.fd none ps.state

  abbrev after : Pollset
  after = moved i p fs ps.pollfds erased

  other_fd : p.fd ≢ p1.fd
  other_fd same = absurd (omega (arith, lt, one_entry ps n i p p1 t e e1 same))

  get_below : (j : ℕ) → j < n → get_elem? after.pollfds j ≡ get_elem? (set_at i p ps.pollfds) j
  get_below j h =
      get_pop j (set_at i p ps.pollfds) (omega (arith, h, l, length-set_at i p ps.pollfds))

  get_moved : get_elem? after.pollfds i ≡ some p
  get_moved = get_below i lt ∙ get_set_same i p ps.pollfds (omega arith)

  get_old : (j : ℕ) → j < n → j ≢ i → get_elem? after.pollfds j ≡ get_elem? ps.pollfds j
  get_old j h other = get_below j h ∙ get_set_other i j p ps.pollfds other

  pub length-moved : length after.pollfds ≡ n
  length-moved =
      omega (arith, length-pop_back (set_at i p ps.pollfds), length-set_at i p ps.pollfds, l)

  moved_polled :
      (j : ℕ) (q : Pollfd)
      → get_elem? after.pollfds j ≡ some q
      → (gs : FdState) × (after.state q.fd ≡ some gs) × (gs.idx ≡ some j)
  moved_polled j q ej =
      let below : j < n = omega (arith, get_in_range j after.pollfds q ej, length-moved) in
      elim (Bool-cases (j == i)) [
        | inl here ↦
            let j≡i : j ≡ i = (==_iff j i).0 here in
            let p≡q : p ≡ q =
              get_some q (sym get_moved ∙ ap (get_elem? after.pollfds) (sym j≡i) ∙ ej) in
            (
              record fs { idx = some i },
              ap after.state (sym (ap (λ (r : Pollfd). r.fd) p≡q))
                  ∙ put_same p.fd (some (record fs { idx = some i })) erased,
              ap some (sym j≡i),
            )
        | inr other ↦
            let j≢i : j ≢ i = ne_of_== j i other in
            let old : get_elem? ps.pollfds j ≡ some q = sym (get_old j below j≢i) ∙ ej in
            let (gs, sq, x) = t.polled j q old in
            (
              gs,
              put_other p.fd q.fd (some (record fs { idx = some i })) erased
                    (λ same. absurd (omega (arith, below, one_entry ps j n q p t old e same)))
                  ∙ put_other p1.fd q.fd none ps.state
                      (λ same. j≢i (one_entry ps j i q p1 t old e1 same))
                  ∙ sq,
              x,
            )
      ]

  moved_listed : (u : ℕ) (gs : FdState) → after.state u ≡ some gs → HasEntry after u gs
  moved_listed u gs eu = elim (Bool-cases (u == p.fd)) [
    | inl here ↦ subst (HasEntry after u) (get_some gs (sym (if_true _ _ here) ∙ eu)) (record {
      i = i;
      p = p;
      idx = refl;
      entry = get_moved;
      same_fd = sym ((==_iff u p.fd).0 here);
      agrees = (entry_of ps p.fd n fs p t st e refl).1;
    })
    | inr other ↦
        let rest : erased u ≡ some gs = sym (if_false _ _ other) ∙ eu in
        elim (Bool-cases (u == p1.fd)) [
          | inl gone ↦ absurd (not_none gs (sym (if_true _ _ gone) ∙ rest))
          | inr there ↦
              let old : ps.state u ≡ some gs = sym (if_false _ _ there) ∙ rest in
              let h : HasEntry ps u gs = t.listed u gs old in
              let fd_of : (k : ℕ) (q : Pollfd)
                  → h.i ≡ k
                  → get_elem? ps.pollfds k ≡ some q
                  → u ≡ q.fd =
                λ k q same ek.
                  sym h.same_fd
                  ∙ ap (λ (r : Pollfd). r.fd)
                      (get_some q (sym h.entry ∙ ap (get_elem? ps.pollfds) same ∙ ek)) in
              let not_n : h.i ≢ n = λ same. ne_of_== u p.fd other (fd_of n p same e) in
              let not_i : h.i ≢ i = λ same. ne_of_== u p1.fd there (fd_of i p1 same e1) in
              let range : h.i < length ps.pollfds = get_in_range h.i ps.pollfds h.p h.entry in
              record {
                i = h.i;
                p = h.p;
                idx = h.idx;
                entry = get_old h.i (omega (arith, range, not_n, l)) not_i ∙ h.entry;
                same_fd = h.same_fd;
                agrees = h.agrees;
              }
        ]
  ]

  pub moved-IsTable : IsTable after
  moved-IsTable = record { polled = moved_polled; listed = moved_listed }

  pub moved-Keeps : Keeps ps after
  moved-Keeps s gs e2 h =
      let kept : erased s ≡ some gs =
        put_other p1.fd s none ps.state (λ same. no_callbacks ps s i gs p1 t e2 e1 same unused h)
        ∙ e2 in
      elim (Bool-cases (s == p.fd)) [
        | inl here ↦
            let fs≡gs : fs ≡ gs =
              get_some gs (sym st ∙ ap ps.state (sym ((==_iff s p.fd).0 here)) ∙ e2) in
            (
              record fs { idx = some i },
              if_true _ _ here,
              ap (λ (f : FdState). f.rcb) fs≡gs,
              ap (λ (f : FdState). f.wcb) fs≡gs,
            )
        | inr other ↦ (gs, if_false _ _ other ∙ kept, refl, refl)
      ]

  pub moved-HaveEvents : HaveEvents (suc i) ps → HaveEvents i after
  moved-HaveEvents ev j q le ej =
      let below : j < n = omega (arith, get_in_range j after.pollfds q ej, length-moved) in
      elim (Bool-cases (j == i)) [
        | inl here ↦
            let j≡i : j ≡ i = (==_iff j i).0 here in
            let p≡q : p ≡ q =
              get_some q (sym get_moved ∙ ap (get_elem? after.pollfds) (sym j≡i) ∙ ej) in
            ap has_events (sym p≡q) ∙ ev n p (omega arith) e
        | inr other ↦
            let j≢i : j ≢ i = ne_of_== j i other in
            ev j q (omega arith) (sym (get_old j below j≢i) ∙ ej)
      ]

  move_back-moved : move_back i p1 ps ≡ ok after
  unfolding move_back
  move_back-moved =
      rw (back-get n ps.pollfds l ∙ e, move_back)
        (ap (move_found i p ps.pollfds erased) (put_other p1.fd p.fd none ps.state other_fd ∙ st))

-- All entries are polled for something.
abbrev pub no_gaps : Pollset → ℕ
no_gaps ps = 0

pub at_index_lem :
    (i : ℕ) (p : Pollfd) (ps : Pollset)
    → get_elem? ps.pollfds i ≡ some p
    → at_index ps.pollfds i ≡ ok p
at_index_lem i p ps e = rw (e, at_index) refl

fill_gaps-Consolidated :
    (k : ℕ) (ps : Pollset)
    → IsTable ps
    → k ≤ length ps.pollfds - 1
    → HaveEvents k ps
    → Returns (Consolidated no_gaps ps) (fill_gaps k ps)
unfolding fill_gaps
fill_gaps-Consolidated zero ps t h ev =
    gives (record { table = t; keeps = λ s fs e c. (fs, e, refl, refl); events = ev })
fill_gaps-Consolidated (suc i) ps t h ev =
    let (p1, e1) = get_defined i ps.pollfds (omega arith) in
    rw (at_index_lem i p1 ps e1) (elim (Bool-cases (has_events p1)) [
      | inl used ↦ subst (Returns (Consolidated no_gaps ps)) (sym (if_true _ _ used)) (
          fill_gaps-Consolidated i ps t (omega arith) (λ j q le e. elim (Bool-cases (j == i)) [
            | inl here ↦
                let p1≡q : p1 ≡ q =
                  get_some q (sym e1 ∙ ap (get_elem? ps.pollfds) (sym ((==_iff j i).0 here)) ∙ e) in
                ap has_events (sym p1≡q) ∙ used
            | inr other ↦ ev j q (omega (arith, ne_of_== j i other)) e
          ]))
      | inr unused ↦
          let n : ℕ = length ps.pollfds - 1 in
          let l : length ps.pollfds ≡ suc n = omega arith in
          let lt : i < n = omega arith in
          let (p, e) = get_defined n ps.pollfds (omega arith) in
          let (fs, st, x) = t.polled n p e in
          let ps' : Pollset = after i n p1 p fs ps t l lt e1 e unused st in
          let rest : Returns (Consolidated no_gaps ps') (fill_gaps i ps') =
            fill_gaps-Consolidated i ps' (moved-IsTable i n p1 p fs ps t l lt e1 e unused st)
              (omega (arith, length-moved i n p1 p fs ps t l lt e1 e unused st))
              (moved-HaveEvents i n p1 p fs ps t l lt e1 e unused st ev) in
          subst (Returns (Consolidated no_gaps ps))
            (sym (
              if_false _ _ unused
              ∙ ap (λ r. r >>= fill_gaps i) (move_back-moved i n p1 p fs ps t l lt e1 e unused st)))
            (Returns-weaken rest λ ps'' c. record {
              table = c.table;
              keeps =
                  Keeps-trans ps ps' ps'' (moved-Keeps i n p1 p fs ps t l lt e1 e unused st)
                    c.keeps;
              events = c.events;
            })
    ])

-- On a table `consolidate` returns, and no `at` throws. It leaves a table in which every entry is
-- polled for something, and every descriptor that has a callback keeps its callbacks.
pub consolidate-Consolidated :
    (ps : Pollset) → IsTable ps → Returns (Consolidated no_gaps ps) (consolidate ps)
unfolding consolidate
consolidate-Consolidated ps t =
    let ps' : Pollset = trim (length ps.pollfds) ps in
    let c : Consolidated last_index ps ps' = trim-Consolidated (length ps.pollfds) ps t refl in
    Returns-weaken (fill_gaps-Consolidated (last_index ps') ps' c.table (omega arith) c.events)
      λ ps'' d. record {
        table = d.table;
        keeps = Keeps-trans ps ps' ps'' c.keeps d.keeps;
        events = d.events;
      }
