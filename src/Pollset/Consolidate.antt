-- ===== src/Pollset/Consolidate.antt =====
-- `consolidate` leaves the entries that are polled for something, and no callback is lost.
use xdrpp.Common.{
  ℕ, zero, suc, ◌-◌, ◌≤◌, ◌<◌, ◌≡◌, ◌≢◌, refl, sym, subst, ap, ap₂, ◌∙◌, arith, Bool, true, false,
  ◌||◌, Option, none, some, length, get_elem?, ◌==◌, Bool-cases, get_some, inl, inr, ne_of_==,
  if_true, if_false, if◌then◌else◌,
}
use xdrpp.Pollset.{Pollfd, FdState, Pollset, put_state, has_events, erase_state, drop_back, trim}
use xdrpp.Pollset.Vector.{
  back, pop_back, length-pop_back, get_pop, get_in_range, get_defined, back-get,
}
use xdrpp.Pollset.Table.{is_some, Agrees, HasEntry, IsTable, one_entry, put_other}

abbrev pub has_cb : FdState → Bool
has_cb fs = is_some fs.rcb || is_some fs.wcb

-- The states with callbacks are there still, with the same callbacks.
abbrev pub Keeps : Pollset → Pollset → Type 0
Keeps ps ps' =
    (s : ℕ) (fs : FdState)
    → ps.state s ≡ some fs
    → has_cb fs ≡ true
    → (gs : FdState) × (ps'.state s ≡ some gs) × (gs.rcb ≡ fs.rcb) × (gs.wcb ≡ fs.wcb)

pub Keeps-trans : (a b c : Pollset) → Keeps a b → Keeps b c → Keeps a c
Keeps-trans a b c k l s fs e h =
    let (gs, e', r, w) = k s fs e h in
    let same : has_cb gs ≡ has_cb fs = ap₂ (λ (x y : Option ℕ). is_some x || is_some y) r w in
    let (hs, e'', r', w') = l s gs e' (same ∙ h) in (hs, e'', r' ∙ r, w' ∙ w)

-- The entries from `k` on are polled for something.
abbrev pub HaveEvents : ℕ → Pollset → Type 0
HaveEvents k ps =
    (j : ℕ) (q : Pollfd) → k ≤ j → get_elem? ps.pollfds j ≡ some q → has_events q ≡ true

-- The entry of a descriptor is the one its state says.
pub entry_of :
    (ps : Pollset) (s i : ℕ) (fs : FdState) (p : Pollfd)
    → IsTable ps
    → ps.state s ≡ some fs
    → get_elem? ps.pollfds i ≡ some p
    → s ≡ p.fd
    → (fs.idx ≡ some i) × Agrees fs p
entry_of ps s i fs p t st e f =
    let h : HasEntry ps s fs = t.listed s fs st in
    let same : h.i ≡ i = one_entry ps h.i i h.p p t h.entry e (h.same_fd ∙ f) in
    let p≡ : h.p ≡ p = get_some p (sym h.entry ∙ ap (get_elem? ps.pollfds) same ∙ e) in
    (h.idx ∙ ap some same, subst (Agrees fs) p≡ h.agrees)

-- A descriptor whose entry is polled for nothing has no callbacks.
pub no_callbacks :
    (ps : Pollset) (s i : ℕ) (fs : FdState) (p : Pollfd)
    → IsTable ps
    → ps.state s ≡ some fs
    → get_elem? ps.pollfds i ≡ some p
    → s ≡ p.fd
    → has_events p ≡ false
    → has_cb fs ≡ true
    → ⊥
no_callbacks ps s i fs p t st e f n h =
    let a : Agrees fs p = (entry_of ps s i fs p t st e f).1 in
    let same : has_events p ≡ has_cb fs = ap₂ (λ (x y : Bool). x || y) a.0 a.1 in
    clash (sym h ∙ sym same ∙ n)
  where
    clash : ¬ (true ≡ false)
    clash e = absurd (cc)

pub not_none : {A : Type 0} (a : A) → ¬ (none ≡ some a)
not_none a e = absurd (cc)

-- The last entry is taken away.
abbrev dropped : Pollfd → Pollset → Pollset
dropped p ps = record { pollfds = pop_back ps.pollfds; state = put_state p.fd none ps.state }

dropped-IsTable :
    (n : ℕ) (p : Pollfd) (ps : Pollset)
    → IsTable ps
    → length ps.pollfds ≡ suc n
    → get_elem? ps.pollfds n ≡ some p
    → IsTable (dropped p ps)
dropped-IsTable n p ps t l e = record {
  polled = λ j q ej.
      let below : j < n =
        omega (arith, get_in_range j (pop_back ps.pollfds) q ej, length-pop_back ps.pollfds) in
      let old : get_elem? ps.pollfds j ≡ some q = sym (get_pop j ps.pollfds (omega arith)) ∙ ej in
      let (fs, st, x) = t.polled j q old in
      (
        fs,
        put_other p.fd q.fd none ps.state
              (λ same. absurd (omega (arith, below, one_entry ps j n q p t old e same)))
            ∙ st,
        x,
      );
  listed = λ u gs eu. elim (Bool-cases (u == p.fd)) [
    | inl here ↦ absurd (not_none gs (sym (if_true _ _ here) ∙ eu))
    | inr other ↦
        let h : HasEntry ps u gs = t.listed u gs (sym (if_false _ _ other) ∙ eu) in
        let n≢ : h.i ≢ n = λ same. ne_of_== u p.fd other (
          sym h.same_fd
          ∙ ap (λ (r : Pollfd). r.fd)
              (get_some p (sym h.entry ∙ ap (get_elem? ps.pollfds) same ∙ e))) in
        let below : h.i < length ps.pollfds = get_in_range h.i ps.pollfds h.p h.entry in
        record {
          i = h.i;
          p = h.p;
          idx = h.idx;
          entry = get_pop h.i ps.pollfds (omega (arith, below, n≢, l)) ∙ h.entry;
          same_fd = h.same_fd;
          agrees = h.agrees;
        }
  ];
}

dropped-Keeps :
    (n : ℕ) (p : Pollfd) (ps : Pollset)
    → IsTable ps
    → get_elem? ps.pollfds n ≡ some p
    → has_events p ≡ false
    → Keeps ps (dropped p ps)
dropped-Keeps n p ps t e none' s fs st h = (
  fs,
  put_other p.fd s none ps.state (λ same. no_callbacks ps s n fs p t st e same none' h) ∙ st,
  refl,
  refl,
)

-- What a part of `consolidate` leaves, when the entries from `k ps'` on are polled for something.
pub record Consolidated (k : Pollset → ℕ) (ps ps' : Pollset) : Type 0 where
  pub table : IsTable ps'
  pub keeps : Keeps ps ps'
  pub events : HaveEvents (k ps') ps'

abbrev pub last_index : Pollset → ℕ
last_index ps = length ps.pollfds - 1

trim_stop :
    (n : ℕ) (p : Pollfd) (ps : Pollset)
    → back ps.pollfds ≡ some p
    → has_events p ≡ true
    → trim (suc n) ps ≡ ps
unfolding trim
trim_stop n p ps b e = rw (b, trim) (if_true _ _ e)

trim_drop :
    (n : ℕ) (p : Pollfd) (ps : Pollset)
    → back ps.pollfds ≡ some p
    → has_events p ≡ false
    → trim (suc n) ps ≡ trim n (dropped p ps)
unfolding trim
trim_drop n p ps b e =
    ap
      (λ (o : Option Pollfd). elim o [
        | none ↦ ps
        | some p ↦ if has_events p then ps else trim n (drop_back ps)
      ])
      b
    ∙ if_false _ _ e
    ∙ ap
        (λ (o : Option Pollfd).
          trim n (record { pollfds = pop_back ps.pollfds; state = erase_state o ps.state }))
        b

pub trim-Consolidated :
    (n : ℕ) (ps : Pollset)
    → IsTable ps
    → length ps.pollfds ≡ n
    → Consolidated last_index ps (trim n ps)
unfolding trim
trim-Consolidated zero ps t l = record {
  table = t;
  keeps = λ s fs e h. (fs, e, refl, refl);
  events = λ j q le e. absurd (omega (arith, get_in_range j ps.pollfds q e));
}
trim-Consolidated (suc n) ps t l =
    let (p, e) = get_defined n ps.pollfds (omega arith) in
    let is_back : back ps.pollfds ≡ some p = back-get n ps.pollfds l ∙ e in
    elim (Bool-cases (has_events p)) [
      | inl events ↦ rw (trim_stop n p ps is_back events) (record {
        table = t;
        keeps = λ s fs e h. (fs, e, refl, refl);
        events = λ j q le ej.
            let j≡n : j ≡ n = omega (arith, get_in_range j ps.pollfds q ej) in
            ap has_events (get_some p (sym ej ∙ ap (get_elem? ps.pollfds) j≡n ∙ e)) ∙ events;
      })
      | inr none' ↦
          let rest : Consolidated last_index (dropped p ps) (trim n (dropped p ps)) =
            trim-Consolidated n (dropped p ps) (dropped-IsTable n p ps t l e)
              (omega (arith, length-pop_back ps.pollfds)) in
          rw (trim_drop n p ps is_back none') (record {
            table = rest.table;
            keeps =
                Keeps-trans ps (dropped p ps) (trim n (dropped p ps))
                  (dropped-Keeps n p ps t e none') rest.keeps;
            events = rest.events;
          })
    ]
