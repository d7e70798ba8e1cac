-- ===== src/Pollset/Table.antt =====
-- The invariant of the table of descriptors, and that the registration of callbacks keeps it.
use xdrpp.Common.{
  ℕ, ◌≡◌, ◌≢◌, refl, sym, subst, ap, ◌∙◌, Bool, true, false, Option, none, some, get_elem?, ◌==◌,
  Bool-cases, get_some, inl, inr, eq→==, ne→==, ==_iff, ne_of_==, if_true, if_false,
}
use xdrpp.Pollset.{Pollfd, FdState, Pollset, put_state, store}
use xdrpp.Pollset.Vector.{set_at, get_set_same, get_set_other, get_in_range}

abbrev pub is_some : Option ℕ → Bool
is_some none = false
is_some (some cb) = true

-- The descriptor is polled for exactly what it has callbacks for.
abbrev pub Agrees : FdState → Pollfd → Type 0
Agrees fs p = (p.pollin ≡ is_some fs.rcb) × (p.pollout ≡ is_some fs.wcb)

-- Where the entry of a state is.
pub record HasEntry (ps : Pollset) (s : ℕ) (fs : FdState) : Type 0 where
  pub i : ℕ
  pub p : Pollfd
  pub idx : fs.idx ≡ some i
  pub entry : get_elem? ps.pollfds i ≡ some p
  pub same_fd : p.fd ≡ s
  pub agrees : Agrees fs p

-- `state_` and `pollfds_` point at each other, and agree.
pub record IsTable (ps : Pollset) : Type 0 where
  pub polled :
      (j : ℕ) (p : Pollfd)
      → get_elem? ps.pollfds j ≡ some p
      → (fs : FdState) × (ps.state p.fd ≡ some fs) × (fs.idx ≡ some j)
  pub listed : (s : ℕ) (fs : FdState) → ps.state s ≡ some fs → HasEntry ps s fs

-- No descriptor has two entries.
pub one_entry :
    (ps : Pollset) (i j : ℕ) (p q : Pollfd)
    → IsTable ps
    → get_elem? ps.pollfds i ≡ some p
    → get_elem? ps.pollfds j ≡ some q
    → p.fd ≡ q.fd
    → i ≡ j
one_entry ps i j p q t ep eq e =
    let (fs, sp, ip) = t.polled i p ep in
    let (gs, sq, iq) = t.polled j q eq in
    let same : fs ≡ gs = get_some gs (sym sp ∙ ap ps.state e ∙ sq) in
    get_some j (sym ip ∙ ap (λ (f : FdState). f.idx) same ∙ iq)

pub put_same :
    (s : ℕ) (st : Option FdState) (state : ℕ → Option FdState) → put_state s st state s ≡ st
put_same s st state = if_true _ _ (eq→== s s refl)

pub put_other :
    (s t : ℕ) (st : Option FdState) (state : ℕ → Option FdState)
    → t ≢ s
    → put_state s st state t ≡ state t
put_other s t st state n = if_false _ _ (ne→== t s n)

-- An entry and its state are stored in place of old ones of the same descriptor.
module _ (s i : ℕ) (p0 p : Pollfd) (fs : FdState) (ps : Pollset) (t : IsTable ps)
    (e0 : get_elem? ps.pollfds i ≡ some p0) (f0 : p0.fd ≡ s) (f : p.fd ≡ s) (x : fs.idx ≡ some i)
    (a : Agrees fs p) where
  stored_entry :
      (j : ℕ) (q : Pollfd)
      → get_elem? (store s i p fs ps).pollfds j ≡ some q
      → (gs : FdState) × ((store s i p fs ps).state q.fd ≡ some gs) × (gs.idx ≡ some j)
  stored_entry j q e = elim (Bool-cases (j == i)) [
    | inl here ↦
        let j≡i : j ≡ i = (==_iff j i).0 here in
        let p≡q : p ≡ q = get_some q (
          sym (get_set_same i p ps.pollfds (get_in_range i ps.pollfds p0 e0))
          ∙ ap (get_elem? (set_at i p ps.pollfds)) (sym j≡i)
          ∙ e) in
        (
          fs,
          ap (put_state s (some fs) ps.state) (sym (ap (λ (r : Pollfd). r.fd) p≡q) ∙ f)
              ∙ put_same s (some fs) ps.state,
          x ∙ ap some (sym j≡i),
        )
    | inr other ↦
        let n : j ≢ i = ne_of_== j i other in
        let old : get_elem? ps.pollfds j ≡ some q = sym (get_set_other i j p ps.pollfds n) ∙ e in
        let (gs, st, ix) = t.polled j q old in
        (
          gs,
          put_other s q.fd (some fs) ps.state
                (λ same. n (one_entry ps j i q p0 t old e0 (same ∙ sym f0)))
              ∙ st,
          ix,
        )
  ]

  stored_state :
      (u : ℕ) (gs : FdState)
      → (store s i p fs ps).state u ≡ some gs
      → HasEntry (store s i p fs ps) u gs
  stored_state u gs e = elim (Bool-cases (u == s)) [
    | inl here ↦
        let u≡s : u ≡ s = (==_iff u s).0 here in
        let fs≡gs : fs ≡ gs = get_some gs (sym (if_true _ _ here) ∙ e) in
        subst (HasEntry (store s i p fs ps) u) fs≡gs (record {
          i = i;
          p = p;
          idx = x;
          entry = get_set_same i p ps.pollfds (get_in_range i ps.pollfds p0 e0);
          same_fd = f ∙ sym u≡s;
          agrees = a;
        })
    | inr other ↦
        let n : u ≢ s = ne_of_== u s other in
        let h : HasEntry ps u gs = t.listed u gs (sym (if_false _ _ other) ∙ e) in
        record {
          i = h.i;
          p = h.p;
          idx = h.idx;
          entry =
              get_set_other i h.i p ps.pollfds (λ same. n (
                sym h.same_fd
                ∙ ap (λ (r : Pollfd). r.fd)
                    (get_some p0 (sym h.entry ∙ ap (get_elem? ps.pollfds) same ∙ e0))
                ∙ f0))
              ∙ h.entry;
          same_fd = h.same_fd;
          agrees = h.agrees;
        }
  ]

  pub store-IsTable : IsTable (store s i p fs ps)
  store-IsTable = record { polled = stored_entry; listed = stored_state }

-- Every entry is there still, for the same descriptor.
abbrev pub Extends : Pollset → Pollset → Type 0
Extends ps ps' =
    (j : ℕ) (q : Pollfd)
    → get_elem? ps.pollfds j ≡ some q
    → (q' : Pollfd) × (get_elem? ps'.pollfds j ≡ some q') × (q'.fd ≡ q.fd)

pub Extends-trans : (a b c : Pollset) → Extends a b → Extends b c → Extends a c
Extends-trans a b c k l j q e =
    let (r, e', f) = k j q e in let (t, e'', f') = l j r e' in (t, e'', f' ∙ f)

pub store-Extends :
    (s i : ℕ) (p0 p : Pollfd) (fs : FdState) (ps : Pollset)
    → get_elem? ps.pollfds i ≡ some p0
    → p.fd ≡ p0.fd
    → Extends ps (store s i p fs ps)
store-Extends s i p0 p fs ps e0 f j q e = elim (Bool-cases (j == i)) [
  | inl here ↦
      let j≡i : j ≡ i = (==_iff j i).0 here in
      let p0≡q : p0 ≡ q = get_some q (sym e0 ∙ ap (get_elem? ps.pollfds) (sym j≡i) ∙ e) in
      (
        p,
        ap (get_elem? (set_at i p ps.pollfds)) j≡i
            ∙ get_set_same i p ps.pollfds (get_in_range i ps.pollfds p0 e0),
        f ∙ ap (λ (r : Pollfd). r.fd) p0≡q,
      )
  | inr other ↦ (q, get_set_other i j p ps.pollfds (ne_of_== j i other) ∙ e, refl)
]
