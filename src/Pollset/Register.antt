-- ===== src/Pollset/Register.antt =====
-- The registration and the removal of callbacks.
use xdrpp.Common.{
  ℕ, ◌<◌, ◌≡◌, ◌≢◌, refl, sym, subst, ap, ◌∙◌, arith, Bool, true, false, not, ◌&&◌, Option, none,
  some, [], ◌∷◌, ◌++◌, length, get_elem?, length-append, ◌==◌, Bool-cases, Option-cases, get_some,
  inl, inr, eq→==, ==_iff, ne_of_==, if_true, if_false, if◌then◌else◌,
}
use xdrpp.Common.Result.{ok, Returns, gives}
use xdrpp.Pollset.{
  Pollfd, FdState, Pollset, Op, read, write, read_write, read_once, write_once, is_read, is_write,
  put_state, new_state, at_index, store, find_slot, set_callback, state_of, fd_cb, clear_read,
  clear_write, clear_events, remove_at, remove_cb,
}
use xdrpp.Pollset.Vector.{
  get_set_same, get_set_other, get_in_range, get_append_left, get_append_end,
}
use xdrpp.Pollset.Table.{
  is_some, Agrees, HasEntry, IsTable, put_same, put_other, store-IsTable, Extends, Extends-trans,
  store-Extends,
}

abbrev pub new_entry : ℕ → Pollfd
new_entry s = record { fd = s; pollin = false; pollout = false }

abbrev pub grown : ℕ → Pollset → Pollset
grown s ps = record ps { pollfds = ps.pollfds ++ (new_entry s ∷ []) }

-- An entry for a new descriptor is added_entry behind the others.
module _ (s : ℕ) (p : Pollfd) (fs : FdState) (ps : Pollset) (t : IsTable ps)
    (fresh : ps.state s ≡ none) (f : p.fd ≡ s) (x : fs.idx ≡ some (length ps.pollfds))
    (a : Agrees fs p) where
  abbrev added : Pollset
  added = store s (length ps.pollfds) p fs (grown s ps)

  is_none : (gs : FdState) → ¬ (some gs ≡ none)
  is_none gs e = absurd (cc)

  added_entry : get_elem? added.pollfds (length ps.pollfds) ≡ some p
  added_entry =
      get_set_same (length ps.pollfds) p (grown s ps).pollfds
        (omega (arith, length-append ps.pollfds (new_entry s ∷ [])))

  added_polled :
      (j : ℕ) (q : Pollfd)
      → get_elem? added.pollfds j ≡ some q
      → (gs : FdState) × (added.state q.fd ≡ some gs) × (gs.idx ≡ some j)
  added_polled j q e = elim (Bool-cases (j == length ps.pollfds)) [
    | inl here ↦
        let j≡i : j ≡ length ps.pollfds = (==_iff j (length ps.pollfds)).0 here in
        let p≡q : p ≡ q =
          get_some q (sym added_entry ∙ ap (get_elem? added.pollfds) (sym j≡i) ∙ e) in
        (
          fs,
          ap (put_state s (some fs) ps.state) (sym (ap (λ (r : Pollfd). r.fd) p≡q) ∙ f)
              ∙ put_same s (some fs) ps.state,
          x ∙ ap some (sym j≡i),
        )
    | inr other ↦
        let n : j ≢ length ps.pollfds = ne_of_== j (length ps.pollfds) other in
        let there : get_elem? (grown s ps).pollfds j ≡ some q =
          sym (get_set_other (length ps.pollfds) j p (grown s ps).pollfds n) ∙ e in
        let old : get_elem? ps.pollfds j ≡ some q =
          sym (
            get_append_left j ps.pollfds (new_entry s ∷ []) (
              omega (
                arith,
                get_in_range j (grown s ps).pollfds q there,
                length-append ps.pollfds (new_entry s ∷ []),
                n,
              )))
          ∙ there in
        let (gs, st, ix) = t.polled j q old in
        (
          gs,
          put_other s q.fd (some fs) ps.state
                (λ same. absurd (is_none gs (sym st ∙ ap ps.state same ∙ fresh)))
              ∙ st,
          ix,
        )
  ]

  added_listed : (u : ℕ) (gs : FdState) → added.state u ≡ some gs → HasEntry added u gs
  added_listed u gs e = elim (Bool-cases (u == s)) [
    | inl here ↦
        let fs≡gs : fs ≡ gs = get_some gs (sym (if_true _ _ here) ∙ e) in
        subst (HasEntry added u) fs≡gs (record {
          i = length ps.pollfds;
          p = p;
          idx = x;
          entry = added_entry;
          same_fd = f ∙ sym ((==_iff u s).0 here);
          agrees = a;
        })
    | inr other ↦
        let h : HasEntry ps u gs = t.listed u gs (sym (if_false _ _ other) ∙ e) in
        let below : h.i < length ps.pollfds = get_in_range h.i ps.pollfds h.p h.entry in
        record {
          i = h.i;
          p = h.p;
          idx = h.idx;
          entry =
              get_set_other (length ps.pollfds) h.i p (grown s ps).pollfds (omega (arith, below))
              ∙ get_append_left h.i ps.pollfds (new_entry s ∷ []) below
              ∙ h.entry;
          same_fd = h.same_fd;
          agrees = h.agrees;
        }
  ]

  store_new-IsTable : IsTable added
  store_new-IsTable = record { polled = added_polled; listed = added_listed }

-- What a registration comes to: the table is kept, and the callback is the one that was given.
pub record Registers (s : ℕ) (op : Op) (cb : ℕ) (before ps : Pollset) : Type 0 where
  pub table : IsTable ps
  pub extends : Extends before ps
  pub fs : FdState
  pub listed : ps.state s ≡ some fs
  pub set : (if is_read op then fs.rcb else fs.wcb) ≡ some cb

registers :
    (s : ℕ) (op : Op) (cb i : ℕ) (p q : Pollfd) (fs : FdState) (before ps : Pollset)
    → get_elem? ps.pollfds i ≡ some p
    → q.fd ≡ p.fd
    → IsTable (store s i q fs ps)
    → Extends before ps
    → (if is_read op then fs.rcb else fs.wcb) ≡ some cb
    → Registers s op cb before (store s i q fs ps)
registers s op cb i p q fs before ps e f t x set = record {
  table = t;
  extends = Extends-trans before ps (store s i q fs ps) x (store-Extends s i p q fs ps e f);
  fs = fs;
  listed = put_same s (some fs) ps.state;
  set = set;
}

-- `set_callback` on an entry that can be read, where any result of it is a table.
set_callback-Registers :
    (s : ℕ) (op : Op) (cb i : ℕ) (p : Pollfd) (fs : FdState) (before ps : Pollset)
    → (is_read op && is_write op) ≡ false
    → get_elem? ps.pollfds i ≡ some p
    → p.fd ≡ s
    → Agrees fs p
    → ((q : Pollfd) (gs : FdState)
        → q.fd ≡ s
        → gs.idx ≡ some i
        → Agrees gs q
        → IsTable (store s i q gs ps))
    → Extends before ps
    → Returns (Registers s op cb before) (set_callback s op cb i fs ps)
unfolding set_callback
set_callback-Registers s read cb i p fs before ps o e f a k x =
    rw (e, at_index)
      (gives (registers s read cb i p _ _ before ps e refl (k _ _ f refl (refl, a.1)) x refl))
set_callback-Registers s read_once cb i p fs before ps o e f a k x =
    rw (e, at_index)
      (gives (registers s read_once cb i p _ _ before ps e refl (k _ _ f refl (refl, a.1)) x refl))
set_callback-Registers s write cb i p fs before ps o e f a k x =
    rw (e, at_index)
      (gives (registers s write cb i p _ _ before ps e refl (k _ _ f refl (a.0, refl)) x refl))
set_callback-Registers s write_once cb i p fs before ps o e f a k x =
    rw (e, at_index)
      (gives (registers s write_once cb i p _ _ before ps e refl (k _ _ f refl (a.0, refl)) x refl))
set_callback-Registers s read_write cb i p fs before ps o e f a k x = absurd (cc)

find_slot_old :
    (s i : ℕ) (p : Pollfd) (fs : FdState) (ps : Pollset)
    → fs.idx ≡ some i
    → get_elem? ps.pollfds i ≡ some p
    → p.fd ≡ s
    → find_slot s fs ps ≡ ok (i, ps)
unfolding find_slot
find_slot_old s i p fs ps x e f = rw (x, e, eq→== p.fd s f, find_slot, at_index) refl

grown-Extends : (s : ℕ) (ps : Pollset) → Extends ps (grown s ps)
grown-Extends s ps j q e =
    (q, get_append_left j ps.pollfds (new_entry s ∷ []) (get_in_range j ps.pollfds q e) ∙ e, refl)

-- In a table, `fd_cb` with a callback and any operation but ReadWrite returns: no assertion fails, no
-- `at` throws, and the program is not terminated. The table is kept with all its entries, and the
-- descriptor's callback for reading or for writing is the one that was given.
pub fd_cb-Registers :
    (s : ℕ) (op : Op) (cb : ℕ) (ps : Pollset)
    → (is_read op && is_write op) ≡ false
    → IsTable ps
    → Returns (Registers s op cb ps) (fd_cb s op cb ps)
unfolding fd_cb find_slot
fd_cb-Registers s op cb ps o t = elim (Option-cases (ps.state s)) [
  | inl fresh ↦
      rw (fresh, state_of)
        (set_callback-Registers s op cb (length ps.pollfds) (new_entry s) new_state ps (grown s ps)
          o (get_append_end ps.pollfds (new_entry s)) refl (refl, refl)
          (λ q gs f x a. store_new-IsTable s q gs ps t fresh f x a) (grown-Extends s ps))
  | inr (fs, old) ↦
      let h : HasEntry ps s fs = t.listed s fs old in
      rw (old, find_slot_old s h.i h.p fs ps h.idx h.entry h.same_fd, state_of)
        (set_callback-Registers s op cb h.i h.p fs ps ps o h.entry h.same_fd h.agrees
          (λ q gs f x a. store-IsTable s h.i h.p q gs ps t h.entry h.same_fd f x a)
          (λ j q e. (q, e, refl)))
]

cleared :
    (b c : Bool) (o : Option ℕ) → b ≡ is_some o → (b && not c) ≡ is_some (if c then none else o)
cleared true true o e = refl
cleared true false o e = e
cleared false true o e = refl
cleared false false o e = e

clear-Agrees :
    (op : Op) (fs : FdState) (p : Pollfd)
    → Agrees fs p
    → Agrees (clear_write op (clear_read op fs)) (clear_events op p)
clear-Agrees op fs p a =
    (cleared p.pollin (is_read op) fs.rcb a.0, cleared p.pollout (is_write op) fs.wcb a.1)

-- What a removal comes to: the table is kept with its entries, and the descriptor has none of the
-- callbacks.
pub record Removes (s : ℕ) (op : Op) (ps ps' : Pollset) : Type 0 where
  pub table : IsTable ps'
  pub extends : Extends ps ps'
  pub no_rcb : (fs : FdState) → ps'.state s ≡ some fs → is_read op ≡ true → fs.rcb ≡ none
  pub no_wcb : (fs : FdState) → ps'.state s ≡ some fs → is_write op ≡ true → fs.wcb ≡ none

remove_cb_listed :
    (s i : ℕ) (op : Op) (p : Pollfd) (fs : FdState) (ps : Pollset)
    → ps.state s ≡ some fs
    → fs.idx ≡ some i
    → get_elem? ps.pollfds i ≡ some p
    → remove_cb s op ps ≡ ok (store s i (clear_events op p) (clear_write op (clear_read op fs)) ps)
unfolding remove_cb
remove_cb_listed s i op p fs ps l x e =
    rw (l, remove_cb) (ap (remove_at s op fs ps) x ∙ unfold remove_at in rw (e, at_index) refl)

removed : (c : Bool) (o : Option ℕ) → c ≡ true → (if c then none else o) ≡ none
removed c o h = if_true _ _ h

-- In a table, `fd_cb` with a null pointer returns, whatever the operation is and whether or not the
-- descriptor has callbacks. The table is kept with its entries, and the descriptor has no callback left for what the
-- operation names.
pub remove_cb-Removes :
    (s : ℕ) (op : Op) (ps : Pollset) → IsTable ps → Returns (Removes s op ps) (remove_cb s op ps)
unfolding remove_cb
remove_cb-Removes s op ps t = elim (Option-cases (ps.state s)) [
  | inl absent ↦
      rw (absent, remove_cb)
        (gives (record {
          table = t;
          extends = λ j q e. (q, e, refl);
          no_rcb = λ fs e. absurd (nothing fs (sym e ∙ absent));
          no_wcb = λ fs e. absurd (nothing fs (sym e ∙ absent));
        }))
  | inr (fs, old) ↦
      let h : HasEntry ps s fs = t.listed s fs old in
      let gs : FdState = clear_write op (clear_read op fs) in
      let now : (k : FdState) → put_state s (some gs) ps.state s ≡ some k → gs ≡ k =
        λ k e. get_some k (sym (put_same s (some gs) ps.state) ∙ e) in
      rw (remove_cb_listed s h.i op h.p fs ps old h.idx h.entry) (
        gives (record {
          table =
              store-IsTable s h.i h.p (clear_events op h.p) gs ps t h.entry h.same_fd h.same_fd
                h.idx (clear-Agrees op fs h.p h.agrees);
          extends = store-Extends s h.i h.p (clear_events op h.p) gs ps h.entry refl;
          no_rcb =
              λ k e r. sym (ap (λ (f : FdState). f.rcb) (now k e)) ∙ removed (is_read op) fs.rcb r;
          no_wcb =
              λ k e w. sym (ap (λ (f : FdState). f.wcb) (now k e)) ∙ removed (is_write op) fs.wcb w;
        }))
]
  where
    nothing : (fs : FdState) → ¬ (some fs ≡ none)
    nothing fs e = absurd (cc)
