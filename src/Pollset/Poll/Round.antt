-- ===== src/Pollset/Poll/Round.antt =====
-- A round of `poll` keeps the table.
use xdrpp.Common.{
  ℕ, ◌+◌, ◌≤◌, ◌<◌, ◌≡◌, refl, subst, ◌∙◌, arith, Bool, true, false, ◌&&◌, ◌||◌, Option, none, some,
  List, [], ◌∷◌, All, length, get_elem?, ◌==◌, if◌then◌else◌,
}
use xdrpp.Common.Result.{Res, ok, Returns, gives, Returns-bind, Returns-weaken}
use xdrpp.Pollset.{Pollfd, FdState, Pollset, is_read, is_write, store, consolidate}
use xdrpp.Pollset.Vector.{get_in_range, get_defined}
use xdrpp.Pollset.Table.{Agrees, IsTable, store-IsTable, Extends, Extends-trans, store-Extends}
use xdrpp.Pollset.Register.{fd_cb-Registers, remove_cb-Removes}
use xdrpp.Pollset.Consolidate.{HaveEvents, entry_of}
use xdrpp.Pollset.Gaps.{no_gaps, consolidate-Consolidated, at_index_lem}
use xdrpp.Pollset.Poll.{
  Revents, PollResult, interrupted, failed, ready, FdRequest, set_cb, unset_cb, do_requests,
  Behavior, State, Progress, unless_thrown, finish, call, call_read, call_write, state_at, on_read,
  on_write, poll_entry, poll_loop, poll,
}

-- No callback is set for reading and writing at once.
abbrev pub AreLegal : List FdRequest → Type 0
AreLegal [] = Unit
AreLegal (set_cb s op cb ∷ rs) = ((is_read op && is_write op) ≡ false) × AreLegal rs
AreLegal (unset_cb s op ∷ rs) = AreLegal rs

-- A table with all the entries of `ps`.
abbrev pub IsTableOf : Pollset → Pollset → Type 0
IsTableOf ps ps' = IsTable ps' × Extends ps ps'

-- The kernel answers for the entries that there are, and knows all their descriptors.
abbrev pub Answers : PollResult → Pollset → Type 0
Answers interrupted ps = Unit
Answers failed ps = ⊥
Answers (ready n rs) ps = (length rs ≤ length ps.pollfds) × All (λ r. r.pollnval ≡ false) rs

abbrev pub After : PollResult → Progress → Type 0
After interrupted g = IsTable g.0
After failed g = ⊥
After (ready n rs) g = IsTable g.0 × (g.2 ≡ false → HaveEvents (no_gaps g.0) g.0)

do_requests-IsTableOf :
    (rs : List FdRequest) (ps : Pollset)
    → AreLegal rs
    → IsTable ps
    → Returns (IsTableOf ps) (do_requests rs ps)
unfolding do_requests
do_requests-IsTableOf [] ps l t = gives (t, λ j q e. (q, e, refl))
do_requests-IsTableOf (set_cb s op cb ∷ rs) ps (o, l) t =
    Returns-bind (fd_cb-Registers s op cb ps o t) λ ps1 r.
      Returns-weaken (do_requests-IsTableOf rs ps1 l r.table)
        λ ps2 (t2, x). (t2, Extends-trans ps ps1 ps2 r.extends x)
do_requests-IsTableOf (unset_cb s op ∷ rs) ps l t =
    Returns-bind (remove_cb-Removes s op ps t) λ ps1 r.
      Returns-weaken (do_requests-IsTableOf rs ps1 l r.table)
        λ ps2 (t2, x). (t2, Extends-trans ps ps1 ps2 r.extends x)

if_Returns :
    {Q : Progress → Type 0} (b : Bool) (m n : Res Progress)
    → Returns Q m
    → Returns Q n
    → Returns Q (if b then m else n)
if_Returns true m n k l = k
if_Returns false m n k l = l

state_at_lem : (s : ℕ) (fs : FdState) (ps : Pollset) → ps.state s ≡ some fs → state_at s ps ≡ ok fs
unfolding state_at
state_at_lem s fs ps e = rw (e, state_at) refl

consolidated :
    (ps : Pollset)
    → IsTable ps
    → Returns (λ ps'. IsTable ps' × HaveEvents (no_gaps ps') ps') (consolidate ps)
consolidated ps t = Returns-weaken (consolidate-Consolidated ps t) λ ps' c. (c.table, c.events)

unless_thrown-Returns :
    {Q : Progress → Type 0} (k : State → Res Progress) (g : Progress)
    → (g.2 ≡ true → Q g)
    → Returns Q (k (g.0, g.1))
    → Returns Q (unless_thrown k g)
unless_thrown-Returns k (ps, called, true) h f = gives (h refl)
unless_thrown-Returns k (ps, called, false) h f = f

module _ (behave : ℕ → Behavior) (legal : (cb : ℕ) → AreLegal (behave cb).requests) where
  -- The same of the table of a `Progress`.
  abbrev Keeping : Pollset → Progress → Type 0
  Keeping ps g = IsTableOf ps g.0

  call-Keeping :
      (cb : ℕ) (called : List ℕ) (before ps : Pollset)
      → IsTableOf before ps
      → Returns (Keeping before) (call behave cb called ps)
  unfolding call
  call-Keeping cb called before ps (t, x) =
      Returns-bind (do_requests-IsTableOf (behave cb).requests ps (legal cb) t)
        λ ps1 (t1, x1). gives (t1, Extends-trans before ps ps1 x x1)

  module _ (s i : ℕ) (p : Pollfd) (fs : FdState) (before ps : Pollset) (called : List ℕ)
      (e : get_elem? ps.pollfds i ≡ some p) (f : p.fd ≡ s) (x : fs.idx ≡ some i) (a : Agrees fs p)
      (k : IsTableOf before ps) where
    -- The entry and the state of `s` change.
    stored :
        (q : Pollfd) (gs : FdState)
        → q.fd ≡ p.fd
        → gs.idx ≡ some i
        → Agrees gs q
        → IsTableOf before (store s i q gs ps)
    stored q gs same y b = (
      store-IsTable s i p q gs ps k.0 e f (same ∙ f) y b,
      Extends-trans before ps (store s i q gs ps) k.1 (store-Extends s i p q gs ps e same),
    )

    call_read-Keeping :
        (o : Option ℕ) → Returns (Keeping before) (call_read behave s i p fs o (ps, called))
    unfolding call_read
    call_read-Keeping none = gives k
    call_read-Keeping (some cb) =
        if_Returns fs.roneshot _ _
          (call-Keeping cb called before _ (stored _ (record fs { rcb = none }) refl x (refl, a.1)))
          (call-Keeping cb called before ps k)

    call_write-Keeping :
        (o : Option ℕ) → Returns (Keeping before) (call_write behave s i p fs o (ps, called))
    unfolding call_write
    call_write-Keeping none = gives k
    call_write-Keeping (some cb) =
        if_Returns fs.woneshot _ _
          (call-Keeping cb called before _ (stored _ (record fs { wcb = none }) refl x (a.0, refl)))
          (call-Keeping cb called before ps k)

  on_read-Keeping :
      (i : ℕ) (p : Pollfd) (r : Revents) (before ps : Pollset) (called : List ℕ)
      → r.pollnval ≡ false
      → get_elem? ps.pollfds i ≡ some p
      → IsTableOf before ps
      → Returns (Keeping before) (on_read behave i p r (ps, called))
  unfolding on_read
  on_read-Keeping i p r before ps called n e k =
      let (fs, st, x) = k.0.polled i p e in
      rw (state_at_lem p.fd fs ps st, n)
        (if_Returns (r.pollin || r.hangup) _ _
          (call_read-Keeping p.fd i p fs before ps called e refl x
            (entry_of ps p.fd i fs p k.0 st e refl).1 k fs.rcb)
          (gives k))

  on_write-Keeping :
      (i : ℕ) (p : Pollfd) (r : Revents) (before ps : Pollset) (called : List ℕ)
      → get_elem? ps.pollfds i ≡ some p
      → IsTableOf before ps
      → Returns (Keeping before) (on_write behave i p.fd r (ps, called))
  unfolding on_write
  on_write-Keeping i p r before ps called e k =
      let (fs, st, x) = k.0.polled i p e in
      rw (at_index_lem i p ps e, state_at_lem p.fd fs ps st)
        (if_Returns (r.pollout || r.hangup) _ _
          (call_write-Keeping p.fd i p fs before ps called e refl x
            (entry_of ps p.fd i fs p k.0 st e refl).1 k fs.wcb)
          (gives k))

  Extends-in_range :
      (i : ℕ) (a b : Pollset) → Extends a b → i < length a.pollfds → i < length b.pollfds
  Extends-in_range i a b x h =
      let (p, e) = get_defined i a.pollfds h in
      let (q, e', _) = x i p e in get_in_range i b.pollfds q e'

  poll_entry-Keeping :
      (i : ℕ) (r : Revents) (before : Pollset) (g : State)
      → r.pollnval ≡ false
      → i < length g.0.pollfds
      → IsTableOf before g.0
      → Returns (Keeping before) (poll_entry behave i r g)
  unfolding poll_entry
  poll_entry-Keeping i r before (ps, called) n h (t, x) =
      let (p, e) = get_defined i ps.pollfds h in
      rw (at_index_lem i p ps e) (
        Returns-bind (on_read-Keeping i p r ps ps called n e (t, λ j q e'. (q, e', refl)))
          λ (ps1, called1, thrown) (t1, x1).
            let (q, e1, same) = x1 i p e in
            let kept : IsTableOf before ps1 = (t1, Extends-trans before ps ps1 x x1) in
            unless_thrown-Returns (on_write behave i p.fd r) (ps1, called1, thrown) (λ b. kept)
              (subst (λ s. Returns (Keeping before) (on_write behave i s r (ps1, called1))) same
                (on_write-Keeping i q r before ps1 called1 e1 kept)))

  poll_loop-Keeping :
      (rs : List Revents) (i todo : ℕ) (before : Pollset) (g : State)
      → (i + length rs) ≤ length before.pollfds
      → All (λ r. r.pollnval ≡ false) rs
      → IsTableOf before g.0
      → Returns (Keeping before) (poll_loop behave rs i todo g)
  unfolding poll_loop
  poll_loop-Keeping [] i todo before (ps, called) h n k = gives k
  poll_loop-Keeping (r ∷ rs) i todo before (ps, called) h n k =
      if_Returns (todo == 0) (ok (ps, called, false)) _ (gives k) (
        Returns-bind
          (poll_entry-Keeping i r before (ps, called) n.0
            (Extends-in_range i before ps k.1 (omega (arith, h))) k)
          λ g1 k1.
            unless_thrown-Returns (poll_loop behave rs (i + 1) _) g1 (λ b. k1)
              (poll_loop-Keeping rs (i + 1) _ before (g1.0, g1.1) (omega (arith, h)) n.1 k1))

  finish-After :
      (others : Behavior) (n : ℕ) (rs : List Revents) (g : State)
      → AreLegal others.requests
      → IsTable g.0
      → Returns (After (ready n rs)) (finish behave others g)
  unfolding finish
  finish-After others n rs (ps, called) l t =
      Returns-bind (do_requests-IsTableOf others.requests ps l t) λ ps1 (t1, x1).
        if_Returns others.throws _ _ (gives (t1, λ e. absurd (cc)))
          (Returns-bind (consolidated ps1 t1) λ ps2 c. gives (c.0, λ e. c.1))

  -- In a table, a round of `poll` ends with a table again, under these conditions: the kernel is
  -- interrupted, or answers for no more entries than there are and knows their descriptors (any other
  -- answer ends the program); the calls of `run_timeouts` and of `run_subtype_handlers` end; and no
  -- callback asks for reading and writing at once. Whatever else the callbacks set or remove, and
  -- whether or not one of them throws, no `at` of the round throws. After a call that was not
  -- interrupted and in which no callback threw, all entries of the table have events.
  pub poll-IsTable :
      (others : Behavior) (r : PollResult) (ps : Pollset)
      → AreLegal others.requests
      → IsTable ps
      → Answers r ps
      → Returns (After r) (poll behave others r ps)
  unfolding poll
  poll-IsTable others interrupted ps l t h = gives t
  poll-IsTable others failed ps l t h = absurd h
  poll-IsTable others (ready n rs) ps l t h =
      Returns-bind
        (poll_loop-Keeping rs 0 n ps (ps, []) (omega (arith, h)) h.1 (t, λ j q e. (q, e, refl)))
        λ g k.
          unless_thrown-Returns (finish behave others) g (λ b. (k.0, λ e. absurd (clash g.2 b e)))
            (finish-After others n rs (g.0, g.1) l k.0)
    where
      clash : (b : Bool) → b ≡ true → b ≡ false → ⊥
      clash b t f = cc
