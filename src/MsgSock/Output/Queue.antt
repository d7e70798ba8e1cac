-- ===== src/MsgSock/Output/Queue.antt =====
-- The queue holds the bytes that are still to be written, in order.
use xdrpp.Common.{
  ℕ, zero, suc, ◌+◌, ◌-◌, ◌≤◌, ◌<◌, ◌≡◌, refl, sym, ap, ◌∙◌, arith, List, [], ◌∷◌, ◌++◌, length,
  drop, All, length-append, length-drop, drop-append_ge, drop-drop, drop_nil, ltb, leb, Bool-cases,
  leb→le, leb→lt, ltb→lt, ltb→le, le→ltb, ne→==, inl, inr,
}
use xdrpp.Common.Result.{ok, Returns, gives, Returns-bind, Returns-weaken}
use xdrpp.MsgSock.Output.{Sender, pop_loop, pop_front, pop_wbytes}

abbrev pub concat : List (List ℕ) → List ℕ
concat [] = []
concat (m ∷ q) = m ++ concat q

abbrev pub pending : Sender → List ℕ
pending s = drop s.wstart (concat s.wqueue)

-- The mark stays inside the first message, which has bytes left.
abbrev pub StartsIn : ℕ → List (List ℕ) → Type 0
StartsIn n [] = n ≡ 0
StartsIn n (m ∷ q) = n < length m

pub record IsValid (s : Sender) : Type 0 where
  pub counted : s.wsize ≡ length (pending s)
  pub starts : StartsIn s.wstart s.wqueue
  pub nonempty : All (λ (m : List ℕ). 0 < length m) s.wqueue

pop_loop_whole :
    (m : List ℕ) (q : List (List ℕ)) (n : ℕ)
    → 0 < n
    → length m ≤ n
    → pop_loop (m ∷ q) n ≡ pop_loop q (n - length m)
unfolding pop_loop
pop_loop_whole m q n h l = ground arith

pop_loop_part :
    (m : List ℕ) (q : List (List ℕ)) (n : ℕ) → n < length m → pop_loop (m ∷ q) n ≡ ok (m ∷ q, n)
unfolding pop_loop
pop_loop_part m q n h = ground arith

-- What the loop keeps: the bytes behind the first `n`, from a mark inside the first message.
abbrev Cut : ℕ → List (List ℕ) → List (List ℕ) → ℕ → Type 0
Cut n q q' start =
    (drop start (concat q') ≡ drop n (concat q))
    × StartsIn start q'
    × All (λ (m : List ℕ). 0 < length m) q'

pop_loop_lem :
    (q : List (List ℕ)) (n : ℕ)
    → All (λ (m : List ℕ). 0 < length m) q
    → n ≤ length (concat q)
    → Returns (λ r. Cut n q r.0 r.1) (pop_loop q n)
pop_loop_lem [] zero a h = unfold pop_loop in (gives (refl, refl, tt))
pop_loop_lem [] (suc n) a h = absurd (omega arith)
pop_loop_lem (m ∷ q) zero a h = rw (pop_loop_part m q 0 a.0) (gives (refl, a.0, a))
pop_loop_lem (m ∷ q) (suc n) a h = elim (Bool-cases (leb (length m) (suc n))) [
  | inl whole ↦ rw (pop_loop_whole m q (suc n) (omega arith) (leb→le _ _ whole)) (
      Returns-weaken
        (pop_loop_lem q (suc n - length m) a.1 (omega (arith, length-append m (concat q))))
        (λ r (same, start, rest).
          (same ∙ sym (drop-append_ge m (concat q) (suc n) (leb→le _ _ whole)), start, rest)))
  | inr part ↦ rw (pop_loop_part m q (suc n) (leb→lt _ _ part)) (gives (refl, leb→lt _ _ part, a))
]

-- `pop_wbytes` takes the first `n` pending bytes away, and changes nothing else of what is pending.
abbrev pub Popped : ℕ → Sender → Sender → Type 0
Popped n s t =
    IsValid t
    × (pending t ≡ drop n (pending s))
    × (t.sent ≡ s.sent)
    × (t.wfail ≡ s.wfail)
    × (t.write_cb ≡ s.write_cb)

module _ (s : Sender) (valid : IsValid s) where
  shorter : (n : ℕ) → s.wsize - n ≡ length (drop n (pending s))
  shorter n = omega (arith, length-drop n (pending s), valid.counted)

  pop_part :
      (n : ℕ) (m : List ℕ) (q : List (List ℕ))
      → s.wqueue ≡ m ∷ q
      → n < length m - s.wstart
      → Popped n s (record s { wsize = s.wsize - n; wstart = s.wstart + n })
  pop_part n m q e h = (
    record {
      counted = shorter n ∙ ap length (drop-drop s.wstart n (concat s.wqueue));
      starts = rw e (omega arith);
      nonempty = valid.nonempty;
    },
    sym (drop-drop s.wstart n (concat s.wqueue)),
    refl,
    refl,
    refl,
  )

  pop_whole :
      (n : ℕ) (m : List ℕ) (q : List (List ℕ))
      → s.wqueue ≡ m ∷ q
      → length m - s.wstart ≤ n
      → n ≤ length (pending s)
      → Returns
          (λ r. Popped n s (record s { wsize = s.wsize - n; wqueue = r.0; wstart = r.1 }))
          (pop_loop q (n - (length m - s.wstart)))
  pop_whole n m q e h fits =
      Returns-weaken
        (pop_loop_lem q (n - (length m - s.wstart)) (rw e at valid.nonempty).1
          (omega (arith, length-append m (concat q), inside, left)))
        (λ r (same, start, rest). (
          record {
            counted = shorter n ∙ ap length (sym (same ∙ moved));
            starts = start;
            nonempty = rest;
          },
          same ∙ moved,
          refl,
          refl,
          refl,
        ))
    where
      inside : s.wstart < length m
      inside = rw e at valid.starts

      left : length (pending s) ≡ length (m ++ concat q) - s.wstart
      left = rw e (length-drop s.wstart (m ++ concat q))

      moved : drop (n - (length m - s.wstart)) (concat q) ≡ drop n (pending s)
      moved = rw e (
          ap (λ (k : ℕ). drop k (concat q)) (omega (arith, inside))
          ∙ sym (drop-append_ge m (concat q) (s.wstart + n) (omega (arith, inside)))
          ∙ sym (drop-drop s.wstart n (m ++ concat q)))

  pop_front_lem :
      (n : ℕ) (q : List (List ℕ))
      → s.wqueue ≡ q
      → 0 < n
      → n ≤ length (pending s)
      → Returns (Popped n s) (pop_front n q s)
  unfolding pop_front
  pop_front_lem n [] e h fits = absurd (omega (arith, empty))
    where
      empty : length (pending s) ≡ 0
      empty = rw e (ap length (drop_nil s.wstart))
  pop_front_lem n (m ∷ q) e h fits = elim (Bool-cases (ltb n (length m - s.wstart))) [
    | inl part ↦ rw part (gives (pop_part n m q e (ltb→lt _ _ part)))
    | inr whole ↦ rw whole (Returns-bind (pop_whole n m q e (ltb→le _ _ whole) fits) λ r h. gives h)
  ]

  -- In a queue in order, and for no more bytes than are pending, `pop_wbytes` returns. It takes
  -- exactly the first `n` pending bytes away, leaves the queue in order, and changes neither what has
  -- been sent nor the flags of failure and of the callback.
  pub pop_wbytes_lem : (n : ℕ) → n ≤ length (pending s) → Returns (Popped n s) (pop_wbytes n s)
  unfolding pop_wbytes
  pop_wbytes_lem zero fits = gives (valid, refl, refl, refl, refl)
  pop_wbytes_lem (suc n) fits =
      rw (ne→== (suc n) 0 (omega arith), le→ltb s.wsize (suc n) (omega (arith, valid.counted)))
        (pop_front_lem (suc n) s.wqueue refl (omega arith) fits)
