-- ===== src/MsgSock/Input/Frames.antt =====
-- What the callback gets is what the stream holds, frame by frame.
use xdrpp.Common.{
  ℕ, ◌+◌, ◌-◌, ◌^◌, ◌<◌, ◌≤◌, ◌≡◌, refl, sym, ap, ap₂, subst, ◌∙◌, arith, Bool, true, false, Option,
  none, some, List, [], ◌∷◌, ◌++◌, length, take, drop, All, length-append, length-drop, length-take,
  append-nil, append_assoc, take-append-drop, take_all, length-take_le, All-take, All-drop,
  All-append, leb, if◌then◌else◌, ◌==◌, Bool-cases, inl, inr, leb→le, leb→lt,
}
use xdrpp.Marshal.Words.{be32}
use xdrpp.MsgSock.Input.{
  Delivery, message, over, ReadResult, got, again, failed, Receiver, Turn, next, back, deliver,
  store_body, body_done, read_body, store_mark, read_mark,
}

-- A message on the wire: the mark of a last fragment, and the content.
abbrev pub frame : List ℕ → List ℕ
frame m = be32 (length m + 2 ^ 31) ++ m

abbrev pub frames : List Delivery → List ℕ
frames [] = []
frames (message m ∷ log) = frame m ++ frames log
frames (over ∷ log) = frames log

abbrev pub AreBytes : List ℕ → Type 0
AreBytes = All (λ b. b < 256)

-- What has been taken of the next frame, with `rdmsg`, `body`, `mark` and `rdpos` of the receiver.
abbrev pub held : Option ℕ → List ℕ → List ℕ → ℕ → List ℕ
held none body mark rdpos = take rdpos mark
held (some size) body mark rdpos = be32 (size + 2 ^ 31) ++ body

abbrev pub InPlace : Option ℕ → List ℕ → List ℕ → ℕ → Type 0
InPlace none body mark rdpos = (rdpos ≤ 4) × (rdpos ≤ length mark)
InPlace (some size) body mark rdpos = (rdpos ≡ length body) × (rdpos < size)

-- Every byte that was taken is in a message that has been delivered, or in the one that is read.
pub record InStep (r : Receiver) : Type 0 where
  pub place : InPlace r.rdmsg r.body r.mark r.rdpos
  pub are_bytes : AreBytes r.mark
  pub stream : r.taken ≡ frames r.log ++ held r.rdmsg r.body r.mark r.rdpos

abbrev pub Steps : Turn → Type 0
Steps (next r) = InStep r
Steps (back r) = InStep r

frames-append : (l k : List Delivery) → frames (l ++ k) ≡ frames l ++ frames k
frames-append [] k = refl
frames-append (message m ∷ l) k =
    ap (λ x. frame m ++ x) (frames-append l k) ∙ sym (append_assoc (frame m) (frames l) (frames k))
frames-append (over ∷ l) k = frames-append l k

either-Steps : (b : Bool) (t : Receiver) → InStep t → Steps (if b then back t else next t)
either-Steps true t s = s
either-Steps false t s = s

-- The bytes `x` complete the body `b` behind the mark `k`.
regroup : (f k b x y : List ℕ) → (f ++ (k ++ b)) ++ (x ++ y) ≡ f ++ ((k ++ (b ++ x)) ++ y)
regroup f k b x y = simp append_assoc

frames-over : (log : List Delivery) → frames (log ++ (over ∷ [])) ≡ frames log
frames-over log = frames-append log (over ∷ []) ∙ append-nil (frames log)

frames-message :
    (log : List Delivery) (m : List ℕ) → frames (log ++ (message m ∷ [])) ≡ frames log ++ frame m
frames-message log m =
    frames-append log (message m ∷ []) ∙ ap (λ x. frames log ++ x) (append-nil (frame m))

module _ (be : Bool) (maxmsglen : ℕ) (can_alloc : ℕ → Bool) (destroys : List Delivery → Bool) where
  pub over-InStep :
      (r : Receiver) → InStep r → InStep (deliver be maxmsglen can_alloc destroys over r)
  unfolding deliver
  over-InStep r s = record {
    place = s.place;
    are_bytes = s.are_bytes;
    stream = s.stream ∙ ap (λ x. x ++ held r.rdmsg r.body r.mark r.rdpos) (sym (frames-over r.log));
  }

  -- The message `m` is complete, and `left` has been read of the next mark.
  pub message-InStep :
      (m left : List ℕ) (t : Receiver)
      → t.taken ≡ frames t.log ++ (frame m ++ left)
      → t.rdmsg ≡ none
      → t.rdpos ≤ 4
      → t.rdpos ≤ length t.mark
      → take t.rdpos t.mark ≡ left
      → AreBytes t.mark
      → InStep (deliver be maxmsglen can_alloc destroys (message m) t)
  unfolding deliver
  message-InStep m left t e none_left short stored mark bs = record {
    place = rw none_left (short, stored);
    are_bytes = bs;
    stream = rw none_left (
        e
        ∙ sym (append_assoc (frames t.log) (frame m) left)
        ∙ ap (λ x. x ++ left) (sym (frames-message t.log m))
        ∙ ap (λ x. frames (t.log ++ (message m ∷ [])) ++ x) (sym mark));
  }

  module _ (r : Receiver) (n : ℕ) (bs : List ℕ) (s : InStep r) (e : r.rdmsg ≡ some n)
      (h : length bs ≤ n - r.rdpos + 4) (w : AreBytes bs) where
    pos : r.rdpos ≡ length r.body
    pos = (rw e at s.place).0

    room : r.rdpos < n
    room = (rw e at s.place).1

    kept : take r.rdpos r.body ≡ r.body
    kept = take_all r.rdpos r.body (omega (arith, pos))

    before : r.taken ≡ frames r.log ++ (be32 (n + 2 ^ 31) ++ r.body)
    before = rw e at s.stream

    whole_length :
        n ≤ r.rdpos + length bs → n ≡ length (take r.rdpos r.body ++ take (n - r.rdpos) bs)
    whole_length l = omega (
      arith,
      length-append (take r.rdpos r.body) (take (n - r.rdpos) bs),
      ap length kept,
      pos,
      room,
      length-take (n - r.rdpos) bs (omega (arith, l, room)),
    )

    body_stream :
        r.taken ++ bs
        ≡ frames r.log
          ++ ((be32 (n + 2 ^ 31) ++ (take r.rdpos r.body ++ take (n - r.rdpos) bs))
              ++ drop (n - r.rdpos) bs)
    body_stream =
        ap (λ x. x ++ bs) before
        ∙ ap (λ x. (frames r.log ++ (be32 (n + 2 ^ 31) ++ r.body)) ++ x)
            (sym (take-append-drop (n - r.rdpos) bs))
        ∙ regroup (frames r.log) (be32 (n + 2 ^ 31)) r.body (take (n - r.rdpos) bs)
            (drop (n - r.rdpos) bs)
        ∙ ap
            (λ b.
              frames r.log
              ++ ((be32 (n + 2 ^ 31) ++ (b ++ take (n - r.rdpos) bs)) ++ drop (n - r.rdpos) bs))
            (sym kept)

    whole-InStep :
        n ≤ r.rdpos + length bs
        → InStep (
            deliver be maxmsglen can_alloc destroys
              (message (take r.rdpos r.body ++ take (n - r.rdpos) bs))
              (record r {
                rdmsg = none;
                body = take r.rdpos r.body ++ take (n - r.rdpos) bs;
                mark = drop (n - r.rdpos) bs;
                rdpos = r.rdpos + length bs - n;
                taken = r.taken ++ bs;
              }))
    whole-InStep l =
        message-InStep (take r.rdpos r.body ++ take (n - r.rdpos) bs) (drop (n - r.rdpos) bs) _
          (body_stream
            ∙ ap
                (λ (k : ℕ).
                  frames r.log
                  ++ ((be32 (k + 2 ^ 31) ++ (take r.rdpos r.body ++ take (n - r.rdpos) bs))
                      ++ drop (n - r.rdpos) bs))
                (whole_length l))
          refl (omega (arith, h, room)) (omega (arith, room, length-drop (n - r.rdpos) bs))
          (take_all _ (drop (n - r.rdpos) bs) (omega (arith, room, length-drop (n - r.rdpos) bs)))
          (All-drop (λ b. b < 256) (n - r.rdpos) bs w)

    part-InStep :
        r.rdpos + length bs < n → InStep (store_body be maxmsglen can_alloc destroys n bs r)
    part-InStep l = record {
      place =
          subst
            (λ o.
              InPlace o (take r.rdpos r.body ++ take (n - r.rdpos) bs) (drop (n - r.rdpos) bs)
                (r.rdpos + length bs))
            (sym e)
            (
              omega (
                arith,
                pos,
                length-append (take r.rdpos r.body) (take (n - r.rdpos) bs),
                ap length kept,
                ap length all,
              ),
              l,
            );
      are_bytes = All-drop (λ b. b < 256) (n - r.rdpos) bs w;
      stream =
          subst
            (λ o.
              r.taken ++ bs
              ≡ frames r.log
                ++ held o (take r.rdpos r.body ++ take (n - r.rdpos) bs) (drop (n - r.rdpos) bs)
                    (r.rdpos + length bs))
            (sym e)
            (ap (λ x. x ++ bs) before
              ∙ append_assoc (frames r.log) (be32 (n + 2 ^ 31) ++ r.body) bs
              ∙ ap (λ x. frames r.log ++ x) (append_assoc (be32 (n + 2 ^ 31)) r.body bs)
              ∙ ap₂ (λ b x. frames r.log ++ (be32 (n + 2 ^ 31) ++ (b ++ x))) (sym kept) (sym all));
    }
      where
        all : take (n - r.rdpos) bs ≡ bs
        all = take_all (n - r.rdpos) bs (omega (arith, l))

    body_done-InStep : Steps (
        body_done be maxmsglen can_alloc destroys n
          (store_body be maxmsglen can_alloc destroys n bs r))
    unfolding body_done
    body_done-InStep = elim (Bool-cases (leb n (r.rdpos + length bs))) [
      | inl whole ↦ rw whole (either-Steps _ _ (whole-InStep (leb→le _ _ whole)))
      | inr part ↦ rw part (part-InStep (leb→lt _ _ part))
    ]

  pub read_body-InStep :
      (r : Receiver) (n : ℕ) (a : ReadResult)
      → InStep r
      → r.rdmsg ≡ some n
      → ((bs : List ℕ) → a ≡ got bs → AreBytes bs)
      → Steps (read_body be maxmsglen can_alloc destroys n a r)
  unfolding read_body
  read_body-InStep r n again s e w = s
  read_body-InStep r n failed s e w = over-InStep r s
  read_body-InStep r n (got bs) s e w =
      elim (Bool-cases (length (take (n - r.rdpos + 4) bs) == 0)) [
        | inl closed ↦ rw closed (over-InStep r s)
        | inr some_bytes ↦ rw some_bytes (
            body_done-InStep r n (take (n - r.rdpos + 4) bs) s e
              (length-take_le (n - r.rdpos + 4) bs)
              (All-take (λ b. b < 256) (n - r.rdpos + 4) bs (w bs refl)))
      ]

  store_mark-InStep :
      (r : Receiver) (bs : List ℕ)
      → InStep r
      → r.rdmsg ≡ none
      → length bs ≤ 4 - r.rdpos
      → AreBytes bs
      → InStep (store_mark be maxmsglen can_alloc destroys bs r)
  store_mark-InStep r bs s e h w = record {
    place =
        subst (λ o. InPlace o r.body (take r.rdpos r.mark ++ bs) (r.rdpos + length bs)) (sym e)
          (omega (arith, h, placed.0), omega (arith, size));
    are_bytes =
        All-append (λ b. b < 256) (take r.rdpos r.mark) bs
          (All-take (λ b. b < 256) r.rdpos r.mark s.are_bytes) w;
    stream =
        subst
          (λ o.
            r.taken ++ bs
            ≡ frames r.log ++ held o r.body (take r.rdpos r.mark ++ bs) (r.rdpos + length bs))
          (sym e)
          (ap (λ x. x ++ bs) (rw e at s.stream)
            ∙ append_assoc (frames r.log) (take r.rdpos r.mark) bs
            ∙ ap (λ x. frames r.log ++ x)
                (sym (
                  take_all (r.rdpos + length bs) (take r.rdpos r.mark ++ bs)
                    (omega (arith, size)))));
  }
    where
      placed : (r.rdpos ≤ 4) × (r.rdpos ≤ length r.mark)
      placed = rw e at s.place

      size : length (take r.rdpos r.mark ++ bs) ≡ r.rdpos + length bs
      size =
          omega (arith, length-append (take r.rdpos r.mark) bs, length-take r.rdpos r.mark placed.1)

  pub read_mark-InStep :
      (r : Receiver) (a : ReadResult)
      → InStep r
      → r.rdmsg ≡ none
      → ((bs : List ℕ) → a ≡ got bs → AreBytes bs)
      → Steps (read_mark be maxmsglen can_alloc destroys a r)
  unfolding read_mark
  read_mark-InStep r again s e w = s
  read_mark-InStep r failed s e w = over-InStep r s
  read_mark-InStep r (got bs) s e w = elim (Bool-cases (length (take (4 - r.rdpos) bs) == 0)) [
    | inl closed ↦ rw closed (over-InStep r s)
    | inr some_bytes ↦ rw some_bytes (
        store_mark-InStep r (take (4 - r.rdpos) bs) s e (length-take_le (4 - r.rdpos) bs)
          (All-take (λ b. b < 256) (4 - r.rdpos) bs (w bs refl)))
  ]
