-- ===== src/MsgSock/Output/Stream.antt =====
-- What goes out is what was put in: no byte is lost, doubled or moved.
use xdrpp.Common.{
  ℕ, zero, suc, ◌≤◌, ◌<◌, ◌≡◌, refl, sym, ap, ap₂, subst, ◌∙◌, arith, Bool, true, false, List, [],
  ◌∷◌, ◌++◌, ◌⊎◌, length, take, drop, All, length-append, append-nil, append_assoc, drop-append_le,
  take-append_le, take-append-drop, ltb, ◌==◌, if◌then◌else◌, Bool-cases, ne→==, inl, inr, ◌&&◌,
  not,
}
use xdrpp.Common.Result.{Res, ok, Returns, gives, Returns-bind, Returns-weaken, Returns-then}
use xdrpp.MsgSock.Output.{
  Sender, WriteResult, wrote, again, failed, pop_wbytes, join_iov, maxiov, offered, fail, output,
  putmsg, writable, enqueue, Event, send, ready, handle, run,
}
use xdrpp.MsgSock.Output.Steps.{putmsg_failed, putmsg_idle, putmsg_busy, writable_on, writable_off}
use xdrpp.MsgSock.Output.Queue.{concat, pending, StartsIn, IsValid, pop_wbytes_lem}

-- The kernel takes no more than it is offered.
abbrev pub Accepts : WriteResult → Sender → Type 0
Accepts (wrote n) s = n ≤ length (offered s)
Accepts _ s = Unit

abbrev pub carried : Sender → List ℕ
carried s = s.sent ++ pending s

-- The queue is in order, a failure is for good, and without one no byte is lost.
pub record Keeps (s : Sender) (extra : List ℕ) (t : Sender) : Type 0 where
  pub valid : IsValid t
  pub lasting : s.wfail ≡ true → t.wfail ≡ true
  pub stream : (t.wfail ≡ true) ⊎ (carried t ≡ carried s ++ extra)

join_iov_prefix : (i : ℕ) (q : List (List ℕ)) → (rest : List ℕ) × (concat q ≡ join_iov i q ++ rest)
join_iov_prefix zero q = (concat q, refl)
join_iov_prefix (suc i) [] = ([], refl)
join_iov_prefix (suc i) (m ∷ q) =
    let (rest, e) = join_iov_prefix i q in
    (rest, ap (λ l. m ++ l) e ∙ sym (append_assoc m (join_iov i q) rest))

StartsIn-join_iov : (n : ℕ) (q : List (List ℕ)) → StartsIn n q → n ≤ length (join_iov maxiov q)
StartsIn-join_iov n [] h = omega arith
StartsIn-join_iov n (m ∷ q) h = omega (arith, length-append m (join_iov 7 q))

-- What the system call is offered stands at the front of what is pending.
offered_prefix : (s : Sender) → IsValid s → (rest : List ℕ) × (pending s ≡ offered s ++ rest)
offered_prefix s v =
    let (rest, e) = join_iov_prefix maxiov s.wqueue in
    (
      rest,
      ap (λ l. drop s.wstart l) e
          ∙ drop-append_le (join_iov maxiov s.wqueue) rest s.wstart
              (StartsIn-join_iov s.wstart s.wqueue v.starts),
    )

fail-IsValid : (s : Sender) → IsValid (fail s)
unfolding fail
fail-IsValid s = record { counted = refl; starts = refl; nonempty = tt }

fail-Keeps : (s : Sender) (extra : List ℕ) → Keeps s extra (fail s)
fail-Keeps s extra = record {
  valid = fail-IsValid s;
  lasting = λ h. unfold fail in refl;
  stream = inl (unfold fail in refl);
}

same-Keeps : (s : Sender) → IsValid s → Keeps s [] s
same-Keeps s v = record { valid = v; lasting = λ h. h; stream = inr (sym (append-nil (carried s))) }

-- The bytes that are taken move from the front of the queue to the end of what has been sent.
taken_moves :
    (s : Sender) (n : ℕ)
    → IsValid s
    → n ≤ length (offered s)
    → (s.sent ++ take n (offered s)) ++ drop n (pending s) ≡ carried s
taken_moves s n v h =
    let (rest, e) = offered_prefix s v in
    append_assoc s.sent (take n (offered s)) (drop n (pending s))
    ∙ ap (λ l. s.sent ++ (l ++ drop n (pending s)))
        (sym (ap (take n) e ∙ take-append_le (offered s) rest n h))
    ∙ ap (λ l. s.sent ++ l) (take-append-drop n (pending s))

with_sent : (s : Sender) (l : List ℕ) → IsValid s → IsValid (record s { sent = l })
with_sent s l v = record { counted = v.counted; starts = v.starts; nonempty = v.nonempty }

pending_bound : (s : Sender) (n : ℕ) → IsValid s → n ≤ length (offered s) → n ≤ length (pending s)
pending_bound s n v h =
    let (rest, e) = offered_prefix s v in omega (arith, ap length e, length-append (offered s) rest)

wrote-Keeps :
    (s : Sender) (n : ℕ)
    → IsValid s
    → n ≤ length (offered s)
    → Returns (λ t. Keeps s [] t) (pop_wbytes n (record s { sent = s.sent ++ take n (offered s) }))
wrote-Keeps s n v h =
    Returns-weaken
      (pop_wbytes_lem (record s { sent = s.sent ++ take n (offered s) }) (with_sent s _ v) n
        (pending_bound s n v h))
      λ t (valid, left, sent, stays, cb). record {
        valid = valid;
        lasting = λ w. stays ∙ w;
        stream = inr (ap₂ ◌++◌ sent left ∙ taken_moves s n v h ∙ sym (append-nil (carried s)));
      }

-- The callback flag is no part of the stream.
with_cb :
    (s t : Sender) (b : Bool) (l : List ℕ) → Keeps s l t → Keeps s l (record t { write_cb = b })
with_cb s t b l k = record {
  valid = record {
    counted = k.valid.counted;
    starts = k.valid.starts;
    nonempty = k.valid.nonempty;
  };
  lasting = k.lasting;
  stream = k.stream;
}

update_cb :
    (cbset : Bool) (s t : Sender)
    → Keeps s [] t
    → Keeps s [] (
        if ltb 0 t.wsize && not cbset
        then record t { write_cb = true }
        else if t.wsize == 0 && cbset
        then record t { write_cb = false }
        else t)
update_cb cbset s t k = elim (Bool-cases (ltb 0 t.wsize && not cbset)) [
  | inl more ↦ rw more (with_cb s t true [] k)
  | inr done ↦ rw done (elim (Bool-cases (t.wsize == 0 && cbset)) [
    | inl over ↦ rw over (with_cb s t false [] k)
    | inr same ↦ rw same k
  ])
]

pub output-Keeps :
    (cbset : Bool) (r : WriteResult) (s : Sender)
    → IsValid s
    → Accepts r s
    → Returns (Keeps s []) (output cbset r s)
unfolding output
output-Keeps cbset again s v a = gives (same-Keeps s v)
output-Keeps cbset failed s v a = gives (fail-Keeps s [])
output-Keeps cbset (wrote zero) s v a = gives (fail-Keeps s [])
output-Keeps cbset (wrote (suc n)) s v a =
    rw (ne→== (suc n) 0 (omega arith))
      (Returns-bind (wrote-Keeps s (suc n) v a) λ t k. gives (update_cb cbset s t k))

concat-append : (q : List (List ℕ)) (m : List ℕ) → concat (q ++ (m ∷ [])) ≡ concat q ++ m
concat-append [] m = append-nil m
concat-append (x ∷ q) m = ap (λ l. x ++ l) (concat-append q m) ∙ sym (append_assoc x (concat q) m)

StartsIn-le : (n : ℕ) (q : List (List ℕ)) → StartsIn n q → n ≤ length (concat q)
StartsIn-le n [] h = omega arith
StartsIn-le n (m ∷ q) h = omega (arith, length-append m (concat q))

StartsIn-append :
    (n : ℕ) (q : List (List ℕ)) (m : List ℕ)
    → 0 < length m
    → StartsIn n q
    → StartsIn n (q ++ (m ∷ []))
StartsIn-append n [] m h e = rw e h
StartsIn-append n (x ∷ q) m h e = e

All-append_one :
    (q : List (List ℕ)) (m : List ℕ)
    → 0 < length m
    → All (λ (x : List ℕ). 0 < length x) q
    → All (λ (x : List ℕ). 0 < length x) (q ++ (m ∷ []))
All-append_one [] m h a = (h, tt)
All-append_one (x ∷ q) m h a = (a.0, All-append_one q m h a.1)

pending-enqueue : (s : Sender) (m : List ℕ) → IsValid s → pending (enqueue m s) ≡ pending s ++ m
pending-enqueue s m v =
    ap (drop s.wstart) (concat-append s.wqueue m)
    ∙ drop-append_le (concat s.wqueue) m s.wstart (StartsIn-le s.wstart s.wqueue v.starts)

enqueue-IsValid : (s : Sender) (m : List ℕ) → 0 < length m → IsValid s → IsValid (enqueue m s)
enqueue-IsValid s m h v = record {
  counted =
      omega (arith, v.counted, ap length (pending-enqueue s m v), length-append (pending s) m);
  starts = StartsIn-append s.wstart s.wqueue m h v.starts;
  nonempty = All-append_one s.wqueue m h v.nonempty;
}

enqueue-Keeps : (s : Sender) (m : List ℕ) → 0 < length m → IsValid s → Keeps s m (enqueue m s)
enqueue-Keeps s m h v = record {
  valid = enqueue-IsValid s m h v;
  lasting = λ w. w;
  stream =
      inr (ap (λ l. s.sent ++ l) (pending-enqueue s m v) ∙ sym (append_assoc s.sent (pending s) m));
}

Keeps-trans : (s t u : Sender) (a b : List ℕ) → Keeps s a t → Keeps t b u → Keeps s (a ++ b) u
Keeps-trans s t u a b k l = record {
  valid = l.valid;
  lasting = λ w. l.lasting (k.lasting w);
  stream = elim k.stream [
    | inl w ↦ inl (l.lasting w)
    | inr e ↦ elim l.stream [
      | inl w ↦ inl w
      | inr e' ↦ inr (e' ∙ ap (λ x. x ++ b) e ∙ append_assoc (carried s) a b)
    ]
  ];
}

pub putmsg-Keeps :
    (m : List ℕ) (r : WriteResult) (s : Sender)
    → 0 < length m
    → IsValid s
    → Accepts r (enqueue m s)
    → Returns (Keeps s m) (putmsg m r s)
putmsg-Keeps m r s h v a = elim (Bool-cases s.wfail) [
  | inl w ↦
      rw (putmsg_failed m r s w) (gives (record { valid = v; lasting = λ x. x; stream = inl w }))
  | inr w ↦ elim (Bool-cases (s.wsize == 0)) [
    | inl empty ↦ rw (putmsg_idle m r s w empty) (
        Returns-weaken (output-Keeps false r (enqueue m s) (enqueue-IsValid s m h v) a) (λ t k.
          subst (λ l. Keeps s l t) (append-nil m)
            (Keeps-trans s (enqueue m s) t m [] (enqueue-Keeps s m h v) k)))
    | inr busy ↦ rw (putmsg_busy m r s w busy) (gives (enqueue-Keeps s m h v))
  ]
]

pub writable-Keeps :
    (r : WriteResult) (s : Sender) → IsValid s → Accepts r s → Returns (Keeps s []) (writable r s)
writable-Keeps r s v a = elim (Bool-cases s.write_cb) [
  | inl b ↦ rw (writable_on r s b) (output-Keeps true r s v a)
  | inr b ↦ rw (writable_off r s b) (gives (same-Keeps s v))
]

-- In the run from the first state the messages are not empty, and the kernel keeps to what it is
-- offered.
abbrev pub Allowed : List Event → Res Sender → Type 0
Allowed (send m r ∷ es) (ok s) =
    (0 < length m) × Accepts r (enqueue m s) × Allowed es (handle (send m r) s)
Allowed (ready r ∷ es) (ok s) = Accepts r s × Allowed es (handle (ready r) s)
Allowed _ _ = Unit

abbrev pub messages : List Event → List ℕ
messages [] = []
messages (send m r ∷ es) = m ++ messages es
messages (ready r ∷ es) = messages es

-- From a queue in order, and for any calls of `putmsg` with messages that are not empty, any
-- readiness of the socket and any answers of the kernel that take no more than is offered, the
-- program runs to the end and the queue is in order after it. A failure of the socket stays. Without
-- one, the bytes sent and those pending are together the bytes of before followed by those of the
-- messages, in the order of the calls.
pub run-Keeps :
    (es : List Event) (s : Sender)
    → IsValid s
    → Allowed es (ok s)
    → Returns (Keeps s (messages es)) (run es s)
unfolding run handle
run-Keeps [] s v a = gives (same-Keeps s v)
run-Keeps (send m r ∷ es) s v (h, a, rest) =
    Returns-then (putmsg m r s) (putmsg-Keeps m r s h v a) λ t e k.
      Returns-weaken (run-Keeps es t k.valid (subst (Allowed es) e rest))
        λ u l. Keeps-trans s t u m (messages es) k l
run-Keeps (ready r ∷ es) s v (a, rest) =
    Returns-then (writable r s) (writable-Keeps r s v a) λ t e k.
      Returns-weaken (run-Keeps es t k.valid (subst (Allowed es) e rest))
        λ u l. Keeps-trans s t u [] (messages es) k l
