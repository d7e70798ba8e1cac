-- ===== src/Marshal/Bytes.antt =====
-- `put_bytes` and `get_bytes`: a byte string takes a multiple of four bytes, filled up with zeros.
use xdrpp.Common.{
  ℕ, zero, suc, ◌+◌, ◌-◌, ◌%◌, ◌≤◌, ◌≡◌, ◌≢◌, refl, sym, ap, ◌∙◌, arith, List, [], ◌∷◌, ◌++◌,
  length, replicate, append-nil, append_assoc, length-append, length-replicate, length-take,
  take-append, drop-append, take-append-drop, fun_ext, Bool-cases, le→ltb, ne_of_==, ==_iff, ◌==◌,
  true, inl, inr, ◌*◌, ◌/◌,
}
use xdrpp.Common.Result.{
  Res, ok, throw, fault, ill_typed, ◌>>=◌, bind-eq-ok, Ensures, returns, throws, Ensures-bind,
}
use xdrpp.Marshal.{Out, write, read, put_padding, put_bytes, get_padding, get_bytes}
use xdrpp.Marshal.Words.{write-append}

-- How many bytes are missing to a multiple of four.
abbrev pub pad : ℕ → ℕ
pad len = (4 - len % 4) % 4

abbrev pub zeros : ℕ → List ℕ
zeros len = replicate (pad len) 0

unfoldable pub padded : List ℕ → List ℕ
padded bs = bs ++ zeros (length bs)

write-nil : (o : Out) → write [] o ≡ ok o
unfolding write
write-nil o = ground (arith, append-nil o.written)

pad_done : (len : ℕ) → len % 4 ≡ 0 → pad len ≡ 0
pad_done len h = omega arith

pad_more : (len : ℕ) → len % 4 ≢ 0 → pad len ≡ suc (pad (len + 1))
pad_more len h = omega arith

put_padding_lem :
    (rounds len : ℕ) (o : Out) → pad len ≤ rounds → put_padding rounds len o ≡ write (zeros len) o
unfolding put_padding
put_padding_lem zero len o h = let e : pad len ≡ 0 = omega arith in rw e (sym (write-nil o))
put_padding_lem (suc rounds) len o h = elim (Bool-cases (len % 4 == 0)) [
  | inl e ↦ rw (e, pad_done len ((==_iff _ 0).0 e)) (sym (write-nil o))
  | inr e ↦
      rw (e, pad_more len (ne_of_== _ 0 e))
        (ap (λ k. write (0 ∷ []) o >>= k)
            (fun_ext (λ x.
              put_padding_lem rounds (len + 1) x (omega (arith, pad_more len (ne_of_== _ 0 e)))))
          ∙ write-append (0 ∷ []) (zeros (len + 1)) o)
]

-- `put_bytes` writes the bytes and zeros up to a multiple of four, and nothing for an empty string.
pub put_bytes_lem : (bs : List ℕ) (o : Out) → put_bytes bs o ≡ write (padded bs) o
unfolding put_bytes padded
put_bytes_lem [] o = sym (write-nil o)
put_bytes_lem (b ∷ bs) o =
    ap (λ k. write (b ∷ bs) o >>= k)
      (fun_ext (λ x. put_padding_lem 3 (length (b ∷ bs)) x (omega arith)))
    ∙ write-append (b ∷ bs) (zeros (length (b ∷ bs))) o

get_padding-zeros :
    (rounds len : ℕ) (rest : List ℕ)
    → pad len ≤ rounds
    → get_padding rounds len (zeros len ++ rest) ≡ ok rest
unfolding get_padding
get_padding-zeros zero len rest h = let e : pad len ≡ 0 = omega arith in rw e
get_padding-zeros (suc rounds) len rest h = elim (Bool-cases (len % 4 == 0)) [
  | inl e ↦ rw (pad_done len ((==_iff _ 0).0 e)) (stops rest e)
  | inr e ↦ rw (pad_more len (ne_of_== _ 0 e)) (
      rw e (get_padding-zeros rounds (len + 1) rest (omega (arith, pad_more len (ne_of_== _ 0 e)))))
]
  where
    stops : (l : List ℕ) → (len % 4 == 0) ≡ true → get_padding (suc rounds) len l ≡ ok l
    stops [] e = rw e
    stops (c ∷ l) e = rw e

get_padding_sound :
    (rounds len : ℕ) (inp rest : List ℕ)
    → pad len ≤ rounds
    → get_padding rounds len inp ≡ ok rest
    → inp ≡ zeros len ++ rest
unfolding get_padding
get_padding_sound zero len inp rest h e = let p : pad len ≡ 0 = omega arith in rw p (ground arith)
get_padding_sound (suc rounds) len [] rest h e = elim (Bool-cases (len % 4 == 0)) [
  | inl z ↦ rw (pad_done len ((==_iff _ 0).0 z)) (ground arith)
  | inr z ↦ absurd (ground arith)
]
get_padding_sound (suc rounds) len (c ∷ inp) rest h e = elim (Bool-cases (len % 4 == 0)) [
  | inl z ↦ rw (pad_done len ((==_iff _ 0).0 z)) (ground arith)
  | inr z ↦
      rw (pad_more len (ne_of_== _ 0 z))
        (ground (arith, get_padding_sound rounds (len + 1) inp rest, pad_more len (ne_of_== _ 0 z)))
]

get_padding-defined :
    (rounds len : ℕ) (inp : List ℕ)
    → pad len ≤ length inp
    → (get_padding rounds len inp ≢ fault) × (get_padding rounds len inp ≢ ill_typed)
unfolding get_padding
get_padding-defined zero len inp h = (λ e. cc, λ e. cc)
get_padding-defined (suc rounds) len [] h = (λ e. ground arith, λ e. ground arith)
get_padding-defined (suc rounds) len (c ∷ inp) h = (
  λ e. ground (arith, get_padding-defined rounds (len + 1) inp),
  λ e. ground (arith, get_padding-defined rounds (len + 1) inp),
)

get_padding-Ensures :
    (rounds len : ℕ) (inp : List ℕ)
    → pad len ≤ rounds
    → pad len ≤ length inp
    → Ensures (λ rest. inp ≡ zeros len ++ rest) (get_padding rounds len inp)
get_padding-Ensures rounds len inp h enough = go (get_padding rounds len inp) refl
  where
    go :
        (r : Res (List ℕ))
        → get_padding rounds len inp ≡ r
        → Ensures (λ rest. inp ≡ zeros len ++ rest) r
    go (ok rest) e = returns (get_padding_sound rounds len inp rest h e)
    go (throw x) e = throws
    go fault e = absurd ((get_padding-defined rounds len inp enough).0 e)
    go ill_typed e = absurd ((get_padding-defined rounds len inp enough).1 e)

pub length-padded : (bs : List ℕ) → length (padded bs) ≡ (length bs + 3) / 4 * 4
unfolding padded
length-padded bs =
    omega
      (arith, length-append bs (zeros (length bs)), length-replicate {A = ℕ} (pad (length bs)) 0)

read-append : (bs rest : List ℕ) → read (length bs) (bs ++ rest) ≡ ok (bs, rest)
unfolding read
read-append bs rest = ground (
  arith,
  length-append bs rest,
  take-append bs rest (length bs) refl,
  drop-append bs rest (length bs) refl,
)

read_sound :
    (n : ℕ) (inp bs rest : List ℕ)
    → read n inp ≡ ok (bs, rest)
    → (inp ≡ bs ++ rest) × (length bs ≡ n)
unfolding read
read_sound n inp bs rest e = ground (arith, take-append-drop n inp, length-take n inp)

read-Ensures :
    (n : ℕ) (inp : List ℕ)
    → n ≤ length inp
    → Ensures (λ r. (inp ≡ r.0 ++ r.1) × (length r.0 ≡ n)) (read n inp)
unfolding read
read-Ensures n inp h =
    rw (le→ltb (length inp) n h) (returns (sym (take-append-drop n inp), length-take n inp h))

-- `get_bytes` takes a padded string off the front.
pub get_bytes-padded :
    (bs rest : List ℕ) → get_bytes (length bs) (padded bs ++ rest) ≡ ok (bs, rest)
unfolding get_bytes padded
get_bytes-padded [] rest = refl
get_bytes-padded (b ∷ bs) rest =
    rw
      (
        append_assoc (b ∷ bs) (zeros (length (b ∷ bs))) rest,
        read-append (b ∷ bs) (zeros (length (b ∷ bs)) ++ rest),
      )
      (rw (get_padding-zeros 3 (length (b ∷ bs)) rest (omega arith)))

-- What `get_bytes` accepts is a padded string of the length asked for.
pub get_bytes_sound :
    (n : ℕ) (inp bs rest : List ℕ)
    → get_bytes n inp ≡ ok (bs, rest)
    → (inp ≡ padded bs ++ rest) × (length bs ≡ n)
unfolding get_bytes padded
get_bytes_sound zero inp bs rest e = ground arith
get_bytes_sound (suc n) inp bs rest e =
    let ((cs, tail), taken, e') = bind-eq-ok (read (suc n) inp) _ e in
    let (tail', skipped, e'') = bind-eq-ok (get_padding 3 (suc n) tail) _ e' in
    let (front, count) = read_sound (suc n) inp cs tail taken in
    ground (
      arith,
      front,
      count,
      get_padding_sound 3 (suc n) tail tail' (omega arith) skipped,
      append_assoc cs (zeros (suc n)) tail',
    )

-- On an input of whole words that is at least `n` bytes long, `get_bytes` of `n` bytes reads nothing
-- outside the input: it throws, or the input is the string that it returns, of `n` bytes, with its
-- zero padding, and then the rest that it returns.
pub get_bytes-Ensures :
    (n : ℕ) (inp : List ℕ)
    → n ≤ length inp
    → length inp % 4 ≡ 0
    → Ensures (λ r. (length r.0 ≡ n) × (inp ≡ padded r.0 ++ r.1)) (get_bytes n inp)
unfolding get_bytes padded
get_bytes-Ensures zero inp h w = returns (refl, refl)
get_bytes-Ensures (suc n) inp h w =
    Ensures-bind (read-Ensures (suc n) inp h) λ (bs, rest) (front, count).
      Ensures-bind
        (get_padding-Ensures 3 (suc n) rest (omega arith)
          (omega (arith, ap length front, length-append bs rest)))
        λ rest' skipped.
          returns (count, rw (front, skipped, ← count) (sym (append_assoc bs _ rest')))
