-- ===== src/Marshal/Words.antt =====
-- On either kind of machine the mixin that `xdr_put` and `xdr_get` use moves words in the order of
-- RFC4506.
use xdrpp.Common.{
  ℕ, ◌+◌, ◌*◌, ◌/◌, ◌%◌, ◌^◌, ◌<◌, ◌≡◌, refl, ◌∙◌, arith, Bool, true, false, List, [], ◌∷◌, ◌++◌,
  append_assoc, length-append, length, ◌≤◌, ap, sym,
}
use xdrpp.Common.Result.{Res, ok, fault, ◌>>=◌, bind-eq-ok}
use xdrpp.Endian.{swap32, swap32le}
use xdrpp.Endian.Swap.{swap32_bytes, swap32_as_bytes}
use xdrpp.Marshal.{
  Out, write, store32, load32, join, first_word, second_word, join_words, marshal_noswap,
  marshal_swap, rfc_base,
}

-- RFC4506, section 4.1 and on: the most significant byte stands first.
unfoldable pub be32 : ℕ → List ℕ
be32 v = v / 2 ^ 24 % 256 ∷ v / 2 ^ 16 % 256 ∷ v / 2 ^ 8 % 256 ∷ v % 256 ∷ []

unfoldable pub be64 : ℕ → List ℕ
unfolding be32
be64 v = be32 (v / 2 ^ 32) ++ be32 (v % 2 ^ 32)

pub length-be32 : (v : ℕ) → length (be32 v) ≡ 4
unfolding be32
length-be32 v = refl

pub length-be64 : (v : ℕ) → length (be64 v) ≡ 8
unfolding be64
length-be64 v = refl

unfoldable pub read_be32 : List ℕ → Res (ℕ × List ℕ)
read_be32 (a ∷ b ∷ c ∷ d ∷ rest) = ok (join a b c d, rest)
read_be32 _ = fault

unfoldable pub read_be64 : List ℕ → Res (ℕ × List ℕ)
unfolding read_be32
read_be64 inp = do
  (hi, inp1) ← read_be32 inp
  (lo, inp2) ← read_be32 inp1
  ok (hi * 2 ^ 32 + lo, inp2)

pub store32-swap32 : (v : ℕ) → v < 2 ^ 32 → store32 false (swap32 v) ≡ be32 v
unfolding store32 be32
store32-swap32 v h = ground (arith, swap32_as_bytes v h)

pub put32_lem :
    (be : Bool) (v : ℕ) (o : Out) → v < 2 ^ 32 → (rfc_base be).put32 v o ≡ write (be32 v) o
unfolding rfc_base marshal_noswap marshal_swap
put32_lem true v o h = unfold store32 be32 in refl
put32_lem false v o h = rw (store32-swap32 v h)

-- Two stores in a row are one.
pub write-append : (xs ys : List ℕ) (o : Out) → (write xs o >>= write ys) ≡ write (xs ++ ys) o
unfolding write
write-append xs ys o = ground (arith, length-append xs ys, append_assoc o.written xs ys)

-- On a machine of either byte order `put64` of a 64-bit number stores its eight bytes, the highest
-- first.
pub put64_lem :
    (be : Bool) (v : ℕ) (o : Out) → v < 2 ^ 64 → (rfc_base be).put64 v o ≡ write (be64 v) o
unfolding rfc_base marshal_noswap marshal_swap first_word second_word
put64_lem true v o h = write-append _ _ o ∙ unfold store32 be64 in refl
put64_lem false v o h =
    rw (store32-swap32 (v / 2 ^ 32) (omega arith), store32-swap32 (v % 2 ^ 32) (omega arith))
      (write-append _ _ o ∙ unfold be64 in refl)

pub swap32-join : (a b c d : ℕ) → swap32 (join d c b a) ≡ join a b c d
swap32-join a b c d =
    swap32_bytes (d % 256) (c % 256) (b % 256) (a % 256) (omega arith) (omega arith) (omega arith)
      (omega arith)

pub get32_lem : (be : Bool) (inp : List ℕ) → (rfc_base be).get32 inp ≡ read_be32 inp
unfolding rfc_base marshal_noswap marshal_swap load32 read_be32
get32_lem true (a ∷ b ∷ c ∷ d ∷ rest) = refl
get32_lem false (a ∷ b ∷ c ∷ d ∷ rest) = rw swap32-join
get32_lem true _ = refl
get32_lem false _ = refl

-- On a machine of either byte order and on any input `get64` reads a number whose highest byte comes
-- first, as `read_be64` does, and reads outside the input exactly where `read_be64` does.
pub get64_lem : (be : Bool) (inp : List ℕ) → (rfc_base be).get64 inp ≡ read_be64 inp
unfolding rfc_base marshal_noswap marshal_swap read_be64 join_words load32
get64_lem true (_ ∷ _ ∷ _ ∷ _ ∷ _ ∷ _ ∷ _ ∷ _ ∷ rest) = refl
get64_lem false (a ∷ b ∷ c ∷ d ∷ e ∷ f ∷ g ∷ h ∷ rest) =
    rw (swap32-join a b c d, swap32-join e f g h)
get64_lem true _ = refl
get64_lem false _ = refl

-- What `be32` and `be64` write is read back, whatever follows it.
pub read_be32-be32 :
    (v : ℕ) (rest : List ℕ) → v < 2 ^ 32 → read_be32 (be32 v ++ rest) ≡ ok (v, rest)
unfolding read_be32 be32
read_be32-be32 v rest h = ground arith

join-be32 :
    (v : ℕ)
    → v < 2 ^ 32
    → join (v / 2 ^ 24 % 256) (v / 2 ^ 16 % 256) (v / 2 ^ 8 % 256) (v % 256) ≡ v
join-be32 v h = omega arith

-- The bytes of a word as memory has them.
pub load32-be32 :
    (be : Bool) (v : ℕ) (rest : List ℕ)
    → v < 2 ^ 32
    → load32 be (be32 v ++ rest) ≡ ok (swap32le be v, rest)
unfolding load32 be32 swap32le
load32-be32 true v rest h = ground arith
load32-be32 false v rest h =
    ap (λ w. ok (w, rest))
      (sym (swap32-join (v % 256) (v / 2 ^ 8 % 256) (v / 2 ^ 16 % 256) (v / 2 ^ 24 % 256))
        ∙ ap swap32 (join-be32 v h))

pub read_be64-be64 :
    (v : ℕ) (rest : List ℕ) → v < 2 ^ 64 → read_be64 (be64 v ++ rest) ≡ ok (v, rest)
unfolding read_be64 be64
read_be64-be64 v rest h = ground arith

-- A read takes exactly its bytes, gives a number in range, and faults only past the end.
pub read_be32_sound :
    (inp : List ℕ) (u : ℕ) (rest : List ℕ)
    → read_be32 inp ≡ ok (u, rest)
    → (u < 2 ^ 32) × (length inp ≡ 4 + length rest)
unfolding read_be32
read_be32_sound (a ∷ b ∷ c ∷ d ∷ inp) u rest e = ground arith
read_be32_sound [] u rest e = cc
read_be32_sound (_ ∷ []) u rest e = cc
read_be32_sound (_ ∷ _ ∷ []) u rest e = cc
read_be32_sound (_ ∷ _ ∷ _ ∷ []) u rest e = cc

pub read_be64_sound :
    (inp : List ℕ) (u : ℕ) (rest : List ℕ)
    → read_be64 inp ≡ ok (u, rest)
    → (u < 2 ^ 64) × (length inp ≡ 8 + length rest)
unfolding read_be64
read_be64_sound inp u rest e =
    let ((hi, inp1), first, e1) = bind-eq-ok (read_be32 inp) _ e in
    let ((lo, inp2), second, e2) = bind-eq-ok (read_be32 inp1) _ e1 in
    ground (arith, read_be32_sound inp hi inp1 first, read_be32_sound inp1 lo inp2 second)

pub read_be32-total : (inp : List ℕ) → 4 ≤ length inp → (p : ℕ × List ℕ) × (read_be32 inp ≡ ok p)
unfolding read_be32
read_be32-total (a ∷ b ∷ c ∷ d ∷ inp) h = ((join a b c d, inp), refl)
read_be32-total [] h = absurd (omega arith)
read_be32-total (_ ∷ []) h = absurd (omega arith)
read_be32-total (_ ∷ _ ∷ []) h = absurd (omega arith)
read_be32-total (_ ∷ _ ∷ _ ∷ []) h = absurd (omega arith)

pub read_be64-total : (inp : List ℕ) → 8 ≤ length inp → (p : ℕ × List ℕ) × (read_be64 inp ≡ ok p)
unfolding read_be64
read_be64-total inp h =
    let ((hi, inp1), first) = read_be32-total inp (omega arith) in
    let ((lo, inp2), second) =
      read_be32-total inp1 (omega (arith, read_be32_sound inp hi inp1 first)) in
    ((hi * 2 ^ 32 + lo, inp2), rw (first, second))
