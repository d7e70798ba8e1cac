-- ===== src/Marshal/Get/Steps.antt =====
-- The checks and the loops of `xdr_get` on arbitrary input.
use xdrpp.Common.{
  ℕ, zero, suc, ◌+◌, ◌%◌, ◌^◌, ◌≤◌, ◌<◌, ◌≡◌, ◌≢◌, refl, arith, true, false, Option, none, some,
  List, [], ◌∷◌, length, length-append, ltb, ltb→le, leb, Bool-cases, inl, inr,
}
use xdrpp.Common.Result.{Ensures, returns, throws, Ensures-bind}
use xdrpp.Types.{
  Ty, boolean, enumeration, word, nested, kind, Val, num, bytes, seq, choice, size, UnionField,
  from_uint, check_size, check_position, contains,
}
use xdrpp.Marshal.Words.{length-be32}
use xdrpp.Marshal.Get.{
  check, get_elems, get_fields, get_field, get_active, check_discriminant, number,
}
use xdrpp.Marshal.Get.Pieces.{Archive}
use xdrpp.Marshal.Put.Encode.{
  InRange, AllFit, FieldsFit, FieldFits, ActiveFits, KindFits, encode_elems, encode_fields,
  encode_field, encode_active, encode_kind, IsWhole,
}
use xdrpp.Marshal.Get.Formed.{IsTy, AreTys, IsArm, IsActive}

abbrev pub IsWordOf : Ty → Val → Type 0
IsWordOf t (num u) = (u < 2 ^ 32) × InRange t u
IsWordOf t _ = ⊥

pub word_fits :
    (P : Ty → Val → Type 0) (enc : Ty → Val → List ℕ) (t : Ty) (inp : List ℕ)
    → (r : Val × List ℕ) → IsWordOf t r.0 × (length inp ≡ 4 + length r.1)
    → KindFits P word t r.0 × (length inp ≡ length (encode_kind enc word t r.0) + length r.1)
word_fits P enc t inp (num u, rest) (good, taken) = (good, omega (arith, length-be32 u))
word_fits P enc t inp (bytes _, rest) h = absurd h.0
word_fits P enc t inp (seq _, rest) h = absurd h.0
word_fits P enc t inp (choice _ _, rest) h = absurd h.0

-- From a buffer of whole words an archive takes exactly the bytes of the value that it gives, and
-- that value fits its type.
abbrev pub Sound : (Ty → Val → Type 0) → (Ty → Val → List ℕ) → Archive → Type 0
Sound P enc ar =
    (t : Ty) (inp : List ℕ)
    → IsTy t
    → length inp % 4 ≡ 0
    → Ensures (λ r. P t r.0 × (length inp ≡ length (enc t r.0) + length r.1)) (ar t inp)

-- The same for the function that an archive hands classes and containers to.
abbrev pub SoundNested : (Ty → Val → Type 0) → (Ty → Val → List ℕ) → Archive → Type 0
SoundNested P enc ld =
    (t : Ty) (inp : List ℕ)
    → kind t ≡ nested
    → IsTy t
    → length inp % 4 ≡ 0
    → Ensures (λ r. P t r.0 × (length inp ≡ length (enc t r.0) + length r.1)) (ld t inp)

pub check_sound : (n : ℕ) (inp : List ℕ) → Ensures (λ r. (r ≡ inp) × (n ≤ length inp)) (check n inp)
unfolding check
check_sound n inp = elim (Bool-cases (ltb (length inp) n)) [
  | inl short ↦ rw short throws
  | inr fits ↦ rw fits (returns (refl, ltb→le _ _ fits))
]

pub check_position_sound : (bound i : ℕ) → Ensures (λ r. i < bound) (check_position bound i)
unfolding check_position
check_position_sound bound i = elim (Bool-cases (leb bound i)) [
  | inl out ↦ rw out throws
  | inr inside ↦ rw inside (returns (ground arith))
]

pub check_size_sound : (bound n : ℕ) → Ensures (λ r. n ≤ bound) (check_size bound n)
unfolding check_size
check_size_sound bound n = elim (Bool-cases (ltb bound n)) [
  | inl large ↦ rw large throws
  | inr fits ↦ rw fits (returns (ltb→le _ _ fits))
]

pub from_uint_sound :
    (t : Ty) (u : ℕ) → u < 2 ^ 32 → Ensures (λ v. (v < 2 ^ 32) × InRange t v) (from_uint t u)
unfolding from_uint
from_uint_sound boolean u h = returns (ground arith)
from_uint_sound (enumeration tags true) u h = elim (Bool-cases (contains tags u)) [
  | inl tag ↦ rw tag (returns (h, tag))
  | inr stray ↦ rw stray throws
]
from_uint_sound (enumeration tags false) u h = returns (h, tt)
from_uint_sound _ u h = returns (h, tt)

module _ (P : Ty → Val → Type 0) (enc : Ty → Val → List ℕ) (ar : Archive)
    (whole : (t : Ty) (v : Val) → IsWhole (enc t v)) (sound : Sound P enc ar) where
  pub get_elems_sound :
      (bound : ℕ) (t : Ty) (n i : ℕ) (inp : List ℕ)
      → IsTy t
      → length inp % 4 ≡ 0
      → Ensures
          (λ r.
            (size r.0 ≡ n)
            × AllFit (P t) r.0
            × (length inp ≡ length (encode_elems (enc t) r.0) + length r.1))
          (get_elems bound (ar t) n i inp)
  unfolding get_elems
  get_elems_sound bound t zero i inp w h = returns (refl, tt, omega arith)
  get_elems_sound bound t (suc n) i inp w h = Ensures-bind (check_position_sound bound i) λ _ _.
      Ensures-bind (sound t inp w h) λ (v, inp1) (fits, taken).
        Ensures-bind (get_elems_sound bound t n (i + 1) inp1 w (omega (arith, whole t v)))
          λ (vs, inp2) (count, fit, taken'). returns (
            omega arith,
            (fits, fit),
            omega (arith, length-append (enc t v) (encode_elems (enc t) vs)),
          )

  pub get_fields_sound :
      (ts : List Ty) (inp : List ℕ)
      → AreTys ts
      → length inp % 4 ≡ 0
      → Ensures
          (λ r. FieldsFit P ts r.0 × (length inp ≡ length (encode_fields enc ts r.0) + length r.1))
          (get_fields ar ts inp)
  unfolding get_fields
  get_fields_sound [] inp w h = returns (tt, omega arith)
  get_fields_sound (t ∷ ts) inp w h = Ensures-bind (sound t inp w.0 h) λ (v, inp1) (fits, taken).
      Ensures-bind (get_fields_sound ts inp1 w.1 (omega (arith, whole t v)))
        λ (vs, inp2) (fit, taken').
          returns ((fits, fit), omega (arith, length-append (enc t v) (encode_fields enc ts vs)))

  get_field_sound :
      (decl : Option Ty) (inp : List ℕ)
      → IsArm decl
      → length inp % 4 ≡ 0
      → Ensures
          (λ r.
            FieldFits P decl r.0 × (length inp ≡ length (encode_field enc decl r.0) + length r.1))
          (get_field ar decl inp)
  unfolding get_field
  get_field_sound none inp w h = returns (tt, omega arith)
  get_field_sound (some t) inp w h =
      Ensures-bind (sound t inp w h) λ (v, inp1) (fits, taken). returns (fits, taken)

  pub get_active_sound :
      (a : Option UnionField) (inp : List ℕ)
      → a ≢ none
      → IsActive a
      → length inp % 4 ≡ 0
      → Ensures
          (λ r. ActiveFits P a r.0 × (length inp ≡ length (encode_active enc a r.0) + length r.1))
          (get_active ar a inp)
  unfolding get_active
  get_active_sound none inp ne w h = absurd (ne refl)
  get_active_sound (some f) inp ne w h = get_field_sound f.decl inp w h

pub check_discriminant_sound : (k : Option ℕ) → Ensures (λ r. k ≢ none) (check_discriminant k)
unfolding check_discriminant
check_discriminant_sound none = throws
check_discriminant_sound (some k) = returns (λ e. cc)

-- A number of 32 bits, whatever its type.
abbrev pub SoundWords : Archive → Type 0
SoundWords ar =
    (t : Ty) (inp : List ℕ)
    → kind t ≡ word
    → length inp % 4 ≡ 0
    → Ensures (λ r. IsWordOf t r.0 × (length inp ≡ 4 + length r.1)) (ar t inp)

pub number_sound :
    (t : Ty) (v : Val) → IsWordOf t v → Ensures (λ u. (u < 2 ^ 32) × InRange t u) (number v)
unfolding number
number_sound t (num u) h = returns h
number_sound t (bytes _) h = absurd h
number_sound t (seq _) h = absurd h
number_sound t (choice _ _) h = absurd h
