-- ===== src/Marshal/Get/Pieces.antt =====
-- The loops of `xdr_get` over elements, fields and the active arm, for an archive that reads back
-- what the encoding of RFC4506 says.
use xdrpp.Common.{
  ℕ, ◌+◌, ◌^◌, ◌≤◌, ◌<◌, ◌≡◌, ◌≢◌, refl, arith, true, false, Option, none, some, List, [], ◌∷◌,
  ◌++◌, length, length-append, append_assoc,
}
use xdrpp.Common.Result.{Res, ok}
use xdrpp.Types.{
  Ty, boolean, enumeration, word, kind, Val, num, Vals, nil, cons, size, UnionField, from_uint,
  check_position,
}
use xdrpp.Marshal.Words.{be32}
use xdrpp.Marshal.Get.{check, get_elems, get_fields, get_field, get_active, check_discriminant}
use xdrpp.Marshal.Put.Encode.{
  InRange, AllFit, FieldsFit, FieldFits, ActiveFits, encode_elems, encode_fields, encode_field,
  encode_active,
}

pub check_lem : (n : ℕ) (bs rest : List ℕ) → n ≤ length bs → check n (bs ++ rest) ≡ ok (bs ++ rest)
unfolding check
check_lem n bs rest h = ground (arith, length-append bs rest)

pub from_uint_lem : (t : Ty) (u : ℕ) → InRange t u → from_uint t u ≡ ok u
unfolding from_uint
from_uint_lem boolean u h = ground arith
from_uint_lem (enumeration tags true) u h = rw h
from_uint_lem (enumeration tags false) u h = refl
from_uint_lem _ u h = refl

abbrev pub Archive : Type 0
Archive = Ty → List ℕ → Res (Val × List ℕ)

abbrev pub Gets : (Ty → Val → Type 0) → (Ty → Val → List ℕ) → Archive → Type 0
Gets P enc ar = (t : Ty) (v : Val) (rest : List ℕ) → P t v → ar t (enc t v ++ rest) ≡ ok (v, rest)

module _ (P : Ty → Val → Type 0) (enc : Ty → Val → List ℕ) (ar : Archive)
    (gets : Gets P enc ar) where
  pub get_elems_lem :
      (bound : ℕ) (t : Ty) (vs : Vals) (i : ℕ) (rest : List ℕ)
      → i + size vs ≤ bound
      → AllFit (P t) vs
      → get_elems bound (ar t) (size vs) i (encode_elems (enc t) vs ++ rest) ≡ ok (vs, rest)
  unfolding get_elems check_position
  get_elems_lem bound t nil i rest h f = refl
  get_elems_lem bound t (cons v vs) i rest h f = ground (
    arith,
    append_assoc (enc t v) (encode_elems (enc t) vs) rest,
    gets t v (encode_elems (enc t) vs ++ rest) f.0,
    get_elems_lem bound t vs (i + 1) rest (omega arith) f.1,
  )

  pub get_fields_lem :
      (ts : List Ty) (vs : Vals) (rest : List ℕ)
      → FieldsFit P ts vs
      → get_fields ar ts (encode_fields enc ts vs ++ rest) ≡ ok (vs, rest)
  unfolding get_fields
  get_fields_lem [] nil rest f = refl
  get_fields_lem [] (cons v vs) rest f = absurd f
  get_fields_lem (t ∷ ts) nil rest f = absurd f
  get_fields_lem (t ∷ ts) (cons v vs) rest f =
      rw
        (
          append_assoc (enc t v) (encode_fields enc ts vs) rest,
          gets t v (encode_fields enc ts vs ++ rest) f.0,
        )
        (rw (get_fields_lem ts vs rest f.1))

  get_field_lem :
      (decl : Option Ty) (vs : Vals) (rest : List ℕ)
      → FieldFits P decl vs
      → get_field ar decl (encode_field enc decl vs ++ rest) ≡ ok (vs, rest)
  unfolding get_field
  get_field_lem none nil rest f = refl
  get_field_lem none (cons v vs) rest f = absurd f
  get_field_lem (some t) nil rest f = absurd f
  get_field_lem (some t) (cons v nil) rest f = rw (gets t v rest f)
  get_field_lem (some t) (cons v (cons u vs)) rest f = absurd f

  pub get_active_lem :
      (a : Option UnionField) (vs : Vals) (rest : List ℕ)
      → ActiveFits P a vs
      → get_active ar a (encode_active enc a vs ++ rest) ≡ ok (vs, rest)
  unfolding get_active
  get_active_lem none vs rest f = absurd f
  get_active_lem (some a) vs rest f = get_field_lem a.decl vs rest f

pub ActiveFits-ne-none :
    (P : Ty → Val → Type 0) (a : Option UnionField) (vs : Vals) → ActiveFits P a vs → a ≢ none
ActiveFits-ne-none P none vs f e = f
ActiveFits-ne-none P (some a) vs f e = cc

pub check_discriminant_lem : (k : Option ℕ) → k ≢ none → check_discriminant k ≡ ok tt
unfolding check_discriminant
check_discriminant_lem none h = absurd (h refl)
check_discriminant_lem (some k) h = refl

abbrev pub GetsWords : Archive → Type 0
GetsWords ar =
    (t : Ty) (u : ℕ) (rest : List ℕ)
    → kind t ≡ word
    → u < 2 ^ 32
    → InRange t u
    → ar t (be32 u ++ rest) ≡ ok (num u, rest)
