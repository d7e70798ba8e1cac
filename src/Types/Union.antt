-- ===== src/Types/Union.antt =====
-- The two ways in which the generated code of a union finds the arm of a discriminant.
use xdrpp.Common.{ℕ, ◌≡◌, ◌≢◌, refl, arith, true, Option, none, some, List, [], ◌∷◌}
use xdrpp.Types.{
  UnionField, contains, default_field, labelled_field, number_from, field_number, with_mem_ptr,
}

-- What a C++ compiler asks of a `switch`: no label stands in two arms, and one arm at most is the
-- default.
unfoldable pub IsSwitch : List UnionField → Type 0
IsSwitch [] = Unit
IsSwitch (f ∷ fs) =
    ((which : ℕ) → contains f.cases which ≡ true → labelled_field fs which ≡ none)
    × (f.has_default ≡ true → default_field fs ≡ none)
    × IsSwitch fs

abbrev pub fieldno_of : Option UnionField → Option ℕ
fieldno_of none = none
fieldno_of (some f) = some f.fieldno

abbrev or_default : Option UnionField → Option UnionField → Option UnionField
or_default (some f) d = some f
or_default none d = d

number_from-no_default :
    (def : Option UnionField) (fs : List UnionField) (which : ℕ)
    → default_field fs ≡ none
    → number_from def fs which ≡ fieldno_of (or_default (labelled_field fs which) def)
unfolding number_from labelled_field
number_from-no_default none [] which h = refl
number_from-no_default (some d) [] which h = refl
number_from-no_default def (f ∷ fs) which h = ground (arith, number_from-no_default def fs which)

-- In a union whose `switch` a C++ compiler accepts, `_xdr_field_number` gives the number of the arm
-- that `_xdr_with_mem_ptr` visits, and -1 exactly where that visits none.
pub field_number-with_mem_ptr :
    (fs : List UnionField) (which : ℕ)
    → IsSwitch fs
    → field_number fs which ≡ fieldno_of (with_mem_ptr fs which)
unfolding field_number with_mem_ptr IsSwitch
field_number-with_mem_ptr [] which h = refl
field_number-with_mem_ptr (f ∷ fs) which h = ground (
  arith,
  h.0 which,
  number_from-no_default (some f) fs which,
  field_number-with_mem_ptr fs which h.2,
)

number_from-some :
    (d : UnionField) (fs : List UnionField) (which : ℕ) → number_from (some d) fs which ≢ none
unfolding number_from
number_from-some d [] which e = cc
number_from-some d (f ∷ fs) which e =
    ground (arith, number_from-some d fs which, number_from-some f fs which)

-- In any union: where there is an arm to visit, there is a field number.
pub field_number-ne-none :
    (fs : List UnionField) (which : ℕ) → with_mem_ptr fs which ≢ none → field_number fs which ≢ none
unfolding field_number with_mem_ptr
field_number-ne-none [] which h e = h refl
field_number-ne-none (f ∷ fs) which h e =
    ground (arith, number_from-some f fs which, field_number-ne-none fs which)

pub with_mem_ptr-ne-none :
    (fs : List UnionField) (which : ℕ) → field_number fs which ≢ none → with_mem_ptr fs which ≢ none
unfolding field_number with_mem_ptr
with_mem_ptr-ne-none [] which h e = h refl
with_mem_ptr-ne-none (f ∷ fs) which h e = ground (arith, with_mem_ptr-ne-none fs which)
