-- ===== src/Types/Compare.antt =====
-- The operators `==` and `<=>` of XDR types (xdrpp/types.h).
pub mod Agree
pub mod Reverse
pub mod Transitive
pub mod Exact
use Prim.Native.Nat.{compare, Ordering}
use xdrpp.Common.{
  ℕ, ◌+◌, ◌-◌, ◌%◌, ◌^◌, Bool, true, false, Option, none, some, List, [], ◌∷◌, ltb, ◌==◌, ◌&&◌,
  if◌then◌else◌,
}
use xdrpp.Types.{
  Ty, int32, uint32, float32, int64, uint64, float64, boolean, enumeration, xarray, xvector,
  pointer, named, Val, num, bytes, seq, choice, Vals, nil, cons, UnionField, Class, struct, union,
  Schema, with_mem_ptr,
}

-- `std::partial_ordering`, which `detail::ordering_t` is unless the application asks for
-- `std::strong_ordering`.
pub data Order : Type 0 where
  less equivalent greater unordered : Order

abbrev pub of_ordering : Ordering → Order
of_ordering Ordering.lt = less
of_ordering Ordering.eq = equivalent
of_ordering Ordering.gt = greater

-- The sign and magnitude of a floating-point number in the order of the numbers, where both zeros are
-- the same. A NaN, whose magnitude is above that of infinity, has no place.
abbrev pub float_key : ℕ → ℕ → ℕ → Option ℕ
float_key half infinity u =
    if ltb infinity (u % half)
    then none
    else some (if ltb u half then half + u % half else half - u % half)

abbrev pub key32 : ℕ → Option ℕ
key32 u = float_key (2 ^ 31) 0x7f800000 u

abbrev pub key64 : ℕ → Option ℕ
key64 u = float_key (2 ^ 63) 0x7ff0000000000000 u

-- The place of a number of the type. An `int32_t`, which an enumeration is too, and an `int64_t` come
-- as bit patterns.
abbrev pub key : Ty → ℕ → Option ℕ
key uint32 u = some u
key uint64 u = some u
key boolean u = some u
key int32 u = some ((u + 2 ^ 31) % 2 ^ 32)
key (enumeration tags validated) u = some ((u + 2 ^ 31) % 2 ^ 32)
key int64 u = some ((u + 2 ^ 63) % 2 ^ 64)
key float32 u = key32 u
key float64 u = key64 u
key _ u = none

abbrev pub compare_keys : Option ℕ → Option ℕ → Order
compare_keys (some a) (some b) = of_ordering (compare a b)
compare_keys _ _ = unordered

abbrev pub equal_keys : Option ℕ → Option ℕ → Bool
equal_keys (some a) (some b) = a == b
equal_keys _ _ = false

-- The operators of the language on numbers.
unfoldable pub compare_number : Ty → ℕ → ℕ → Order
compare_number t a b = compare_keys (key t a) (key t b)

unfoldable pub equal_number : Ty → ℕ → ℕ → Bool
equal_number float32 a b = equal_keys (key32 a) (key32 b)
equal_number float64 a b = equal_keys (key64 a) (key64 b)
equal_number t a b = a == b

abbrev pub then_compare : Order → Order → Order
then_compare equivalent rest = rest
then_compare o rest = o

-- Those of `std::string`, and of vectors and arrays of bytes.
unfoldable pub equal_bytes : List ℕ → List ℕ → Bool
equal_bytes [] [] = true
equal_bytes (a ∷ xs) (b ∷ bs) = (a == b) && equal_bytes xs bs
equal_bytes _ _ = false

unfoldable pub compare_bytes : List ℕ → List ℕ → Order
compare_bytes [] [] = equivalent
compare_bytes [] (b ∷ bs) = less
compare_bytes (a ∷ xs) [] = greater
compare_bytes (a ∷ xs) (b ∷ bs) = then_compare (of_ordering (compare a b)) (compare_bytes xs bs)

-- The types of the parts of a `seq`: the same for all, or those of the fields of a struct.
pub data Parts : Type 0 where
  elements : Ty → Parts
  fields : List Ty → Parts

abbrev pub first_part : Parts → Option Ty
first_part (elements t) = some t
first_part (fields []) = none
first_part (fields (t ∷ ts)) = some t

abbrev pub other_parts : Parts → Parts
other_parts (elements t) = elements t
other_parts (fields []) = fields []
other_parts (fields (t ∷ ts)) = fields ts

abbrev pub class_parts : Class → Parts
class_parts (struct ts) = fields ts
class_parts (union tag fs) = fields []

abbrev pub class_arms : Class → Option (Ty × List UnionField)
class_arms (struct ts) = none
class_arms (union tag fs) = some (tag, fs)

-- The field of an arm.
abbrev pub arm_parts : Option Ty → Parts
arm_parts none = fields []
arm_parts (some t) = fields (t ∷ [])

-- The comparison of unions, with that of the active fields. The arm is that of the first
-- discriminant; `r` keeps its first value if there is no field to compare.
abbrev pub equal_arm : Option UnionField → (Parts → Bool) → Bool
equal_arm none rest = true
equal_arm (some f) rest = rest (arm_parts f.decl)

unfoldable pub equal_choice : Option (Ty × List UnionField) → ℕ → ℕ → (Parts → Bool) → Bool
unfolding equal_number
equal_choice none d e rest = false
equal_choice (some (tag, fs)) d e rest =
    if equal_number tag d e then equal_arm (with_mem_ptr fs d) rest else false

abbrev pub compare_arm : Option UnionField → (Parts → Order) → Order
compare_arm none rest = equivalent
compare_arm (some f) rest = rest (arm_parts f.decl)

unfoldable pub compare_choice : Option (Ty × List UnionField) → ℕ → ℕ → (Parts → Order) → Order
unfolding compare_number
compare_choice none d e rest = unordered
compare_choice (some (tag, fs)) d e rest =
    then_compare (compare_number tag d e) (compare_arm (with_mem_ptr fs d) rest)

module _ (s : Schema) where
  unfoldable pub parts : Ty → Parts
  parts (xarray t n) = elements t
  parts (xvector t n) = elements t
  parts (pointer t) = elements t
  parts (named k) = class_parts (s.classes k)
  parts _ = fields []

  unfoldable pub arms : Ty → Option (Ty × List UnionField)
  arms (named k) = class_arms (s.classes k)
  arms _ = none

  -- A pointer compares like a vector of at most one element.
  unfoldable mutual
    unfolding equal_number equal_bytes equal_choice parts arms

    pub equal : Ty → Val → Val → Bool
    equal t (num a) (num b) = equal_number t a b
    equal t (bytes a) (bytes b) = equal_bytes a b
    equal t (seq vs) (seq ws) = equal_parts (parts t) vs ws
    equal t (choice d vs) (choice e ws) = equal_choice (arms t) d e (λ ps. equal_parts ps vs ws)
    equal t _ _ = false

    pub equal_parts : Parts → Vals → Vals → Bool
    equal_parts ps nil nil = true
    equal_parts ps (cons v vs) (cons w ws) = elim (first_part ps) [
      | none ↦ false
      | some t ↦ if equal t v w then equal_parts (other_parts ps) vs ws else false
    ]
    equal_parts ps _ _ = false

  -- `res != std::partial_ordering::equivalent` is tested after each part.
  unfoldable mutual
    unfolding compare_number compare_bytes compare_choice parts arms

    pub compare_vals : Ty → Val → Val → Order
    compare_vals t (num a) (num b) = compare_number t a b
    compare_vals t (bytes a) (bytes b) = compare_bytes a b
    compare_vals t (seq vs) (seq ws) = compare_parts (parts t) vs ws
    compare_vals t (choice d vs) (choice e ws) =
        compare_choice (arms t) d e (λ ps. compare_parts ps vs ws)
    compare_vals t _ _ = unordered

    pub compare_parts : Parts → Vals → Vals → Order
    compare_parts ps nil nil = equivalent
    compare_parts ps nil (cons w ws) = less
    compare_parts ps (cons v vs) nil = greater
    compare_parts ps (cons v vs) (cons w ws) = elim (first_part ps) [
      | none ↦ unordered
      | some t ↦ then_compare (compare_vals t v w) (compare_parts (other_parts ps) vs ws)
    ]
