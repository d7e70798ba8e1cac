-- ===== src/Marshal/Get/Formed.antt =====
-- What the compiler of the interface asks of its declarations.
use xdrpp.Common.{
  ℕ, ◌^◌, ◌<◌, ◌≡◌, Option, none, some, List, [], ◌∷◌, Bool-cases, Option-cases, inl, inr,
}
use xdrpp.Types.{
  Ty, opaque_array, opaque_vec, xstring, xarray, xvector, pointer, Kind, word, fixed_bytes,
  variable_bytes, kind, UnionField, Class, struct, union, Schema, with_mem_ptr, contains,
  labelled_field, default_field,
}

-- The bounds of a type are `uint32_t`s.
abbrev pub IsTy : Ty → Type 0
IsTy (opaque_array n) = n < 2 ^ 32
IsTy (opaque_vec n) = n < 2 ^ 32
IsTy (xstring n) = n < 2 ^ 32
IsTy (xarray t n) = (n < 2 ^ 32) × IsTy t
IsTy (xvector t n) = (n < 2 ^ 32) × IsTy t
IsTy (pointer t) = IsTy t
IsTy _ = Unit

abbrev pub AreTys : List Ty → Type 0
AreTys [] = Unit
AreTys (t ∷ ts) = IsTy t × AreTys ts

abbrev pub IsArm : Option Ty → Type 0
IsArm none = Unit
IsArm (some t) = IsTy t

abbrev pub IsActive : Option UnionField → Type 0
IsActive none = Unit
IsActive (some f) = IsArm f.decl

abbrev pub AreArms : List UnionField → Type 0
AreArms [] = Unit
AreArms (f ∷ fs) = IsArm f.decl × AreArms fs

abbrev pub IsClass : Class → Type 0
IsClass (struct ts) = AreTys ts
IsClass (union tag fs) = (kind tag ≡ word) × AreArms fs

abbrev pub IsKind : Kind → Type 0
IsKind (fixed_bytes n) = n < 2 ^ 32
IsKind (variable_bytes n) = n < 2 ^ 32
IsKind _ = Unit

pub IsTy-IsKind : (t : Ty) → IsTy t → IsKind (kind t)
unfolding kind
IsTy-IsKind (opaque_array n) h = h
IsTy-IsKind (opaque_vec n) h = h
IsTy-IsKind (xstring n) h = h
IsTy-IsKind _ h = tt

-- The compiler of the interface accepts the declarations: a discriminant is an integer of 32 bits.
abbrev pub IsSchema : Schema → Type 0
IsSchema s = (k : ℕ) → IsClass (s.classes k)

labelled_field-IsActive :
    (fs : List UnionField) (which : ℕ) → AreArms fs → IsActive (labelled_field fs which)
unfolding labelled_field
labelled_field-IsActive [] which w = tt
labelled_field-IsActive (f ∷ fs) which w = elim (Bool-cases (contains f.cases which)) [
  | inl here ↦ rw here w.0
  | inr later ↦ rw later (labelled_field-IsActive fs which w.1)
]

default_field-IsActive : (fs : List UnionField) → AreArms fs → IsActive (default_field fs)
default_field-IsActive [] w = tt
default_field-IsActive (f ∷ fs) w = elim (Bool-cases f.has_default) [
  | inl here ↦ rw here w.0
  | inr later ↦ rw later (default_field-IsActive fs w.1)
]

pub with_mem_ptr-IsActive :
    (fs : List UnionField) (which : ℕ) → AreArms fs → IsActive (with_mem_ptr fs which)
unfolding with_mem_ptr
with_mem_ptr-IsActive fs which w = elim (Option-cases (labelled_field fs which)) [
  | inl stray ↦ rw (stray, with_mem_ptr) (default_field-IsActive fs w)
  | inr (f, label) ↦ rw (label, with_mem_ptr) (rw label at (labelled_field-IsActive fs which w))
]
