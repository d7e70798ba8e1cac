-- ===== src/Types.antt =====
-- xdrpp/types.h: the XDR types and their values, and the checks that the containers make.
-- The classes that xdrc/gen_hh.cc generates (structs and unions) are named by a number, and a
-- `Schema` gives their declarations, so that a type may mention itself.
pub mod Save
pub mod Size
pub mod Union
pub mod Object
pub mod Compare
use xdrpp.Common.{
  ℕ, zero, suc, ◌^◌, ◌-◌, Bool, true, false, ◌||◌, Option, none, some, List, [], ◌∷◌, ltb, leb,
  ◌==◌, if◌then◌else◌,
}
use xdrpp.Common.Result.{Error, Res, ok, throw, fault, overflow, invariant_failed}

-- The types with `xdr_traits<T>::valid`. An enumeration has its tags, and a flag that says whether
-- `xdr_validate_enum` is declared for it. `opaque_array`, `opaque_vec` and `xstring` are `is_bytes`,
-- `xarray`, `xvector` and `pointer` are `is_container`, `named` is `is_class`.
pub data Ty : Type 0 where
  int32 uint32 float32 int64 uint64 float64 boolean : Ty
  enumeration : List ℕ → Bool → Ty
  opaque_array opaque_vec xstring : ℕ → Ty
  xarray xvector : Ty → ℕ → Ty
  pointer : Ty → Ty
  named : ℕ → Ty

-- Which overload of an archive's `operator()` a type goes to: numbers with a `uint_type` of 32 or of
-- 64 bits, byte strings of a fixed length or with a bound on their length, classes and containers.
pub data Kind : Type 0 where
  word dword nested : Kind
  fixed_bytes variable_bytes : ℕ → Kind

unfoldable pub kind : Ty → Kind
kind int32 = word
kind uint32 = word
kind float32 = word
kind boolean = word
kind (enumeration tags validated) = word
kind int64 = dword
kind uint64 = dword
kind float64 = dword
kind (opaque_array n) = fixed_bytes n
kind (opaque_vec n) = variable_bytes n
kind (xstring n) = variable_bytes n
kind (xarray t n) = nested
kind (xvector t n) = nested
kind (pointer t) = nested
kind (named k) = nested

-- A number is its bit pattern, so a negative `int32_t` stands as 2 ^ 32 less. `seq` is an array, a
-- vector, a pointer (no element or one) or a struct. `choice` is a union: the discriminant and the
-- active field, none of which a void arm has.
mutual
  pub data Val : Type 0 where
    num : ℕ → Val
    bytes : List ℕ → Val
    seq : Vals → Val
    choice : ℕ → Vals → Val

  pub data Vals : Type 0 where
    nil : Vals
    cons : Val → Vals → Vals

abbrev pub size : Vals → ℕ
size nil = 0
size (cons v vs) = suc (size vs)

-- `rpc_ufield`: the case labels of an arm, whether it is the default arm, its field (none if void).
-- `fieldno` is 0 for a void arm.
pub record UnionField : Type 0 where
  pub cases : List ℕ
  pub has_default : Bool
  pub fieldno : ℕ
  pub decl : Option Ty

pub data Class : Type 0 where
  struct : List Ty → Class
  union : Ty → List UnionField → Class

-- `validate k v` is false where the application's `xdr::validate` throws on the class `k`.
pub record Schema : Type 0 where
  pub classes : ℕ → Class
  pub validate : ℕ → Val → Bool

abbrev pub contains : List ℕ → ℕ → Bool
contains [] a = false
contains (x ∷ xs) a = (a == x) || contains xs a

-- The arm of the `default:` label, if the union has one.
abbrev pub default_field : List UnionField → Option UnionField
default_field [] = none
default_field (f ∷ fs) = if f.has_default then some f else default_field fs

-- `_xdr_field_number`: the arms other than the default one are tested in order, then the default.
-- `none` is -1.
number_from : Option UnionField → List UnionField → ℕ → Option ℕ
number_from none [] which = none
number_from (some d) [] which = some d.fieldno
number_from def (f ∷ fs) which =
    if f.has_default
    then number_from (some f) fs which
    else if contains f.cases which
    then some f.fieldno
    else number_from def fs which

unfoldable pub field_number : List UnionField → ℕ → Option ℕ
unfolding number_from
field_number fs which = number_from none fs which

-- `_xdr_with_mem_ptr`: a `switch` over all labels, which goes to `default:` where none fits. `none`
-- is the answer `false`.
unfoldable pub labelled_field : List UnionField → ℕ → Option UnionField
labelled_field [] which = none
labelled_field (f ∷ fs) which = if contains f.cases which then some f else labelled_field fs which

unfoldable pub with_mem_ptr : List UnionField → ℕ → Option UnionField
unfolding labelled_field
with_mem_ptr fs which = elim (labelled_field fs which) [ some f ↦ some f | none ↦ default_field fs ]

-- `from_uint` followed by `validate_enum`: a `bool` is made of any number, and an enumeration that
-- is to be validated refuses a number that is none of its tags.
unfoldable pub from_uint : Ty → ℕ → Res ℕ
from_uint boolean u = ok (if u == 0 then 0 else 1)
from_uint (enumeration tags true) u = if contains tags u then ok u else throw invariant_failed
from_uint _ u = ok u

-- `size32`: an assertion that fails is a `fault`.
unfoldable pub size32 : ℕ → Res ℕ
size32 s = if ltb s (2 ^ 32) then ok s else fault

-- `check_size` of `xvector`, `xstring` and, with a bound of 1, of `pointer`.
unfoldable pub check_size : ℕ → ℕ → Res (Unit {0})
check_size bound n = if ltb bound n then throw overflow else ok tt

-- The guard of `extend_at`, the same in all three containers.
unfoldable pub check_position : ℕ → ℕ → Res (Unit {0})
check_position bound i = if leb bound i then throw overflow else ok tt
