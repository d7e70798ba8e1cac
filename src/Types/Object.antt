-- ===== src/Types/Object.antt =====
-- xdrc/gen_hh.cc, the class that it prints for a union, as an object whose members come to life and
-- end, with the function objects of xdrpp/types.h that do that.
pub mod Sound
pub mod Steps
pub mod Changes
pub mod Lifetime
use xdrpp.Common.{
  ℕ, Bool, true, false, not, ◌&&◌, Option, none, some, List, [], ◌∷◌, ◌==◌, if◌then◌else◌,
}
use xdrpp.Types.{UnionField, field_number, with_mem_ptr}

-- The tag, and the member that is alive with its value. Members are told apart by their field
-- numbers: the parser gives each its own.
pub record Object (A : Type 0) : Type 0 where
  pub tag : ℕ
  pub live : Option (ℕ × A)

-- How a call ends. `misused` is a member that is read, assigned or destroyed while it is not alive,
-- or constructed over one that is.
pub data After (B : Type 0) : Type 0 where
  done : B → After B
  thrown : B → After B
  misused : After B

abbrev pub and_then : {B : Type 0} → After B → (B → After B) → After B
and_then (done u) f = f u
and_then (thrown u) f = thrown u
and_then misused f = misused

abbrev pub equal_number : Option ℕ → Option ℕ → Bool
equal_number none none = true
equal_number (some m) (some n) = m == n
equal_number _ _ = false

abbrev pub is_minus_one : Option ℕ → Bool
is_minus_one none = true
is_minus_one (some n) = false

-- The constructors of the members: `init f` is `F{}`, `none` where it throws. `copy v` is `F(v)`,
-- false where it throws. `assign old new` is what is left in a member whose assignment throws.
pub record Members (A : Type 0) : Type 0 where
  pub init : UnionField → Option A
  pub copy : A → Bool
  pub assign : A → A → Option A

module _ {A : Type 0} (ms : Members A) where
  abbrev pub construct : UnionField → Option A → Object A → After (Object A)
  construct f none u = thrown u
  construct f (some v) u = done (record u { live = some (f.fieldno, v) })

  abbrev pub over_none : Option (ℕ × A) → After (Object A) → After (Object A)
  over_none none r = r
  over_none (some m) r = misused

  -- `field_constructor` on an object: `F{}`.
  unfoldable pub field_constructor : UnionField → Object A → After (Object A)
  field_constructor f u = over_none u.live (construct f (ms.init f) u)

  -- What is done with the member `f`, if that is the one alive.
  abbrev pub with_live : {B : Type 0} → UnionField → Option (ℕ × A) → (A → After B) → After B
  with_live f none k = misused
  with_live f (some (n, v)) k = if n == f.fieldno then k v else misused

  -- `field_constructor` on an object and the source of a copy.
  unfoldable pub field_copier : Object A → UnionField → Object A → After (Object A)
  field_copier source f u =
      with_live f source.live
        (λ v. over_none u.live (construct f (if ms.copy v then some v else none) u))

  unfoldable pub field_destructor : UnionField → Object A → After (Object A)
  field_destructor f u = with_live f u.live (λ v. done (record u { live = none }))

  abbrev pub assign_member : UnionField → A → Option A → Object A → After (Object A)
  assign_member f v none u = done (record u { live = some (f.fieldno, v) })
  assign_member f v (some left) u = thrown (record u { live = some (f.fieldno, left) })

  unfoldable pub field_assigner : Object A → UnionField → Object A → After (Object A)
  field_assigner source f u =
      with_live f u.live
        (λ old. with_live f source.live (λ v. assign_member f v (ms.assign old v) u))

  -- `_xdr_with_mem_ptr` with such a function object; nothing is done with a void arm.
  abbrev pub visit_field :
      (UnionField → Object A → After (Object A)) → Option UnionField → Object A → After (Object A)
  visit_field k none u = done u
  visit_field k (some f) u = elim f.decl [ none ↦ done u | some t ↦ k f u ]

  module _ (fs : List UnionField) where
    unfoldable pub with_member :
        (UnionField → Object A → After (Object A)) → ℕ → Object A → After (Object A)
    with_member k which u = visit_field k (with_mem_ptr fs which) u

    abbrev pub set_tag : ℕ → Object A → After (Object A)
    set_tag which u = done (record u { tag = which })

    -- `_xdr_discriminant(which, validate)`
    unfoldable pub set_discriminant : ℕ → Bool → Object A → After (Object A)
    unfolding with_member field_constructor field_destructor
    set_discriminant which validate u =
        if is_minus_one (field_number fs which) && validate
        then thrown u
        else if not (equal_number (field_number fs which) (field_number fs u.tag))
        then and_then (with_member field_destructor u.tag u)
            (λ d. with_member field_constructor which (record d { tag = which }))
        else set_tag which u

    -- The constructor from a tag.
    unfoldable pub new_union : ℕ → After (Object A)
    unfolding with_member field_constructor
    new_union which = with_member field_constructor which (record { tag = which; live = none })

    -- The constructors that copy or move.
    unfoldable pub copy_union : Object A → After (Object A)
    unfolding with_member field_copier
    copy_union source =
        with_member (field_copier source) source.tag (record { tag = source.tag; live = none })

    unfoldable pub destroy_union : Object A → After (Object A)
    unfolding with_member field_destructor
    destroy_union u = with_member field_destructor u.tag u

    -- The assignments; `max_case` is `std::numeric_limits<_xdr_case_type>::max()`.
    unfoldable pub assign_union : ℕ → Object A → Object A → After (Object A)
    unfolding with_member field_assigner field_copier field_destructor
    assign_union max_case source u =
        and_then
          (if equal_number (field_number fs u.tag) (field_number fs source.tag)
            then with_member (field_assigner source) u.tag u
            else and_then (with_member field_destructor u.tag u)
                (λ d. with_member (field_copier source) source.tag (record d { tag = max_case })))
          (set_tag source.tag)

    -- The accessor of the member `f`; `none` is an `xdr_wrong_union`.
    unfoldable pub get_member : UnionField → Object A → After (Option A)
    get_member f u =
        if equal_number (field_number fs u.tag) (some f.fieldno)
        then with_live f u.live (λ v. done (some v))
        else thrown none
