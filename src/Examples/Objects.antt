-- ===== src/Examples/Objects.antt =====
-- Objects of a union of a number on 1, nothing on 0 and a string on 2.
use xdrpp.Common.{
  ℕ, ◌≡◌, refl, sym, ap, get_some, arith, Bool, true, false, none, some, List, [], ◌∷◌, ◌==◌,
  if◌then◌else◌,
}
use xdrpp.Types.{UnionField, int32, xstring, labelled_field, field_number}
use xdrpp.Types.Union.{IsSwitch}
use xdrpp.Types.Object.{Object, Members, thrown, misused, destroy_union, assign_union}
use xdrpp.Types.Object.Sound.{IsUnion}
use xdrpp.Types.Object.Changes.{Ends, assign_union-destroy_union}
use xdrpp.Types.Object.Lifetime.{Use, discriminate, assign_from, access, lifetime, lifetime-Ends}

abbrev number_field : UnionField
number_field = record { cases = 1 ∷ []; has_default = false; fieldno = 1; decl = some int32 }

abbrev fields : List UnionField
fields =
    number_field
    ∷ record { cases = 0 ∷ []; has_default = false; fieldno = 0; decl = none }
    ∷ record { cases = 2 ∷ []; has_default = false; fieldno = 2; decl = some (xstring 8) }
    ∷ []

fields-IsUnion : IsUnion fields
unfolding IsSwitch labelled_field
fields-IsUnion = (
  (
    λ which h. ground arith,
    λ h. absurd (cc),
    (λ which h. ground arith, λ h. absurd (cc), (λ which h. refl, λ h. refl, tt)),
  ),
  ((λ e. absurd (cc)), (refl, ((λ e. absurd (cc)), tt))),
)

-- Values are numbers; 13 cannot be copied.
abbrev members : Members ℕ
members = record {
  init = λ f. some 0;
  copy = λ v. if v == 13 then false else true;
  assign = λ old v. if v == 13 then some old else none;
}

abbrev copied : Members ℕ
copied = record { init = λ f. some 0; copy = λ v. true; assign = λ old v. none }

abbrev number : Object ℕ
number = record { tag = 1; live = some (1, 7) }

abbrev text : Object ℕ
text = record { tag = 2; live = some (2, 13) }

abbrev uses : List (Use ℕ)
uses =
    discriminate 1 true
    ∷ assign_from text
    ∷ access number_field
    ∷ assign_from number
    ∷ access number_field
    ∷ []

lifetime-Ends_example : Ends (λ d. d.live ≡ none) (lifetime members fields 2147483647 0 uses)
unfolding field_number
lifetime-Ends_example =
    lifetime-Ends members fields 2147483647 0 uses fields-IsUnion (λ f e. absurd (cc)) refl
      (tt, (refl, (omega arith, (refl, (omega arith, tt)))))

-- A union of a number on 1 and a string on everything else, and its string.
abbrev default_fields : List UnionField
default_fields =
    number_field
    ∷ record { cases = []; has_default = true; fieldno = 2; decl = some (xstring 8) }
    ∷ []

default_fields-IsUnion : IsUnion default_fields
unfolding IsSwitch labelled_field
default_fields-IsUnion = (
  ((λ which h. refl), (λ h. absurd (cc)), ((λ which h. refl), (λ h. refl), tt)),
  ((λ e. absurd (cc)), ((λ e. absurd (cc)), tt)),
)

assign_union-destroy_union_example :
    (d : Object ℕ) × (assign_union members default_fields 2147483647 text number ≡ thrown d)
    × (destroy_union members default_fields d ≡ misused)
unfolding field_number
assign_union-destroy_union_example =
    assign_union-destroy_union members default_fields 2147483647 text number default_fields-IsUnion
      refl refl refl (λ e. absurd (cc)) thirteen (λ e. absurd (cc))
  where
    copies : ℕ × ℕ → Bool
    copies m = members.copy m.1

    thirteen : (n v : ℕ) → text.live ≡ some (n, v) → members.copy v ≡ false
    thirteen n v e = sym (ap copies (get_some (n, v) e))
