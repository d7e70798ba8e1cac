-- ===== src/Types/Object/Lifetime.antt =====
-- The life of the object of a union, from its construction to its end.
use xdrpp.Common.{ℕ, ◌≡◌, ◌≢◌, refl, sym, ap, subst, Bool, none, List, [], ◌∷◌, All}
use xdrpp.Types.{UnionField, field_number}
use xdrpp.Types.Object.{
  Object, After, done, thrown, misused, and_then, Members, set_discriminant, new_union,
  destroy_union, assign_union, get_member,
}
use xdrpp.Types.Object.Sound.{IsUnion, member_of, IsSound}
use xdrpp.Types.Object.Steps.{destructor_lem}
use xdrpp.Types.Object.Changes.{
  Ends, completes, raises, AreMade, constructor_lem, set_discriminant-Ends, assign_union-Ends,
  get_member-Ends,
}

-- What a program does with an object.
pub data Use (A : Type 0) : Type 0 where
  discriminate : ℕ → Bool → Use A
  assign_from : Object A → Use A
  access : UnionField → Use A

-- The program catches what is thrown and goes on.
abbrev pub after : {B C : Type 0} → After B → (B → After C) → After C
after (done u) k = k u
after (thrown u) k = k u
after misused k = misused

after-Ends :
    {B C : Type 0} {P : B → Type 0} {Q : C → Type 0} {r : After B} (k : B → After C)
    → Ends P r
    → ((b : B) → P b → Ends Q (k b))
    → Ends Q (after r k)
after-Ends k (completes {b} p) h = h b p
after-Ends k (raises {b} p) h = h b p

module _ {A : Type 0} (ms : Members A) (fs : List UnionField) (max_case : ℕ) where
  abbrev pub use_object : Use A → Object A → After (Object A)
  use_object (discriminate which validate) u = set_discriminant ms fs which validate u
  use_object (assign_from source) u = assign_union ms fs max_case source u
  use_object (access f) u = after (get_member ms fs f u) (λ o. done u)

  abbrev pub use_all : List (Use A) → Object A → After (Object A)
  use_all [] u = done u
  use_all (a ∷ uses) u = after (use_object a u) (use_all uses)

  -- An object that is made, used and destroyed.
  abbrev pub lifetime : ℕ → List (Use A) → After (Object A)
  lifetime which uses =
      and_then (new_union ms fs which) (λ u. after (use_all uses u) (destroy_union ms fs))

  -- Sources are objects of their own, and accessors those of members.
  abbrev pub IsUse : Use A → Type 0
  IsUse (discriminate which validate) = Unit
  IsUse (assign_from source) = IsSound fs source
  IsUse (access f) = f.fieldno ≢ 0

  use_object-Ends :
      (a : Use A) (u : Object A)
      → IsUnion fs
      → AreMade ms fs
      → member_of (field_number fs max_case) ≡ none
      → IsUse a
      → IsSound fs u
      → Ends (IsSound fs) (use_object a u)
  use_object-Ends (discriminate which validate) u h i m k s =
      set_discriminant-Ends ms fs which validate u h i s
  use_object-Ends (assign_from source) u h i m k s =
      assign_union-Ends ms fs max_case source u h m k s
  use_object-Ends (access f) u h i m k s =
      after-Ends (λ o. done u) (get_member-Ends ms fs f u k s) (λ o t. completes s)

  use_all-Ends :
      (uses : List (Use A)) (u : Object A)
      → IsUnion fs
      → AreMade ms fs
      → member_of (field_number fs max_case) ≡ none
      → All IsUse uses
      → IsSound fs u
      → Ends (IsSound fs) (use_all uses u)
  use_all-Ends [] u h i m k s = completes s
  use_all-Ends (a ∷ uses) u h i m k s =
      after-Ends (use_all uses) (use_object-Ends a u h i m k.0 s)
        (λ v t. use_all-Ends uses v h i m k.1 t)

  destroy_union-Ends :
      (u : Object A) → IsUnion fs → IsSound fs u → Ends (λ d. d.live ≡ none) (destroy_union ms fs u)
  unfolding destroy_union
  destroy_union-Ends u h s =
      subst (Ends (λ d. d.live ≡ none)) (sym (destructor_lem ms fs u h s)) (completes refl)

  -- An object of a union whose members can be made anew is never misused: whatever discriminants are
  -- set, objects assigned and members accessed, with exceptions on the way from copies and assignments
  -- of members, no member is read, assigned or destroyed unless it is alive, none is constructed over
  -- another, and none is alive at the end. The number that an assignment sets meanwhile must be no
  -- case of a member.
  pub lifetime-Ends :
      (which : ℕ) (uses : List (Use A))
      → IsUnion fs
      → AreMade ms fs
      → member_of (field_number fs max_case) ≡ none
      → All IsUse uses
      → Ends (λ d. d.live ≡ none) (lifetime which uses)
  unfolding new_union
  lifetime-Ends which uses h i m k =
      let (u, e, s) = constructor_lem ms fs which h i in
      subst (Ends (λ d. d.live ≡ none))
        (sym (ap (λ r. and_then r (λ u. after (use_all uses u) (destroy_union ms fs))) e))
        (after-Ends (destroy_union ms fs) (use_all-Ends uses u h i m k s)
          (λ v t. destroy_union-Ends v h t))
