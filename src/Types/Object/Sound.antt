-- ===== src/Types/Object/Sound.antt =====
-- What is alive in the object of a union.
use xdrpp.Common.{
  ℕ, ◌≡◌, ◌≢◌, refl, ap, subst, ◌∙◌, Bool, true, false, ◌⊎◌, inl, inr, Option, none, some, List, [],
  ◌∷◌, ◌==◌, All, Option-cases, ==_iff, ne→==, if_true, if_false, if◌then◌else◌,
}
use xdrpp.Types.{
  Ty, UnionField, contains, default_field, labelled_field, field_number, with_mem_ptr,
}
use xdrpp.Types.Union.{IsSwitch, fieldno_of, field_number-with_mem_ptr}
use xdrpp.Types.Object.{Object, After, done, Members, visit_field, with_member}

-- The parser numbers void arms 0 and the others from 1.
abbrev IsNumber : Option Ty → ℕ → Type 0
IsNumber none n = n ≡ 0
IsNumber (some t) n = n ≢ 0

abbrev pub IsNumbered : UnionField → Type 0
IsNumbered f = IsNumber f.decl f.fieldno

-- The arms of a union that the parser and the C++ compiler accept.
abbrev pub IsUnion : List UnionField → Type 0
IsUnion fs = IsSwitch fs × All IsNumbered fs

-- The member that a field number stands for.
abbrev pub member_of : Option ℕ → Option ℕ
member_of none = none
member_of (some n) = if n == 0 then none else some n

abbrev pub alive : {A : Type 0} → Option (ℕ × A) → Option ℕ
alive none = none
alive (some (n, v)) = some n

-- The member of the tag is alive, and no other.
abbrev pub IsSound : {A : Type 0} → List UnionField → Object A → Type 0
IsSound fs u = alive u.live ≡ member_of (field_number fs u.tag)

pub alive-none : {A : Type 0} (l : Option (ℕ × A)) → alive l ≡ none → l ≡ none
alive-none none h = refl
alive-none (some m) h = cc

pub alive-some :
    {A : Type 0} (l : Option (ℕ × A)) (n : ℕ) → alive l ≡ some n → (v : A) × (l ≡ some (n, v))
alive-some none n h = cc
alive-some (some (m, v)) n h = (v, cc)

same_number : (n : ℕ) → (n == n) ≡ true
same_number n = (==_iff n n).1 refl

abbrev AllOption : (UnionField → Type 0) → Option UnionField → Type 0
AllOption P none = Unit
AllOption P (some f) = P f

if_AllOption :
    (P : UnionField → Type 0) (b : Bool) (x y : Option UnionField)
    → AllOption P x
    → AllOption P y
    → AllOption P (if b then x else y)
if_AllOption P true x y h k = h
if_AllOption P false x y h k = k

default_field-All :
    (P : UnionField → Type 0) (fs : List UnionField) → All P fs → AllOption P (default_field fs)
default_field-All P [] h = tt
default_field-All P (f ∷ fs) h =
    if_AllOption P f.has_default (some f) (default_field fs) h.0 (default_field-All P fs h.1)

labelled_field-All :
    (P : UnionField → Type 0) (fs : List UnionField) (which : ℕ)
    → All P fs
    → AllOption P (labelled_field fs which)
unfolding labelled_field
labelled_field-All P [] which h = tt
labelled_field-All P (f ∷ fs) which h =
    if_AllOption P (contains f.cases which) (some f) (labelled_field fs which) h.0
      (labelled_field-All P fs which h.1)

with_mem_ptr-All :
    (P : UnionField → Type 0) (fs : List UnionField) (which : ℕ)
    → All P fs
    → AllOption P (with_mem_ptr fs which)
unfolding with_mem_ptr
with_mem_ptr-All P fs which h = pick (labelled_field fs which) (labelled_field-All P fs which h)
  where
    pick :
        (l : Option UnionField)
        → AllOption P l
        → AllOption P (elim l [ some f ↦ some f | none ↦ default_field fs ])
    pick none k = default_field-All P fs h
    pick (some f) k = k

module _ {A : Type 0} (ms : Members A) where
  -- `_xdr_with_mem_ptr` visits no member, or the one that the field number stands for.
  abbrev pub IsVisit : List UnionField → ℕ → Type 0
  IsVisit fs which =
      ((member_of (field_number fs which) ≡ none)
        × ((k : UnionField → Object A → After (Object A)) (u : Object A)
            → with_member ms fs k which u ≡ done u))
      ⊎ ((f : UnionField) × (member_of (field_number fs which) ≡ some f.fieldno)
          × ((k : UnionField → Object A → After (Object A)) (u : Object A)
              → with_member ms fs k which u ≡ k f u))

  visited_arm :
      (fs : List UnionField) (which : ℕ) (o : Option UnionField)
      → with_mem_ptr fs which ≡ o
      → field_number fs which ≡ fieldno_of o
      → AllOption IsNumbered o
      → IsVisit fs which
  unfolding with_member
  visited_arm fs which none e n h = inl (ap member_of n, λ k u. ap (λ o. visit_field ms k o u) e)
  visited_arm fs which (some f) e n h = elim (Option-cases f.decl) [
    | inl d ↦ inl (
      ap member_of n ∙ if_true _ _ ((==_iff f.fieldno 0).1 (subst (λ t. IsNumber t f.fieldno) d h)),
      λ k u. ap (λ o. visit_field ms k o u) e ∙ ap (visit_decl k f u) d,
    )
    | inr (t, d) ↦ inr (
      f,
      ap member_of n ∙ if_false _ _ (ne→== f.fieldno 0 (subst (λ t. IsNumber t f.fieldno) d h)),
      λ k u. ap (λ o. visit_field ms k o u) e ∙ ap (visit_decl k f u) d,
    )
  ]
    where
      visit_decl :
          (UnionField → Object A → After (Object A))
          → UnionField
          → Object A
          → Option Ty
          → After (Object A)
      visit_decl k f u o = elim o [ none ↦ done u | some t ↦ k f u ]

  pub visited : (fs : List UnionField) (which : ℕ) → IsUnion fs → IsVisit fs which
  visited fs which (s, n) =
      visited_arm fs which (with_mem_ptr fs which) refl (field_number-with_mem_ptr fs which s)
        (with_mem_ptr-All IsNumbered fs which n)
