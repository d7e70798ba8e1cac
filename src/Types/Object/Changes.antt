-- ===== src/Types/Object/Changes.antt =====
-- What the operations of a union leave in its object.
use xdrpp.Common.{
  ℕ, ◌≡◌, ◌≢◌, refl, sym, ap, subst, ◌∙◌, Bool, true, false, not, ◌&&◌, ◌⊎◌, inl, inr, Option, none,
  some, List, Bool-cases, ==_iff, if_true, if_false, ne→==,
}
use xdrpp.Types.{UnionField, field_number}
use xdrpp.Types.Object.{
  Object, After, done, thrown, misused, and_then, equal_number, is_minus_one, Members, with_live,
  with_member, set_tag, field_constructor, field_copier, field_destructor, set_discriminant,
  destroy_union, assign_union, get_member,
}
use xdrpp.Types.Object.Sound.{IsUnion, member_of, IsSound, alive-some, visited}
use xdrpp.Types.Object.Steps.{
  with_live-same, destructor_lem, copier-cases, copier_throw, constructor-cases, assigner-cases,
}

equal_number-eq : (a b : Option ℕ) → equal_number a b ≡ true → a ≡ b
equal_number-eq none none h = refl
equal_number-eq none (some n) h = cc
equal_number-eq (some m) none h = cc
equal_number-eq (some m) (some n) h = ap some ((==_iff m n).0 h)

clash : (b : Bool) → b ≡ true → b ≡ false → ⊥
clash b t f = cc

-- A call that ends, with a value or an exception, and leaves `P`.
pub data Ends {B : Type 0} (P : B → Type 0) : After B → Type 0 where
  completes : {b : B} → P b → Ends P (done b)
  raises : {b : B} → P b → Ends P (thrown b)

module _ {A : Type 0} (ms : Members A) (fs : List UnionField) where
  -- Members can be made anew.
  abbrev pub AreMade : Type 0
  AreMade = (f : UnionField) → ms.init f ≢ none

  pub constructor_lem :
      (which : ℕ)
      → IsUnion fs
      → AreMade
      → (u : Object A) × (with_member ms fs
            (field_constructor ms)
            which
            (record { tag = which; live = none })
          ≡ done u)
        × IsSound fs u
  constructor_lem which h i = elim (constructor-cases ms fs which which h) [
    | inl (l, e, a) ↦ (record { tag = which; live = l }, e, a)
    | inr (e, f, n, m) ↦ absurd (i f n)
  ]

  constructor-Ends :
      (which : ℕ)
      → IsUnion fs
      → AreMade
      → Ends
          (IsSound fs)
          (with_member ms fs (field_constructor ms) which (record { tag = which; live = none }))
  constructor-Ends which h i =
      let (u, e, s) = constructor_lem which h i in subst (Ends (IsSound fs)) (sym e) (completes s)

  -- Another discriminant than before.
  set_discriminant_other :
      (which : ℕ) (validate : Bool) (u : Object A)
      → IsUnion fs
      → IsSound fs u
      → (is_minus_one (field_number fs which) && validate) ≡ false
      → equal_number (field_number fs which) (field_number fs u.tag) ≡ false
      → set_discriminant ms fs which validate u
        ≡ with_member ms fs (field_constructor ms) which (record { tag = which; live = none })
  unfolding set_discriminant
  set_discriminant_other which validate u h s b e =
      if_false _ _ b
      ∙ if_true _ _ (ap not e)
      ∙ ap
          (λ r.
            and_then r
              (λ d. with_member ms fs (field_constructor ms) which (record d { tag = which })))
          (destructor_lem ms fs u h s)

  pub set_discriminant-Ends :
      (which : ℕ) (validate : Bool) (u : Object A)
      → IsUnion fs
      → AreMade
      → IsSound fs u
      → Ends (IsSound fs) (set_discriminant ms fs which validate u)
  unfolding set_discriminant
  set_discriminant-Ends which validate u h i s =
      elim (Bool-cases (is_minus_one (field_number fs which) && validate)) [
        | inl b ↦ subst (Ends (IsSound fs)) (sym (if_true _ _ b)) (raises s)
        | inr b ↦ elim (Bool-cases (equal_number (field_number fs which) (field_number fs u.tag))) [
          | inl e ↦ subst (Ends (IsSound fs)) (sym (if_false _ _ b ∙ if_false _ _ (ap not e))) (
              completes (
                s
                ∙ ap member_of
                    (sym (equal_number-eq (field_number fs which) (field_number fs u.tag) e))))
          | inr e ↦
              subst (Ends (IsSound fs)) (sym (set_discriminant_other which validate u h s b e))
                (constructor-Ends which h i)
        ]
      ]

  -- Members can be copied and assigned.
  abbrev pub AreCopied : Type 0
  AreCopied = ((v : A) → ms.copy v ≡ true) × ((old v : A) → ms.assign old v ≡ none)

  -- The object that an assignment leaves where it throws.
  abbrev IsLeft : ℕ → After (Object A) → Type 0
  IsLeft max_case r =
      (u : Object A) × (r ≡ thrown u)
      × (member_of (field_number fs max_case) ≡ none → IsSound fs u)
      × ¬ AreCopied

  assign_union-cases :
      (max_case : ℕ) (source u : Object A)
      → IsUnion fs
      → IsSound fs source
      → IsSound fs u
      → (assign_union ms fs max_case source u ≡ done source)
        ⊎ IsLeft max_case (assign_union ms fs max_case source u)
  unfolding assign_union
  assign_union-cases max_case source u h s su =
      elim (Bool-cases (equal_number (field_number fs u.tag) (field_number fs source.tag))) [
        | inl e ↦
            let n = equal_number-eq (field_number fs u.tag) (field_number fs source.tag) e in
            elim (assigner-cases ms fs source u h s su n) [
              | inl a ↦ inl (ap tagged (if_true _ _ e ∙ a))
              | inr (l, a, k, old, v, t) ↦
                  inr (_, ap tagged (if_true _ _ e ∙ a), λ m. k, λ c. t (c.1 old v))
            ]
        | inr e ↦
            let ended =
              if_false _ _ e ∙ ap (λ r. and_then r copied) (destructor_lem ms fs u h su) in
            elim (copier-cases ms fs source max_case h s) [
              | inl a ↦ inl (ap tagged (ended ∙ a))
              | inr (a, v, t) ↦
                  inr (_, ap tagged (ended ∙ a), λ m. sym m, λ c. clash (ms.copy v) (c.0 v) t)
            ]
      ]
    where
      tagged : After (Object A) → After (Object A)
      tagged r = and_then r (set_tag ms fs source.tag)

      copied : Object A → After (Object A)
      copied d = with_member ms fs (field_copier ms source) source.tag (record d { tag = max_case })

  -- Where the members can be copied, an assignment makes the object equal to its source, whatever
  -- member was alive in it before.
  pub assign_union_lem :
      (max_case : ℕ) (source u : Object A)
      → IsUnion fs
      → AreCopied
      → IsSound fs source
      → IsSound fs u
      → assign_union ms fs max_case source u ≡ done source
  assign_union_lem max_case source u h c s su = elim (assign_union-cases max_case source u h s su) [
    | inl e ↦ e
    | inr (l, e, k, t) ↦ absurd (t c)
  ]

  pub assign_union-Ends :
      (max_case : ℕ) (source u : Object A)
      → IsUnion fs
      → member_of (field_number fs max_case) ≡ none
      → IsSound fs source
      → IsSound fs u
      → Ends (IsSound fs) (assign_union ms fs max_case source u)
  assign_union-Ends max_case source u h m s su =
      elim (assign_union-cases max_case source u h s su) [
        | inl e ↦ subst (Ends (IsSound fs)) (sym e) (completes s)
        | inr (l, e, k, t) ↦ subst (Ends (IsSound fs)) (sym e) (raises (k m))
      ]

  -- Where the copy of the source's member throws, an assignment that changes the member leaves the
  -- tag at the largest number of its type and no member alive. If that number selects a member, as in
  -- a union with a default arm that is not void, then the destructor of the union ends that member,
  -- which is not alive.
  pub assign_union-destroy_union :
      (max_case : ℕ) (source u : Object A)
      → IsUnion fs
      → IsSound fs source
      → IsSound fs u
      → equal_number (field_number fs u.tag) (field_number fs source.tag) ≡ false
      → source.live ≢ none
      → ((n : ℕ) (v : A) → source.live ≡ some (n, v) → ms.copy v ≡ false)
      → member_of (field_number fs max_case) ≢ none
      → (d : Object A) × (assign_union ms fs max_case source u ≡ thrown d)
        × (destroy_union ms fs d ≡ misused)
  unfolding assign_union destroy_union field_destructor
  assign_union-destroy_union max_case source u h s su e l c m = (
    left,
    ap (λ r. and_then r (set_tag ms fs source.tag))
        (if_false _ _ e
          ∙ ap
              (λ r. and_then r (λ d.
                with_member ms fs (field_copier ms source) source.tag
                  (record d { tag = max_case })))
              (destructor_lem ms fs u h su)
          ∙ copier_throw ms fs source max_case h s l c),
    elim (visited ms fs max_case h) [
      | inl (z, k) ↦ absurd (m z)
      | inr (g, z, k) ↦ k (field_destructor ms) left
    ],
  )
    where
      left : Object A
      left = record { tag = max_case; live = none }

  -- An accessor reads the member of the tag or throws.
  pub get_member-Ends :
      (f : UnionField) (u : Object A)
      → f.fieldno ≢ 0
      → IsSound fs u
      → Ends (λ o. Unit) (get_member ms fs f u)
  unfolding get_member
  get_member-Ends f u n s =
      elim (Bool-cases (equal_number (field_number fs u.tag) (some f.fieldno))) [
        | inl e ↦
            let k = equal_number-eq (field_number fs u.tag) (some f.fieldno) e in
            let (v, l) =
              alive-some u.live f.fieldno
                (s ∙ ap member_of k ∙ if_false _ _ (ne→== f.fieldno 0 n)) in
            subst (Ends (λ o. Unit))
              (sym (
                if_true _ _ e
                ∙ ap (λ l. with_live ms f l (λ v. done (some v))) l
                ∙ with_live-same ms f v (λ v. done (some v))))
              (completes {b = some v} tt)
        | inr e ↦ subst (Ends (λ o. Unit)) (sym (if_false _ _ e)) (raises tt)
      ]
