-- ===== src/Types/Object/Steps.antt =====
-- The function objects that make, copy, assign and end the member of a tag.
use xdrpp.Common.{
  ℕ, ◌≡◌, ◌≢◌, refl, sym, ap, ◌∙◌, Bool, false, ◌⊎◌, inl, inr, Option, none, some, List, Bool-cases,
  Option-cases, ==_iff, if_true, if◌then◌else◌,
}
use xdrpp.Types.{UnionField, field_number}
use xdrpp.Types.Object.{
  Object, After, done, thrown, Members, construct, field_constructor, field_copier,
  field_destructor, field_assigner, assign_member, with_live, with_member,
}
use xdrpp.Types.Object.Sound.{IsUnion, member_of, alive, IsSound, alive-none, alive-some, visited}

module _ {A : Type 0} (ms : Members A) where
  pub with_live-same :
      {B : Type 0} (f : UnionField) (v : A) (k : A → After B)
      → with_live ms f (some (f.fieldno, v)) k ≡ k v
  with_live-same f v k = if_true _ _ ((==_iff f.fieldno f.fieldno).1 refl)

  -- The end of the member of the tag.
  pub destructor_lem :
      (fs : List UnionField) (u : Object A)
      → IsUnion fs
      → IsSound fs u
      → with_member ms fs (field_destructor ms) u.tag u ≡ done (record u { live = none })
  unfolding field_destructor
  destructor_lem fs u h s = elim (visited ms fs u.tag h) [
    | inl (e, k) ↦
        k (field_destructor ms) u
        ∙ ap (λ l. done (record u { live = l })) (alive-none u.live (s ∙ e))
    | inr (f, e, k) ↦
        let (v, l) = alive-some u.live f.fieldno (s ∙ e) in
        k (field_destructor ms) u
        ∙ ap (λ l. with_live ms f l (λ v. done (record u { live = none }))) l
        ∙ with_live-same f v (λ v. done (record u { live = none }))
  ]

  -- A member that is copied from a source with the same tag, or is not alive where that throws.
  pub copier-cases :
      (fs : List UnionField) (source : Object A) (tag : ℕ)
      → IsUnion fs
      → IsSound fs source
      → (with_member ms fs (field_copier ms source) source.tag (record { tag = tag; live = none })
          ≡ done (record { tag = tag; live = source.live }))
        ⊎ ((with_member ms fs
                (field_copier ms source)
                source.tag
                (record { tag = tag; live = none })
              ≡ thrown (record { tag = tag; live = none }))
            × (v : A) × (ms.copy v ≡ false))
  unfolding field_copier
  copier-cases fs source tag h s = elim (visited ms fs source.tag h) [
    | inl (e, k) ↦ inl (
        k (field_copier ms source) _
        ∙ ap (λ l. done (record { tag = tag; live = l })) (sym (alive-none source.live (s ∙ e))))
    | inr (f, e, k) ↦
        let (v, l) = alive-some source.live f.fieldno (s ∙ e) in
        let found =
          k (field_copier ms source) _
          ∙ ap (λ l. with_live ms f l (λ v. construct_copy f v (ms.copy v))) l
          ∙ with_live-same f v (λ v. construct_copy f v (ms.copy v)) in
        elim (Bool-cases (ms.copy v)) [
          | inl c ↦ inl (
              found
              ∙ ap (construct_copy f v) c
              ∙ ap (λ l. done (record { tag = tag; live = l })) (sym l))
          | inr c ↦ inr (found ∙ ap (construct_copy f v) c, v, c)
        ]
  ]
    where
      construct_copy : UnionField → A → Bool → After (Object A)
      construct_copy f v b =
          construct ms f (if b then some v else none) (record { tag = tag; live = none })

  -- The member of the source cannot be copied.
  pub copier_throw :
      (fs : List UnionField) (source : Object A) (tag : ℕ)
      → IsUnion fs
      → IsSound fs source
      → source.live ≢ none
      → ((n : ℕ) (v : A) → source.live ≡ some (n, v) → ms.copy v ≡ false)
      → with_member ms fs (field_copier ms source) source.tag (record { tag = tag; live = none })
        ≡ thrown (record { tag = tag; live = none })
  unfolding field_copier
  copier_throw fs source tag h s l c = elim (visited ms fs source.tag h) [
    | inl (e, k) ↦ absurd (l (alive-none source.live (s ∙ e)))
    | inr (f, e, k) ↦
        let (v, a) = alive-some source.live f.fieldno (s ∙ e) in
        k (field_copier ms source) _
        ∙ ap (λ l. with_live ms f l (λ v. construct_copy f v (ms.copy v))) a
        ∙ with_live-same f v (λ v. construct_copy f v (ms.copy v))
        ∙ ap (construct_copy f v) (c f.fieldno v a)
  ]
    where
      construct_copy : UnionField → A → Bool → After (Object A)
      construct_copy f v b =
          construct ms f (if b then some v else none) (record { tag = tag; live = none })

  -- A member that is made anew, or is not alive where that throws.
  pub constructor-cases :
      (fs : List UnionField) (which tag : ℕ)
      → IsUnion fs
      → ((l : Option (ℕ × A)) × (with_member ms fs
              (field_constructor ms)
              which
              (record { tag = tag; live = none })
            ≡ done (record { tag = tag; live = l }))
          × (alive l ≡ member_of (field_number fs which)))
        ⊎ ((with_member ms fs (field_constructor ms) which (record { tag = tag; live = none })
              ≡ thrown (record { tag = tag; live = none }))
            × (f : UnionField) × (ms.init f ≡ none)
            × (member_of (field_number fs which) ≡ some f.fieldno))
  unfolding field_constructor
  constructor-cases fs which tag h = elim (visited ms fs which h) [
    | inl (e, k) ↦ inl (none, k (field_constructor ms) _, sym e)
    | inr (f, e, k) ↦ elim (Option-cases (ms.init f)) [
      | inl i ↦ inr (k (field_constructor ms) _ ∙ ap (made f) i, f, i, e)
      | inr (v, i) ↦ inl (some (f.fieldno, v), k (field_constructor ms) _ ∙ ap (made f) i, sym e)
    ]
  ]
    where
      made : UnionField → Option A → After (Object A)
      made f o = construct ms f o (record { tag = tag; live = none })

  -- An assignment to the member of the tag, which stays alive where that throws.
  pub assigner-cases :
      (fs : List UnionField) (source u : Object A)
      → IsUnion fs
      → IsSound fs source
      → IsSound fs u
      → field_number fs u.tag ≡ field_number fs source.tag
      → (with_member ms fs (field_assigner ms source) u.tag u
          ≡ done (record { tag = u.tag; live = source.live }))
        ⊎ ((l : Option (ℕ × A)) × (with_member ms fs (field_assigner ms source) u.tag u
              ≡ thrown (record { tag = u.tag; live = l }))
            × (alive l ≡ member_of (field_number fs u.tag))
            × (old v : A) × (ms.assign old v ≢ none))
  unfolding field_assigner
  assigner-cases fs source u h s su n = elim (visited ms fs u.tag h) [
    | inl (e, k) ↦ inl (
        k (field_assigner ms source) u
        ∙ ap (λ l. done (record { tag = u.tag; live = l }))
            (alive-none u.live (su ∙ e)
              ∙ sym (alive-none source.live (s ∙ ap member_of (sym n) ∙ e))))
    | inr (f, e, k) ↦
        let (old, lu) = alive-some u.live f.fieldno (su ∙ e) in
        let (v, l) = alive-some source.live f.fieldno (s ∙ ap member_of (sym n) ∙ e) in
        let found =
          k (field_assigner ms source) u
          ∙ ap (λ l. with_live ms f l (λ old. with_live ms f source.live (assigned f old))) lu
          ∙ with_live-same f old (λ old. with_live ms f source.live (assigned f old))
          ∙ ap (λ l. with_live ms f l (assigned f old)) l
          ∙ with_live-same f v (assigned f old) in
        elim (Option-cases (ms.assign old v)) [
          | inl a ↦ inl (
              found
              ∙ ap (λ o. assign_member ms f v o u) a
              ∙ ap (λ l. done (record { tag = u.tag; live = l })) (sym l))
          | inr (w, a) ↦ inr (
            some (f.fieldno, w),
            found ∙ ap (λ o. assign_member ms f v o u) a,
            sym e,
            old,
            v,
            λ c. absurd (cc),
          )
        ]
  ]
    where
      assigned : UnionField → A → A → After (Object A)
      assigned f old v = assign_member ms f v (ms.assign old v) u
