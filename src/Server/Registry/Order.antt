-- ===== src/Server/Registry/Order.antt =====
-- The registry as an ordered map.
use xdrpp.Common.{
  ℕ, ◌≤◌, ◌<◌, ◌≡◌, ◌≢◌, refl, sym, subst, ◌∙◌, arith, some, List, [], ◌∷◌, Bool-cases, inl, inr,
  ltb, ◌==◌, ltb→lt, ltb→le, if_true, if_false, ==_iff, ==_refl, ne→==, ne_of_==,
}
use xdrpp.Common.Result.{ok}
use xdrpp.Server.Registry.{lookup, assign, first_key, last_key}

module _ {A : Type 0} where
  -- Every key is above `k`.
  abbrev pub Above : ℕ → List (ℕ × A) → Type 0
  Above k [] = Unit
  Above k ((j, a) ∷ m) = (k < j) × Above k m

  -- The keys ascend.
  abbrev pub IsSorted : List (ℕ × A) → Type 0
  IsSorted [] = Unit
  IsSorted ((k, a) ∷ m) = Above k m × IsSorted m

  Above-lower : (i k : ℕ) (m : List (ℕ × A)) → i < k → Above k m → Above i m
  Above-lower i k [] h a = tt
  Above-lower i k ((j, b) ∷ m) h (lt, a) = (omega arith, Above-lower i k m h a)

  Above-assign : (i k : ℕ) (a : A) (m : List (ℕ × A)) → i < k → Above i m → Above i (assign k a m)
  unfolding assign
  Above-assign i k a [] h u = (h, tt)
  Above-assign i k a ((j, b) ∷ m) h (lt, u) = elim (Bool-cases (ltb k j)) [
    | inl before ↦ rw before (h, (lt, u))
    | inr after ↦ elim (Bool-cases (k == j)) [
      | inl same ↦ rw (after, same) (h, u)
      | inr other ↦ rw (after, other) (lt, Above-assign i k a m h u)
    ]
  ]

  pub assign-IsSorted : (k : ℕ) (a : A) (m : List (ℕ × A)) → IsSorted m → IsSorted (assign k a m)
  unfolding assign
  assign-IsSorted k a [] s = (tt, tt)
  assign-IsSorted k a ((j, b) ∷ m) (above, s) = elim (Bool-cases (ltb k j)) [
    | inl before ↦
        let h : k < j = ltb→lt k j before in rw before ((h, Above-lower k j m h above), (above, s))
    | inr after ↦ elim (Bool-cases (k == j)) [
      | inl same ↦
          rw (after, same) (subst (λ (i : ℕ). Above i m) (sym ((==_iff k j).0 same)) above, s)
      | inr other ↦
          let h : j < k = omega (arith, ltb→le k j after, ne_of_== k j other) in
          rw (after, other) (Above-assign j k a m h above, assign-IsSorted k a m s)
    ]
  ]

  -- What was assigned is found, and other keys are as before.
  pub lookup-assign : (k : ℕ) (a : A) (m : List (ℕ × A)) → lookup k (assign k a m) ≡ some a
  unfolding lookup assign
  lookup-assign k a [] = if_true _ _ (==_refl k)
  lookup-assign k a ((j, b) ∷ m) = elim (Bool-cases (ltb k j)) [
    | inl before ↦ rw before (if_true _ _ (==_refl k))
    | inr after ↦ elim (Bool-cases (k == j)) [
      | inl same ↦ rw (after, same) (if_true _ _ (==_refl k))
      | inr other ↦ rw (after, other) (if_false _ _ other ∙ lookup-assign k a m)
    ]
  ]

  pub lookup-assign_other :
      (i k : ℕ) (a : A) (m : List (ℕ × A)) → i ≢ k → lookup i (assign k a m) ≡ lookup i m
  unfolding lookup assign
  lookup-assign_other i k a [] n = if_false _ _ (ne→== i k n)
  lookup-assign_other i k a ((j, b) ∷ m) n = elim (Bool-cases (ltb k j)) [
    | inl before ↦ rw before (if_false _ _ (ne→== i k n))
    | inr after ↦ elim (Bool-cases (k == j)) [
      | inl same ↦
          rw (after, same)
            (if_false _ _ (ne→== i k n)
              ∙ sym (if_false _ _ (ne→== i j (λ e. n (e ∙ sym ((==_iff k j).0 same))))))
      | inr other ↦
          rw (after, other)
            (elim (Bool-cases (i == j)) [
              | inl here ↦ if_true _ _ here ∙ sym (if_true _ _ here)
              | inr later ↦
                  if_false _ _ later ∙ lookup-assign_other i k a m n ∙ sym (if_false _ _ later)
            ])
    ]
  ]

  last_key_ge :
      (k j : ℕ) (b : A) (m : List (ℕ × A))
      → k ≤ j
      → Above j m
      → IsSorted m
      → (high : ℕ) × (last_key ((j, b) ∷ m) ≡ ok high) × (k ≤ high)
  unfolding last_key
  last_key_ge k j b [] h u s = (j, refl, h)
  last_key_ge k j b ((i, a) ∷ m) h (lt, u) (above, s) = last_key_ge k i a m (omega arith) above s

  lookup-Above : (k j : ℕ) (a : A) (m : List (ℕ × A)) → Above j m → lookup k m ≡ some a → j < k
  unfolding lookup
  lookup-Above k j a [] u e = absurd (cc)
  lookup-Above k j a ((i, b) ∷ m) (lt, u) e = elim (Bool-cases (k == i)) [
    | inl same ↦ omega (arith, (==_iff k i).0 same)
    | inr other ↦ lookup-Above k j a m u (sym (if_false _ _ other) ∙ e)
  ]

  lookup_last :
      (k j : ℕ) (b a : A) (m : List (ℕ × A))
      → IsSorted m
      → lookup k m ≡ some a
      → (high : ℕ) × (last_key ((j, b) ∷ m) ≡ ok high) × (k ≤ high)
  unfolding lookup last_key
  lookup_last k j b a [] s e = absurd (cc)
  lookup_last k j b a ((i, c) ∷ m) (above, s) e = elim (Bool-cases (k == i)) [
    | inl same ↦ last_key_ge k i c m (omega (arith, (==_iff k i).0 same)) above s
    | inr other ↦ lookup_last k i c a m s (sym (if_false _ _ other) ∙ e)
  ]

  -- The first and the last key of an ascending map bound every key that is in it.
  pub lookup_bounds :
      (k : ℕ) (a : A) (m : List (ℕ × A))
      → IsSorted m
      → lookup k m ≡ some a
      → (low : ℕ) × (high : ℕ) × (first_key m ≡ ok low)
        × (last_key m ≡ ok high)
        × (low ≤ k)
        × (k ≤ high)
  unfolding lookup first_key
  lookup_bounds k a [] s e = absurd (cc)
  lookup_bounds k a ((j, b) ∷ m) (above, s) e = elim (Bool-cases (k == j)) [
    | inl same ↦
        let k≡j : k ≡ j = (==_iff k j).0 same in
        let (high, l, h) = last_key_ge k j b m (omega (arith, k≡j)) above s in
        (j, high, refl, l, omega (arith, k≡j), h)
    | inr other ↦
        let later : lookup k m ≡ some a = sym (if_false _ _ other) ∙ e in
        let (high, l, h) = lookup_last k j b a m s later in
        let lt : j < k = lookup-Above k j a m above later in
        (j, high, refl, l, omega (arith, lt), h)
  ]

  -- Every key is below `n`.
  abbrev pub Below : ℕ → List (ℕ × A) → Type 0
  Below n [] = Unit
  Below n ((j, a) ∷ m) = (j < n) × Below n m

  pub assign-Below :
      (n k : ℕ) (a : A) (m : List (ℕ × A)) → k < n → Below n m → Below n (assign k a m)
  unfolding assign
  assign-Below n k a [] h u = (h, tt)
  assign-Below n k a ((j, b) ∷ m) h (lt, u) = elim (Bool-cases (ltb k j)) [
    | inl before ↦ rw before (h, (lt, u))
    | inr after ↦ elim (Bool-cases (k == j)) [
      | inl same ↦ rw (after, same) (h, u)
      | inr other ↦ rw (after, other) (lt, assign-Below n k a m h u)
    ]
  ]

  pub last_key-Below : (n k : ℕ) (m : List (ℕ × A)) → Below n m → last_key m ≡ ok k → k < n
  unfolding last_key
  last_key-Below n k [] u e = absurd (cc)
  last_key-Below n k ((j, a) ∷ []) (lt, u) e = let same : j ≡ k = cc in omega (arith, same, lt)
  last_key-Below n k ((j, a) ∷ e' ∷ m) (lt, u) e = last_key-Below n k (e' ∷ m) u e
