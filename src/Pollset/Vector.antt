-- ===== src/Pollset/Vector.antt =====
-- `std::vector` as a list: `back`, `pop_back` and the assignment of an element.
use xdrpp.Common.{
  ℕ, zero, suc, ◌-◌, ◌<◌, ◌≡◌, ◌≢◌, refl, ap, arith, Option, none, some, List, [], ◌∷◌, ◌++◌,
  length, get_elem?,
}

module _ {ℓ} {A : Type ℓ} where
  unfoldable pub set_at : ℕ → A → List A → List A
  set_at i a [] = []
  set_at zero a (x ∷ xs) = a ∷ xs
  set_at (suc i) a (x ∷ xs) = x ∷ set_at i a xs

  unfoldable pub back : List A → Option A
  back [] = none
  back (x ∷ []) = some x
  back (x ∷ y ∷ xs) = back (y ∷ xs)

  unfoldable pub pop_back : List A → List A
  pop_back [] = []
  pop_back (x ∷ []) = []
  pop_back (x ∷ y ∷ xs) = x ∷ pop_back (y ∷ xs)

module _ {ℓ} {A : Type ℓ} where
  pub length-set_at : (i : ℕ) (a : A) (xs : List A) → length (set_at i a xs) ≡ length xs
  unfolding set_at
  length-set_at i a [] = refl
  length-set_at zero a (x ∷ xs) = refl
  length-set_at (suc i) a (x ∷ xs) = ap suc (length-set_at i a xs)

  pub length-pop_back : (xs : List A) → length (pop_back xs) ≡ length xs - 1
  unfolding pop_back
  length-pop_back [] = refl
  length-pop_back (x ∷ []) = refl
  length-pop_back (x ∷ y ∷ xs) = omega (arith, length-pop_back (y ∷ xs))

  pub get_set_same :
      (i : ℕ) (a : A) (xs : List A) → i < length xs → get_elem? (set_at i a xs) i ≡ some a
  unfolding set_at
  get_set_same i a [] h = absurd (omega arith)
  get_set_same zero a (x ∷ xs) h = refl
  get_set_same (suc i) a (x ∷ xs) h = get_set_same i a xs (omega arith)

  pub get_set_other :
      (i j : ℕ) (a : A) (xs : List A) → j ≢ i → get_elem? (set_at i a xs) j ≡ get_elem? xs j
  unfolding set_at
  get_set_other i j a [] n = refl
  get_set_other zero zero a (x ∷ xs) n = absurd (n refl)
  get_set_other zero (suc j) a (x ∷ xs) n = refl
  get_set_other (suc i) zero a (x ∷ xs) n = refl
  get_set_other (suc i) (suc j) a (x ∷ xs) n = get_set_other i j a xs (λ e. n (ap suc e))

  pub get_pop :
      (j : ℕ) (xs : List A) → suc j < length xs → get_elem? (pop_back xs) j ≡ get_elem? xs j
  unfolding pop_back
  get_pop j [] h = absurd (omega arith)
  get_pop j (x ∷ []) h = absurd (omega arith)
  get_pop zero (x ∷ y ∷ xs) h = refl
  get_pop (suc j) (x ∷ y ∷ xs) h = get_pop j (y ∷ xs) (omega arith)

  pub get_in_range : (j : ℕ) (xs : List A) (a : A) → get_elem? xs j ≡ some a → j < length xs
  get_in_range j [] a e = absurd (cc)
  get_in_range zero (x ∷ xs) a e = omega arith
  get_in_range (suc j) (x ∷ xs) a e = omega (arith, get_in_range j xs a e)

  pub get_defined : (j : ℕ) (xs : List A) → j < length xs → (a : A) × (get_elem? xs j ≡ some a)
  get_defined j [] h = absurd (omega arith)
  get_defined zero (x ∷ xs) h = (x, refl)
  get_defined (suc j) (x ∷ xs) h = get_defined j xs (omega arith)

  pub back-get : (n : ℕ) (xs : List A) → length xs ≡ suc n → back xs ≡ get_elem? xs n
  unfolding back
  back-get n [] e = absurd (omega arith)
  back-get zero (x ∷ []) e = refl
  back-get (suc n) (x ∷ []) e = absurd (omega arith)
  back-get zero (x ∷ y ∷ xs) e = absurd (omega arith)
  back-get (suc n) (x ∷ y ∷ xs) e = back-get n (y ∷ xs) (omega arith)

  pub get_append_left :
      (j : ℕ) (xs ys : List A) → j < length xs → get_elem? (xs ++ ys) j ≡ get_elem? xs j
  get_append_left j [] ys h = absurd (omega arith)
  get_append_left zero (x ∷ xs) ys h = refl
  get_append_left (suc j) (x ∷ xs) ys h = get_append_left j xs ys (omega arith)

  pub get_append_end : (xs : List A) (a : A) → get_elem? (xs ++ (a ∷ [])) (length xs) ≡ some a
  get_append_end [] a = refl
  get_append_end (x ∷ xs) a = get_append_end xs a
