-- ===== src/Types/Compare/Exact.antt =====
-- `==` is equality of values where no floating-point numbers are in them.
use xdrpp.Common.{
  ℕ, ◌≡◌, refl, ap, ap₂, subst, Bool, true, false, Option, none, some, List, [], ◌∷◌, ◌==◌, ◌↔◌,
  ◌&&◌, ==_iff, ==_refl, if◌then◌else◌,
}
use xdrpp.Types.{
  Ty, int32, float32, float64, Val, num, bytes, seq, choice, Vals, nil, cons, UnionField, Schema,
  with_mem_ptr,
}
use xdrpp.Types.Compare.{
  equal_number, equal_bytes, Parts, elements, fields, first_part, other_parts, parts, arms,
  equal_arm, equal_choice, equal, equal_parts, arm_parts,
}
use xdrpp.Types.Compare.Agree.{is_float, same_number}

abbrev pub ExactArm : Option UnionField → (Parts → Type 0) → Type 0
ExactArm none P = ⊥
ExactArm (some f) P = P (arm_parts f.decl)

abbrev pub ExactChoice : Option (Ty × List UnionField) → ℕ → (Parts → Type 0) → Type 0
ExactChoice none d P = ⊥
ExactChoice (some (tag, fs)) d P = (is_float tag ≡ false) × ExactArm (with_mem_ptr fs d) P

both_true : (b c : Bool) → (if b then c else false) ≡ true → (b ≡ true) × (c ≡ true)
both_true true c e = (refl, e)
both_true false c e = absurd (cc)

and_true : (b c : Bool) → (b && c) ≡ true → (b ≡ true) × (c ≡ true)
and_true true c e = (refl, e)
and_true false c e = absurd (cc)

if_both : (b c : Bool) → b ≡ true → c ≡ true → (if b then c else false) ≡ true
if_both b c e f = rw e f

number_refl : (t : Ty) (a : ℕ) → is_float t ≡ false → equal_number t a a ≡ true
unfolding equal_number
number_refl float32 a f = absurd (cc)
number_refl float64 a f = absurd (cc)
number_refl int32 a f = ==_refl a
number_refl t a f = ==_refl a

same_bytes : (xs ys : List ℕ) → equal_bytes xs ys ≡ true → xs ≡ ys
unfolding equal_bytes
same_bytes [] [] e = refl
same_bytes [] (y ∷ ys) e = absurd (cc)
same_bytes (x ∷ xs) [] e = absurd (cc)
same_bytes (x ∷ xs) (y ∷ ys) e =
    let (here, later) = and_true (x == y) (equal_bytes xs ys) e in
    ap₂ ◌∷◌ ((==_iff x y).0 here) (same_bytes xs ys later)

bytes_refl : (xs : List ℕ) → equal_bytes xs xs ≡ true
unfolding equal_bytes
bytes_refl [] = refl
bytes_refl (x ∷ xs) = rw (==_refl x, bytes_refl xs) refl

module _ (vs ws : Vals) (P : Parts → Type 0) (b : Parts → Bool)
    (ih : (ps : Parts) → P ps → b ps ≡ true → vs ≡ ws) where
  same_arm : (o : Option UnionField) → ExactArm o P → equal_arm o b ≡ true → vs ≡ ws
  same_arm none x e = absurd x
  same_arm (some f) x e = ih (arm_parts f.decl) x e

  same_choice :
      (o : Option (Ty × List UnionField)) (d e : ℕ)
      → ExactChoice o d P
      → equal_choice o d e b ≡ true
      → choice d vs ≡ choice e ws
  unfolding equal_choice
  same_choice none d e x h = absurd x
  same_choice (some (tag, fs)) d e (f, x) h =
      let (here, there) = both_true (equal_number tag d e) (equal_arm (with_mem_ptr fs d) b) h in
      ap₂ choice (same_number tag d e f here) (same_arm (with_mem_ptr fs d) x there)

choice_refl :
    (o : Option (Ty × List UnionField)) (d : ℕ) (P : Parts → Type 0) (b : Parts → Bool)
    → ((ps : Parts) → P ps → b ps ≡ true)
    → ExactChoice o d P
    → equal_choice o d d b ≡ true
unfolding equal_choice
choice_refl none d P b ih x = absurd x
choice_refl (some (tag, fs)) d P b ih (f, x) =
    if_both (equal_number tag d d) (equal_arm (with_mem_ptr fs d) b) (number_refl tag d f)
      (arm_refl (with_mem_ptr fs d) x)
  where
    arm_refl : (o : Option UnionField) → ExactArm o P → equal_arm o b ≡ true
    arm_refl none x = absurd x
    arm_refl (some f) x = ih (arm_parts f.decl) x

module _ (s : Schema) where
  -- A value without floating-point numbers, made of the parts that its type has.
  abbrev mutual
    pub IsExact : Ty → Val → Type 0
    IsExact t (num a) = is_float t ≡ false
    IsExact t (bytes xs) = Unit
    IsExact t (seq vs) = ExactParts (parts s t) vs
    IsExact t (choice d vs) = ExactChoice (arms s t) d (λ ps. ExactParts ps vs)

    pub ExactParts : Parts → Vals → Type 0
    ExactParts ps nil = Unit
    ExactParts ps (cons v vs) = elim (first_part ps) [
      | none ↦ ⊥
      | some t ↦ IsExact t v × ExactParts (other_parts ps) vs
    ]

  mutual
    unfolding equal equal_parts

    same_val : (t : Ty) (v w : Val) → IsExact t v → equal s t v w ≡ true → v ≡ w
    same_val t (num a) (num b) x e = ap num (same_number t a b x e)
    same_val t (bytes xs) (bytes ys) x e = ap bytes (same_bytes xs ys e)
    same_val t (seq vs) (seq ws) x e = ap seq (same_parts (parts s t) vs ws x e)
    same_val t (choice d vs) (choice f ws) x e =
        same_choice vs ws (λ ps. ExactParts ps vs) (λ ps. equal_parts s ps vs ws)
          (λ ps. same_parts ps vs ws) (arms s t) d f x e
    same_val t v w x e = absurd (cc)

    same_parts :
        (ps : Parts) (vs ws : Vals) → ExactParts ps vs → equal_parts s ps vs ws ≡ true → vs ≡ ws
    same_parts ps nil nil x e = refl
    same_parts (elements t) (cons v vs) (cons w ws) x e =
        let (here, later) = both_true (equal s t v w) (equal_parts s (elements t) vs ws) e in
        ap₂ cons (same_val t v w x.0 here) (same_parts (elements t) vs ws x.1 later)
    same_parts (fields []) (cons v vs) (cons w ws) x e = absurd x
    same_parts (fields (t ∷ ts)) (cons v vs) (cons w ws) x e =
        let (here, later) = both_true (equal s t v w) (equal_parts s (fields ts) vs ws) e in
        ap₂ cons (same_val t v w x.0 here) (same_parts (fields ts) vs ws x.1 later)
    same_parts ps nil (cons w ws) x e = absurd (cc)
    same_parts ps (cons v vs) nil x e = absurd (cc)

  mutual
    unfolding equal equal_parts

    val_refl : (t : Ty) (v : Val) → IsExact t v → equal s t v v ≡ true
    val_refl t (num a) x = number_refl t a x
    val_refl t (bytes xs) x = bytes_refl xs
    val_refl t (seq vs) x = parts_refl (parts s t) vs x
    val_refl t (choice d vs) x =
        choice_refl (arms s t) d (λ ps. ExactParts ps vs) (λ ps. equal_parts s ps vs vs)
          (λ ps. parts_refl ps vs) x

    parts_refl : (ps : Parts) (vs : Vals) → ExactParts ps vs → equal_parts s ps vs vs ≡ true
    parts_refl ps nil x = refl
    parts_refl (elements t) (cons v vs) x =
        if_both (equal s t v v) _ (val_refl t v x.0) (parts_refl (elements t) vs x.1)
    parts_refl (fields []) (cons v vs) x = absurd x
    parts_refl (fields (t ∷ ts)) (cons v vs) x =
        if_both (equal s t v v) _ (val_refl t v x.0) (parts_refl (fields ts) vs x.1)

  -- On values without floating-point numbers that are made as their types say, `a == b` holds exactly
  -- where `a` and `b` are the same value, down to the last number.
  pub equal_iff : (t : Ty) (v w : Val) → IsExact t v → (equal s t v w ≡ true) ↔ (v ≡ w)
  equal_iff t v w x = (same_val t v w x, λ e. subst (λ u. equal s t v u ≡ true) e (val_refl t v x))
