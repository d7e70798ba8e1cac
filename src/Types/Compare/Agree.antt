-- ===== src/Types/Compare/Agree.antt =====
-- The two operators agree.
use Prim.Native.Nat.{compare}
use xdrpp.Common.{
  ℕ, ◌^◌, ◌<◌, ◌≡◌, refl, ◌∙◌, sym, subst, arith, Bool, true, false, Option, none, some, List, [],
  ◌∷◌, ◌==◌, ◌&&◌, if◌then◌else◌,
}
use xdrpp.Types.{
  Ty, int32, uint32, float32, int64, uint64, float64, boolean, enumeration, opaque_array,
  opaque_vec, xstring, xarray, xvector, pointer, named, Val, num, bytes, seq, choice, Vals, nil,
  cons, UnionField, Schema, with_mem_ptr,
}
use xdrpp.Types.Compare.{
  Order, less, equivalent, greater, unordered, of_ordering, key32, key64, compare_keys, equal_keys,
  compare_number, equal_number, then_compare, equal_bytes, compare_bytes, Parts, elements, fields,
  first_part, other_parts, arm_parts, parts, arms, equal, equal_parts, equal_arm, equal_choice,
  compare_arm, compare_choice, compare_vals, compare_parts,
}

abbrev pub is_equivalent : Order → Bool
is_equivalent equivalent = true
is_equivalent _ = false

abbrev pub is_float : Ty → Bool
is_float float32 = true
is_float float64 = true
is_float _ = false

-- The bit patterns of a type of numbers.
abbrev pub HasWidth : Ty → ℕ → Type 0
HasWidth int32 u = u < 2 ^ 32
HasWidth (enumeration tags validated) u = u < 2 ^ 32
HasWidth int64 u = u < 2 ^ 64
HasWidth uint32 u = Unit
HasWidth uint64 u = Unit
HasWidth boolean u = Unit
HasWidth float32 u = Unit
HasWidth float64 u = Unit
HasWidth _ u = ⊥

pub same_number : (t : Ty) (a b : ℕ) → is_float t ≡ false → equal_number t a b ≡ true → a ≡ b
unfolding equal_number
same_number float32 a b f e = absurd (cc)
same_number float64 a b f e = absurd (cc)
same_number int32 a b f e = ground arith
same_number t a b f e = ground arith

keys_agree : (a b : Option ℕ) → equal_keys a b ≡ is_equivalent (compare_keys a b)
keys_agree (some a) (some b) = ground arith
keys_agree (some a) none = refl
keys_agree none (some b) = refl
keys_agree none none = refl

pub number_agree :
    (t : Ty) (a b : ℕ)
    → HasWidth t a
    → HasWidth t b
    → equal_number t a b ≡ is_equivalent (compare_number t a b)
unfolding equal_number compare_number
number_agree int32 a b h k = ground arith
number_agree (enumeration tags validated) a b h k = ground arith
number_agree int64 a b h k = ground arith
number_agree uint32 a b h k = ground arith
number_agree uint64 a b h k = ground arith
number_agree boolean a b h k = ground arith
number_agree float32 a b h k = keys_agree (key32 a) (key32 b)
number_agree float64 a b h k = keys_agree (key64 a) (key64 b)
number_agree (opaque_array n) a b h k = absurd h
number_agree (opaque_vec n) a b h k = absurd h
number_agree (xstring n) a b h k = absurd h
number_agree (xarray t n) a b h k = absurd h
number_agree (xvector t n) a b h k = absurd h
number_agree (pointer t) a b h k = absurd h
number_agree (named n) a b h k = absurd h

-- One part after another; the second is looked at only where the first ones are equal.
both_agree :
    (o r : Order) (b c : Bool)
    → b ≡ is_equivalent o
    → (b ≡ true → c ≡ is_equivalent r)
    → (if b then c else false) ≡ is_equivalent (then_compare o r)
both_agree equivalent r b c e f = rw e (f e)
both_agree less r b c e f = rw e refl
both_agree greater r b c e f = rw e refl
both_agree unordered r b c e f = rw e refl

and_if : (b c : Bool) → (b && c) ≡ (if b then c else false)
and_if true c = refl
and_if false c = refl

byte_agree : (a b : ℕ) → (a == b) ≡ is_equivalent (of_ordering (compare a b))
byte_agree a b = ground arith

bytes_agree : (xs ys : List ℕ) → equal_bytes xs ys ≡ is_equivalent (compare_bytes xs ys)
unfolding equal_bytes compare_bytes
bytes_agree [] [] = refl
bytes_agree [] (b ∷ ys) = refl
bytes_agree (a ∷ xs) [] = refl
bytes_agree (a ∷ xs) (b ∷ ys) =
    and_if (a == b) (equal_bytes xs ys)
    ∙ both_agree (of_ordering (compare a b)) (compare_bytes xs ys) (a == b) (equal_bytes xs ys)
        (byte_agree a b) (λ same. bytes_agree xs ys)

abbrev pub ArmHasWidths : Option UnionField → (Parts → Type 0) → Type 0
ArmHasWidths none P = Unit
ArmHasWidths (some f) P = P (arm_parts f.decl)

abbrev pub ChoiceHasWidths : Option (Ty × List UnionField) → ℕ → (Parts → Type 0) → Type 0
ChoiceHasWidths none d P = Unit
ChoiceHasWidths (some (tag, fs)) d P =
    HasWidth tag d × (is_float tag ≡ false) × ArmHasWidths (with_mem_ptr fs d) P

arm_agree :
    (o : Option UnionField) (P Q : Parts → Type 0) (b : Parts → Bool) (r : Parts → Order)
    → ArmHasWidths o P
    → ArmHasWidths o Q
    → ((ps : Parts) → P ps → Q ps → b ps ≡ is_equivalent (r ps))
    → equal_arm o b ≡ is_equivalent (compare_arm o r)
arm_agree none P Q b r h k ih = refl
arm_agree (some f) P Q b r h k ih = ih (arm_parts f.decl) h k

choice_agree :
    (o : Option (Ty × List UnionField)) (d e : ℕ) (P Q : Parts → Type 0) (b : Parts → Bool)
    (r : Parts → Order)
    → ChoiceHasWidths o d P
    → ChoiceHasWidths o e Q
    → ((ps : Parts) → P ps → Q ps → b ps ≡ is_equivalent (r ps))
    → equal_choice o d e b ≡ is_equivalent (compare_choice o d e r)
unfolding equal_choice compare_choice
choice_agree none d e P Q b r h k ih = refl
choice_agree (some (tag, fs)) d e P Q b r (hd, hf, h) (kd, kf, k) ih =
    both_agree (compare_number tag d e) (compare_arm (with_mem_ptr fs d) r) (equal_number tag d e)
      (equal_arm (with_mem_ptr fs d) b) (number_agree tag d e hd kd)
      λ same.
        arm_agree (with_mem_ptr fs d) P Q b r h
          (subst (λ x. ArmHasWidths (with_mem_ptr fs x) Q) (sym (same_number tag d e hf same)) k) ih

module _ (s : Schema) where
  -- The numbers in a value are those of their types.
  abbrev mutual
    pub HasWidths : Ty → Val → Type 0
    HasWidths t (num a) = HasWidth t a
    HasWidths t (bytes a) = Unit
    HasWidths t (seq vs) = PartsHaveWidths (parts s t) vs
    HasWidths t (choice d vs) = ChoiceHasWidths (arms s t) d (λ ps. PartsHaveWidths ps vs)

    pub PartsHaveWidths : Parts → Vals → Type 0
    PartsHaveWidths ps nil = Unit
    PartsHaveWidths ps (cons v vs) = elim (first_part ps) [
      | none ↦ Unit
      | some t ↦ HasWidths t v × PartsHaveWidths (other_parts ps) vs
    ]

  mutual
    unfolding equal equal_parts compare_vals compare_parts

    agree :
        (t : Ty) (v w : Val)
        → HasWidths t v
        → HasWidths t w
        → equal s t v w ≡ is_equivalent (compare_vals s t v w)
    agree t (num a) (num b) h k = number_agree t a b h k
    agree t (bytes xs) (bytes ys) h k = bytes_agree xs ys
    agree t (seq vs) (seq ws) h k = parts_agree (parts s t) vs ws h k
    agree t (choice d vs) (choice e ws) h k =
        choice_agree (arms s t) d e (λ ps. PartsHaveWidths ps vs) (λ ps. PartsHaveWidths ps ws) _ _
          h k (λ ps. parts_agree ps vs ws)
    agree t v w h k = refl

    parts_agree :
        (ps : Parts) (vs ws : Vals)
        → PartsHaveWidths ps vs
        → PartsHaveWidths ps ws
        → equal_parts s ps vs ws ≡ is_equivalent (compare_parts s ps vs ws)
    parts_agree ps nil nil h k = refl
    parts_agree ps nil (cons w ws) h k = refl
    parts_agree ps (cons v vs) nil h k = refl
    parts_agree (elements t) (cons v vs) (cons w ws) h k =
        both_agree (compare_vals s t v w) _ _ _ (agree t v w h.0 k.0)
          (λ same. parts_agree (elements t) vs ws h.1 k.1)
    parts_agree (fields []) (cons v vs) (cons w ws) h k = refl
    parts_agree (fields (t ∷ ts)) (cons v vs) (cons w ws) h k =
        both_agree (compare_vals s t v w) _ _ _ (agree t v w h.0 k.0)
          (λ same. parts_agree (fields ts) vs ws h.1 k.1)

  -- On values whose numbers have the width of their types, and whose unions have no floating-point
  -- discriminants, `a == b` holds exactly where `a <=> b` is `equivalent`; so the two operators agree
  -- on all types, those with floating-point numbers included.
  pub equal-compare_vals :
      (t : Ty) (v w : Val)
      → HasWidths t v
      → HasWidths t w
      → equal s t v w ≡ is_equivalent (compare_vals s t v w)
  equal-compare_vals t v w h k = agree t v w h k
