-- ===== src/Types/Compare/Reverse.antt =====
-- The order of two values, the other way round.
use Prim.Native.Nat.{compare}
use xdrpp.Common.{ℕ, ◌≡◌, refl, ap, ◌∙◌, subst, arith, false, Option, none, some, List, [], ◌∷◌}
use xdrpp.Types.{
  Ty, Val, num, bytes, seq, choice, Vals, nil, cons, UnionField, Schema, with_mem_ptr,
}
use xdrpp.Types.Compare.{
  Order, less, equivalent, greater, unordered, of_ordering, key, compare_keys, compare_number,
  then_compare, compare_bytes, Parts, elements, fields, parts, arms, compare_arm, compare_choice,
  compare_vals, compare_parts, arm_parts,
}
use xdrpp.Types.Compare.Agree.{
  is_equivalent, is_float, HasWidth, same_number, number_agree, HasWidths, PartsHaveWidths,
  ArmHasWidths, ChoiceHasWidths,
}

abbrev pub reverse : Order → Order
reverse less = greater
reverse equivalent = equivalent
reverse greater = less
reverse unordered = unordered

reverse_ordering : (a b : ℕ) → of_ordering (compare b a) ≡ reverse (of_ordering (compare a b))
reverse_ordering a b = ground arith

reverse_keys : (a b : Option ℕ) → compare_keys b a ≡ reverse (compare_keys a b)
reverse_keys (some a) (some b) = reverse_ordering a b
reverse_keys (some a) none = refl
reverse_keys none (some b) = refl
reverse_keys none none = refl

reverse_then :
    (o r o' r' : Order)
    → o' ≡ reverse o
    → (o ≡ equivalent → r' ≡ reverse r)
    → then_compare o' r' ≡ reverse (then_compare o r)
reverse_then equivalent r o' r' e f = rw e (f refl)
reverse_then less r o' r' e f = rw e refl
reverse_then greater r o' r' e f = rw e refl
reverse_then unordered r o' r' e f = rw e refl

reverse_bytes : (xs ys : List ℕ) → compare_bytes ys xs ≡ reverse (compare_bytes xs ys)
unfolding compare_bytes
reverse_bytes [] [] = refl
reverse_bytes [] (b ∷ ys) = refl
reverse_bytes (a ∷ xs) [] = refl
reverse_bytes (a ∷ xs) (b ∷ ys) =
    reverse_then (of_ordering (compare a b)) (compare_bytes xs ys) _ _ (reverse_ordering a b)
      (λ same. reverse_bytes xs ys)

-- Where discriminants are equivalent, they are the same.
pub same_discriminant :
    (tag : Ty) (d e : ℕ)
    → HasWidth tag d
    → HasWidth tag e
    → is_float tag ≡ false
    → compare_number tag d e ≡ equivalent
    → d ≡ e
same_discriminant tag d e hd he f same =
    same_number tag d e f (number_agree tag d e hd he ∙ ap is_equivalent same)

reverse_arm :
    (o : Option UnionField) (P Q : Parts → Type 0) (r r' : Parts → Order)
    → ArmHasWidths o P
    → ArmHasWidths o Q
    → ((ps : Parts) → P ps → Q ps → r' ps ≡ reverse (r ps))
    → compare_arm o r' ≡ reverse (compare_arm o r)
reverse_arm none P Q r r' h k ih = refl
reverse_arm (some f) P Q r r' h k ih = ih (arm_parts f.decl) h k

reverse_choice :
    (o : Option (Ty × List UnionField)) (d e : ℕ) (P Q : Parts → Type 0) (r r' : Parts → Order)
    → ChoiceHasWidths o d P
    → ChoiceHasWidths o e Q
    → ((ps : Parts) → P ps → Q ps → r' ps ≡ reverse (r ps))
    → compare_choice o e d r' ≡ reverse (compare_choice o d e r)
unfolding compare_choice compare_number
reverse_choice none d e P Q r r' h k ih = refl
reverse_choice (some (tag, fs)) d e P Q r r' (hd, hf, h) (kd, kf, k) ih =
    reverse_then (compare_number tag d e) (compare_arm (with_mem_ptr fs d) r) _ _
      (reverse_keys (key tag d) (key tag e))
      λ same.
        subst
          (λ x.
            ArmHasWidths (with_mem_ptr fs x) Q
            → compare_arm (with_mem_ptr fs x) r' ≡ reverse (compare_arm (with_mem_ptr fs d) r))
          (same_discriminant tag d e hd kd hf same)
          (λ k'. reverse_arm (with_mem_ptr fs d) P Q r r' h k' ih) k

module _ (s : Schema) where
  mutual
    unfolding compare_vals compare_parts compare_number

    reverse_vals :
        (t : Ty) (v w : Val)
        → HasWidths s t v
        → HasWidths s t w
        → compare_vals s t w v ≡ reverse (compare_vals s t v w)
    reverse_vals t (num a) (num b) h k = reverse_keys (key t a) (key t b)
    reverse_vals t (bytes xs) (bytes ys) h k = reverse_bytes xs ys
    reverse_vals t (seq vs) (seq ws) h k = reverse_parts (parts s t) vs ws h k
    reverse_vals t (choice d vs) (choice e ws) h k =
        reverse_choice (arms s t) d e (λ ps. PartsHaveWidths s ps vs)
          (λ ps. PartsHaveWidths s ps ws) _ _ h k (λ ps. reverse_parts ps vs ws)
    reverse_vals t v w h k = refl

    reverse_parts :
        (ps : Parts) (vs ws : Vals)
        → PartsHaveWidths s ps vs
        → PartsHaveWidths s ps ws
        → compare_parts s ps ws vs ≡ reverse (compare_parts s ps vs ws)
    reverse_parts ps nil nil h k = refl
    reverse_parts ps nil (cons w ws) h k = refl
    reverse_parts ps (cons v vs) nil h k = refl
    reverse_parts (elements t) (cons v vs) (cons w ws) h k =
        reverse_then (compare_vals s t v w) _ _ _ (reverse_vals t v w h.0 k.0)
          (λ same. reverse_parts (elements t) vs ws h.1 k.1)
    reverse_parts (fields []) (cons v vs) (cons w ws) h k = refl
    reverse_parts (fields (t ∷ ts)) (cons v vs) (cons w ws) h k =
        reverse_then (compare_vals s t v w) _ _ _ (reverse_vals t v w h.0 k.0)
          (λ same. reverse_parts (fields ts) vs ws h.1 k.1)

  -- On such values `b <=> a` is `a <=> b` the other way round, and `unordered` where that is.
  pub compare_vals-reverse :
      (t : Ty) (v w : Val)
      → HasWidths s t v
      → HasWidths s t w
      → compare_vals s t w v ≡ reverse (compare_vals s t v w)
  compare_vals-reverse t v w h k = reverse_vals t v w h k
