-- ===== src/Types/Compare/Transitive.antt =====
-- The order of three values.
use Prim.Native.Nat.{compare}
use xdrpp.Common.{
  Bool-cases, ltb, ltb→lt, ltb→le, ==_iff, ne_of_==, ℕ, ◌<◌, ◌≡◌, refl, ◌∙◌, sym, subst, arith,
  Option, none, some, List, [], ◌∷◌, ◌==◌, inl, inr,
}
use xdrpp.Types.{
  Ty, Val, num, bytes, seq, choice, Vals, nil, cons, UnionField, Schema, with_mem_ptr,
}
use xdrpp.Types.Compare.{
  Order, less, equivalent, greater, unordered, of_ordering, key, compare_keys, compare_number,
  then_compare, compare_bytes, Parts, elements, fields, parts, arms, compare_arm, compare_choice,
  compare_vals, compare_parts, arm_parts,
}
use xdrpp.Types.Compare.Agree.{HasWidths, PartsHaveWidths, ArmHasWidths, ChoiceHasWidths}
use xdrpp.Types.Compare.Reverse.{reverse, same_discriminant, compare_vals-reverse}

-- What is known of `a <=> c` where `a <=> b` and `b <=> c` are given.
abbrev pub Composes : Order → Order → Order → Type 0
Composes less less c = c ≡ less
Composes less equivalent c = c ≡ less
Composes equivalent less c = c ≡ less
Composes equivalent equivalent c = c ≡ equivalent
Composes equivalent greater c = c ≡ greater
Composes greater equivalent c = c ≡ greater
Composes greater greater c = c ≡ greater
Composes _ _ c = Unit

left_less : (r : Order) → Composes less r less
left_less less = refl
left_less equivalent = refl
left_less greater = tt
left_less unordered = tt

right_less : (r : Order) → Composes r less less
right_less less = refl
right_less equivalent = refl
right_less greater = tt
right_less unordered = tt

left_greater : (r : Order) → Composes greater r greater
left_greater less = tt
left_greater equivalent = refl
left_greater greater = refl
left_greater unordered = tt

right_greater : (r : Order) → Composes r greater greater
right_greater less = tt
right_greater equivalent = refl
right_greater greater = refl
right_greater unordered = tt

right_unordered : (r c : Order) → Composes r unordered c
right_unordered less c = tt
right_unordered equivalent c = tt
right_unordered greater c = tt
right_unordered unordered c = tt

then_compose :
    (o1 o2 o3 r1 r2 r3 : Order)
    → Composes o1 o2 o3
    → (o1 ≡ equivalent → o2 ≡ equivalent → Composes r1 r2 r3)
    → Composes (then_compare o1 r1) (then_compare o2 r2) (then_compare o3 r3)
then_compose less less o3 r1 r2 r3 c f = rw c refl
then_compose less equivalent o3 r1 r2 r3 c f = rw c (left_less r2)
then_compose less greater o3 r1 r2 r3 c f = tt
then_compose less unordered o3 r1 r2 r3 c f = tt
then_compose equivalent less o3 r1 r2 r3 c f = rw c (right_less r1)
then_compose equivalent equivalent o3 r1 r2 r3 c f = rw c (f refl refl)
then_compose equivalent greater o3 r1 r2 r3 c f = rw c (right_greater r1)
then_compose equivalent unordered o3 r1 r2 r3 c f = right_unordered r1 _
then_compose greater less o3 r1 r2 r3 c f = tt
then_compose greater equivalent o3 r1 r2 r3 c f = rw c (left_greater r2)
then_compose greater greater o3 r1 r2 r3 c f = rw c refl
then_compose greater unordered o3 r1 r2 r3 c f = tt
then_compose unordered o2 o3 r1 r2 r3 c f = tt

-- The three ways in which two numbers compare.
data Compared (a b : ℕ) : Order → Type 0 where
  below : a < b → Compared a b less
  same : a ≡ b → Compared a b equivalent
  above : b < a → Compared a b greater

of_lt : (a b : ℕ) → a < b → of_ordering (compare a b) ≡ less
of_lt a b h = ground arith

of_eq : (a b : ℕ) → a ≡ b → of_ordering (compare a b) ≡ equivalent
of_eq a b h = ground arith

of_gt : (a b : ℕ) → b < a → of_ordering (compare a b) ≡ greater
of_gt a b h = ground arith

compared : (a b : ℕ) → Compared a b (of_ordering (compare a b))
compared a b = elim (Bool-cases (ltb a b)) [
  | inl lt ↦ subst (Compared a b) (sym (of_lt a b (ltb→lt a b lt))) (below (ltb→lt a b lt))
  | inr ge ↦ elim (Bool-cases (a == b)) [
    | inl e ↦
        let a≡b : a ≡ b = (==_iff a b).0 e in subst (Compared a b) (sym (of_eq a b a≡b)) (same a≡b)
    | inr ne ↦
        let gt : b < a = omega (arith, ltb→le a b ge, ne_of_== a b ne) in
        subst (Compared a b) (sym (of_gt a b gt)) (above gt)
  ]
]

compose_numbers :
    (a b c : ℕ) {o1 o2 : Order}
    → Compared a b o1
    → Compared b c o2
    → Composes o1 o2 (of_ordering (compare a c))
compose_numbers a b c (below h) (below k) = of_lt a c (omega arith)
compose_numbers a b c (below h) (same k) = of_lt a c (omega arith)
compose_numbers a b c (below h) (above k) = tt
compose_numbers a b c (same h) (below k) = of_lt a c (omega arith)
compose_numbers a b c (same h) (same k) = of_eq a c (h ∙ k)
compose_numbers a b c (same h) (above k) = of_gt a c (omega arith)
compose_numbers a b c (above h) (below k) = tt
compose_numbers a b c (above h) (same k) = of_gt a c (omega arith)
compose_numbers a b c (above h) (above k) = of_gt a c (omega arith)

numbers_compose :
    (a b c : ℕ)
    → Composes (of_ordering (compare a b)) (of_ordering (compare b c)) (of_ordering (compare a c))
numbers_compose a b c = compose_numbers a b c (compared a b) (compared b c)

keys_compose :
    (a b c : Option ℕ) → Composes (compare_keys a b) (compare_keys b c) (compare_keys a c)
keys_compose (some a) (some b) (some c) = numbers_compose a b c
keys_compose (some a) (some b) none = right_unordered (of_ordering (compare a b)) unordered
keys_compose (some a) none c = tt
keys_compose none b c = tt

bytes_compose :
    (xs ys zs : List ℕ) → Composes (compare_bytes xs ys) (compare_bytes ys zs) (compare_bytes xs zs)
unfolding compare_bytes
bytes_compose [] [] [] = refl
bytes_compose [] [] (c ∷ zs) = refl
bytes_compose [] (b ∷ ys) [] = tt
bytes_compose [] (b ∷ ys) (c ∷ zs) = left_less _
bytes_compose (a ∷ xs) [] [] = refl
bytes_compose (a ∷ xs) [] (c ∷ zs) = tt
bytes_compose (a ∷ xs) (b ∷ ys) [] = right_greater _
bytes_compose (a ∷ xs) (b ∷ ys) (c ∷ zs) =
    then_compose (of_ordering (compare a b)) (of_ordering (compare b c)) _ _ _ _
      (numbers_compose a b c) (λ e f. bytes_compose xs ys zs)

arm_compose :
    (o : Option UnionField) (P Q R : Parts → Type 0) (r1 r2 r3 : Parts → Order)
    → ArmHasWidths o P
    → ArmHasWidths o Q
    → ArmHasWidths o R
    → ((ps : Parts) → P ps → Q ps → R ps → Composes (r1 ps) (r2 ps) (r3 ps))
    → Composes (compare_arm o r1) (compare_arm o r2) (compare_arm o r3)
arm_compose none P Q R r1 r2 r3 h k l ih = refl
arm_compose (some f) P Q R r1 r2 r3 h k l ih = ih (arm_parts f.decl) h k l

choice_compose :
    (o : Option (Ty × List UnionField)) (d e f : ℕ) (P Q R : Parts → Type 0)
    (r1 r2 r3 : Parts → Order)
    → ChoiceHasWidths o d P
    → ChoiceHasWidths o e Q
    → ChoiceHasWidths o f R
    → ((ps : Parts) → P ps → Q ps → R ps → Composes (r1 ps) (r2 ps) (r3 ps))
    → Composes (compare_choice o d e r1) (compare_choice o e f r2) (compare_choice o d f r3)
unfolding compare_choice compare_number
choice_compose none d e f P Q R r1 r2 r3 h k l ih = tt
choice_compose (some (tag, fs)) d e f P Q R r1 r2 r3 (hd, hf, h) (kd, kf, k) (ld, lf, l) ih =
    then_compose (compare_number tag d e) (compare_number tag e f) _ _ _ _
      (keys_compose (key tag d) (key tag e) (key tag f))
      λ de ef.
        let d≡e : d ≡ e = same_discriminant tag d e hd kd hf de in
        let e≡f : e ≡ f = same_discriminant tag e f kd ld kf ef in
        subst
          (λ x.
            Composes (compare_arm (with_mem_ptr fs d) r1) (compare_arm (with_mem_ptr fs x) r2)
              (compare_arm (with_mem_ptr fs d) r3))
          d≡e
          (arm_compose (with_mem_ptr fs d) P Q R r1 r2 r3 h
            (subst (λ x. ArmHasWidths (with_mem_ptr fs x) Q) (sym d≡e) k)
            (subst (λ x. ArmHasWidths (with_mem_ptr fs x) R) (sym (d≡e ∙ e≡f)) l) ih)

module _ (s : Schema) where
  mutual
    unfolding compare_vals compare_parts compare_number

    compose_vals :
        (t : Ty) (u v w : Val)
        → HasWidths s t u
        → HasWidths s t v
        → HasWidths s t w
        → Composes (compare_vals s t u v) (compare_vals s t v w) (compare_vals s t u w)
    compose_vals t (num a) (num b) (num c) h k l = keys_compose (key t a) (key t b) (key t c)
    compose_vals t (bytes xs) (bytes ys) (bytes zs) h k l = bytes_compose xs ys zs
    compose_vals t (seq us) (seq vs) (seq ws) h k l = compose_parts (parts s t) us vs ws h k l
    compose_vals t (choice d us) (choice e vs) (choice f ws) h k l =
        choice_compose (arms s t) d e f (λ ps. PartsHaveWidths s ps us)
          (λ ps. PartsHaveWidths s ps vs) (λ ps. PartsHaveWidths s ps ws) _ _ _ h k l
          (λ ps. compose_parts ps us vs ws)
    compose_vals t (num a) (num b) w h k l = right_unordered _ _
    compose_vals t (bytes xs) (bytes ys) w h k l = right_unordered _ _
    compose_vals t (seq us) (seq vs) w h k l = right_unordered _ _
    compose_vals t (choice d us) (choice e vs) w h k l = right_unordered _ _
    compose_vals t u v w h k l = tt

    compose_parts :
        (ps : Parts) (us vs ws : Vals)
        → PartsHaveWidths s ps us
        → PartsHaveWidths s ps vs
        → PartsHaveWidths s ps ws
        → Composes (compare_parts s ps us vs) (compare_parts s ps vs ws) (compare_parts s ps us ws)
    compose_parts ps nil nil nil h k l = refl
    compose_parts ps nil nil (cons w ws) h k l = refl
    compose_parts ps nil (cons v vs) nil h k l = tt
    compose_parts ps nil (cons v vs) (cons w ws) h k l = left_less _
    compose_parts ps (cons u us) nil nil h k l = refl
    compose_parts ps (cons u us) nil (cons w ws) h k l = tt
    compose_parts ps (cons u us) (cons v vs) nil h k l = right_greater _
    compose_parts (elements t) (cons u us) (cons v vs) (cons w ws) h k l =
        then_compose (compare_vals s t u v) (compare_vals s t v w) _ _ _ _
          (compose_vals t u v w h.0 k.0 l.0)
          (λ e f. compose_parts (elements t) us vs ws h.1 k.1 l.1)
    compose_parts (fields []) (cons u us) (cons v vs) (cons w ws) h k l = tt
    compose_parts (fields (t ∷ ts)) (cons u us) (cons v vs) (cons w ws) h k l =
        then_compose (compare_vals s t u v) (compare_vals s t v w) _ _ _ _
          (compose_vals t u v w h.0 k.0 l.0) (λ e f. compose_parts (fields ts) us vs ws h.1 k.1 l.1)

  -- The laws of an order that may leave values unordered.
  pub record IsOrdered (t : Ty) (u v w : Val) : Type 0 where
    pub reversed : compare_vals s t v u ≡ reverse (compare_vals s t u v)
    pub composed : Composes (compare_vals s t u v) (compare_vals s t v w) (compare_vals s t u w)

  -- On values whose numbers have the width of their types, and whose unions have no floating-point
  -- discriminants, `<=>` is an order: `b <=> a` is `a <=> b` the other way round, and `unordered` where
  -- that is; where `a <=> b` and `b <=> c` are each `less` or `equivalent`, `a <=> c` is `equivalent` if
  -- both are, and else `less`; and the same holds of `greater`.
  pub compare_vals-IsOrdered :
      (t : Ty) (u v w : Val)
      → HasWidths s t u
      → HasWidths s t v
      → HasWidths s t w
      → IsOrdered t u v w
  compare_vals-IsOrdered t u v w h k l = record {
    reversed = compare_vals-reverse s t u v h k;
    composed = compose_vals t u v w h k l;
  }
