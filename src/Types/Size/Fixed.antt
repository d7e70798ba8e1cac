-- ===== src/Types/Size/Fixed.antt =====
-- The constants `fixed_size` are the lengths of the encodings.
use xdrpp.Common.{
  ℕ, zero, suc, ◌+◌, ◌*◌, ◌≡◌, refl, ap, arith, Option, none, some, List, [], ◌∷◌, length,
  length-append, Option-cases, inl, inr,
}
use xdrpp.Types.{
  Ty, xarray, named, Kind, word, dword, nested, fixed_bytes, variable_bytes, kind, Val, num, bytes,
  seq, choice, Vals, nil, cons, size, Class, struct, union, Schema,
}
use xdrpp.Types.Size.{fixed_fields, times, fixed_class, fixed_nested, fixed_kind, fixed_size}
use xdrpp.Marshal.Words.{length-be32, length-be64}
use xdrpp.Marshal.Bytes.{length-padded}
use xdrpp.Marshal.Put.Encode.{
  AllFit, FieldsFit, ClassFits, KindFits, NestedFits, Fits, encode_elems, encode_fields,
  encode_class, encode_kind, encode_nested, encode,
}

-- The constants are right where there are any.
abbrev pub Fixed : (Ty → Option ℕ) → (Ty → Val → Type 0) → (Ty → Val → List ℕ) → Type 0
Fixed fixed P enc = (t : Ty) (v : Val) (n : ℕ) → fixed t ≡ some n → P t v → length (enc t v) ≡ n

times_parts :
    (n : ℕ) (o : Option ℕ) (m : ℕ) → times n o ≡ some m → (k : ℕ) × (o ≡ some k) × (n * k ≡ m)
unfolding times
times_parts n none m e = absurd (cc)
times_parts n (some k) m e = (k, refl, ground arith)

module _ (fixed : Ty → Option ℕ) where
  fixed_fields_parts :
      (t : Ty) (ts : List Ty) (n : ℕ)
      → fixed_fields fixed (t ∷ ts) ≡ some n
      → (a : ℕ) × (b : ℕ) × (fixed t ≡ some a) × (fixed_fields fixed ts ≡ some b) × (a + b ≡ n)
  unfolding fixed_fields
  fixed_fields_parts t ts n e = elim (Option-cases (fixed t)) [
    | inl varies ↦ absurd (ground arith)
    | inr (a, head) ↦ elim (Option-cases (fixed_fields fixed ts)) [
      | inl varies ↦ absurd (ground arith)
      | inr (b, others) ↦ (a, b, head, others, ground arith)
    ]
  ]

module _ (fixed : Ty → Option ℕ) (P : Ty → Val → Type 0) (enc : Ty → Val → List ℕ)
    (right : Fixed fixed P enc) where
  pub fixed_elems :
      (t : Ty) (k : ℕ) (vs : Vals)
      → fixed t ≡ some k
      → AllFit (P t) vs
      → length (encode_elems (enc t) vs) ≡ size vs * k
  fixed_elems t k nil e f = omega arith
  fixed_elems t k (cons v vs) e f = grind (
    arith,
    length-append (enc t v) (encode_elems (enc t) vs),
    right t v k e f.0,
    fixed_elems t k vs e f.1,
  )

  pub fixed_fields_lem :
      (ts : List Ty) (vs : Vals) (n : ℕ)
      → fixed_fields fixed ts ≡ some n
      → FieldsFit P ts vs
      → length (encode_fields enc ts vs) ≡ n
  unfolding fixed_fields
  fixed_fields_lem [] nil n e f = ground arith
  fixed_fields_lem [] (cons v vs) n e f = absurd f
  fixed_fields_lem (t ∷ ts) nil n e f = absurd f
  fixed_fields_lem (t ∷ ts) (cons v vs) n e f =
      let (a, b, head, others, total) = fixed_fields_parts fixed t ts n e in
      omega (
        arith,
        total,
        length-append (enc t v) (encode_fields enc ts vs),
        right t v a head f.0,
        fixed_fields_lem ts vs b others f.1,
      )

  fixed_class_lem :
      (s : Schema) (c : Class) (v : Val) (n : ℕ)
      → fixed_class s fixed c ≡ some n
      → ClassFits P c v
      → length (encode_class enc c v) ≡ n
  unfolding fixed_class
  fixed_class_lem s (struct ts) (seq vs) n e f = fixed_fields_lem ts vs n e f
  fixed_class_lem s (struct ts) (num _) n e f = absurd f
  fixed_class_lem s (struct ts) (bytes _) n e f = absurd f
  fixed_class_lem s (struct ts) (choice _ _) n e f = absurd f
  fixed_class_lem s (union tag fs) v n e f = cc

  fixed_nested_lem :
      (s : Schema) → Fixed (fixed_nested s fixed) (NestedFits s P) (encode_nested s enc)
  unfolding fixed_nested
  fixed_nested_lem s (xarray t n) (seq vs) m e f =
      let (k, one, total) = times_parts n (fixed t) m e in
      omega (arith, fixed_elems t k vs one f.2, total, ap (λ (i : ℕ). i * k) f.0)
  fixed_nested_lem s (xarray t n) (num _) m e f = absurd f
  fixed_nested_lem s (xarray t n) (bytes _) m e f = absurd f
  fixed_nested_lem s (xarray t n) (choice _ _) m e f = absurd f
  fixed_nested_lem s (named k) v m e f = fixed_class_lem s (s.classes k) v m e f.1
  fixed_nested_lem s _ v m e f = cc

fixed_kind_lem :
    (s : Schema) (fixed : Ty → Option ℕ) (P : Ty → Val → Type 0) (enc : Ty → Val → List ℕ)
    → Fixed (fixed_nested s fixed) P enc
    → (k : Kind) (t : Ty) (v : Val) (n : ℕ) → fixed_kind s fixed k t ≡ some n
    → KindFits P k t v
    → length (encode_kind enc k t v) ≡ n
unfolding fixed_kind
fixed_kind_lem s fixed P enc right word t (num u) n e f = ground (arith, length-be32 u)
fixed_kind_lem s fixed P enc right dword t (num u) n e f = ground (arith, length-be64 u)
fixed_kind_lem s fixed P enc right (fixed_bytes m) t (bytes bs) n e f =
    ground (arith, length-padded bs)
fixed_kind_lem s fixed P enc right (variable_bytes m) t v n e f = cc
fixed_kind_lem s fixed P enc right nested t v n e f = right t v n e f
fixed_kind_lem s fixed P enc right _ t _ n e f = absurd f

-- Where the compiler has computed a constant `fixed_size` for a type, every value that fits the type
-- has an encoding of that length.
pub fixed_size-length :
    (s : Schema) (depth limit : ℕ) (t : Ty) (v : Val) (n : ℕ)
    → fixed_size s depth t ≡ some n
    → Fits s limit t v
    → length (encode s limit t v) ≡ n
unfolding fixed_size Fits encode
fixed_size-length s zero zero t v n e f =
    fixed_kind_lem s (λ t. none) (λ t v. ⊥) (λ t v. []) (λ t v n e f. absurd f) (kind t) t v n e f
fixed_size-length s (suc depth) zero t v n e f =
    fixed_kind_lem s (fixed_size s depth) (λ t v. ⊥) (λ t v. []) (λ t v n e f. absurd f) (kind t) t
      v n e f
fixed_size-length s zero (suc limit) t v n e f =
    fixed_kind_lem s (λ t. none) _ _
      (fixed_nested_lem (λ t. none) (Fits s limit) (encode s limit) (λ t v n e f. cc) s) (kind t) t
      v n e f
fixed_size-length s (suc depth) (suc limit) t v n e f =
    fixed_kind_lem s (fixed_size s depth) _ _
      (fixed_nested_lem (fixed_size s depth) (Fits s limit) (encode s limit)
        (fixed_size-length s depth limit) s)
      (kind t) t v n e f
