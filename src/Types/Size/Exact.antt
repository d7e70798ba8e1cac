-- ===== src/Types/Size/Exact.antt =====
-- `serial_size` is the length of the encoding, with and without the constants.
use xdrpp.Common.{
  ℕ, zero, suc, ◌+◌, ◌*◌, ◌≡◌, refl, sym, ap, ◌∙◌, arith, Option, none, some, List, [], ◌∷◌, ◌++◌,
  length, length-append, Option-cases, inl, inr,
}
use xdrpp.Common.Result.{Res, ok, ill_typed, ◌>>=◌}
use xdrpp.Types.{
  Ty, int32, xarray, xvector, pointer, named, Kind, word, dword, nested, fixed_bytes,
  variable_bytes, kind, Val, num, bytes, seq, choice, Vals, nil, cons, size, UnionField, Class,
  struct, union, Schema, with_mem_ptr,
}
use xdrpp.Types.Size.{
  fixed_fields, times, fixed_size, number_size, bytes_size, shortcut, vector_size, serial_size,
  elems_size, fields_size, active_size,
}
use xdrpp.Marshal.Words.{be32, length-be32, length-be64}
use xdrpp.Marshal.Bytes.{padded, length-padded}
use xdrpp.Marshal.Put.Encode.{
  AllFit, FieldsFit, FieldFits, ActiveFits, ClassFits, KindFits, NestedFits, Fits, encode_elems,
  encode_fields, encode_field, encode_active, encode_class, encode_kind, encode_nested, encode,
}
use xdrpp.Types.Size.Fixed.{fixed_elems, fixed_fields_lem, fixed_size-length}

module _ (P : Ty → Val → Type 0) (enc : Ty → Val → List ℕ) where
  number_size_lem :
      (k : Kind) (t : Ty) (u : ℕ)
      → KindFits P k t (num u)
      → ¬ (P t (num u))
      → number_size k ≡ ok (length (encode_kind enc k t (num u)))
  unfolding number_size
  number_size_lem word t u f h = ap ok (sym (length-be32 u))
  number_size_lem dword t u f h = ap ok (sym (length-be64 u))
  number_size_lem nested t u f h = absurd (h f)
  number_size_lem (fixed_bytes n) t u f h = absurd f
  number_size_lem (variable_bytes n) t u f h = absurd f

  bytes_size_lem :
      (k : Kind) (t : Ty) (bs : List ℕ)
      → KindFits P k t (bytes bs)
      → ¬ (P t (bytes bs))
      → bytes_size k bs ≡ ok (length (encode_kind enc k t (bytes bs)))
  unfolding bytes_size
  bytes_size_lem word t bs f h = absurd f
  bytes_size_lem dword t bs f h = absurd f
  bytes_size_lem nested t bs f h = absurd (h f)
  bytes_size_lem (fixed_bytes n) t bs f h = ap ok (omega (arith, length-padded bs))
  bytes_size_lem (variable_bytes n) t bs f h = ap ok (
      omega (
        arith,
        length-padded bs,
        length-be32 (length bs),
        length-append (be32 (length bs)) (padded bs),
      ))

  num_unfit : (c : Class) (u : ℕ) → ¬ (ClassFits P c (num u))
  num_unfit (struct ts) u f = f
  num_unfit (union tag fs) u f = f

  bytes_unfit : (c : Class) (bs : List ℕ) → ¬ (ClassFits P c (bytes bs))
  bytes_unfit (struct ts) bs f = f
  bytes_unfit (union tag fs) bs f = f

  num_not_nested : (s : Schema) (t : Ty) (u : ℕ) → ¬ (NestedFits s P t (num u))
  num_not_nested s (named k) u f = num_unfit (s.classes k) u f.1
  num_not_nested s (xarray t n) u f = f
  num_not_nested s _ u f = f

  bytes_not_nested : (s : Schema) (t : Ty) (bs : List ℕ) → ¬ (NestedFits s P t (bytes bs))
  bytes_not_nested s (named k) bs f = bytes_unfit (s.classes k) bs f.1
  bytes_not_nested s (xarray t n) bs f = f
  bytes_not_nested s _ bs f = f

module _ (s : Schema) (depth limit : ℕ) where
  counted_length :
      (t : Ty) (vs : Vals)
      → length (be32 (size vs) ++ encode_elems (encode s limit t) vs)
        ≡ 4 + length (encode_elems (encode s limit t) vs)
  counted_length t vs = omega (
    arith,
    length-be32 (size vs),
    length-append (be32 (size vs)) (encode_elems (encode s limit t) vs),
  )

  array_lem :
      (t : Ty) (n : ℕ) (vs : Vals) (sum : Res ℕ)
      → sum ≡ ok (length (encode_elems (encode s limit t) vs))
      → AllFit (Fits s limit t) vs
      → size vs ≡ n
      → shortcut (times n (fixed_size s depth t)) sum
        ≡ ok (length (encode_elems (encode s limit t) vs))
  unfolding times
  array_lem t n vs sum h f e = elim (Option-cases (fixed_size s depth t)) [
    | inl varies ↦ rw varies h
    | inr (k, constant) ↦ rw constant (
        ap ok (
          ap (λ (i : ℕ). i * k) (sym e)
          ∙ sym (
              fixed_elems (fixed_size s depth) (Fits s limit) (encode s limit)
                (fixed_size-length s depth limit) t k vs constant f)))
  ]

  vector_lem :
      (t : Ty) (vs : Vals) (sum : Res ℕ)
      → sum ≡ ok (length (encode_elems (encode s limit t) vs))
      → AllFit (Fits s limit t) vs
      → vector_size (fixed_size s depth t) (size vs) sum
        ≡ ok (length (be32 (size vs) ++ encode_elems (encode s limit t) vs))
  vector_lem t vs sum h f = elim (Option-cases (fixed_size s depth t)) [
    | inl varies ↦ rw (varies, h) (ap ok (sym (counted_length t vs)))
    | inr (k, constant) ↦ rw constant (
        ap ok (
          omega (
            arith,
            counted_length t vs,
            fixed_elems (fixed_size s depth) (Fits s limit) (encode s limit)
                (fixed_size-length s depth limit) t k vs constant f,
          )))
  ]

  fields_lem :
      (ts : List Ty) (vs : Vals) (sum : Res ℕ)
      → sum ≡ ok (length (encode_fields (encode s limit) ts vs))
      → FieldsFit (Fits s limit) ts vs
      → shortcut (fixed_fields (fixed_size s depth) ts) sum
        ≡ ok (length (encode_fields (encode s limit) ts vs))
  fields_lem ts vs sum h f = elim (Option-cases (fixed_fields (fixed_size s depth) ts)) [
    | inl varies ↦ rw varies h
    | inr (k, constant) ↦ rw constant (
        ap ok (
          sym (
            fixed_fields_lem (fixed_size s depth) (Fits s limit) (encode s limit)
              (fixed_size-length s depth limit) ts vs k constant f)))
  ]

module _ (s : Schema) (depth : ℕ) where
  number_lem :
      (limit : ℕ) (t : Ty) (u : ℕ)
      → Fits s limit t (num u)
      → number_size (kind t) ≡ ok (length (encode s limit t (num u)))
  unfolding Fits encode
  number_lem zero t u f = number_size_lem (λ t v. ⊥) (λ t v. []) (kind t) t u f (λ h. h)
  number_lem (suc limit) t u f =
      number_size_lem (NestedFits s (Fits s limit)) (encode_nested s (encode s limit)) (kind t) t u
        f (num_not_nested (Fits s limit) (encode s limit) s t u)

  bytes_lem :
      (limit : ℕ) (t : Ty) (bs : List ℕ)
      → Fits s limit t (bytes bs)
      → bytes_size (kind t) bs ≡ ok (length (encode s limit t (bytes bs)))
  unfolding Fits encode
  bytes_lem zero t bs f = bytes_size_lem (λ t v. ⊥) (λ t v. []) (kind t) t bs f (λ h. h)
  bytes_lem (suc limit) t bs f =
      bytes_size_lem (NestedFits s (Fits s limit)) (encode_nested s (encode s limit)) (kind t) t bs
        f (bytes_not_nested (Fits s limit) (encode s limit) s t bs)

  seq_unfit : (t : Ty) (vs : Vals) → ¬ (Fits s zero t (seq vs))
  unfolding Fits kind
  seq_unfit int32 vs f = f
  seq_unfit _ vs f = f

  choice_unfit : (t : Ty) (d : ℕ) (vs : Vals) → ¬ (Fits s zero t (choice d vs))
  unfolding Fits kind
  choice_unfit int32 d vs f = f
  choice_unfit _ d vs f = f

  class_seq_lem :
      (limit : ℕ) (vs : Vals) (c : Class)
      → ((ts : List Ty)
          → FieldsFit (Fits s limit) ts vs
          → fields_size s depth vs ts ≡ ok (length (encode_fields (encode s limit) ts vs)))
      → ClassFits (Fits s limit) c (seq vs)
      → elim c [ struct ts ↦ fields_size s depth vs ts | union tag fs ↦ ill_typed ]
        ≡ ok (length (encode_class (encode s limit) c (seq vs)))
  class_seq_lem limit vs (struct ts) fields f = fields ts f
  class_seq_lem limit vs (union tag fs) fields f = absurd f

  class_choice_lem :
      (limit d : ℕ) (vs : Vals) (c : Class)
      → ((o : Option UnionField)
          → ActiveFits (Fits s limit) o vs
          → active_size s depth vs o ≡ ok (length (encode_active (encode s limit) o vs)))
      → ClassFits (Fits s limit) c (choice d vs)
      → elim c [
        | struct ts ↦ ill_typed
        | union tag fs ↦ active_size s depth vs (with_mem_ptr fs d) >>= λ n. ok (n + 4)
      ]
        ≡ ok (length (encode_class (encode s limit) c (choice d vs)))
  class_choice_lem limit d vs (struct ts) active f = absurd f
  class_choice_lem limit d vs (union tag fs) active f = rw (active (with_mem_ptr fs d) f.3) (
      ap ok (
        omega (
          arith,
          length-be32 d,
          length-append (be32 d) (encode_active (encode s limit) (with_mem_ptr fs d) vs),
        )))

  void_lem :
      (limit : ℕ) (decl : Option Ty)
      → FieldFits (Fits s limit) decl nil
      → elim decl [ none ↦ ok 0 | some t ↦ ill_typed ]
        ≡ ok (length (encode_field (encode s limit) decl nil))
  void_lem limit none f = refl
  void_lem limit (some t) f = absurd f

  field_lem :
      (limit : ℕ) (v : Val) (vs : Vals) (decl : Option Ty)
      → ((t : Ty) → Fits s limit t v → serial_size s depth v t ≡ ok (length (encode s limit t v)))
      → FieldFits (Fits s limit) decl (cons v vs)
      → elim decl [ none ↦ ill_typed | some t ↦ serial_size s depth v t ]
        ≡ ok (length (encode_field (encode s limit) decl (cons v vs)))
  field_lem limit v vs none size f = absurd f
  field_lem limit v nil (some t) size f = size t f
  field_lem limit v (cons u vs) (some t) size f = absurd f

  mutual
    unfolding serial_size Fits encode kind

    size_lem :
        (v : Val) (limit : ℕ) (t : Ty)
        → Fits s limit t v
        → serial_size s depth v t ≡ ok (length (encode s limit t v))
    size_lem (num u) limit t f = number_lem limit t u f
    size_lem (bytes bs) limit t f = bytes_lem limit t bs f
    size_lem (seq vs) zero t f = absurd (seq_unfit t vs f)
    size_lem (seq vs) (suc limit) (xarray t n) f =
        array_lem s depth limit t n vs _ (elems_size_lem vs limit t f.2) f.2 f.0
    size_lem (seq vs) (suc limit) (xvector t n) f =
        vector_lem s depth limit t vs _ (elems_size_lem vs limit t f.2) f.2
    size_lem (seq vs) (suc limit) (pointer t) f =
        rw (elems_size_lem vs limit t f.1) (ap ok (sym (counted_length s depth limit t vs)))
    size_lem (seq vs) (suc limit) (named k) f =
        class_seq_lem limit vs (s.classes k) (λ ts g. fields_size_lem vs limit ts g) f.1
    size_lem (seq vs) (suc limit) _ f = absurd f
    size_lem (choice d vs) zero t f = absurd (choice_unfit t d vs f)
    size_lem (choice d vs) (suc limit) (named k) f =
        class_choice_lem limit d vs (s.classes k) (λ o g. active_size_lem vs limit o g) f.1
    size_lem (choice d vs) (suc limit) (xarray t n) f = absurd f
    size_lem (choice d vs) (suc limit) _ f = absurd f

    active_size_lem :
        (vs : Vals) (limit : ℕ) (o : Option UnionField)
        → ActiveFits (Fits s limit) o vs
        → active_size s depth vs o ≡ ok (length (encode_active (encode s limit) o vs))
    active_size_lem nil limit none f = absurd f
    active_size_lem nil limit (some a) f = void_lem limit a.decl f
    active_size_lem (cons v vs) limit none f = absurd f
    active_size_lem (cons v vs) limit (some a) f =
        field_lem limit v vs a.decl (λ t g. size_lem v limit t g) f

    elems_size_lem :
        (vs : Vals) (limit : ℕ) (t : Ty)
        → AllFit (Fits s limit t) vs
        → elems_size s depth vs t ≡ ok (length (encode_elems (encode s limit t) vs))
    elems_size_lem nil limit t f = refl
    elems_size_lem (cons v vs) limit t f =
        rw (size_lem v limit t f.0, elems_size_lem vs limit t f.1)
          (ap ok (sym (length-append (encode s limit t v) (encode_elems (encode s limit t) vs))))

    fields_size_lem :
        (vs : Vals) (limit : ℕ) (ts : List Ty)
        → FieldsFit (Fits s limit) ts vs
        → fields_size s depth vs ts ≡ ok (length (encode_fields (encode s limit) ts vs))
    fields_size_lem nil limit [] f = refl
    fields_size_lem nil limit (t ∷ ts) f = absurd f
    fields_size_lem (cons v vs) limit [] f = absurd f
    fields_size_lem (cons v vs) limit (t ∷ ts) f =
        fields_lem s depth limit (t ∷ ts) (cons v vs) _
          (rw (size_lem v limit t f.0, fields_size_lem vs limit ts f.1)
            (ap ok
              (sym (length-append (encode s limit t v) (encode_fields (encode s limit) ts vs)))))
          f

  -- On every value that fits its type `serial_size` gives the length of the encoding, to whatever depth
  -- the compiler has computed constants.
  pub serial_size-eq-length :
      (limit : ℕ) (t : Ty) (v : Val)
      → Fits s limit t v
      → serial_size s depth v t ≡ ok (length (encode s limit t v))
  serial_size-eq-length limit t v f = size_lem v limit t f
