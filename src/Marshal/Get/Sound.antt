-- ===== src/Marshal/Get/Sound.antt =====
-- What `xdr_get` accepts on arbitrary input, well formed or not.
use xdrpp.Common.{
  ℕ, zero, suc, ◌+◌, ◌%◌, ◌^◌, ◌≤◌, ◌<◌, ◌≡◌, refl, ap, arith, Bool, true, List, [], ◌++◌, length,
  length-append, Bool-cases, inl, inr,
}
use xdrpp.Common.Result.{
  throw, stack_overflow, Ensures, returns, throws, Ensures-bind, Ensures-weaken,
}
use xdrpp.Types.{
  Ty, uint32, xarray, xvector, pointer, named, Kind, word, dword, nested, fixed_bytes,
  variable_bytes, kind, Val, num, bytes, seq, choice, size, Class, struct, union, Schema,
  with_mem_ptr, field_number,
}
use xdrpp.Types.Union.{with_mem_ptr-ne-none}
use xdrpp.Marshal.{rfc_base}
use xdrpp.Marshal.Words.{
  be32, length-be32, length-be64, get32_lem, get64_lem, read_be32_sound, read_be64_sound,
  read_be32-total, read_be64-total,
}
use xdrpp.Marshal.Bytes.{padded, get_bytes-Ensures}
use xdrpp.Marshal.Get.{get_op, check_valid, load_class, get_counted, load, get}
use xdrpp.Marshal.Get.Pieces.{Archive}
use xdrpp.Marshal.Put.Encode.{
  AllFit, ClassFits, KindFits, NestedFits, Fits, encode_elems, encode_active, encode_class,
  encode_kind, encode_nested, encode, IsWhole, encode-IsWhole,
}
use xdrpp.Marshal.Get.Formed.{IsTy, IsClass, IsSchema, IsKind, IsTy-IsKind, with_mem_ptr-IsActive}
use xdrpp.Marshal.Get.Steps.{
  IsWordOf, word_fits, Sound, SoundNested, SoundWords, check_sound, check_size_sound,
  from_uint_sound, check_discriminant_sound, number_sound, get_elems_sound, get_fields_sound,
  get_active_sound,
}

abbrev Counted : (Ty → Val → Type 0) → (Ty → Val → List ℕ) → Ty → ℕ → List ℕ → Val → List ℕ → Type 0
Counted P enc t bound inp (seq vs) rest =
    (size vs ≤ bound)
    × AllFit (P t) vs
    × (length inp ≡ length (be32 (size vs) ++ encode_elems (enc t) vs) + length rest)
Counted P enc t bound inp _ rest = ⊥

module _ (be : Bool) (s : Schema) where
  get32_sound :
      (inp : List ℕ)
      → 4 ≤ length inp
      → Ensures (λ r. (r.0 < 2 ^ 32) × (length inp ≡ 4 + length r.1)) ((rfc_base be).get32 inp)
  get32_sound inp h =
      let ((u, rest), e) = read_be32-total inp h in
      rw (get32_lem be inp, e) (returns (read_be32_sound inp u rest e))

  get64_sound :
      (inp : List ℕ)
      → 8 ≤ length inp
      → Ensures (λ r. (r.0 < 2 ^ 64) × (length inp ≡ 8 + length r.1)) ((rfc_base be).get64 inp)
  get64_sound inp h =
      let ((u, rest), e) = read_be64-total inp h in
      rw (get64_lem be inp, e) (returns (read_be64_sound inp u rest e))

  get_word_sound :
      (ld : Archive) (t : Ty) (inp : List ℕ)
      → Ensures
          (λ r. IsWordOf t r.0 × (length inp ≡ 4 + length r.1))
          (get_op (rfc_base be) s ld word t inp)
  unfolding get_op
  get_word_sound ld t inp = Ensures-bind (check_sound 4 inp) λ inp1 (same, enough).
      Ensures-bind (get32_sound inp1 (rw same enough)) λ (u, inp2) (small, taken).
        Ensures-bind (from_uint_sound t u small) λ v good. returns (good, rw (← same) taken)

  get_op_sound :
      (P : Ty → Val → Type 0) (enc : Ty → Val → List ℕ) (ld : Archive)
      → SoundNested P enc ld
      → (k : Kind) (t : Ty) (inp : List ℕ) → kind t ≡ k
      → IsKind k
      → IsTy t
      → length inp % 4 ≡ 0
      → Ensures
          (λ r. KindFits P k t r.0 × (length inp ≡ length (encode_kind enc k t r.0) + length r.1))
          (get_op (rfc_base be) s ld k t inp)
  unfolding get_op
  get_op_sound P enc ld sound word t inp e b w h =
      Ensures-weaken (get_word_sound ld t inp) (word_fits P enc t inp)
  get_op_sound P enc ld sound dword t inp e b w h =
      Ensures-bind (check_sound 8 inp) λ inp1 (same, enough).
        Ensures-bind (get64_sound inp1 (rw same enough))
          λ (u, inp2) (small, taken). returns (small, omega (arith, length-be64 u, ap length same))
  get_op_sound P enc ld sound (fixed_bytes n) t inp e b w h =
      Ensures-bind (check_sound n inp) λ inp1 (same, enough).
        Ensures-bind (get_bytes-Ensures n inp1 (rw same enough) (rw same h))
          λ (bs, inp2) (count, front). returns (
            (count, b),
            omega (arith, ap length same, ap length front, length-append (padded bs) inp2),
          )
  get_op_sound P enc ld sound (variable_bytes n) t inp e b w h =
      Ensures-bind (check_sound 4 inp) λ inp1 (same, enough).
        Ensures-bind (get32_sound inp1 (rw same enough)) λ (size, inp2) (small, taken).
          Ensures-bind (check_sound size inp2) λ inp3 (same', enough').
            Ensures-bind (check_size_sound n size) λ _ bounded.
              Ensures-bind
                (get_bytes-Ensures size inp3 (rw same' enough')
                  (rw same' (omega (arith, ap length same))))
                λ (bs, inp4) (count, front). returns (
                  (omega arith, b),
                  omega (
                    arith,
                    ap length same,
                    ap length same',
                    ap length front,
                    length-append (padded bs) inp4,
                    length-append (be32 (length bs)) (padded bs),
                    length-be32 (length bs),
                  ),
                )
  get_op_sound P enc ld sound nested t inp e b w h = sound t inp e w h

  check_valid_sound :
      (Q : Val → Type 0) (k : ℕ) (v : Val) (inp : List ℕ)
      → Q v
      → Ensures
          (λ r. (s.validate k r.0 ≡ true) × Q r.0 × (r.1 ≡ inp))
          (check_valid (rfc_base be) s k v inp)
  unfolding check_valid
  check_valid_sound Q k v inp q = elim (Bool-cases (s.validate k v)) [
    | inl valid ↦ rw valid (returns (valid, q, refl))
    | inr invalid ↦ rw invalid throws
  ]

  -- `validate` is the last step of a `load`; what was known of the object still holds behind it.
  valid_then :
      (P : Ty → Val → Type 0) (enc : Ty → Val → List ℕ) (c : Class) (k : ℕ) (v : Val)
      (inp rest : List ℕ)
      → ClassFits P c v
      → length inp ≡ length (encode_class enc c v) + length rest
      → Ensures
          (λ r.
            (s.validate k r.0 ≡ true)
            × ClassFits P c r.0
            × (length inp ≡ length (encode_class enc c r.0) + length r.1))
          (check_valid (rfc_base be) s k v rest)
  valid_then P enc c k v inp rest fit taken =
      Ensures-weaken
        (check_valid_sound
          (λ v. ClassFits P c v × (length inp ≡ length (encode_class enc c v) + length rest)) k v
          rest (fit, taken))
        (λ r (valid, (fit', taken'), same). (valid, fit', omega (arith, ap length same)))

  module _ (P : Ty → Val → Type 0) (enc : Ty → Val → List ℕ) (ar : Archive)
      (whole : (t : Ty) (v : Val) → IsWhole (enc t v)) (sound : Sound P enc ar)
      (words : SoundWords ar) where
    load_class_sound :
        (k : ℕ) (c : Class) (inp : List ℕ)
        → IsClass c
        → length inp % 4 ≡ 0
        → Ensures
            (λ r.
              (s.validate k r.0 ≡ true)
              × ClassFits P c r.0
              × (length inp ≡ length (encode_class enc c r.0) + length r.1))
            (load_class (rfc_base be) s ar k c inp)
    unfolding load_class
    load_class_sound k (struct ts) inp w h =
        Ensures-bind (get_fields_sound P enc ar whole sound ts inp w h)
          λ (vs, inp1) (fit, taken). valid_then P enc (struct ts) k (seq vs) inp inp1 fit taken
    load_class_sound k (union tag fs) inp w h =
        Ensures-bind (words tag inp w.0 h) λ (v, inp1) (is_word, taken).
          Ensures-bind (number_sound tag v is_word) λ which (small, good).
            Ensures-bind (check_discriminant_sound (field_number fs which)) λ _ known.
              Ensures-bind
                (get_active_sound P enc ar whole sound (with_mem_ptr fs which) inp1
                  (with_mem_ptr-ne-none fs which known) (with_mem_ptr-IsActive fs which w.1)
                  (omega arith))
                λ (vs, inp2) (fit, taken').
                  valid_then P enc (union tag fs) k (choice which vs) inp inp2
                    (w.0, small, good, fit)
                    (omega (
                      arith,
                      length-be32 which,
                      length-append (be32 which) (encode_active enc (with_mem_ptr fs which) vs),
                    ))

    get_counted_sound :
        (t : Ty) (bound : ℕ) (inp : List ℕ)
        → IsTy t
        → length inp % 4 ≡ 0
        → Ensures
            (λ r. Counted P enc t bound inp r.0 r.1)
            (get_counted (rfc_base be) s ar t bound inp)
    unfolding get_counted
    get_counted_sound t bound inp w h =
        Ensures-bind (words uint32 inp (unfold kind in refl) h) λ (v, inp1) (is_word, taken).
          Ensures-bind (number_sound uint32 v is_word) λ n (small, _).
            Ensures-bind (check_size_sound bound n) λ _ bounded.
              Ensures-bind (get_elems_sound P enc ar whole sound bound t n 0 inp1 w (omega arith))
                λ (vs, inp2) (count, fit, taken'). returns (
                  omega arith,
                  fit,
                  omega (
                    arith,
                    length-be32 (size vs),
                    length-append (be32 (size vs)) (encode_elems (enc t) vs),
                  ),
                )

    vector_fits :
        (t : Ty) (n : ℕ) (inp : List ℕ)
        → n < 2 ^ 32
        → (r : Val × List ℕ) → Counted P enc t n inp r.0 r.1
        → NestedFits s P (xvector t n) r.0
          × (length inp ≡ length (encode_nested s enc (xvector t n) r.0) + length r.1)
    vector_fits t n inp b (seq vs, rest) (bounded, fit, taken) = ((bounded, b, fit), taken)
    vector_fits t n inp b (num _, rest) h = absurd h
    vector_fits t n inp b (bytes _, rest) h = absurd h
    vector_fits t n inp b (choice _ _, rest) h = absurd h

    pointer_fits :
        (t : Ty) (inp : List ℕ) (r : Val × List ℕ)
        → Counted P enc t 1 inp r.0 r.1
        → NestedFits s P (pointer t) r.0
          × (length inp ≡ length (encode_nested s enc (pointer t) r.0) + length r.1)
    pointer_fits t inp (seq vs, rest) (bounded, fit, taken) = ((bounded, fit), taken)
    pointer_fits t inp (num _, rest) h = absurd h
    pointer_fits t inp (bytes _, rest) h = absurd h
    pointer_fits t inp (choice _ _, rest) h = absurd h

    load_sound :
        IsSchema s → SoundNested (NestedFits s P) (encode_nested s enc) (load (rfc_base be) s ar)
    unfolding load kind
    load_sound ws (xarray t n) inp e w h =
        Ensures-bind (get_elems_sound P enc ar whole sound n t n 0 inp w.1 h)
          λ (vs, rest) (count, fit, taken). returns ((count, w.0, fit), taken)
    load_sound ws (xvector t n) inp e w h =
        Ensures-weaken (get_counted_sound t n inp w.1 h) (vector_fits t n inp w.0)
    load_sound ws (pointer t) inp e w h =
        Ensures-weaken (get_counted_sound t 1 inp w h) (pointer_fits t inp)
    load_sound ws (named k) inp e w h =
        Ensures-weaken (load_class_sound k (s.classes k) inp (ws k) h)
          (λ r (valid, fit, taken). ((valid, fit), taken))
    load_sound ws _ inp e w h = cc

  get-SoundWords : (limit : ℕ) → SoundWords (get (rfc_base be) s limit)
  unfolding get
  get-SoundWords zero t inp e h = rw e (get_word_sound (λ t inp. throw stack_overflow) t inp)
  get-SoundWords (suc limit) t inp e h =
      rw e (get_word_sound (load (rfc_base be) s (get (rfc_base be) s limit)) t inp)

  -- In a schema and for a type that the compiler accepts, `xdr_get` on any input of whole words
  -- returns or throws, and reads no byte outside the input. A value that it returns fits the type,
  -- and as many bytes have been taken as its encoding is long.
  pub get_sound :
      IsSchema s
      → (limit : ℕ) (t : Ty) (inp : List ℕ) → IsTy t
      → length inp % 4 ≡ 0
      → Ensures
          (λ r. Fits s limit t r.0 × (length inp ≡ length (encode s limit t r.0) + length r.1))
          (get (rfc_base be) s limit t inp)
  unfolding get Fits encode
  get_sound ws zero t inp w h =
      get_op_sound (λ t v. ⊥) (λ t v. []) (λ t inp. throw stack_overflow) (λ t inp e w h. throws)
        (kind t) t inp refl (IsTy-IsKind t w) w h
  get_sound ws (suc limit) t inp w h =
      get_op_sound (NestedFits s (Fits s limit)) (encode_nested s (encode s limit)) _
        (load_sound (Fits s limit) (encode s limit) _ (encode-IsWhole s limit) (get_sound ws limit)
          (get-SoundWords limit) ws)
        (kind t) t inp refl (IsTy-IsKind t w) w h
