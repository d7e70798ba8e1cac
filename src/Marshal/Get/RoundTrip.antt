-- ===== src/Marshal/Get/RoundTrip.antt =====
-- `xdr_get` reads back what the encoding of RFC4506 says, and leaves what follows it.
use xdrpp.Common.{
  ℕ, zero, suc, ◌^◌, ◌≤◌, ◌<◌, ◌≡◌, refl, arith, Bool, true, List, [], ◌++◌, length, append_assoc,
  le→ltb,
}
use xdrpp.Common.Result.{ok, throw, stack_overflow}
use xdrpp.Types.{
  Ty, uint32, xarray, xvector, pointer, named, Kind, word, dword, nested, fixed_bytes,
  variable_bytes, kind, Val, num, bytes, seq, choice, Vals, size, Class, struct, union, Schema,
  with_mem_ptr, field_number, check_size,
}
use xdrpp.Types.Union.{field_number-ne-none}
use xdrpp.Marshal.{rfc_base}
use xdrpp.Marshal.Words.{
  be32, be64, length-be32, length-be64, get32_lem, get64_lem, read_be32-be32, read_be64-be64,
}
use xdrpp.Marshal.Bytes.{padded, get_bytes-padded, length-padded}
use xdrpp.Marshal.Get.{number, get_op, load_class, get_counted, load, get}
use xdrpp.Marshal.Put.Encode.{
  InRange, AllFit, ClassFits, KindFits, NestedFits, Fits, encode_elems, encode_active, encode_class,
  encode_kind, encode_nested, encode,
}
use xdrpp.Marshal.Get.Pieces.{
  check_lem, from_uint_lem, check_discriminant_lem, ActiveFits-ne-none, Archive, Gets, GetsWords,
  get_elems_lem, get_fields_lem, get_active_lem,
}

module _ (be : Bool) (s : Schema) where
  get_word_lem :
      (ld : Archive) (t : Ty) (u : ℕ) (rest : List ℕ)
      → u < 2 ^ 32
      → InRange t u
      → get_op (rfc_base be) s ld word t (be32 u ++ rest) ≡ ok (num u, rest)
  unfolding get_op
  get_word_lem ld t u rest h r = rw (
    check_lem 4 (be32 u) rest (omega (arith, length-be32 u)),
    get32_lem be (be32 u ++ rest),
    read_be32-be32 u rest h,
    from_uint_lem t u r,
  )

  get_string :
      (n : ℕ) (ld : Archive) (t : Ty) (bs rest : List ℕ)
      → length bs ≤ n
      → n < 2 ^ 32
      → get_op (rfc_base be) s ld (variable_bytes n) t (be32 (length bs) ++ (padded bs ++ rest))
        ≡ ok (bytes bs, rest)
  unfolding get_op check_size
  get_string n ld t bs rest h b = rw (
    check_lem 4 (be32 (length bs)) (padded bs ++ rest) (omega (arith, length-be32 (length bs))),
    get32_lem be (be32 (length bs) ++ (padded bs ++ rest)),
    read_be32-be32 (length bs) (padded bs ++ rest) (omega arith),
    check_lem (length bs) (padded bs) rest (omega (arith, length-padded bs)),
    le→ltb n (length bs) h,
    get_bytes-padded bs rest,
  )

  get_op_lem :
      (P : Ty → Val → Type 0) (enc : Ty → Val → List ℕ) (ld : Archive)
      → Gets P enc ld
      → (k : Kind) (t : Ty) (v : Val) (rest : List ℕ) → KindFits P k t v
      → get_op (rfc_base be) s ld k t (encode_kind enc k t v ++ rest) ≡ ok (v, rest)
  unfolding get_op
  get_op_lem P enc ld gets word t (num u) rest f = get_word_lem ld t u rest f.0 f.1
  get_op_lem P enc ld gets dword t (num u) rest f = rw (
    check_lem 8 (be64 u) rest (omega (arith, length-be64 u)),
    get64_lem be (be64 u ++ rest),
    read_be64-be64 u rest f,
  )
  get_op_lem P enc ld gets (fixed_bytes n) t (bytes bs) rest f = rw (← f.0) (
      rw (
        check_lem (length bs) (padded bs) rest (omega (arith, length-padded bs)),
        get_bytes-padded bs rest,
      ))
  get_op_lem P enc ld gets (variable_bytes n) t (bytes bs) rest f =
      rw (append_assoc (be32 (length bs)) (padded bs) rest) (get_string n ld t bs rest f.0 f.1)
  get_op_lem P enc ld gets nested t v rest f = gets t v rest f
  get_op_lem P enc ld gets _ _ _ rest f = absurd f

  module _ (P : Ty → Val → Type 0) (enc : Ty → Val → List ℕ) (ar : Archive) (gets : Gets P enc ar)
      (words : GetsWords ar) where
    load_class_lem :
        (k : ℕ) (c : Class) (v : Val) (rest : List ℕ)
        → s.validate k v ≡ true
        → ClassFits P c v
        → load_class (rfc_base be) s ar k c (encode_class enc c v ++ rest) ≡ ok (v, rest)
    unfolding load_class number
    load_class_lem k (struct ts) (seq vs) rest valid f =
        rw (get_fields_lem P enc ar gets ts vs rest f, valid)
    load_class_lem k (union tag fs) (choice d vs) rest valid f = rw (
      append_assoc (be32 d) (encode_active enc (with_mem_ptr fs d) vs) rest,
      words tag d (encode_active enc (with_mem_ptr fs d) vs ++ rest) f.0 f.1 f.2,
      check_discriminant_lem (field_number fs d)
          (field_number-ne-none fs d (ActiveFits-ne-none P (with_mem_ptr fs d) vs f.3)),
      get_active_lem P enc ar gets (with_mem_ptr fs d) vs rest f.3,
      valid,
    )
    load_class_lem _ _ _ rest valid f = absurd f

    get_counted_lem :
        (t : Ty) (bound : ℕ) (vs : Vals) (rest : List ℕ)
        → size vs ≤ bound
        → size vs < 2 ^ 32
        → AllFit (P t) vs
        → get_counted
            (rfc_base be)
            s
            ar
            t
            bound
            ((be32 (size vs) ++ encode_elems (enc t) vs) ++ rest)
          ≡ ok (seq vs, rest)
    unfolding get_counted number check_size
    get_counted_lem t bound vs rest h b f = rw (
      append_assoc (be32 (size vs)) (encode_elems (enc t) vs) rest,
      words uint32 (size vs) (encode_elems (enc t) vs ++ rest) (unfold kind in refl) b tt,
      le→ltb bound (size vs) h,
      get_elems_lem P enc ar gets bound t vs 0 rest (omega arith) f,
    )

    load_lem : Gets (NestedFits s P) (encode_nested s enc) (load (rfc_base be) s ar)
    unfolding load
    load_lem (xarray t n) (seq vs) rest f =
        rw (← f.0) (rw (get_elems_lem P enc ar gets (size vs) t vs 0 rest (omega arith) f.2))
    load_lem (xvector t n) (seq vs) rest f = get_counted_lem t n vs rest f.0 (omega arith) f.2
    load_lem (pointer t) (seq vs) rest f = get_counted_lem t 1 vs rest f.0 (omega arith) f.1
    load_lem (named k) v rest f = load_class_lem k (s.classes k) v rest f.0 f.1
    load_lem _ _ rest f = absurd f

  get-GetsWords : (limit : ℕ) → GetsWords (get (rfc_base be) s limit)
  unfolding get
  get-GetsWords zero t u rest k h r =
      rw k (get_word_lem (λ t inp. throw stack_overflow) t u rest h r)
  get-GetsWords (suc limit) t u rest k h r =
      rw k (get_word_lem (load (rfc_base be) s (get (rfc_base be) s limit)) t u rest h r)

  -- From the encoding of a value that fits its type, with any bytes behind it, `xdr_get` on a
  -- machine of either byte order returns that value and leaves those bytes.
  pub get-encode :
      (limit : ℕ) (t : Ty) (v : Val) (rest : List ℕ)
      → Fits s limit t v
      → get (rfc_base be) s limit t (encode s limit t v ++ rest) ≡ ok (v, rest)
  unfolding get Fits encode
  get-encode zero t v rest f =
      get_op_lem (λ t v. ⊥) (λ t v. []) _ (λ t v rest f. absurd f) (kind t) t v rest f
  get-encode (suc limit) t v rest f =
      get_op_lem (NestedFits s (Fits s limit)) (encode_nested s (encode s limit)) _
        (load_lem (Fits s limit) (encode s limit) _ (get-encode limit) (get-GetsWords limit))
        (kind t) t v rest f
