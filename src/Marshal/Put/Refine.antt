-- ===== src/Marshal/Put/Refine.antt =====
-- `xdr_put` writes the encoding of every value that fits its type, and throws `xdr_overflow` where
-- the buffer is too small, on machines of either byte order.
use xdrpp.Common.{
  ℕ, zero, suc, ◌+◌, ◌-◌, ◌%◌, ◌^◌, ◌≤◌, ◌<◌, ◌≡◌, refl, sym, arith, Bool, Option, none, some, List,
  [], ◌∷◌, ◌++◌, length, length-append, append-nil, append_assoc, ltb, if◌then◌else◌, fun_ext,
}
use xdrpp.Common.Result.{Res, ok, throw, overflow, stack_overflow, ◌>>=◌}
use xdrpp.Types.{
  Ty, uint32, xarray, xvector, pointer, named, Kind, word, dword, nested, fixed_bytes,
  variable_bytes, kind, Val, num, bytes, seq, choice, Vals, nil, cons, size, UnionField, Class,
  struct, union, Schema, with_mem_ptr, size32,
}
use xdrpp.Marshal.{Out, write, rfc_base, put_bytes}
use xdrpp.Marshal.Words.{be32, be64, length-be32, length-be64, put32_lem, put64_lem, write-append}
use xdrpp.Marshal.Bytes.{padded, put_bytes_lem, length-padded}
use xdrpp.Types.Save.{put_elems, put_fields, put_field, put_active, save_class, save}
use xdrpp.Marshal.Put.{check, put_op, put}
use xdrpp.Marshal.Put.Encode.{
  AllFit, FieldsFit, FieldFits, ActiveFits, ClassFits, KindFits, NestedFits, Fits, encode_elems,
  encode_fields, encode_field, encode_active, encode_class, encode_kind, encode_nested, encode,
  IsWhole, encode-IsWhole,
}

-- All of `bs` or, if it does not fit the buffer, an exception.
unfoldable pub emit : List ℕ → Out → Res Out
emit bs o =
    if ltb o.room (length bs)
    then throw overflow
    else ok (record { written = o.written ++ bs; room = o.room - length bs })

pub emit-nil : (o : Out) → emit [] o ≡ ok o
unfolding emit
emit-nil o = ground (arith, append-nil o.written)

-- One piece after another is the whole; the rest runs in a buffer of whole words again.
pub emit_then :
    (xs ys : List ℕ) (k : Out → Res Out) (o : Out)
    → IsWhole xs
    → o.room % 4 ≡ 0
    → ((o' : Out) → o'.room % 4 ≡ 0 → k o' ≡ emit ys o')
    → (emit xs o >>= k) ≡ emit (xs ++ ys) o
unfolding emit
emit_then xs ys k o wx wo h = ground (
  arith,
  length-append xs ys,
  append_assoc o.written xs ys,
  h (record { written = o.written ++ xs; room = o.room - length xs }),
)

-- A check that may forget the padding still guards a store of whole words.
check-write :
    (n : ℕ) (bs : List ℕ) (o : Out)
    → o.room % 4 ≡ 0
    → IsWhole bs
    → n ≤ length bs
    → length bs < n + 4
    → (check n o >>= write bs) ≡ emit bs o
unfolding check write emit
check-write n bs o wo wb lo hi = ground arith

abbrev Emits : (Ty → Val → Type 0) → (Ty → Val → List ℕ) → (Ty → Val → Out → Res Out) → Type 0
Emits P enc ar = (t : Ty) (v : Val) (o : Out) → P t v → o.room % 4 ≡ 0 → ar t v o ≡ emit (enc t v) o

-- A number of 32 bits is stored whatever else its type says.
abbrev EmitsWords : (Ty → Val → Out → Res Out) → Type 0
EmitsWords ar =
    (t : Ty) (u : ℕ) (o : Out)
    → kind t ≡ word
    → u < 2 ^ 32
    → o.room % 4 ≡ 0
    → ar t (num u) o ≡ emit (be32 u) o

module _ (P : Ty → Val → Type 0) (enc : Ty → Val → List ℕ) (ar : Ty → Val → Out → Res Out)
    (whole : (t : Ty) (v : Val) → IsWhole (enc t v)) (emits : Emits P enc ar) where
  put_elems_lem :
      (t : Ty) (vs : Vals) (o : Out)
      → AllFit (P t) vs
      → o.room % 4 ≡ 0
      → put_elems (ar t) vs o ≡ emit (encode_elems (enc t) vs) o
  unfolding put_elems
  put_elems_lem t nil o f w = sym (emit-nil o)
  put_elems_lem t (cons v vs) o f w =
      rw (emits t v o f.0 w)
        (emit_then (enc t v) _ _ o (whole t v) w (λ o' w'. put_elems_lem t vs o' f.1 w'))

  put_fields_lem :
      (ts : List Ty) (vs : Vals) (o : Out)
      → FieldsFit P ts vs
      → o.room % 4 ≡ 0
      → put_fields ar ts vs o ≡ emit (encode_fields enc ts vs) o
  unfolding put_fields
  put_fields_lem [] nil o f w = sym (emit-nil o)
  put_fields_lem [] (cons v vs) o f w = absurd f
  put_fields_lem (t ∷ ts) nil o f w = absurd f
  put_fields_lem (t ∷ ts) (cons v vs) o f w =
      rw (emits t v o f.0 w)
        (emit_then (enc t v) _ _ o (whole t v) w (λ o' w'. put_fields_lem ts vs o' f.1 w'))

  put_field_lem :
      (decl : Option Ty) (vs : Vals) (o : Out)
      → FieldFits P decl vs
      → o.room % 4 ≡ 0
      → put_field ar decl vs o ≡ emit (encode_field enc decl vs) o
  unfolding put_field
  put_field_lem none nil o f w = sym (emit-nil o)
  put_field_lem none (cons v vs) o f w = absurd f
  put_field_lem (some t) nil o f w = absurd f
  put_field_lem (some t) (cons v nil) o f w = emits t v o f w
  put_field_lem (some t) (cons v (cons u vs)) o f w = absurd f

  put_active_lem :
      (a : Option UnionField) (vs : Vals) (o : Out)
      → ActiveFits P a vs
      → o.room % 4 ≡ 0
      → put_active ar a vs o ≡ emit (encode_active enc a vs) o
  unfolding put_active
  put_active_lem none vs o f w = absurd f
  put_active_lem (some a) vs o f w = put_field_lem a.decl vs o f w

pub size32_lem : (n : ℕ) → n < 2 ^ 32 → size32 n ≡ ok n
unfolding size32
size32_lem n h = ground arith

module _ (be : Bool) (s : Schema) where
  -- A length word and the padded bytes that it counts, behind one check.
  put_string :
      (bs : List ℕ) (o : Out)
      → length bs < 2 ^ 32
      → o.room % 4 ≡ 0
      → (check (4 + length bs) o >>= λ o1. (rfc_base be).put32 (length bs) o1 >>= put_bytes bs)
        ≡ emit (be32 (length bs) ++ padded bs) o
  put_string bs o h w = rw (fun_ext (λ (x : Out). together x)) (
      check-write (4 + length bs) (be32 (length bs) ++ padded bs) o w
        (omega (
          arith,
          length-append (be32 (length bs)) (padded bs),
          length-be32 (length bs),
          length-padded bs,
        ))
        (omega (
          arith,
          length-append (be32 (length bs)) (padded bs),
          length-be32 (length bs),
          length-padded bs,
        ))
        (omega (
          arith,
          length-append (be32 (length bs)) (padded bs),
          length-be32 (length bs),
          length-padded bs,
        )))
    where
      together :
          (x : Out)
          → ((rfc_base be).put32 (length bs) x >>= put_bytes bs)
            ≡ write (be32 (length bs) ++ padded bs) x
      together x =
          rw (put32_lem be (length bs) x h, fun_ext (put_bytes_lem bs))
            (write-append (be32 (length bs)) (padded bs) x)

  put_word_lem :
      (sv : Ty → Val → Out → Res Out) (t : Ty) (u : ℕ) (o : Out)
      → u < 2 ^ 32
      → o.room % 4 ≡ 0
      → put_op (rfc_base be) s sv word t (num u) o ≡ emit (be32 u) o
  unfolding put_op
  put_word_lem sv t u o h w = rw (fun_ext (λ x. put32_lem be u x h)) (
      check-write 4 (be32 u) o w (omega (arith, length-be32 u)) (omega (arith, length-be32 u))
        (omega (arith, length-be32 u)))

  put_op_lem :
      (P : Ty → Val → Type 0) (enc : Ty → Val → List ℕ) (sv : Ty → Val → Out → Res Out)
      → Emits P enc sv
      → (k : Kind) (t : Ty) (v : Val) (o : Out) → KindFits P k t v
      → o.room % 4 ≡ 0
      → put_op (rfc_base be) s sv k t v o ≡ emit (encode_kind enc k t v) o
  unfolding put_op
  put_op_lem P enc sv emits word t (num u) o f w = put_word_lem sv t u o f.0 w
  put_op_lem P enc sv emits dword t (num u) o f w = rw (fun_ext (λ x. put64_lem be u x f)) (
      check-write 8 (be64 u) o w (omega (arith, length-be64 u)) (omega (arith, length-be64 u))
        (omega (arith, length-be64 u)))
  put_op_lem P enc sv emits (fixed_bytes n) t (bytes bs) o f w = rw (fun_ext (put_bytes_lem bs)) (
      check-write (length bs) (padded bs) o w (omega (arith, length-padded bs))
        (omega (arith, length-padded bs)) (omega (arith, length-padded bs)))
  put_op_lem P enc sv emits (variable_bytes n) t (bytes bs) o f w =
      rw (size32_lem (length bs) (omega arith)) (put_string bs o (omega arith) w)
  put_op_lem P enc sv emits nested t v o f w = emits t v o f w
  put_op_lem P enc sv emits word t (bytes _) o f w = absurd f
  put_op_lem P enc sv emits word t (seq _) o f w = absurd f
  put_op_lem P enc sv emits word t (choice _ _) o f w = absurd f
  put_op_lem P enc sv emits _ _ _ o f w = absurd f

  module _ (P : Ty → Val → Type 0) (enc : Ty → Val → List ℕ) (ar : Ty → Val → Out → Res Out)
      (whole : (t : Ty) (v : Val) → IsWhole (enc t v)) (emits : Emits P enc ar)
      (words : EmitsWords ar) where
    save_class_lem :
        (c : Class) (v : Val) (o : Out)
        → ClassFits P c v
        → o.room % 4 ≡ 0
        → save_class s ar c v o ≡ emit (encode_class enc c v) o
    unfolding save_class
    save_class_lem (struct ts) (seq vs) o f w = put_fields_lem P enc ar whole emits ts vs o f w
    save_class_lem (union tag fs) (choice d vs) o f w = rw (words tag d o f.0 f.1 w) (
        emit_then (be32 d) _ _ o (omega (arith, length-be32 d)) w
          (λ o' w'. put_active_lem P enc ar whole emits (with_mem_ptr fs d) vs o' f.3 w'))
    save_class_lem _ _ o f w = absurd f

    put_counted :
        (t : Ty) (vs : Vals) (o : Out)
        → size vs < 2 ^ 32
        → AllFit (P t) vs
        → o.room % 4 ≡ 0
        → (size32 (size vs) >>= λ k. ar uint32 (num k) o >>= put_elems (ar t) vs)
          ≡ emit (be32 (size vs) ++ encode_elems (enc t) vs) o
    put_counted t vs o h f w = rw (size32_lem (size vs) h) (
        rw (words uint32 (size vs) o (unfold kind in refl) h w) (
          emit_then (be32 (size vs)) _ _ o (omega (arith, length-be32 (size vs))) w
            (λ o' w'. put_elems_lem P enc ar whole emits t vs o' f w')))

    save_lem : Emits (NestedFits s P) (encode_nested s enc) (save s ar)
    unfolding save
    save_lem (xarray t n) (seq vs) o f w = put_elems_lem P enc ar whole emits t vs o f.2 w
    save_lem (xvector t n) (seq vs) o f w = put_counted t vs o (omega arith) f.2 w
    save_lem (pointer t) (seq vs) o f w = put_counted t vs o (omega arith) f.1 w
    save_lem (named k) v o f w = save_class_lem (s.classes k) v o f.1 w
    save_lem _ _ o f w = absurd f

  put-EmitsWords : (limit : ℕ) → EmitsWords (put (rfc_base be) s limit)
  unfolding put
  put-EmitsWords zero t u o k h w = rw k (put_word_lem (λ t v o. throw stack_overflow) t u o h w)
  put-EmitsWords (suc limit) t u o k h w =
      rw k (put_word_lem (save s (put (rfc_base be) s limit)) t u o h w)

  -- On every value that fits its type, `xdr_put` on a machine of either byte order writes the
  -- encoding behind what a buffer of whole words holds, or throws `xdr_overflow` where the encoding
  -- is longer than the room that is left.
  pub put-encode :
      (limit : ℕ) (t : Ty) (v : Val) (o : Out)
      → Fits s limit t v
      → o.room % 4 ≡ 0
      → put (rfc_base be) s limit t v o ≡ emit (encode s limit t v) o
  unfolding put Fits encode
  put-encode zero t v o f w =
      put_op_lem (λ t v. ⊥) (λ t v. []) _ (λ t v o f w. absurd f) (kind t) t v o f w
  put-encode (suc limit) t v o f w =
      put_op_lem (NestedFits s (Fits s limit)) (encode_nested s (encode s limit)) _
        (save_lem (Fits s limit) (encode s limit) _ (encode-IsWhole s limit) (put-encode limit)
          (put-EmitsWords limit))
        (kind t) t v o f w
