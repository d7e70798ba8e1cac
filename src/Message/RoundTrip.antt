-- ===== src/Message/RoundTrip.antt =====
-- Values go through a message and come back.
use xdrpp.Common.{
  ℕ, ◌+◌, ◌%◌, ◌^◌, ◌<◌, ◌≡◌, refl, sym, ap, arith, Bool, List, [], ◌∷◌, ◌++◌, length,
  length-append, append-nil, append_assoc, ◌==◌, lt→ltb, ==_iff, Bool-cases, inl, inr,
}
use xdrpp.Common.Result.{ok, throw, bad_message_size, ◌>>=◌, Ensures, returns, throws, Ensures-bind}
use xdrpp.Types.{Ty, Schema, size32}
use xdrpp.Types.Size.Exact.{serial_size-eq-length}
use xdrpp.Marshal.{Out}
use xdrpp.Marshal.Words.{be32}
use xdrpp.Marshal.Put.Encode.{encode, encode-IsWhole}
use xdrpp.Marshal.Put.Refine.{emit, emit-nil, emit_then, put-encode}
use xdrpp.Marshal.Get.{get_done}
use xdrpp.Marshal.Get.RoundTrip.{get-encode}
use xdrpp.Marshal.Get.Formed.{AreTys, IsSchema}
use xdrpp.Marshal.Get.Sound.{get_sound}
use xdrpp.Message.{
  Arg, alloc, xdr_argpack_size, put_args, xdr_to_msg, xdr_to_opaque, get_args, open_get,
  xdr_from_opaque, xdr_from_msg,
}
use xdrpp.Message.Args.{
  types, values, ArgsFit, encode_args, AllFitTypes, length_of, encode_args-IsWhole,
}
use xdrpp.Message.Mark.{mark_lem}

module _ (be : Bool) (s : Schema) (limit : ℕ) where
  size_args :
      (depth : ℕ) (args : List Arg)
      → ArgsFit s limit args
      → xdr_argpack_size be s depth limit args ≡ ok (length (encode_args s limit args))
  unfolding xdr_argpack_size
  size_args depth [] f = refl
  size_args depth ((t, v) ∷ args) f =
      rw (serial_size-eq-length s depth limit t v f.0, size_args depth args f.1)
        (ap ok (sym (length-append (encode s limit t v) (encode_args s limit args))))

  pub put_args_lem :
      (depth : ℕ) (args : List Arg) (o : Out)
      → ArgsFit s limit args
      → o.room % 4 ≡ 0
      → put_args be s depth limit args o ≡ emit (encode_args s limit args) o
  unfolding put_args
  put_args_lem depth [] o f w = sym (emit-nil o)
  put_args_lem depth ((t, v) ∷ args) o f w = rw (put-encode be s limit t v o f.0 w) (
      emit_then (encode s limit t v) _ _ o (encode-IsWhole s limit t v) w
        (λ o' w'. put_args_lem depth args o' f.1 w'))

  -- A buffer of the computed size is filled to its end.
  pub emit_full :
      (bs : List ℕ)
      → emit bs (record { written = []; room = length bs }) ≡ ok (record { written = bs; room = 0 })
  unfolding emit
  emit_full bs = ground arith

  -- Of arguments that fit their types and whose encodings have less than 2 ^ 31 bytes together,
  -- `xdr_to_msg` makes a message with exactly those encodings, one behind the other, and a record
  -- mark of their length with the top bit set, in network order on either machine.
  pub xdr_to_msg_lem :
      (depth : ℕ) (args : List Arg)
      → ArgsFit s limit args
      → length (encode_args s limit args) < 2 ^ 31
      → xdr_to_msg be s depth limit args
        ≡ ok (record {
          size = length (encode_args s limit args);
          header = be32 (length (encode_args s limit args) + 2 ^ 31);
          content = encode_args s limit args;
        })
  unfolding xdr_to_msg alloc size32
  xdr_to_msg_lem depth args f h = rw (
    size_args depth args f,
    lt→ltb (length (encode_args s limit args)) 0x80000000 h,
    lt→ltb (length (encode_args s limit args)) (2 ^ 32) (omega arith),
    put_args_lem depth args (record { written = []; room = length (encode_args s limit args) }) f
        (encode_args-IsWhole s limit args),
    emit_full (encode_args s limit args),
    mark_lem be (length (encode_args s limit args)) h,
  )

  -- `xdr_to_opaque` of arguments that fit their types returns their encodings, one behind the
  -- other.
  pub xdr_to_opaque_lem :
      (depth : ℕ) (args : List Arg)
      → ArgsFit s limit args
      → xdr_to_opaque be s depth limit args ≡ ok (encode_args s limit args)
  unfolding xdr_to_opaque
  xdr_to_opaque_lem depth args f = rw (
    size_args depth args f,
    put_args_lem depth args (record { written = []; room = length (encode_args s limit args) }) f
        (encode_args-IsWhole s limit args),
    emit_full (encode_args s limit args),
  )

  pub get_args_lem :
      (depth : ℕ) (args : List Arg) (rest : List ℕ)
      → ArgsFit s limit args
      → get_args be s depth limit (types args) (encode_args s limit args ++ rest)
        ≡ ok (values args, rest)
  unfolding get_args
  get_args_lem depth [] rest f = refl
  get_args_lem depth ((t, v) ∷ args) rest f = rw (
    append_assoc (encode s limit t v) (encode_args s limit args) rest,
    get-encode be s limit t v (encode_args s limit args ++ rest) f.0,
    get_args_lem depth args rest f.1,
  )

  pub xdr_from_opaque-encode :
      (depth : ℕ) (args : List Arg)
      → ArgsFit s limit args
      → xdr_from_opaque be s depth limit (types args) (encode_args s limit args) ≡ ok (values args)
  unfolding xdr_from_opaque get_done
  xdr_from_opaque-encode depth args f = rw (
    encode_args-IsWhole s limit args,
    (let read : get_args be s depth limit (types args) (encode_args s limit args)
            ≡ ok (values args, []) =
          rw append-nil at (get_args_lem depth args [] f) in
        read),
  )

  -- Where any byte follows the encodings of arguments that fit, `xdr_from_opaque` throws
  -- `xdr_bad_message_size`, whether the bytes are whole words or not.
  pub xdr_from_opaque_trailing :
      (depth : ℕ) (args : List Arg) (c : ℕ) (extra : List ℕ)
      → ArgsFit s limit args
      → xdr_from_opaque be s depth limit (types args) (encode_args s limit args ++ (c ∷ extra))
        ≡ throw bad_message_size
  unfolding xdr_from_opaque get_done
  xdr_from_opaque_trailing depth args c extra f =
      elim (Bool-cases (length (encode_args s limit args ++ (c ∷ extra)) % 4 == 0)) [
        | inl whole ↦ rw (whole, get_args_lem depth args (c ∷ extra) f)
        | inr broken ↦ rw broken
      ]

  -- What `get_args` gives on arbitrary input.
  pub get_args_sound :
      IsSchema s
      → (depth : ℕ) (ts : List Ty) (inp : List ℕ) → AreTys ts
      → length inp % 4 ≡ 0
      → Ensures
          (λ r. AllFitTypes s limit ts r.0 × (length inp ≡ length_of s limit ts r.0 + length r.1))
          (get_args be s depth limit ts inp)
  unfolding get_args
  get_args_sound ws depth [] inp w h = returns (tt, omega arith)
  get_args_sound ws depth (t ∷ ts) inp w h =
      Ensures-bind (get_sound be s ws limit t inp w.0 h) λ (v, inp1) (fits, taken).
        Ensures-bind
          (get_args_sound ws depth ts inp1 w.1 (omega (arith, encode-IsWhole s limit t v)))
          λ (vs, inp2) (fit, taken'). returns ((fits, fit), omega arith)

  open_get-Ensures :
      (inp : List ℕ)
      → Ensures (λ r. (r ≡ inp) × (length inp % 4 ≡ 0)) (open_get be s limit limit inp)
  unfolding open_get
  open_get-Ensures inp = elim (Bool-cases (length inp % 4 == 0)) [
    | inl whole ↦ rw whole (returns (refl, (==_iff (length inp % 4) 0).0 whole))
    | inr broken ↦ rw broken throws
  ]

  pub get_done-Ensures : (inp : List ℕ) → Ensures (λ r. inp ≡ []) (get_done inp)
  unfolding get_done
  get_done-Ensures [] = returns refl
  get_done-Ensures (c ∷ inp) = throws

  -- In a schema and for types that the compiler accepts, `xdr_from_opaque` returns or throws on any
  -- bytes at all: it reads nothing outside the buffer. What it returns fits the types asked for, and
  -- the buffer's length is that of its encoding.
  pub xdr_from_opaque_sound :
      IsSchema s
      → (depth : ℕ) (ts : List Ty) (inp : List ℕ) → AreTys ts
      → Ensures
          (λ vs. AllFitTypes s limit ts vs × (length inp ≡ length_of s limit ts vs))
          (xdr_from_opaque be s depth limit ts inp)
  unfolding xdr_from_opaque
  xdr_from_opaque_sound ws depth ts inp w =
      Ensures-bind (open_get-Ensures inp) λ inp1 (same, whole).
        Ensures-bind (get_args_sound ws depth ts inp1 w (rw same whole)) λ (vs, inp2) (fit, taken).
          Ensures-bind (get_done-Ensures inp2)
            λ _ empty. returns (fit, omega (arith, ap length same, ap length empty))

-- Of values that fit their types and whose encodings have less than 2 ^ 31 bytes together, a machine
-- of either byte order makes a message from which a machine of either byte order reads the same
-- values, in the same order.
pub xdr_from_msg-xdr_to_msg :
    (writer reader : Bool) (s : Schema) (depth limit : ℕ) (args : List Arg)
    → ArgsFit s limit args
    → length (encode_args s limit args) < 2 ^ 31
    → (xdr_to_msg writer s depth limit args >>= xdr_from_msg reader s depth limit (types args))
      ≡ ok (values args)
unfolding xdr_from_msg
xdr_from_msg-xdr_to_msg writer reader s depth limit args f h =
    rw (xdr_to_msg_lem writer s limit depth args f h)
      (xdr_from_opaque-encode reader s limit depth args f)
