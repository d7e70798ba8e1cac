-- ===== src/Message.antt =====
-- xdrpp/message.h and marshal.cc: a message buffer with its record mark, and the functions of
-- xdrpp/marshal.h that turn values into a message and back.
pub mod Levels
pub mod Args
pub mod Mark
pub mod RoundTrip
use xdrpp.Common.{
  ℕ, zero, suc, ◌+◌, ◌-◌, ◌%◌, ◌^◌, Bool, List, [], ◌∷◌, ◌++◌, length, take, ltb, ◌==◌,
  if◌then◌else◌, bit_or,
}
use xdrpp.Common.Result.{Error, Res, ok, throw, fault, bad_message_size, ◌>>=◌}
use xdrpp.Endian.{swap32le}
use xdrpp.Types.{Ty, Val, Vals, nil, cons, Schema, size32}
use xdrpp.Types.Size.{serial_size}
use xdrpp.Marshal.{Out, rfc_base, store32}
use xdrpp.Marshal.Put.{put}
use xdrpp.Marshal.Get.{get, get_done}

-- `header` is the four bytes of `buf_`, `content` the bytes from `data()` to `end()`.
pub record Message : Type 0 where
  pub size : ℕ
  pub header : List ℕ
  pub content : List ℕ

abbrev pub raw_size : Message → ℕ
raw_size m = m.size + 4

-- The bytes from `raw_data()` on.
abbrev pub raw_data : Message → List ℕ
raw_data m = m.header ++ m.content

-- `std::out_of_range` beside the exceptions of the library.
pub data Shrunk : Type 0 where
  shrunk : Message → Shrunk
  out_of_range : Shrunk

abbrev pub Arg : Type 0
Arg = Ty × Val

module _ (is_big_endian : Bool) where
  -- The mark of a last fragment, as `alloc` and `shrink` store it.
  unfoldable pub mark : ℕ → List ℕ
  mark size = store32 is_big_endian (swap32le is_big_endian (bit_or size 0x80000000))

  -- `message_t::alloc`, where the assertion holds: the header, and the room for the content.
  unfoldable pub alloc : ℕ → Res (List ℕ × Out)
  unfolding mark
  alloc size = do
    _ ← if ltb size 0x80000000 then ok size else fault
    n ← size32 size
    ok (mark n, record { written = []; room = size })

  unfoldable pub shrink : ℕ → Message → Shrunk
  unfolding mark
  shrink newsize m =
      if ltb m.size newsize
      then out_of_range
      else shrunk
          (record { size = newsize; header = mark newsize; content = take newsize m.content })

  module _ (s : Schema) (depth limit : ℕ) where
    unfoldable pub xdr_argpack_size : List Arg → Res ℕ
    xdr_argpack_size [] = ok 0
    xdr_argpack_size ((t, v) ∷ args) = do
      a ← serial_size s depth v t
      b ← xdr_argpack_size args
      ok (a + b)

    unfoldable pub put_args : List Arg → Out → Res Out
    put_args [] o = ok o
    put_args ((t, v) ∷ args) o = do
      o' ← put (rfc_base is_big_endian) s limit t v o
      put_args args o'

    -- The assertion `p.p_ == p.e_` stands at the end.
    unfoldable pub xdr_to_msg : List Arg → Res Message
    xdr_to_msg args = do
      n ← xdr_argpack_size args
      (header, o) ← alloc n
      o' ← put_args args o
      if o'.room == 0
          then ok (record { size = n; header = header; content = o'.written })
          else fault

    -- `xdr_to_opaque` fills a vector of bytes in the same way; its size is bounded by its type.
    unfoldable pub xdr_to_opaque : List Arg → Res (List ℕ)
    xdr_to_opaque args = do
      n ← xdr_argpack_size args
      o' ← put_args args (record { written = []; room = n })
      if o'.room == 0 then ok o'.written else fault

    unfoldable pub get_args : List Ty → List ℕ → Res (Vals × List ℕ)
    get_args [] inp = ok (nil, inp)
    get_args (t ∷ ts) inp = do
      (v, inp1) ← get (rfc_base is_big_endian) s limit t inp
      (vs, inp2) ← get_args ts inp1
      ok (cons v vs, inp2)

    -- The constructor of `xdr_generic_get`.
    unfoldable pub open_get : List ℕ → Res (List ℕ)
    open_get inp = if length inp % 4 == 0 then ok inp else throw bad_message_size

    -- `xdr_from_opaque`
    unfoldable pub xdr_from_opaque : List Ty → List ℕ → Res Vals
    unfolding open_get
    xdr_from_opaque ts inp = do
      inp1 ← open_get inp
      (vs, inp2) ← get_args ts inp1
      _ ← get_done inp2
      ok vs

    unfoldable pub xdr_from_msg : List Ty → Message → Res Vals
    unfolding xdr_from_opaque
    xdr_from_msg ts m = xdr_from_opaque ts m.content
