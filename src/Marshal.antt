-- ===== src/Marshal.antt =====
-- xdrpp/marshal.h and marshal.cc: the buffer that an archive walks over, the numeric mixins
-- `marshal_noswap` and `marshal_swap`, and the padded byte strings of `marshal_base`.
-- A writer is what stands before `p_` and the count of bytes from `p_` up to `e_`; a reader is the
-- list of the bytes from `p_` up to `e_`.
pub mod Words
pub mod Bytes
pub mod Put
pub mod Get
use xdrpp.Common.{
  ℕ, zero, suc, ◌+◌, ◌-◌, ◌*◌, ◌/◌, ◌%◌, ◌^◌, Bool, List, [], ◌∷◌, ◌++◌, length, take, drop, ltb,
  ◌==◌, if◌then◌else◌,
}
use xdrpp.Common.Result.{
  Error, Res, ok, throw, fault, overflow, should_be_zero, bad_message_size, ◌>>=◌,
}
use xdrpp.Endian.{swap32}

pub record Out : Type 0 where
  pub written : List ℕ
  pub room : ℕ

-- A store through `p_`, which then moves past it.
unfoldable pub write : List ℕ → Out → Res Out
write bs o =
    if ltb o.room (length bs)
    then fault
    else ok (record { written = o.written ++ bs; room = o.room - length bs })

-- How the machine lays a word out in memory. A cell holds a byte, so what is read is below 256.
unfoldable pub store32 : Bool → ℕ → List ℕ
store32 is_big_endian v =
    if is_big_endian
    then v / 2 ^ 24 % 256 ∷ v / 2 ^ 16 % 256 ∷ v / 2 ^ 8 % 256 ∷ v % 256 ∷ []
    else v % 256 ∷ v / 2 ^ 8 % 256 ∷ v / 2 ^ 16 % 256 ∷ v / 2 ^ 24 % 256 ∷ []

abbrev pub join : ℕ → ℕ → ℕ → ℕ → ℕ
join a b c d = a % 256 * 2 ^ 24 + b % 256 * 2 ^ 16 + c % 256 * 2 ^ 8 + d % 256

unfoldable pub load32 : Bool → List ℕ → Res (ℕ × List ℕ)
load32 is_big_endian (a ∷ b ∷ c ∷ d ∷ rest) =
    ok (if is_big_endian then join a b c d else join d c b a, rest)
load32 is_big_endian _ = fault

-- `u64conv`: the words `u32[0]` and `u32[1]` of a 64-bit value in memory order, and back.
unfoldable pub first_word : Bool → ℕ → ℕ
first_word is_big_endian u = if is_big_endian then u / 2 ^ 32 else u % 2 ^ 32

unfoldable pub second_word : Bool → ℕ → ℕ
second_word is_big_endian u = if is_big_endian then u % 2 ^ 32 else u / 2 ^ 32

unfoldable pub join_words : Bool → ℕ → ℕ → ℕ
join_words is_big_endian first second =
    if is_big_endian then first * 2 ^ 32 + second else second * 2 ^ 32 + first

-- What a mixin gives to the archives.
pub record Base : Type 0 where
  pub put32 : ℕ → Out → Res Out
  pub put64 : ℕ → Out → Res Out
  pub get32 : List ℕ → Res (ℕ × List ℕ)
  pub get64 : List ℕ → Res (ℕ × List ℕ)

module _ (is_big_endian : Bool) where
  unfoldable pub marshal_noswap : Base
  marshal_noswap = record {
    put32 = λ v o. write (store32 is_big_endian v) o;
    put64 = λ u o. do
      o' ← write (store32 is_big_endian (first_word is_big_endian u)) o
      write (store32 is_big_endian (second_word is_big_endian u)) o';
    get32 = load32 is_big_endian;
    get64 = λ inp. do
      (first, inp1) ← load32 is_big_endian inp
      (second, inp2) ← load32 is_big_endian inp1
      ok (join_words is_big_endian first second, inp2);
  }

  unfoldable pub marshal_swap : Base
  marshal_swap = record {
    put32 = λ v o. write (store32 is_big_endian (swap32 v)) o;
    put64 = λ u o. do
      o' ← write (store32 is_big_endian (swap32 (second_word is_big_endian u))) o
      write (store32 is_big_endian (swap32 (first_word is_big_endian u))) o';
    get32 = λ inp. do
      (v, rest) ← load32 is_big_endian inp
      ok (swap32 v, rest);
    get64 = λ inp. do
      (second, inp1) ← load32 is_big_endian inp
      (first, inp2) ← load32 is_big_endian inp1
      ok (join_words is_big_endian (swap32 first) (swap32 second), inp2);
  }

  -- The mixin of `xdr_put` and `xdr_get`.
  unfoldable pub rfc_base : Base
  rfc_base = if is_big_endian then marshal_noswap else marshal_swap

-- `memcpy` out of the buffer.
unfoldable pub read : ℕ → List ℕ → Res (List ℕ × List ℕ)
read n inp = if ltb (length inp) n then fault else ok (take n inp, drop n inp)

-- `while (len & 3)` of `put_bytes` and `get_bytes`: at most three rounds, which the first argument
-- counts. `&` with 3 is the remainder by 4.
unfoldable pub put_padding : ℕ → ℕ → Out → Res Out
put_padding zero len o = ok o
put_padding (suc rounds) len o =
    let more = write (0 ∷ []) o >>= put_padding rounds (len + 1) in
    if len % 4 == 0 then ok o else more

unfoldable pub put_bytes : List ℕ → Out → Res Out
unfolding put_padding
put_bytes [] o = ok o
put_bytes (b ∷ bs) o = do o' ← write (b ∷ bs) o; put_padding 3 (length (b ∷ bs)) o'

unfoldable pub get_padding : ℕ → ℕ → List ℕ → Res (List ℕ)
get_padding zero len inp = ok inp
get_padding (suc rounds) len [] = if len % 4 == 0 then ok [] else fault
get_padding (suc rounds) len (c ∷ rest) =
    let more = get_padding rounds (len + 1) rest in
    if len % 4 == 0 then ok (c ∷ rest) else if c == 0 then more else throw should_be_zero

unfoldable pub get_bytes : ℕ → List ℕ → Res (List ℕ × List ℕ)
unfolding get_padding
get_bytes zero inp = ok ([], inp)
get_bytes (suc n) inp = do
  (bs, rest) ← read (suc n) inp
  rest' ← get_padding 3 (suc n) rest
  ok (bs, rest')
