-- ===== src/Message/Mark.antt =====
-- The record mark of RFC5531, section 11: the length with the top bit set, most significant byte
-- first.
use xdrpp.Common.{
  ◌++◌, drop, ltb→lt, length-take, take-append-drop, refl, ◌≤◌, ℕ, ◌+◌, ◌^◌, ◌<◌, ◌≡◌, ap, ◌∙◌,
  arith, Bool, true, false, ltb, bit_or, length, ltb→le, Bool-cases, inl, inr,
}
use xdrpp.Common.Bits.{bit_or_top}
use xdrpp.Endian.{swap32le}
use xdrpp.Marshal.{store32}
use xdrpp.Marshal.Words.{be32, store32-swap32}
use xdrpp.Message.{Message, Shrunk, shrunk, out_of_range, mark, shrink}

pub mark_lem : (be : Bool) (n : ℕ) → n < 2 ^ 31 → mark be n ≡ be32 (n + 2 ^ 31)
unfolding mark swap32le store32 be32
mark_lem true n h = ap be32 (bit_or_top 31 n h)
mark_lem false n h =
    store32-swap32 (bit_or n 0x80000000) (omega (arith, bit_or_top 31 n h))
    ∙ ap be32 (bit_or_top 31 n h)

-- A message as the network wants it: the mark of its length stands before its content.
pub record IsFramed (m : Message) : Type 0 where
  pub bounded : m.size < 2 ^ 31
  pub counted : length m.content ≡ m.size
  pub marked : m.header ≡ be32 (m.size + 2 ^ 31)

-- What `shrink newsize` may make of a message.
pub data Shrinks (m : Message) (newsize : ℕ) : Shrunk → Type 0 where
  grows : m.size < newsize → Shrinks m newsize out_of_range
  cut :
      {t : Message}
      → IsFramed t
      → t.size ≡ newsize
      → t.content ++ drop newsize m.content ≡ m.content
      → Shrinks m newsize (shrunk t)

-- Of a framed message `shrink newsize` makes a framed message of that size whose content is the
-- front of the old one, or, where the message is shorter than `newsize`, throws.
pub shrink-IsFramed :
    (be : Bool) (newsize : ℕ) (m : Message) → IsFramed m → Shrinks m newsize (shrink be newsize m)
unfolding shrink
shrink-IsFramed be newsize m f = elim (Bool-cases (ltb m.size newsize)) [
  | inl longer ↦ rw longer (grows (ltb→lt m.size newsize longer))
  | inr fits ↦
      let h : newsize ≤ m.size = ltb→le m.size newsize fits in
      rw fits (
        cut
          (record {
            bounded = omega (arith, h, f.bounded);
            counted = length-take newsize m.content (omega (arith, h, f.counted));
            marked = mark_lem be newsize (omega (arith, h, f.bounded));
          })
          refl (take-append-drop newsize m.content))
]
