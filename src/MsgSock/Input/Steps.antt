-- ===== src/MsgSock/Input/Steps.antt =====
-- The branches of a turn, and the number in a record mark.
use xdrpp.Common.{
  ℕ, ◌^◌, ◌<◌, ◌≤◌, ◌≡◌, arith, length, Bool, true, false, none, some, List, [], ◌∷◌, All, take,
  ltb,
}
use xdrpp.Endian.{swap32le}
use xdrpp.Marshal.{load32}
use xdrpp.Marshal.Words.{be32, swap32-join}
use xdrpp.MsgSock.Input.{
  Delivery, Receiver, ReadResult, back, then_parse, nextlen, read_body, read_mark, open_message,
  parse, turn,
}

module _ (be : Bool) (maxmsglen : ℕ) (can_alloc : ℕ → Bool) (destroys : List Delivery → Bool)
    (r : Receiver) where
  pub parse_waiting : (n : ℕ) → r.rdmsg ≡ some n → parse be maxmsglen can_alloc destroys r ≡ back r
  unfolding parse
  parse_waiting n e = rw e

  pub parse_part :
      r.rdmsg ≡ none → ltb r.rdpos 4 ≡ true → parse be maxmsglen can_alloc destroys r ≡ back r
  unfolding parse
  parse_part e h = rw (e, h)

  pub parse_whole :
      r.rdmsg ≡ none
      → ltb r.rdpos 4 ≡ false
      → parse be maxmsglen can_alloc destroys r
        ≡ open_message be maxmsglen can_alloc destroys (nextlen be r.mark) r
  unfolding parse
  parse_whole e h = rw (e, h)

  pub turn_body :
      (a : ReadResult) (n : ℕ)
      → r.rdmsg ≡ some n
      → turn be maxmsglen can_alloc destroys a r
        ≡ then_parse be maxmsglen can_alloc destroys
            (read_body be maxmsglen can_alloc destroys n a r)
  unfolding turn
  turn_body a n e = rw e

  pub turn_mark :
      (a : ReadResult)
      → r.rdmsg ≡ none
      → ltb r.rdpos 4 ≡ true
      → turn be maxmsglen can_alloc destroys a r
        ≡ then_parse be maxmsglen can_alloc destroys (read_mark be maxmsglen can_alloc destroys a r)
  unfolding turn
  turn_mark a e h = rw (e, h)

  pub turn-parse :
      (a : ReadResult)
      → r.rdmsg ≡ none
      → ltb r.rdpos 4 ≡ false
      → turn be maxmsglen can_alloc destroys a r ≡ parse be maxmsglen can_alloc destroys r
  unfolding turn
  turn-parse a e h = rw (e, h)

-- Four bytes are the encoding of the number that `nextlen` makes of them.
pub be32-nextlen :
    (be : Bool) (mark : List ℕ)
    → 4 ≤ length mark
    → All (λ b. b < 256) mark
    → (be32 (nextlen be mark) ≡ take 4 mark) × (nextlen be mark < 2 ^ 32)
unfolding nextlen load32 swap32le be32
be32-nextlen true (a ∷ b ∷ c ∷ d ∷ rest) h (ha, (hb, (hc, (hd, _)))) = ground arith
be32-nextlen false (a ∷ b ∷ c ∷ d ∷ rest) h (ha, (hb, (hc, (hd, _)))) =
    rw (swap32-join a b c d) (ground arith)
be32-nextlen be [] h w = absurd (omega arith)
be32-nextlen be (_ ∷ []) h w = absurd (omega arith)
be32-nextlen be (_ ∷ _ ∷ []) h w = absurd (omega arith)
be32-nextlen be (_ ∷ _ ∷ _ ∷ []) h w = absurd (omega arith)
