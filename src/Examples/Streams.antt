-- ===== src/Examples/Streams.antt =====
-- Messages on a stream that comes in pieces, and the depth of values.
use xdrpp.Common.{
  ℕ, ◌+◌, ◌^◌, ◌≡◌, ◌↔◌, refl, arith, Bool, true, false, List, [], ◌∷◌, ◌++◌, length, replicate,
  length-replicate, append_assoc, length-append,
}
use xdrpp.Common.Result.{Returns}
use xdrpp.Types.{named}
use xdrpp.Marshal.Words.{be32}
use xdrpp.Marshal.Put.Encode.{Fits}
use xdrpp.MsgSock.Input.{ReadResult, got}
use xdrpp.Srpc.{read_message, not_multiple_of_4}
use xdrpp.Srpc.Frames.{IsPassed, Receives, read_message-Receives, read_message_refused}
use xdrpp.DepthChecker.{check_xdr_depth}
use xdrpp.DepthChecker.Limit.{check_xdr_depth-Fits}
use xdrpp.Examples.Data.{schema, list, list-Fits}

-- The list is nested four deep, and the limit is three.
check_xdr_depth_example :
    Returns
      (λ (b : Bool). (b ≡ true) ↔ Fits schema 3 (named 0) list)
      (check_xdr_depth schema (named 0) list 3)
check_xdr_depth_example = check_xdr_depth-Fits schema 4 3 (named 0) list list-Fits

-- Four bytes in three pieces, with the start of another message behind them.
abbrev pieces : List ReadResult
pieces = got (128 ∷ 0 ∷ []) ∷ got (0 ∷ 4 ∷ 1 ∷ 2 ∷ []) ∷ got (3 ∷ 4 ∷ 128 ∷ []) ∷ []

read_message-Receives_example : Receives (1 ∷ 2 ∷ 3 ∷ 4 ∷ []) (128 ∷ []) (read_message false pieces)
unfolding IsPassed be32
read_message-Receives_example =
    read_message-Receives false (1 ∷ 2 ∷ 3 ∷ 4 ∷ []) (128 ∷ []) pieces (omega arith) refl
      (omega arith, (omega arith, (omega arith, tt))) refl

zeros : ℕ → List ℕ
zeros n = replicate n 0

length-zeros : (n : ℕ) → length (zeros n) ≡ n
unfolding zeros
length-zeros n = length-replicate n 0

-- 16 megabytes of zeros.
abbrev content : List ℕ
content = zeros 16777216

abbrev one_piece : List ReadResult
one_piece = got (be32 (length content + 2 ^ 31) ++ content) ∷ []

read_message_refused_example : read_message false one_piece ≡ not_multiple_of_4
read_message_refused_example =
    read_message_refused content [] one_piece (omega (arith, length-zeros 16777216))
      (omega (arith, length-zeros 16777216))
      (
        omega
            (arith, length-append (be32 (length content + 2 ^ 31)) content, length-zeros 16777216),
        tt,
      )
      (append_assoc (be32 (length content + 2 ^ 31)) content [])
