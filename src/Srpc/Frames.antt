-- ===== src/Srpc/Frames.antt =====
-- Framed messages that `read_message` reads from a stream, and those that it refuses.
use xdrpp.Common.{
  ℕ, ◌+◌, ◌-◌, ◌/◌, ◌%◌, ◌^◌, ◌<◌, ◌≡◌, ◌≢◌, refl, sym, ap, ◌∙◌, arith, Bool, true, false, List, [],
  ◌++◌, length, take, drop, take-append, drop-append, length-append, if_true, if_false, eq→==,
  ne→==, le→ltb, ltb, if◌then◌else◌,
}
use xdrpp.Common.Result.{ok}
use xdrpp.Endian.{swap32, swap32le}
use xdrpp.Endian.Swap.{swap32_as_bytes, swap32-swap32}
use xdrpp.Marshal.{load32}
use xdrpp.Marshal.Words.{be32, length-be32}
use xdrpp.MsgSock.Input.{ReadResult}
use xdrpp.Srpc.{
  bytes_read, fullread, ReadMessage, received, not_multiple_of_4, fragments_unimplemented,
  whole_body, read_body, whole_mark, read_message,
}
use xdrpp.Srpc.Read.{ArePieces, stream, Reads, fullread-Reads}

load32-be32 : (be : Bool) (x : ℕ) → x < 2 ^ 32 → load32 be (be32 x) ≡ ok (swap32le be x, [])
unfolding load32 be32 swap32le
load32-be32 true x h = ap (λ (w : ℕ). ok (w, [])) (omega arith)
load32-be32 false x h = ap (λ (w : ℕ). ok (w, [])) (omega (arith, swap32_as_bytes x h))

swap32le-swap32le : (be : Bool) (x : ℕ) → x < 2 ^ 32 → swap32le be (swap32le be x) ≡ x
unfolding swap32le
swap32le-swap32le true x h = refl
swap32le-swap32le false x h = swap32-swap32 x h

-- The mark of a message of `len` bytes passes the test `len & 3`: on a big-endian machine where the
-- length is a multiple of 4, on a little-endian one where the highest byte of the length is.
unfoldable pub IsPassed : Bool → ℕ → Type 0
IsPassed true len = len % 4 ≡ 0
IsPassed false len = len / 2 ^ 24 % 4 ≡ 0

swap32_low : (x : ℕ) → x < 2 ^ 32 → swap32 x % 4 ≡ x / 2 ^ 24 % 4
swap32_low x h = omega (arith, swap32_as_bytes x h)

-- The word of a mark as it stands in memory.
module _ (be : Bool) (len : ℕ) (h : len < 2 ^ 31) where
  abbrev word : ℕ
  word = swap32le be (len + 2 ^ 31)

  word-IsPassed : IsPassed be len → word % 4 ≡ 0
  unfolding swap32le IsPassed
  word-IsPassed p = passes be p
    where
      passes : (be : Bool) → IsPassed be len → swap32le be (len + 2 ^ 31) % 4 ≡ 0
      passes true p = omega arith
      passes false p = omega (arith, swap32_low (len + 2 ^ 31) (omega arith))

  -- The mark is read, and the body is what follows.
  read_body_lem :
      (kernel : List ReadResult)
      → IsPassed be len
      → read_body be word kernel ≡ whole_body len (fullread len [] kernel)
  unfolding read_body
  read_body_lem kernel p =
      if_true _ _ (eq→== (word % 4) 0 (word-IsPassed p))
      ∙ ap
          (λ (n : ℕ).
            if ltb n (2 ^ 31)
            then fragments_unimplemented
            else whole_body (n - 2 ^ 31) (fullread (n - 2 ^ 31) [] kernel))
          (swap32le-swap32le be (len + 2 ^ 31) (omega arith))
      ∙ if_false _ _ (le→ltb (len + 2 ^ 31) (2 ^ 31) (omega arith))
      ∙ ap (λ (n : ℕ). whole_body n (fullread n [] kernel)) (omega arith)

  whole_mark_lem :
      (kernel : List ReadResult)
      → whole_mark be (bytes_read (be32 (len + 2 ^ 31)) kernel) ≡ read_body be word kernel
  unfolding whole_mark
  whole_mark_lem kernel = rw (load32-be32 be (len + 2 ^ 31) (omega arith), whole_mark) refl

-- A message with this content has been read, and the stream goes on with `rest`.
pub record Receives (content rest : List ℕ) (r : ReadMessage) : Type 0 where
  pub left : List ReadResult
  pub ends : r ≡ received content left
  pub pieces : ArePieces left
  pub remains : stream left ≡ rest

-- The mark in front of a stream is read first.
read_message-mark :
    (be : Bool) (len : ℕ) (body : List ℕ) (kernel : List ReadResult)
    → len < 2 ^ 31
    → ArePieces kernel
    → stream kernel ≡ be32 (len + 2 ^ 31) ++ body
    → (left : List ReadResult) × (read_message be kernel
        ≡ read_body be (swap32le be (len + 2 ^ 31)) left)
      × ArePieces left
      × (stream left ≡ body)
unfolding read_message
read_message-mark be len body kernel h p e =
    let r : Reads 4 [] kernel (fullread 4 [] kernel) = fullread-Reads 4 [] kernel p (
      omega (
        arith,
        ap length e,
        length-append (be32 (len + 2 ^ 31)) body,
        length-be32 (len + 2 ^ 31),
      )) in
    let four : 4 ≡ length (be32 (len + 2 ^ 31)) = sym (length-be32 (len + 2 ^ 31)) in
    (
      r.left,
      ap (whole_mark be) (
            r.ends
            ∙ ap (λ b. bytes_read b r.left)
                (ap (take 4) e ∙ take-append (be32 (len + 2 ^ 31)) body 4 four))
          ∙ whole_mark_lem be len h r.left,
      r.pieces,
      r.rest ∙ ap (drop 4) e ∙ drop-append (be32 (len + 2 ^ 31)) body 4 four,
    )

-- From a stream that begins with a framed message, in pieces of any sizes, `read_message` receives
-- the content and leaves what follows, where the mark passes the test `len & 3`: on a big-endian
-- machine where the length is a multiple of 4, on a little-endian one where the highest byte of the
-- length is.
pub read_message-Receives :
    (be : Bool) (content rest : List ℕ) (kernel : List ReadResult)
    → length content < 2 ^ 31
    → IsPassed be (length content)
    → ArePieces kernel
    → stream kernel ≡ be32 (length content + 2 ^ 31) ++ (content ++ rest)
    → Receives content rest (read_message be kernel)
unfolding whole_body
read_message-Receives be content rest kernel h ok' p e =
    let (left, is_body, pieces, body) =
      read_message-mark be (length content) (content ++ rest) kernel h p e in
    let r : Reads (length content) [] left (fullread (length content) [] left) =
      fullread-Reads (length content) [] left pieces
        (omega (arith, ap length body, length-append content rest)) in
    let taken : take (length content) (stream left) ≡ content =
      ap (take (length content)) body ∙ take-append content rest (length content) refl in
    record {
      left = r.left;
      ends =
          is_body
          ∙ read_body_lem be (length content) h left ok'
          ∙ ap (whole_body (length content)) (r.ends ∙ ap (λ b. bytes_read b r.left) taken)
          ∙ if_true _ _ (eq→== (length content) (length content) refl);
      pieces = r.pieces;
      remains =
          r.rest ∙ ap (drop (length content)) body ∙ drop-append content rest (length content) refl;
    }

-- On a little-endian machine `read_message` refuses a framed message, as one whose size is no
-- multiple of 4, wherever the highest byte of its length is no multiple of 4, and whatever the
-- length itself is.
pub read_message_refused :
    (content rest : List ℕ) (kernel : List ReadResult)
    → length content < 2 ^ 31
    → length content / 2 ^ 24 % 4 ≢ 0
    → ArePieces kernel
    → stream kernel ≡ be32 (length content + 2 ^ 31) ++ (content ++ rest)
    → read_message false kernel ≡ not_multiple_of_4
unfolding read_body swap32le
read_message_refused content rest kernel h n p e =
    let (left, is_body, pieces, body) =
      read_message-mark false (length content) (content ++ rest) kernel h p e in
    is_body
    ∙ if_false _ _ (
        ne→== (swap32 (length content + 2 ^ 31) % 4) 0
          (omega (arith, swap32_low (length content + 2 ^ 31) (omega arith), n)))
