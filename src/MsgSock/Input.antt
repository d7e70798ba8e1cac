-- ===== src/MsgSock/Input.antt =====
-- The input of `msg_sock`: `initcb` and `input`, which read record marks and messages in the pieces
-- that the kernel has.
pub mod Steps
pub mod Frames
pub mod Stream
use xdrpp.Common.{
  ℕ, zero, suc, ◌+◌, ◌-◌, ◌%◌, ◌^◌, Bool, true, false, not, ◌&&◌, ◌||◌, Option, none, some, List,
  [], ◌∷◌, ◌++◌, length, take, drop, ltb, leb, ◌==◌, if◌then◌else◌,
}
use xdrpp.Common.Result.{Res, ok}
use xdrpp.Endian.{swap32le}
use xdrpp.Marshal.{load32}

-- What the callback `rcb_` is called with: the content of a message, or a null pointer, which says
-- that the connection is over.
pub data Delivery : Type 0 where
  message : List ℕ → Delivery
  over : Delivery

-- What `read` and `readv` answer: bytes, EAGAIN (or EINTR), or another error. Of the bytes the caller
-- gets no more than it asks for, and none means the end of the stream.
pub data ReadResult : Type 0 where
  got : List ℕ → ReadResult
  again failed : ReadResult

-- `rdmsg` is the size of `rdmsg_`, and `body` the front of it that has been read; `mark` is what has
-- been read of `nextlen_`. `reading` says whether the pollset has a callback for reading. `log` is
-- what `rcb_` has been called with, and `taken` what the kernel has handed over.
pub record Receiver : Type 0 where
  pub rdmsg : Option ℕ
  pub body : List ℕ
  pub mark : List ℕ
  pub rdpos : ℕ
  pub reading : Bool
  pub destroyed : Bool
  pub log : List Delivery
  pub taken : List ℕ

abbrev pub opened : Receiver
opened = record {
  rdmsg = none;
  body = [];
  mark = [];
  rdpos = 0;
  reading = true;
  destroyed = false;
  log = [];
  taken = [];
}

-- The end of one turn of the loop: it goes on, or `input` returns.
pub data Turn : Type 0 where
  next back : Receiver → Turn

-- `nextlen()`
unfoldable pub nextlen : Bool → List ℕ → ℕ
nextlen is_big_endian mark = elim (load32 is_big_endian mark) [
  | ok (v, rest) ↦ swap32le is_big_endian v
  | _ ↦ 0
]

-- `maxmsglen` is the limit of the socket, `can_alloc` says whether `message_t::alloc` gets memory of
-- a size (for the empty message it does), and `destroys` whether the callback deletes the socket,
-- given all it has been called with.
module _ (is_big_endian : Bool) (maxmsglen : ℕ) (can_alloc : ℕ → Bool)
    (destroys : List Delivery → Bool) where
  unfoldable pub deliver : Delivery → Receiver → Receiver
  deliver d r = record r {
    log = r.log ++ (d ∷ []);
    destroyed = r.destroyed || destroys (r.log ++ (d ∷ []));
  }

  -- `readv` into the rest of `rdmsg_` and then into `nextlen_`.
  abbrev pub store_body : ℕ → List ℕ → Receiver → Receiver
  store_body size bs r = record r {
    body = take r.rdpos r.body ++ take (size - r.rdpos) bs;
    mark = drop (size - r.rdpos) bs;
    rdpos = r.rdpos + length bs;
    taken = r.taken ++ bs;
  }

  -- The message is complete: it goes to the callback, and `rdpos_` counts the bytes of the next mark.
  unfoldable pub body_done : ℕ → Receiver → Turn
  unfolding deliver
  body_done size r =
      if leb size r.rdpos
      then (let t = deliver (message r.body) (record r { rdmsg = none; rdpos = r.rdpos - size }) in
          if t.destroyed then back t else next t)
      else next r

  unfoldable pub read_body : ℕ → ReadResult → Receiver → Turn
  unfolding body_done deliver
  read_body size again r = back r
  read_body size failed r = back (deliver over r)
  read_body size (got bs) r =
      let bs' = take (size - r.rdpos + 4) bs in
      if length bs' == 0 then back (deliver over r) else body_done size (store_body size bs' r)

  -- `read` into the rest of `nextlen_`.
  abbrev pub store_mark : List ℕ → Receiver → Receiver
  store_mark bs r = record r {
    mark = take r.rdpos r.mark ++ bs;
    rdpos = r.rdpos + length bs;
    taken = r.taken ++ bs;
  }

  unfoldable pub read_mark : ReadResult → Receiver → Turn
  unfolding deliver
  read_mark again r = back r
  read_mark failed r = back (deliver over r)
  read_mark (got bs) r =
      let bs' = take (4 - r.rdpos) bs in
      if length bs' == 0 then back (deliver over r) else next (store_mark bs' r)

  -- `len & 0x80000000` of 32 bits is zero for the numbers below 2 ^ 31.
  unfoldable pub open_message : ℕ → Receiver → Turn
  unfolding deliver
  open_message len r =
      if ltb len (2 ^ 31)
      then back (deliver over r)
      else if len - 2 ^ 31 == 0
      then next (deliver (message []) (record r { rdpos = 0 }))
      else if ltb maxmsglen (len - 2 ^ 31)
      then next (deliver over (record r { reading = false }))
      else if can_alloc (len - 2 ^ 31)
      then next (record r { rdmsg = some (len - 2 ^ 31); body = []; rdpos = 0 })
      else next (deliver over r)

  -- The second half of a turn.
  unfoldable pub parse : Receiver → Turn
  unfolding open_message
  parse r = elim r.rdmsg [
    | some size ↦ back r
    | none ↦ if ltb r.rdpos 4 then back r else open_message (nextlen is_big_endian r.mark) r
  ]

  abbrev pub then_parse : Turn → Turn
  then_parse (next r) = parse r
  then_parse (back r) = back r

  -- One turn, with the kernel's answer if the turn reads.
  unfoldable pub turn : ReadResult → Receiver → Turn
  unfolding parse read_body read_mark
  turn a r = elim r.rdmsg [
    | some size ↦ then_parse (read_body size a r)
    | none ↦ if ltb r.rdpos 4 then then_parse (read_mark a r) else parse r
  ]

  -- At most `turns` turns, each with the kernel's answer to it.
  unfoldable pub input_loop : List ReadResult → Receiver → Receiver
  unfolding turn
  input_loop [] r = r
  input_loop (a ∷ answers) r =
      if r.destroyed then r else elim (turn a r) [ back t ↦ t | next t ↦ input_loop answers t ]

  -- The pollset finds the socket readable.
  unfoldable pub input : ReadResult → ReadResult → ReadResult → Receiver → Receiver
  unfolding input_loop
  input a b c r = if r.reading then input_loop (a ∷ b ∷ c ∷ []) r else r

  -- The calls of `input` one after another, with the answers to each.
  unfoldable pub readable : List (ReadResult × ReadResult × ReadResult) → Receiver → Receiver
  unfolding input
  readable [] r = r
  readable ((a, b, c) ∷ calls) r = readable calls (input a b c r)
