-- ===== src/MsgSock/Rpc.antt =====
-- `rpc_sock`: replies go to the callbacks of their calls, calls to the server.
pub mod Calls
pub mod Replies
pub mod Xids
use xdrpp.Common.{
  ℕ, zero, suc, ◌%◌, ◌^◌, false, true, not, ◌&&◌, ◌+◌, ◌*◌, Bool, Option, none, some, List, [], ◌∷◌,
  ◌++◌, length, drop, ltb, ◌==◌, if◌then◌else◌,
}
use xdrpp.Common.Result.{Res, ok, fault, ◌>>=◌}
use xdrpp.Endian.{swap32le}
use xdrpp.Marshal.{load32}

abbrev pub call : ℕ
call = 0

abbrev pub reply : ℕ
reply = 1

-- What the socket does with a message: it calls the callback of a call (with a null pointer if the
-- connection is over), calls `servcb_`, answers that there is no server, or ignores the message.
pub data Effect : Type 0 where
  invoke : ℕ → Option (List ℕ) → Effect
  serve : Option (List ℕ) → Effect
  unavailable : ℕ → Effect
  ignored : Effect

-- `calls` is `calls_`: the xid as it stands in the message, and a name for the callback. `sent` has
-- the messages that went to `putmsg`.
pub record Rpc : Type 0 where
  pub calls : List (ℕ × ℕ)
  pub has_servcb : Bool
  pub effects : List Effect
  pub sent : List (List ℕ)

unfoldable pub find : ℕ → List (ℕ × ℕ) → Option ℕ
find x [] = none
find x ((y, cb) ∷ calls) = if x == y then some cb else find x calls

unfoldable pub erase : ℕ → List (ℕ × ℕ) → List (ℕ × ℕ)
erase x [] = []
erase x ((y, cb) ∷ calls) = let rest = erase x calls in if x == y then calls else (y, cb) ∷ rest

-- `emplace` leaves an entry that is there.
unfoldable pub emplace : ℕ → ℕ → List (ℕ × ℕ) → List (ℕ × ℕ)
unfolding find
emplace x cb calls = elim (find x calls) [ none ↦ (x, cb) ∷ calls | some old ↦ calls ]

abbrev pub invoke_all : List (ℕ × ℕ) → List Effect
invoke_all [] = []
invoke_all ((x, cb) ∷ calls) = invoke cb none ∷ invoke_all calls

-- `++xid_`
abbrev pub next_xid : ℕ → ℕ
next_xid x = (x + 1) % 2 ^ 32

abbrev pub is_found : Option ℕ → Bool
is_found none = false
is_found (some cb) = true

-- `get_xid`, with `xid_` before; the result is `xid_` after. The first argument bounds the turns of
-- the loop; `none` means that they are used up. The loop ends at 0 even if 0 is in the table.
unfoldable pub get_xid : ℕ → ℕ → List (ℕ × ℕ) → Option ℕ
unfolding find
get_xid zero x calls = none
get_xid (suc turns) x calls =
    let more = get_xid turns (next_xid x) calls in
    if is_found (find (next_xid x) calls) && not (next_xid x == 0) then more else some (next_xid x)

-- The order in which the callbacks are called is that of the hash table, which nothing promises.
unfoldable pub abort_all_calls : Rpc → Rpc
abort_all_calls r = record r { calls = []; effects = r.effects ++ invoke_all r.calls }

-- What a reply with the xid `x` does.
unfoldable pub answer : ℕ → List ℕ → Rpc → Res Rpc
unfolding find erase
answer x m r = elim (find x r.calls) [
  | none ↦ ok (record r { effects = r.effects ++ (ignored ∷ []) })
  | some cb ↦
      ok (record r { calls = erase x r.calls; effects = r.effects ++ (invoke cb (some m) ∷ []) })
]

module _ (is_big_endian : Bool) where
  -- `word(i)`: four bytes of the content, in the machine's byte order.
  unfoldable pub word : ℕ → List ℕ → Res ℕ
  word i m = load32 is_big_endian (drop (4 * i) m) >>= λ r. ok r.0

  unfoldable pub recv_call : Option (List ℕ) → Rpc → Res Rpc
  unfolding word
  recv_call b r =
      if r.has_servcb then ok (record r { effects = r.effects ++ (serve b ∷ []) }) else elim b [
        | none ↦ fault
        | some m ↦ word 0 m >>= λ x. ok (record r { effects = r.effects ++ (unavailable x ∷ []) })
      ]

  unfoldable pub recv_reply : List ℕ → Rpc → Res Rpc
  unfolding word answer
  recv_reply m r = word 0 m >>= λ x. answer x m r

  unfoldable pub recv_whole : List ℕ → Rpc → Res Rpc
  unfolding word recv_call recv_reply abort_all_calls
  recv_whole m r = word 1 m >>= λ kind.
      if kind == swap32le is_big_endian call
      then recv_call (some m) r
      else if kind == swap32le is_big_endian reply
      then recv_reply m r
      else recv_call none (abort_all_calls r)

  unfoldable pub recv_msg : Option (List ℕ) → Rpc → Res Rpc
  unfolding recv_call recv_whole abort_all_calls
  recv_msg none r = recv_call none (abort_all_calls r)
  recv_msg (some m) r =
      if ltb (length m) 8 then recv_call none (abort_all_calls r) else recv_whole m r

  unfoldable pub send_call : List ℕ → ℕ → Rpc → Res Rpc
  unfolding word emplace
  send_call m cb r =
      word 0 m >>= λ x. ok (record r { calls = emplace x cb r.calls; sent = r.sent ++ (m ∷ []) })
