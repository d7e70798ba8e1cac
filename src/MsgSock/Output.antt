-- ===== src/MsgSock/Output.antt =====
-- The output queue of `msg_sock`: `putmsg`, `output` and `pop_wbytes`. A message stands in the
-- queue as its raw bytes, so that `raw_size()` is their count.
pub mod Queue
pub mod Steps
pub mod Stream
pub mod Stall
use xdrpp.Common.{
  ℕ, zero, suc, ◌+◌, ◌-◌, ◌≤◌, Bool, true, false, not, ◌&&◌, List, [], ◌∷◌, ◌++◌, length, take,
  drop, ltb, leb, ◌==◌, if◌then◌else◌,
}
use xdrpp.Common.Result.{Res, ok, fault, ◌>>=◌}

-- `write_cb` says whether the pollset has a callback for writing on the socket. `sent` is what the
-- kernel has taken, which the program does not see.
pub record Sender : Type 0 where
  pub wqueue : List (List ℕ)
  pub wsize : ℕ
  pub wstart : ℕ
  pub wfail : Bool
  pub write_cb : Bool
  pub sent : List ℕ

abbrev pub fresh : Sender
fresh = record { wqueue = []; wsize = 0; wstart = 0; wfail = false; write_cb = false; sent = [] }

-- What `writev` answers: a count of bytes, EAGAIN (or EINTR), or another error.
pub data WriteResult : Type 0 where
  wrote : ℕ → WriteResult
  again failed : WriteResult

-- The loop of `pop_wbytes`. `front()` of an empty queue is undefined.
unfoldable pub pop_loop : List (List ℕ) → ℕ → Res (List (List ℕ) × ℕ)
pop_loop [] n = if n == 0 then ok ([], 0) else fault
pop_loop (m ∷ q) n =
    let more = pop_loop q (n - length m) in
    if n == 0 then ok (m ∷ q, 0) else if leb (length m) n then more else ok (m ∷ q, n)

unfoldable pub pop_front : ℕ → List (List ℕ) → Sender → Res Sender
unfolding pop_loop
pop_front n [] s = fault
pop_front n (m ∷ q) s =
    if ltb n (length m - s.wstart)
    then ok (record s { wsize = s.wsize - n; wstart = s.wstart + n })
    else pop_loop q (n - (length m - s.wstart)) >>= λ r.
        ok (record s { wsize = s.wsize - n; wqueue = r.0; wstart = r.1 })

unfoldable pub pop_wbytes : ℕ → Sender → Res Sender
unfolding pop_front
pop_wbytes n s = if n == 0 then ok s else if ltb s.wsize n then fault else pop_front n s.wqueue s

abbrev pub maxiov : ℕ
maxiov = 8

abbrev pub join_iov : ℕ → List (List ℕ) → List ℕ
join_iov zero q = []
join_iov (suc i) [] = []
join_iov (suc i) (m ∷ q) = m ++ join_iov i q

-- The bytes of the `iovec`s: of at most eight messages, the first without what has been written.
abbrev pub offered : Sender → List ℕ
offered s = drop s.wstart (join_iov maxiov s.wqueue)

unfoldable pub fail : Sender → Sender
fail s = record s { wfail = true; wsize = 0; wstart = 0; wqueue = [] }

unfoldable pub output : Bool → WriteResult → Sender → Res Sender
unfolding fail
output cbset again s = ok s
output cbset failed s = ok (fail s)
output cbset (wrote n) s =
    if n == 0
    then ok (fail s)
    else pop_wbytes n (record s { sent = s.sent ++ take n (offered s) }) >>= λ t. ok (
        if ltb 0 t.wsize && not cbset
        then record t { write_cb = true }
        else if t.wsize == 0 && cbset
        then record t { write_cb = false }
        else t)

abbrev pub enqueue : List ℕ → Sender → Sender
enqueue m s = record s { wsize = s.wsize + length m; wqueue = s.wqueue ++ (m ∷ []) }

unfoldable pub putmsg : List ℕ → WriteResult → Sender → Res Sender
putmsg m r s =
    if s.wfail
    then ok s
    else if s.wsize == 0
    then output false r (enqueue m s)
    else ok (enqueue m s)

-- The pollset finds the socket writable: the callback, if there is one, is `output(true)`.
unfoldable pub writable : WriteResult → Sender → Res Sender
writable r s = if s.write_cb then output true r s else ok s

-- A program's calls of `putmsg`, and the events of the socket between them.
pub data Event : Type 0 where
  send : List ℕ → WriteResult → Event
  ready : WriteResult → Event

unfoldable pub handle : Event → Sender → Res Sender
unfolding putmsg writable
handle (send m r) s = putmsg m r s
handle (ready r) s = writable r s

unfoldable pub run : List Event → Sender → Res Sender
unfolding handle
run [] s = ok s
run (e ∷ es) s = do t ← handle e s; run es t
