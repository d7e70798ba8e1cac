-- ===== src/MsgSock/Output/Stall.antt =====
-- What becomes of a message that the kernel does not take at once.
use xdrpp.Common.{ℕ, ◌<◌, ◌≡◌, refl, arith, false, List, [], ◌∷◌, length, eq→==, ne→==}
use xdrpp.Common.Result.{Returns, gives, Returns-then}
use xdrpp.MsgSock.Output.Steps.{putmsg_idle, putmsg_busy, writable_off}
use xdrpp.MsgSock.Output.{Sender, again, output, enqueue, Event, send, ready, handle, run}

-- A message waits, the socket has not failed, and there is no callback to write it.
pub record IsStalled (bytes : List ℕ) (s : Sender) : Type 0 where
  pub waits : 0 < s.wsize
  pub works : s.wfail ≡ false
  pub no_cb : s.write_cb ≡ false
  pub unsent : s.sent ≡ bytes

handle-IsStalled :
    (e : Event) (bytes : List ℕ) (s : Sender)
    → IsStalled bytes s
    → Returns (IsStalled bytes) (handle e s)
unfolding handle
handle-IsStalled (send m r) bytes s h =
    rw (putmsg_busy m r s h.works (ne→== s.wsize 0 (omega (arith, h.waits)))) (
      gives (record {
        waits = omega (arith, h.waits);
        works = h.works;
        no_cb = h.no_cb;
        unsent = h.unsent;
      }))
handle-IsStalled (ready r) bytes s h = rw (writable_off r s h.no_cb) (gives h)

run-IsStalled :
    (es : List Event) (bytes : List ℕ) (s : Sender)
    → IsStalled bytes s
    → Returns (IsStalled bytes) (run es s)
unfolding run
run-IsStalled [] bytes s h = gives h
run-IsStalled (e ∷ es) bytes s h =
    Returns-then (handle e s) (handle-IsStalled e bytes s h) λ t _ k. run-IsStalled es bytes t k

-- When the kernel answers EAGAIN to the write of a message that finds the queue empty on a socket
-- that works and has no write callback, then nothing is sent any more: after any further calls of
-- `putmsg` and any readiness of the socket, whatever the kernel answers, `sent` is what it was, the
-- socket has not failed, bytes are waiting and no callback is registered.
pub putmsg_again_stalls :
    (m : List ℕ) (es : List Event) (s : Sender)
    → 0 < length m
    → s.wsize ≡ 0
    → s.wfail ≡ false
    → s.write_cb ≡ false
    → Returns (IsStalled s.sent) (run (send m again ∷ es) s)
unfolding run handle output
putmsg_again_stalls m es s h empty works no_cb =
    rw (putmsg_idle m again s works (eq→== s.wsize 0 empty)) (
      run-IsStalled es s.sent (enqueue m s)
        (record { waits = omega (arith, h, empty); works = works; no_cb = no_cb; unsent = refl }))
