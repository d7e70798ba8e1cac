-- ===== src/Examples/Sockets.antt =====
-- Runs of the output queue and of the input.
use xdrpp.Common.{Bool, ℕ, refl, arith, false, List, [], ◌∷◌}
use xdrpp.Common.Result.{ok, Returns}
use xdrpp.MsgSock.Output.{
  fresh, wrote, again, Event, send, ready, run, handle, pop_wbytes, putmsg, output, writable,
  pop_front, pop_loop,
}
use xdrpp.MsgSock.Input.{ReadResult, got, Delivery}
use xdrpp.MsgSock.Output.Queue.{IsValid}
use xdrpp.MsgSock.Output.Stream.{Allowed, Keeps, messages, run-Keeps}
use xdrpp.MsgSock.Output.Stall.{IsStalled, putmsg_again_stalls}

abbrev message : List ℕ
message = 128 ∷ 0 ∷ 0 ∷ 4 ∷ 1 ∷ 2 ∷ 3 ∷ 4 ∷ []

fresh-IsValid : IsValid fresh
fresh-IsValid = record { counted = refl; starts = refl; nonempty = tt }

-- The kernel takes three bytes of the first message, and then the rest of both.
abbrev events : List Event
events = send message (wrote 3) ∷ send message again ∷ ready (wrote 13) ∷ []

events-Allowed : Allowed events (ok fresh)
unfolding handle putmsg output writable pop_wbytes pop_front pop_loop
events-Allowed = (omega arith, omega arith, (omega arith, tt, (omega arith, tt)))

run-Keeps_example : Returns (Keeps fresh (messages events)) (run events fresh)
run-Keeps_example = run-Keeps events fresh fresh-IsValid events-Allowed

putmsg_again_stalls_example :
    Returns
      (IsStalled [])
      (run (send message again ∷ send message again ∷ ready (wrote 16) ∷ []) fresh)
putmsg_again_stalls_example =
    putmsg_again_stalls message (send message again ∷ ready (wrote 16) ∷ []) fresh (omega arith)
      refl refl refl

-- The mark comes in two pieces, the second with the front of the message, and then the connection
-- ends.
abbrev pieces : List (ReadResult × ReadResult × ReadResult)
pieces =
    (got (128 ∷ 0 ∷ []), got [], got [])
    ∷ (got (0 ∷ 4 ∷ 1 ∷ 2 ∷ []), got (1 ∷ 2 ∷ 3 ∷ 4 ∷ 128 ∷ []), got (0 ∷ 0 ∷ []))
    ∷ (got [], got [], got [])
    ∷ []

abbrev never : List Delivery → Bool
never log = false
