-- ===== src/Examples/Calls.antt =====
-- A call of an RPC program and its reply.
use xdrpp.Common.{ℕ, ◌≡◌, refl, arith, true, false, none, some, List, [], ◌∷◌}
use xdrpp.Common.Result.{ok, ◌>>=◌, Returns}
use xdrpp.Endian.{swap32, swap32le}
use xdrpp.Marshal.{load32}
use xdrpp.MsgSock.Rpc.{Rpc, invoke, find, word, recv_msg, send_call, reply}
use xdrpp.MsgSock.Rpc.Calls.{Same, recv_msg-Same}
use xdrpp.MsgSock.Rpc.Replies.{send_call-recv_msg}

abbrev client : Rpc
client = record { calls = (5, 70) ∷ []; has_servcb = true; effects = []; sent = [] }

-- The front of a call, and of its reply, with the xid 9.
abbrev call_message : List ℕ
call_message = 0 ∷ 0 ∷ 0 ∷ 9 ∷ 0 ∷ 0 ∷ 0 ∷ 0 ∷ []

abbrev reply_message : List ℕ
reply_message = 0 ∷ 0 ∷ 0 ∷ 9 ∷ 0 ∷ 0 ∷ 0 ∷ 1 ∷ []

call_word : word false 0 call_message ≡ ok 150994944
unfolding word load32
call_word = refl

reply_word : word false 0 reply_message ≡ ok 150994944
unfolding word load32
reply_word = refl

reply_kind : word false 1 reply_message ≡ ok (swap32le false reply)
unfolding word load32 swap32le swap32
reply_kind = refl

unused_xid : find 150994944 client.calls ≡ none
unfolding find
unused_xid = refl

send_call-recv_msg_example :
    (send_call false call_message 80 client >>= recv_msg false (some reply_message))
    ≡ ok (record client { effects = invoke 80 (some reply_message) ∷ []; sent = call_message ∷ [] })
send_call-recv_msg_example =
    send_call-recv_msg false reply_message 150994944 (omega arith) reply_word reply_kind
      call_message 80 client call_word unused_xid

recv_msg-Same_example : Returns (Same client) (recv_msg false none client)
recv_msg-Same_example = recv_msg-Same false none client refl
