-- ===== src/MsgSock/Rpc/Replies.antt =====
-- A reply finds the callback of its call.
use xdrpp.Common.{
  ℕ, ◌≤◌, ◌≡◌, refl, ◌∙◌, Bool, true, false, none, some, List, [], ◌∷◌, ◌++◌, length, ◌==◌, le→ltb,
  ==_refl, if_true, if_false,
}
use xdrpp.Common.Result.{ok, ◌>>=◌}
use xdrpp.Endian.{swap32, swap32le}
use xdrpp.MsgSock.Rpc.{
  Rpc, invoke, find, erase, emplace, word, answer, recv_reply, recv_whole, recv_msg, send_call,
  call, reply,
}

reply_no_call : (be : Bool) → (swap32le be reply == swap32le be call) ≡ false
unfolding swap32le swap32
reply_no_call true = refl
reply_no_call false = refl

pub emplace_new :
    (x cb : ℕ) (calls : List (ℕ × ℕ)) → find x calls ≡ none → emplace x cb calls ≡ (x, cb) ∷ calls
unfolding emplace
emplace_new x cb calls h = rw (emplace, h)

find_first : (x cb : ℕ) (calls : List (ℕ × ℕ)) → find x ((x, cb) ∷ calls) ≡ some cb
unfolding find
find_first x cb calls = if_true _ _ (==_refl x)

erase_first : (x cb : ℕ) (calls : List (ℕ × ℕ)) → erase x ((x, cb) ∷ calls) ≡ calls
unfolding erase
erase_first x cb calls = if_true _ _ (==_refl x)

answer_first :
    (x cb : ℕ) (m : List ℕ) (r : Rpc)
    → answer x m (record r { calls = (x, cb) ∷ r.calls })
      ≡ ok (record r { effects = r.effects ++ (invoke cb (some m) ∷ []) })
unfolding answer
answer_first x cb m r = rw (answer, find_first x cb r.calls, erase_first x cb r.calls)

module _ (be : Bool) (m : List ℕ) (x : ℕ) (long : 8 ≤ length m) (xid : word be 0 m ≡ ok x)
    (kind : word be 1 m ≡ ok (swap32le be reply)) where
  recv_msg-recv_reply : (r : Rpc) → recv_msg be (some m) r ≡ recv_reply be m r
  unfolding recv_msg recv_whole
  recv_msg-recv_reply r =
      if_false _ _ (le→ltb (length m) 8 long)
      ∙ rw kind (if_false _ _ (reply_no_call be) ∙ if_true _ _ (==_refl (swap32le be reply)))

  -- A message of at least eight bytes that is a reply, and has the first word of a call for which no
  -- entry was in `calls_` when it was sent, goes to that call's callback. The table is then what it
  -- was before the call, and the call has gone to the socket.
  pub send_call-recv_msg :
      (b : List ℕ) (cb : ℕ) (r : Rpc)
      → word be 0 b ≡ ok x
      → find x r.calls ≡ none
      → (send_call be b cb r >>= recv_msg be (some m))
        ≡ ok (record r {
          effects = r.effects ++ (invoke cb (some m) ∷ []);
          sent = r.sent ++ (b ∷ []);
        })
  unfolding send_call recv_reply
  send_call-recv_msg b cb r same unused =
      rw (same, emplace_new x cb r.calls unused)
        (recv_msg-recv_reply _
          ∙ rw xid (answer_first x cb m (record r { sent = r.sent ++ (b ∷ []) })))
