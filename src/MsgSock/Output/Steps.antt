-- ===== src/MsgSock/Output/Steps.antt =====
-- The branches of `putmsg` and of the write callback.
use xdrpp.Common.{ℕ, ◌≡◌, ◌∙◌, true, false, List, ◌==◌, if_true, if_false}
use xdrpp.Common.Result.{ok}
use xdrpp.MsgSock.Output.{Sender, WriteResult, output, putmsg, writable, enqueue}

module _ (m : List ℕ) (r : WriteResult) (s : Sender) where
  pub putmsg_failed : s.wfail ≡ true → putmsg m r s ≡ ok s
  unfolding putmsg
  putmsg_failed h = if_true _ _ h

  pub putmsg_idle :
      s.wfail ≡ false → (s.wsize == 0) ≡ true → putmsg m r s ≡ output false r (enqueue m s)
  unfolding putmsg
  putmsg_idle h e = if_false _ _ h ∙ if_true _ _ e

  pub putmsg_busy : s.wfail ≡ false → (s.wsize == 0) ≡ false → putmsg m r s ≡ ok (enqueue m s)
  unfolding putmsg
  putmsg_busy h e = if_false _ _ h ∙ if_false _ _ e

module _ (r : WriteResult) (s : Sender) where
  pub writable_on : s.write_cb ≡ true → writable r s ≡ output true r s
  unfolding writable
  writable_on h = if_true _ _ h

  pub writable_off : s.write_cb ≡ false → writable r s ≡ ok s
  unfolding writable
  writable_off h = if_false _ _ h
