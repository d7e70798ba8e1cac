-- ===== src/Arpc/Replying.antt =====
-- The replies of an asynchronous service.
use xdrpp.Common.{
  ℕ, ◌^◌, ◌<◌, ◌≡◌, refl, ap, ◌∙◌, arith, Bool, true, false, Option, none, some, List, [], ◌∷◌,
  ◌==◌, Bool-cases, inl, inr, if_true, if_false, subst, get_some, length, ◌≤◌, sym, if◌then◌else◌,
}
use xdrpp.Common.Result.{Error, Res, ok, throw, fault}
use xdrpp.Types.{Schema}
use xdrpp.Message.{Message, Arg}
use xdrpp.Message.Args.{types, values, ArgsFit, encode_args}
use xdrpp.RpcMsg.{CallBody}
use xdrpp.Server.Errors.{framed}
use xdrpp.Server.Dispatch.{Attempt, and_then, error_reply, decode_arg, recover}
use xdrpp.Server.Dispatch.Routes.{
  call_hdr, limit, arg_limit, schema, error_reply_lem, check_call_lem,
}
use xdrpp.Server.Dispatch.Arguments.{decode_arg-encode_args}
use xdrpp.Arpc.{
  ReplyOp, AsyncProcedure, AsyncService, op_msg, destroy, end_with, send_reply_msg, run_ops,
  run_method, async_proc, async_dispatch, async_process, async_served,
}

-- The procedure that a number stands for, if the interface has it.
unfoldable pub find_async : List AsyncProcedure → ℕ → Option AsyncProcedure
find_async [] proc = none
find_async (p ∷ ps) proc = if proc == p.proc then some p else find_async ps proc

module _ (is_big_endian : Bool) (application : Schema) (depth L : ℕ) where
  abbrev lim : ℕ
  lim = limit is_big_endian application depth L

  abbrev sch : Schema
  sch = schema is_big_endian application depth L

  -- The messages of the calls of a `reply_cb`, which can all be made.
  abbrev pub AreMade : ℕ → List ReplyOp → List Message → Type 0
  AreMade xid [] [] = Unit
  AreMade xid (op ∷ ops) (m ∷ ms) =
      (op_msg is_big_endian application depth lim xid op ≡ ok m) × AreMade xid ops ms
  AreMade xid _ _ = ⊥

  -- What the caller gets: the first message, or that the procedure is not there.
  abbrev pub first_reply : ℕ → List Message → Message
  first_reply xid [] = framed (xid ∷ 1 ∷ 0 ∷ 0 ∷ 0 ∷ 3 ∷ [])
  first_reply xid (m ∷ ms) = m

  -- A second reply fails an assertion.
  abbrev pub reply_end : List Message → Res (Unit {0}) → Res (Unit {0})
  reply_end [] end = end
  reply_end (m ∷ []) end = end
  reply_end (m ∷ m' ∷ ms) end = fault

  run_ops_dead :
      (xid : ℕ) (op : ReplyOp) (ops : List ReplyOp) (m : Message) (end : Res (Unit {0}))
      → op_msg is_big_endian application depth lim xid op ≡ ok m
      → run_ops is_big_endian application depth lim xid false (op ∷ ops) end ≡ ([], fault)
  unfolding run_ops send_reply_msg
  run_ops_dead xid op ops m end e =
      ap
        (λ r.
          send_reply_msg is_big_endian application depth lim xid false r
            (run_ops is_big_endian application depth lim xid false ops end))
        e

  run_ops_once :
      (xid : ℕ) (op : ReplyOp) (ops : List ReplyOp) (m : Message) (end : Res (Unit {0}))
      (a : Attempt)
      → op_msg is_big_endian application depth lim xid op ≡ ok m
      → run_ops is_big_endian application depth lim xid false ops end ≡ a
      → run_ops is_big_endian application depth lim xid true (op ∷ ops) end
        ≡ and_then is_big_endian application depth lim (some m ∷ []) a
  unfolding run_ops send_reply_msg
  run_ops_once xid op ops m end a e k =
      ap
        (λ r.
          send_reply_msg is_big_endian application depth lim xid true r
            (run_ops is_big_endian application depth lim xid false ops end))
        e
      ∙ ap (and_then is_big_endian application depth lim (some m ∷ [])) k

  run_ops_lem :
      (xid : ℕ) (ops : List ReplyOp) (ms : List Message) (end : Res (Unit {0}))
      → xid < 2 ^ 32
      → AreMade xid ops ms
      → run_ops is_big_endian application depth lim xid true ops end
        ≡ (some (first_reply xid ms) ∷ [], reply_end ms end)
  unfolding run_ops destroy
  run_ops_lem xid [] [] end x a = ap (end_with is_big_endian application depth lim end) (
      error_reply_lem is_big_endian application depth L xid 3 x (omega arith) (omega arith)
        (omega arith))
  run_ops_lem xid (op ∷ []) (m ∷ []) end x (e, a) = run_ops_once xid op [] m end ([], end) e refl
  run_ops_lem xid (op ∷ op' ∷ ops) (m ∷ m' ∷ ms) end x (e, (e', a)) =
      run_ops_once xid op (op' ∷ ops) m end ([], fault) e (run_ops_dead xid op' ops m' end e')
  run_ops_lem xid (op ∷ []) (m ∷ m' ∷ ms) end x a = absurd a.1
  run_ops_lem xid (op ∷ op' ∷ ops) (m ∷ []) end x a = absurd a.1
  run_ops_lem xid [] (m ∷ ms) end x a = absurd a
  run_ops_lem xid (op ∷ ops) [] end x a = absurd a

  -- The call of a procedure by the service that it is for.
  pub record IsCall (s : AsyncService) (c : CallBody) (p : AsyncProcedure) (args : List Arg)
      : Type 0 where
    pub version : c.rpcvers ≡ 2
    pub same_prog : c.prog ≡ s.base.prog
    pub same_vers : c.vers ≡ s.base.vers
    pub found : find_async s.procs c.proc ≡ some p
    pub typed : types args ≡ p.arg
    pub fits : ArgsFit sch (arg_limit is_big_endian application depth L) args

  async_dispatch-find_async :
      (ps : List AsyncProcedure) (proc xid : ℕ) (inp : List ℕ) (p : AsyncProcedure)
      → find_async ps proc ≡ some p
      → async_dispatch is_big_endian application depth lim ps proc xid inp
        ≡ async_proc is_big_endian application depth lim p xid inp
  unfolding async_dispatch find_async
  async_dispatch-find_async [] proc xid inp p f = absurd (cc)
  async_dispatch-find_async (q ∷ ps) proc xid inp p f = elim (Bool-cases (proc == q.proc)) [
    | inl here ↦
        if_true _ _ here
        ∙ ap (λ r. async_proc is_big_endian application depth lim r xid inp)
            (get_some p (sym (if_true _ _ here) ∙ f))
    | inr later ↦
        if_false _ _ later
        ∙ async_dispatch-find_async ps proc xid inp p (sym (if_false _ _ later) ∙ f)
  ]

  async_proc_lem :
      (p : AsyncProcedure) (xid : ℕ) (args : List Arg)
      → types args ≡ p.arg
      → ArgsFit sch (arg_limit is_big_endian application depth L) args
      → async_proc is_big_endian application depth lim p xid (encode_args sch lim args)
        ≡ run_method is_big_endian application depth lim xid (p.method (values args))
  unfolding async_proc
  async_proc_lem p xid args t f =
      rw
        (
          subst
              (λ ts.
                decode_arg is_big_endian application depth lim ts (encode_args sch lim args)
                ≡ ok (values args))
              t
              (decode_arg-encode_args is_big_endian application depth
                (arg_limit is_big_endian application depth L) args f),
          async_proc,
        )
        refl

  async_served-run_method :
      (s : AsyncService) (xid : ℕ) (c : CallBody) (p : AsyncProcedure) (args : List Arg)
      → IsCall s c p args
      → async_served is_big_endian application depth lim s
          (call_hdr xid c)
          c
          (encode_args sch lim args)
        ≡ recover is_big_endian application depth lim xid
            (run_method is_big_endian application depth lim xid (p.method (values args)))
  unfolding async_served async_process
  async_served-run_method s xid c p args h =
      ap
        (λ b. recover is_big_endian application depth lim xid (
          and_then is_big_endian application depth lim (if b then [] else none ∷ []) (
            async_dispatch is_big_endian application depth lim s.procs c.proc xid
              (encode_args sch lim args))))
        (check_call_lem is_big_endian application depth L xid c s.base h.version h.same_prog
          h.same_vers)
      ∙ ap (recover is_big_endian application depth lim xid) (
          async_dispatch-find_async s.procs c.proc xid (encode_args sch lim args) p h.found
          ∙ async_proc_lem p xid args h.typed h.fits)

  recover_end :
      (xid : ℕ) (m : Message) (ms : List Message)
      → recover is_big_endian application depth lim xid (some m ∷ [], reply_end ms (ok tt))
        ≡ (some m ∷ [], reply_end ms (ok tt))
  unfolding recover
  recover_end xid m [] = refl
  recover_end xid m (a ∷ []) = refl
  recover_end xid m (a ∷ b ∷ ms) = refl

  garbage :
      (xid : ℕ) (m : Message)
      → xid < 2 ^ 32
      → and_then is_big_endian application depth lim
          (some m ∷ [])
          (error_reply is_big_endian application depth lim xid 4)
        ≡ (some m ∷ some (framed (xid ∷ 1 ∷ 0 ∷ 0 ∷ 0 ∷ 4 ∷ [])) ∷ [], ok tt)
  garbage xid m x = ap (and_then is_big_endian application depth lim (some m ∷ [])) (
      error_reply_lem is_big_endian application depth L xid 4 x (omega arith) (omega arith)
        (omega arith))

  recover_throw_end :
      (xid : ℕ) (ms : List Message) (e : Error)
      → xid < 2 ^ 32
      → length ms ≤ 1
      → recover is_big_endian application depth lim xid
          (some (first_reply xid ms) ∷ [], reply_end ms (throw e))
        ≡ (some (first_reply xid ms) ∷ some (framed (xid ∷ 1 ∷ 0 ∷ 0 ∷ 0 ∷ 4 ∷ [])) ∷ [], ok tt)
  unfolding recover
  recover_throw_end xid [] e x once = garbage xid (first_reply xid []) x
  recover_throw_end xid (m ∷ []) e x once = garbage xid m x
  recover_throw_end xid (m ∷ n ∷ ms) e x once = absurd (omega arith)

  -- Where the method returns, and a message can be made of each of its replies and rejections, an
  -- asynchronous service answers a call exactly once whose arguments fit its procedure within two
  -- levels fewer than the limit of the stack: with the first of these messages, or, if the method
  -- makes none, with the reply that the procedure is not there. A second one fails an assertion.
  pub async_served_once :
      (s : AsyncService) (xid : ℕ) (c : CallBody) (p : AsyncProcedure) (args : List Arg)
      (ops : List ReplyOp) (ms : List Message)
      → xid < 2 ^ 32
      → IsCall s c p args
      → p.method (values args) ≡ (ops, ok tt)
      → AreMade xid ops ms
      → async_served is_big_endian application depth lim s
          (call_hdr xid c)
          c
          (encode_args sch lim args)
        ≡ (some (first_reply xid ms) ∷ [], reply_end ms (ok tt))
  unfolding run_method
  async_served_once s xid c p args ops ms x h m a =
      async_served-run_method s xid c p args h
      ∙ ap (recover is_big_endian application depth lim xid) (
          ap (run_method is_big_endian application depth lim xid) m
          ∙ run_ops_lem xid ops ms (ok tt) x a)
      ∙ recover_end xid (first_reply xid ms) ms

  -- A method that throws an `xdr_runtime_error` after at most one reply makes the service answer
  -- twice: the first time with that reply, or, since the `reply_cb` is destroyed, with the reply that
  -- the procedure is not there, and then from the `catch` with the reply that the arguments could not
  -- be read.
  pub async_served_throw :
      (s : AsyncService) (xid : ℕ) (c : CallBody) (p : AsyncProcedure) (args : List Arg)
      (ops : List ReplyOp) (ms : List Message) (e : Error)
      → xid < 2 ^ 32
      → IsCall s c p args
      → p.method (values args) ≡ (ops, throw e)
      → AreMade xid ops ms
      → length ms ≤ 1
      → async_served is_big_endian application depth lim s
          (call_hdr xid c)
          c
          (encode_args sch lim args)
        ≡ (some (first_reply xid ms) ∷ some (framed (xid ∷ 1 ∷ 0 ∷ 0 ∷ 0 ∷ 4 ∷ [])) ∷ [], ok tt)
  unfolding run_method
  async_served_throw s xid c p args ops ms e x h m a once =
      async_served-run_method s xid c p args h
      ∙ ap (recover is_big_endian application depth lim xid) (
          ap (run_method is_big_endian application depth lim xid) m
          ∙ run_ops_lem xid ops ms (throw e) x a)
      ∙ recover_throw_end xid ms e x once
