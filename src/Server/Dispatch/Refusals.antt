-- ===== src/Server/Dispatch/Refusals.antt =====
-- The calls that the server refuses, and the replies that say so.
use xdrpp.Common.{
  ℕ, ◌^◌, ◌<◌, ◌≡◌, ◌≢◌, refl, sym, ap, ◌∙◌, arith, Bool, none, some, List, [], ◌∷◌, ◌++◌, if_false,
  ne→==,
}
use xdrpp.Common.Result.{Error, ok, throw}
use xdrpp.Types.{Schema, Vals}
use xdrpp.Marshal.Put.Encode.{IsWhole}
use xdrpp.RpcMsg.{CallBody, RpcMsg}
use xdrpp.RpcMsg.Codec.{IsMsg}
use xdrpp.RpcMsg.Archive.{encode_hdr}
use xdrpp.Server.Errors.{framed, rpc_prog_mismatch_msg_lem, rpc_rpc_mismatch_msg_lem}
use xdrpp.Server.Registry.{Procedure, Service, Servers, lookup, first_key, last_key}
use xdrpp.Server.Dispatch.{
  Attempt, reply, error_reply, decode_arg, answer_call, recover, mismatch_reply, route,
  dispatch_msg, dispatch,
}
use xdrpp.Server.Dispatch.Routes.{
  find_proc, replied, call_hdr, IsServed, limit, schema, dispatch-encode_hdr, error_reply_lem,
  dispatch_msg-route, run_found, dispatch-run_found, recover-replied, recover_throw,
  dispatch_proc_garbage, dispatch_proc_call,
}

module _ (is_big_endian : Bool) (application : Schema) (depth L : ℕ) where
  abbrev lim : ℕ
  lim = limit is_big_endian application depth L

  abbrev sch : Schema
  sch = schema is_big_endian application depth L

  -- The calls that are refused, with the words of the reply behind its xid.
  pub data Refuses (servers : Servers) (c : CallBody) (inp : List ℕ) : List ℕ → Type 0 where
    other_rpc : c.rpcvers ≢ 2 → Refuses servers c inp (1 ∷ 1 ∷ 0 ∷ 2 ∷ 2 ∷ [])
    no_program :
        c.rpcvers ≡ 2
        → lookup c.prog servers ≡ none
        → Refuses servers c inp (1 ∷ 0 ∷ 0 ∷ 0 ∷ 1 ∷ [])
    no_version :
        {versions : List (ℕ × Service)} {low high : ℕ}
        → c.rpcvers ≡ 2
        → lookup c.prog servers ≡ some versions
        → lookup c.vers versions ≡ none
        → first_key versions ≡ ok low
        → last_key versions ≡ ok high
        → low < 2 ^ 32
        → high < 2 ^ 32
        → Refuses servers c inp (1 ∷ 0 ∷ 0 ∷ 0 ∷ 2 ∷ low ∷ high ∷ [])
    no_procedure :
        {s : Service}
        → c.rpcvers ≡ 2
        → IsServed servers c s
        → find_proc s.procs c.proc ≡ none
        → Refuses servers c inp (1 ∷ 0 ∷ 0 ∷ 0 ∷ 3 ∷ [])
    bad_arguments :
        {s : Service} {p : Procedure} {e : Error}
        → c.rpcvers ≡ 2
        → IsServed servers c s
        → find_proc s.procs c.proc ≡ some p
        → decode_arg is_big_endian application depth lim p.arg inp ≡ throw e
        → Refuses servers c inp (1 ∷ 0 ∷ 0 ∷ 0 ∷ 4 ∷ [])

  answer_call_throw :
      (p : Procedure) (xid : ℕ) (vs : Vals) (e : Error)
      → p.method vs ≡ throw e
      → answer_call is_big_endian application depth lim p xid vs ≡ ([], throw e)
  unfolding answer_call reply
  answer_call_throw p xid vs e m = rw (m, answer_call) refl

  -- The refusals of a call by the service that it is for.
  refused :
      (servers : Servers) (xid : ℕ) (c : CallBody) (s : Service) (inp : List ℕ) (stat : ℕ)
      (a : Attempt)
      → IsMsg (call_hdr xid c)
      → IsWhole inp
      → c.rpcvers ≡ 2
      → IsServed servers c s
      → run_found is_big_endian application depth L (find_proc s.procs c.proc) xid inp ≡ a
      → recover is_big_endian application depth lim xid a
        ≡ error_reply is_big_endian application depth lim xid stat
      → stat < 2 ^ 32
      → stat ≢ 0
      → stat ≢ 2
      → dispatch is_big_endian application depth lim servers
          (encode_hdr is_big_endian application lim (call_hdr xid c) ++ inp)
        ≡ replied (framed (xid ∷ 1 ∷ 0 ∷ 0 ∷ 0 ∷ stat ∷ []))
  refused servers xid c s inp stat a h w r served found e b z t =
      dispatch-run_found is_big_endian application depth L servers xid c s inp h w r served
      ∙ ap (recover is_big_endian application depth lim xid) found
      ∙ e
      ∙ error_reply_lem is_big_endian application depth L xid stat h.0 b z t

  pub replied_call :
      (xid stat : ℕ)
      → xid < 2 ^ 32
      → stat < 2 ^ 32
      → stat ≢ 0
      → stat ≢ 2
      → recover is_big_endian application depth lim xid
          (error_reply is_big_endian application depth lim xid stat)
        ≡ error_reply is_big_endian application depth lim xid stat
  replied_call xid stat x b z t =
      ap (recover is_big_endian application depth lim xid)
        (error_reply_lem is_big_endian application depth L xid stat x b z t)
      ∙ recover-replied is_big_endian application depth L xid
          (framed (xid ∷ 1 ∷ 0 ∷ 0 ∷ 0 ∷ stat ∷ []))
      ∙ sym (error_reply_lem is_big_endian application depth L xid stat x b z t)

  route_no_program :
      (servers : Servers) (hdr : RpcMsg) (c : CallBody) (inp : List ℕ)
      → lookup c.prog servers ≡ none
      → route is_big_endian application depth lim servers hdr c inp
        ≡ error_reply is_big_endian application depth lim hdr.xid 1
  unfolding route
  route_no_program servers hdr c inp e = rw (e, route) refl

  route_no_version :
      (servers : Servers) (hdr : RpcMsg) (c : CallBody) (inp : List ℕ)
      (versions : List (ℕ × Service))
      → lookup c.prog servers ≡ some versions
      → lookup c.vers versions ≡ none
      → route is_big_endian application depth lim servers hdr c inp
        ≡ mismatch_reply is_big_endian application depth lim hdr.xid versions
  unfolding route
  route_no_version servers hdr c inp versions e f = rw (e, f, route) refl

  mismatch_reply_lem :
      (xid low high : ℕ) (versions : List (ℕ × Service))
      → xid < 2 ^ 32
      → first_key versions ≡ ok low
      → last_key versions ≡ ok high
      → low < 2 ^ 32
      → high < 2 ^ 32
      → mismatch_reply is_big_endian application depth lim xid versions
        ≡ replied (framed (xid ∷ 1 ∷ 0 ∷ 0 ∷ 0 ∷ 2 ∷ low ∷ high ∷ []))
  unfolding mismatch_reply reply
  mismatch_reply_lem xid low high versions x f l lo hi =
      rw
        (
          f,
          l,
          rpc_prog_mismatch_msg_lem is_big_endian sch depth lim xid low high x lo hi,
          mismatch_reply,
        )
        refl

  other_rpc_lem :
      (servers : Servers) (xid : ℕ) (c : CallBody) (inp : List ℕ)
      → xid < 2 ^ 32
      → c.rpcvers ≢ 2
      → dispatch_msg is_big_endian application depth lim servers (call_hdr xid c) inp
        ≡ replied (framed (xid ∷ 1 ∷ 1 ∷ 0 ∷ 2 ∷ 2 ∷ []))
  unfolding dispatch_msg reply
  other_rpc_lem servers xid c inp x n =
      if_false _ _ (ne→== c.rpcvers 2 n)
      ∙ ap reply (rpc_rpc_mismatch_msg_lem is_big_endian sch depth lim xid x)

  -- To a message of whole words that begins with the header of a call that is refused, `dispatch`
  -- replies exactly once, with the framed message of RFC5531 for the reason of the refusal: another
  -- version of RPC, an unknown program, an unknown version (with the first and the last version of
  -- the program), an unknown procedure, or arguments that cannot be read.
  pub dispatch-Refuses :
      (servers : Servers) (xid : ℕ) (c : CallBody) (inp : List ℕ) (ws : List ℕ)
      → IsMsg (call_hdr xid c)
      → IsWhole inp
      → Refuses servers c inp ws
      → dispatch is_big_endian application depth lim servers
          (encode_hdr is_big_endian application lim (call_hdr xid c) ++ inp)
        ≡ replied (framed (xid ∷ ws))
  unfolding run_found
  dispatch-Refuses servers xid c inp _ h w (other_rpc n) =
      dispatch-encode_hdr is_big_endian application depth L servers (call_hdr xid c) inp h w
      ∙ other_rpc_lem servers xid c inp h.0 n
  dispatch-Refuses servers xid c inp _ h w (no_program r e) =
      dispatch-encode_hdr is_big_endian application depth L servers (call_hdr xid c) inp h w
      ∙ dispatch_msg-route is_big_endian application depth L servers xid c inp r
      ∙ route_no_program servers (call_hdr xid c) c inp e
      ∙ error_reply_lem is_big_endian application depth L xid 1 h.0 (omega arith) (omega arith)
          (omega arith)
  dispatch-Refuses servers xid c inp _ h w (no_version {versions} {low} {high} r e n f l lo hi) =
      dispatch-encode_hdr is_big_endian application depth L servers (call_hdr xid c) inp h w
      ∙ dispatch_msg-route is_big_endian application depth L servers xid c inp r
      ∙ route_no_version servers (call_hdr xid c) c inp versions e n
      ∙ mismatch_reply_lem xid low high versions h.0 f l lo hi
  dispatch-Refuses servers xid c inp _ h w (no_procedure {s} r served f) =
      refused servers xid c s inp 3 _ h w r served
        (ap (λ o. run_found is_big_endian application depth L o xid inp) f)
        (replied_call xid 3 h.0 (omega arith) (omega arith) (omega arith)) (omega arith)
        (omega arith) (omega arith)
  dispatch-Refuses servers xid c inp _ h w (bad_arguments {s} {p} {e} r served f d) =
      refused servers xid c s inp 4 _ h w r served
        (ap (λ o. run_found is_big_endian application depth L o xid inp) f
          ∙ dispatch_proc_garbage is_big_endian application depth L p xid inp e d)
        (replied_call xid 4 h.0 (omega arith) (omega arith) (omega arith)) (omega arith)
        (omega arith) (omega arith)

  -- A call that the server executes, and whose method throws one of the exceptions of the library, is
  -- answered once, with `GARBAGE_ARGS`, though its arguments have been read: what RFC5531 has for
  -- arguments that cannot be decoded.
  pub dispatch_throw :
      (servers : Servers) (xid : ℕ) (c : CallBody) (s : Service) (p : Procedure) (inp : List ℕ)
      (vs : Vals) (e : Error)
      → IsMsg (call_hdr xid c)
      → IsWhole inp
      → c.rpcvers ≡ 2
      → IsServed servers c s
      → find_proc s.procs c.proc ≡ some p
      → decode_arg is_big_endian application depth lim p.arg inp ≡ ok vs
      → p.method vs ≡ throw e
      → dispatch is_big_endian application depth lim servers
          (encode_hdr is_big_endian application lim (call_hdr xid c) ++ inp)
        ≡ replied (framed (xid ∷ 1 ∷ 0 ∷ 0 ∷ 0 ∷ 4 ∷ []))
  unfolding run_found
  dispatch_throw servers xid c s p inp vs e h w r served f d m =
      refused servers xid c s inp 4 _ h w r served
        (ap (λ o. run_found is_big_endian application depth L o xid inp) f
          ∙ dispatch_proc_call is_big_endian application depth L p xid inp vs d
          ∙ answer_call_throw p xid vs e m)
        (recover_throw is_big_endian application depth L xid e) (omega arith) (omega arith)
        (omega arith)
