-- ===== src/Server/Dispatch/Routes.antt =====
-- The way of a call through `dispatch` to the procedure that it is for.
use xdrpp.Common.{
  ℕ, suc, ◌^◌, ◌<◌, ◌≡◌, ◌≢◌, refl, sym, ap, ◌∙◌, Bool, true, Option, none, some, List, [], ◌∷◌,
  ◌++◌, if◌then◌else◌, ◌==◌, if_true, if_false, Bool-cases, inl, inr, eq→==, ne→==,
}
use xdrpp.Common.Result.{Error, ok, throw}
use xdrpp.Types.{Schema, Vals}
use xdrpp.Marshal.Put.Encode.{encode-IsWhole, IsWhole, append-IsWhole}
use xdrpp.Message.{Message, open_get}
use xdrpp.RpcMsg.{CallBody, cbody, RpcMsg, rpc_msg, rpc_schema, msg_val}
use xdrpp.RpcMsg.Codec.{IsMsg}
use xdrpp.RpcMsg.Archive.{encode_hdr, archive_hdr-encode_hdr}
use xdrpp.Server.Errors.{framed, rpc_accepted_error_msg_lem}
use xdrpp.Server.Registry.{Procedure, Service, Servers, lookup}
use xdrpp.Server.Dispatch.{
  Attempt, reply, error_reply, check_call, decode_arg, answer_call, dispatch_proc, call_dispatch,
  process, recover, route, dispatch_msg, read_header, dispatch,
}

-- The procedure that a number stands for, if the interface has it.
unfoldable pub find_proc : List Procedure → ℕ → Option Procedure
find_proc [] proc = none
find_proc (p ∷ ps) proc = if proc == p.proc then some p else find_proc ps proc

-- One message went to `reply`, and the code returned.
abbrev pub replied : Message → Attempt
replied m = (some m ∷ [], ok tt)

-- The header of a call.
abbrev pub call_hdr : ℕ → CallBody → RpcMsg
call_hdr xid c = record { xid = xid; body = cbody c }

-- The service that a call is for is registered, under its own program and version.
pub record IsServed (servers : Servers) (c : CallBody) (s : Service) : Type 0 where
  pub versions : List (ℕ × Service)
  pub is_prog : lookup c.prog servers ≡ some versions
  pub is_vers : lookup c.vers versions ≡ some s
  pub same_prog : c.prog ≡ s.prog
  pub same_vers : c.vers ≡ s.vers

module _ (is_big_endian : Bool) (application : Schema) (depth L : ℕ) where
  abbrev pub limit : ℕ
  limit = suc (suc (suc (suc (suc (suc L)))))

  -- What is left of the limit behind the tuple and the pointer that an argument is read into.
  abbrev pub arg_limit : ℕ
  arg_limit = suc (suc (suc (suc L)))

  abbrev pub schema : Schema
  schema = rpc_schema application

  pub open_get_lem :
      (inp : List ℕ) → IsWhole inp → open_get is_big_endian schema depth limit inp ≡ ok inp
  unfolding open_get
  open_get_lem inp w = rw w refl

  -- A header in front of whole words is read, and the rest is left for the arguments.
  pub dispatch-encode_hdr :
      (servers : Servers) (hdr : RpcMsg) (inp : List ℕ)
      → IsMsg hdr
      → IsWhole inp
      → dispatch is_big_endian application depth limit servers
          (encode_hdr is_big_endian application limit hdr ++ inp)
        ≡ dispatch_msg is_big_endian application depth limit servers hdr inp
  unfolding dispatch read_header
  dispatch-encode_hdr servers hdr inp h w =
      rw
        (
          open_get_lem _ (
              append-IsWhole (encode_hdr is_big_endian application limit hdr) inp
                (encode-IsWhole schema limit rpc_msg (msg_val hdr)) w),
          archive_hdr-encode_hdr is_big_endian application L hdr inp h,
          dispatch,
          read_header,
        )
        refl

  pub error_reply_lem :
      (xid stat : ℕ)
      → xid < 2 ^ 32
      → stat < 2 ^ 32
      → stat ≢ 0
      → stat ≢ 2
      → error_reply is_big_endian application depth limit xid stat
        ≡ replied (framed (xid ∷ 1 ∷ 0 ∷ 0 ∷ 0 ∷ stat ∷ []))
  unfolding reply
  error_reply_lem xid stat x h z t =
      rw
        (rpc_accepted_error_msg_lem is_big_endian schema depth limit xid stat x h
          (rw (ne→== stat 0 z, ne→== stat 2 t) refl))
        refl

  pub check_call_lem :
      (xid : ℕ) (c : CallBody) (s : Service)
      → c.rpcvers ≡ 2
      → c.prog ≡ s.prog
      → c.vers ≡ s.vers
      → check_call s (call_hdr xid c) ≡ true
  unfolding check_call
  check_call_lem xid c s r p v =
      rw (eq→== c.rpcvers 2 r, eq→== c.prog s.prog p, eq→== c.vers s.vers v) refl

  process_lem :
      (s : Service) (xid : ℕ) (c : CallBody) (inp : List ℕ)
      → check_call s (call_hdr xid c) ≡ true
      → process is_big_endian application depth limit s (call_hdr xid c) c inp
        ≡ call_dispatch is_big_endian application depth limit s.procs c.proc xid inp
  unfolding process
  process_lem s xid c inp e = rw e refl

  route-IsServed :
      (servers : Servers) (xid : ℕ) (c : CallBody) (s : Service) (inp : List ℕ)
      → c.rpcvers ≡ 2
      → IsServed servers c s
      → route is_big_endian application depth limit servers (call_hdr xid c) c inp
        ≡ recover is_big_endian application depth limit xid
            (call_dispatch is_big_endian application depth limit s.procs c.proc xid inp)
  unfolding route
  route-IsServed servers xid c s inp r served =
      rw
        (
          served.is_prog,
          served.is_vers,
          process_lem s xid c inp (check_call_lem xid c s r served.same_prog served.same_vers),
          route,
        )
        refl

  pub dispatch_msg-route :
      (servers : Servers) (xid : ℕ) (c : CallBody) (inp : List ℕ)
      → c.rpcvers ≡ 2
      → dispatch_msg is_big_endian application depth limit servers (call_hdr xid c) inp
        ≡ route is_big_endian application depth limit servers (call_hdr xid c) c inp
  unfolding dispatch_msg
  dispatch_msg-route servers xid c inp r = if_true _ _ (eq→== c.rpcvers 2 r)

  unfoldable pub run_found : Option Procedure → ℕ → List ℕ → Attempt
  run_found none xid inp = error_reply is_big_endian application depth limit xid 3
  run_found (some p) xid inp = dispatch_proc is_big_endian application depth limit p xid inp

  -- The search of `call_dispatch` is `find_proc`.
  call_dispatch-find_proc :
      (ps : List Procedure) (proc xid : ℕ) (inp : List ℕ)
      → call_dispatch is_big_endian application depth limit ps proc xid inp
        ≡ run_found (find_proc ps proc) xid inp
  unfolding call_dispatch find_proc run_found
  call_dispatch-find_proc [] proc xid inp = refl
  call_dispatch-find_proc (p ∷ ps) proc xid inp = elim (Bool-cases (proc == p.proc)) [
    | inl here ↦ if_true _ _ here ∙ ap (λ o. run_found o xid inp) (sym (if_true _ _ here))
    | inr later ↦
        if_false _ _ later
        ∙ call_dispatch-find_proc ps proc xid inp
        ∙ ap (λ o. run_found o xid inp) (sym (if_false _ _ later))
  ]

  -- A call that a service is registered for comes down to the procedure found.
  pub dispatch-run_found :
      (servers : Servers) (xid : ℕ) (c : CallBody) (s : Service) (inp : List ℕ)
      → IsMsg (call_hdr xid c)
      → IsWhole inp
      → c.rpcvers ≡ 2
      → IsServed servers c s
      → dispatch is_big_endian application depth limit servers
          (encode_hdr is_big_endian application limit (call_hdr xid c) ++ inp)
        ≡ recover is_big_endian application depth limit xid
            (run_found (find_proc s.procs c.proc) xid inp)
  dispatch-run_found servers xid c s inp h w r served =
      dispatch-encode_hdr servers (call_hdr xid c) inp h w
      ∙ dispatch_msg-route servers xid c inp r
      ∙ route-IsServed servers xid c s inp r served
      ∙ ap (recover is_big_endian application depth limit xid)
          (call_dispatch-find_proc s.procs c.proc xid inp)

  -- A reply that has been made passes through `recover`.
  pub recover-replied :
      (xid : ℕ) (m : Message)
      → recover is_big_endian application depth limit xid (replied m) ≡ replied m
  unfolding recover
  recover-replied xid m = refl

  pub recover_throw :
      (xid : ℕ) (e : Error)
      → recover is_big_endian application depth limit xid ([], throw e)
        ≡ error_reply is_big_endian application depth limit xid 4
  unfolding recover
  recover_throw xid e = refl

  pub dispatch_proc_garbage :
      (p : Procedure) (xid : ℕ) (inp : List ℕ) (e : Error)
      → decode_arg is_big_endian application depth limit p.arg inp ≡ throw e
      → dispatch_proc is_big_endian application depth limit p xid inp
        ≡ error_reply is_big_endian application depth limit xid 4
  unfolding dispatch_proc
  dispatch_proc_garbage p xid inp e d = rw (d, dispatch_proc) refl

  pub dispatch_proc_call :
      (p : Procedure) (xid : ℕ) (inp : List ℕ) (vs : Vals)
      → decode_arg is_big_endian application depth limit p.arg inp ≡ ok vs
      → dispatch_proc is_big_endian application depth limit p xid inp
        ≡ answer_call is_big_endian application depth limit p xid vs
  unfolding dispatch_proc
  dispatch_proc_call p xid inp vs d = rw (d, dispatch_proc) refl
