-- ===== src/Server/Dispatch/Replies.antt =====
-- Every call is answered.
use xdrpp.Common.{
  ℕ, ◌^◌, ◌≤◌, ◌<◌, ◌≡◌, sym, ◌∙◌, arith, Bool, some, List, [], ◌∷◌, ◌++◌, length, Bool-cases,
  Option-cases, get_some, inl, inr, ◌==◌, ==_iff, ne_of_==, if_true, if_false, subst,
}
use xdrpp.Common.Result.{ok, Ensures, Ensures-cases}
use xdrpp.Types.{Schema, Vals}
use xdrpp.Marshal.Words.{be32}
use xdrpp.Marshal.Put.Encode.{IsWhole}
use xdrpp.Marshal.Get.Formed.{AreTys, IsSchema}
use xdrpp.Message.{Arg}
use xdrpp.Message.Args.{ArgsFit, encode_args, AllFitTypes}
use xdrpp.RpcMsg.{CallBody}
use xdrpp.RpcMsg.Codec.{IsMsg}
use xdrpp.RpcMsg.Archive.{encode_hdr}
use xdrpp.Server.Errors.{words}
use xdrpp.Server.Registry.{Procedure, Service, Servers, lookup}
use xdrpp.Server.Registry.Order.{lookup_bounds, last_key-Below}
use xdrpp.Server.Registry.Services.{IsRegistry, AreVersions}
use xdrpp.Server.Dispatch.{Attempt, decode_arg, dispatch}
use xdrpp.Server.Dispatch.Arguments.{decode_arg-Ensures}
use xdrpp.Server.Dispatch.Routes.{find_proc, replied, call_hdr, IsServed, limit, arg_limit, schema}
use xdrpp.Server.Dispatch.Refusals.{
  Refuses, other_rpc, no_program, no_version, no_procedure, bad_arguments, dispatch-Refuses,
  dispatch_throw,
}
use xdrpp.Server.Dispatch.Results.{framed_bytes, success_bytes, dispatch_answer}

-- The code replied once, with a framed message that begins with the xid and says that it is a reply.
abbrev pub RepliesTo : ℕ → Attempt → Type 0
RepliesTo xid a = (bs : List ℕ) × (a ≡ replied (framed_bytes (be32 xid ++ (be32 1 ++ bs))))

module _ (is_big_endian : Bool) (application : Schema) (depth L : ℕ) where
  abbrev lim : ℕ
  lim = limit is_big_endian application depth L

  abbrev sch : Schema
  sch = schema is_big_endian application depth L

  -- The types of the arguments are ones that the compiler accepts. On arguments of those types the
  -- method returns a result that fits its types and has at most 2 ^ 30 bytes, or throws one of the
  -- exceptions of the library.
  pub record IsProcedure (p : Procedure) : Type 0 where
    pub typed : AreTys p.arg
    pub behaves :
        (vs : Vals)
        → AllFitTypes sch lim p.arg vs
        → Ensures
            (λ res. ArgsFit sch lim res × (length (encode_args sch lim res) ≤ 2 ^ 30))
            (p.method vs)

  abbrev pub AreProcedures : List Procedure → Type 0
  AreProcedures [] = Unit
  AreProcedures (p ∷ ps) = IsProcedure p × AreProcedures ps

  -- All services that are registered have such procedures.
  abbrev pub HaveProcedures : Servers → Type 0
  HaveProcedures servers =
      (c : CallBody) (s : Service) → IsServed servers c s → AreProcedures s.procs

  find_proc-IsProcedure :
      (ps : List Procedure) (proc : ℕ) (p : Procedure)
      → AreProcedures ps
      → find_proc ps proc ≡ some p
      → IsProcedure p
  unfolding find_proc
  find_proc-IsProcedure [] proc p a e = absurd (cc)
  find_proc-IsProcedure (q ∷ ps) proc p a e = elim (Bool-cases (proc == q.proc)) [
    | inl here ↦ subst IsProcedure (get_some p (sym (if_true _ _ here) ∙ e)) a.0
    | inr later ↦ find_proc-IsProcedure ps proc p a.1 (sym (if_false _ _ later) ∙ e)
  ]

  refusal-RepliesTo :
      (servers : Servers) (xid : ℕ) (c : CallBody) (inp : List ℕ) (ws : List ℕ)
      → IsMsg (call_hdr xid c)
      → IsWhole inp
      → Refuses is_big_endian application depth L servers c inp (1 ∷ ws)
      → RepliesTo xid (
          dispatch is_big_endian application depth lim servers
            (encode_hdr is_big_endian application lim (call_hdr xid c) ++ inp))
  refusal-RepliesTo servers xid c inp ws h w r = (
    words ws,
    dispatch-Refuses is_big_endian application depth L servers xid c inp (1 ∷ ws) h w r,
  )

  success_bytes_small :
      (xid : ℕ) (res : List Arg)
      → length (encode_args sch lim res) ≤ 2 ^ 30
      → length (success_bytes is_big_endian application depth L xid res) < 2 ^ 31
  unfolding be32
  success_bytes_small xid res h = omega arith

  success-RepliesTo :
      (servers : Servers) (xid : ℕ) (c : CallBody) (s : Service) (p : Procedure) (inp : List ℕ)
      (vs : Vals)
      → IsMsg (call_hdr xid c)
      → IsWhole inp
      → c.rpcvers ≡ 2
      → IsServed servers c s
      → find_proc s.procs c.proc ≡ some p
      → decode_arg is_big_endian application depth lim p.arg inp ≡ ok vs
      → Ensures
          (λ res. ArgsFit sch lim res × (length (encode_args sch lim res) ≤ 2 ^ 30))
          (p.method vs)
      → RepliesTo xid (
          dispatch is_big_endian application depth lim servers
            (encode_hdr is_big_endian application lim (call_hdr xid c) ++ inp))
  unfolding be32
  success-RepliesTo servers xid c s p inp vs h w r served found d m =
      elim (Ensures-cases (p.method vs) m) [
        | inr (e, t) ↦ (
          words (0 ∷ 0 ∷ 0 ∷ 4 ∷ []),
          dispatch_throw is_big_endian application depth L servers xid c s p inp vs e h w r served
              found d t,
        )
        | inl (res, t, (fit, small)) ↦ (
          words (0 ∷ 0 ∷ 0 ∷ 0 ∷ []) ++ encode_args sch lim res,
          dispatch_answer is_big_endian application depth L servers xid c s p inp vs res h w r
              served found d t fit (success_bytes_small xid res small),
        )
      ]

  service-RepliesTo :
      IsSchema sch
      → (servers : Servers) (xid : ℕ) (c : CallBody) (s : Service) (inp : List ℕ)
      → AreProcedures s.procs
      → IsMsg (call_hdr xid c)
      → IsWhole inp
      → c.rpcvers ≡ 2
      → IsServed servers c s
      → RepliesTo xid (
          dispatch is_big_endian application depth lim servers
            (encode_hdr is_big_endian application lim (call_hdr xid c) ++ inp))
  service-RepliesTo ws servers xid c s inp ps h w r served =
      elim (Option-cases (find_proc s.procs c.proc)) [
        | inl missing ↦ refusal-RepliesTo servers xid c inp _ h w (no_procedure r served missing)
        | inr (p, found) ↦
            let is : IsProcedure p = find_proc-IsProcedure s.procs c.proc p ps found in
            elim (Ensures-cases (decode_arg is_big_endian application depth lim p.arg inp) (
              decode_arg-Ensures is_big_endian application depth
                (arg_limit is_big_endian application depth L) ws p.arg inp is.typed w)) [
                  | inr (e, d) ↦
                      refusal-RepliesTo servers xid c inp _ h w (bad_arguments r served found d)
                  | inl (vs, d, fit) ↦
                      success-RepliesTo servers xid c s p inp vs h w r served found d
                        (is.behaves vs fit)
                ]
      ]

  program-RepliesTo :
      IsSchema sch
      → (servers : Servers) (xid : ℕ) (c : CallBody) (versions : List (ℕ × Service)) (inp : List ℕ)
      → HaveProcedures servers
      → IsMsg (call_hdr xid c)
      → IsWhole inp
      → c.rpcvers ≡ 2
      → lookup c.prog servers ≡ some versions
      → AreVersions c.prog versions
      → RepliesTo xid (
          dispatch is_big_endian application depth lim servers
            (encode_hdr is_big_endian application lim (call_hdr xid c) ++ inp))
  program-RepliesTo ws servers xid c versions inp ps h w r e a =
      elim (Option-cases (lookup c.vers versions)) [
        | inl missing ↦
            let (v, t, there) = a.some_vers in
            let (low, high, f, l, from, to) = lookup_bounds v t versions a.ascend there in
            let below : high < 2 ^ 32 = last_key-Below (2 ^ 32) high versions a.bounded l in
            refusal-RepliesTo servers xid c inp _ h w
              (no_version r e missing f l (omega (arith, below, from, to)) below)
        | inr (s, found) ↦
            let (same_prog, same_vers) = a.own c.vers s found in
            let served : IsServed servers c s = record {
              versions = versions;
              is_prog = e;
              is_vers = found;
              same_prog = same_prog;
              same_vers = same_vers;
            } in
            service-RepliesTo ws servers xid c s inp (ps c s served) h w r served
      ]

  -- Where the registry is well formed and its procedures behave, `dispatch` replies to every message
  -- of whole words that begins with the header of a call, whatever it asks for and whatever bytes
  -- follow: exactly once, with a framed message that begins with the xid of the call and says that
  -- it is a reply, and then it returns.
  pub dispatch-RepliesTo :
      IsSchema sch
      → (servers : Servers) (xid : ℕ) (c : CallBody) (inp : List ℕ) → IsRegistry servers
      → HaveProcedures servers
      → IsMsg (call_hdr xid c)
      → IsWhole inp
      → RepliesTo xid (
          dispatch is_big_endian application depth lim servers
            (encode_hdr is_big_endian application lim (call_hdr xid c) ++ inp))
  dispatch-RepliesTo ws servers xid c inp reg ps h w = elim (Bool-cases (c.rpcvers == 2)) [
    | inr other ↦ refusal-RepliesTo servers xid c inp _ h w (other_rpc (ne_of_== c.rpcvers 2 other))
    | inl same ↦
        let r : c.rpcvers ≡ 2 = (==_iff c.rpcvers 2).0 same in
        elim (Option-cases (lookup c.prog servers)) [
          | inl missing ↦ refusal-RepliesTo servers xid c inp _ h w (no_program r missing)
          | inr (versions, e) ↦
              program-RepliesTo ws servers xid c versions inp ps h w r e
                (reg.programs c.prog versions e)
        ]
  ]
