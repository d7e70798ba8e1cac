-- ===== src/Server/Dispatch/Results.antt =====
-- The calls that the server executes, and the replies with their results.
use xdrpp.Common.{
  ℕ, ◌+◌, ◌^◌, ◌<◌, ◌≡◌, refl, sym, ap, ◌∙◌, arith, Bool, some, List, [], ◌∷◌, ◌++◌, length,
  append_assoc, subst,
}
use xdrpp.Common.Result.{ok}
use xdrpp.Types.{Schema, Vals, kind}
use xdrpp.Marshal.Words.{be32}
use xdrpp.Marshal.Put.Encode.{encode, IsWhole}
use xdrpp.Message.{Message, Arg, xdr_to_msg}
use xdrpp.Message.Args.{types, values, ArgsFit, encode_args, encode_args-IsWhole}
use xdrpp.Message.RoundTrip.{xdr_to_msg_lem}
use xdrpp.RpcMsg.{CallBody}
use xdrpp.RpcMsg.Codec.{IsMsg}
use xdrpp.RpcMsg.Archive.{encode_hdr}
use xdrpp.Server.Errors.{words, AreWords, AreWords-ArgsFit, encode-AreWords}
use xdrpp.Server.Registry.{Procedure, Service, Servers}
use xdrpp.Server.Dispatch.{reply, decode_arg, answer_call, dispatch, recover, rpc_success_hdr}
use xdrpp.Server.Dispatch.Arguments.{decode_arg-encode_args}
use xdrpp.Server.Dispatch.Routes.{
  find_proc, replied, call_hdr, IsServed, limit, arg_limit, schema, run_found, dispatch-run_found,
  dispatch_proc_call, recover-replied,
}

-- A message with its record mark.
abbrev pub framed_bytes : List ℕ → Message
framed_bytes bs = record { size = length bs; header = be32 (length bs + 2 ^ 31); content = bs }

-- The words of the header of a success.
abbrev pub success_words : ℕ → List ℕ
success_words xid = xid ∷ 1 ∷ 0 ∷ 0 ∷ 0 ∷ 0 ∷ []

success_hdr-AreWords : (xid : ℕ) → xid < 2 ^ 32 → AreWords (rpc_success_hdr xid) (success_words xid)
unfolding kind
success_hdr-AreWords xid h = (
  refl,
  tt,
  refl,
  h,
  (
    refl,
    tt,
    refl,
    omega arith,
    (
      refl,
      tt,
      refl,
      omega arith,
      (
        refl,
        tt,
        refl,
        omega arith,
        (refl, tt, refl, omega arith, (refl, tt, refl, omega arith, tt)),
      ),
    ),
  ),
)

module _ (s : Schema) (limit : ℕ) where
  append-ArgsFit :
      (xs ys : List Arg) → ArgsFit s limit xs → ArgsFit s limit ys → ArgsFit s limit (xs ++ ys)
  append-ArgsFit [] ys f g = g
  append-ArgsFit ((t, v) ∷ xs) ys f g = (f.0, append-ArgsFit xs ys f.1 g)

  encode_args-append :
      (xs ys : List Arg)
      → encode_args s limit (xs ++ ys) ≡ encode_args s limit xs ++ encode_args s limit ys
  encode_args-append [] ys = refl
  encode_args-append ((t, v) ∷ xs) ys =
      rw (encode_args-append xs ys)
        (sym (append_assoc (encode s limit t v) (encode_args s limit xs) (encode_args s limit ys)))

module _ (is_big_endian : Bool) (application : Schema) (depth L : ℕ) where
  abbrev lim : ℕ
  lim = limit is_big_endian application depth L

  abbrev sch : Schema
  sch = schema is_big_endian application depth L

  -- The content of a reply with a result.
  abbrev pub success_bytes : ℕ → List Arg → List ℕ
  success_bytes xid res = words (success_words xid) ++ encode_args sch lim res

  pub success_msg :
      (xid : ℕ) (res : List Arg)
      → xid < 2 ^ 32
      → ArgsFit sch lim res
      → length (success_bytes xid res) < 2 ^ 31
      → xdr_to_msg is_big_endian sch depth lim (rpc_success_hdr xid ++ res)
        ≡ ok (framed_bytes (success_bytes xid res))
  success_msg xid res x f h =
      xdr_to_msg_lem is_big_endian sch lim depth (rpc_success_hdr xid ++ res)
        (append-ArgsFit sch lim (rpc_success_hdr xid) res
          (AreWords-ArgsFit is_big_endian sch depth lim (rpc_success_hdr xid) (success_words xid)
            (success_hdr-AreWords xid x))
          f)
        (rw same h)
      ∙ ap (λ bs. ok (framed_bytes bs)) same
    where
      same : encode_args sch lim (rpc_success_hdr xid ++ res) ≡ success_bytes xid res
      same =
          encode_args-append sch lim (rpc_success_hdr xid) res
          ∙ ap (λ bs. bs ++ encode_args sch lim res)
              (encode-AreWords is_big_endian sch depth lim (rpc_success_hdr xid) (success_words xid)
                (success_hdr-AreWords xid x))

  answer_call_lem :
      (p : Procedure) (xid : ℕ) (vs : Vals) (res : List Arg)
      → xid < 2 ^ 32
      → p.method vs ≡ ok res
      → ArgsFit sch lim res
      → length (success_bytes xid res) < 2 ^ 31
      → answer_call is_big_endian application depth lim p xid vs
        ≡ replied (framed_bytes (success_bytes xid res))
  unfolding answer_call reply
  answer_call_lem p xid vs res x m f h = rw (m, success_msg xid res x f h, answer_call) refl

  -- A call whose arguments are read and whose method returns.
  pub dispatch_answer :
      (servers : Servers) (xid : ℕ) (c : CallBody) (s : Service) (p : Procedure) (inp : List ℕ)
      (vs : Vals) (res : List Arg)
      → IsMsg (call_hdr xid c)
      → IsWhole inp
      → c.rpcvers ≡ 2
      → IsServed servers c s
      → find_proc s.procs c.proc ≡ some p
      → decode_arg is_big_endian application depth lim p.arg inp ≡ ok vs
      → p.method vs ≡ ok res
      → ArgsFit sch lim res
      → length (success_bytes xid res) < 2 ^ 31
      → dispatch is_big_endian application depth lim servers
          (encode_hdr is_big_endian application lim (call_hdr xid c) ++ inp)
        ≡ replied (framed_bytes (success_bytes xid res))
  unfolding run_found
  dispatch_answer servers xid c s p inp vs res h w r served found d m g small =
      dispatch-run_found is_big_endian application depth L servers xid c s inp h w r served
      ∙ ap (recover is_big_endian application depth lim xid) (
          ap (λ o. run_found is_big_endian application depth L o xid inp) found
          ∙ dispatch_proc_call is_big_endian application depth L p xid inp vs d
          ∙ answer_call_lem p xid vs res h.0 m g small)
      ∙ recover-replied is_big_endian application depth L xid (framed_bytes (success_bytes xid res))

  -- To the message of a call whose service is registered, whose procedure the service has, and whose
  -- arguments fit the procedure's types within two levels fewer than the limit of the stack, `dispatch`
  -- replies exactly once where the method returns a
  -- result that fits its types (and makes less than 2 ^ 31 bytes): with the framed message of the
  -- xid, a success and the encoding of the result of the method on those very arguments.
  pub dispatch_result :
      (servers : Servers) (xid : ℕ) (c : CallBody) (s : Service) (p : Procedure)
      (args res : List Arg)
      → IsMsg (call_hdr xid c)
      → c.rpcvers ≡ 2
      → IsServed servers c s
      → find_proc s.procs c.proc ≡ some p
      → types args ≡ p.arg
      → ArgsFit sch (arg_limit is_big_endian application depth L) args
      → p.method (values args) ≡ ok res
      → ArgsFit sch lim res
      → length (success_bytes xid res) < 2 ^ 31
      → dispatch is_big_endian application depth lim servers
          (encode_hdr is_big_endian application lim (call_hdr xid c) ++ encode_args sch lim args)
        ≡ replied (framed_bytes (success_bytes xid res))
  dispatch_result servers xid c s p args res h r served found t f m g small =
      dispatch_answer servers xid c s p (encode_args sch lim args) (values args) res h
        (encode_args-IsWhole sch lim args) r served found
        (subst
          (λ ts.
            decode_arg is_big_endian application depth lim ts (encode_args sch lim args)
            ≡ ok (values args))
          t
          (decode_arg-encode_args is_big_endian application depth
            (arg_limit is_big_endian application depth L) args f))
        m g small
