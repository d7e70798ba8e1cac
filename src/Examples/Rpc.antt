-- ===== src/Examples/Rpc.antt =====
-- A server with one procedure, which returns its argument, and calls of it.
use xdrpp.Common.{
  ◌^◌, ◌≡◌, ◌≤◌, refl, sym, subst, ap, ◌∙◌, Bool-cases, get_some, if_true, if_false, inl, inr, ◌==◌,
  arith, true, false, none, some, List, [], ◌∷◌, ◌++◌, length,
}
use xdrpp.Common.Result.{Res, ok, throw, invariant_failed, ill_typed, Ensures, returns}
use xdrpp.Types.{
  uint32, kind, with_mem_ptr, labelled_field, num, bytes, seq, choice, Vals, nil, cons,
}
use xdrpp.Marshal.Words.{be32}
use xdrpp.Marshal.Bytes.{padded}
use xdrpp.Marshal.Put.Encode.{Fits, encode}
use xdrpp.Message.{Arg}
use xdrpp.RpcMsg.{CallBody, rpc_schema}
use xdrpp.Server.Registry.{Procedure, Service, Servers, lookup, assign, register_service_base}
use xdrpp.Server.Registry.Services.{IsRegistry, register_service_base-IsRegistry}
use xdrpp.Server.Errors.{framed}
use xdrpp.Marshal.Get.{get_fields, get_done}
use xdrpp.Server.Dispatch.{load_arguments, decode_arg, dispatch}
use xdrpp.Server.Dispatch.Routes.{find_proc, replied, call_hdr, IsServed}
use xdrpp.Server.Dispatch.Refusals.{no_procedure, dispatch-Refuses, dispatch_throw}
use xdrpp.Server.Dispatch.Replies.{RepliesTo, IsProcedure, AreProcedures, dispatch-RepliesTo}
use xdrpp.RpcMsg.Archive.{encode_hdr}
use xdrpp.RpcMsg.Codec.{rpc_schema-IsSchema}
use xdrpp.Message.Args.{ArgsFit, encode_args, AllFitTypes}
use xdrpp.Srpc.{invoke, returned}
use xdrpp.Srpc.Serve.{loopback}
use xdrpp.Srpc.Frames.{IsPassed}
use xdrpp.Srpc.EndToEnd.{prepared, invoke-loopback}
use xdrpp.Examples.Data.{schema, schema-IsSchema}

abbrev pub echo : Vals → Res (List Arg)
echo (cons v nil) = ok ((uint32, v) ∷ [])
echo _ = ill_typed

abbrev pub echo_proc : Procedure
echo_proc = record { proc = 1; arg = uint32 ∷ []; res = uint32 ∷ []; method = echo }

abbrev pub echo_service : Service
echo_service = record { prog = 200; vers = 3; procs = echo_proc ∷ [] }

abbrev pub servers : Servers
servers = (200, (3, echo_service) ∷ []) ∷ []

abbrev pub seven : List Arg
seven = (uint32, num 7) ∷ []

pub seven-Fits : Fits (rpc_schema schema) 6 uint32 (num 7)
unfolding Fits kind
seven-Fits = (omega arith, tt)

-- The same for an argument, which stands two levels down.
pub arg-Fits : Fits (rpc_schema schema) 4 uint32 (num 7)
unfolding Fits kind
arg-Fits = (omega arith, tt)

pub call-IsServed : IsServed servers (prepared 200 3 1) echo_service
unfolding lookup
call-IsServed = record {
  versions = (3, echo_service) ∷ [];
  is_prog = refl;
  is_vers = refl;
  same_prog = refl;
  same_vers = refl;
}

-- Procedure 9 is not there.
dispatch-Refuses_example :
    dispatch false schema 3 6 servers
      (encode_hdr false schema 6 (call_hdr 9 (prepared 200 3 9)) ++ [])
    ≡ replied (framed (9 ∷ 1 ∷ 0 ∷ 0 ∷ 0 ∷ 3 ∷ []))
unfolding find_proc
dispatch-Refuses_example =
    dispatch-Refuses false schema 3 0 servers 9 (prepared 200 3 9) [] (1 ∷ 0 ∷ 0 ∷ 0 ∷ 3 ∷ [])
      (
        omega arith,
        (
          omega arith,
          omega arith,
          omega arith,
          omega arith,
          (omega arith, omega arith),
          (omega arith, omega arith),
        ),
      )
      refl
      (no_procedure {s = echo_service} refl
        (record {
          versions = (3, echo_service) ∷ [];
          is_prog = unfold lookup in refl;
          is_vers = unfold lookup in refl;
          same_prog = refl;
          same_vers = refl;
        })
        refl)

-- Procedure 2 has no arguments, and its method throws.
abbrev failing_proc : Procedure
failing_proc = record { proc = 2; arg = []; res = []; method = λ vs. throw invariant_failed }

abbrev failing_service : Service
failing_service = record { prog = 200; vers = 3; procs = failing_proc ∷ [] }

dispatch_throw_example :
    dispatch false schema 3 6
      ((200, (3, failing_service) ∷ []) ∷ [])
      (encode_hdr false schema 6 (call_hdr 9 (prepared 200 3 2)) ++ [])
    ≡ replied (framed (9 ∷ 1 ∷ 0 ∷ 0 ∷ 0 ∷ 4 ∷ []))
unfolding find_proc lookup decode_arg load_arguments get_fields get_done
dispatch_throw_example =
    dispatch_throw false schema 3 0 ((200, (3, failing_service) ∷ []) ∷ []) 9 (prepared 200 3 2)
      failing_service failing_proc [] nil invariant_failed
      (
        omega arith,
        (
          omega arith,
          omega arith,
          omega arith,
          omega arith,
          (omega arith, omega arith),
          (omega arith, omega arith),
        ),
      )
      refl refl
      (record {
        versions = (3, failing_service) ∷ [];
        is_prog = refl;
        is_vers = refl;
        same_prog = refl;
        same_vers = refl;
      })
      refl refl refl

invoke-loopback_example :
    invoke true schema 3 6
      (loopback false schema 3 6 servers)
      4294967295
      200
      3
      1
      seven
      (uint32 ∷ [])
    ≡ returned (cons (num 7) nil)
unfolding find_proc encode kind be32 IsPassed with_mem_ptr labelled_field padded
invoke-loopback_example =
    invoke-loopback true false schema 3 0 servers 4294967295 200 3 1 echo_service echo_proc seven
      seven (omega arith, omega arith, omega arith) call-IsServed refl refl (arg-Fits, tt) refl
      (seven-Fits, tt) (omega arith) refl (omega arith) refl

no_servers-IsRegistry : IsRegistry []
unfolding lookup
no_servers-IsRegistry = record { sorted = tt; programs = λ prog versions e. absurd (cc) }

-- Whatever is served is the service that echoes.
only_echo : (c : CallBody) (s : Service) → IsServed servers c s → echo_service ≡ s
unfolding lookup
only_echo c s h = elim (Bool-cases (c.prog == 200)) [
  | inl here ↦
      let vs : (3, echo_service) ∷ [] ≡ h.versions =
        get_some h.versions (sym (if_true _ _ here) ∙ h.is_prog) in
      let found : lookup c.vers ((3, echo_service) ∷ []) ≡ some s =
        ap (lookup c.vers) vs ∙ h.is_vers in
      elim (Bool-cases (c.vers == 3)) [
        | inl same ↦ get_some s (sym (if_true _ _ same) ∙ found)
        | inr other ↦ absurd (no_service s (sym (if_false _ _ other) ∙ found))
      ]
  | inr there ↦ absurd (no_service h.versions (sym (if_false _ _ there) ∙ h.is_prog))
]
  where
    no_service : {A : Type 0} (a : A) → ¬ (none ≡ some a)
    no_service a e = absurd (cc)

echo_proc-IsProcedure : IsProcedure false schema 3 0 echo_proc
unfolding Fits encode kind be32
echo_proc-IsProcedure = record { typed = (tt, tt); behaves = behaves }
  where
    behaves :
        (vs : Vals)
        → AllFitTypes (rpc_schema schema) 6 (uint32 ∷ []) vs
        → Ensures
            (λ res.
              ArgsFit (rpc_schema schema) 6 res
              × (length (encode_args (rpc_schema schema) 6 res) ≤ 2 ^ 30))
            (echo vs)
    behaves (cons (num u) nil) f = returns ((f.0, tt), omega arith)
    behaves (cons (bytes b) nil) f = absurd f.0
    behaves (cons (seq vs) nil) f = absurd f.0
    behaves (cons (choice d vs) nil) f = absurd f.0
    behaves nil f = absurd f
    behaves (cons v (cons w vs)) f = absurd f.1

servers-IsRegistry : IsRegistry servers
unfolding register_service_base lookup assign
servers-IsRegistry =
    register_service_base-IsRegistry echo_service [] (omega arith) no_servers-IsRegistry

dispatch-RepliesTo_example : RepliesTo 9 (
    dispatch false schema 3 6 servers (
      encode_hdr false schema 6 (call_hdr 9 (prepared 200 3 1))
      ++ (1 ∷ 2 ∷ 3 ∷ 4 ∷ 5 ∷ 6 ∷ 7 ∷ 8 ∷ [])))
dispatch-RepliesTo_example =
    dispatch-RepliesTo false schema 3 0 (rpc_schema-IsSchema schema schema-IsSchema) servers 9
      (prepared 200 3 1) (1 ∷ 2 ∷ 3 ∷ 4 ∷ 5 ∷ 6 ∷ 7 ∷ 8 ∷ []) servers-IsRegistry
      (λ c s h.
        subst (λ (t : Service). AreProcedures false schema 3 0 t.procs) (only_echo c s h)
          (echo_proc-IsProcedure, tt))
      (
        omega arith,
        (
          omega arith,
          omega arith,
          omega arith,
          omega arith,
          (omega arith, omega arith),
          (omega arith, omega arith),
        ),
      )
      refl
