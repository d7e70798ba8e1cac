-- ===== src/Server/Dispatch/Arguments.antt =====
-- The arguments of a call, behind the tuple and the `transparent_ptr`s that the server reads them
-- into: these take two levels of the stack limit.
use xdrpp.Common.{ℕ, suc, ◌≡◌, refl, sym, ap, fun_ext, subst, Bool, List, [], ◌∷◌, append-nil}
use xdrpp.Common.Result.{ok, ◌>>=◌, Ensures, returns, Ensures-bind}
use xdrpp.Types.{Ty, Schema, cons}
use xdrpp.Marshal.{rfc_base}
use xdrpp.Marshal.Get.{get, get_fields, get_done}
use xdrpp.Marshal.Put.Encode.{IsWhole}
use xdrpp.Marshal.Get.Formed.{AreTys, IsSchema}
use xdrpp.Message.{Arg, get_args}
use xdrpp.Message.Args.{types, values, ArgsFit, encode_args, AllFitTypes}
use xdrpp.Message.Levels.{ArgsFit-two, AllFitTypes-suc}
use xdrpp.Message.RoundTrip.{get_args_lem, get_args_sound, get_done-Ensures}
use xdrpp.RpcMsg.{rpc_schema}
use xdrpp.Server.Dispatch.{load_pointer, load_arguments, decode_arg}

module _ (is_big_endian : Bool) (application : Schema) (depth : ℕ) where
  abbrev sch : Schema
  sch = rpc_schema application

  get_fields-get_args :
      (lim : ℕ) (ts : List Ty) (inp : List ℕ)
      → get_fields (get (rfc_base is_big_endian) sch lim) ts inp
        ≡ get_args is_big_endian sch depth lim ts inp
  unfolding get_fields get_args
  get_fields-get_args lim [] inp = refl
  get_fields-get_args lim (t ∷ ts) inp =
      ap
        (λ k. get (rfc_base is_big_endian) sch lim t inp >>= λ (v, inp1).
          k inp1 >>= λ (vs, inp2). ok (cons v vs, inp2))
        (fun_ext (get_fields-get_args lim ts))

  load_arguments-get_args :
      (lim : ℕ) (ts : List Ty) (inp : List ℕ)
      → load_arguments is_big_endian application (suc (suc lim)) ts inp
        ≡ get_args is_big_endian sch depth lim ts inp
  unfolding load_arguments load_pointer
  load_arguments-get_args lim ts inp = get_fields-get_args lim ts inp

  -- Arguments that fit within two levels fewer than the server's limit are read.
  pub decode_arg-encode_args :
      (lim : ℕ) (args : List Arg)
      → ArgsFit sch lim args
      → decode_arg is_big_endian application depth
          (suc (suc lim))
          (types args)
          (encode_args sch (suc (suc lim)) args)
        ≡ ok (values args)
  unfolding decode_arg get_done
  decode_arg-encode_args lim args f =
      rw (sym (ArgsFit-two sch lim args f).1, load_arguments-get_args lim, read) refl
    where
      read :
          get_args is_big_endian sch depth lim (types args) (encode_args sch lim args)
          ≡ ok (values args, [])
      read = rw append-nil at (get_args_lem is_big_endian sch lim depth args [] f)

  -- What `decode_arg` gives on arbitrary input.
  pub decode_arg-Ensures :
      (lim : ℕ)
      → IsSchema sch
      → (ts : List Ty) (inp : List ℕ) → AreTys ts
      → IsWhole inp
      → Ensures
          (λ vs. AllFitTypes sch (suc (suc lim)) ts vs)
          (decode_arg is_big_endian application depth (suc (suc lim)) ts inp)
  unfolding decode_arg
  decode_arg-Ensures lim ws ts inp w h =
      Ensures-bind
        (subst (Ensures _) (sym (load_arguments-get_args lim ts inp))
          (get_args_sound is_big_endian sch lim ws depth ts inp w h))
        λ (vs, rest) (fit, taken).
          Ensures-bind (get_done-Ensures is_big_endian sch lim rest) λ _ empty.
            returns (AllFitTypes-suc sch (suc lim) ts vs (AllFitTypes-suc sch lim ts vs fit))
