-- ===== src/Arpc/Calling.antt =====
-- The results of asynchronous calls.
use xdrpp.Common.{ℕ, ◌^◌, ◌<◌, ◌≡◌, refl, ap, ◌∙◌, Bool, some, List, [], ◌∷◌, append-nil}
use xdrpp.Common.Result.{Error, ok, throw}
use xdrpp.Types.{Schema}
use xdrpp.Marshal.Get.{get_done}
use xdrpp.Message.{Arg, get_args}
use xdrpp.Message.Args.{types, values, ArgsFit, encode_args}
use xdrpp.Message.RoundTrip.{get_args_lem}
use xdrpp.RpcMsg.CallStat.{garbage_res, rpc_call_stat, succeeded}
use xdrpp.Server.Dispatch.Results.{success_bytes}
use xdrpp.Srpc.EndToEnd.{success_hdr, archive_success, lim, sch}
use xdrpp.Arpc.{
  result, no_result, Callback, read_body, read_reply, catch_error, take_reply, on_reply,
}

module _ (be : Bool) (application : Schema) (depth L : ℕ) where
  abbrev pub limit : ℕ
  limit = lim be application depth L

  abbrev pub schema : Schema
  schema = sch be application depth L

  read_body_lem :
      (xid : ℕ) (res : List Arg)
      → ArgsFit schema limit res
      → read_body be application depth limit
          (types res)
          (success_hdr xid)
          (encode_args schema limit res)
        ≡ ok (result (values res))
  unfolding read_body get_done rpc_call_stat succeeded
  read_body_lem xid res f = rw read refl
    where
      read :
          get_args be schema depth limit (types res) (encode_args schema limit res)
          ≡ ok (values res, [])
      read = rw append-nil at (get_args_lem be schema limit depth res [] f)

  read_reply_lem :
      (xid : ℕ) (res : List Arg)
      → xid < 2 ^ 32
      → ArgsFit schema limit res
      → read_reply be application depth limit
          (types res)
          (success_bytes be application depth L xid res)
        ≡ ok (result (values res))
  unfolding read_reply
  read_reply_lem xid res x f =
      rw (archive_success be application depth L xid res x) (read_body_lem xid res f)

  pub on_reply_once :
      (xid : ℕ) (res : List Arg) (cb : Callback)
      → xid < 2 ^ 32
      → ArgsFit schema limit res
      → cb (result (values res)) ≡ ok tt
      → on_reply be application depth limit
          (types res)
          cb
          (some (success_bytes be application depth L xid res))
        ≡ (result (values res) ∷ [], ok tt)
  unfolding on_reply take_reply catch_error
  on_reply_once xid res cb x f h =
      ap (take_reply be application depth limit cb) (read_reply_lem xid res x f) ∙ rw h refl

  -- Behind a reply with a result the callback is called with the result; if it then throws an
  -- `xdr_runtime_error` itself, it is called a second time, and told that the result could not be
  -- read.
  pub on_reply_twice :
      (xid : ℕ) (res : List Arg) (cb : Callback) (e : Error)
      → xid < 2 ^ 32
      → ArgsFit schema limit res
      → cb (result (values res)) ≡ throw e
      → on_reply be application depth limit
          (types res)
          cb
          (some (success_bytes be application depth L xid res))
        ≡ (result (values res) ∷ no_result garbage_res ∷ [], cb (no_result garbage_res))
  unfolding on_reply take_reply catch_error
  on_reply_twice xid res cb e x f h =
      ap (take_reply be application depth limit cb) (read_reply_lem xid res x f) ∙ rw h refl
