-- ===== src/Arpc/Loopback.antt =====
-- An asynchronous call to the server and back.
use xdrpp.Common.{
  ℕ, ◌^◌, ◌<◌, ◌≤◌, ◌≡◌, refl, ap, ◌∙◌, sym, arith, Bool, true, false, none, some, List, [], ◌∷◌,
  ◌++◌, length, append_assoc,
}
use xdrpp.Common.Result.{ok, ◌>>=◌}
use xdrpp.Endian.{swap32, swap32le}
use xdrpp.Marshal.{load32}
use xdrpp.Types.{Schema, kind}
use xdrpp.Marshal.Words.{be32, load32-be32}
use xdrpp.Marshal.Put.Encode.{encode}
use xdrpp.Message.{Arg}
use xdrpp.Message.Args.{types, values, ArgsFit, encode_args}
use xdrpp.Message.Levels.{ArgsFit-two}
use xdrpp.Message.RoundTrip.{xdr_to_msg_lem}
use xdrpp.MsgSock.Rpc
use xdrpp.MsgSock.Rpc.{Rpc, find, word, get_xid, send_call, recv_msg}
use xdrpp.MsgSock.Rpc.Replies.{emplace_new, send_call-recv_msg}
use xdrpp.RpcMsg.{rpc_msg, msg_val, CallBody}
use xdrpp.RpcMsg.Codec.{IsMsg, msg-Fits}
use xdrpp.RpcMsg.Archive.{encode_hdr}
use xdrpp.Server.Errors.{words}
use xdrpp.Server.Registry.{Procedure, Service, Servers}
use xdrpp.Server.Dispatch.{dispatch}
use xdrpp.Server.Dispatch.Routes.{find_proc, replied, call_hdr, IsServed, arg_limit}
use xdrpp.Server.Dispatch.Results.{framed_bytes, success_bytes, dispatch_result}
use xdrpp.Srpc.EndToEnd.{prepared, call_bytes}
use xdrpp.Arpc.{result, Callback, send_invoke, invoke, on_reply}
use xdrpp.Arpc.Calling.{limit, schema, on_reply_once}

kind_word :
    (be : Bool) (a b c d : ℕ) (rest : List ℕ)
    → word be 1 (a ∷ b ∷ c ∷ d ∷ 0 ∷ 0 ∷ 0 ∷ 1 ∷ rest) ≡ ok (swap32le be Rpc.reply)
unfolding word load32 swap32le swap32
kind_word true a b c d rest = refl
kind_word false a b c d rest = refl

module _ (be : Bool) (application : Schema) (depth L : ℕ) where
  abbrev lim : ℕ
  lim = limit be application depth L

  hdr_bytes :
      (xid : ℕ) (c : CallBody)
      → (tail : List ℕ) × (encode_hdr be application lim (call_hdr xid c) ≡ be32 xid ++ tail)
  unfolding encode kind
  hdr_bytes xid c = (_, refl)

  call_word :
      (xid : ℕ) (c : CallBody) (rest : List ℕ)
      → xid < 2 ^ 32
      → word be 0 (encode_hdr be application lim (call_hdr xid c) ++ rest) ≡ ok (swap32le be xid)
  unfolding word
  call_word xid c rest x =
      let (tail, e) = hdr_bytes xid c in
      rw (e, append_assoc (be32 xid) tail rest, load32-be32 be xid (tail ++ rest) x) refl

  reply_xid :
      (xid : ℕ) (res : List Arg)
      → xid < 2 ^ 32
      → word be 0 (success_bytes be application depth L xid res) ≡ ok (swap32le be xid)
  unfolding word
  reply_xid xid res x =
      rw
        (
          append_assoc (be32 xid) (words (1 ∷ 0 ∷ 0 ∷ 0 ∷ 0 ∷ []))
              (encode_args (schema be application depth L) lim res),
          load32-be32 be xid _ x,
        )
        refl

  reply_kind :
      (xid : ℕ) (res : List Arg)
      → word be 1 (success_bytes be application depth L xid res) ≡ ok (swap32le be Rpc.reply)
  unfolding be32
  reply_kind xid res = kind_word be _ _ _ _ _

  reply_long :
      (xid : ℕ) (res : List Arg) → 8 ≤ length (success_bytes be application depth L xid res)
  unfolding be32
  reply_long xid res = omega arith

-- An asynchronous call and its reply: what `invoke` leaves in the socket's table, what the server
-- answers, and what then becomes of the callback.
pub record Completes (client server : Bool) (application : Schema)
    (depth L turns xid x prog vers proc : ℕ) (servers : Servers) (args res : List Arg) (name : ℕ)
    (cb : Callback) (r : Rpc) : Type 0 where
  pub sent : Rpc
  pub invokes :
      invoke client application depth
        (lim client application depth L)
        turns
        xid
        prog
        vers
        proc
        args
        name
        r
      ≡ some (ok (x, sent))
  pub message :
      sent.sent
      ≡ r.sent
        ++ (call_bytes client server application depth L x (prepared prog vers proc) args ∷ [])
  pub reply : List ℕ
  pub answered :
      dispatch server application depth
        (lim server application depth L)
        servers
        (call_bytes client server application depth L x (prepared prog vers proc) args)
      ≡ replied (framed_bytes reply)
  pub received :
      recv_msg client (some reply) sent
      ≡ ok (record sent {
        calls = r.calls;
        effects = r.effects ++ (Rpc.invoke name (some reply) ∷ []);
      })
  pub called :
      on_reply client application depth (lim client application depth L) (types res) cb (some reply)
      ≡ (result (values res) ∷ [], ok tt)

module _ (client server : Bool) (application : Schema) (depth L : ℕ) where
  send_invoke_lem :
      (x prog vers proc : ℕ) (args : List Arg) (name : ℕ) (r : Rpc)
      → IsMsg (call_hdr x (prepared prog vers proc))
      → ArgsFit (schema client application depth L) (lim client application depth L) args
      → length (call_bytes client server application depth L x (prepared prog vers proc) args)
        < 2 ^ 31
      → send_invoke client application depth
          (lim client application depth L)
          args
          name
          (call_hdr x (prepared prog vers proc))
          r
        ≡ send_call client
            (call_bytes client server application depth L x (prepared prog vers proc) args)
            name
            r
  unfolding send_invoke
  send_invoke_lem x prog vers proc args name r is f h =
      ap (λ m. m >>= λ m. send_call client m.content name r)
        (xdr_to_msg_lem client (schema client application depth L) (lim client application depth L)
          depth ((rpc_msg, msg_val (call_hdr x (prepared prog vers proc))) ∷ args)
          (msg-Fits application L (call_hdr x (prepared prog vers proc)) is, f) h)

  -- The table with the new call.
  abbrev with_call : ℕ → ℕ → List ℕ → Rpc → Rpc
  with_call key name m r = record r { calls = (key, name) ∷ r.calls; sent = r.sent ++ (m ∷ []) }

  send_call_new :
      (key name : ℕ) (m : List ℕ) (r : Rpc)
      → word client 0 m ≡ ok key
      → find key r.calls ≡ none
      → send_call client m name r ≡ ok (with_call key name m r)
  unfolding send_call
  send_call_new key name m r w f =
      rw (w, send_call)
        (ap (λ calls. ok (record r { calls = calls; sent = r.sent ++ (m ∷ []) }))
          (emplace_new key name r.calls f))

  invoke_lem :
      (turns xid x prog vers proc : ℕ) (args : List Arg) (name : ℕ) (r s : Rpc)
      → get_xid turns xid r.calls ≡ some x
      → send_invoke client application depth
          (lim client application depth L)
          args
          name
          (call_hdr x (prepared prog vers proc))
          r
        ≡ ok s
      → invoke client application depth
          (lim client application depth L)
          turns
          xid
          prog
          vers
          proc
          args
          name
          r
        ≡ some (ok (x, s))
  unfolding invoke
  invoke_lem turns xid x prog vers proc args name r s g e =
      rw (g, invoke) (ap (λ q. some (q >>= λ r'. ok (x, r'))) e)

  -- An asynchronous call goes through: where `get_xid` gives an xid under which, as the message has
  -- it, no call is waiting, where the server has the procedure, the arguments fit its types within two
  -- levels fewer than the limit of the stack, its method returns a result that fits its types, both
  -- messages are shorter than 2 ^ 31 bytes and the callback returns, `invoke` hands the client's
  -- socket a message to which the server's `dispatch` replies once; given that reply, the client's
  -- `rpc_sock` hands it to the callback and forgets the call, and the callback is called once, with
  -- the very result that the method returned on the arguments; between machines of any byte orders.
  -- The way of the message to `dispatch` and that of the reply back are not part of it.
  pub invoke-Completes :
      (turns xid x prog vers proc : ℕ) (servers : Servers) (s : Service) (p : Procedure)
      (args res : List Arg) (name : ℕ) (cb : Callback) (r : Rpc)
      → get_xid turns xid r.calls ≡ some x
      → find (swap32le client x) r.calls ≡ none
      → IsMsg (call_hdr x (prepared prog vers proc))
      → IsServed servers (prepared prog vers proc) s
      → find_proc s.procs proc ≡ some p
      → types args ≡ p.arg
      → ArgsFit (schema client application depth L) (arg_limit server application depth L) args
      → p.method (values args) ≡ ok res
      → ArgsFit (schema client application depth L) (lim client application depth L) res
      → length (call_bytes client server application depth L x (prepared prog vers proc) args)
        < 2 ^ 31
      → length (success_bytes server application depth L x res) < 2 ^ 31
      → cb (result (values res)) ≡ ok tt
      → Completes client server application depth L turns xid x prog vers proc servers args res name
          cb r
  invoke-Completes turns xid x prog vers proc servers s p args res name cb r g free is served found
        t f m fr small small' c =
      record {
        sent = after;
        invokes =
            invoke_lem turns xid x prog vers proc args name r after g
              (send_invoke_lem x prog vers proc args name r is put_fits small ∙ sends);
        message = refl;
        reply = reply;
        answered =
            dispatch_result server application depth L servers x (prepared prog vers proc) s p args
              res is refl served found t f m fr small';
        received =
            ap (λ q. q >>= recv_msg client (some reply)) (sym sends)
            ∙ send_call-recv_msg client reply (swap32le client x)
                (reply_long client application depth L x res)
                (reply_xid client application depth L x res is.0)
                (reply_kind client application depth L x res) msg name r first free;
        called = on_reply_once client application depth L x res cb is.0 fr c;
      }
    where
      put_fits : ArgsFit (schema client application depth L) (lim client application depth L) args
      put_fits =
          (ArgsFit-two (schema client application depth L) (arg_limit server application depth L)
            args f).0

      msg : List ℕ
      msg = call_bytes client server application depth L x (prepared prog vers proc) args

      reply : List ℕ
      reply = success_bytes client application depth L x res

      after : Rpc
      after = with_call (swap32le client x) name msg r

      first : word client 0 msg ≡ ok (swap32le client x)
      first = call_word client application depth L x (prepared prog vers proc) _ is.0

      sends : send_call client msg name r ≡ ok after
      sends = send_call_new (swap32le client x) name msg r first free
