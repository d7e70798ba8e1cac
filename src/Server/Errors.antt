-- ===== src/Server/Errors.antt =====
-- The bytes of the error replies.
use xdrpp.Common.{
  ℕ, zero, suc, ap₂, ◌+◌, ◌^◌, ◌<◌, ◌≡◌, refl, ap, ◌∙◌, arith, Bool, List, [], ◌∷◌, ◌++◌, length,
  lt→ltb, if_false, ◌==◌, ◌||◌, false,
}
use xdrpp.Common.Result.{ok}
use xdrpp.Types.{Ty, Schema, num, kind, word, size32, uint32}
use xdrpp.Marshal.Words.{be32}
use xdrpp.Marshal.Put.Encode.{Fits, InRange, encode}
use xdrpp.Message.{Message, Arg, alloc}
use xdrpp.Message.Args.{ArgsFit, encode_args, encode_args-IsWhole}
use xdrpp.Message.Mark.{mark_lem}
use xdrpp.Message.RoundTrip.{put_args_lem, emit_full}
use xdrpp.RpcMsg.{enum}
use xdrpp.Server.{
  accepted_header, filled, rpc_accepted_error_msg, rpc_prog_mismatch_msg, rpc_auth_error_msg,
  rpc_rpc_mismatch_msg, success, prog_mismatch,
}

abbrev pub words : List ℕ → List ℕ
words [] = []
words (w ∷ ws) = be32 w ++ words ws

-- The framed message of some words.
abbrev pub framed : List ℕ → Message
framed ws = record {
  size = length (words ws);
  header = be32 (length (words ws) + 2 ^ 31);
  content = words ws;
}

-- The arguments are the numbers `ws`, each of a type of 32 bits.
abbrev pub AreWords : List Arg → List ℕ → Type 0
AreWords [] [] = Unit
AreWords ((t, num x) ∷ args) (w ∷ ws) =
    (kind t ≡ word) × InRange t x × (x ≡ w) × (w < 2 ^ 32) × AreWords args ws
AreWords _ _ = ⊥

module _ (be : Bool) (s : Schema) (depth limit : ℕ) where
  word-Fits :
      (limit : ℕ) (t : Ty) (x : ℕ)
      → kind t ≡ word
      → InRange t x
      → x < 2 ^ 32
      → Fits s limit t (num x)
  unfolding Fits
  word-Fits zero t x k r h = rw k (h, r)
  word-Fits (suc limit) t x k r h = rw k (h, r)

  encode-word : (limit : ℕ) (t : Ty) (x : ℕ) → kind t ≡ word → encode s limit t (num x) ≡ be32 x
  unfolding encode
  encode-word zero t x k = rw k refl
  encode-word (suc limit) t x k = rw k refl

  pub AreWords-ArgsFit : (args : List Arg) (ws : List ℕ) → AreWords args ws → ArgsFit s limit args
  AreWords-ArgsFit [] [] a = tt
  AreWords-ArgsFit ((t, num x) ∷ args) (w ∷ ws) (k, r, e, h, rest) =
      (word-Fits limit t x k r (omega arith), AreWords-ArgsFit args ws rest)
  AreWords-ArgsFit _ _ a = absurd a

  pub encode-AreWords :
      (args : List Arg) (ws : List ℕ) → AreWords args ws → encode_args s limit args ≡ words ws
  encode-AreWords [] [] a = refl
  encode-AreWords ((t, num x) ∷ args) (w ∷ ws) (k, r, e, h, rest) =
      ap₂ ◌++◌ (encode-word limit t x k ∙ ap be32 e) (encode-AreWords args ws rest)
  encode-AreWords _ _ a = absurd a

  filled-words :
      (n : ℕ) (args : List Arg) (ws : List ℕ)
      → n < 2 ^ 31
      → AreWords args ws
      → length (words ws) ≡ n
      → filled be s depth limit n args ≡ ok (framed ws)
  unfolding filled alloc size32
  filled-words n args ws h a e = rw (
    ← e,
    ← encode-AreWords args ws a,
    lt→ltb (length (encode_args s limit args)) 0x80000000 (omega (arith, same)),
    lt→ltb (length (encode_args s limit args)) (2 ^ 32) (omega (arith, same)),
    put_args_lem be s limit depth args
        (record { written = []; room = length (encode_args s limit args) })
        (AreWords-ArgsFit args ws a) (encode_args-IsWhole s limit args),
    emit_full be s limit (encode_args s limit args),
    mark_lem be (length (encode_args s limit args)) (omega (arith, same)),
  )
    where
      same : length (encode_args s limit args) ≡ n
      same = ap length (encode-AreWords args ws a) ∙ e

  -- For an xid and a status of 32 bits, the status neither success nor a mismatch of the program's
  -- version, the error reply is the framed message of RFC5531: the xid, a reply, accepted, no
  -- verifier, and the status.
  pub rpc_accepted_error_msg_lem :
      (xid stat : ℕ)
      → xid < 2 ^ 32
      → stat < 2 ^ 32
      → ((stat == success) || (stat == prog_mismatch)) ≡ false
      → rpc_accepted_error_msg be s depth limit xid stat
        ≡ ok (framed (xid ∷ 1 ∷ 0 ∷ 0 ∷ 0 ∷ stat ∷ []))
  unfolding rpc_accepted_error_msg kind be32
  rpc_accepted_error_msg_lem xid stat hx hs allowed =
      if_false _ _ allowed
      ∙ filled-words 24 (accepted_header xid ((enum, num stat) ∷ []))
          (xid ∷ 1 ∷ 0 ∷ 0 ∷ 0 ∷ stat ∷ []) (omega arith)
          (
            refl,
            tt,
            refl,
            hx,
            (
              refl,
              tt,
              refl,
              omega arith,
              (
                refl,
                tt,
                refl,
                omega arith,
                (
                  refl,
                  tt,
                  refl,
                  omega arith,
                  (refl, tt, refl, omega arith, (refl, tt, refl, hs, tt)),
                ),
              ),
            ),
          )
          refl

  -- For an xid and versions of 32 bits, the reply to a call of a version that the program does not
  -- have is the framed message of RFC5531: the xid, a reply, accepted, no verifier, a mismatch, and the
  -- lowest and the highest version.
  pub rpc_prog_mismatch_msg_lem :
      (xid low high : ℕ)
      → xid < 2 ^ 32
      → low < 2 ^ 32
      → high < 2 ^ 32
      → rpc_prog_mismatch_msg be s depth limit xid low high
        ≡ ok (framed (xid ∷ 1 ∷ 0 ∷ 0 ∷ 0 ∷ 2 ∷ low ∷ high ∷ []))
  unfolding rpc_prog_mismatch_msg kind be32
  rpc_prog_mismatch_msg_lem xid low high hx hl hh =
      filled-words 32
        (accepted_header xid
          ((enum, num prog_mismatch) ∷ (uint32, num low) ∷ (uint32, num high) ∷ []))
        (xid ∷ 1 ∷ 0 ∷ 0 ∷ 0 ∷ 2 ∷ low ∷ high ∷ []) (omega arith)
        (
          refl,
          tt,
          refl,
          hx,
          (
            refl,
            tt,
            refl,
            omega arith,
            (
              refl,
              tt,
              refl,
              omega arith,
              (
                refl,
                tt,
                refl,
                omega arith,
                (
                  refl,
                  tt,
                  refl,
                  omega arith,
                  (refl, tt, refl, omega arith, (refl, tt, refl, hl, (refl, tt, refl, hh, tt))),
                ),
              ),
            ),
          ),
        )
        refl

  -- For an xid and a status of 32 bits, the reply to a call that is not authenticated is the framed
  -- message of RFC5531: the xid, a reply, denied, an error of authentication, and the status.
  pub rpc_auth_error_msg_lem :
      (xid stat : ℕ)
      → xid < 2 ^ 32
      → stat < 2 ^ 32
      → rpc_auth_error_msg be s depth limit xid stat ≡ ok (framed (xid ∷ 1 ∷ 1 ∷ 1 ∷ stat ∷ []))
  unfolding rpc_auth_error_msg kind be32
  rpc_auth_error_msg_lem xid stat hx hs =
      filled-words 20 _ (xid ∷ 1 ∷ 1 ∷ 1 ∷ stat ∷ []) (omega arith)
        (
          refl,
          tt,
          refl,
          hx,
          (
            refl,
            tt,
            refl,
            omega arith,
            (refl, tt, refl, omega arith, (refl, tt, refl, omega arith, (refl, tt, refl, hs, tt))),
          ),
        )
        refl

  -- For an xid of 32 bits, the reply to a call of another version of RPC is the framed message of
  -- RFC5531: the xid, a reply, denied, a mismatch, and 2 as the lowest and the highest version.
  pub rpc_rpc_mismatch_msg_lem :
      (xid : ℕ)
      → xid < 2 ^ 32
      → rpc_rpc_mismatch_msg be s depth limit xid ≡ ok (framed (xid ∷ 1 ∷ 1 ∷ 0 ∷ 2 ∷ 2 ∷ []))
  unfolding rpc_rpc_mismatch_msg kind be32
  rpc_rpc_mismatch_msg_lem xid hx =
      filled-words 24 _ (xid ∷ 1 ∷ 1 ∷ 0 ∷ 2 ∷ 2 ∷ []) (omega arith)
        (
          refl,
          tt,
          refl,
          hx,
          (
            refl,
            tt,
            refl,
            omega arith,
            (
              refl,
              tt,
              refl,
              omega arith,
              (
                refl,
                tt,
                refl,
                omega arith,
                (refl, tt, refl, omega arith, (refl, tt, refl, omega arith, tt)),
              ),
            ),
          ),
        )
        refl
