-- ===== src/RpcMsg/Archive.antt =====
-- `archive(g, hdr)`: reading the header of a message.
use xdrpp.Common.{ℕ, suc, ◌≡◌, refl, Bool, List, ◌++◌}
use xdrpp.Common.Result.{Res, ok, ◌>>=◌}
use xdrpp.Types.{Schema}
use xdrpp.Marshal.{rfc_base}
use xdrpp.Marshal.Put.Encode.{encode}
use xdrpp.Marshal.Get.{get}
use xdrpp.Marshal.Get.RoundTrip.{get-encode}
use xdrpp.RpcMsg.{RpcMsg, rpc_msg, rpc_schema, msg_val}
use xdrpp.RpcMsg.Codec.{to_msg, to_msg-msg_val, IsMsg, msg-Fits}

module _ (is_big_endian : Bool) (application : Schema) where
  unfoldable pub archive_hdr : ℕ → List ℕ → Res (RpcMsg × List ℕ)
  unfolding to_msg
  archive_hdr limit inp = do
    (v, rest) ← get (rfc_base is_big_endian) (rpc_schema application) limit rpc_msg inp
    hdr ← to_msg v
    ok (hdr, rest)

  -- The bytes of a header.
  abbrev pub encode_hdr : ℕ → RpcMsg → List ℕ
  encode_hdr limit hdr = encode (rpc_schema application) limit rpc_msg (msg_val hdr)

  pub archive_hdr-encode_hdr :
      (L : ℕ) (hdr : RpcMsg) (rest : List ℕ)
      → IsMsg hdr
      → let limit : ℕ = suc (suc (suc (suc (suc (suc L))))) in
        archive_hdr limit (encode_hdr limit hdr ++ rest) ≡ ok (hdr, rest)
  unfolding archive_hdr
  archive_hdr-encode_hdr L hdr rest h =
      rw
        (
          get-encode is_big_endian (rpc_schema application) (suc (suc (suc (suc (suc (suc L))))))
              rpc_msg (msg_val hdr) rest (msg-Fits application L hdr h),
          to_msg-msg_val hdr,
        )
        refl
