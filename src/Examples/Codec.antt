-- ===== src/Examples/Codec.antt =====
-- Runs of the codec on the types and values of `Data`.
use xdrpp.Common.{ℕ, ◌+◌, ◌≡◌, refl, arith, true, false, List, [], ◌∷◌, ◌++◌, length}
use xdrpp.Common.Result.{ok, ◌>>=◌, Ensures}
use xdrpp.Types.{int32, named, num, kind, labelled_field}
use xdrpp.Types.Union.{IsSwitch}
use xdrpp.Types.Size.{serial_size}
use xdrpp.Types.Size.Exact.{serial_size-eq-length}
use xdrpp.Marshal.{Out, rfc_base}
use xdrpp.Marshal.Put.{put}
use xdrpp.Marshal.Put.Encode.{Fits, encode}
use xdrpp.Marshal.Put.Refine.{emit, put-encode}
use xdrpp.Marshal.Get.{get}
use xdrpp.Marshal.Get.RoundTrip.{get-encode}
use xdrpp.Marshal.Get.Sound.{get_sound}
use xdrpp.Message.{xdr_to_msg, xdr_from_msg, xdr_from_opaque}
use xdrpp.Message.Args.{types, values, AllFitTypes, length_of}
use xdrpp.Message.RoundTrip.{xdr_from_opaque_sound, xdr_from_msg-xdr_to_msg}
use xdrpp.Examples.Data.{
  schema, list, name, name_fields, args, list-Fits, name-Fits, args-ArgsFit, schema-IsSchema,
  length-args,
}

xdr_from_msg-xdr_to_msg_example :
    (xdr_to_msg false schema 3 4 args >>= xdr_from_msg true schema 3 4 (types args))
    ≡ ok (values args)
xdr_from_msg-xdr_to_msg_example =
    xdr_from_msg-xdr_to_msg false true schema 3 4 args args-ArgsFit (omega (arith, length-args))

-- A list that says that a next element follows, and ends.
abbrev cut_list : List ℕ
cut_list = 0 ∷ 0 ∷ 0 ∷ 7 ∷ 0 ∷ 0 ∷ 0 ∷ 1 ∷ []

xdr_from_opaque_sound_example :
    Ensures
      (λ vs.
        AllFitTypes schema 4 (named 0 ∷ []) vs
        × (length cut_list ≡ length_of schema 4 (named 0 ∷ []) vs))
      (xdr_from_opaque false schema 3 4 (named 0 ∷ []) cut_list)
xdr_from_opaque_sound_example =
    xdr_from_opaque_sound false schema 4 schema-IsSchema 3 (named 0 ∷ []) cut_list (tt, tt)

get_sound_example :
    Ensures
      (λ r.
        Fits schema 4 (named 0) r.0
        × (length cut_list ≡ length (encode schema 4 (named 0) r.0) + length r.1))
      (get (rfc_base false) schema 4 (named 0) cut_list)
get_sound_example = get_sound false schema schema-IsSchema 4 (named 0) cut_list tt refl

get-encode_example :
    get (rfc_base false) schema 4 (named 1) (encode schema 4 (named 1) name ++ (9 ∷ []))
    ≡ ok (name, 9 ∷ [])
get-encode_example = get-encode false schema 4 (named 1) name (9 ∷ []) name-Fits

abbrev small_buffer : Out
small_buffer = record { written = []; room = 8 }

put-encode_example :
    put (rfc_base false) schema 4 (named 1) name small_buffer
    ≡ emit (encode schema 4 (named 1) name) small_buffer
put-encode_example = put-encode false schema 4 (named 1) name small_buffer name-Fits refl

serial_size-eq-length_example :
    serial_size schema 3 list (named 0) ≡ ok (length (encode schema 4 (named 0) list))
serial_size-eq-length_example = serial_size-eq-length schema 3 4 (named 0) list list-Fits

seven-Fits : Fits schema 4 int32 (num 7)
unfolding Fits kind
seven-Fits = (omega arith, tt)

name_fields-IsSwitch : IsSwitch name_fields
unfolding IsSwitch labelled_field
name_fields-IsSwitch = (λ which h. ground arith, λ h. absurd (cc), (λ which h. refl, λ h. refl, tt))
