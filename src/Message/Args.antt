-- ===== src/Message/Args.antt =====
-- The arguments of `xdr_to_msg` as a list, and what RFC4506 says of a series of values.
use xdrpp.Common.{ℕ, ◌+◌, refl, List, [], ◌∷◌, ◌++◌, length}
use xdrpp.Types.{Ty, Vals, nil, cons, Schema}
use xdrpp.Marshal.Put.Encode.{Fits, encode, IsWhole, encode-IsWhole, append-IsWhole}
use xdrpp.Message.{Arg}

abbrev pub types : List Arg → List Ty
types [] = []
types ((t, v) ∷ args) = t ∷ types args

abbrev pub values : List Arg → Vals
values [] = nil
values ((t, v) ∷ args) = cons v (values args)

module _ (s : Schema) (limit : ℕ) where
  abbrev pub ArgsFit : List Arg → Type 0
  ArgsFit [] = Unit
  ArgsFit ((t, v) ∷ args) = Fits s limit t v × ArgsFit args

  abbrev pub encode_args : List Arg → List ℕ
  encode_args [] = []
  encode_args ((t, v) ∷ args) = encode s limit t v ++ encode_args args

  -- As many values as types, each fitting its own.
  abbrev pub AllFitTypes : List Ty → Vals → Type 0
  AllFitTypes [] nil = Unit
  AllFitTypes (t ∷ ts) (cons v vs) = Fits s limit t v × AllFitTypes ts vs
  AllFitTypes _ _ = ⊥

  abbrev pub length_of : List Ty → Vals → ℕ
  length_of (t ∷ ts) (cons v vs) = length (encode s limit t v) + length_of ts vs
  length_of _ _ = 0

  pub encode_args-IsWhole : (args : List Arg) → IsWhole (encode_args args)
  encode_args-IsWhole [] = refl
  encode_args-IsWhole ((t, v) ∷ args) =
      append-IsWhole (encode s limit t v) _ (encode-IsWhole s limit t v) (encode_args-IsWhole args)
