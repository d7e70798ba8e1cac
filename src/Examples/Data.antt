-- ===== src/Examples/Data.antt =====
-- A schema of two classes: class 0 is `struct list { int value; list *next; }`, and class 1 is
-- `union name switch (bool named) { case TRUE: string text<8>; case FALSE: void; }`.
use xdrpp.Common.{ℕ, zero, suc, ◌≡◌, refl, arith, true, false, none, some, List, [], ◌∷◌, length}
use xdrpp.Types.{
  int32, uint64, boolean, xstring, pointer, named, kind, Val, num, bytes, seq, choice, nil, cons,
  UnionField, Class, struct, union, Schema, with_mem_ptr, labelled_field,
}
use xdrpp.Marshal.Words.{be32, be64}
use xdrpp.Marshal.Bytes.{padded}
use xdrpp.Marshal.Put.Encode.{Fits, encode}
use xdrpp.Marshal.Get.Formed.{IsSchema}
use xdrpp.Message.{Arg}
use xdrpp.Message.Args.{ArgsFit, encode_args}

abbrev pub name_fields : List UnionField
name_fields =
    record { cases = 1 ∷ []; has_default = false; fieldno = 1; decl = some (xstring 8) }
    ∷ record { cases = 0 ∷ []; has_default = false; fieldno = 0; decl = none }
    ∷ []

abbrev pub classes : ℕ → Class
classes zero = struct (int32 ∷ pointer (named 0) ∷ [])
classes (suc k) = union boolean name_fields

abbrev pub schema : Schema
schema = record { classes = classes; validate = λ k v. true }

abbrev pub end_of_list : Val
end_of_list = seq (cons (num 8) (cons (seq nil) nil))

abbrev pub list : Val
list = seq (cons (num 7) (cons (seq (cons end_of_list nil)) nil))

abbrev pub name : Val
name = choice 1 (cons (bytes (104 ∷ 105 ∷ [])) nil)

abbrev pub args : List Arg
args = (named 0, list) ∷ (named 1, name) ∷ (uint64, num 1099511627776) ∷ []

pub list-Fits : Fits schema 4 (named 0) list
unfolding Fits kind
list-Fits = (
  refl,
  (
    (omega arith, tt),
    ((omega arith, ((refl, ((omega arith, tt), ((omega arith, tt), tt))), tt)), tt),
  ),
)

pub name-Fits : Fits schema 4 (named 1) name
unfolding Fits kind with_mem_ptr labelled_field
name-Fits = (refl, (refl, omega arith, omega arith, (omega arith, omega arith)))

pub args-ArgsFit : ArgsFit schema 4 args
unfolding Fits kind
args-ArgsFit = (list-Fits, (name-Fits, (omega arith, tt)))

pub schema-IsSchema : IsSchema schema
unfolding kind
schema-IsSchema zero = (tt, (tt, tt))
schema-IsSchema (suc k) = (refl, (omega arith, (tt, tt)))

pub length-args : length (encode_args schema 4 args) ≡ 36
unfolding encode kind with_mem_ptr labelled_field padded be32 be64
length-args = refl
