-- ===== src/Marshal/Get.antt =====
-- `xdr_generic_get` of xdrpp/marshal.h, with the `load` functions that it calls.
pub mod Pieces
pub mod Formed
pub mod Steps
pub mod Sound
pub mod RoundTrip
use xdrpp.Common.{
  ℕ, zero, suc, ◌+◌, ◌%◌, Bool, Option, none, some, List, [], ◌∷◌, length, ltb, ◌==◌, if◌then◌else◌,
}
use xdrpp.Common.Result.{
  Res, ok, throw, overflow, stack_overflow, bad_discriminant, bad_message_size, invariant_failed,
  ◌>>=◌, ill_typed,
}
use xdrpp.Types.{
  Ty, uint32, xarray, xvector, pointer, named, Kind, word, dword, nested, fixed_bytes,
  variable_bytes, kind, Val, num, bytes, seq, choice, Vals, nil, cons, UnionField, Class, struct,
  union, Schema, with_mem_ptr, field_number, from_uint, check_size, check_position,
}
use xdrpp.Marshal.{Base, get_bytes}

-- `xdr_generic_get::check`
unfoldable pub check : ℕ → List ℕ → Res (List ℕ)
check n inp = if ltb (length inp) n then throw overflow else ok inp

-- `for (i = 0; i < n; ++i) archive(a, t.extend_at(i))`, with the rounds left and `i`.
unfoldable pub get_elems : ℕ → (List ℕ → Res (Val × List ℕ)) → ℕ → ℕ → List ℕ → Res (Vals × List ℕ)
get_elems bound ar zero i inp = ok (nil, inp)
get_elems bound ar (suc n) i inp = do
  _ ← check_position bound i
  (v, inp1) ← ar inp
  (vs, inp2) ← get_elems bound ar n (i + 1) inp1
  ok (cons v vs, inp2)

unfoldable pub get_fields :
    (Ty → List ℕ → Res (Val × List ℕ)) → List Ty → List ℕ → Res (Vals × List ℕ)
get_fields ar [] inp = ok (nil, inp)
get_fields ar (t ∷ ts) inp = do
  (v, inp1) ← ar t inp
  (vs, inp2) ← get_fields ar ts inp1
  ok (cons v vs, inp2)

unfoldable pub get_field :
    (Ty → List ℕ → Res (Val × List ℕ)) → Option Ty → List ℕ → Res (Vals × List ℕ)
get_field ar none inp = ok (nil, inp)
get_field ar (some t) inp = do (v, inp') ← ar t inp; ok (cons v nil, inp')

-- The answer of `_xdr_with_mem_ptr` is not looked at: without an arm nothing is read.
unfoldable pub get_active :
    (Ty → List ℕ → Res (Val × List ℕ)) → Option UnionField → List ℕ → Res (Vals × List ℕ)
unfolding get_field
get_active ar none inp = ok (nil, inp)
get_active ar (some f) inp = get_field ar f.decl inp

-- The guard of the setter `_xdr_discriminant(which, true)`.
unfoldable pub check_discriminant : Option ℕ → Res (Unit {0})
check_discriminant none = throw bad_discriminant
check_discriminant (some k) = ok tt

-- A discriminant is a number, by its type.
unfoldable pub number : Val → Res ℕ
number (num u) = ok u
number _ = ill_typed

module _ (b : Base) (s : Schema) where
  unfoldable pub get_op :
      (Ty → List ℕ → Res (Val × List ℕ)) → Kind → Ty → List ℕ → Res (Val × List ℕ)
  get_op load word t inp = do
    inp1 ← check 4 inp
    (u, inp2) ← b.get32 inp1
    v ← from_uint t u
    ok (num v, inp2)
  get_op load dword t inp = do inp1 ← check 8 inp; (u, inp2) ← b.get64 inp1; ok (num u, inp2)
  get_op load (fixed_bytes n) t inp = do
    inp1 ← check n inp
    (bs, inp2) ← get_bytes n inp1
    ok (bytes bs, inp2)
  get_op load (variable_bytes n) t inp = do
    inp1 ← check 4 inp
    (size, inp2) ← b.get32 inp1
    inp3 ← check size inp2
    _ ← check_size n size
    (bs, inp4) ← get_bytes size inp3
    ok (bytes bs, inp4)
  get_op load nested t inp = load t inp

  -- `validate(obj)` at the end of a generated `load`.
  unfoldable pub check_valid : ℕ → Val → List ℕ → Res (Val × List ℕ)
  check_valid k v inp = if s.validate k v then ok (v, inp) else throw invariant_failed

  unfoldable pub load_class :
      (Ty → List ℕ → Res (Val × List ℕ)) → ℕ → Class → List ℕ → Res (Val × List ℕ)
  unfolding check_valid
  load_class ar k (struct ts) inp = do
    (vs, inp1) ← get_fields ar ts inp
    check_valid k (seq vs) inp1
  load_class ar k (union tag fs) inp = do
    (w, inp1) ← ar tag inp
    which ← number w
    _ ← check_discriminant (field_number fs which)
    (vs, inp2) ← get_active ar (with_mem_ptr fs which) inp1
    check_valid k (choice which vs) inp2

  unfoldable pub get_counted :
      (Ty → List ℕ → Res (Val × List ℕ)) → Ty → ℕ → List ℕ → Res (Val × List ℕ)
  get_counted ar t bound inp = do
    (w, inp1) ← ar uint32 inp
    n ← number w
    _ ← check_size bound n
    (vs, inp2) ← get_elems bound (ar t) n 0 inp1
    ok (seq vs, inp2)

  -- `xdr_traits<T>::load`
  unfoldable pub load : (Ty → List ℕ → Res (Val × List ℕ)) → Ty → List ℕ → Res (Val × List ℕ)
  unfolding get_counted load_class
  load ar (xarray t n) inp = do (vs, inp1) ← get_elems n (ar t) n 0 inp; ok (seq vs, inp1)
  load ar (xvector t n) inp = get_counted ar t n inp
  load ar (pointer t) inp = get_counted ar t 1 inp
  load ar (named k) inp = load_class ar k (s.classes k) inp
  load ar _ inp = ill_typed

  unfoldable pub get : ℕ → Ty → List ℕ → Res (Val × List ℕ)
  unfolding get_op
  get zero t inp = get_op (λ t inp. throw stack_overflow) (kind t) t inp
  get (suc limit) t inp = get_op (load (get limit)) (kind t) t inp

-- `xdr_generic_get::done`
unfoldable pub get_done : List ℕ → Res (Unit {0})
get_done [] = ok tt
get_done (c ∷ rest) = throw bad_message_size
