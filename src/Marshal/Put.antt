-- ===== src/Marshal/Put.antt =====
-- `xdr_generic_put` of xdrpp/marshal.h, over the `save` functions of Types/Save.antt.
pub mod Encode
pub mod Refine
use xdrpp.Common.{
  ℕ, zero, suc, ◌+◌, Bool, Option, none, some, List, [], ◌∷◌, length, ltb, if◌then◌else◌,
}
use xdrpp.Common.Result.{
  Res, ok, throw, ill_typed, overflow, stack_overflow, bad_discriminant, ◌>>=◌,
}
use xdrpp.Types.{
  Ty, uint32, xarray, xvector, pointer, named, Kind, word, dword, nested, fixed_bytes,
  variable_bytes, kind, Val, num, bytes, seq, choice, Vals, nil, cons, size, UnionField, Class,
  struct, union, Schema, with_mem_ptr, size32,
}
use xdrpp.Types.Save.{save}
use xdrpp.Marshal.{Out, Base, put_bytes}

-- `xdr_generic_put::check`
unfoldable pub check : ℕ → Out → Res Out
check n o = if ltb o.room n then throw overflow else ok o

module _ (b : Base) (s : Schema) where
  put_word : ℕ → Out → Res Out
  put_word u o = do o' ← check 4 o; b.put32 u o'

  -- The four overloads of `operator()`; the last is passed in as `save`.
  unfoldable pub put_op : (Ty → Val → Out → Res Out) → Kind → Ty → Val → Out → Res Out
  unfolding put_word
  put_op save word t (num u) o = put_word u o
  put_op save dword t (num u) o = do o' ← check 8 o; b.put64 u o'
  put_op save (fixed_bytes n) t (bytes bs) o = do o' ← check (length bs) o; put_bytes bs o'
  put_op save (variable_bytes n) t (bytes bs) o = do
    o1 ← check (4 + length bs) o
    n ← size32 (length bs)
    o2 ← b.put32 n o1
    put_bytes bs o2
  put_op save nested t v o = save t v o
  put_op save _ t v o = ill_typed

  -- The first argument is `stack_limit`, which is tested and counted down on the way into a class or
  -- a container, and counted up on the way out.
  unfoldable pub put : ℕ → Ty → Val → Out → Res Out
  unfolding put_op
  put zero t v o = put_op (λ t v o. throw stack_overflow) (kind t) t v o
  put (suc limit) t v o = put_op (save s (put limit)) (kind t) t v o
