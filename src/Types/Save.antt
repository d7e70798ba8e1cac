-- ===== src/Types/Save.antt =====
-- The `save` functions, which are templates over the archive: those of the containers
-- (xdrpp/types.h) and of the classes that xdrc/gen_hh.cc generates. An archive is its operator, a
-- function of the type, the value and the archive's state.
use xdrpp.Common.{Option, none, some, List, [], ◌∷◌}
use xdrpp.Common.Result.{Res, ok, throw, ill_typed, bad_discriminant, ◌>>=◌}
use xdrpp.Types.{
  Ty, uint32, xarray, xvector, pointer, named, Val, num, seq, choice, Vals, nil, cons, size,
  UnionField, Class, struct, union, Schema, with_mem_ptr, size32,
}

module _ {A : Type 0} where
  -- `archive(a, v)` of each element in turn.
  unfoldable pub put_elems : (Val → A → Res A) → Vals → A → Res A
  put_elems ar nil o = ok o
  put_elems ar (cons v vs) o = do o' ← ar v o; put_elems ar vs o'

  unfoldable pub put_fields : (Ty → Val → A → Res A) → List Ty → Vals → A → Res A
  put_fields ar [] nil o = ok o
  put_fields ar (t ∷ ts) (cons v vs) o = do o' ← ar t v o; put_fields ar ts vs o'
  put_fields ar _ _ o = ill_typed

  -- `field_archiver` on the active field, if the arm has one.
  unfoldable pub put_field : (Ty → Val → A → Res A) → Option Ty → Vals → A → Res A
  put_field ar none nil o = ok o
  put_field ar (some t) (cons v nil) o = ar t v o
  put_field ar _ _ o = ill_typed

  unfoldable pub put_active : (Ty → Val → A → Res A) → Option UnionField → Vals → A → Res A
  unfolding put_field
  put_active ar none vs o = throw bad_discriminant
  put_active ar (some f) vs o = put_field ar f.decl vs o

  module _ (s : Schema) where
    unfoldable pub save_class : (Ty → Val → A → Res A) → Class → Val → A → Res A
    save_class ar (struct ts) (seq vs) o = put_fields ar ts vs o
    save_class ar (union tag fs) (choice d vs) o = do
      o' ← ar tag (num d) o
      put_active ar (with_mem_ptr fs d) vs o'
    save_class ar _ v o = ill_typed

    -- `xdr_traits<T>::save`, with the archive that it is called on.
    unfoldable pub save : (Ty → Val → A → Res A) → Ty → Val → A → Res A
    unfolding save_class
    save ar (xarray t n) (seq vs) o = put_elems (ar t) vs o
    save ar (xvector t n) (seq vs) o = do
      k ← size32 (size vs)
      o' ← ar uint32 (num k) o
      put_elems (ar t) vs o'
    save ar (pointer t) (seq vs) o = do
      k ← size32 (size vs)
      o' ← ar uint32 (num k) o
      put_elems (ar t) vs o'
    save ar (named k) v o = save_class ar (s.classes k) v o
    save ar _ v o = ill_typed
