-- ===== src/Types/Size.antt =====
-- `serial_size` of xdrpp/types.h, with the constants `fixed_size` that shorten it.
pub mod Fixed
pub mod Exact
use xdrpp.Common.{
  ℕ, zero, suc, ◌+◌, ◌*◌, ◌/◌, Bool, true, false, Option, none, some, List, [], ◌∷◌, length,
}
use xdrpp.Common.Result.{Res, ok, throw, ill_typed, bad_discriminant, ◌>>=◌}
use xdrpp.Types.{
  Ty, xarray, xvector, pointer, named, Kind, word, dword, nested, fixed_bytes, variable_bytes, kind,
  Val, num, bytes, seq, choice, Vals, nil, cons, size, UnionField, Class, struct, union, Schema,
  with_mem_ptr,
}

-- `(n + 3) & ~3` and `(n + 7) & ~3`: the low two bits are cleared.
abbrev pub round_up : ℕ → ℕ
round_up n = (n + 3) / 4 * 4

abbrev pub counted_round_up : ℕ → ℕ
counted_round_up n = (n + 7) / 4 * 4

-- The sum of the `fixed_size`s, if all fields `has_fixed_size`.
unfoldable pub fixed_fields : (Ty → Option ℕ) → List Ty → Option ℕ
fixed_fields fixed [] = some 0
fixed_fields fixed (t ∷ ts) = elim (fixed t) [
  | none ↦ none
  | some a ↦ elim (fixed_fields fixed ts) [ none ↦ none | some b ↦ some (a + b) ]
]

unfoldable pub times : ℕ → Option ℕ → Option ℕ
times n none = none
times n (some k) = some (n * k)

module _ (s : Schema) where
  pub fixed_class : (Ty → Option ℕ) → Class → Option ℕ
  fixed_class fixed (struct ts) = fixed_fields fixed ts
  fixed_class fixed (union tag fs) = none

  pub fixed_nested : (Ty → Option ℕ) → Ty → Option ℕ
  fixed_nested fixed (xarray t n) = times n (fixed t)
  fixed_nested fixed (named k) = fixed_class fixed (s.classes k)
  fixed_nested fixed _ = none

  unfoldable pub fixed_kind : (Ty → Option ℕ) → Kind → Ty → Option ℕ
  fixed_kind fixed word t = some 4
  fixed_kind fixed dword t = some 8
  fixed_kind fixed (fixed_bytes n) t = some (round_up n)
  fixed_kind fixed (variable_bytes n) t = none
  fixed_kind fixed nested t = fixed_nested fixed t

  -- `has_fixed_size` and `fixed_size` of a type: `none` if the size varies. The compiler unfolds
  -- `depth` levels of arrays and structs; below that a size is taken to vary.
  unfoldable pub fixed_size : ℕ → Ty → Option ℕ
  unfolding fixed_kind fixed_nested fixed_class
  fixed_size zero t = fixed_kind (λ t. none) (kind t) t
  fixed_size (suc depth) t = fixed_kind (fixed_size depth) (kind t) t

unfoldable pub number_size : Kind → Res ℕ
number_size word = ok 4
number_size dword = ok 8
number_size _ = ill_typed

unfoldable pub bytes_size : Kind → List ℕ → Res ℕ
bytes_size (fixed_bytes n) bs = ok (round_up n)
bytes_size (variable_bytes n) bs = ok (counted_round_up (length bs))
bytes_size _ bs = ill_typed

-- A constant where there is one, the sum that is passed in elsewhere.
abbrev pub shortcut : Option ℕ → Res ℕ → Res ℕ
shortcut (some n) sum = ok n
shortcut none sum = sum

abbrev pub vector_size : Option ℕ → ℕ → Res ℕ → Res ℕ
vector_size (some k) n sum = ok (4 + n * k)
vector_size none n sum = do k ← sum; ok (4 + k)

-- The size of the objects in memory bounds that of their encoding, which no `size_t` overflows.
module _ (s : Schema) (depth : ℕ) where
  unfoldable mutual
    pub serial_size : Val → Ty → Res ℕ
    serial_size (num u) t = number_size (kind t)
    serial_size (bytes bs) t = bytes_size (kind t) bs
    serial_size (seq vs) (xarray t n) =
        let sum = elems_size vs t in shortcut (times n (fixed_size s depth t)) sum
    serial_size (seq vs) (xvector t n) =
        let sum = elems_size vs t in vector_size (fixed_size s depth t) (size vs) sum
    serial_size (seq vs) (pointer t) = do k ← elems_size vs t; ok (4 + k)
    serial_size (seq vs) (named k) = elim (s.classes k) [
      | struct ts ↦ fields_size vs ts
      | union tag fs ↦ ill_typed
    ]
    serial_size (seq vs) t = ill_typed
    serial_size (choice d vs) (named k) = elim (s.classes k) [
      | struct ts ↦ ill_typed
      | union tag fs ↦ active_size vs (with_mem_ptr fs d) >>= λ n. ok (n + 4)
    ]
    serial_size (choice d vs) t = ill_typed

    pub elems_size : Vals → Ty → Res ℕ
    elems_size nil t = ok 0
    elems_size (cons v vs) t = do a ← serial_size v t; b ← elems_size vs t; ok (a + b)

    pub fields_size : Vals → List Ty → Res ℕ
    fields_size nil [] = ok 0
    fields_size (cons v vs) (t ∷ ts) =
        let sum = (serial_size v t >>= λ a. fields_size vs ts >>= λ b. ok (a + b)) in
        shortcut (fixed_fields (fixed_size s depth) (t ∷ ts)) sum
    fields_size _ _ = ill_typed

    -- `field_size` on the active field; a void arm leaves the size at 0.
    pub active_size : Vals → Option UnionField → Res ℕ
    active_size vs none = throw bad_discriminant
    active_size nil (some f) = elim f.decl [ none ↦ ok 0 | some t ↦ ill_typed ]
    active_size (cons v vs) (some f) = elim f.decl [ none ↦ ill_typed | some t ↦ serial_size v t ]
