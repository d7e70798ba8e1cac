-- ===== src/Marshal/Put/Encode.antt =====
-- RFC4506 as a specification: which values belong to a type, and the bytes that stand for them.
-- Nothing here mentions buffers, byte orders of machines, or the order of the program's checks.
use xdrpp.Common.{
  ℕ, zero, suc, ◌%◌, ◌^◌, ◌≤◌, ◌<◌, ◌≡◌, refl, arith, true, Option, none, some, List, [], ◌∷◌, ◌++◌,
  length, length-append,
}
use xdrpp.Types.{
  Ty, boolean, enumeration, xarray, xvector, pointer, named, Kind, word, dword, nested, fixed_bytes,
  variable_bytes, kind, Val, num, bytes, seq, choice, Vals, nil, cons, size, UnionField, Class,
  struct, union, Schema, with_mem_ptr, contains,
}
use xdrpp.Marshal.Words.{be32, be64}
use xdrpp.Marshal.Bytes.{padded, length-padded}

-- The numbers of a type of 32 bits.
abbrev pub InRange : Ty → ℕ → Type 0
InRange boolean u = u < 2
InRange (enumeration tags true) u = contains tags u ≡ true
InRange _ u = Unit

abbrev pub AllFit : (Val → Type 0) → Vals → Type 0
AllFit P nil = Unit
AllFit P (cons v vs) = P v × AllFit P vs

abbrev pub FieldsFit : (Ty → Val → Type 0) → List Ty → Vals → Type 0
FieldsFit P [] nil = Unit
FieldsFit P (t ∷ ts) (cons v vs) = P t v × FieldsFit P ts vs
FieldsFit P _ _ = ⊥

abbrev pub FieldFits : (Ty → Val → Type 0) → Option Ty → Vals → Type 0
FieldFits P none nil = Unit
FieldFits P (some t) (cons v nil) = P t v
FieldFits P _ _ = ⊥

abbrev pub ActiveFits : (Ty → Val → Type 0) → Option UnionField → Vals → Type 0
ActiveFits P none vs = ⊥
ActiveFits P (some f) vs = FieldFits P f.decl vs

abbrev pub ClassFits : (Ty → Val → Type 0) → Class → Val → Type 0
ClassFits P (struct ts) (seq vs) = FieldsFit P ts vs
ClassFits P (union tag fs) (choice d vs) =
    (kind tag ≡ word) × (d < 2 ^ 32) × InRange tag d × ActiveFits P (with_mem_ptr fs d) vs
ClassFits P _ v = ⊥

abbrev pub KindFits : (Ty → Val → Type 0) → Kind → Ty → Val → Type 0
KindFits P word t (num u) = (u < 2 ^ 32) × InRange t u
KindFits P dword t (num u) = u < 2 ^ 64
KindFits P (fixed_bytes n) t (bytes bs) = (length bs ≡ n) × (n < 2 ^ 32)
KindFits P (variable_bytes n) t (bytes bs) = (length bs ≤ n) × (n < 2 ^ 32)
KindFits P nested t v = P t v
KindFits P _ t v = ⊥

module _ (s : Schema) where
  abbrev pub NestedFits : (Ty → Val → Type 0) → Ty → Val → Type 0
  NestedFits P (xarray t n) (seq vs) = (size vs ≡ n) × (n < 2 ^ 32) × AllFit (P t) vs
  NestedFits P (xvector t n) (seq vs) = (size vs ≤ n) × (n < 2 ^ 32) × AllFit (P t) vs
  NestedFits P (pointer t) (seq vs) = (size vs ≤ 1) × AllFit (P t) vs
  NestedFits P (named k) v = (s.validate k v ≡ true) × ClassFits P (s.classes k) v
  NestedFits P _ v = ⊥

  -- `v` is a value of the type, within its bounds, with at most `limit` classes and containers
  -- inside one another.
  unfoldable pub Fits : ℕ → Ty → Val → Type 0
  Fits zero t v = KindFits (λ t v. ⊥) (kind t) t v
  Fits (suc limit) t v = KindFits (NestedFits (Fits limit)) (kind t) t v

abbrev pub encode_elems : (Val → List ℕ) → Vals → List ℕ
encode_elems enc nil = []
encode_elems enc (cons v vs) = enc v ++ encode_elems enc vs

abbrev pub encode_fields : (Ty → Val → List ℕ) → List Ty → Vals → List ℕ
encode_fields enc (t ∷ ts) (cons v vs) = enc t v ++ encode_fields enc ts vs
encode_fields enc _ _ = []

abbrev pub encode_field : (Ty → Val → List ℕ) → Option Ty → Vals → List ℕ
encode_field enc (some t) (cons v nil) = enc t v
encode_field enc _ _ = []

abbrev pub encode_active : (Ty → Val → List ℕ) → Option UnionField → Vals → List ℕ
encode_active enc none vs = []
encode_active enc (some f) vs = encode_field enc f.decl vs

abbrev pub encode_class : (Ty → Val → List ℕ) → Class → Val → List ℕ
encode_class enc (struct ts) (seq vs) = encode_fields enc ts vs
encode_class enc (union tag fs) (choice d vs) = be32 d ++ encode_active enc (with_mem_ptr fs d) vs
encode_class enc _ v = []

abbrev pub encode_kind : (Ty → Val → List ℕ) → Kind → Ty → Val → List ℕ
encode_kind enc word t (num u) = be32 u
encode_kind enc dword t (num u) = be64 u
encode_kind enc (fixed_bytes n) t (bytes bs) = padded bs
encode_kind enc (variable_bytes n) t (bytes bs) = be32 (length bs) ++ padded bs
encode_kind enc nested t v = enc t v
encode_kind enc _ t v = []

module _ (s : Schema) where
  abbrev pub encode_nested : (Ty → Val → List ℕ) → Ty → Val → List ℕ
  encode_nested enc (xarray t n) (seq vs) = encode_elems (enc t) vs
  encode_nested enc (xvector t n) (seq vs) = be32 (size vs) ++ encode_elems (enc t) vs
  encode_nested enc (pointer t) (seq vs) = be32 (size vs) ++ encode_elems (enc t) vs
  encode_nested enc (named k) v = encode_class enc (s.classes k) v
  encode_nested enc _ v = []

  -- The bytes that stand for a value, for values with at most `limit` levels of nesting.
  unfoldable pub encode : ℕ → Ty → Val → List ℕ
  encode zero t v = encode_kind (λ t v. []) (kind t) t v
  encode (suc limit) t v = encode_kind (encode_nested (encode limit)) (kind t) t v

-- Every encoding is a whole number of words.
abbrev pub IsWhole : List ℕ → Type 0
IsWhole bs = length bs % 4 ≡ 0

be32-IsWhole : (u : ℕ) → IsWhole (be32 u)
unfolding be32
be32-IsWhole u = refl

pub append-IsWhole : (xs ys : List ℕ) → IsWhole xs → IsWhole ys → IsWhole (xs ++ ys)
append-IsWhole xs ys hx hy = omega (arith, length-append xs ys)

padded-IsWhole : (bs : List ℕ) → IsWhole (padded bs)
padded-IsWhole bs = omega (arith, length-padded bs)

module _ (enc : Ty → Val → List ℕ) (whole : (t : Ty) (v : Val) → IsWhole (enc t v)) where
  elems-IsWhole : (t : Ty) (vs : Vals) → IsWhole (encode_elems (enc t) vs)
  elems-IsWhole t nil = refl
  elems-IsWhole t (cons v vs) = append-IsWhole (enc t v) _ (whole t v) (elems-IsWhole t vs)

  fields-IsWhole : (ts : List Ty) (vs : Vals) → IsWhole (encode_fields enc ts vs)
  fields-IsWhole [] vs = refl
  fields-IsWhole (t ∷ ts) nil = refl
  fields-IsWhole (t ∷ ts) (cons v vs) =
      append-IsWhole (enc t v) _ (whole t v) (fields-IsWhole ts vs)

  field-IsWhole : (decl : Option Ty) (vs : Vals) → IsWhole (encode_field enc decl vs)
  field-IsWhole none vs = refl
  field-IsWhole (some t) nil = refl
  field-IsWhole (some t) (cons v nil) = whole t v
  field-IsWhole (some t) (cons v (cons w vs)) = refl

  active-IsWhole : (o : Option UnionField) (vs : Vals) → IsWhole (encode_active enc o vs)
  active-IsWhole none vs = refl
  active-IsWhole (some f) vs = field-IsWhole f.decl vs

  class-IsWhole : (c : Class) (v : Val) → IsWhole (encode_class enc c v)
  class-IsWhole (struct ts) (seq vs) = fields-IsWhole ts vs
  class-IsWhole (union tag fs) (choice d vs) =
      append-IsWhole (be32 d) _ (be32-IsWhole d) (active-IsWhole (with_mem_ptr fs d) vs)
  class-IsWhole _ _ = refl

  kind-IsWhole : (k : Kind) (t : Ty) (v : Val) → IsWhole (encode_kind enc k t v)
  unfolding be64
  kind-IsWhole word t (num u) = be32-IsWhole u
  kind-IsWhole dword t (num u) = refl
  kind-IsWhole (fixed_bytes n) t (bytes bs) = padded-IsWhole bs
  kind-IsWhole (variable_bytes n) t (bytes bs) =
      append-IsWhole (be32 (length bs)) _ (be32-IsWhole (length bs)) (padded-IsWhole bs)
  kind-IsWhole nested t v = whole t v
  kind-IsWhole _ _ _ = refl

module _ (s : Schema) (enc : Ty → Val → List ℕ)
    (whole : (t : Ty) (v : Val) → IsWhole (enc t v)) where
  nested-IsWhole : (t : Ty) (v : Val) → IsWhole (encode_nested s enc t v)
  nested-IsWhole (xarray t n) (seq vs) = elems-IsWhole enc whole t vs
  nested-IsWhole (xvector t n) (seq vs) =
      append-IsWhole (be32 (size vs)) _ (be32-IsWhole (size vs)) (elems-IsWhole enc whole t vs)
  nested-IsWhole (pointer t) (seq vs) =
      append-IsWhole (be32 (size vs)) _ (be32-IsWhole (size vs)) (elems-IsWhole enc whole t vs)
  nested-IsWhole (named k) v = class-IsWhole enc whole (s.classes k) v
  nested-IsWhole _ _ = refl

pub encode-IsWhole : (s : Schema) (limit : ℕ) (t : Ty) (v : Val) → IsWhole (encode s limit t v)
unfolding encode
encode-IsWhole s zero t v = kind-IsWhole (λ t v. []) (λ t v. refl) (kind t) t v
encode-IsWhole s (suc limit) t v =
    kind-IsWhole (encode_nested s (encode s limit))
      (nested-IsWhole s (encode s limit) (encode-IsWhole s limit)) (kind t) t v
