-- ===== src/Message/Levels.antt =====
-- The levels of nesting of a value: RFC4506 has no bound on them, so that a value that fits within
-- some number of levels fits within one more, and has the same encoding there.
use xdrpp.Common.{ℕ, zero, suc, ◌≡◌, refl, ap, ◌∙◌, Option, none, some, List, [], ◌∷◌, ◌++◌}
use xdrpp.Types.{
  Ty, xarray, xvector, pointer, named, Kind, word, dword, nested, fixed_bytes, variable_bytes, kind,
  Val, num, bytes, seq, choice, Vals, nil, cons, size, UnionField, Class, struct, union, Schema,
  with_mem_ptr,
}
use xdrpp.Marshal.Words.{be32}
use xdrpp.Marshal.Put.Encode.{
  AllFit, FieldsFit, FieldFits, ActiveFits, ClassFits, KindFits, NestedFits, Fits, encode_elems,
  encode_fields, encode_field, encode_active, encode_class, encode_kind, encode_nested, encode,
}
use xdrpp.Message.{Arg}
use xdrpp.Message.Args.{ArgsFit, encode_args, AllFitTypes}

module _ (P Q : Ty → Val → Type 0) (e f : Ty → Val → List ℕ)
    (keeps : (t : Ty) (v : Val) → P t v → Q t v × (e t v ≡ f t v)) where
  elems_keep :
      (t : Ty) (vs : Vals)
      → AllFit (P t) vs
      → AllFit (Q t) vs × (encode_elems (e t) vs ≡ encode_elems (f t) vs)
  elems_keep t nil h = (tt, refl)
  elems_keep t (cons v vs) h =
      let (a, p) = keeps t v h.0 in let (b, q) = elems_keep t vs h.1 in ((a, b), rw (p, q) refl)

  fields_keep :
      (ts : List Ty) (vs : Vals)
      → FieldsFit P ts vs
      → FieldsFit Q ts vs × (encode_fields e ts vs ≡ encode_fields f ts vs)
  fields_keep [] nil h = (tt, refl)
  fields_keep [] (cons v vs) h = absurd h
  fields_keep (t ∷ ts) nil h = absurd h
  fields_keep (t ∷ ts) (cons v vs) h =
      let (a, p) = keeps t v h.0 in let (b, q) = fields_keep ts vs h.1 in ((a, b), rw (p, q) refl)

  field_keeps :
      (decl : Option Ty) (vs : Vals)
      → FieldFits P decl vs
      → FieldFits Q decl vs × (encode_field e decl vs ≡ encode_field f decl vs)
  field_keeps none nil h = (tt, refl)
  field_keeps none (cons v vs) h = absurd h
  field_keeps (some t) nil h = absurd h
  field_keeps (some t) (cons v nil) h = keeps t v h
  field_keeps (some t) (cons v (cons w vs)) h = absurd h

  active_keeps :
      (o : Option UnionField) (vs : Vals)
      → ActiveFits P o vs
      → ActiveFits Q o vs × (encode_active e o vs ≡ encode_active f o vs)
  active_keeps none vs h = absurd h
  active_keeps (some u) vs h = field_keeps u.decl vs h

  class_keeps :
      (c : Class) (v : Val)
      → ClassFits P c v
      → ClassFits Q c v × (encode_class e c v ≡ encode_class f c v)
  class_keeps (struct ts) (seq vs) h = fields_keep ts vs h
  class_keeps (union tag fs) (choice d vs) (k, small, range, h) =
      let (a, p) = active_keeps (with_mem_ptr fs d) vs h in
      ((k, small, range, a), ap (λ bs. be32 d ++ bs) p)
  class_keeps (struct ts) _ h = absurd h
  class_keeps (union tag fs) _ h = absurd h

  kind_keeps :
      (k : Kind) (t : Ty) (v : Val)
      → KindFits P k t v
      → KindFits Q k t v × (encode_kind e k t v ≡ encode_kind f k t v)
  kind_keeps word t (num u) h = (h, refl)
  kind_keeps dword t (num u) h = (h, refl)
  kind_keeps (fixed_bytes n) t (bytes bs) h = (h, refl)
  kind_keeps (variable_bytes n) t (bytes bs) h = (h, refl)
  kind_keeps nested t v h = keeps t v h
  kind_keeps word t _ h = absurd h
  kind_keeps dword t _ h = absurd h
  kind_keeps (fixed_bytes n) t _ h = absurd h
  kind_keeps (variable_bytes n) t _ h = absurd h

  nested_keeps :
      (s : Schema) (t : Ty) (v : Val)
      → NestedFits s P t v
      → NestedFits s Q t v × (encode_nested s e t v ≡ encode_nested s f t v)
  nested_keeps s (xarray t n) (seq vs) (z, b, h) = let (a, p) = elems_keep t vs h in ((z, b, a), p)
  nested_keeps s (xvector t n) (seq vs) (z, b, h) =
      let (a, p) = elems_keep t vs h in ((z, b, a), ap (λ bs. be32 (size vs) ++ bs) p)
  nested_keeps s (pointer t) (seq vs) (z, h) =
      let (a, p) = elems_keep t vs h in ((z, a), ap (λ bs. be32 (size vs) ++ bs) p)
  nested_keeps s (named k) v (valid, h) =
      let (a, p) = class_keeps (s.classes k) v h in ((valid, a), p)
  nested_keeps s _ _ h = absurd h

module _ (s : Schema) where
  Fits-suc :
      (limit : ℕ) (t : Ty) (v : Val)
      → Fits s limit t v
      → Fits s (suc limit) t v × (encode s limit t v ≡ encode s (suc limit) t v)
  unfolding Fits encode
  Fits-suc zero t v h =
      kind_keeps (λ t v. ⊥) (NestedFits s (Fits s zero)) (λ t v. [])
        (encode_nested s (encode s zero)) (λ t v no. absurd no) (kind t) t v h
  Fits-suc (suc limit) t v h =
      kind_keeps (NestedFits s (Fits s limit)) (NestedFits s (Fits s (suc limit)))
        (encode_nested s (encode s limit)) (encode_nested s (encode s (suc limit)))
        (nested_keeps (Fits s limit) (Fits s (suc limit)) (encode s limit) (encode s (suc limit))
          (Fits-suc limit) s)
        (kind t) t v h

  ArgsFit-suc :
      (limit : ℕ) (args : List Arg)
      → ArgsFit s limit args
      → ArgsFit s (suc limit) args × (encode_args s limit args ≡ encode_args s (suc limit) args)
  ArgsFit-suc limit [] h = (tt, refl)
  ArgsFit-suc limit ((t, v) ∷ args) h =
      let (a, p) = Fits-suc limit t v h.0 in
      let (b, q) = ArgsFit-suc limit args h.1 in ((a, b), rw (p, q) refl)

  pub AllFitTypes-suc :
      (limit : ℕ) (ts : List Ty) (vs : Vals)
      → AllFitTypes s limit ts vs
      → AllFitTypes s (suc limit) ts vs
  AllFitTypes-suc limit [] nil h = tt
  AllFitTypes-suc limit [] (cons v vs) h = absurd h
  AllFitTypes-suc limit (t ∷ ts) nil h = absurd h
  AllFitTypes-suc limit (t ∷ ts) (cons v vs) h =
      ((Fits-suc limit t v h.0).0, AllFitTypes-suc limit ts vs h.1)

  pub ArgsFit-two :
      (limit : ℕ) (args : List Arg)
      → ArgsFit s limit args
      → ArgsFit s (suc (suc limit)) args
        × (encode_args s limit args ≡ encode_args s (suc (suc limit)) args)
  ArgsFit-two limit args h =
      let (a, p) = ArgsFit-suc limit args h in
      let (b, q) = ArgsFit-suc (suc limit) args a in (b, p ∙ q)
