-- ===== src/DepthChecker/Limit.antt =====
-- The depth checker passes the values that can be marshaled within the same limit.
use xdrpp.Common.{
  ℕ, zero, suc, ◌+◌, ◌-◌, ◌^◌, ◌<◌, ◌≡◌, ◌↔◌, refl, ap, not, subst, arith, Bool, true, false,
  Option, none, some, List, [], ◌∷◌, lt→ltb, le→ltb,
}
use xdrpp.Common.Result.{Res, ok, fault, ◌>>=◌, Returns, gives}
use xdrpp.Types.{
  Ty, uint32, xarray, xvector, pointer, named, Kind, word, dword, nested, fixed_bytes,
  variable_bytes, kind, Val, num, bytes, seq, choice, Vals, nil, cons, size, UnionField, Class,
  struct, union, Schema, with_mem_ptr, size32,
}
use xdrpp.Types.Save.{put_elems, put_fields, put_field, put_active, save_class, save}
use xdrpp.Marshal.Put.Encode.{
  AllFit, FieldsFit, FieldFits, ActiveFits, ClassFits, KindFits, NestedFits, Fits,
}
use xdrpp.Marshal.Put.Refine.{size32_lem}
use xdrpp.DepthChecker.{DepthChecker, enter, depth_op, visit, check_xdr_depth}

-- The checker is as before and `X` holds, or the limit has been exceeded and `X` does not hold.
data Outcome (X : Type 0) (d : DepthChecker) : Res DepthChecker → Type 0 where
  stays : X → Outcome X d (ok d)
  deep : {d' : DepthChecker} → ¬ X → d'.within_limit ≡ false → Outcome X d (ok d')

Outcome-iff :
    {X Y : Type 0} {d : DepthChecker} {r : Res DepthChecker}
    → (X → Y)
    → (Y → X)
    → Outcome X d r
    → Outcome Y d r
Outcome-iff f g (stays x) = stays (f x)
Outcome-iff f g (deep n o) = deep (λ y. n (g y)) o

-- An archive that has met the limit does nothing more.
abbrev IsOff : (DepthChecker → Res DepthChecker) → Type 0
IsOff k = (d : DepthChecker) → d.within_limit ≡ false → k d ≡ ok d

Outcome-and :
    {X Y : Type 0} {d : DepthChecker} {r : Res DepthChecker}
    → X
    → Outcome Y d r
    → Outcome (X × Y) d r
Outcome-and x (stays y) = stays (x, y)
Outcome-and x (deep n o) = deep (λ (_, y). n y) o

Outcome-then :
    {X Y : Type 0} {d : DepthChecker} {r : Res DepthChecker} (k : DepthChecker → Res DepthChecker)
    → Outcome X d r
    → IsOff k
    → Outcome Y d (k d)
    → Outcome (X × Y) d (r >>= k)
Outcome-then k (stays x) off y = Outcome-and x y
Outcome-then k (deep {d'} n o) off y = rw (off d' o) (deep (λ (x, _). n x) o)

-- `P` is what the values are known to fit, and `Q` what fits within the limit.
module _ (P Q : Ty → Val → Type 0) (ar : Ty → Val → DepthChecker → Res DepthChecker)
    (d : DepthChecker) (off : (t : Ty) (v : Val) → IsOff (ar t v))
    (word_off : (t : Ty) (u : ℕ) → kind t ≡ word → ar t (num u) d ≡ ok d)
    (out : (t : Ty) (v : Val) → P t v → Outcome (Q t v) d (ar t v d)) where
  elems-IsOff : (t : Ty) (vs : Vals) → IsOff (put_elems (ar t) vs)
  unfolding put_elems
  elems-IsOff t nil d' o = refl
  elems-IsOff t (cons v vs) d' o = rw (off t v d' o) (elems-IsOff t vs d' o)

  elems_out :
      (t : Ty) (vs : Vals) → AllFit (P t) vs → Outcome (AllFit (Q t) vs) d (put_elems (ar t) vs d)
  unfolding put_elems
  elems_out t nil f = stays tt
  elems_out t (cons v vs) f =
      Outcome-then (put_elems (ar t) vs) (out t v f.0) (elems-IsOff t vs) (elems_out t vs f.1)

  fields-IsOff : (ts : List Ty) (vs : Vals) → FieldsFit P ts vs → IsOff (put_fields ar ts vs)
  unfolding put_fields
  fields-IsOff [] nil f d' o = refl
  fields-IsOff [] (cons v vs) f d' o = absurd f
  fields-IsOff (t ∷ ts) nil f d' o = absurd f
  fields-IsOff (t ∷ ts) (cons v vs) f d' o = rw (off t v d' o) (fields-IsOff ts vs f.1 d' o)

  fields_out :
      (ts : List Ty) (vs : Vals)
      → FieldsFit P ts vs
      → Outcome (FieldsFit Q ts vs) d (put_fields ar ts vs d)
  unfolding put_fields
  fields_out [] nil f = stays tt
  fields_out [] (cons v vs) f = absurd f
  fields_out (t ∷ ts) nil f = absurd f
  fields_out (t ∷ ts) (cons v vs) f =
      Outcome-then (put_fields ar ts vs) (out t v f.0) (fields-IsOff ts vs f.1)
        (fields_out ts vs f.1)

  field_out :
      (decl : Option Ty) (vs : Vals)
      → FieldFits P decl vs
      → Outcome (FieldFits Q decl vs) d (put_field ar decl vs d)
  unfolding put_field
  field_out none nil f = stays tt
  field_out none (cons v vs) f = absurd f
  field_out (some t) nil f = absurd f
  field_out (some t) (cons v nil) f = out t v f
  field_out (some t) (cons v (cons u vs)) f = absurd f

  active_out :
      (a : Option UnionField) (vs : Vals)
      → ActiveFits P a vs
      → Outcome (ActiveFits Q a vs) d (put_active ar a vs d)
  unfolding put_active
  active_out none vs f = absurd f
  active_out (some a) vs f = field_out a.decl vs f

  module _ (s : Schema) where
    class_out :
        (c : Class) (v : Val)
        → ClassFits P c v
        → Outcome (ClassFits Q c v) d (save_class s ar c v d)
    unfolding save_class
    class_out (struct ts) (seq vs) f = fields_out ts vs f
    class_out (union tag fs) (choice n vs) (k, h, r, f) =
        rw (word_off tag n k) (
          Outcome-iff (λ x. (k, h, r, x)) (λ (_, _, _, x). x) (active_out (with_mem_ptr fs n) vs f))
    class_out (struct ts) (num u) f = absurd f
    class_out (struct ts) (bytes b) f = absurd f
    class_out (struct ts) (choice n vs) f = absurd f
    class_out (union tag fs) (num u) f = absurd f
    class_out (union tag fs) (bytes b) f = absurd f
    class_out (union tag fs) (seq vs) f = absurd f

    counted_out :
        (t : Ty) (vs : Vals)
        → size vs < 2 ^ 32
        → AllFit (P t) vs
        → Outcome
            (AllFit (Q t) vs)
            d
            (size32 (size vs) >>= λ k. ar uint32 (num k) d >>= put_elems (ar t) vs)
    counted_out t vs h f =
        rw (size32_lem (size vs) h)
          (rw (word_off uint32 (size vs) (unfold kind in refl)) (elems_out t vs f))

    save_out :
        (t : Ty) (v : Val) → NestedFits s P t v → Outcome (NestedFits s Q t v) d (save s ar t v d)
    unfolding save
    save_out (xarray t n) (seq vs) (e, h, f) =
        Outcome-iff (λ x. (e, h, x)) (λ (_, _, x). x) (elems_out t vs f)
    save_out (xvector t n) (seq vs) (e, h, f) =
        Outcome-iff (λ x. (e, h, x)) (λ (_, _, x). x) (counted_out t vs (omega arith) f)
    save_out (pointer t) (seq vs) (e, f) =
        Outcome-iff (λ x. (e, x)) (λ (_, x). x) (counted_out t vs (omega arith) f)
    save_out (named k) v (e, f) =
        Outcome-iff (λ x. (e, x)) (λ (_, x). x) (class_out (s.classes k) v f)
    save_out _ _ f = absurd f

module _ (s : Schema) where
  enter-IsOff :
      (ar : Ty → Val → DepthChecker → Res DepthChecker) (t : Ty) (v : Val) → IsOff (enter s ar t v)
  unfolding enter
  enter-IsOff ar t v d o = rw o refl

  op-IsOff :
      (nest : Ty → Val → DepthChecker → Res DepthChecker)
      → ((t : Ty) (v : Val) → IsOff (nest t v))
      → (k : Kind) (t : Ty) (v : Val) → IsOff (depth_op s nest k t v)
  unfolding depth_op
  op-IsOff nest off nested t v d o = off t v d o
  op-IsOff nest off _ t v d o = refl

  visit-IsOff : (fuel : ℕ) (t : Ty) (v : Val) → IsOff (visit s fuel t v)
  unfolding visit
  visit-IsOff zero t v =
      op-IsOff (enter s (λ t v d. fault)) (enter-IsOff (λ t v d. fault)) (kind t) t v
  visit-IsOff (suc fuel) t v =
      op-IsOff (enter s (visit s fuel)) (enter-IsOff (visit s fuel)) (kind t) t v

  visit-word :
      (fuel : ℕ) (d : DepthChecker) (t : Ty) (u : ℕ)
      → kind t ≡ word
      → visit s fuel t (num u) d ≡ ok d
  unfolding visit depth_op
  visit-word zero d t u k = rw k refl
  visit-word (suc fuel) d t u k = rw k refl

module _ (s : Schema) where
  op_out :
      (P Q : Ty → Val → Type 0) (nest : Ty → Val → DepthChecker → Res DepthChecker) (k : Kind)
      (t : Ty) (v : Val) (d : DepthChecker)
      → (P t v → Outcome (Q t v) d (nest t v d))
      → KindFits P k t v
      → Outcome (KindFits Q k t v) d (depth_op s nest k t v d)
  unfolding depth_op
  op_out P Q nest nested t v d out f = out f
  op_out P Q nest word t (num u) d out f = stays f
  op_out P Q nest dword t (num u) d out f = stays f
  op_out P Q nest (fixed_bytes n) t (bytes b) d out f = stays f
  op_out P Q nest (variable_bytes n) t (bytes b) d out f = stays f
  op_out P Q nest _ t v d out f = absurd f

  -- Coming back out, the depth is counted down again.
  up : DepthChecker → DepthChecker
  up d = record d { current_depth = d.current_depth + 1 }

  back_out :
      {X : Type 0} (d : DepthChecker) {r : Res DepthChecker}
      → Outcome X (up d) r
      → Outcome X d (r >>= λ d'. ok (record d' { current_depth = d'.current_depth - 1 }))
  unfolding up
  back_out {X} d (stays x) =
      subst (λ (n : ℕ). Outcome X d (ok (record d { current_depth = n }))) (omega arith) (stays x)
  back_out d (deep n o) = deep n o

  enter_zero :
      {X : Type 0} (ar : Ty → Val → DepthChecker → Res DepthChecker) (t : Ty) (v : Val)
      (d : DepthChecker)
      → d.within_limit ≡ true
      → d.depth_limit ≡ d.current_depth
      → ¬ X
      → Outcome X d (enter s ar t v d)
  unfolding enter
  enter_zero ar t v d w h n =
      rw w (rw (lt→ltb d.depth_limit (d.current_depth + 1) (omega arith)) (deep n refl))

  enter_out :
      {X : Type 0} (ar : Ty → Val → DepthChecker → Res DepthChecker) (t : Ty) (v : Val)
      (d : DepthChecker)
      → d.within_limit ≡ true
      → d.current_depth < d.depth_limit
      → Outcome X (up d) (save s ar t v (up d))
      → Outcome X d (enter s ar t v d)
  unfolding enter up
  enter_out ar t v d w h o =
      rw (ap not w) (rw (le→ltb d.depth_limit (d.current_depth + 1) (omega arith)) (back_out d o))

  visit_out :
      (fuel L : ℕ) (t : Ty) (v : Val) (d : DepthChecker)
      → d.within_limit ≡ true
      → d.depth_limit ≡ d.current_depth + fuel
      → Fits s L t v
      → Outcome (Fits s fuel t v) d (visit s fuel t v d)
  unfolding visit Fits up
  visit_out zero zero t v d w e f = op_out (λ t v. ⊥) (λ t v. ⊥) _ (kind t) t v d (λ x. absurd x) f
  visit_out zero (suc L) t v d w e f =
      op_out (NestedFits s (Fits s L)) (λ t v. ⊥) _ (kind t) t v d
        (λ x. enter_zero (λ t v d. fault) t v d w (omega (arith, e)) (λ b. b)) f
  visit_out (suc fuel) zero t v d w e f =
      op_out (λ t v. ⊥) (NestedFits s (Fits s fuel)) _ (kind t) t v d (λ x. absurd x) f
  visit_out (suc fuel) (suc L) t v d w e f =
      op_out (NestedFits s (Fits s L)) (NestedFits s (Fits s fuel)) _ (kind t) t v d
        (λ x. enter_out (visit s fuel) t v d w (omega (arith, e)) (
          save_out (Fits s L) (Fits s fuel) (visit s fuel) (up d) (visit-IsOff s fuel)
            (visit-word s fuel (up d)) (λ t v. visit_out fuel L t v (up d) w (omega (arith, e))) s t
            v x))
        f

  -- On a value of the type whose classes and containers are nested to any depth L, `check_xdr_depth`
  -- with the limit n returns, and it returns `true` exactly if the value is one that is nested at
  -- most n deep.
  pub check_xdr_depth-Fits :
      (L n : ℕ) (t : Ty) (v : Val)
      → Fits s L t v
      → Returns (λ (b : Bool). (b ≡ true) ↔ Fits s n t v) (check_xdr_depth s t v n)
  unfolding check_xdr_depth
  check_xdr_depth-Fits L n t v f = answer refl (
      visit_out n L t v (record { depth_limit = n; current_depth = 0; within_limit = true }) refl
        (omega arith) f)
    where
      answer :
          {d : DepthChecker} {r : Res DepthChecker}
          → d.within_limit ≡ true
          → Outcome (Fits s n t v) d r
          → Returns (λ (b : Bool). (b ≡ true) ↔ Fits s n t v) (r >>= λ d. ok d.within_limit)
      answer w (stays x) = gives ((λ e. x), (λ y. w))
      answer w (deep n o) = gives ((λ e. absurd (cc)), (λ y. absurd (n y)))
