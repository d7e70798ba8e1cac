-- ===== src/Examples/Comparing.antt =====
-- Values that are compared.
use xdrpp.Common.{◌≡◌, refl, arith, true, ◌↔◌}
use xdrpp.Types.{
  int32, float32, xvector, named, num, seq, choice, nil, cons, Val, with_mem_ptr, labelled_field,
}
use xdrpp.Types.Compare.{equal, compare_vals, parts, arms}
use xdrpp.Types.Compare.Agree.{is_equivalent, equal-compare_vals}
use xdrpp.Types.Compare.Transitive.{IsOrdered, compare_vals-IsOrdered}
use xdrpp.Types.Compare.Exact.{IsExact, equal_iff}
use xdrpp.Examples.Data.{schema, name}

name-IsExact : IsExact schema (named 1) name
unfolding arms with_mem_ptr labelled_field
name-IsExact = (refl, (tt, tt))

equal_iff_example : (equal schema (named 1) name (choice 0 nil) ≡ true) ↔ (name ≡ choice 0 nil)
equal_iff_example = equal_iff schema (named 1) name (choice 0 nil) name-IsExact

-- Both zeros, and a NaN.
abbrev zeros : Val
zeros = seq (cons (num 0) (cons (num 2147483648) nil))

abbrev with_nan : Val
with_nan = seq (cons (num 0) (cons (num 2143289344) nil))

equal-compare_vals_example :
    equal schema (xvector float32 5) zeros with_nan
    ≡ is_equivalent (compare_vals schema (xvector float32 5) zeros with_nan)
unfolding parts
equal-compare_vals_example =
    equal-compare_vals schema (xvector float32 5) zeros with_nan (tt, (tt, tt)) (tt, (tt, tt))

-- -1, 0 and 1.
abbrev minus_one : Val
minus_one = seq (cons (num 4294967295) nil)

compare_vals-IsOrdered_example :
    IsOrdered schema (xvector int32 5) minus_one (seq (cons (num 0) nil)) (seq (cons (num 1) nil))
unfolding parts
compare_vals-IsOrdered_example =
    compare_vals-IsOrdered schema (xvector int32 5) minus_one (seq (cons (num 0) nil))
      (seq (cons (num 1) nil)) (omega arith, tt) (omega arith, tt) (omega arith, tt)
