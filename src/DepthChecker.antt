-- ===== src/DepthChecker.antt =====
-- xdrpp/depth_checker.h: an archive that measures how deep classes and containers are nested.
pub mod Limit
use xdrpp.Common.{ℕ, zero, suc, ◌+◌, ◌-◌, Bool, true, false, not, ltb, if◌then◌else◌}
use xdrpp.Common.Result.{Res, ok, fault, ◌>>=◌}
use xdrpp.Types.{Ty, Kind, nested, kind, Val, Schema}
use xdrpp.Types.Save.{save}

pub record DepthChecker : Type 0 where
  pub depth_limit : ℕ
  pub current_depth : ℕ
  pub within_limit : Bool

module _ (s : Schema) where
  -- The operator on a class or a container. `current_depth_` stays counted up where the limit is
  -- exceeded. It never gets beyond 2 ^ 32, since the limit is below that.
  unfoldable pub enter :
      (Ty → Val → DepthChecker → Res DepthChecker) → Ty → Val → DepthChecker → Res DepthChecker
  enter ar t v d =
      let deeper : Res DepthChecker =
        save s ar t v (record d { current_depth = d.current_depth + 1 }) >>= λ d'.
        ok (record d' { current_depth = d'.current_depth - 1 }) in
      if not d.within_limit
      then ok d
      else if ltb d.depth_limit (d.current_depth + 1)
      then ok (record d { current_depth = d.current_depth + 1; within_limit = false })
      else deeper

  -- Numbers and byte strings are passed over.
  unfoldable pub depth_op :
      (Ty → Val → DepthChecker → Res DepthChecker)
      → Kind
      → Ty
      → Val
      → DepthChecker
      → Res DepthChecker
  depth_op nest nested t v d = nest t v d
  depth_op nest _ t v d = ok d

  -- `operator()`, which calls itself through `save`, here on fuel.
  unfoldable pub visit : ℕ → Ty → Val → DepthChecker → Res DepthChecker
  unfolding depth_op enter
  visit zero t v d = depth_op (enter (λ t v d. fault)) (kind t) t v d
  visit (suc fuel) t v d = depth_op (enter (visit fuel)) (kind t) t v d

  -- No class or container below the limit is entered, so that the limit is fuel enough.
  unfoldable pub check_xdr_depth : Ty → Val → ℕ → Res Bool
  unfolding visit
  check_xdr_depth t v limit =
      visit limit t v (record { depth_limit = limit; current_depth = 0; within_limit = true })
      >>= λ d. ok d.within_limit
