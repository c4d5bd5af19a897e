-- ===== src/Spec/Merge.antt =====
-- `merge` of spec/v1/node.go, behind `Report.Merge` and `Desire.Merge`.
pub mod Laws
pub mod Total
use jopa.Common.{ℕ, suc, String, Option, none, some, leb, if◌then◌else◌}
use jopa.Spec.Value.{Value, Fields, null, str, obj, other_map, arr, app_infos, device_infos, other}
use jopa.Spec.Value.{end, field, get, put}

-- How a call ends. On `exceeds_limit` (`ErrJSONLevelExceedsLimit`) and on `panicked` (a type assertion
-- at a map of another type) the left map keeps what was written before.
pub data End : Type 0 where
  done exceeds_limit panicked : End

-- What is left to do with the left map.
abbrev pub Rest : Type 0 → Type 0
Rest S = Fields S → Fields S × End

module _ {S : Type 0} where
  -- After the inner call, which has written to `left[rk]` in place.
  unfoldable pub after_inner : String → Rest S → Fields S → Fields S × End → Fields S × End
  after_inner rk rest left (l, done) = rest (put rk (obj l) left)
  after_inner rk rest left (l, exceeds_limit) = (put rk (obj l) left, exceeds_limit)
  after_inner rk rest left (l, panicked) = (put rk (obj l) left, panicked)

  -- The body of the loop where `rv` is a `map[string]interface{}`.
  unfoldable pub merge_obj :
      String → Fields S → Rest S → Rest S → Fields S → Option (Value S) → Fields S × End
  merge_obj rk r inner rest left (some (obj l)) = after_inner rk rest left (inner l)
  merge_obj rk r inner rest left (some (other_map _)) = (left, panicked)
  merge_obj rk r inner rest left _ = rest (put rk (obj r) left)

  -- The body of the loop where `rv` is a map of another type.
  unfoldable pub merge_other_map :
      String → Value S → Rest S → Fields S → Option (Value S) → Fields S × End
  merge_other_map rk rv rest left (some (obj l)) = (left, panicked)
  merge_other_map rk rv rest left (some (other_map _)) = (left, panicked)
  merge_other_map rk rv rest left _ = rest (put rk rv left)

  -- The test that a call makes first.
  abbrev pub enter : ℕ → ℕ → Fields S → Fields S × End → Fields S × End
  enter depth max_depth left body = if leb max_depth depth then (left, exceeds_limit) else body

  -- The loop over the right map.
  unfoldable pub merge_fields : ℕ → ℕ → Fields S → Fields S → Fields S × End
  unfolding merge_obj merge_other_map after_inner
  merge_fields depth max_depth left end = (left, done)
  merge_fields depth max_depth left (field rk (obj r) right) =
      merge_obj rk r (λ l. enter (suc depth) max_depth l (merge_fields (suc depth) max_depth l r))
        (λ left'. merge_fields depth max_depth left' right) left (get rk left)
  merge_fields depth max_depth left (field rk (other_map s) right) =
      merge_other_map rk (other_map s) (λ left'. merge_fields depth max_depth left' right) left
        (get rk left)
  merge_fields depth max_depth left (field rk rv right) =
      merge_fields depth max_depth (put rk rv left) right

  unfoldable pub merge : Fields S → Fields S → ℕ → ℕ → Fields S × End
  unfolding merge_fields
  merge left right depth max_depth =
      enter depth max_depth left (merge_fields depth max_depth left right)

-- `maxJSONLevel`
abbrev pub max_json_level : ℕ
max_json_level = 5

-- `Report.Merge` and `Desire.Merge` (one body) of a report; `none` is the nil map, to which nothing can
-- be written.
unfoldable pub merge_report : {S : Type 0} → Option (Fields S) → Fields S → Option (Fields S) × End
unfolding merge
merge_report none end = (none, done)
merge_report none (field _ _ _) = (none, panicked)
merge_report (some left) right =
    let (left', e) = merge left right 1 max_json_level in (some left', e)
