-- ===== src/Spec/Delta.antt =====
-- `clean`, `diff` and `patch` of spec/v1/node.go, behind `Desire.Diff`, `DiffWithNil` and `Patch`.
-- encoding/json and jsonpatch are the parameter `Json`.
pub mod Laws
use jopa.Common.{Bool, true, false, if◌then◌else◌}
use jopa.Common.Outcome.{Outcome, ok, ◌>>=◌}
use jopa.Spec.Value.{Fields, null, obj, end, field}

module _ {S : Type 0} where
  -- `delete(m, k)` in the loop takes away the entry that the loop stands at.
  unfoldable pub clean : Fields S → Fields S
  clean end = end
  clean (field k null m) = clean m
  clean (field k (obj v) m) = field k (obj (clean v)) (clean m)
  clean (field k v m) = field k v (clean m)

-- json.Marshal of a map, json.Unmarshal into one, and the two functions of jsonpatch.
pub record Json (S E Bytes : Type 0) : Type 0 where
  pub marshal : Fields S → Outcome E Bytes
  pub unmarshal : Bytes → Outcome E (Fields S)
  pub create_merge_patch : Bytes → Bytes → Outcome E Bytes
  pub merge_patch : Bytes → Bytes → Outcome E Bytes

module _ {S E Bytes : Type 0} (j : Json S E Bytes) where
  unfoldable pub diff : Fields S → Fields S → Bool → Outcome E (Fields S)
  unfolding clean
  diff desired reported clean_nil = do
    r ← j.marshal reported
    d ← j.marshal desired
    patch ← j.create_merge_patch r d
    delta ← j.unmarshal patch
    ok (if clean_nil then clean delta else delta)

  -- `Desire.Diff`
  unfoldable pub desire_diff : Fields S → Fields S → Outcome E (Fields S)
  unfolding diff
  desire_diff d reported = diff d reported true

  -- `Desire.DiffWithNil`
  unfoldable pub diff_with_nil : Fields S → Fields S → Outcome E (Fields S)
  unfolding diff
  diff_with_nil d report = diff d report false

  unfoldable pub patch : Fields S → Fields S → Outcome E (Fields S)
  patch doc delta = do
    doc_data ← j.marshal doc
    delta_data ← j.marshal delta
    patch_data ← j.merge_patch doc_data delta_data
    j.unmarshal patch_data
