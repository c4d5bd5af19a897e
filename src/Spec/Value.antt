-- ===== src/Spec/Value.antt =====
-- The dynamic values of `interface{}` that spec/v1/node.go handles: the cases are those that its type
-- assertions and its tests of `reflect.Kind` tell apart. `S` is the type of all other Go values.
use jopa.Common.{String, Option, none, some, List, ◌≡◌, refl, arith, if◌then◌else◌, ◌==ₛ◌, ==ₛ_iff}

-- `AppInfo` and `DeviceInfo` of spec/v1/sync_report.go.
pub record AppInfo : Type 0 where
  pub name : String
  pub version : String

pub record DeviceInfo : Type 0 where
  pub name : String
  pub version : String

-- `obj` is a non-nil `map[string]interface{}`, `other_map` a map of another type, and `arr` an
-- `[]interface{}`. There is no nil map[string]interface{}, which no JSON decodes to.
mutual
  pub data Value (S : Type 0) : Type 0 where
    null : Value S
    str : String → Value S
    obj : Fields S → Value S
    other_map : S → Value S
    arr : Items S → Value S
    app_infos : List AppInfo → Value S
    device_infos : List DeviceInfo → Value S
    other : S → Value S

  pub data Items (S : Type 0) : Type 0 where
    nil : Items S
    cons : Value S → Items S → Items S

  pub data Fields (S : Type 0) : Type 0 where
    end : Fields S
    field : String → Value S → Fields S → Fields S

module _ {S : Type 0} where
  -- m[k]
  unfoldable pub get : String → Fields S → Option (Value S)
  get k end = none
  get k (field j v m) = if j ==ₛ k then some v else get k m

  -- m[k] = v
  unfoldable pub put : String → Value S → Fields S → Fields S
  put k v end = field k v end
  put k v (field j w m) = let rest = put k v m in if j ==ₛ k then field k v m else field j w rest

  -- delete(m, k)
  unfoldable pub remove : String → Fields S → Fields S
  remove k end = end
  remove k (field j w m) = let rest = remove k m in if j ==ₛ k then rest else field j w rest

  pub get-put :
      (k j : String) (v : Value S) (m : Fields S)
      → get j (put k v m) ≡ (if k ==ₛ j then some v else get j m)
  unfolding get put
  get-put k j v end = refl
  get-put k j v (field i w m) =
      ground (arith, ==ₛ_iff k j, ==ₛ_iff i k, ==ₛ_iff i j, get-put k j v m)

  pub get-remove :
      (k j : String) (m : Fields S) → get j (remove k m) ≡ (if k ==ₛ j then none else get j m)
  unfolding get remove
  get-remove k j end = ground arith
  get-remove k j (field i w m) =
      ground (arith, ==ₛ_iff k j, ==ₛ_iff i k, ==ₛ_iff i j, get-remove k j m)
