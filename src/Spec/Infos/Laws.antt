-- ===== src/Spec/Infos/Laws.antt =====
-- Reading back the lists of applications and devices.
use jopa.Common.{String, Bool, true, false, not, some, List, [], ◌∷◌, ◌≡◌}
use jopa.Common.Outcome.{Outcome, ok}
use jopa.Spec.Value.{AppInfo, DeviceInfo, Value, str, obj, Items, nil, cons, Fields, get, get-put}
use jopa.Spec.Infos.{get_device_infos, get_infos, set_app_infos, set_device_infos}

module _ {S : Type 0} where
  -- What was set is read back; the other list of applications and the devices are as before.
  pub get_infos-set :
      (is_sys : Bool) (apps : List AppInfo) (m : Fields S)
      → (get_infos is_sys (some (set_app_infos is_sys apps m)) ≡ ok (some apps))
        × (get_infos (not is_sys) (some (set_app_infos is_sys apps m))
            ≡ get_infos (not is_sys) (some m))
        × (get_device_infos (some (set_app_infos is_sys apps m)) ≡ get_device_infos (some m))
  unfolding get_infos get_device_infos set_app_infos
  get_infos-set true apps m = (rw get-put, rw get-put, rw get-put)
  get_infos-set false apps m = (rw get-put, rw get-put, rw get-put)

  pub get_device_infos-set :
      (is_sys : Bool) (devs : List DeviceInfo) (m : Fields S)
      → (get_device_infos (some (set_device_infos devs m)) ≡ ok (some devs))
        × (get_infos is_sys (some (set_device_infos devs m)) ≡ get_infos is_sys (some m))
  unfolding get_infos get_device_infos set_device_infos
  get_device_infos-set true devs m = (rw get-put, rw get-put)
  get_device_infos-set false devs m = (rw get-put, rw get-put)

  -- The item is a map with texts at `name` and at `version`.
  abbrev pub IsInfo : Value S → String → String → Type 0
  IsInfo v name version =
      (m : Fields S) × (v ≡ obj m)
      × (get "name" m ≡ some (str name))
      × (get "version" m ≡ some (str version))

  -- The items hold these infos, in this order.
  abbrev pub Holds : Items S → List AppInfo → Type 0
  Holds nil [] = Unit
  Holds nil (_ ∷ _) = ⊥
  Holds (cons _ _) [] = ⊥
  Holds (cons v vs) (a ∷ apps) = IsInfo v a.name a.version × Holds vs apps
