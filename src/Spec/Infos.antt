-- ===== src/Spec/Infos.antt =====
-- The lists of applications and devices inside a report or a desire: `AppInfos`, `SetAppInfos`,
-- `DeviceInfos` and `SetDeviceInfos` of spec/v1/node.go. The methods of `Report` and of `Desire` have one
-- body. A result `some` is a slice, `none` the nil slice; `panic` is a failed type assertion.
-- No item is a nil map, which JSON does not give.
pub mod Laws
use jopa.Common.{String, Bool, true, false, Option, none, some, List, [], ◌∷◌, if◌then◌else◌}
use jopa.Common.Outcome.{Outcome, ok, panic, ◌>>=◌}
use jopa.Spec.Value.{
  AppInfo, DeviceInfo, Value, null, str, obj, arr, app_infos, device_infos, Items, nil, cons,
  Fields, end, field, get, put,
}

abbrev pub key_devices : String
key_devices = "devices"

abbrev pub key_apps : String
key_apps = "apps"

abbrev pub key_sys_apps : String
key_sys_apps = "sysapps"

abbrev pub app_key : Bool → String
app_key is_sys = if is_sys then key_sys_apps else key_apps

module _ {S : Type 0} where
  -- `v.(string)` of a value read from a map; a missing key reads as `nil`.
  unfoldable pub assert_string : Option (Value S) → Outcome ⊥ String
  assert_string (some (str s)) = ok s
  assert_string _ = panic

  -- `di.(map[string]interface{})`
  unfoldable pub assert_map : Value S → Outcome ⊥ (Fields S)
  assert_map (obj m) = ok m
  assert_map _ = panic

  unfoldable pub read_info : Value S → Outcome ⊥ (String × String)
  unfolding assert_string assert_map
  read_info v = do
    m ← assert_map v
    name ← assert_string (get "name" m)
    version ← assert_string (get "version" m)
    ok (name, version)

  -- The loop that appends an info for each item.
  unfoldable pub read_app_infos : Items S → Outcome ⊥ (List AppInfo)
  unfolding read_info
  read_app_infos nil = ok []
  read_app_infos (cons v vs) = do
    (name, version) ← read_info v
    rest ← read_app_infos vs
    ok (record { name = name; version = version } ∷ rest)

  unfoldable pub read_device_infos : Items S → Outcome ⊥ (List DeviceInfo)
  unfolding read_info
  read_device_infos nil = ok []
  read_device_infos (cons v vs) = do
    (name, version) ← read_info v
    rest ← read_device_infos vs
    ok (record { name = name; version = version } ∷ rest)

  app_infos_in : Option (Value S) → Outcome ⊥ (Option (List AppInfo))
  app_infos_in (some (app_infos apps)) = ok (some apps)
  app_infos_in (some (arr items)) = do apps ← read_app_infos items; ok (some apps)
  app_infos_in _ = ok none

  device_infos_in : Option (Value S) → Outcome ⊥ (Option (List DeviceInfo))
  device_infos_in (some (device_infos devs)) = ok (some devs)
  device_infos_in (some (arr items)) = do devs ← read_device_infos items; ok (some devs)
  device_infos_in _ = ok none

  -- `data` is `none` where it is a nil map.
  unfoldable pub get_app_infos : String → Option (Fields S) → Outcome ⊥ (Option (List AppInfo))
  unfolding app_infos_in read_app_infos
  get_app_infos app_type none = ok none
  get_app_infos app_type (some m) = app_infos_in (get app_type m)

  unfoldable pub get_device_infos : Option (Fields S) → Outcome ⊥ (Option (List DeviceInfo))
  unfolding device_infos_in read_device_infos
  get_device_infos none = ok none
  get_device_infos (some m) = device_infos_in (get key_devices m)

  -- `AppInfos`
  unfoldable pub get_infos : Bool → Option (Fields S) → Outcome ⊥ (Option (List AppInfo))
  unfolding get_app_infos
  get_infos is_sys m = get_app_infos (app_key is_sys) m

  -- `SetAppInfos`
  unfoldable pub set_app_infos : Bool → List AppInfo → Fields S → Fields S
  set_app_infos is_sys apps m = put (app_key is_sys) (app_infos apps) m

  -- `SetDeviceInfos`
  unfoldable pub set_device_infos : List DeviceInfo → Fields S → Fields S
  set_device_infos devs m = put key_devices (device_infos devs) m
