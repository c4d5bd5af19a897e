-- ===== src/Plugin.antt =====
-- plugin/register.go: the factories by name, and the one plugin that calls of `GetPlugin` share. A number stands for a
-- plugin; `lower` is strings.ToLower, and a step is what a goroutine does between two accesses to the shared maps.
pub mod Laws
mod Samples
use jopa.Common.{ℕ, suc, String, Bool, if◌then◌else◌, List, [], ◌∷◌, Option, none, some}
use jopa.Common.Dict.{Dict, lookup, insert}
use jopa.Common.Table.{Table, find, set}

pub data Failure : Type 0 where
  plugin_not_found factory_failed : Failure

-- Where a call of `GetPlugin` is: before its look at the maps, at the factory, with the plugin that it made, and its
-- result.
pub data Phase : Type 0 where
  called found_factory : Phase
  made : ℕ → Phase
  returned : ℕ → Phase
  failed : Failure → Phase

-- A call, with the name in lower case.
pub record Getter : Type 0 where
  pub name : String
  pub phase : Phase

-- `pluginFactory`, whose functions are known by their names here, and `plugins`; with the plugins that were made, the
-- closed ones, and the calls.
pub record Registry : Type 0 where
  pub factories : Dict String
  pub plugins : Dict ℕ
  pub next_plugin : ℕ
  pub closed : List ℕ
  pub getters : Table Getter

abbrev pub new_registry : Registry
new_registry = record { factories = []; plugins = []; next_plugin = 0; closed = []; getters = [] }

register_found : String → String → Option String → Registry → Registry
register_found name factory (some old) r = r
register_found name factory none r = record r { factories = insert name factory r.factories }

-- `RegisterFactory`: the first factory of a name stays.
unfoldable pub register_factory : String → String → Registry → Registry
unfolding register_found
register_factory name factory r = register_found name factory (lookup name r.factories) r

unfoldable pub move : ℕ → Getter → Phase → Registry → Registry
move g getter phase r = record r { getters = set g (record getter { phase = phase }) r.getters }

-- A call of `GetPlugin` begins.
unfoldable pub get_plugin : (String → String) → ℕ → String → Registry → Registry
get_plugin lower g name r = record r {
  getters = set g (record { name = lower name; phase = called }) r.getters;
}

look_up_factory : ℕ → Getter → Option String → Registry → Registry
unfolding move
look_up_factory g getter none r = move g getter (failed plugin_not_found) r
look_up_factory g getter (some factory) r = move g getter found_factory r

look_up_plugin : ℕ → Getter → Option ℕ → Registry → Registry
unfolding move look_up_factory
look_up_plugin g getter (some plugin) r = move g getter (returned plugin) r
look_up_plugin g getter none r = look_up_factory g getter (lookup getter.name r.factories) r

-- The factory makes a plugin, or fails.
make_plugin : ℕ → Getter → Bool → Registry → Registry
unfolding move
make_plugin g getter works r =
    if works
    then (let next = move g getter (made r.next_plugin) r in
        record next { next_plugin = suc r.next_plugin })
    else move g getter (failed factory_failed) r

-- `LoadOrStore`: a plugin that came too late is closed, and the stored one is returned.
store_plugin : ℕ → Getter → ℕ → Option ℕ → Registry → Registry
unfolding move
store_plugin g getter plugin (some act) r =
    let next = move g getter (returned act) r in record next { closed = plugin ∷ r.closed }
store_plugin g getter plugin none r =
    let next = move g getter (returned plugin) r in
    record next { plugins = insert getter.name plugin r.plugins }

-- The next step of a call; `works` is what the factory does, if it is called.
advance_phase : Bool → ℕ → Getter → Phase → Registry → Registry
unfolding look_up_plugin make_plugin store_plugin
advance_phase works g getter called r = look_up_plugin g getter (lookup getter.name r.plugins) r
advance_phase works g getter found_factory r = make_plugin g getter works r
advance_phase works g getter (made plugin) r =
    store_plugin g getter plugin (lookup getter.name r.plugins) r
advance_phase works g getter (returned plugin) r = r
advance_phase works g getter (failed e) r = r

advance_found : Bool → ℕ → Option Getter → Registry → Registry
unfolding advance_phase
advance_found works g none r = r
advance_found works g (some getter) r = advance_phase works g getter getter.phase r

unfoldable pub advance : Bool → ℕ → Registry → Registry
unfolding advance_found
advance works g r = advance_found works g (find g r.getters) r

all_plugins : Dict ℕ → List ℕ → List ℕ
all_plugins [] closed = closed
all_plugins ((name, plugin) ∷ plugins) closed = plugin ∷ all_plugins plugins closed

-- `ClosePlugins`, which leaves the plugins in the map.
unfoldable pub close_plugins : Registry → Registry
unfolding all_plugins
close_plugins r = record r { closed = all_plugins r.plugins r.closed }

pub data Event : Type 0 where
  to_register : String → String → Event
  to_get : ℕ → String → Event
  to_advance : Bool → ℕ → Event
  to_close : Event

module _ (lower : String → String) where
  unfoldable pub apply : Event → Registry → Registry
  unfolding register_factory get_plugin advance close_plugins
  apply (to_register name factory) r = register_factory name factory r
  apply (to_get g name) r = get_plugin lower g name r
  apply (to_advance works g) r = advance works g r
  apply to_close r = close_plugins r

  unfoldable pub run : List Event → Registry → Registry
  unfolding apply
  run [] r = r
  run (e ∷ es) r = run es (apply e r)
