-- ===== src/Plugin/Samples.antt =====
-- The theorem on plugin at two calls that run at the same time.
use jopa.Common.{ℕ, String, ◌==ₛ◌, if◌then◌else◌, true, List, [], ◌∷◌, ◌≡◌, refl}
use jopa.Common.Dict.{lookup, insert}
use jopa.Common.Table.{find, set}
use jopa.Plugin.{Event, to_register, to_get, to_advance, to_close, run, Getter, returned}
use jopa.Plugin.Laws.{asked, get_plugin-same}

-- Both find the factory and make a plugin; the second one comes too late, and its plugin is closed.
abbrev events : List Event
events =
    to_register "a" "factory"
    ∷ to_get 0 "A"
    ∷ to_get 1 "a"
    ∷ to_advance true 0
    ∷ to_advance true 1
    ∷ to_advance true 0
    ∷ to_advance true 1
    ∷ to_advance true 0
    ∷ to_advance true 1
    ∷ to_close
    ∷ []

-- A strings.ToLower for these names.
abbrev to_lower : String → String
to_lower s = if s ==ₛ "A" then "a" else s

abbrev shared : Getter
shared = record { name = "a"; phase = returned 0 }

get_plugin-same_example : ◌≡◌ {A = ℕ} 0 0
unfolding run find set lookup insert asked
get_plugin-same_example =
    get_plugin-same to_lower events 0 1 "A" "a" shared shared 0 0 refl refl refl refl refl refl refl
