-- ===== src/Plugin/Laws.antt =====
-- plugin/register.go: which plugin the calls return.
use jopa.Common.{
  ℕ, String, Bool, true, false, ◌==◌, ◌==ₛ◌, ==ₛ_iff, ==_iff, ap, Bool-cases, if◌then◌else◌, List,
  [], ◌∷◌, Option, none, some, ◌≡◌, refl, sym, ◌∙◌, subst, inl, inr,
}
use jopa.Common.Dict.{Dict, lookup, insert, lookup-insert, lookup-insert_self}
use jopa.Common.Table.{find, set, find-set}
use jopa.Plugin.{
  Phase, called, found_factory, made, returned, failed, plugin_not_found, factory_failed, Getter,
  Registry, new_registry, register_found, register_factory, move, get_plugin, look_up_factory,
  look_up_plugin, make_plugin, store_plugin, advance_phase, advance_found, advance, close_plugins,
  Event, to_register, to_get, to_advance, to_close, apply, run,
}

some_injective : {A : Type 0} {a b : A} → ◌≡◌ {A = Option A} (some a) (some b) → a ≡ b
some_injective e = cc

-- A result is the plugin that the map has for the name; a phase before it is not bound to one.
abbrev pub SharedAt : Dict ℕ → String → Phase → Type 0
SharedAt plugins name (returned plugin) = lookup name plugins ≡ some plugin
SharedAt plugins name _ = Unit

-- Every result is the plugin in the map.
abbrev pub AllShared : Registry → Type 0
AllShared r =
    (g : ℕ) (getter : Getter)
    → find g r.getters ≡ some getter
    → SharedAt r.plugins getter.name getter.phase

chosen :
    (b : Bool) (plugins : Dict ℕ) (new getter : Getter) (o : Option Getter)
    → (if b then some new else o) ≡ some getter
    → SharedAt plugins new.name new.phase
    → (o ≡ some getter → SharedAt plugins getter.name getter.phase)
    → SharedAt plugins getter.name getter.phase
chosen true plugins new getter o e shared others =
    let same : new ≡ getter = cc in subst (λ x. SharedAt plugins x.name x.phase) same shared
chosen false plugins new getter o e shared others = others e

set-shared :
    (g0 : ℕ) (new : Getter) (r : Registry)
    → SharedAt r.plugins new.name new.phase
    → AllShared r
    → AllShared (record r { getters = set g0 new r.getters })
set-shared g0 new r shared all g getter found =
    chosen (g0 == g) r.plugins new getter (find g r.getters)
      (sym (find-set g0 g new r.getters) ∙ found) shared (all g getter)

-- A plugin that is stored where there was none leaves every other one in its place.
insert-shared :
    (name other : String) (plugin : ℕ) (plugins : Dict ℕ) (phase : Phase)
    → lookup name plugins ≡ none
    → SharedAt plugins other phase
    → SharedAt (insert name plugin plugins) other phase
insert-shared name other plugin plugins called free shared = tt
insert-shared name other plugin plugins found_factory free shared = tt
insert-shared name other plugin plugins (made p) free shared = tt
insert-shared name other plugin plugins (failed e) free shared = tt
insert-shared name other plugin plugins (returned p) free shared =
    lookup-insert name other plugin plugins ∙ (elim (Bool-cases (name ==ₛ other)) [
      | inl t ↦
          let none_there : lookup other plugins ≡ none =
            subst (λ k. lookup k plugins ≡ none) ((==ₛ_iff name other).0 t) free in
          cc
      | inr f ↦ rw f shared
    ])

store-shared :
    (g : ℕ) (getter : Getter) (plugin : ℕ) (o : Option ℕ) (r : Registry)
    → lookup getter.name r.plugins ≡ o
    → AllShared r
    → AllShared (store_plugin g getter plugin o r)
unfolding store_plugin move
store-shared g getter plugin (some act) r e all =
    set-shared g (record getter { phase = returned act }) r e all
store-shared g getter plugin none r e all =
    let stored = record r { plugins = insert getter.name plugin r.plugins } in
    set-shared g (record getter { phase = returned plugin }) stored
      (lookup-insert_self getter.name plugin r.plugins)
      (λ k other found.
        insert-shared getter.name other.name plugin r.plugins other.phase e (all k other found))

factory-shared :
    (g : ℕ) (getter : Getter) (o : Option String) (r : Registry)
    → AllShared r
    → AllShared (look_up_factory g getter o r)
unfolding look_up_factory move
factory-shared g getter none r all =
    set-shared g (record getter { phase = failed plugin_not_found }) r tt all
factory-shared g getter (some factory) r all =
    set-shared g (record getter { phase = found_factory }) r tt all

look_up-shared :
    (g : ℕ) (getter : Getter) (o : Option ℕ) (r : Registry)
    → lookup getter.name r.plugins ≡ o
    → AllShared r
    → AllShared (look_up_plugin g getter o r)
unfolding look_up_plugin move
look_up-shared g getter (some plugin) r e all =
    set-shared g (record getter { phase = returned plugin }) r e all
look_up-shared g getter none r e all =
    factory-shared g getter (lookup getter.name r.factories) r all

make-shared :
    (g : ℕ) (getter : Getter) (works : Bool) (r : Registry)
    → AllShared r
    → AllShared (make_plugin g getter works r)
unfolding make_plugin move
make-shared g getter true r all =
    set-shared g (record getter { phase = made r.next_plugin }) r tt all
make-shared g getter false r all =
    set-shared g (record getter { phase = failed factory_failed }) r tt all

advance_phase-shared :
    (works : Bool) (g : ℕ) (getter : Getter) (phase : Phase) (r : Registry)
    → AllShared r
    → AllShared (advance_phase works g getter phase r)
unfolding advance_phase
advance_phase-shared works g getter called r all =
    look_up-shared g getter (lookup getter.name r.plugins) r refl all
advance_phase-shared works g getter found_factory r all = make-shared g getter works r all
advance_phase-shared works g getter (made p) r all =
    store-shared g getter p (lookup getter.name r.plugins) r refl all
advance_phase-shared works g getter (returned p) r all = all
advance_phase-shared works g getter (failed e) r all = all

advance-shared :
    (works : Bool) (g : ℕ) (o : Option Getter) (r : Registry)
    → AllShared r
    → AllShared (advance_found works g o r)
unfolding advance_found
advance-shared works g none r all = all
advance-shared works g (some getter) r all = advance_phase-shared works g getter getter.phase r all

register-shared :
    (name factory : String) (o : Option String) (r : Registry)
    → AllShared r
    → AllShared (register_found name factory o r)
unfolding register_found
register-shared name factory none r all = all
register-shared name factory (some old) r all = all

abbrev name_of : Option Getter → Option String
name_of none = none
name_of (some getter) = some getter.name

abbrev lowered : (String → String) → Option String → Option String
lowered lower none = none
lowered lower (some name) = some (lower name)

named_as :
    (b : Bool) (new old : Getter) (o : Option Getter)
    → new.name ≡ old.name
    → (b ≡ true → o ≡ some old)
    → name_of (if b then some new else o) ≡ name_of o
named_as true new old o e here = ap some e ∙ sym (ap name_of (here refl))
named_as false new old o e here = refl

-- A step of a call keeps every name.
move-name :
    (g k : ℕ) (getter : Getter) (phase : Phase) (r : Registry)
    → find k r.getters ≡ some getter
    → name_of (find g (move k getter phase r).getters) ≡ name_of (find g r.getters)
unfolding move
move-name g k getter phase r e =
    ap name_of (find-set k g (record getter { phase = phase }) r.getters)
    ∙ named_as (k == g) (record getter { phase = phase }) getter (find g r.getters) refl
        (λ same. ap (λ n. find n r.getters) (sym ((==_iff k g).0 same)) ∙ e)

factory_name :
    (g k : ℕ) (getter : Getter) (o : Option String) (r : Registry)
    → find k r.getters ≡ some getter
    → name_of (find g (look_up_factory k getter o r).getters) ≡ name_of (find g r.getters)
unfolding look_up_factory
factory_name g k getter none r e = move-name g k getter (failed plugin_not_found) r e
factory_name g k getter (some factory) r e = move-name g k getter found_factory r e

looked_name :
    (g k : ℕ) (getter : Getter) (o : Option ℕ) (r : Registry)
    → find k r.getters ≡ some getter
    → name_of (find g (look_up_plugin k getter o r).getters) ≡ name_of (find g r.getters)
unfolding look_up_plugin
looked_name g k getter (some plugin) r e = move-name g k getter (returned plugin) r e
looked_name g k getter none r e = factory_name g k getter (lookup getter.name r.factories) r e

stored_name :
    (g k : ℕ) (getter : Getter) (plugin : ℕ) (o : Option ℕ) (r : Registry)
    → find k r.getters ≡ some getter
    → name_of (find g (store_plugin k getter plugin o r).getters) ≡ name_of (find g r.getters)
unfolding store_plugin
stored_name g k getter plugin (some act) r e = move-name g k getter (returned act) r e
stored_name g k getter plugin none r e = move-name g k getter (returned plugin) r e

phase-name :
    (works : Bool) (g k : ℕ) (getter : Getter) (phase : Phase) (r : Registry)
    → find k r.getters ≡ some getter
    → name_of (find g (advance_phase works k getter phase r).getters) ≡ name_of (find g r.getters)
unfolding advance_phase make_plugin
phase-name works g k getter called r e = looked_name g k getter (lookup getter.name r.plugins) r e
phase-name true g k getter found_factory r e = move-name g k getter (made r.next_plugin) r e
phase-name false g k getter found_factory r e = move-name g k getter (failed factory_failed) r e
phase-name works g k getter (made p) r e =
    stored_name g k getter p (lookup getter.name r.plugins) r e
phase-name works g k getter (returned p) r e = refl
phase-name works g k getter (failed f) r e = refl

advance-name :
    (works : Bool) (g k : ℕ) (o : Option Getter) (r : Registry)
    → find k r.getters ≡ o
    → name_of (find g (advance_found works k o r).getters) ≡ name_of (find g r.getters)
unfolding advance_found
advance-name works g k none r e = refl
advance-name works g k (some getter) r e = phase-name works g k getter getter.phase r e

register-getters :
    (name factory : String) (o : Option String) (r : Registry)
    → (register_found name factory o r).getters ≡ r.getters
unfolding register_found
register-getters name factory none r = refl
register-getters name factory (some old) r = refl

module _ (lower : String → String) where
  apply-shared : (e : Event) (r : Registry) → AllShared r → AllShared (apply lower e r)
  unfolding apply register_factory get_plugin advance close_plugins
  apply-shared (to_register name factory) r all =
      register-shared name factory (lookup name r.factories) r all
  apply-shared (to_get g name) r all =
      set-shared g (record { name = lower name; phase = called }) r tt all
  apply-shared (to_advance works g) r all = advance-shared works g (find g r.getters) r all
  apply-shared to_close r all = all

  run-shared : (es : List Event) (r : Registry) → AllShared r → AllShared (run lower es r)
  unfolding run
  run-shared [] r all = all
  run-shared (e ∷ es) r all = run-shared es (apply lower e r) (apply-shared e r all)

  -- The name that the last call with a number was made with.
  unfoldable pub asked : ℕ → List Event → Option String → Option String
  asked g [] before = before
  asked g (to_get k name ∷ es) before = asked g es (if k == g then some name else before)
  asked g (to_register name factory ∷ es) before = asked g es before
  asked g (to_advance works k ∷ es) before = asked g es before
  asked g (to_close ∷ es) before = asked g es before

  -- Its name in the state is the one that it was asked for, in lower case.
  abbrev Asked : ℕ → Option String → Registry → Type 0
  Asked g before r = name_of (find g r.getters) ≡ lowered lower before

  asked-get :
      (b : Bool) (name : String) (before : Option String) (o : Option Getter)
      → name_of o ≡ lowered lower before
      → name_of (if b then some (record { name = lower name; phase = called }) else o)
        ≡ lowered lower (if b then some name else before)
  asked-get true name before o e = refl
  asked-get false name before o e = e

  run-Asked :
      (g : ℕ) (es : List Event) (before : Option String) (r : Registry)
      → Asked g before r
      → Asked g (asked g es before) (run lower es r)
  unfolding run apply asked register_factory register_found get_plugin advance close_plugins
  run-Asked g [] before r e = e
  run-Asked g (to_get k name ∷ es) before r e =
      run-Asked g es (if k == g then some name else before) (apply lower (to_get k name) r) (
        ap name_of (find-set k g (record { name = lower name; phase = called }) r.getters)
        ∙ asked-get (k == g) name before (find g r.getters) e)
  run-Asked g (to_register name factory ∷ es) before r e =
      run-Asked g es before (register_found name factory (lookup name r.factories) r) (
        ap (λ t. name_of (find g t)) (register-getters name factory (lookup name r.factories) r)
        ∙ e)
  run-Asked g (to_advance works k ∷ es) before r e =
      run-Asked g es before (advance_found works k (find k r.getters) r)
        (advance-name works g k (find k r.getters) r refl ∙ e)
  run-Asked g (to_close ∷ es) before r e = run-Asked g es before (close_plugins r) e

  -- In every run, also where calls run at the same time: two calls of `GetPlugin`, whose names are equal in lower case,
  -- that return a plugin, return the same one.
  pub get_plugin-same :
      (es : List Event) (g h : ℕ) (a b : String) (x y : Getter) (p q : ℕ)
      → asked g es none ≡ some a
      → asked h es none ≡ some b
      → lower a ≡ lower b
      → find g (run lower es new_registry).getters ≡ some x
      → find h (run lower es new_registry).getters ≡ some y
      → x.phase ≡ returned p
      → y.phase ≡ returned q
      → p ≡ q
  unfolding find
  get_plugin-same es g h a b x y p q asked_g asked_h same found_g found_h returned_g returned_h =
      let all = run-shared es new_registry (λ k getter found. cc) in
      let x_named : x.name ≡ lower a = some_injective (
        sym (ap name_of found_g)
        ∙ run-Asked g es none new_registry refl
        ∙ ap (lowered lower) asked_g) in
      let y_named : y.name ≡ lower b = some_injective (
        sym (ap name_of found_h)
        ∙ run-Asked h es none new_registry refl
        ∙ ap (lowered lower) asked_h) in
      let stored = (run lower es new_registry).plugins in
      let at_x : lookup x.name stored ≡ some p =
        subst (SharedAt stored x.name) returned_g (all g x found_g) in
      let at_y : lookup y.name stored ≡ some q =
        subst (SharedAt stored y.name) returned_h (all h y found_h) in
      some_injective (sym at_x ∙ ap (λ n. lookup n stored) (x_named ∙ same ∙ sym y_named) ∙ at_y)
