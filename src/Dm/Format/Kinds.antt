-- ===== src/Dm/Format/Kinds.antt =====
-- dmcontext/format.go: what the result of a conversion is.
use jopa.Common.{
  ℕ, suc, String, true, ◌||◌, ◌==ₛ◌, ==ₛ_iff, Bool-cases, Option, none, some, [], ◌∷◌, ◌≡◌, refl,
  ap, sym, ◌∙◌, subst, ◌⊎◌, inl, inr,
}
use jopa.Common.Dict.{Dict, lookup, insert, lookup-insert}
use jopa.Common.Outcome.{ok, >>=-eq-ok, ok_injective}
use jopa.Dm.Format.Laws.{parse_value-depth}
use jopa.Dm.Format.{
  ObjectType, Args, format_args, array_args, enum_args, object_args, other_args, Values, Convert,
  parse_array, parse_enum, convert_fields, convert_found, parse_map, parse_object, parse_with,
  parse_value, is_cast, parse_time,
}
use jopa.Dm.Format.Parts.{
  In, TimeText, ArrayOf, EnumOf, Fields, ObjectOf, branch, time-TimeText, array-ArrayOf,
  enum-EnumOf,
}

some_injective : {A : Type 0} {a b : A} → ◌≡◌ {A = Option A} (some a) (some b) → a ≡ b
some_injective e = cc

module _ {V T : Type 0} (r : Values V T) (parts : Convert r) where
  -- A key of the result was there before, or comes from a type of the loop.
  abbrev Came : Dict ObjectType → Dict V → Dict V → String → V → Type 0
  Came types origin parsed key w =
      (lookup key parsed ≡ some w)
      ⊎ ((t : ObjectType) × (u : V) × In (key, t) types
          × (lookup key origin ≡ some u)
          × (parts t.object_type u (format_args t.format) ≡ ok w))

  later-Came :
      (entry : String × ObjectType) (types : Dict ObjectType) (origin parsed : Dict V)
      (key : String) (w : V)
      → Came types origin parsed key w
      → Came (entry ∷ types) origin parsed key w
  later-Came entry types origin parsed key w (inl before) = inl before
  later-Came entry types origin parsed key w (inr (t, u, member, found, converted)) =
      inr (t, u, inr member, found, converted)

  inserted-Came :
      (k : String) (t : ObjectType) (types : Dict ObjectType) (origin parsed : Dict V) (u v : V)
      (key : String) (w : V)
      → lookup k origin ≡ some u
      → parts t.object_type u (format_args t.format) ≡ ok v
      → Came types origin (insert k v parsed) key w
      → Came ((k, t) ∷ types) origin parsed key w
  inserted-Came k t types origin parsed u v key w found converted (inr later) =
      later-Came (k, t) types origin parsed key w (inr later)
  inserted-Came k t types origin parsed u v key w found converted (inl here) =
      let e = sym (lookup-insert k key v parsed) ∙ here in
      elim (Bool-cases (k ==ₛ key)) [
        | inl same ↦
            let k_is = (==ₛ_iff k key).0 same in
            let v_is : v ≡ w = some_injective (rw same at e) in
            inr (
              t,
              u,
              inl (ap (λ x. (x, t)) (sym k_is)),
              ap (λ x. lookup x origin) (sym k_is) ∙ found,
              converted ∙ ap ok v_is,
            )
        | inr other ↦ inl (rw other at e)
      ]

  fields-Came :
      (types : Dict ObjectType) (origin parsed m : Dict V)
      → convert_fields r parts types origin parsed ≡ ok m
      → (key : String) (w : V) → lookup key m ≡ some w
      → Came types origin parsed key w
  unfolding convert_fields
  fields-Came [] origin parsed m h key w there = inl (ap (lookup key) (ok_injective h) ∙ there)
  fields-Came ((k, t) ∷ types) origin parsed m h key w there =
      at_key (lookup k origin) refl h (λ p e. fields-Came types origin p m e key w there)
    where
      at_key :
          (found : Option V)
          → lookup k origin ≡ found
          → convert_found r parts t k parsed
              (λ more. convert_fields r parts types origin more)
              found
            ≡ ok m
          → ((p : Dict V)
              → convert_fields r parts types origin p ≡ ok m
              → Came types origin p key w)
          → Came ((k, t) ∷ types) origin parsed key w
      at_key none e h again = later-Came (k, t) types origin parsed key w (again parsed h)
      at_key (some u) e h again =
          let (v, converted, h2) = >>=-eq-ok (parts t.object_type u (format_args t.format)) _ h in
          inserted-Came k t types origin parsed u v key w e converted (again (insert k v parsed) h2)

  map-Fields :
      (found : Option (Dict V)) (args : Args) (m : Dict V)
      → parse_map r parts found args ≡ ok m
      → (types : Dict ObjectType) × (origin : Dict V) × (args ≡ object_args types)
        × (found ≡ some origin)
        × Fields r parts types origin m
  unfolding parse_map
  map-Fields none args m h = cc
  map-Fields (some origin) (format_args f) m h = cc
  map-Fields (some origin) (array_args t) m h = cc
  map-Fields (some origin) (enum_args t) m h = cc
  map-Fields (some origin) other_args m h = cc
  map-Fields (some origin) (object_args types) m h = (
    types,
    origin,
    refl,
    refl,
    λ key w there. elim (fields-Came types origin [] m h key w there) [
      | inl before ↦ none_before before
      | inr came ↦ came
    ],
  )
    where
      none_before : {A : Type 0} {w : V} → ◌≡◌ {A = Option V} none (some w) → A
      none_before e = cc

  object-ObjectOf :
      (value : V) (args : Args) (m : Dict V)
      → parse_object r parts value args ≡ ok m
      → ObjectOf r parts value args (r.of_map m)
  unfolding parse_object
  object-ObjectOf value args m h =
      let (types, origin, is_args, is_map, fields) = map-Fields (r.as_map value) args m h in
      (types, origin, m, is_args, is_map, refl, fields)

  -- What a result is, by the type that was asked for.
  abbrev pub Conforms : String → V → Args → V → Type 0
  Conforms typ value args v =
      ((is_cast typ ≡ true) × (r.cast typ value ≡ ok v))
      ⊎ (((typ ==ₛ "date" || typ ==ₛ "time") ≡ true) × TimeText r parts args v)
      ⊎ ((typ ≡ "array") × ArrayOf r parts value args v)
      ⊎ ((typ ≡ "enum") × EnumOf r parts value args v)
      ⊎ ((typ ≡ "object") × ObjectOf r parts value args v)

  with-Conforms :
      (typ : String) (value : V) (args : Args) (v : V)
      → parse_with r parts typ value args ≡ ok v
      → Conforms typ value args v
  unfolding parse_with
  with-Conforms typ value args v h = elim (branch (is_cast typ) _ _ h) [
    | inl (kind, e) ↦ inl (kind, e)
    | inr (kind, h2) ↦ elim (branch (typ ==ₛ "date" || typ ==ₛ "time") _ _ h2) [
      | inl (kind2, e) ↦
          let (s, text, made) = >>=-eq-ok (parse_time r value args) _ e in
          inr (
            inl (
              kind2,
              subst (TimeText r parts args) (ok_injective made)
                  (time-TimeText r parts value args s text),
            ))
      | inr (kind2, h3) ↦ elim (branch (typ ==ₛ "array") _ _ h3) [
        | inl (kind3, e) ↦
            let (items, array, made) = >>=-eq-ok (parse_array r parts value args) _ e in
            inr (
              inr (
                inl (
                  (==ₛ_iff typ "array").0 kind3,
                  subst (ArrayOf r parts value args) (ok_injective made)
                      (array-ArrayOf r parts value args items array),
                )))
        | inr (kind3, h4) ↦ elim (branch (typ ==ₛ "enum") _ _ h4) [
          | inl (kind4, e) ↦
              let (s, name, made) = >>=-eq-ok (parse_enum r parts value args) _ e in
              inr (
                inr (
                  inr (
                    inl (
                      (==ₛ_iff typ "enum").0 kind4,
                      subst (EnumOf r parts value args) (ok_injective made)
                          (enum-EnumOf r parts value args s name),
                    ))))
          | inr (kind4, h5) ↦ elim (branch (typ ==ₛ "object") _ _ h5) [
            | inl (kind5, e) ↦
                let (m, object, made) = >>=-eq-ok (parse_object r parts value args) _ e in
                inr (
                  inr (
                    inr (
                      inr (
                        (==ₛ_iff typ "object").0 kind5,
                        subst (ObjectOf r parts value args) (ok_injective made)
                            (object-ObjectOf value args m object),
                      ))))
            | inr (kind5, h6) ↦ cc
          ]
        ]
      ]
    ]
  ]

-- What a value is converted to conforms to the type that was asked for: what the library casts it to; the text of a time in
-- a format that is known; as many items as the value has, within the bounds of the array, each converted to its type; the
-- name of a value of the enumeration that is equal; or an object whose keys are of its type and in the value, each with its
-- value converted. The parts are converted with one level.
pub parse_value-Conforms :
    {V T : Type 0} (r : Values V T) (deeper : Convert r) (depth : ℕ) (typ : String) (value : V)
    (args : Args) (v : V)
    → parse_value r deeper (suc (suc depth)) typ value args ≡ ok v
    → Conforms r (parse_value r deeper 1) typ value args v
unfolding parse_value
parse_value-Conforms r deeper depth typ value args v h =
    with-Conforms r (parse_value r deeper 1) typ value args v
      (sym (parse_value-depth r deeper deeper depth typ value args) ∙ h)
