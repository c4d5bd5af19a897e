-- ===== src/Dm/Format/Laws.antt =====
-- dmcontext/format.go: the calls that a conversion makes of itself end.
use jopa.Common.{
  ℕ, zero, suc, String, false, leb, Option, none, some, List, [], ◌∷◌, ◌≡◌, refl, ap, arith,
}
use jopa.Common.Dict.{Dict, lookup, insert}
use jopa.Common.Int.{pos}
use jopa.Common.Outcome.{Outcome, ok, err, panic, ◌>>=◌}
use jopa.Dm.Format.{
  Failure, length_out_of_range, EnumValue, ArrayType, ObjectType, Args, format_args, array_args,
  enum_args, object_args, other_args, Values, Convert, fail_when, out_of_range, convert_items,
  parse_array, find_name, parse_enum, convert_fields, parse_map, parse_object, parse_with,
  parse_value, array_type_of, enum_type_of, convert_found, unsupported_value_type,
}

next_ext :
    {E A B : Type 0} (m : Outcome E A) (f g : A → Outcome E B)
    → ((a : A) → f a ≡ g a)
    → (m >>= f) ≡ (m >>= g)
next_ext panic f g h = refl
next_ext (err e) f g h = refl
next_ext (ok a) f g h = h a

-- The arguments that the parts of a value are converted with.
abbrev Flat : Args → Type 0
Flat (format_args f) = Unit
Flat other_args = Unit
Flat _ = ⊥

no_room : (n : ℕ) → leb (suc n) 0 ≡ false
no_room n = ground arith

module _ {V T : Type 0} (r : Values V T) where
  -- Two functions that convert parts the same way.
  abbrev Agree : Convert r → Convert r → Type 0
  Agree c1 c2 =
      (typ : String) (value : V) (args : Args) → Flat args → c1 typ value args ≡ c2 typ value args

  -- An array without the type of its items is empty, so no item is converted.
  no_items :
      (c1 c2 : Convert r) (t : ArrayType) (value : V) (n : ℕ)
      → t.max ≡ pos 0
      → (fail_when r (out_of_range r t n) length_out_of_range >>= λ done.
          convert_items r c1 t value n 0)
        ≡ (fail_when r (out_of_range r t n) length_out_of_range >>= λ done.
            convert_items r c2 t value n 0)
  unfolding convert_items
  no_items c1 c2 t value zero h = refl
  no_items c1 c2 t value (suc n) h = rw (h, no_room n) refl

  array-Flat :
      (c1 c2 : Convert r) (value : V) (args : Args)
      → Flat args
      → parse_array r c1 value args ≡ parse_array r c2 value args
  unfolding parse_array
  array-Flat c1 c2 value (format_args f) flat =
      next_ext (r.len value) _ _
        (λ n. no_items c1 c2 (array_type_of r (format_args f)) value n refl)
  array-Flat c1 c2 value other_args flat =
      next_ext (r.len value) _ _ (λ n. no_items c1 c2 (array_type_of r other_args) value n refl)
  array-Flat c1 c2 value (array_args t) flat = absurd flat
  array-Flat c1 c2 value (enum_args t) flat = absurd flat
  array-Flat c1 c2 value (object_args t) flat = absurd flat

  enum-Flat :
      (c1 c2 : Convert r) (value : V) (args : Args)
      → Flat args
      → parse_enum r c1 value args ≡ parse_enum r c2 value args
  unfolding parse_enum
  enum-Flat c1 c2 value (format_args f) flat = refl
  enum-Flat c1 c2 value other_args flat = refl
  enum-Flat c1 c2 value (array_args t) flat = absurd flat
  enum-Flat c1 c2 value (enum_args t) flat = absurd flat
  enum-Flat c1 c2 value (object_args t) flat = absurd flat

  map-Flat :
      (c1 c2 : Convert r) (m : Option (Dict V)) (args : Args)
      → Flat args
      → parse_map r c1 m args ≡ parse_map r c2 m args
  unfolding parse_map
  map-Flat c1 c2 none args flat = refl
  map-Flat c1 c2 (some m) (format_args f) flat = refl
  map-Flat c1 c2 (some m) other_args flat = refl
  map-Flat c1 c2 (some m) (array_args t) flat = absurd flat
  map-Flat c1 c2 (some m) (enum_args t) flat = absurd flat
  map-Flat c1 c2 (some m) (object_args t) flat = absurd flat

  -- Equal conversions of a text, an array, an enumeration and an object give equal conversions.
  with_parts :
      (c1 c2 : Convert r) (typ : String) (value : V) (args : Args)
      → parse_array r c1 value args ≡ parse_array r c2 value args
      → parse_enum r c1 value args ≡ parse_enum r c2 value args
      → parse_object r c1 value args ≡ parse_object r c2 value args
      → parse_with r c1 typ value args ≡ parse_with r c2 typ value args
  unfolding parse_with
  with_parts c1 c2 typ value args e1 e2 e3 = rw (e1, e2, e3) refl

  with-Flat : (c1 c2 : Convert r) → Agree (parse_with r c1) (parse_with r c2)
  unfolding parse_object
  with-Flat c1 c2 typ value args flat =
      with_parts c1 c2 typ value args (array-Flat c1 c2 value args flat)
        (enum-Flat c1 c2 value args flat) (map-Flat c1 c2 (r.as_map value) args flat)

  items-Agree :
      (c1 c2 : Convert r)
      → Agree c1 c2
      → (t : ArrayType) (value : V) (n i : ℕ)
      → convert_items r c1 t value n i ≡ convert_items r c2 t value n i
  unfolding convert_items
  items-Agree c1 c2 agree t value zero i = refl
  items-Agree c1 c2 agree t value (suc n) i = rw (items-Agree c1 c2 agree t value n (suc i)) (
      next_ext (r.index value i) _ _ (λ item.
        ap
          (λ o. o >>= λ parsed. convert_items r c2 t value n (suc i) >>= λ more. ok (parsed ∷ more))
          (agree t.array_type item (format_args t.format) tt)))

  names-Agree :
      (c1 c2 : Convert r)
      → Agree c1 c2
      → (typ : String) (vs : List EnumValue) (value : V)
      → find_name r c1 typ vs value ≡ find_name r c2 typ vs value
  unfolding find_name
  names-Agree c1 c2 agree typ [] value = refl
  names-Agree c1 c2 agree typ (v ∷ vs) value =
      rw (names-Agree c1 c2 agree typ vs value, agree typ (r.of_text v.value) other_args tt) refl

  found-Agree :
      (c1 c2 : Convert r)
      → Agree c1 c2
      → (t : ObjectType) (key : String) (parsed : Dict V)
        (next1 next2 : Dict V → Outcome Failure (Dict V))
      → ((more : Dict V) → next1 more ≡ next2 more)
      → (found : Option V)
      → convert_found r c1 t key parsed next1 found ≡ convert_found r c2 t key parsed next2 found
  found-Agree c1 c2 agree t key parsed next1 next2 h none = h parsed
  found-Agree c1 c2 agree t key parsed next1 next2 h (some value) =
      rw (agree t.object_type value (format_args t.format) tt) (
        next_ext (c2 t.object_type value (format_args t.format)) _ _ (λ v. h (insert key v parsed)))

  fields-Agree :
      (c1 c2 : Convert r)
      → Agree c1 c2
      → (types : Dict ObjectType) (origin parsed : Dict V)
      → convert_fields r c1 types origin parsed ≡ convert_fields r c2 types origin parsed
  unfolding convert_fields
  fields-Agree c1 c2 agree [] origin parsed = refl
  fields-Agree c1 c2 agree ((key, t) ∷ types) origin parsed =
      found-Agree c1 c2 agree t key parsed _ _ (λ more. fields-Agree c1 c2 agree types origin more)
        (lookup key origin)

  object-Agree :
      (c1 c2 : Convert r)
      → Agree c1 c2
      → (m : Option (Dict V)) (args : Args) → parse_map r c1 m args ≡ parse_map r c2 m args
  unfolding parse_map
  object-Agree c1 c2 agree none args = refl
  object-Agree c1 c2 agree (some m) (object_args types) = fields-Agree c1 c2 agree types m []
  object-Agree c1 c2 agree (some m) (format_args f) = refl
  object-Agree c1 c2 agree (some m) other_args = refl
  object-Agree c1 c2 agree (some m) (array_args t) = refl
  object-Agree c1 c2 agree (some m) (enum_args t) = refl

  array-Agree :
      (c1 c2 : Convert r)
      → Agree c1 c2
      → (value : V) (args : Args) → parse_array r c1 value args ≡ parse_array r c2 value args
  unfolding parse_array
  array-Agree c1 c2 agree value args = next_ext _ _ _ (λ refused.
      next_ext (fail_when r refused unsupported_value_type) _ _ (λ done.
        next_ext (r.len value) _ _ (λ n.
          next_ext (fail_when r (out_of_range r (array_type_of r args) n) length_out_of_range) _ _
            (λ done. items-Agree c1 c2 agree (array_type_of r args) value n 0))))

  enum-Agree :
      (c1 c2 : Convert r)
      → Agree c1 c2
      → (value : V) (args : Args) → parse_enum r c1 value args ≡ parse_enum r c2 value args
  unfolding parse_enum
  enum-Agree c1 c2 agree value args = next_ext _ _ _ (λ refused.
      next_ext (fail_when r refused unsupported_value_type) _ _ (λ done.
        names-Agree c1 c2 agree (enum_type_of r args).enum_type (enum_type_of r args).values value))

  with-Agree :
      (c1 c2 : Convert r)
      → Agree c1 c2
      → (typ : String) (value : V) (args : Args)
      → parse_with r c1 typ value args ≡ parse_with r c2 typ value args
  unfolding parse_object
  with-Agree c1 c2 agree typ value args =
      with_parts c1 c2 typ value args (array-Agree c1 c2 agree value args)
        (enum-Agree c1 c2 agree value args) (object-Agree c1 c2 agree (r.as_map value) args)

  -- A conversion calls itself at most one level deep: whatever the calls from the second level on would come to, a value,
  -- an error or a panic, they are not made, so that with two levels every value, type and arguments give the one result
  -- that they give with any number of further levels and any other outcome of the calls below them. The parts of an
  -- array, an enumeration and an object are converted with a format alone, and without the type of an array or of an
  -- enumeration there is no part.
  pub parse_value-depth :
      (deeper other : Convert r) (depth : ℕ) (typ : String) (value : V) (args : Args)
      → parse_value r deeper (suc (suc depth)) typ value args ≡ parse_value r other 2 typ value args
  unfolding parse_value
  parse_value-depth deeper other depth typ value args =
      with-Agree (parse_value r deeper (suc depth)) (parse_value r other 1)
        (λ typ1 value1 args1 flat.
          with-Flat (parse_value r deeper depth) (parse_value r other 0) typ1 value1 args1 flat)
        typ value args
