-- ===== src/Dm/Format/Parts.antt =====
-- dmcontext/format.go: what times, arrays and enumerations are converted to.
use jopa.Common.{
  ℕ, zero, suc, String, Bool, true, false, not, ◌||◌, ◌==ₛ◌, length, Option, none, some, List, [],
  ◌∷◌, if◌then◌else◌, ◌≡◌, refl, ap, sym, ◌∙◌, subst, arith, ◌⊎◌, inl, inr,
}
use jopa.Common.Dict.{Dict, lookup}
use jopa.Common.Int.{pos, leb_ℤ}
use jopa.Common.Outcome.{Outcome, ok, ◌>>=◌, >>=-eq-ok, ok_injective}
use jopa.Dm.Format.{
  Failure, length_out_of_range, unsupported_value_type, EnumValue, ArrayType, ObjectType, Args,
  format_args, array_args, enum_args, object_args, other_args, Values, Convert, fail_when, and_then,
  is_array_args, is_enum_args, out_of_range, convert_items, parse_array, find_name, parse_enum,
  array_type_of, enum_type_of, time_formats, parse_time, parse_time_as, format_by, asserted,
  first_layout, parse_layouts,
}

-- A member of a list.
abbrev pub In : {A : Type 0} → A → List A → Type 0
In a [] = ⊥
In a (b ∷ bs) = (a ≡ b) ⊎ In a bs

passed :
    {V T : Type 0} (r : Values V T) (b : Bool) (e : Failure) (u : Unit {0})
    → fail_when r b e ≡ ok u
    → b ≡ false
passed r true e u h = cc
passed r false e u h = refl

both_in : (a b : Bool) → (not a || not b) ≡ false → (a ≡ true) × (b ≡ true)
both_in a b h = (ground arith, ground arith)

-- Which branch gave the result.
pub branch :
    {A : Type 0} (b : Bool) (m n : Outcome Failure A) {a : A}
    → (if b then m else n) ≡ ok a
    → ((b ≡ true) × (m ≡ ok a)) ⊎ ((b ≡ false) × (n ≡ ok a))
branch true m n h = inl (refl, h)
branch false m n h = inr (refl, h)

module _ {V T : Type 0} (r : Values V T) (parts : Convert r) where
  -- A text of a time in a format that is known.
  abbrev pub TimeText : Args → V → Type 0
  TimeText args v =
      (format layout : String) × (t : T) × (args ≡ format_args format)
      × (lookup (r.to_lower format) time_formats ≡ some layout)
      × (v ≡ r.of_text (r.format_time t layout))

  -- The items of the value from an index on, each converted to the type of the array.
  abbrev pub Items : ArrayType → V → ℕ → List V → Type 0
  Items t value i [] = Unit
  Items t value i (y ∷ ys) =
      ((item : V) × (r.index value i ≡ ok item)
        × (parts t.array_type item (format_args t.format) ≡ ok y))
      × Items t value (suc i) ys

  abbrev pub ArrayOf : V → Args → V → Type 0
  ArrayOf value args v =
      (items : List V) × (r.len value ≡ ok (length items))
      × (leb_ℤ (pos (length items)) (array_type_of r args).max ≡ true)
      × (leb_ℤ (array_type_of r args).min (pos (length items)) ≡ true)
      × (v ≡ r.of_items items)
      × Items (array_type_of r args) value 0 items

  -- The name of a value of the enumeration that is equal.
  abbrev pub EnumOf : V → Args → V → Type 0
  EnumOf value args v =
      (e : EnumValue) × (u : V) × In e (enum_type_of r args).values
      × (parts (enum_type_of r args).enum_type (r.of_text e.value) other_args ≡ ok u)
      × (r.equal u value ≡ ok true)
      × (v ≡ r.of_text e.name)

  -- Every key is one of the type and of the value, and holds what its value converts to.
  abbrev pub Fields : Dict ObjectType → Dict V → Dict V → Type 0
  Fields types origin m =
      (key : String) (w : V)
      → lookup key m ≡ some w
      → (t : ObjectType) × (u : V) × In (key, t) types
        × (lookup key origin ≡ some u)
        × (parts t.object_type u (format_args t.format) ≡ ok w)

  abbrev pub ObjectOf : V → Args → V → Type 0
  ObjectOf value args v =
      (types : Dict ObjectType) × (origin m : Dict V) × (args ≡ object_args types)
      × (r.as_map value ≡ some origin)
      × (v ≡ r.of_map m)
      × Fields types origin m

  time_formatted :
      (o : Outcome Failure T) (l s : String)
      → (o >>= λ t. ok (r.format_time t l)) ≡ ok s
      → (t : T) × (s ≡ r.format_time t l)
  time_formatted o l s h = let (t, found, made) = >>=-eq-ok o _ h in (t, sym (ok_injective made))

  text_formatted :
      (val : Option String) (l s : String)
      → (asserted r val >>= λ text.
          first_layout r parse_layouts text >>= λ t. ok (r.format_time t l))
        ≡ ok s
      → (t : T) × (s ≡ r.format_time t l)
  text_formatted none l s h = cc
  text_formatted (some text) l s h = time_formatted (first_layout r parse_layouts text) l s h

  format_by-time :
      (name : String) (value : V) (l s : String)
      → format_by r name value l ≡ ok s
      → (t : T) × (s ≡ r.format_time t l)
  unfolding format_by
  format_by-time name value l s h = elim (branch (name ==ₛ "string") _ _ h) [
    | inl (is_string, e) ↦ text_formatted (r.as_text value) l s e
    | inr (not_string, e) ↦ elim (branch (name ==ₛ "Time") _ _ e) [
      | inl (is_time, e2) ↦ time_formatted (asserted r (r.as_time value)) l s e2
      | inr (not_time, e2) ↦ cc
    ]
  ]

  time_as-layout :
      (layout : Option String) (value : V) (s : String)
      → parse_time_as r value layout ≡ ok s
      → (l : String) × (t : T) × (layout ≡ some l) × (s ≡ r.format_time t l)
  unfolding parse_time_as
  time_as-layout none value s h = cc
  time_as-layout (some l) value s h =
      let (name, named, h2) = >>=-eq-ok (r.type_name value) _ h in
      let (t, e) = format_by-time name value l s h2 in (l, t, refl, e)

  pub time-TimeText :
      (value : V) (args : Args) (s : String)
      → parse_time r value args ≡ ok s
      → TimeText args (r.of_text s)
  unfolding parse_time
  time-TimeText value (format_args f) s h =
      let (l, t, known, e) = time_as-layout (lookup (r.to_lower f) time_formats) value s h in
      (f, l, t, refl, known, ap r.of_text e)
  time-TimeText value (array_args t) s h = cc
  time-TimeText value (enum_args t) s h = cc
  time-TimeText value (object_args t) s h = cc
  time-TimeText value other_args s h = cc

  items-Items :
      (t : ArrayType) (value : V) (n i : ℕ) (items : List V)
      → convert_items r parts t value n i ≡ ok items
      → (n ≡ length items) × Items t value i items
  unfolding convert_items
  items-Items t value zero i items h =
      subst (λ ys. (zero ≡ length ys) × Items t value i ys) (ok_injective h) (refl, tt)
  items-Items t value (suc n) i items h =
      let (item, found, h2) = >>=-eq-ok (r.index value i) _ h in
      let (parsed, converted, h3) =
        >>=-eq-ok (parts t.array_type item (format_args t.format)) _ h2 in
      let (more, rest, h4) = >>=-eq-ok (convert_items r parts t value n (suc i)) _ h3 in
      let (count, each) = items-Items t value n (suc i) more rest in
      subst (λ ys. (suc n ≡ length ys) × Items t value i ys) (ok_injective h4)
        (ap suc count, ((item, found, converted), each))

  pub array-ArrayOf :
      (value : V) (args : Args) (items : List V)
      → parse_array r parts value args ≡ ok items
      → ArrayOf value args (r.of_items items)
  unfolding parse_array
  array-ArrayOf value args items h =
      let (refused, asked, h2) =
        >>=-eq-ok (and_then r (is_array_args r args) (r.is_array value >>= λ b. ok (not b))) _ h in
      let (u, may, h3) = >>=-eq-ok (fail_when r refused unsupported_value_type) _ h2 in
      let (n, counted, h4) = >>=-eq-ok (r.len value) _ h3 in
      let (u2, inside, h5) =
        >>=-eq-ok (fail_when r (out_of_range r (array_type_of r args) n) length_out_of_range) _
          h4 in
      let (same_length, each) = items-Items (array_type_of r args) value n 0 items h5 in
      let (high, low) =
        both_in (leb_ℤ (pos n) (array_type_of r args).max)
          (leb_ℤ (array_type_of r args).min (pos n)) (passed r _ _ u2 inside) in
      (
        items,
        counted ∙ ap ok same_length,
        subst (λ m. leb_ℤ (pos m) (array_type_of r args).max ≡ true) same_length high,
        subst (λ m. leb_ℤ (array_type_of r args).min (pos m) ≡ true) same_length low,
        refl,
        each,
      )

  name-EnumOf :
      (typ : String) (es : List EnumValue) (value : V) (s : String)
      → find_name r parts typ es value ≡ ok s
      → (e : EnumValue) × (u : V) × In e es
        × (parts typ (r.of_text e.value) other_args ≡ ok u)
        × (r.equal u value ≡ ok true)
        × (s ≡ e.name)
  unfolding find_name
  name-EnumOf typ [] value s h = cc
  name-EnumOf typ (e ∷ es) value s h =
      let (u, converted, h2) = >>=-eq-ok (parts typ (r.of_text e.value) other_args) _ h in
      let (same, compared, h3) = >>=-eq-ok (r.equal u value) _ h2 in
      elim (branch same _ _ h3) [
        | inl (is_same, found) ↦
            (e, u, inl refl, converted, compared ∙ ap ok is_same, sym (ok_injective found))
        | inr (differs, later) ↦
            let (e2, u2, member, converted2, same2, named) = name-EnumOf typ es value s later in
            (e2, u2, inr member, converted2, same2, named)
      ]

  pub enum-EnumOf :
      (value : V) (args : Args) (s : String)
      → parse_enum r parts value args ≡ ok s
      → EnumOf value args (r.of_text s)
  unfolding parse_enum
  enum-EnumOf value args s h =
      let (refused, asked, h2) =
        >>=-eq-ok
          (and_then r (is_enum_args r args)
            (r.type_name value >>= λ name. ok (not (name ==ₛ (enum_type_of r args).enum_type))))
          _ h in
      let (u, may, h3) = >>=-eq-ok (fail_when r refused unsupported_value_type) _ h2 in
      let (e, v, member, converted, same, named) =
        name-EnumOf (enum_type_of r args).enum_type (enum_type_of r args).values value s h3 in
      (e, v, member, converted, same, ap r.of_text named)
