-- ===== src/Dm/Format.antt =====
-- dmcontext/format.go: the conversion of a value to the type of its property. A value is an `interface{}`, of which
-- reflect, the type assertions and the library cast tell what the parameter `Values` has.
pub mod Laws
pub mod Parts
pub mod Kinds
mod Samples
use jopa.Common.{
  ℕ, zero, suc, String, Bool, true, false, not, ◌||◌, ◌&&◌, ◌==ₛ◌, ltb, leb, Option, none, some,
  List, [], ◌∷◌, ◌++◌, if◌then◌else◌,
}
use jopa.Common.Dict.{Dict, lookup, insert}
use jopa.Common.Int.{ℤ, pos, leb_ℤ}
use jopa.Common.Outcome.{Outcome, ok, err, panic, ◌>>=◌}

pub data Failure : Type 0 where
  unsupported_type unsupported_value_type length_out_of_range no_matching_value cast_failed :
      Failure

pub record EnumValue : Type 0 where
  pub name : String
  pub value : String

pub record EnumType : Type 0 where
  pub enum_type : String
  pub values : List EnumValue

pub record ArrayType : Type 0 where
  pub array_type : String
  pub min : ℤ
  pub max : ℤ
  pub format : String

pub record ObjectType : Type 0 where
  pub object_type : String
  pub format : String

-- What the arguments are asserted to be.
pub data Args : Type 0 where
  format_args : String → Args
  array_args : ArrayType → Args
  enum_args : EnumType → Args
  object_args : Dict ObjectType → Args
  other_args : Args

-- `type_name`, `is_array`, `len` and `index` are of reflect, and panic at a value that has no such thing; `equal` is `==` of
-- two interfaces. `parse_layout` is `time.ParseInLocation`, and `cast` the conversions of the library, by their type.
pub record Values (V T : Type 0) : Type 0 where
  pub type_name : V → Outcome Failure String
  pub is_array : V → Outcome Failure Bool
  pub len : V → Outcome Failure ℕ
  pub index : V → ℕ → Outcome Failure V
  pub as_text : V → Option String
  pub as_time : V → Option T
  pub as_map : V → Option (Dict V)
  pub of_text : String → V
  pub of_items : List V → V
  pub of_map : Dict V → V
  pub equal : V → V → Outcome Failure Bool
  pub parse_layout : String → String → Option T
  pub format_time : T → String → String
  pub cast : String → V → Outcome Failure V
  pub to_lower : String → String

abbrev pub time_formats : Dict String
time_formats =
    ("yyyy-mm-dd", "2006-01-02")
    ∷ ("yyyy.mm.dd", "2006.01.02")
    ∷ ("yyyy/mm/dd", "2006/01/02")
    ∷ ("mm-dd-yyyy", "06-01-2020")
    ∷ ("hh:mm:ss", "15:04:05")
    ∷ ("HH:MM:SS", "15:04:05")
    ∷ []

abbrev pub parse_layouts : List String
parse_layouts =
    "2006-01-02" ∷ "2006.01.02" ∷ "2006/01/02" ∷ "15:04:05" ∷ "15-04-05" ∷ "15.04.05" ∷ []

-- The types that the library converts to.
abbrev pub is_cast : String → Bool
is_cast typ =
    typ ==ₛ "int"
    || typ ==ₛ "int16"
    || typ ==ₛ "int32"
    || typ ==ₛ "int64"
    || typ ==ₛ "float32"
    || typ ==ₛ "float64"
    || typ ==ₛ "bool"
    || typ ==ₛ "string"

module _ {V T : Type 0} (r : Values V T) where
  -- A failed type assertion without `ok` panics.
  abbrev pub asserted : {A : Type 0} → Option A → Outcome Failure A
  asserted none = panic
  asserted (some a) = ok a

  -- The first layout that the text has.
  unfoldable pub first_layout : List String → String → Outcome Failure T
  first_layout [] val = err unsupported_value_type
  first_layout (layout ∷ layouts) val =
      let rest = first_layout layouts val in
      elim (r.parse_layout layout val) [ some t ↦ ok t | none ↦ rest ]

  unfoldable pub format_by : String → V → String → Outcome Failure String
  unfolding first_layout
  format_by name value time_format =
      let of_string = asserted (r.as_text value) >>= λ val.
      first_layout parse_layouts val >>= λ t. ok (r.format_time t time_format) in
      let of_time = asserted (r.as_time value) >>= λ t. ok (r.format_time t time_format) in
      if name ==ₛ "string"
      then of_string
      else if name ==ₛ "Time"
      then of_time
      else err unsupported_value_type

  parse_time_as : V → Option String → Outcome Failure String
  unfolding format_by
  parse_time_as value none = err unsupported_value_type
  parse_time_as value (some time_format) =
      r.type_name value >>= λ name. format_by name value time_format

  -- `parseTime`
  unfoldable pub parse_time : V → Args → Outcome Failure String
  unfolding parse_time_as lookup
  parse_time value (format_args format) =
      parse_time_as value (lookup (r.to_lower format) time_formats)
  parse_time value _ = err unsupported_value_type

  -- Without the arguments of an array its type is the zero value.
  abbrev pub array_type_of : Args → ArrayType
  array_type_of (array_args t) = t
  array_type_of _ = record { array_type = ""; min = pos 0; max = pos 0; format = "" }

  abbrev pub is_array_args : Args → Bool
  is_array_args (array_args t) = true
  is_array_args _ = false

  abbrev pub enum_type_of : Args → EnumType
  enum_type_of (enum_args t) = t
  enum_type_of _ = record { enum_type = ""; values = [] }

  -- `ok && ...`, where the value is looked at only when `ok` holds.
  abbrev pub and_then : Bool → Outcome Failure Bool → Outcome Failure Bool
  and_then false o = ok false
  and_then true o = o

  abbrev pub fail_when : Bool → Failure → Outcome Failure (Unit {0})
  fail_when true e = err e
  fail_when false e = ok tt

  -- The conversion of a part of the value.
  abbrev pub Convert : Type 0
  Convert = String → V → Args → Outcome Failure V

  -- The loop over an array, with the number of rounds that are left, and the index.
  unfoldable pub convert_items : Convert → ArrayType → V → ℕ → ℕ → Outcome Failure (List V)
  convert_items convert t value zero i = ok []
  convert_items convert t value (suc rounds) i =
      let rest = convert_items convert t value rounds (suc i) in
      r.index value i >>= λ item. convert t.array_type item (format_args t.format) >>= λ parsed.
      rest >>= λ more. ok (parsed ∷ more)

  abbrev pub out_of_range : ArrayType → ℕ → Bool
  out_of_range t n = not (leb_ℤ (pos n) t.max) || not (leb_ℤ t.min (pos n))

  -- `parseArray`
  unfoldable pub parse_array : Convert → V → Args → Outcome Failure (List V)
  unfolding convert_items
  parse_array convert value args =
      and_then (is_array_args args) (r.is_array value >>= λ b. ok (not b)) >>= λ refused.
      fail_when refused unsupported_value_type >>= λ done. r.len value >>= λ n.
      fail_when (out_of_range (array_type_of args) n) length_out_of_range >>= λ done.
      convert_items convert (array_type_of args) value n 0

  -- The name of the first value of an enumeration that is equal.
  unfoldable pub find_name : Convert → String → List EnumValue → V → Outcome Failure String
  find_name convert typ [] value = err no_matching_value
  find_name convert typ (v ∷ vs) value =
      let rest = find_name convert typ vs value in
      convert typ (r.of_text v.value) other_args >>= λ enum_value.
      r.equal enum_value value >>= λ same. if same then ok v.name else rest

  abbrev pub is_enum_args : Args → Bool
  is_enum_args (enum_args t) = true
  is_enum_args _ = false

  -- `parseEnum`
  unfoldable pub parse_enum : Convert → V → Args → Outcome Failure String
  unfolding find_name
  parse_enum convert value args =
      let t = enum_type_of args in
      and_then (is_enum_args args) (r.type_name value >>= λ name. ok (not (name ==ₛ t.enum_type)))
      >>= λ refused. fail_when refused unsupported_value_type >>= λ done.
          find_name convert t.enum_type t.values value

  -- A key of an object, with its value and the rounds that follow; a key without a value is passed over.
  abbrev pub convert_found :
      Convert
      → ObjectType
      → String
      → Dict V
      → (Dict V → Outcome Failure (Dict V))
      → Option V
      → Outcome Failure (Dict V)
  convert_found convert t key parsed next none = next parsed
  convert_found convert t key parsed next (some value) =
      convert t.object_type value (format_args t.format) >>= λ v. next (insert key v parsed)

  -- The loop over the types of an object.
  unfoldable pub convert_fields :
      Convert → Dict ObjectType → Dict V → Dict V → Outcome Failure (Dict V)
  unfolding lookup
  convert_fields convert [] origin parsed = ok parsed
  convert_fields convert ((key, t) ∷ types) origin parsed =
      convert_found convert t key parsed (λ more. convert_fields convert types origin more)
        (lookup key origin)

  -- `parseObject`
  parse_map : Convert → Option (Dict V) → Args → Outcome Failure (Dict V)
  unfolding convert_fields
  parse_map convert (some origin) (object_args types) = convert_fields convert types origin []
  parse_map convert _ _ = err unsupported_value_type

  unfoldable pub parse_object : Convert → V → Args → Outcome Failure (Dict V)
  unfolding parse_map
  parse_object convert value args = parse_map convert (r.as_map value) args

  -- One call of `ParseValue`, with the calls that it makes of itself.
  unfoldable pub parse_with : Convert → Convert
  unfolding parse_time parse_array parse_enum parse_object
  parse_with convert typ value args =
      if is_cast typ
      then r.cast typ value
      else if typ ==ₛ "date" || typ ==ₛ "time"
      then (parse_time value args >>= λ s. ok (r.of_text s))
      else if typ ==ₛ "array"
      then (parse_array convert value args >>= λ items. ok (r.of_items items))
      else if typ ==ₛ "enum"
      then (parse_enum convert value args >>= λ s. ok (r.of_text s))
      else if typ ==ₛ "object"
      then (parse_object convert value args >>= λ m. ok (r.of_map m))
      else err unsupported_type

  -- `ParseValue`, of calls up to a depth; `deeper` is what the calls below that depth come to.
  unfoldable pub parse_value : Convert → ℕ → Convert
  unfolding parse_with
  parse_value deeper zero typ value args = deeper typ value args
  parse_value deeper (suc depth) typ value args =
      parse_with (parse_value deeper depth) typ value args
