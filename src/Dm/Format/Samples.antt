-- ===== src/Dm/Format/Samples.antt =====
-- Conversions of concrete values, which are texts, numbers, and arrays and objects of numbers. A time is its text.
use jopa.Common.{
  ℕ, zero, suc, String, Bool, true, false, ◌==◌, ◌==ₛ◌, if◌then◌else◌, length, map, Option, none,
  some, List, [], ◌∷◌, ◌≡◌, refl,
}
use jopa.Common.Dict.{Dict, insert}
use jopa.Common.Int.{pos}
use jopa.Common.Outcome.{Outcome, ok, err, panic}
use jopa.Dm.Format.{
  Failure, cast_failed, length_out_of_range, Args, format_args, array_args, enum_args, object_args,
  Values, Convert, parse_value,
}
use jopa.Dm.Format.Laws.{parse_value-depth}
use jopa.Dm.Format.Kinds.{Conforms, parse_value-Conforms}

pub data Any : Type 0 where
  text : String → Any
  number : ℕ → Any
  array : List ℕ → Any
  object : Dict ℕ → Any

abbrev name_of : Any → Outcome Failure String
name_of (text s) = ok "string"
name_of (number n) = ok "int"
name_of _ = ok ""

abbrev array_kind : Any → Outcome Failure Bool
array_kind (array ns) = ok true
array_kind _ = ok false

abbrev len_of : Any → Outcome Failure ℕ
len_of (array ns) = ok (length ns)
len_of _ = panic

abbrev nth : List ℕ → ℕ → Outcome Failure Any
nth [] i = panic
nth (n ∷ ns) zero = ok (number n)
nth (n ∷ ns) (suc i) = nth ns i

abbrev index_of : Any → ℕ → Outcome Failure Any
index_of (array ns) i = nth ns i
index_of _ i = panic

abbrev text_of : Any → Option String
text_of (text s) = some s
text_of _ = none

abbrev numbered : Dict ℕ → Dict Any
numbered [] = []
numbered ((k, n) ∷ m) = (k, number n) ∷ numbered m

abbrev map_of : Any → Option (Dict Any)
map_of (object m) = some (numbered m)
map_of _ = none

abbrev value_of : Any → ℕ
value_of (number n) = n
value_of _ = 0

abbrev equal_to : Any → Any → Outcome Failure Bool
equal_to (text s) (text t) = ok (s ==ₛ t)
equal_to (number m) (number n) = ok (m == n)
equal_to _ _ = ok false

abbrev values_of : Dict Any → Dict ℕ
values_of [] = []
values_of ((k, v) ∷ m) = (k, value_of v) ∷ values_of m

abbrev cast_to : String → Any → Outcome Failure Any
cast_to typ (number n) = ok (number n)
cast_to typ v = if typ ==ₛ "string" then ok v else err cast_failed

abbrev any : Values Any String
any = record {
  type_name = name_of;
  is_array = array_kind;
  len = len_of;
  index = index_of;
  as_text = text_of;
  as_time = λ v. none;
  as_map = map_of;
  of_text = text;
  of_items = λ items. array (map value_of items);
  of_map = λ m. object (values_of m);
  equal = equal_to;
  parse_layout = λ layout s. if layout ==ₛ "15:04:05" then some s else none;
  format_time = λ t layout. t;
  cast = cast_to;
  to_lower = λ s. s;
}

-- Two outcomes of the calls that are not made.
abbrev never : Convert any
never typ value args = panic

abbrev always : Convert any
always typ value args = ok value

abbrev two_ints : Args
two_ints = array_args (record { array_type = "int"; min = pos 1; max = pos 2; format = "" })

array_run : parse_value any never 2 "array" (array (3 ∷ 4 ∷ [])) two_ints ≡ ok (array (3 ∷ 4 ∷ []))
unfolding parse_value
array_run = refl

array_too_long :
    parse_value any never 2 "array" (array (3 ∷ 4 ∷ 5 ∷ [])) two_ints ≡ err length_out_of_range
unfolding parse_value
array_too_long = refl

abbrev switch : Args
switch = enum_args (record {
  enum_type = "string";
  values = record { name = "off"; value = "0" } ∷ record { name = "on"; value = "1" } ∷ [];
})

enum_run : parse_value any never 2 "enum" (text "1") switch ≡ ok (text "on")
unfolding parse_value
enum_run = refl

object_run :
    parse_value any never 2 "object" (object (("b", 2) ∷ ("c", 3) ∷ [])) (
      object_args (
        ("a", record { object_type = "int"; format = "" })
        ∷ ("b", record { object_type = "int"; format = "" })
        ∷ []))
    ≡ ok (object (("b", 2) ∷ []))
unfolding parse_value insert
object_run = refl

time_run :
    parse_value any never 2 "time" (text "10:20:30") (format_args "hh:mm:ss") ≡ ok (text "10:20:30")
unfolding parse_value
time_run = refl

parse_value-depth_example :
    parse_value any never 5 "array" (array (3 ∷ 4 ∷ [])) two_ints
    ≡ parse_value any always 2 "array" (array (3 ∷ 4 ∷ [])) two_ints
parse_value-depth_example =
    parse_value-depth any never always 3 "array" (array (3 ∷ 4 ∷ [])) two_ints

parse_value-Conforms_example :
    Conforms any
      (parse_value any never 1)
      "array"
      (array (3 ∷ 4 ∷ []))
      two_ints
      (array (3 ∷ 4 ∷ []))
parse_value-Conforms_example =
    parse_value-Conforms any never 0 "array" (array (3 ∷ 4 ∷ [])) two_ints (array (3 ∷ 4 ∷ []))
      array_run
