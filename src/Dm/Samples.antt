-- ===== src/Dm/Samples.antt =====
-- The theorems on dmcontext at concrete expressions, over the field of two elements.
use jopa.Common.{ℕ, Bool, true, false, not, none, some, List, [], ◌∷◌, ◌≡◌, ◌↔◌, refl}
use jopa.Common.Dict.{Dict, insert, lookup}
use jopa.Common.Outcome.{ok}
use jopa.Dm.Expression.{
  Value, int, float64, Floats, Node, ident, basic_lit, paren, binary, add, mul,
}
use jopa.Common.Int.{pos}
use jopa.Dm.Context.{
  Json, number, other, Property, whole, Strconv, DeviceInfo, DeviceProperty, int16_type, Message,
  device_delta, DmCtx, process,
}
use jopa.Dm.Context.Laws.{AtMostOne, process-AtMostOne}
use jopa.Dm.Report.{ModelMapping, ReportProperty, Progress, Order, prop_mapping, report_with_filter}
use jopa.Dm.Report.Laws.{Filtered, report_with_filter_lem}
use jopa.Dm.Report.Passed.{Passed}

xor : Bool → Bool → Bool
xor true b = not b
xor false b = b

and : Bool → Bool → Bool
and true b = b
and false b = false

-- (x + 1) * 1 + 1
abbrev sample : Node
sample =
    binary add (binary mul (paren (binary add (ident "x") (basic_lit "1"))) (basic_lit "1"))
      (basic_lit "1")

abbrev pub two : Floats Bool
unfolding xor and
two = record {
  zero = false;
  one = true;
  plus = xor;
  minus = xor;
  times = and;
  over = and;
  is_zero = not;
  parse_float = λ text. some true;
  of_int = λ n. true;
  widen = λ x. x;
  round_to = λ n x. ok x;
  parse = λ text. some (record { ast = sample; vars = "x" ∷ [] });
  evaluate = λ e args. ok true;
}

abbrev given : Dict (Value Bool ℕ)
given = ("x", int (pos 1)) ∷ []

abbrev pub order : Order Bool
order = record { ge = λ x y. x; hundred = true }

abbrev pub mappings : List (ModelMapping Bool)
mappings = record { attribute = "t"; silent_win = pos 10; deviation = true } ∷ []

-- The property was reported at the time 5, within its silent window, and its value rises from 0 to 1.
abbrev last : Dict (ReportProperty Bool ℕ)
last = ("t", record { time = 5; value = float64 false }) ∷ []

report_with_filter_lem_example :
    (s : Progress Bool ℕ) × (report_with_filter two order 7
        (("tpl", mappings) ∷ [])
        "tpl"
        (("t", float64 true) ∷ [])
        last
      ≡ some s)
    × ((passed : Bool) × ((passed ≡ true)
          ↔ Passed two order 7
              (record { attribute = "t"; silent_win = pos 10; deviation = true })
              (float64 true)
              (lookup "t" last))
        × Filtered two order 7 "t" (float64 true) (record { filtered = []; last = last }) s passed)
unfolding lookup prop_mapping insert
report_with_filter_lem_example =
    report_with_filter_lem two order 7 (("tpl", mappings) ∷ []) "tpl" mappings
      (("t", float64 true) ∷ []) last "t" (float64 true)
      (record { attribute = "t"; silent_win = pos 10; deviation = true }) refl (refl, tt) refl refl

-- A conversion that reads every text as 21, and a device whose model has one integer.
abbrev pub strconv : Strconv ℕ
strconv = record { parse_int = λ s w. ok (pos 21); parse_float = λ s w. ok 0 }

abbrev pub device : DeviceInfo
device = record { name = "d"; device_model = "m"; access_template = "" }

abbrev pub models : Dict (List DeviceProperty)
models = ("m", record { name = "t"; property_type = int16_type } ∷ []) ∷ []

abbrev pub reading : Dict (Json ℕ)
reading = ("t", number "21") ∷ []

abbrev pub parsed : Dict (Property ℕ ℕ)
parsed = ("t", whole 16 (pos 21)) ∷ []

abbrev pub ctx : DmCtx ℕ ℕ ℕ
ctx = record {
  devices = ("d", device) ∷ [];
  device_models = models;
  delta_cb = some (λ x. true);
  event_cb = none;
  property_get_cb = none;
}

abbrev pub delta_message : Message ℕ ℕ
delta_message = record {
  kind = device_delta;
  device = "d";
  delta = ok (some reading);
  event = ok 0;
  keys = ok (other 0);
}

process-AtMostOne_example :
    AtMostOne strconv ctx delta_message device_delta (process strconv ctx delta_message)
process-AtMostOne_example = process-AtMostOne strconv ctx delta_message
