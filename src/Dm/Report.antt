-- ===== src/Dm/Report.antt =====
-- `ReportDevicePropertiesWithFilter` of dmcontext/context.go: which properties of a report are passed on. The
-- publishing of the result is in Dm.Send; `now` is what the clock reads.
pub mod Passed
pub mod Laws
use jopa.Common.{
  ℕ, ◌+◌, ◌-◌, ◌*◌, ◌%◌, String, Bool, true, false, ◌&&◌, Option, none, some, List, [], ◌∷◌, ltb,
  if◌then◌else◌,
}
use jopa.Common.Dict.{Dict, lookup, insert}
use jopa.Common.Int.{ℤ, pos, negsuc}
use jopa.Common.Outcome.{Outcome, ok, err, panic}
use jopa.Dm.Expression.{Floats, Failure, Value}
use jopa.Dm.Expression.Exec.{parse_value_to_float64, is_calculable}

-- The part of `ModelMapping` that the filter reads; the silent window is an int, in seconds.
pub record ModelMapping (F : Type 0) : Type 0 where
  pub attribute : String
  pub silent_win : ℤ
  pub deviation : F

-- `ReportProperty`; times are in nanoseconds.
pub record ReportProperty (F Go : Type 0) : Type 0 where
  pub time : ℕ
  pub value : Value F Go

-- What the loop changes: the report that is passed on, and `lastReportProperties`.
pub record Progress (F Go : Type 0) : Type 0 where
  pub filtered : Dict (Value F Go)
  pub last : Dict (ReportProperty F Go)

-- x >= y of floats, and 100.
pub record Order (F : Type 0) : Type 0 where
  pub ge : F → F → Bool
  pub hundred : F

-- The mappings by the names of their properties; a later one replaces an earlier one.
unfoldable pub prop_mapping :
    {F : Type 0} → List (ModelMapping F) → Dict (ModelMapping F) → Dict (ModelMapping F)
prop_mapping [] props = props
prop_mapping (mp ∷ mappings) props = prop_mapping mappings (insert mp.attribute mp props)

module _ {F : Type 0} (f : Floats F) (order : Order F) where
  -- The comparison of two values that could be converted; otherwise the loop continues.
  unfoldable pub compare_values : F → Outcome Failure F → Outcome Failure F → Bool
  compare_values deviation (ok x) (ok l) =
      order.ge (f.minus x l) (f.over (f.times l deviation) order.hundred)
  compare_values deviation _ _ = false

-- The 64 bits of `time.Duration(n) * time.Second`, which wraps around.
unfoldable pub duration_bits : ℤ → ℕ
duration_bits (pos n) = n * 1000000000 % 18446744073709551616
duration_bits (negsuc n) =
    (18446744073709551616 - (n + 1) * 1000000000 % 18446744073709551616) % 18446744073709551616

-- `now.Sub(time) > d` for the 64 bits of d: the difference stays at the greatest duration if it is greater, and bits
-- from 2 ^ 63 on are those of a negative duration.
unfoldable pub elapsed : ℕ → ℕ → ℕ → Bool
elapsed now time bits =
    if ltb bits 9223372036854775808
    then ltb (time + bits) now && ltb bits 9223372036854775807
    else ltb time (now + (18446744073709551616 - bits))

module _ {F Go : Type 0} where
  -- Never reported, or reported before the silent window.
  unfoldable pub is_due : ℕ → ModelMapping F → Option (ReportProperty F Go) → Bool
  unfolding duration_bits elapsed
  is_due now mp none = true
  is_due now mp (some p) = elapsed now p.time (duration_bits mp.silent_win)

  -- `filterReport[key] = value` and `c.lastReportProperties[key] = …`
  unfoldable pub pass_on : ℕ → String → Value F Go → Progress F Go → Progress F Go
  pass_on now key value s = record {
    filtered = insert key value s.filtered;
    last = insert key (record { time = now; value = value }) s.last;
  }

module _ {F Go : Type 0} (f : Floats F) (order : Order F) where
  -- The deviation from the last report; the missing value of a missing report is no number.
  unfoldable pub exceeds : ModelMapping F → Value F Go → Option (ReportProperty F Go) → Bool
  unfolding compare_values
  exceeds mp value none = false
  exceeds mp value (some p) =
      compare_values f order mp.deviation (parse_value_to_float64 f value)
        (parse_value_to_float64 f p.value)

  -- The two tests of a property, one after the other.
  unfoldable pub filter_mapped :
      ℕ → ModelMapping F → String → Value F Go → Progress F Go → Progress F Go
  unfolding is_due pass_on exceeds
  filter_mapped now mp key value s =
      let t = if is_due now mp (lookup key s.last) then pass_on now key value s else s in
      if is_calculable f value && exceeds mp value (lookup key t.last)
      then pass_on now key value t
      else t

  filter_entry : ℕ → String → Value F Go → Progress F Go → Option (ModelMapping F) → Progress F Go
  unfolding filter_mapped
  filter_entry now key value s none = s
  filter_entry now key value s (some mp) = filter_mapped now mp key value s

  -- The loop over the report.
  unfoldable pub filter_report :
      ℕ → Dict (ModelMapping F) → Dict (Value F Go) → Progress F Go → Progress F Go
  unfolding filter_entry
  filter_report now props [] s = s
  filter_report now props ((key, value) ∷ report) s =
      filter_report now props report (filter_entry now key value s (lookup key props))

  filter_found :
      ℕ
      → Dict (Value F Go)
      → Dict (ReportProperty F Go)
      → Option (List (ModelMapping F))
      → Option (Progress F Go)
  unfolding filter_report prop_mapping
  filter_found now report last none = none
  filter_found now report last (some mappings) =
      some (
        filter_report now (prop_mapping mappings []) report (record { filtered = []; last = last }))

  -- The report that is passed on, with the new `lastReportProperties`; `none` is the error of a template
  -- that does not exist.
  unfoldable pub report_with_filter :
      ℕ
      → Dict (List (ModelMapping F))
      → String
      → Dict (Value F Go)
      → Dict (ReportProperty F Go)
      → Option (Progress F Go)
  unfolding filter_found
  report_with_filter now templates template report last =
      filter_found now report last (lookup template templates)
