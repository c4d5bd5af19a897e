-- ===== src/Dm/Send/Samples.antt =====
-- The theorem on a first report of the property t, over the field of two elements.
use jopa.Common.{ℕ, String, Bool, false, [], ◌∷◌, ◌≡◌, refl}
use jopa.Common.Dict.{Dict, lookup, insert}
use jopa.Common.Outcome.{Outcome, ok}
use jopa.Mqtt.Client.{new_client, has_room}
use jopa.Dm.Expression.{Value, other_value}
use jopa.Dm.Expression.Exec.{is_calculable}
use jopa.Dm.Report.{Progress, prop_mapping, report_with_filter}
use jopa.Dm.Samples.{two, order, mappings}
use jopa.Dm.Send.{Stamp, Report, ReportingDevice, report_filtered}
use jopa.Dm.Send.Laws.{Queued, Describes, report_filtered-Queued}

abbrev thermometer : ReportingDevice
thermometer = record {
  info = record { name = "d"; device_model = "m"; access_template = "tpl" };
  report_topic = record { qos = 1; topic = "r" };
  event_report_topic = record { qos = 1; topic = "e" };
  lifecycle_report_topic = record { qos = 1; topic = "l" };
}

abbrev json : Report (Value Bool ℕ) → Outcome ℕ String
json r = ok "{}"

abbrev stamp : Stamp
stamp = record { req_id = "1"; timestamp = 7 }

abbrev hot : Dict (Value Bool ℕ)
hot = ("t", other_value 5) ∷ []

abbrev first_report : Progress Bool ℕ
first_report = record {
  filtered = hot;
  last = ("t", record { time = 7; value = other_value 5 }) ∷ [];
}

report_filtered-Queued_example :
    let (remembered, (after, result)) =
      report_filtered two order json "n" false stamp 7
        (("tpl", mappings) ∷ [])
        thermometer
        hot
        []
        (new_client 10) in
    (remembered ≡ first_report.last)
    × ((r : Report (Value Bool ℕ)) × Describes "n" stamp thermometer.info hot r
        × Queued thermometer.report_topic (new_client 10) after result (json r))
unfolding new_client has_room lookup insert report_with_filter prop_mapping is_calculable
report_filtered-Queued_example =
    report_filtered-Queued two order json "n" false stamp 7 (("tpl", mappings) ∷ []) thermometer hot
      [] (new_client 10) first_report refl refl refl
