-- ===== src/Spec/Stats/View.antt =====
-- `populateNodeStats` and the part of `Node.View` that follows the JSON conversion, spec/v1/node.go.
pub mod Laws
use jopa.Common.{ℕ, ◌+◌, String, Bool, Option, none, some, List, [], ◌∷◌, ltb, ◌==◌, if◌then◌else◌}
use jopa.Common.Dict.{Dict}
use jopa.Common.Outcome.{Outcome, ok, ◌>>=◌}
use jopa.Spec.Stats.{NodeStats, ReportView}
use jopa.Spec.Stats.Resource.{Quantities, populate_stats}
use jopa.Spec.Stats.Instances.{
  count_instance_num, calculate_app_mode, reset_node_app_stats, translate_service_resource_quantity,
}

-- `D` is the type of `Desire`, and times are in nanoseconds.
pub record NodeView (F D : Type 0) : Type 0 where
  pub namespace : String
  pub name : String
  pub version : String
  pub creation_timestamp : ℕ
  pub accelerator : String
  pub labels : Dict String
  pub annotations : Dict String
  pub report : Option (ReportView F)
  pub app_mode : String
  pub desire : D
  pub sys_apps : List String
  pub description : String
  pub cluster : Bool
  pub ready : ℕ
  pub mode : String
  pub node_mode : String
  pub link : String
  pub core_id : String

abbrev pub node_uninstall : ℕ
node_uninstall = 0

abbrev pub node_online : ℕ
node_online = 1

abbrev pub node_offline : ℕ
node_offline = 2

-- `Ready` by the time of the last report.
unfoldable pub readiness : Option ℕ → ℕ → ℕ → ℕ
readiness none now timeout = node_uninstall
readiness (some time) now timeout = if ltb now (time + timeout) then node_online else node_offline

module _ {E F : Type 0} (q : Quantities E F) where
  -- For nodes with statistics; a nil pointer, which the code reads through, is left out.
  unfoldable pub populate_all : Dict (NodeStats F) → Outcome E (Dict (NodeStats F))
  populate_all [] = ok []
  populate_all ((name, s) ∷ stats) = do
    s' ← populate_stats q s
    stats' ← populate_all stats
    ok ((name, s') ∷ stats')

module _ {E F D : Type 0} (q : Quantities E F) where
  populate_report : NodeView F D → ℕ → ℕ → Option (ReportView F) → Outcome E (NodeView F D)
  unfolding populate_all readiness
  populate_report view now timeout none = ok (record view { ready = node_uninstall })
  populate_report view now timeout (some report) = do
    stats ← populate_all q report.node_stats
    ok (record view {
      report = some (record report { node_stats = stats });
      ready = readiness report.time now timeout;
    })

  -- `now` is what the clock reads; on an error the half-filled view is dropped by the caller.
  unfoldable pub populate_node_stats : NodeView F D → ℕ → ℕ → Outcome E (NodeView F D)
  unfolding populate_report
  populate_node_stats view now timeout = populate_report view now timeout view.report

  finish_report : NodeView F D → Option (ReportView F) → Outcome E (NodeView F D)
  finish_report view none = ok view
  finish_report view (some report) = do
    translated ← translate_service_resource_quantity q report
    let reset = if view.ready == node_online then translated else reset_node_app_stats translated
    let counted = count_instance_num reset
    ok (record view { report = some counted; app_mode = calculate_app_mode counted })

  -- `View`, from the view that the JSON conversion gives.
  unfoldable pub finish_view : NodeView F D → ℕ → ℕ → Outcome E (NodeView F D)
  unfolding populate_node_stats finish_report
  finish_view view now timeout = do
    view' ← populate_node_stats view now timeout
    finish_report view' view'.report
