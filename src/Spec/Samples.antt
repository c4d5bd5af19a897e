-- ===== src/Spec/Samples.antt =====
-- The theorems on spec/v1/node.go at concrete data, and runs of its operations.
use jopa.Common.{ℕ, String, true, false, none, some, List, [], ◌∷◌, ◌≡◌, refl, arith}
use jopa.Common.Dict.{lookup, insert}
use jopa.Common.Int.{pos}
use jopa.Common.Outcome.{Outcome, ok, err, panic}
use jopa.Spec.Value.{AppInfo, null, str, obj, Items, nil, cons, Fields, end, field, get, put}
use jopa.Spec.Merge.{done, exceeds_limit, merge, merge_report, max_json_level}
use jopa.Spec.Merge.Laws.{UniqueKeys, Merged, merge-Merged}
use jopa.Spec.Merge.Total.{PlainFields, height, merge_total}
use jopa.Spec.Delta.{Json, desire_diff, diff_with_nil}
use jopa.Spec.Delta.Laws.{value_at, outline, non_nil, desire_diff-value_at}
use jopa.Spec.Stats.{NodeStats, InstanceStats, AppStats, ReportView, Status}
use jopa.Spec.Stats.Resource.{Quantities, populate_stats}
use jopa.Spec.Stats.Instances.{translate_service_resource_quantity}
use jopa.Spec.Stats.View.{NodeView, node_online, node_uninstall, finish_view}
use jopa.Spec.Stats.View.Laws.{IsFresh, NoStatusIn, finish_view_lem}

abbrev Map : Type 0
Map = Fields ℕ

-- {"a": {"x": "1"}, "c": "2"}
abbrev reported : Map
reported = field "a" (obj (field "x" (str "1") end)) (field "c" (str "2") end)

-- {"a": {"y": "3"}, "b": null}
abbrev update : Map
update = field "a" (obj (field "y" (str "3") end)) (field "b" null end)

merge_runs : merge reported update 1 max_json_level ≡ (
  field "a"
      (obj (field "x" (str "1") (field "y" (str "3") end)))
      (field "c" (str "2") (field "b" null end)),
  done,
)
unfolding merge get put
merge_runs = refl

-- Five levels of maps on both sides are one too many.
abbrev deep : Map
deep =
    field "1"
      (obj
        (field "2" (obj (field "3" (obj (field "4" (obj (field "5" (str "x") end)) end)) end)) end))
      end

merge_too_deep : merge_report (some deep) deep ≡ (some deep, exceeds_limit)
unfolding merge_report get put
merge_too_deep = refl

merge-Merged_example : Merged reported update (merge reported update 1 max_json_level).0
unfolding UniqueKeys merge get
merge-Merged_example =
    merge-Merged reported update 1 max_json_level (refl, (refl, tt, tt), (refl, tt, tt)) refl

merge_total_example : (merge reported update 1 max_json_level).1 ≡ done
unfolding PlainFields height
merge_total_example =
    merge_total reported update 1 max_json_level ((tt, tt), (tt, tt)) ((tt, tt), (tt, tt))
      (omega arith)

-- Marshalling that keeps the map, and a patch that is its second argument.
abbrev plain_json : Json ℕ String Map
plain_json = record {
  marshal = λ m. ok m;
  unmarshal = λ b. ok b;
  create_merge_patch = λ a b. ok b;
  merge_patch = λ a b. ok b;
}

desire_diff-value_at_example :
    (pruned : Map) × (desire_diff plain_json update reported ≡ ok pruned)
    × ((k : String) (path : List String)
        → outline (value_at k path pruned) ≡ outline (non_nil (value_at k path update)))
unfolding diff_with_nil UniqueKeys get
desire_diff-value_at_example =
    desire_diff-value_at plain_json update reported update refl
      (refl, (refl, tt, tt), (refl, tt, tt))

abbrev two_apps : List AppInfo
two_apps = record { name = "a"; version = "1" } ∷ record { name = "b"; version = "2" } ∷ []

-- An item without a version.
abbrev no_version : Items ℕ
no_version = cons (obj (field "name" (str "a") end)) nil

-- Quantities that are all one thousand, printed as short texts.
abbrev thousand : Quantities ⊥ ℕ
thousand = record {
  parse = λ text milli. ok (pos 1000);
  format_milli = λ z. "1";
  format_int = λ z. "1000";
  format_ratio = λ u t. "0.5";
  format_float = λ x. "x";
  zero_float = 0;
}

abbrev node_stats : NodeStats ℕ
node_stats = record {
  disk_pressure = false;
  memory_pressure = false;
  pid_pressure = false;
  network_unavailable = false;
  ready = true;
  usage = some (("cpu", "1") ∷ []);
  capacity = some (("cpu", "1") ∷ ("memory", "1000") ∷ []);
  percent = none;
  net_io = none;
  extension = none;
}

abbrev instance_on : String → InstanceStats ℕ
instance_on node = record {
  name = "i";
  service_name = "s";
  app_name = "a";
  usage = none;
  extension = none;
  status = Status.running;
  cause = "";
  ip = "";
  node_name = node;
  pid = 1;
  ppid = 1;
  create_time = 0;
  containers = [];
  init_containers = [];
}

abbrev app_on : String → AppStats ℕ
app_on node = record {
  info = record { name = "a"; version = "1" };
  deploy_type = "";
  status = Status.running;
  cause = "";
  instance_stats = ("i", instance_on node) ∷ [];
}

abbrev view_at : ℕ → ReportView ℕ
view_at time = record {
  time = some time;
  apps = two_apps;
  sys_apps = [];
  core = none;
  app_stats = app_on "n1" ∷ app_on "n2" ∷ [];
  sys_app_stats = app_on "n1" ∷ [];
  node = [];
  node_stats = ("n1", node_stats) ∷ [];
  node_ins_num = [];
  mode_info = "";
}

-- A view whose last report is of the time 50.
abbrev view : NodeView ℕ ℕ
view = record {
  namespace = "d";
  name = "n";
  version = "1";
  creation_timestamp = 0;
  accelerator = "";
  labels = [];
  annotations = [];
  report = some (view_at 50);
  app_mode = "";
  desire = 0;
  sys_apps = [];
  description = "";
  cluster = true;
  ready = node_uninstall;
  mode = "";
  node_mode = "";
  link = "";
  core_id = "";
}

abbrev finished : Outcome ⊥ (NodeView ℕ ℕ)
unfolding finish_view
finished = finish_view thousand view 100 10

-- What the finished view is, once it is known that there is one.
abbrev view_of : Outcome ⊥ (NodeView ℕ ℕ) → NodeView ℕ ℕ
view_of (ok v) = v
view_of (err e) = view
view_of panic = view

finish_view_lem_example :
    ((view_of finished).ready ≡ node_online → IsFresh view 100 10)
    × (IsFresh view 100 10 → (view_of finished).ready ≡ node_online)
    × (¬ IsFresh view 100 10 → NoStatusIn (view_of finished).report)
unfolding finish_view lookup insert populate_stats translate_service_resource_quantity
finish_view_lem_example = finish_view_lem thousand view (view_of finished) 100 10 refl
