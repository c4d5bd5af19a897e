-- ===== src/Spec/Stats/Instances.antt =====
-- The applications' part of a report's view in spec/v1/node.go: `countInstanceNum`, `calculateAppMode`,
-- `resetNodeAppStats` and `translateServiceResourceQuantity`.
pub mod Laws
use jopa.Common.{
  ℕ, ◌+◌, suc, String, Bool, true, false, Option, none, some, List, [], ◌∷◌, ◌&&◌, ◌==ₛ◌,
  if◌then◌else◌,
}
use jopa.Common.Dict.{Dict, lookup, insert}
use jopa.Common.Int.{ℤ}
use jopa.Common.Outcome.{Outcome, ok, ◌>>=◌}
use jopa.Spec.Stats.{AppStats, InstanceStats, NodeInfo, ReportView, Status, empty_status}
use jopa.Spec.Stats.Resource.{
  Quantities, cpu, memory, populate_cpu_resource, populate_memory_resource,
}

-- `if _, ok := nums[name]; ok { nums[name] += 1 } else { nums[name] = 1 }`
unfoldable pub count_name : String → Dict ℕ → Dict ℕ
count_name name nums = elim (lookup name nums) [
  | none ↦ insert name 1 nums
  | some n ↦ insert name (n + 1) nums
]

-- Some node has neither a container runtime nor a machine id; a nil pointer to a node is left out.
unfoldable pub has_native : Dict NodeInfo → Bool
has_native [] = false
has_native ((_, node) ∷ nodes) =
    if node.container_runtime ==ₛ "" && node.machine_id ==ₛ "" then true else has_native nodes

module _ {F : Type 0} where
  unfoldable pub count_instances : Dict (InstanceStats F) → Dict ℕ → Dict ℕ
  unfolding count_name
  count_instances [] nums = nums
  count_instances ((_, ins) ∷ instances) nums =
      count_instances instances (count_name ins.node_name nums)

  unfoldable pub count_stats : List (AppStats F) → Dict ℕ → Dict ℕ
  unfolding count_instances
  count_stats [] nums = nums
  count_stats (stat ∷ stats) nums = count_stats stats (count_instances stat.instance_stats nums)

  unfoldable pub count_instance_num : ReportView F → ReportView F
  unfolding count_stats
  count_instance_num view = record view {
    node_ins_num = count_stats view.sys_app_stats (count_stats view.app_stats []);
  }

  unfoldable pub calculate_app_mode : ReportView F → String
  unfolding has_native
  calculate_app_mode view = if has_native view.node then "native" else "kube"

  unfoldable pub reset_statuses : List (AppStats F) → List (AppStats F)
  reset_statuses [] = []
  reset_statuses (stat ∷ stats) = record stat { status = empty_status } ∷ reset_statuses stats

  unfoldable pub reset_node_app_stats : ReportView F → ReportView F
  unfolding reset_statuses
  reset_node_app_stats view = record view {
    sys_app_stats = reset_statuses view.sys_app_stats;
    app_stats = reset_statuses view.app_stats;
  }

module _ {E F : Type 0} (q : Quantities E F) where
  translate_at :
      String
      → (String → Dict String → Outcome E (ℤ × Dict String))
      → Dict String
      → Outcome E (Dict String)
  translate_at key populate usage = elim (lookup key usage) [
    | none ↦ ok usage
    | some text ↦ do (_, usage') ← populate text usage; ok usage'
  ]

  translate_usage : Option (Dict String) → Outcome E (Option (Dict String))
  unfolding translate_at
  translate_usage none = ok none
  translate_usage (some usage) = do
    usage' ← translate_at cpu (populate_cpu_resource q) usage
    usage'' ← translate_at memory (populate_memory_resource q) usage'
    ok (some usage'')

  -- The loop variable is a copy, but its `Usage` is the map of the original.
  unfoldable pub translate_resource_quantity : InstanceStats F → Outcome E (InstanceStats F)
  unfolding translate_usage
  translate_resource_quantity s = do
    usage ← translate_usage s.usage
    ok (record s { usage = usage })

  unfoldable pub translate_instances : Dict (InstanceStats F) → Outcome E (Dict (InstanceStats F))
  unfolding translate_resource_quantity
  translate_instances [] = ok []
  translate_instances ((name, ins) ∷ instances) = do
    ins' ← translate_resource_quantity ins
    instances' ← translate_instances instances
    ok ((name, ins') ∷ instances')

  unfoldable pub translate_stats : List (AppStats F) → Outcome E (List (AppStats F))
  unfolding translate_instances
  translate_stats [] = ok []
  translate_stats (stat ∷ stats) = do
    instances ← translate_instances stat.instance_stats
    stats' ← translate_stats stats
    ok (record stat { instance_stats = instances } ∷ stats')

  unfoldable pub translate_service_resource_quantity : ReportView F → Outcome E (ReportView F)
  unfolding translate_stats
  translate_service_resource_quantity view = do
    sys ← translate_stats view.sys_app_stats
    apps ← translate_stats view.app_stats
    ok (record view { sys_app_stats = sys; app_stats = apps })
