-- ===== src/Spec/Stats/Resource.antt =====
-- Quantities and percentages of a node's statistics in spec/v1/node.go: `populateCPUResource`,
-- `populateMemoryResource`, `processResourcePercent`, `populateGPUStats` and `populateDiskNetStats`.
-- The parser of Kubernetes quantities and the number formats are the parameter `Quantities`.
pub mod Laws
use jopa.Common.{String, Bool, true, false, Option, none, some, not, ◌&&◌, [], if◌then◌else◌}
use jopa.Common.Dict.{Dict, lookup, insert}
use jopa.Common.Int.{ℤ, pos, leb_ℤ, is_zero}
use jopa.Common.Outcome.{Outcome, ok, ◌>>=◌}
use jopa.Spec.Stats.{NodeStats, Extension, values, opaque_value}

-- `parse q milli` is `resource.ParseQuantity` with `MilliValue` or `Value`; the formats are those of
-- strconv, of a number of thousandths, of an integer, of a quotient and of a float.
pub record Quantities (E F : Type 0) : Type 0 where
  pub parse : String → Bool → Outcome E ℤ
  pub format_milli : ℤ → String
  pub format_int : ℤ → String
  pub format_ratio : ℤ → ℤ → String
  pub format_float : F → String
  pub zero_float : F

abbrev pub cpu : String
cpu = "cpu"

abbrev pub memory : String
memory = "memory"

abbrev pub gpu : String
gpu = "gpu"

abbrev pub disk : String
disk = "disk"

abbrev pub is_some : Option String → Bool
is_some none = false
is_some (some _) = true

module _ {E : Type 0} where
  -- `if ok { if total, err = populate(cap, status.Capacity); … }`; without the key the number is 0.
  unfoldable pub populate_present :
      (String → Dict String → Outcome E (ℤ × Dict String))
      → Option String
      → Dict String
      → Outcome E (ℤ × Dict String)
  populate_present populate none m = ok (pos 0, m)
  populate_present populate (some text) m = populate text m

  -- The percentage, with the new capacity and usage.
  unfoldable pub process_resource_percent :
      (ℤ → ℤ → String)
      → Dict String
      → Dict String
      → String
      → (String → Dict String → Outcome E (ℤ × Dict String))
      → Outcome E (String × Dict String × Dict String)
  unfolding populate_present
  process_resource_percent format_ratio capacity usages resource_type populate = do
    let cap = lookup resource_type capacity
    let usg = lookup resource_type usages
    (total, capacity') ← populate_present populate cap capacity
    (usage, usages') ← populate_present populate usg usages
    ok (
      if is_some cap && is_some usg && not (is_zero total)
          then if leb_ℤ total usage then "1" else format_ratio usage total
          else "0",
      capacity',
      usages',
    )

-- A nil map is replaced by an empty one.
abbrev pub or_empty : Option (Dict String) → Dict String
or_empty none = []
or_empty (some m) = m

-- The three maps that a node's statistics are written to, once they are not nil.
pub record Tables : Type 0 where
  pub usage : Dict String
  pub capacity : Dict String
  pub percent : Dict String

module _ {E F : Type 0} (q : Quantities E F) where
  -- The quantity, and the map with its normal form.
  unfoldable pub populate_cpu_resource : String → Dict String → Outcome E (ℤ × Dict String)
  populate_cpu_resource usage resource = do
    usg ← q.parse usage true
    ok (usg, insert cpu (q.format_milli usg) resource)

  unfoldable pub populate_memory_resource : String → Dict String → Outcome E (ℤ × Dict String)
  populate_memory_resource usage resource = do
    usg ← q.parse usage false
    ok (usg, insert memory (q.format_int usg) resource)

  -- `if val, ok := stats[key]; ok { x, _ := val.(float64); m[target] = … }`
  unfoldable pub copy_float : String → Dict (Option F) → String → Dict String → Dict String
  copy_float key stats target m = elim (lookup key stats) [
    | none ↦ m
    | some none ↦ insert target (q.format_float q.zero_float) m
    | some (some x) ↦ insert target (q.format_float x) m
  ]

  unfoldable pub populate_gpu_stats : Tables → Extension F → Tables
  unfolding copy_float
  populate_gpu_stats s opaque_value = s
  populate_gpu_stats s (values stats) = record {
    usage = copy_float "usedMemory" stats gpu s.usage;
    capacity = copy_float "totalMemory" stats gpu s.capacity;
    percent = copy_float "percent" stats gpu s.percent;
  }

  -- The maps, and the new `NetIO`; of another value than a map nothing is read.
  unfoldable pub populate_disk_net_stats : Tables → Extension F → Tables × Dict String
  unfolding copy_float
  populate_disk_net_stats s opaque_value = (s, [])
  populate_disk_net_stats s (values stats) = (
    record {
      usage = copy_float "diskUsed" stats disk s.usage;
      capacity = copy_float "diskTotal" stats disk s.capacity;
      percent = copy_float "diskPercent" stats disk s.percent;
    },
    copy_float "netPacketsSent" stats "netPacketsSent" (
        copy_float "netPacketsRecv" stats "netPacketsRecv" (
          copy_float "netBytesRecv" stats "netBytesRecv"
            (copy_float "netBytesSent" stats "netBytesSent" []))),
  )

  with_extension : NodeStats F → Tables → Option (Extension F) → NodeStats F
  unfolding populate_gpu_stats populate_disk_net_stats
  with_extension s t none = record s {
    usage = some t.usage;
    capacity = some t.capacity;
    percent = some t.percent;
  }
  with_extension s t (some ext) =
      let (t', net_io) = populate_disk_net_stats (populate_gpu_stats t ext) ext in
      record s {
        usage = some t'.usage;
        capacity = some t'.capacity;
        percent = some t'.percent;
        net_io = some net_io;
      }

  -- The body of the loop of `populateNodeStats`.
  unfoldable pub populate_stats : NodeStats F → Outcome E (NodeStats F)
  unfolding process_resource_percent with_extension populate_cpu_resource populate_memory_resource
  populate_stats s = do
    (memory_percent, capacity, usages) ←
        process_resource_percent q.format_ratio (or_empty s.capacity) (or_empty s.usage) memory
          populate_memory_resource
    (cpu_percent, capacity', usages') ←
        process_resource_percent q.format_ratio capacity usages cpu populate_cpu_resource
    let percent = insert cpu cpu_percent (insert memory memory_percent (or_empty s.percent))
    ok (
        with_extension s (record { usage = usages'; capacity = capacity'; percent = percent })
          s.extension)
