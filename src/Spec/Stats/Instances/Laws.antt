-- ===== src/Spec/Stats/Instances/Laws.antt =====
-- What the counts, the mode and the reset of a report's view are.
use jopa.Common.{
  ℕ, zero, suc, ◌+◌, String, Option, none, some, List, [], ◌∷◌, ◌≡◌, refl, sym, ap, ◌∙◌, arith,
  ◌==ₛ◌, ==ₛ_iff, if◌then◌else◌,
}
use jopa.Common.Dict.{Dict, lookup, lookup-insert}
use jopa.Spec.Stats.{AppStats, InstanceStats, ReportView}
use jopa.Spec.Stats.Instances.{count_name, count_instances, count_stats, count_instance_num}

-- A count as `countInstanceNum` stores it: a name that does not occur has no entry.
abbrev pub stored : ℕ → Option ℕ
stored zero = none
stored (suc n) = some (suc n)

-- The map holds the counts `f`.
abbrev Counts : Dict ℕ → (String → ℕ) → Type 0
Counts nums f = (n : String) → lookup n nums ≡ stored (f n)

count_name-stored :
    (name n : String) (nums : Dict ℕ) (c c' : ℕ)
    → lookup n nums ≡ stored c
    → lookup name nums ≡ stored c'
    → (name ≡ n → c ≡ c')
    → lookup n (count_name name nums) ≡ stored (if name ==ₛ n then suc c else c)
unfolding count_name
count_name-stored name n nums c zero h h' e =
    rw (h', count_name) (rw lookup-insert (ground (arith, ==ₛ_iff name n)))
count_name-stored name n nums c (suc k) h h' e =
    rw (h', count_name) (rw lookup-insert (ground (arith, ==ₛ_iff name n)))

count_name-Counts :
    (name : String) (nums : Dict ℕ) (f : String → ℕ)
    → Counts nums f
    → Counts (count_name name nums) (λ n. if name ==ₛ n then suc (f n) else f n)
count_name-Counts name nums f h n =
    count_name-stored name n nums (f n) (f name) (h n) (h name) (λ e. ap f (sym e))

module _ {F : Type 0} where
  -- How many of the instances run on the node `n`.
  abbrev pub occurrences : String → Dict (InstanceStats F) → ℕ
  occurrences n [] = 0
  occurrences n ((_, ins) ∷ l) =
      let rest = occurrences n l in if ins.node_name ==ₛ n then suc rest else rest

  abbrev pub occurrences_in : String → List (AppStats F) → ℕ
  occurrences_in n [] = 0
  occurrences_in n (stat ∷ stats) = occurrences n stat.instance_stats + occurrences_in n stats

  count_instances-Counts :
      (l : Dict (InstanceStats F)) (nums : Dict ℕ) (f : String → ℕ)
      → Counts nums f
      → Counts (count_instances l nums) (λ n. f n + occurrences n l)
  unfolding count_instances
  count_instances-Counts [] nums f h n = rw h (ap stored (omega arith))
  count_instances-Counts ((_, ins) ∷ l) nums f h n =
      count_instances-Counts l (count_name ins.node_name nums) _
        (count_name-Counts ins.node_name nums f h) n
      ∙ ap stored (ground arith)

  count_stats-Counts :
      (stats : List (AppStats F)) (nums : Dict ℕ) (f : String → ℕ)
      → Counts nums f
      → Counts (count_stats stats nums) (λ n. f n + occurrences_in n stats)
  unfolding count_stats
  count_stats-Counts [] nums f h n = rw h (ap stored (omega arith))
  count_stats-Counts (stat ∷ stats) nums f h n =
      count_stats-Counts stats (count_instances stat.instance_stats nums) _
        (count_instances-Counts stat.instance_stats nums f h) n
      ∙ ap stored (omega arith)

  -- The view counts for each node the instances that run on it, of the applications and of the system
  -- applications together; a node with no instance has no entry.
  pub count_instance_num_lem :
      (view : ReportView F) (n : String)
      → lookup n (count_instance_num view).node_ins_num
        ≡ stored (occurrences_in n view.app_stats + occurrences_in n view.sys_app_stats)
  unfolding count_instance_num lookup
  count_instance_num_lem view n =
      count_stats-Counts view.sys_app_stats (count_stats view.app_stats []) _
        (count_stats-Counts view.app_stats [] (λ _. 0) (λ _. refl)) n
      ∙ ap stored (omega arith)
