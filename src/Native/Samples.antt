-- ===== src/Native/Samples.antt =====
-- The theorems on native at concrete tables.
use jopa.Common.{ℕ, Bool, none, some, [], ◌∷◌, ◌≡◌, refl, arith, ◌==◌}
use jopa.Native.Port.{PortAllocator, allocate}
use jopa.Native.Port.Laws.{Allocated, allocate_lem}
use jopa.Native.Mapping.{ServiceMapping}

abbrev three_ports : PortAllocator
three_ports = record { base = 50000; size = 3; offset = 2 }

-- Only the port 50001 is free: it is found in the last of the three rounds.
abbrev only_second : ℕ → Bool
only_second port = port == 50001

wraps : (allocate (λ _. only_second) three_ports).1 ≡ some 50001
unfolding allocate
wraps = refl

allocate_lem_example :
    Allocated (λ _. only_second) 3 0 three_ports (allocate (λ _. only_second) three_ports)
allocate_lem_example = allocate_lem (λ _. only_second) three_ports (omega arith)

abbrev empty_mapping : ServiceMapping
empty_mapping = record { services = []; error = none }

abbrev mapping : ServiceMapping
mapping = record { services = ("a", record { ports = 81 ∷ []; offset = 0 }) ∷ []; error = none }
