-- ===== src/Native/Port.antt =====
-- native/port.go: the allocator of host ports, a round through a range of ports.
pub mod Laws
use jopa.Common.{
  ℕ, zero, suc, ◌+◌, ◌-◌, ◌%◌, Bool, true, false, Option, none, some, ◌||◌, ltb, leb, if◌then◌else◌,
}

pub record PortAllocator : Type 0 where
  pub base : ℕ
  pub size : ℕ
  pub offset : ℕ

-- `NewPortAllocator`; `none` is the error.
unfoldable pub new_port_allocator : ℕ → ℕ → Option PortAllocator
new_port_allocator start end_port =
    if ltb start 1024 || ltb 65535 end_port || leb end_port start
    then none
    else some (record { base = start; size = end_port - start + 1; offset = 0 })

-- `p.offset++; p.offset = p.offset % p.size`
unfoldable pub advance : PortAllocator → PortAllocator
advance p = record p { offset = (p.offset + 1) % p.size }

-- `free times port` is what `CheckPortAvailable` answers in the round `times`.
module _ (free : ℕ → ℕ → Bool) where
  -- The loop, with `fuel` rounds left before `times == p.size`; `none` is the error.
  unfoldable pub allocate_loop : ℕ → ℕ → PortAllocator → PortAllocator × Option ℕ
  unfolding advance
  allocate_loop zero times p = (p, none)
  allocate_loop (suc fuel) times p =
      let rest = allocate_loop fuel (suc times) (advance p) in
      if free times (p.base + p.offset) then (advance p, some (p.base + p.offset)) else rest

  unfoldable pub allocate : PortAllocator → PortAllocator × Option ℕ
  unfolding allocate_loop
  allocate p = allocate_loop p.size 0 p
