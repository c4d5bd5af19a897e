-- ===== src/Native/Port/Laws.antt =====
-- Which ports the allocator gives out.
use jopa.Common.{
  ℕ, zero, suc, ◌+◌, ◌-◌, ◌%◌, ◌≤◌, ◌<◌, Bool, true, false, Option, none, some, ◌≡◌, refl, sym, ◌∙◌,
  ap, inl, inr, Bool-cases, arith, ltb, ◌↔◌, if◌then◌else◌,
}
use native.Mathlib.Nat.{mod-add-mod, mod-eq_of_lt, add-mod_right}
use jopa.Native.Port.{PortAllocator, new_port_allocator, advance, allocate_loop, allocate}

-- The position is one of the range's.
abbrev pub InRange : PortAllocator → Type 0
InRange p = p.offset < p.size

-- The port of the round `i`.
abbrev pub port_at : PortAllocator → ℕ → ℕ
port_at p i = p.base + (p.offset + i) % p.size

mod_small : (n m : ℕ) → n < m → n % m ≡ n
mod_small n m h = mod-eq_of_lt h

advance-InRange : (p : PortAllocator) → InRange p → InRange (advance p)
unfolding advance
advance-InRange p h = ground arith

next_offset : (o i n : ℕ) → o < n → ((o + 1) % n + i) % n ≡ (o + suc i) % n
next_offset o i n h = mod-add-mod (o + 1) n i ∙ ap (λ k. k % n) (omega arith)

port_at-advance :
    (p : PortAllocator) (i : ℕ) → InRange p → port_at (advance p) i ≡ port_at p (suc i)
unfolding advance
port_at-advance p i h = ap (λ k. p.base + k) (next_offset p.offset i p.size h)

port_at-zero : (p : PortAllocator) → InRange p → port_at p 0 ≡ p.base + p.offset
port_at-zero p h =
    ap (λ k. p.base + k) (mod_small (p.offset + 0) p.size (omega arith) ∙ omega arith)

module _ (free : ℕ → ℕ → Bool) where
  -- The round `i` is the first in which the port is free; the allocator goes on behind it.
  abbrev pub FirstFree : ℕ → PortAllocator → PortAllocator → ℕ → ℕ → Type 0
  FirstFree times p p' i port =
      (port ≡ port_at p i)
      × (free (times + i) (port_at p i) ≡ true)
      × ((j : ℕ) → j < i → free (times + j) (port_at p j) ≡ false)
      × (p'.base + p'.offset ≡ port_at p (suc i))
      × InRange p'
      × (p'.base ≡ p.base)
      × (p'.size ≡ p.size)

  -- What `fuel` rounds from the round `times` come to.
  abbrev pub Allocated : ℕ → ℕ → PortAllocator → PortAllocator × Option ℕ → Type 0
  Allocated fuel times p (p', some port) = (i : ℕ) × (i < fuel) × FirstFree times p p' i port
  Allocated fuel times p (p', none) = (j : ℕ) → j < fuel → free (times + j) (port_at p j) ≡ false

  shift :
      (times j : ℕ) (p : PortAllocator) {b : Bool}
      → InRange p
      → free (suc times + j) (port_at (advance p) j) ≡ b
      → free (times + suc j) (port_at p (suc j)) ≡ b
  shift times j p h e =
      let q : times + suc j ≡ suc times + j = omega arith in
      ap (λ k. free k (port_at p (suc j))) q
      ∙ ap (free (suc times + j)) (sym (port_at-advance p j h))
      ∙ e

  this_round :
      (times : ℕ) (p : PortAllocator) {b : Bool}
      → InRange p
      → free times (p.base + p.offset) ≡ b
      → free (times + 0) (port_at p 0) ≡ b
  this_round times p h e =
      let q : times + 0 ≡ times = omega arith in
      ap (λ k. free k (port_at p 0)) q ∙ ap (free times) (port_at-zero p h) ∙ e

  not_free :
      (times : ℕ) (p : PortAllocator) (bound : ℕ)
      → InRange p
      → free times (p.base + p.offset) ≡ false
      → ((j : ℕ) → j < bound → free (suc times + j) (port_at (advance p) j) ≡ false)
      → (j : ℕ) → j < suc bound
      → free (times + j) (port_at p j) ≡ false
  not_free times p bound h e hs zero lt = this_round times p h e
  not_free times p bound h e hs (suc j) lt = shift times j p h (hs j (omega arith))

  round :
      (fuel times : ℕ) (p : PortAllocator) (b : Bool) (rest : PortAllocator × Option ℕ)
      → InRange p
      → Allocated fuel (suc times) (advance p) rest
      → free times (p.base + p.offset) ≡ b
      → Allocated (suc fuel) times p (if b then (advance p, some (p.base + p.offset)) else rest)
  unfolding advance
  round fuel times p true rest h hs e = (
    0,
    omega arith,
    (
      sym (port_at-zero p h),
      this_round times p h e,
      (λ j lt. absurd (omega arith)),
      refl,
      advance-InRange p h,
      refl,
      refl,
    ),
  )
  round fuel times p false (p', some port) h
        (i, lt, (at, is_free, before, goes_on, inside, base, size)) e =
      (
        suc i,
        omega arith,
        (
          at ∙ port_at-advance p i h,
          shift times i p h is_free,
          not_free times p i h e before,
          goes_on ∙ port_at-advance p (suc i) h,
          inside,
          base,
          size,
        ),
      )
  round fuel times p false (p', none) h hs e = not_free times p fuel h e hs

  allocate_loop-Allocated :
      (fuel times : ℕ) (p : PortAllocator)
      → InRange p
      → Allocated fuel times p (allocate_loop free fuel times p)
  unfolding allocate_loop
  allocate_loop-Allocated zero times p h = λ j lt. absurd (omega arith)
  allocate_loop-Allocated (suc fuel) times p h =
      round fuel times p (free times (p.base + p.offset))
        (allocate_loop free fuel (suc times) (advance p)) h
        (allocate_loop-Allocated fuel (suc times) (advance p) (advance-InRange p h)) refl

  -- From a position in the range, the allocator gives out the first port, in the round that starts at its
  -- position, that is free when it is asked for, and goes on behind that port; it fails exactly if each
  -- port of the range was asked for once and was not free.
  pub allocate_lem : (p : PortAllocator) → InRange p → Allocated p.size 0 p (allocate free p)
  unfolding allocate
  allocate_lem p h = allocate_loop-Allocated p.size 0 p h

-- The round in which a port of the range is asked for.
round_of : (o n k : ℕ) → o < n → k < n → (i : ℕ) × (i < n) × ((o + i) % n ≡ k)
round_of o n k ho hk = elim (Bool-cases (ltb k o)) [
  | inl below ↦
      let lt : k < o = ground arith in
      let e : o + (k + n - o) ≡ k + n = omega arith in
      (k + n - o, omega arith, rw e (add-mod_right k n ∙ mod_small k n hk))
  | inr above ↦
      let le : o ≤ k = ground arith in
      let e : o + (k - o) ≡ k = omega arith in (k - o, omega arith, rw e (mod_small k n hk))
]

none_of_Allocated :
    (free : ℕ → Bool) (p : PortAllocator) (r : PortAllocator × Option ℕ)
    → InRange p
    → Allocated (λ _. free) p.size 0 p r
    → (r.1 ≡ none) ↔ ((k : ℕ) → k < p.size → free (p.base + k) ≡ false)
none_of_Allocated free p (p', none) h hs = (
  λ _ k lt.
      let (i, lt', e) = round_of p.offset p.size k h lt in
      ap (λ x. free (p.base + x)) (sym e) ∙ hs i lt',
  λ _. refl,
)
none_of_Allocated free p (p', some port) h (i, lt, (at, is_free, _, _, _, _, _)) = (
  λ e. cc,
  λ all_taken.
      let inside : (p.offset + i) % p.size < p.size = ground arith in
      let q : true ≡ false = sym is_free ∙ all_taken ((p.offset + i) % p.size) inside in cc,
)

-- Where no port changes during the call, the allocator fails exactly if no port of its range is free.
pub allocate-none_iff :
    (free : ℕ → Bool) (p : PortAllocator)
    → InRange p
    → ((allocate (λ _. free) p).1 ≡ none) ↔ ((k : ℕ) → k < p.size → free (p.base + k) ≡ false)
allocate-none_iff free p h =
    none_of_Allocated free p (allocate (λ _. free) p) h (allocate_lem (λ _. free) p h)

-- A new allocator's range is that of the arguments, in the registered and dynamic ports.
pub new_port_allocator_lem :
    (start end_port : ℕ) (p : PortAllocator)
    → new_port_allocator start end_port ≡ some p
    → InRange p
      × (p.base ≡ start)
      × (p.base + p.size ≡ end_port + 1)
      × (1024 ≤ p.base)
      × (p.base + p.size ≤ 65536)
unfolding new_port_allocator
new_port_allocator_lem start end_port p e = ground arith
