-- ===== src/Common/Table.antt =====
-- Go maps with numbers as keys, as association lists.
use Prim.Native.Nat.{ℕ}
use mathlib.Core.Path.{◌≡◌, refl}
use mathlib.Core.Option.{Option, none, some}
use mathlib.Core.List.{List, [], ◌∷◌}
use native.Mathlib.Omega.{arith}
use package.jopa.Common.Tests.{◌==◌, if◌then◌else◌}

abbrev pub Table : Type 0 → Type 0
Table V = List (ℕ × V)

module _ {V : Type 0} where
  unfoldable pub find : ℕ → Table V → Option V
  find k [] = none
  find k ((j, v) ∷ t) = if j == k then some v else find k t

  unfoldable pub set : ℕ → V → Table V → Table V
  set k v [] = (k, v) ∷ []
  set k v ((j, w) ∷ t) = let rest = set k v t in if j == k then (k, v) ∷ t else (j, w) ∷ rest

  unfoldable pub drop : ℕ → Table V → Table V
  drop k [] = []
  drop k ((j, w) ∷ t) = let rest = drop k t in if j == k then rest else (j, w) ∷ rest

  pub find-set :
      (k j : ℕ) (v : V) (t : Table V) → find j (set k v t) ≡ (if k == j then some v else find j t)
  unfolding find set
  find-set k j v [] = refl
  find-set k j v ((i, w) ∷ t) = ground (arith, find-set k j v t)

  pub find-drop : (k j : ℕ) (t : Table V) → find j (drop k t) ≡ (if k == j then none else find j t)
  unfolding find drop
  find-drop k j [] = ground arith
  find-drop k j ((i, w) ∷ t) = ground (arith, find-drop k j t)
