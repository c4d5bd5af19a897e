-- ===== src/Spec/Delta/Laws.antt =====
-- What `clean` and `diff` of spec/v1/node.go leave in a delta.
use jopa.Common.{
  Option, none, some, List, [], ◌∷◌, ◌≡◌, refl, arith, ap, ◌∙◌, subst, String, inl, inr, Bool-cases,
  ◌==ₛ◌, ==ₛ_iff,
}
use jopa.Common.Outcome.{ok}
use jopa.Spec.Value.{Value, Fields, null, obj, end, field, get}
use jopa.Spec.Merge.Laws.{UniqueKeys, UniqueKeysIn}
use jopa.Spec.Delta.{clean, Json, diff, desire_diff, diff_with_nil}

module _ {S : Type 0} where
  abbrev pub enter : (Fields S → Option (Value S)) → Option (Value S) → Option (Value S)
  enter next (some (obj v)) = next v
  enter next _ = none

  -- What stands where a path of keys leads to, from one map into the next.
  abbrev pub value_at : String → List String → Fields S → Option (Value S)
  value_at k [] m = get k m
  value_at k (j ∷ path) m = enter (value_at j path) (get k m)

  -- The same but for what a map holds, which further keys lead to.
  abbrev pub outline : Option (Value S) → Option (Value S)
  outline (some (obj v)) = some (obj end)
  outline o = o

  -- A `nil` is nothing.
  abbrev pub non_nil : Option (Value S) → Option (Value S)
  non_nil (some null) = none
  non_nil o = o

  -- What `clean` makes of the value at a key.
  abbrev cleaned : Option (Value S) → Option (Value S)
  cleaned none = none
  cleaned (some null) = none
  cleaned (some (obj v)) = some (obj (clean v))
  cleaned (some v) = some v

  -- The rounds in which the entry stays, as `v'`.
  get-clean-stays :
      (k j : String) (v v' : Value S) (m m' : Fields S)
      → get k m' ≡ cleaned (get k m)
      → some v' ≡ cleaned (some v)
      → get k (field j v' m') ≡ cleaned (get k (field j v m))
  unfolding get
  get-clean-stays k j v v' m m' h e = elim (Bool-cases (j ==ₛ k)) [
    | inl same ↦ rw same e
    | inr other_key ↦ rw other_key h
  ]

  get-clean : (k : String) (m : Fields S) → UniqueKeys m → get k (clean m) ≡ cleaned (get k m)
  unfolding clean get UniqueKeys
  get-clean k end u = refl
  get-clean k (field j null m) (fresh, _, u) = elim (Bool-cases (j ==ₛ k)) [
    | inl same ↦
        let fresh' : get k m ≡ none = rw ((==ₛ_iff j k).0 same) at fresh in
        let ih : get k (clean m) ≡ none = rw fresh' at (get-clean k m u) in rw same ih
    | inr other_key ↦ rw other_key (get-clean k m u)
  ]
  get-clean k (field j (obj v) m) (_, _, u) =
      get-clean-stays k j (obj v) (obj (clean v)) m (clean m) (get-clean k m u) refl
  get-clean k (field j v m) (_, _, u) = get-clean-stays k j v v m (clean m) (get-clean k m u) refl

  get-UniqueKeysIn :
      (k : String) (m : Fields S) (v : Value S) → UniqueKeys m → get k m ≡ some v → UniqueKeysIn v
  unfolding get UniqueKeys
  get-UniqueKeysIn k end v u e = cc
  get-UniqueKeysIn k (field j w m) v (_, here, u) e = elim (Bool-cases (j ==ₛ k)) [
    | inl same ↦
        let q : some w ≡ some v = rw same at e in
        let found : w ≡ v = cc in subst UniqueKeysIn found here
    | inr other_key ↦ let q : get k m ≡ some v = rw other_key at e in get-UniqueKeysIn k m v u q
  ]

  outline-cleaned : (o : Option (Value S)) → outline (cleaned o) ≡ outline (non_nil o)
  outline-cleaned none = refl
  outline-cleaned (some null) = refl
  outline-cleaned (some (obj v)) = refl
  outline-cleaned (some v) = refl

  value_at-clean :
      (k : String) (path : List String) (m : Fields S)
      → UniqueKeys m
      → outline (value_at k path (clean m)) ≡ outline (non_nil (value_at k path m))
  unfolding clean UniqueKeys UniqueKeysIn
  value_at-clean k [] m u = ap outline (get-clean k m u) ∙ outline-cleaned (get k m)
  value_at-clean k (j ∷ path) m u =
      ap (λ o. outline (enter (value_at j path) o)) (get-clean k m u)
      ∙ go (λ v. value_at-clean j path v) (get k m) refl
    where
      go :
          ((v : Fields S)
            → UniqueKeys v
            → outline (value_at j path (clean v)) ≡ outline (non_nil (value_at j path v)))
          → (o : Option (Value S)) → get k m ≡ o
          → outline (enter (value_at j path) (cleaned o))
            ≡ outline (non_nil (enter (value_at j path) o))
      go rec none e = refl
      go rec (some null) e = refl
      go rec (some (obj v)) e = rec v (get-UniqueKeysIn k m (obj v) u e)
      go rec (some v) e = refl

module _ {S E Bytes : Type 0} (j : Json S E Bytes) where
  -- If the patch that `DiffWithNil` returns repeats no key in a map, then `Diff` returns one too, and at every path of
  -- keys it has what that patch has, but nothing where that has a `nil`: no value is lost or changed, and the maps
  -- below stay maps.
  pub desire_diff-value_at :
      (d reported delta : Fields S)
      → diff_with_nil j d reported ≡ ok delta
      → UniqueKeys delta
      → (pruned : Fields S) × (desire_diff j d reported ≡ ok pruned)
        × ((k : String) (path : List String)
            → outline (value_at k path pruned) ≡ outline (non_nil (value_at k path delta)))
  unfolding desire_diff diff_with_nil diff
  desire_diff-value_at d reported delta e u =
      (clean delta, ground arith, λ k path. value_at-clean k path delta u)
