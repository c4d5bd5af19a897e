-- ===== src/Spec/Merge/Laws.antt =====
-- What `merge` of spec/v1/node.go leaves in the left map, whatever the order of the loop.
use jopa.Common.{
  ℕ, suc, String, Bool, true, false, ◌&&◌, Option, none, some, ◌≡◌, refl, arith, inl, inr,
  Bool-cases, leb, ◌==ₛ◌, ==ₛ_iff,
}
use jopa.Spec.Value.{Value, Fields, obj, other_map}
use jopa.Spec.Value.{end, field, get, put, get-put}
use jopa.Spec.Merge.{End, done, exceeds_limit, panicked, merge_obj, merge_other_map, after_inner}
use jopa.Spec.Merge.{Rest, enter, merge_fields, merge}

module _ {S : Type 0} where
  abbrev pub is_obj : Value S → Bool
  is_obj (obj _) = true
  is_obj _ = false

  abbrev pub is_obj? : Option (Value S) → Bool
  is_obj? none = false
  is_obj? (some v) = is_obj v

  -- The value `mv` at a key of the merged map, from the values `lv` and `rv` at that key of the left
  -- and of the right map: the right value wins, but two maps are merged key by key.
  pub data MergedAt : Option (Value S) → Option (Value S) → Option (Value S) → Type 0 where
    keep : {lv mv : Option (Value S)} → mv ≡ lv → MergedAt lv none mv
    take :
        {lv mv : Option (Value S)} {rv : Value S}
        → (is_obj? lv && is_obj rv) ≡ false
        → mv ≡ some rv
        → MergedAt lv (some rv) mv
    both :
        {l r m : Fields S}
        → ((k : String) → MergedAt (get k l) (get k r) (get k m))
        → MergedAt (some (obj l)) (some (obj r)) (some (obj m))

  -- The map `m` is the merge of `r` into `l`.
  abbrev pub Merged : Fields S → Fields S → Fields S → Type 0
  Merged l r m = (k : String) → MergedAt (get k l) (get k r) (get k m)

  MergedAt-none : {lv mv : Option (Value S)} → MergedAt lv none mv → mv ≡ lv
  MergedAt-none (keep e) = e

-- The keys of a Go map are distinct, at every level of a nested map.
unfoldable mutual
  pub UniqueKeys : {S : Type 0} → Fields S → Type 0
  UniqueKeys end = Unit
  UniqueKeys (field k v m) = (get k m ≡ none) × UniqueKeysIn v × UniqueKeys m

  pub UniqueKeysIn : {S : Type 0} → Value S → Type 0
  UniqueKeysIn (obj m) = UniqueKeys m
  UniqueKeysIn _ = Unit

module _ {S : Type 0} where
  -- One round of the loop: the key `rk` is settled, and the later entries have other keys.
  Merged-round :
      (rk : String) (v rv : Value S) (left right m : Fields S)
      → get rk right ≡ none
      → MergedAt (get rk left) (some rv) (some v)
      → Merged (put rk v left) right m
      → Merged left (field rk rv right) m
  unfolding get
  Merged-round rk v rv left right m fresh at rest k = elim (Bool-cases (rk ==ₛ k)) [
    | inl same ↦
        let e : rk ≡ k = (==ₛ_iff rk k).0 same in
        let fresh' : get k right ≡ none = rw e at fresh in
        let p : get k m ≡ some v = MergedAt-none (rw (get-put, same, fresh') at (rest k)) in
        rw (same, p) (rw e at at)
    | inr other_key ↦ rw other_key (rw (get-put, other_key) at (rest k))
  ]

  after_inner-Merged :
      (rk : String) (r l left right : Fields S) (rest : Rest S)
      → get rk right ≡ none
      → get rk left ≡ some (obj l)
      → (result : Fields S × End) → (result.1 ≡ done → Merged l r result.0)
      → ((l : Fields S) → (rest l).1 ≡ done → Merged l right (rest l).0)
      → (after_inner rk rest left result).1 ≡ done
      → Merged left (field rk (obj r) right) (after_inner rk rest left result).0
  unfolding after_inner
  after_inner-Merged rk r l left right rest fresh q (l', done) hi hr d =
      Merged-round rk (obj l') (obj r) left right _ fresh (rw q (both (hi refl))) (hr _ d)
  after_inner-Merged rk r l left right rest fresh q (l', exceeds_limit) hi hr d = cc
  after_inner-Merged rk r l left right rest fresh q (l', panicked) hi hr d = cc

  -- The round where `rv` is a `map[string]interface{}`.
  merge_obj-Merged :
      (rk : String) (r left right : Fields S) (inner rest : Rest S)
      → get rk right ≡ none
      → ((l : Fields S) → (inner l).1 ≡ done → Merged l r (inner l).0)
      → ((l : Fields S) → (rest l).1 ≡ done → Merged l right (rest l).0)
      → (lv : Option (Value S)) → get rk left ≡ lv
      → (merge_obj rk r inner rest left lv).1 ≡ done
      → Merged left (field rk (obj r) right) (merge_obj rk r inner rest left lv).0
  unfolding merge_obj
  merge_obj-Merged rk r left right inner rest fresh hi hr (some (obj l)) q d =
      after_inner-Merged rk r l left right rest fresh q (inner l) (hi l) hr d
  merge_obj-Merged rk r left right inner rest fresh hi hr (some (other_map _)) q d = cc
  merge_obj-Merged rk r left right inner rest fresh hi hr _ q d =
      Merged-round rk (obj r) (obj r) left right _ fresh (take (rw q refl) refl) (hr _ d)

  -- The round where `rv` is a map of another type.
  merge_other_map-Merged :
      (rk : String) (s : S) (left right : Fields S) (rest : Rest S)
      → get rk right ≡ none
      → ((l : Fields S) → (rest l).1 ≡ done → Merged l right (rest l).0)
      → (lv : Option (Value S)) → get rk left ≡ lv
      → (merge_other_map rk (other_map s) rest left lv).1 ≡ done
      → Merged left (field rk (other_map s) right) (merge_other_map rk (other_map s) rest left lv).0
  unfolding merge_other_map
  merge_other_map-Merged rk s left right rest fresh hr (some (obj l)) q d = cc
  merge_other_map-Merged rk s left right rest fresh hr (some (other_map _)) q d = cc
  merge_other_map-Merged rk s left right rest fresh hr _ q d =
      Merged-round rk (other_map s) (other_map s) left right _ fresh (take (rw q refl) refl)
        (hr _ d)

  enter-Merged :
      (depth max_depth : ℕ) (l r : Fields S) (body : Fields S × End)
      → (body.1 ≡ done → Merged l r body.0)
      → (enter depth max_depth l body).1 ≡ done
      → Merged l r (enter depth max_depth l body).0
  enter-Merged depth max_depth l r body h d = elim (Bool-cases (leb max_depth depth)) [
    | inl deep ↦ let e : exceeds_limit ≡ done = rw deep at d in cc
    | inr ok ↦ rw ok (h (rw ok at d))
  ]

  merge_fields-Merged :
      (depth max_depth : ℕ) (left right : Fields S)
      → UniqueKeys right
      → (merge_fields depth max_depth left right).1 ≡ done
      → Merged left right (merge_fields depth max_depth left right).0
  unfolding merge_fields UniqueKeys get
  merge_fields-Merged depth max_depth left end u d = λ k. keep refl
  merge_fields-Merged depth max_depth left (field rk (obj r) right) (fresh, ur, u) d =
      merge_obj-Merged rk r left right _ _ fresh
        (λ l.
          enter-Merged (suc depth) max_depth l r _
            (merge_fields-Merged (suc depth) max_depth l r ur))
        (λ l. merge_fields-Merged depth max_depth l right u) (get rk left) refl d
  merge_fields-Merged depth max_depth left (field rk (other_map s) right) (fresh, _, u) d =
      merge_other_map-Merged rk s left right _ fresh
        (λ l. merge_fields-Merged depth max_depth l right u) (get rk left) refl d
  merge_fields-Merged depth max_depth left (field rk rv right) (fresh, _, u) d =
      Merged-round rk rv rv left right _ fresh (take (ground arith) refl)
        (merge_fields-Merged depth max_depth (put rk rv left) right u d)

  -- After a merge that reports no error, of a right map without a repeated key, the left map holds at
  -- every key the right map's value, or the merge of both values where both are maps, or its own value
  -- where the right map has no such key; so the order in which the loop meets the entries does not matter.
  pub merge-Merged :
      (left right : Fields S) (depth max_depth : ℕ)
      → UniqueKeys right
      → (merge left right depth max_depth).1 ≡ done
      → Merged left right (merge left right depth max_depth).0
  unfolding merge
  merge-Merged left right depth max_depth u d =
      enter-Merged depth max_depth left right _ (merge_fields-Merged depth max_depth left right u) d
