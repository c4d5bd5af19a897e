-- ===== src/Spec/Merge/Total.antt =====
-- When `merge` of spec/v1/node.go reports no error.
use jopa.Common.{
  ℕ, suc, ◌+◌, ◌<◌, max, String, false, Option, some, ◌≡◌, refl, arith, inl, inr, Bool-cases, leb,
  ◌==ₛ◌,
}
use jopa.Spec.Value.{Value, Fields, obj, other_map}
use jopa.Spec.Value.{end, field, get, put}
use jopa.Spec.Merge.{End, done, exceeds_limit, panicked, merge_obj, after_inner}
use jopa.Spec.Merge.{Rest, enter, merge_fields, merge}

-- No map of another type than `map[string]interface{}` at any level, as after a JSON decoding.
unfoldable mutual
  pub PlainFields : {S : Type 0} → Fields S → Type 0
  PlainFields end = Unit
  PlainFields (field k v m) = Plain v × PlainFields m

  pub Plain : {S : Type 0} → Value S → Type 0
  Plain (obj m) = PlainFields m
  Plain (other_map _) = ⊥
  Plain _ = Unit

-- How deep maps are nested in a map.
unfoldable mutual
  pub height : {S : Type 0} → Fields S → ℕ
  height end = 0
  height (field k v m) = max (height_value v) (height m)

  pub height_value : {S : Type 0} → Value S → ℕ
  height_value (obj m) = suc (height m)
  height_value _ = 0

module _ {S : Type 0} where
  Plain-get : (k : String) (v : Value S) (m : Fields S) → PlainFields m → get k m ≡ some v → Plain v
  unfolding get PlainFields
  Plain-get k v end p e = cc
  Plain-get k v (field j w m) (pw, p) e = elim (Bool-cases (j ==ₛ k)) [
    | inl same ↦ let q : some w ≡ some v = rw same at e in let q' : w ≡ v = cc in rw q' at pw
    | inr other_key ↦ Plain-get k v m p (rw other_key at e)
  ]

  PlainFields-put :
      (k : String) (v : Value S) (m : Fields S) → Plain v → PlainFields m → PlainFields (put k v m)
  unfolding put PlainFields
  PlainFields-put k v end pv p = (pv, tt)
  PlainFields-put k v (field j w m) pv (pw, p) = elim (Bool-cases (j ==ₛ k)) [
    | inl same ↦ rw same (pv, p)
    | inr other_key ↦ rw other_key (pw, PlainFields-put k v m pv p)
  ]

  -- No error, and the left map is plain still.
  abbrev Good : Fields S × End → Type 0
  Good result = (result.1 ≡ done) × PlainFields result.0

  after_inner-Good :
      (rk : String) (rest : Rest S) (left : Fields S) (result : Fields S × End)
      → PlainFields left
      → Good result
      → ((l : Fields S) → PlainFields l → Good (rest l))
      → Good (after_inner rk rest left result)
  unfolding after_inner PlainFields
  after_inner-Good rk rest left (l, done) p (d, pl) h = h _ (PlainFields-put rk (obj l) left pl p)
  after_inner-Good rk rest left (l, exceeds_limit) p (d, pl) h = cc
  after_inner-Good rk rest left (l, panicked) p (d, pl) h = cc

  merge_obj-Good :
      (rk : String) (r left : Fields S) (inner rest : Rest S)
      → PlainFields left
      → PlainFields r
      → ((l : Fields S) → PlainFields l → Good (inner l))
      → ((l : Fields S) → PlainFields l → Good (rest l))
      → (lv : Option (Value S)) → get rk left ≡ lv
      → Good (merge_obj rk r inner rest left lv)
  unfolding merge_obj PlainFields
  merge_obj-Good rk r left inner rest p pr hi h (some (obj l)) q =
      after_inner-Good rk rest left (inner l) p (hi l (Plain-get rk (obj l) left p q)) h
  merge_obj-Good rk r left inner rest p pr hi h (some (other_map s)) q =
      absurd (Plain-get rk (other_map s) left p q)
  merge_obj-Good rk r left inner rest p pr hi h _ q = h _ (PlainFields-put rk (obj r) left pr p)

  enter-Good :
      (depth max_depth : ℕ) (l : Fields S) (body : Fields S × End)
      → depth < max_depth
      → Good body
      → Good (enter depth max_depth l body)
  enter-Good depth max_depth l body h g =
      let e : leb max_depth depth ≡ false = ground arith in rw e g

  merge_fields-Good :
      (depth max_depth : ℕ) (left right : Fields S)
      → PlainFields left
      → PlainFields right
      → depth + height right < max_depth
      → Good (merge_fields depth max_depth left right)
  unfolding merge_fields PlainFields height
  merge_fields-Good depth max_depth left end p q h = (refl, p)
  merge_fields-Good depth max_depth left (field rk (obj r) right) p (pr, q) h =
      merge_obj-Good rk r left _ _ p pr
        (λ l pl.
          enter-Good (suc depth) max_depth l _ (omega arith)
            (merge_fields-Good (suc depth) max_depth l r pl pr (omega arith)))
        (λ l pl. merge_fields-Good depth max_depth l right pl q (omega arith)) (get rk left) refl
  merge_fields-Good depth max_depth left (field rk (other_map s) right) p (pr, q) h = absurd pr
  merge_fields-Good depth max_depth left (field rk rv right) p (pr, q) h =
      merge_fields-Good depth max_depth (put rk rv left) right (PlainFields-put rk rv left pr p) q
        (omega arith)

  -- A merge of plain maps reports no error where the right map's nesting leaves room below the limit.
  pub merge_total :
      (left right : Fields S) (depth max_depth : ℕ)
      → PlainFields left
      → PlainFields right
      → depth + height right < max_depth
      → (merge left right depth max_depth).1 ≡ done
  unfolding merge
  merge_total left right depth max_depth p q h =
      (enter-Good depth max_depth left _ (omega arith)
        (merge_fields-Good depth max_depth left right p q h)).0
