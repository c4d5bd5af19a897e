-- ===== src/Dm/Report/Laws.antt =====
-- Which properties the filter passes on.
use jopa.Common.{
  ℕ, String, Bool, true, false, ◌&&◌, ◌||◌, Option, none, some, List, [], ◌∷◌, ◌≡◌, refl, ap, ◌∙◌,
  arith, inl, inr, ◌↔◌, Bool-cases, ◌==ₛ◌, ==ₛ_iff, if◌then◌else◌, if_holds,
}
use jopa.Common.Dict.{Dict, lookup, insert, lookup-insert, lookup-insert_self}
use jopa.Dm.Expression.{Floats, Value}
use jopa.Dm.Expression.Exec.{is_calculable}
use jopa.Dm.Report.Passed.{Passed, Passed-iff}
use jopa.Dm.Report.{
  ModelMapping, ReportProperty, Progress, Order, prop_mapping, is_due, pass_on, exceeds,
  filter_mapped, filter_entry, filter_report, report_with_filter, filter_found,
}

-- No key stands twice in the map.
abbrev pub UniqueKeys : {V : Type 0} → Dict V → Type 0
UniqueKeys [] = Unit
UniqueKeys ((k, _) ∷ m) = (lookup k m ≡ none) × UniqueKeys m

insert_same :
    {V : Type 0} (k j : String) (v : V) (m : Dict V)
    → k ==ₛ j ≡ true
    → lookup j (insert k v m) ≡ some v
insert_same k j v m e = lookup-insert k j v m ∙ ap (λ b. if b then some v else lookup j m) e

insert_other :
    {V : Type 0} (k j : String) (v : V) (m : Dict V)
    → k ==ₛ j ≡ false
    → lookup j (insert k v m) ≡ lookup j m
insert_other k j v m e = lookup-insert k j v m ∙ ap (λ b. if b then some v else lookup j m) e

module _ {F Go : Type 0} (f : Floats F) (order : Order F) (now : ℕ) where
  -- A property is passed on if it is due or deviates from its last report.
  abbrev is_passed : ModelMapping F → Value F Go → Option (ReportProperty F Go) → Bool
  is_passed mp value last =
      is_due now mp last || (is_calculable f value && exceeds f order mp value last)

  -- What the two maps hold at a key.
  abbrev pub Holds :
      String → Progress F Go → Option (Value F Go) → Option (ReportProperty F Go) → Type 0
  Holds k s filtered last = (lookup k s.filtered ≡ filtered) × (lookup k s.last ≡ last)

  pass_on-other :
      (k j : String) (value : Value F Go) (s : Progress F Go)
      → k ==ₛ j ≡ false
      → Holds j (pass_on now k value s) (lookup j s.filtered) (lookup j s.last)
  unfolding pass_on
  pass_on-other k j value s e = (insert_other k j _ s.filtered e, insert_other k j _ s.last e)

  pass_on-same :
      (k : String) (value : Value F Go) (s : Progress F Go)
      → Holds k (pass_on now k value s) (some value) (some (record { time = now; value = value }))
  unfolding pass_on
  pass_on-same k value s = (lookup-insert_self k _ s.filtered, lookup-insert_self k _ s.last)

  may_pass-other :
      (k j : String) (value : Value F Go) (b : Bool) (s : Progress F Go)
      → k ==ₛ j ≡ false
      → Holds j (if b then pass_on now k value s else s) (lookup j s.filtered) (lookup j s.last)
  may_pass-other k j value true s e = pass_on-other k j value s e
  may_pass-other k j value false s e = (refl, refl)

  entry-other :
      (k j : String) (value : Value F Go) (s : Progress F Go) (o : Option (ModelMapping F))
      → k ==ₛ j ≡ false
      → Holds j (filter_entry f order now k value s o) (lookup j s.filtered) (lookup j s.last)
  unfolding filter_entry filter_mapped
  entry-other k j value s none e = (refl, refl)
  entry-other k j value s (some mp) e =
      let due = is_due now mp (lookup k s.last) in
      let t = if due then pass_on now k value s else s in
      let (a, b) = may_pass-other k j value due s e in
      let (a', b') =
        may_pass-other k j value
          (is_calculable f value && exceeds f order mp value (lookup k t.last)) t e in
      (a' ∙ a, b' ∙ b)

  -- What a property leaves at its own key.
  abbrev pub Filtered : String → Value F Go → Progress F Go → Progress F Go → Bool → Type 0
  Filtered k value s s' passed =
      Holds k s' (if passed then some value else lookup k s.filtered)
        (if passed then some (record { time = now; value = value }) else lookup k s.last)

  may_pass-same :
      (k : String) (value : Value F Go) (b : Bool) (s : Progress F Go)
      → Filtered k value s (if b then pass_on now k value s else s) b
  may_pass-same k value true s = pass_on-same k value s
  may_pass-same k value false s = (refl, refl)

  mapped-same :
      (k : String) (value : Value F Go) (mp : ModelMapping F) (s : Progress F Go) (due : Bool)
      → let t = if due then pass_on now k value s else s in
        let passed = is_calculable f value && exceeds f order mp value (lookup k t.last) in
        let passed_at_once = is_calculable f value && exceeds f order mp value (lookup k s.last) in
        Filtered k value s (if passed then pass_on now k value t else t) (due || passed_at_once)
  mapped-same k value mp s true =
      let t = pass_on now k value s in
      if_holds (λ u. Filtered k value s u true)
        (is_calculable f value && exceeds f order mp value (lookup k t.last))
        (pass_on-same k value t) (pass_on-same k value s)
  mapped-same k value mp s false =
      may_pass-same k value (is_calculable f value && exceeds f order mp value (lookup k s.last)) s

  report-other :
      (props : Dict (ModelMapping F)) (report : Dict (Value F Go)) (s : Progress F Go) (j : String)
      → lookup j report ≡ none
      → Holds j (filter_report f order now props report s) (lookup j s.filtered) (lookup j s.last)
  unfolding filter_report lookup
  report-other props [] s j e = (refl, refl)
  report-other props ((k, value) ∷ report) s j e = elim (Bool-cases (k ==ₛ j)) [
    | inl same ↦ let bad : some value ≡ none = rw same at e in cc
    | inr differ ↦
        let t = filter_entry f order now k value s (lookup k props) in
        let (a, b) = report-other props report t j (rw differ at e) in
        let (a', b') = entry-other k j value s (lookup k props) differ in (a ∙ a', b ∙ b')
  ]

  report-Filtered :
      (props : Dict (ModelMapping F)) (report : Dict (Value F Go)) (s : Progress F Go) (k : String)
      (value : Value F Go) (mp : ModelMapping F)
      → UniqueKeys report
      → lookup k report ≡ some value
      → lookup k props ≡ some mp
      → Filtered k value s
          (filter_report f order now props report s)
          (is_passed mp value (lookup k s.last))
  unfolding filter_report filter_entry filter_mapped lookup
  report-Filtered props [] s k value mp u e m = cc
  report-Filtered props ((j, w) ∷ report) s k value mp (fresh, u) e m =
      elim (Bool-cases (j ==ₛ k)) [
        | inl same ↦
            let key : j ≡ k = (==ₛ_iff j k).0 same in
            let val : w ≡ value = ground arith in
            let fresh' : lookup k report ≡ none = rw key at fresh in
            let t = filter_entry f order now j w s (lookup j props) in
            let (a, b) = report-other props report t k fresh' in
            let q : t ≡ filter_mapped f order now mp k value s =
              ap (λ x. filter_entry f order now x w s (lookup x props)) key
              ∙ ap (λ x. filter_entry f order now k x s (lookup k props)) val
              ∙ ap (filter_entry f order now k value s) m in
            let (a', b') = mapped-same k value mp s (is_due now mp (lookup k s.last)) in
            (a ∙ ap (λ x. lookup k x.filtered) q ∙ a', b ∙ ap (λ x. lookup k x.last) q ∙ b')
        | inr differ ↦
            let t = filter_entry f order now j w s (lookup j props) in
            let (here, there) = entry-other j k w s (lookup j props) differ in
            let (a, b) = report-Filtered props report t k value mp u (rw differ at e) m in
            let p = is_passed mp value in
            (
              a
                  ∙ ap (λ x. if p x then some value else lookup k t.filtered) there
                  ∙ ap (λ x. if p (lookup k s.last) then some value else x) here,
              b ∙ ap (λ x. if p x then some (record { time = now; value = value }) else x) there,
            )
      ]

  -- A report without a repeated key, for a device with a template: a property that the template maps is passed on, with
  -- its value and in whatever order the loop meets it, exactly if it was never reported, or more than the silent
  -- window has passed since it was (the window being a duration of 64 bits, which wraps around), or it and its last
  -- value are both numbers and it is greater by at least the deviation in percent of the last one; exactly then its
  -- last report becomes this one.
  pub report_with_filter_lem :
      (templates : Dict (List (ModelMapping F))) (template : String)
      (mappings : List (ModelMapping F)) (report : Dict (Value F Go))
      (last : Dict (ReportProperty F Go)) (k : String) (value : Value F Go) (mp : ModelMapping F)
      → lookup template templates ≡ some mappings
      → UniqueKeys report
      → lookup k report ≡ some value
      → lookup k (prop_mapping mappings []) ≡ some mp
      → (s : Progress F Go) × (report_with_filter f order now templates template report last
          ≡ some s)
        × ((passed : Bool) × ((passed ≡ true) ↔ Passed f order now mp value (lookup k last))
            × Filtered k value (record { filtered = []; last = last }) s passed)
  unfolding report_with_filter filter_found
  report_with_filter_lem templates template mappings report last k value mp found u e m =
      let start : Progress F Go = record { filtered = []; last = last } in
      (
        filter_report f order now (prop_mapping mappings []) report start,
        ap (filter_found f order now report last) found,
        (
          is_passed mp value (lookup k last),
          Passed-iff f order now mp value (lookup k last),
          report-Filtered (prop_mapping mappings []) report start k value mp u e m,
        ),
      )
