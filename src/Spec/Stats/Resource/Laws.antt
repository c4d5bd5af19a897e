-- ===== src/Spec/Stats/Resource/Laws.antt =====
-- What percentages the statistics of a node get.
use jopa.Common.{
  String, Bool, true, false, Option, none, some, ◌≡◌, ◌≢◌, refl, ◌∙◌, ap, arith, not, ==ₛ_iff,
  ne_of_test, if◌then◌else◌,
}
use jopa.Common.Dict.{Dict, lookup, insert, lookup-insert, lookup-insert_self}
use jopa.Common.Int.{ℤ, leb_ℤ, is_zero}
use jopa.Common.Outcome.{Outcome, ok, ◌>>=◌}
use jopa.Spec.Stats.{NodeStats, Extension, values, opaque_value}
use jopa.Spec.Stats.Resource.{
  Quantities, Tables, or_empty, cpu, memory, gpu, disk, process_resource_percent, copy_float,
  with_extension, populate_stats,
}

insert_elsewhere :
    {V : Type 0} (k j : String) (v : V) (m : Dict V) → k ≢ j → lookup j (insert k v m) ≡ lookup j m
insert_elsewhere k j v m ne = rw lookup-insert (ground (arith, ==ₛ_iff k j))

if-not : (b : Bool) (x y : String) → (if not b then x else y) ≡ (if b then y else x)
if-not true x y = refl
if-not false x y = refl

abbrev with_maps :
    {E : Type 0}
    → Dict String
    → Dict String
    → String
    → Outcome E (String × Dict String × Dict String)
with_maps c u p = ok (p, c, u)

module _ {E F : Type 0} (q : Quantities E F) where
  -- The text at a key, if there is one, is the quantity `z`.
  abbrev pub Reads : Option String → Bool → Option ℤ → Type 0
  Reads none milli none = Unit
  Reads none milli (some z) = ⊥
  Reads (some text) milli none = ⊥
  Reads (some text) milli (some z) = q.parse text milli ≡ ok z

  -- The share of a capacity that is used, as a text between 0 and 1.
  abbrev pub share : Option ℤ → Option ℤ → String
  share (some total) (some usage) =
      if is_zero total then "0" else if leb_ℤ total usage then "1" else q.format_ratio usage total
  share none usage = "0"
  share (some total) none = "0"

  module _ (key : String) (milli : Bool) (format : ℤ → String) where
    abbrev populate : String → Dict String → Outcome E (ℤ × Dict String)
    populate text m = do z ← q.parse text milli; ok (z, insert key (format z) m)

    -- The outcome is a percentage, and maps that differ at most at the key.
    abbrev Percent : Dict String → Dict String → Option ℤ → Option ℤ → Type 0
    Percent capacity usages total usage =
        (capacity' : Dict String) × (usages' : Dict String) × (process_resource_percent
            q.format_ratio capacity usages key populate
          ≡ ok (share total usage, capacity', usages'))
        × ((k : String) → key ≢ k → lookup k capacity' ≡ lookup k capacity)
        × ((k : String) → key ≢ k → lookup k usages' ≡ lookup k usages)

    Percent-at :
        (capacity usages : Dict String) (c u : Option String) (total usage : Option ℤ)
        → lookup key capacity ≡ c
        → lookup key usages ≡ u
        → Reads c milli total
        → Reads u milli usage
        → Percent capacity usages total usage
    unfolding process_resource_percent
    Percent-at capacity usages none none none none ec eu rc ru =
        (capacity, usages, rw (ec, eu), λ k ne. refl, λ k ne. refl)
    Percent-at capacity usages none (some u) none (some y) ec eu rc ru = (
      capacity,
      insert key (format y) usages,
      rw (ec, eu, ru),
      λ k ne. refl,
      λ k ne. insert_elsewhere key k _ usages ne,
    )
    Percent-at capacity usages (some c) none (some x) none ec eu rc ru = (
      insert key (format x) capacity,
      usages,
      rw (ec, eu, rc),
      λ k ne. insert_elsewhere key k _ capacity ne,
      λ k ne. refl,
    )
    Percent-at capacity usages (some c) (some u) (some x) (some y) ec eu rc ru = (
      insert key (format x) capacity,
      insert key (format y) usages,
      rw (ec, eu) (rw (rc, ru) (ap (with_maps _ _) (if-not (is_zero x) _ _))),
      λ k ne. insert_elsewhere key k _ capacity ne,
      λ k ne. insert_elsewhere key k _ usages ne,
    )
    Percent-at capacity usages none u (some x) usage ec eu rc ru = absurd rc
    Percent-at capacity usages (some c) u none usage ec eu rc ru = absurd rc
    Percent-at capacity usages none none none (some x) ec eu rc ru = absurd ru
    Percent-at capacity usages none (some x) none none ec eu rc ru = absurd ru
    Percent-at capacity usages (some c) none (some x) (some y) ec eu rc ru = absurd ru
    Percent-at capacity usages (some c) (some y) (some x) none ec eu rc ru = absurd ru

  copy_float_elsewhere :
      (k : String) (stats : Dict (Option F)) (target key : String) (m : Dict String)
      → target ≢ key
      → (o : Option (Option F)) → lookup k stats ≡ o
      → lookup key (copy_float q k stats target m) ≡ lookup key m
  unfolding copy_float
  copy_float_elsewhere k stats target key m ne none e = rw (e, copy_float)
  copy_float_elsewhere k stats target key m ne (some none) e =
      rw (e, copy_float) (insert_elsewhere target key _ m ne)
  copy_float_elsewhere k stats target key m ne (some (some x)) e =
      rw (e, copy_float) (insert_elsewhere target key _ m ne)

  with_extension-percent :
      (s : NodeStats F) (t : Tables) (ext : Option (Extension F)) (key : String)
      → gpu ≢ key
      → disk ≢ key
      → lookup key (or_empty (with_extension q s t ext).percent) ≡ lookup key t.percent
  unfolding with_extension
  with_extension-percent s t none key g d = refl
  with_extension-percent s t (some opaque_value) key g d = refl
  with_extension-percent s t (some (values stats)) key g d =
      copy_float_elsewhere "diskPercent" stats disk key _ d _ refl
      ∙ copy_float_elsewhere "percent" stats gpu key _ g _ refl

  -- Where the quantities at `memory` and at `cpu` can be parsed, the statistics get the shares that are
  -- used as percentages, whatever the extension holds.
  pub populate_stats_lem :
      (s : NodeStats F) (mem_total mem_usage cpu_total cpu_usage : Option ℤ)
      → Reads (lookup memory (or_empty s.capacity)) false mem_total
      → Reads (lookup memory (or_empty s.usage)) false mem_usage
      → Reads (lookup cpu (or_empty s.capacity)) true cpu_total
      → Reads (lookup cpu (or_empty s.usage)) true cpu_usage
      → (s' : NodeStats F) × (populate_stats q s ≡ ok s')
        × (lookup memory (or_empty s'.percent) ≡ some (share mem_total mem_usage))
        × (lookup cpu (or_empty s'.percent) ≡ some (share cpu_total cpu_usage))
  unfolding populate_stats
  populate_stats_lem s mt mu ct cu hmt hmu hct hcu =
      let ne : memory ≢ cpu = ne_of_test memory cpu refl in
      let (capacity, usages, e, kc, ku) =
        Percent-at memory false q.format_int (or_empty s.capacity) (or_empty s.usage) _ _ mt mu refl
          refl hmt hmu in
      let (capacity', usages', e', _, _) =
        Percent-at cpu true q.format_milli capacity usages _ _ ct cu (kc cpu ne) (ku cpu ne) hct
          hcu in
      let percent : Dict String =
        insert cpu (share ct cu) (insert memory (share mt mu) (or_empty s.percent)) in
      let t : Tables = record { usage = usages'; capacity = capacity'; percent = percent } in
      (
        with_extension q s t s.extension,
        rw (e, e') refl,
        with_extension-percent s t s.extension memory (ne_of_test gpu memory refl)
              (ne_of_test disk memory refl)
            ∙ insert_elsewhere cpu memory _ _ (ne_of_test cpu memory refl)
            ∙ lookup-insert_self memory _ _,
        with_extension-percent s t s.extension cpu (ne_of_test gpu cpu refl)
              (ne_of_test disk cpu refl)
            ∙ lookup-insert_self cpu _ _,
      )
