-- ===== src/Dm/Report/Passed.antt =====
-- When the filter passes a property on, in terms of the clock and of the two values.
use jopa.Common.{
  ℕ, ◌+◌, ◌-◌, ◌*◌, ◌%◌, ◌<◌, ◌≤◌, Bool, true, false, ◌&&◌, ◌||◌, Option, none, some, ◌≡◌, refl,
  sym, ap, ◌∙◌, ◌↔◌, ◌⊎◌, inl, inr, arith, Bool-cases, ltb, subst,
}
use jopa.Common.Int.{ℤ, pos, negsuc}
use jopa.Common.Outcome.{Outcome, ok, err, panic}
use jopa.Dm.Expression.{
  Floats, Failure, Value, int, int16, int32, int64, float32, float64, other_value,
}
use jopa.Dm.Expression.Exec.{is_calculable, parse_value_to_float64}
use jopa.Dm.Report.{
  ModelMapping, ReportProperty, Order, duration_bits, elapsed, is_due, exceeds, compare_values,
}

-- The silent window in nanoseconds, as the 64 bits of a duration.
abbrev pub window : ℤ → ℕ
window (pos n) = n * 1000000000 % 18446744073709551616
window (negsuc n) =
    (18446744073709551616 - (n + 1) * 1000000000 % 18446744073709551616) % 18446744073709551616

-- More time than the window has passed since; a window from 2 ^ 63 on is negative, and that of 2 ^ 63 - 1 never ends.
abbrev pub Elapsed : ℕ → ℕ → ℕ → Type 0
Elapsed now time bits =
    ((bits < 9223372036854775807) × (time + bits < now))
    ⊎ ((9223372036854775808 ≤ bits) × (time < now + (18446744073709551616 - bits)))

and_true : {a b : Bool} → a ≡ true → b ≡ true → a && b ≡ true
and_true p q = rw (p, q) refl

elapsed_iff : (now time bits : ℕ) → (elapsed now time bits ≡ true) ↔ Elapsed now time bits
unfolding elapsed
elapsed_iff now time bits = elim (Bool-cases (ltb bits 9223372036854775808)) [
  | inl small ↦ rw small (
    (λ e. inl (ground arith, ground arith)),
    (λ w. elim w [
      | inl x ↦
          let (a, b) = x in
          and_true {a = ltb (time + bits) now} {b = ltb bits 9223372036854775807} (ground arith)
            (ground arith)
      | inr x ↦ let (a, b) = x in absurd (ground arith)
    ]),
  )
  | inr large ↦ rw large (
    (λ e. inr (ground arith, ground arith)),
    (λ w. elim w [
      | inl x ↦ let (a, b) = x in absurd (ground arith)
      | inr x ↦ let (a, b) = x in ground arith
    ]),
  )
]

some_injective : {A : Type 0} {x y : A} → some x ≡ some y → x ≡ y
some_injective {x = x} e = ap (λ o. elim o [ none ↦ x | some z ↦ z ]) e

or_iff : {A B : Type 0} (a b : Bool) → (a ≡ true) ↔ A → (b ≡ true) ↔ B → (a || b ≡ true) ↔ (A ⊎ B)
or_iff true b (there, back) (there', back') = (λ e. inl (there refl), λ w. refl)
or_iff false b (there, back) (there', back') = (
  λ e. inr (there' e),
  λ w. elim w [ inl x ↦ let e : false ≡ true = back x in absurd cc | inr y ↦ back' y ],
)

module _ {F Go : Type 0} (f : Floats F) (order : Order F) (now : ℕ) where
  -- There was no report, or the silent window has passed since the last one.
  abbrev pub Due : ModelMapping F → Option (ReportProperty F Go) → Type 0
  Due mp none = Unit
  Due mp (some p) = Elapsed now p.time (window mp.silent_win)

  -- The value as a float.
  abbrev pub number_of : Value F Go → Option F
  number_of (int n) = some (f.of_int n)
  number_of (int16 n) = some (f.of_int n)
  number_of (int32 n) = some (f.of_int n)
  number_of (int64 n) = some (f.of_int n)
  number_of (float32 x) = some (f.widen x)
  number_of (float64 x) = some x
  number_of (other_value x) = none

  -- The value and the last one are numbers, and the increase is at least the deviation in percent of the last one.
  abbrev pub Rises : ModelMapping F → Value F Go → Option (ReportProperty F Go) → Type 0
  Rises mp value none = ⊥
  Rises mp value (some p) =
      (x last : F) × (number_of value ≡ some x)
      × (number_of p.value ≡ some last)
      × (order.ge (f.minus x last) (f.over (f.times last mp.deviation) order.hundred) ≡ true)

  abbrev pub Passed : ModelMapping F → Value F Go → Option (ReportProperty F Go) → Type 0
  Passed mp value last = Due mp last ⊎ Rises mp value last

  Due-iff :
      (mp : ModelMapping F) (last : Option (ReportProperty F Go))
      → (is_due now mp last ≡ true) ↔ Due mp last
  unfolding is_due duration_bits
  Due-iff mp none = (λ e. tt, λ d. refl)
  Due-iff mp (some p) = by_sign mp.silent_win
    where
      by_sign :
          (s : ℤ) → (elapsed now p.time (duration_bits s) ≡ true) ↔ Elapsed now p.time (window s)
      by_sign (pos n) = elapsed_iff now p.time (window (pos n))
      by_sign (negsuc n) = elapsed_iff now p.time (window (negsuc n))

  -- Parsing gives the number, and only a number is calculable.
  abbrev Parsed : Value F Go → Type 0
  Parsed value =
      ((is_calculable f value ≡ true)
        × ((x : F) × (number_of value ≡ some x) × (parse_value_to_float64 f value ≡ ok x)))
      ⊎ ((is_calculable f value ≡ false)
          × (number_of value ≡ none)
          × ((deviation : F) (o : Outcome Failure F)
              → (compare_values f order deviation o (parse_value_to_float64 f value) ≡ false)))

  value-Parsed : (value : Value F Go) → Parsed value
  unfolding is_calculable parse_value_to_float64 compare_values
  value-Parsed (int n) = inl (refl, (f.of_int n, refl, refl))
  value-Parsed (int16 n) = inl (refl, (f.of_int n, refl, refl))
  value-Parsed (int32 n) = inl (refl, (f.of_int n, refl, refl))
  value-Parsed (int64 n) = inl (refl, (f.of_int n, refl, refl))
  value-Parsed (float32 x) = inl (refl, (f.widen x, refl, refl))
  value-Parsed (float64 x) = inl (refl, (x, refl, refl))
  value-Parsed (other_value x) = inr (refl, refl, compare_err)
    where
      compare_err :
          (deviation : F) (o : Outcome Failure F)
          → compare_values f order deviation o (parse_value_to_float64 f (other_value x)) ≡ false
      compare_err deviation (ok y) = refl
      compare_err deviation (err e) = refl
      compare_err deviation panic = refl

  compares_iff :
      (mp : ModelMapping F) (value : Value F Go) (p : ReportProperty F Go)
      → (is_calculable f value
            && compare_values f order mp.deviation
                (parse_value_to_float64 f value)
                (parse_value_to_float64 f p.value)
          ≡ true)
        ↔ Rises mp value (some p)
  unfolding compare_values
  compares_iff mp value p = elim (value-Parsed value) [
    | inr refused ↦
        let (calc, nothing, _) = refused in
        rw calc (λ e. absurd cc, λ w. let (x, last, is_x, _, _) = w in absurd cc)
    | inl counts ↦
        let (calc, (x, is_x, parsed)) = counts in
        elim (value-Parsed p.value) [
          | inr refused ↦
              let (_, nothing, refuses) = refused in
              rw (calc, refuses mp.deviation (parse_value_to_float64 f value))
                (λ e. absurd cc, λ w. let (y, last, _, is_last, _) = w in absurd cc)
          | inl found ↦
              let (_, (l, is_l, parsed')) = found in
              rw (calc, parsed, parsed')
                (
                  λ e. (x, l, is_x, is_l, e),
                  λ w.
                      let (y, last, is_y, is_last, large) = w in
                      let a : y ≡ x = some_injective (sym is_y ∙ is_x) in
                      let b : last ≡ l = some_injective (sym is_last ∙ is_l) in
                      subst
                        (λ z.
                          order.ge (f.minus z l) (f.over (f.times l mp.deviation) order.hundred)
                          ≡ true)
                        a
                        (subst
                          (λ z.
                            order.ge (f.minus y z) (f.over (f.times z mp.deviation) order.hundred)
                            ≡ true)
                          b large),
                )
        ]
  ]

  Rises-iff :
      (mp : ModelMapping F) (value : Value F Go) (last : Option (ReportProperty F Go))
      → (is_calculable f value && exceeds f order mp value last ≡ true) ↔ Rises mp value last
  unfolding exceeds
  Rises-iff mp value none = (λ e. ground arith, λ w. absurd w)
  Rises-iff mp value (some p) = compares_iff mp value p

  -- The two tests of the code together.
  pub Passed-iff :
      (mp : ModelMapping F) (value : Value F Go) (last : Option (ReportProperty F Go))
      → (is_due now mp last || (is_calculable f value && exceeds f order mp value last) ≡ true)
        ↔ Passed mp value last
  Passed-iff mp value last =
      or_iff (is_due now mp last) (is_calculable f value && exceeds f order mp value last)
        (Due-iff mp last) (Rises-iff mp value last)
