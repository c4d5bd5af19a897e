-- ===== src/Dm/Expression/Exec.antt =====
-- The other half of dmcontext/expression.go: `ExecExpression` and what it calls.
use jopa.Common.{
  ℕ, String, Bool, true, false, Option, none, some, List, [], ◌∷◌, ◌≡◌, refl, sym, subst, ap, ◌∙◌,
  All, Bool-cases, inl, inr, ==ₛ_iff, ltb, ◌==ₛ◌, if◌then◌else◌,
}
use jopa.Common.Dict.{Dict, lookup, insert, lookup-insert, lookup-insert_self}
use jopa.Common.Outcome.{Outcome, ok, err, panic, ◌>>=◌, >>=-eq-ok, ok_injective}
use jopa.Dm.Expression.{
  Expression, Floats, Failure, Value, int, int16, int32, int64, float32, float64, other_value,
  parse_error, unknown_mapping, unsupported_value, not_one_variable, missing_argument,
}

abbrev pub mapping_none : String
mapping_none = "none"

abbrev pub mapping_value : String
mapping_value = "value"

abbrev pub mapping_calculate : String
mapping_calculate = "calculate"

-- The result of a mapping: `nil`, the argument as it came, or a float64.
pub data Mapped (F Go : Type 0) : Type 0 where
  no_value : Mapped F Go
  as_is : Value F Go → Mapped F Go
  number : F → Mapped F Go

-- A precision is rounded to if it is positive; -1 and 0 are one case.
module _ {F Go : Type 0} (f : Floats F) where
  -- `parseValueToFloat64`
  unfoldable pub parse_value_to_float64 : Value F Go → Outcome Failure F
  parse_value_to_float64 (int n) = ok (f.of_int n)
  parse_value_to_float64 (int16 n) = ok (f.of_int n)
  parse_value_to_float64 (int32 n) = ok (f.of_int n)
  parse_value_to_float64 (int64 n) = ok (f.of_int n)
  parse_value_to_float64 (float32 x) = ok (f.widen x)
  parse_value_to_float64 (float64 x) = ok x
  parse_value_to_float64 (other_value x) = err unsupported_value

  -- `isCalculable` of dmcontext/context.go
  unfoldable pub is_calculable : Value F Go → Bool
  is_calculable (other_value x) = false
  is_calculable _ = true

  round_value : ℕ → Value F Go → Outcome Failure F → Outcome Failure (Mapped F Go)
  round_value precision val (ok x) = do y ← f.round_to precision x; ok (number y)
  round_value precision val (err unsupported_value) = ok (as_is val)
  round_value precision val (err e) = err e
  round_value precision val panic = panic

  map_argument : ℕ → Option (Value F Go) → Outcome Failure (Mapped F Go)
  unfolding round_value parse_value_to_float64
  map_argument precision none = err missing_argument
  map_argument precision (some val) =
      if ltb 0 precision
      then round_value precision val (parse_value_to_float64 val)
      else ok (as_is val)

  -- The variables of the expression; exactly one is asked for.
  map_variables : Dict (Value F Go) → ℕ → List String → Outcome Failure (Mapped F Go)
  unfolding map_argument
  map_variables args precision (v ∷ []) = map_argument precision (lookup v args)
  map_variables args precision _ = err not_one_variable

  map_parsed : Dict (Value F Go) → ℕ → Option Expression → Outcome Failure (Mapped F Go)
  unfolding map_variables
  map_parsed args precision none = err parse_error
  map_parsed args precision (some e) = map_variables args precision e.vars

  -- `processValueMappingWithPrecision`
  unfoldable pub process_value_mapping :
      String → Dict (Value F Go) → ℕ → Outcome Failure (Mapped F Go)
  unfolding map_parsed
  process_value_mapping text args precision = map_parsed args precision (f.parse text)

  unfoldable pub read_argument : Option (Value F Go) → Outcome Failure F
  unfolding parse_value_to_float64
  read_argument none = err missing_argument
  read_argument (some val) = parse_value_to_float64 val

  -- The loop that parses the variables.
  unfoldable pub parse_args : Dict (Value F Go) → List String → Dict F → Outcome Failure (Dict F)
  unfolding read_argument
  parse_args args [] parsed = ok parsed
  parse_args args (v ∷ vs) parsed =
      read_argument (lookup v args) >>= λ x. parse_args args vs (insert v x parsed)

  format_result : ℕ → F → Outcome Failure (Mapped F Go)
  format_result precision res =
      let rounded = f.round_to precision res >>= λ y. ok (number y) in
      if ltb 0 precision then rounded else ok (number res)

  calculate_parsed : Dict (Value F Go) → ℕ → Option Expression → Outcome Failure (Mapped F Go)
  unfolding parse_args format_result
  calculate_parsed args precision none = err parse_error
  calculate_parsed args precision (some e) = do
    parsed ← parse_args args e.vars []
    res ← f.evaluate e parsed
    format_result precision res

  -- `processCalcMappingWithPrecision`
  unfoldable pub process_calc_mapping :
      String → Dict (Value F Go) → ℕ → Outcome Failure (Mapped F Go)
  unfolding calculate_parsed
  process_calc_mapping text args precision = calculate_parsed args precision (f.parse text)

  -- `ExecExpressionWithPrecision`; `ExecExpression` has the precision -1, here 0.
  unfoldable pub exec_expression :
      String → Dict (Value F Go) → String → ℕ → Outcome Failure (Mapped F Go)
  unfolding process_value_mapping process_calc_mapping
  exec_expression text args mapping_type precision =
      if mapping_type ==ₛ mapping_none
      then ok no_value
      else if mapping_type ==ₛ mapping_value
      then process_value_mapping text args precision
      else if mapping_type ==ₛ mapping_calculate
      then process_calc_mapping text args precision
      else err unknown_mapping

module _ {F Go : Type 0} (f : Floats F) (args : Dict (Value F Go)) where
  -- The map holds the argument of the name, converted to a float64.
  abbrev pub Converted : Dict F → String → Type 0
  Converted m v = (x : F) × (read_argument f (lookup v args) ≡ ok x) × (lookup v m ≡ some x)

  insert-Converted :
      (m : Dict F) (v w : String) (x : F)
      → read_argument f (lookup w args) ≡ ok x
      → Converted m v
      → Converted (insert w x m) v
  insert-Converted m v w x e (y, ey, here) = elim (Bool-cases (w ==ₛ v)) [
    | inl same ↦
        let ex : read_argument f (lookup v args) ≡ ok x =
          ap (λ k. read_argument f (lookup k args)) (sym ((==ₛ_iff w v).0 same)) ∙ e in
        (x, ex, lookup-insert w v x m ∙ ap (λ b. if b then some x else lookup v m) same)
    | inr differ ↦
        (y, ey, lookup-insert w v x m ∙ ap (λ b. if b then some x else lookup v m) differ ∙ here)
  ]

  parse_args-keeps :
      (vs : List String) (parsed m : Dict F) (v : String)
      → parse_args f args vs parsed ≡ ok m
      → Converted parsed v
      → Converted m v
  unfolding parse_args
  parse_args-keeps [] parsed m v e h = subst (λ k. Converted k v) (ok_injective e) h
  parse_args-keeps (w ∷ vs) parsed m v e h =
      let (x, ex, e') = >>=-eq-ok (read_argument f (lookup w args)) _ e in
      parse_args-keeps vs (insert w x parsed) m v e' (insert-Converted parsed v w x ex h)

  -- The arguments that are handed to the evaluation are, for every variable, the argument of that name
  -- converted to a float64.
  parse_args-Converted :
      (vs : List String) (parsed m : Dict F)
      → parse_args f args vs parsed ≡ ok m
      → All (Converted m) vs
  unfolding parse_args
  parse_args-Converted [] parsed m e = tt
  parse_args-Converted (w ∷ vs) parsed m e =
      let (x, ex, e') = >>=-eq-ok (read_argument f (lookup w args)) _ e in
      (
        parse_args-keeps vs (insert w x parsed) m w e' (x, ex, lookup-insert_self w x parsed),
        parse_args-Converted vs (insert w x parsed) m e',
      )

  -- A calculation: the expression that was parsed, evaluated at the converted arguments.
  abbrev pub Calculated : F → Option Expression → Type 0
  Calculated res o =
      (e : Expression) × (parsed : Dict F) × (o ≡ some e)
      × All (Converted parsed) e.vars
      × (f.evaluate e parsed ≡ ok res)

  calculate_parsed-Calculated :
      (o : Option Expression) (r : Mapped F Go)
      → calculate_parsed f args 0 o ≡ ok r
      → (res : F) × (r ≡ number res) × Calculated res o
  unfolding calculate_parsed format_result
  calculate_parsed-Calculated none r e = cc
  calculate_parsed-Calculated (some x) r e =
      let (parsed, ep, e') = >>=-eq-ok (parse_args f args x.vars []) _ e in
      let (res, er, e'') = >>=-eq-ok (f.evaluate x parsed) _ e' in
      (res, sym (ok_injective e''), (x, parsed, refl, parse_args-Converted x.vars [] parsed ep, er))

  -- A mapping by calculation without a precision that returns a value has parsed the expression, converted
  -- the argument of each variable, and returns what the evaluation at them gives.
  pub exec_expression-Calculated :
      (text : String) (r : Mapped F Go)
      → exec_expression f text args mapping_calculate 0 ≡ ok r
      → (res : F) × (r ≡ number res) × Calculated res (f.parse text)
  unfolding exec_expression process_calc_mapping
  exec_expression-Calculated text r e = calculate_parsed-Calculated (f.parse text) r e
