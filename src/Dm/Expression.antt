-- ===== src/Dm/Expression.antt =====
-- dmcontext/expression.go: mapping a device's values by an expression, and solving a linear expression. The
-- parser and the evaluator of goexpr, strconv and the arithmetic of floats are parameters.
pub mod Exec
use jopa.Common.{
  ℕ, suc, ◌+◌, String, Bool, true, false, not, Option, none, some, List, [], ◌∷◌, map, any, length,
  ◌&&◌, ltb, ◌==◌, ◌==ₛ◌, if◌then◌else◌,
}
use jopa.Common.Dict.{Dict, lookup}
use jopa.Common.Int.{ℤ}
use jopa.Common.Outcome.{Outcome, ok, err, ◌>>=◌}

-- The nodes of go/ast that the code tells apart.
pub data Operator : Type 0 where
  add sub mul quo other_op : Operator

pub data Node : Type 0 where
  ident : String → Node
  basic_lit : String → Node
  paren : Node → Node
  binary : Operator → Node → Node → Node
  other_node : Node

-- `goexpr.Expression`
pub record Expression : Type 0 where
  pub ast : Node
  pub vars : List String

pub data Failure : Type 0 where
  parse_error unknown_mapping unsupported_value not_one_variable : Failure
  missing_argument bad_number unsupported_node only_linear : Failure
  variable_in_denominator unsupported_operation slope_is_zero evaluation_error : Failure

-- The values of `interface{}` that `parseValueToFloat64` tells apart; `Go` are the other ones.
pub data Value (F Go : Type 0) : Type 0 where
  int int16 int32 int64 : ℤ → Value F Go
  float32 : F → Value F Go
  float64 : F → Value F Go
  other_value : Go → Value F Go

-- The arithmetic of float64, strconv.ParseFloat, the conversions to float64, the rounding of
-- `ParseFloat(Sprintf("%.<precision>f"))`, and goexpr's Parse and Evaluate.
pub record Floats (F : Type 0) : Type 0 where
  pub zero : F
  pub one : F
  pub plus : F → F → F
  pub minus : F → F → F
  pub times : F → F → F
  pub over : F → F → F
  pub is_zero : F → Bool
  pub parse_float : String → Option F
  pub of_int : ℤ → F
  pub widen : F → F
  pub round_to : ℕ → F → Outcome Failure F
  pub parse : String → Option Expression
  pub evaluate : Expression → Dict F → Outcome Failure F

module _ {F : Type 0} (f : Floats F) where
  literal : Option F → Outcome Failure (F × F)
  literal none = err bad_number
  literal (some offset) = ok (f.zero, offset)

  -- The `switch` over the operator, for the two sides `xa * v + xb` and `ya * v + yb`.
  unfoldable pub combine : Operator → F × F → F × F → Outcome Failure (F × F)
  combine add (xa, xb) (ya, yb) = ok (f.plus xa ya, f.plus xb yb)
  combine sub (xa, xb) (ya, yb) = ok (f.minus xa ya, f.minus xb yb)
  combine mul (xa, xb) (ya, yb) =
      if not (f.is_zero xa) && not (f.is_zero ya)
      then err only_linear
      else ok (f.plus (f.times xa yb) (f.times xb ya), f.times xb yb)
  combine quo (xa, xb) (ya, yb) =
      if not (f.is_zero ya) then err variable_in_denominator else ok (f.over xa yb, f.over xb yb)
  combine other_op x y = err unsupported_operation

  -- `simpleExpression` with `processBinaryExpr`: the slope and the offset.
  unfoldable pub simple_expression : Node → Outcome Failure (F × F)
  unfolding literal combine
  simple_expression (ident name) = ok (f.one, f.zero)
  simple_expression (basic_lit value) = literal (f.parse_float value)
  simple_expression (paren x) = simple_expression x
  simple_expression (binary op x y) =
      simple_expression x >>= λ a. simple_expression y >>= λ b. combine op a b
  simple_expression other_node = err unsupported_node

  -- `len(set) == 1`: there is a variable, and all are the same.
  unfoldable pub one_variable : List String → Bool
  one_variable [] = false
  one_variable (v ∷ vs) = not (any (λ w. not (w ==ₛ v)) vs)

  solve_linear : F → F × F → Outcome Failure F
  solve_linear value (slope, offset) =
      if f.is_zero slope then err slope_is_zero else ok (f.over (f.minus value offset) slope)

  solve_parsed : F → Option Expression → Outcome Failure F
  unfolding simple_expression one_variable solve_linear
  solve_parsed value none = err parse_error
  solve_parsed value (some e) =
      if not (one_variable e.vars)
      then err not_one_variable
      else simple_expression e.ast >>= solve_linear value

  -- `SolveExpression`
  unfoldable pub solve_expression : String → F → Outcome Failure F
  unfolding solve_parsed
  solve_expression text value = solve_parsed value (f.parse text)
