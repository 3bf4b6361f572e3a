-- ===== src/Policy/Eval.antt =====
-- internal/policy/policy.go: the compiled system policy, and how one expression is read.
use golang_ap.Prelude.{
  Bool, true, false, not, ◌&&◌, Option, none, some, ◌++◌, if◌then◌else◌, is_some,
}
use golang_ap.Text.{Str, str, is_empty}
use golang_ap.ClassAd.{ClassAdLib, Value, boolean, number, text, other}
use golang_ap.Policy.Types.{SystemConfig}

unfoldable pub default_reason : Str → Str → Str
default_reason src expr =
    str "The " ++ (src ++ (str " " ++ (expr ++ str " expression evaluated to TRUE")))

abbrev pub non_empty_or : Option Str → Str → Str
non_empty_or none fallback = fallback
non_empty_or (some r) fallback = if is_empty r then fallback else r

module _ (lib : ClassAdLib) where
  open lib use {
    Ad, Expr, Number, zero_number, is_zero, lookup, parse_expr, eval, eval_attr, eval_string,
  }

  -- A nil *Expr is none.
  pub record System : Type 0 where
    pub hold_expr : Option Expr
    pub release_expr : Option Expr
    pub remove_expr : Option Expr
    pub hold_reason : Option Expr
    pub remove_reason : Option Expr
    pub hold_sub_code : Option Expr

  unfoldable pub parse_knob : Str → Option Expr
  parse_knob s = if is_empty s then none else parse_expr s

  -- A nil *System is none.
  unfoldable pub new_system : SystemConfig → Option System
  unfolding parse_knob
  new_system cfg =
      if is_empty cfg.hold_expr && is_empty cfg.release_expr && is_empty cfg.remove_expr
      then none
      else some (record {
        hold_expr = parse_knob cfg.hold_expr;
        release_expr = parse_knob cfg.release_expr;
        remove_expr = parse_knob cfg.remove_expr;
        hold_reason = parse_knob cfg.hold_reason;
        remove_reason = parse_knob cfg.remove_reason;
        hold_sub_code = parse_knob cfg.hold_sub_code;
      })

  unfoldable pub system_empty : Option System → Bool
  system_empty none = true
  system_empty (some s) =
      not (is_some s.hold_expr) && not (is_some s.release_expr) && not (is_some s.remove_expr)

  unfoldable pub truthy : Value Number → Bool
  truthy (boolean b) = b
  truthy (number n) = not (is_zero n)
  truthy (text s) = false
  truthy other = false

  unfoldable pub fires : Ad → Str → Bool
  unfolding truthy
  fires ad name = if is_some (lookup ad name) then truthy (eval_attr ad name) else false

  unfoldable pub fires_expr : Ad → Option Expr → Bool
  unfolding truthy
  fires_expr ad none = false
  fires_expr ad (some expr) = truthy (eval expr ad)

  unfoldable pub explicit_false : Value Number → Bool
  explicit_false (boolean b) = not b
  explicit_false (number n) = is_zero n
  explicit_false (text s) = false
  explicit_false other = false

  unfoldable pub on_exit_remove_is_false : Ad → Bool
  unfolding explicit_false
  on_exit_remove_is_false ad =
      if is_some (lookup ad (str "OnExitRemove"))
      then explicit_false (eval_attr ad (str "OnExitRemove"))
      else false

  unfoldable pub hold_reason : Ad → Str → Str → Str
  unfolding default_reason
  hold_reason ad base src =
      non_empty_or (eval_string ad (base ++ str "Reason")) (default_reason src base)

  abbrev pub number_or_zero : Value Number → Number
  number_or_zero (number n) = n
  number_or_zero _ = zero_number

  unfoldable pub attr_number : Ad → Str → Number
  attr_number ad name =
      if is_some (lookup ad name) then number_or_zero (eval_attr ad name) else zero_number

  abbrev pub text_or_empty : Value Number → Str
  text_or_empty (text s) = s
  text_or_empty _ = str ""

  unfoldable pub expr_string : Ad → Option Expr → Str
  expr_string ad none = str ""
  expr_string ad (some expr) = text_or_empty (eval expr ad)

  unfoldable pub expr_number : Ad → Option Expr → Number
  expr_number ad none = zero_number
  expr_number ad (some expr) = number_or_zero (eval expr ad)
