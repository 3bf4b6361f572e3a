-- ===== src/Policy/Analyze.antt =====
-- internal/policy/policy.go: `Analyze` and the three checks that it makes in turn.
use golang_ap.Prelude.{ℤ, pos, not, ◌&&◌, Option, none, some, ◌==ℤ◌, ltb_ℤ, if◌then◌else◌}
use golang_ap.Text.{Str, str, is_empty}
use golang_ap.ClassAd.{ClassAdLib}
use golang_ap.Policy.Types.{
  Action, stay, complete, requeue, remove, hold, release, Mode, periodic_only, periodic_then_exit,
  Decision, status_removed, status_completed, status_held, hold_code_user_request,
  hold_code_job_policy, hold_code_system_policy,
}
use golang_ap.Policy.Eval.{
  System, fires, fires_expr, on_exit_remove_is_false, default_reason, hold_reason, attr_number,
  expr_string, expr_number,
}

-- A decision with no hold code, as the composite literals that leave it out.
abbrev pub plain : Action → Str → Str → Decision
plain a reason firing = record {
  action = a;
  reason = reason;
  hold_code = pos 0;
  hold_sub_code = pos 0;
  firing = firing;
}

-- `EvaluateAttrInt` returns 0 beside a false ok.
abbrev pub int_or_zero : Option ℤ → ℤ
int_or_zero none = pos 0
int_or_zero (some v) = v

-- `if d, ok := check(); ok { return d }`, and on to the rest.
abbrev pub first_decision : Option Decision → Decision → Decision
first_decision none rest = rest
first_decision (some d) rest = d

abbrev pub or_default : Str → Str → Str
or_default reason fallback = if is_empty reason then fallback else reason

abbrev pub removed_decision : Mode → Decision
removed_decision periodic_only = plain stay (str "") (str "")
removed_decision periodic_then_exit = plain remove (str "Job was removed") (str "OnExitRemove")

module _ (lib : ClassAdLib) where
  open lib use {Ad, Expr, to_int, eval_int}

  abbrev pub system_expr : Option (System lib) → (System lib → Option Expr) → Option Expr
  system_expr none field = none
  system_expr (some s) field = field s

  unfoldable pub check_hold : Ad → Option (System lib) → Option Decision
  check_hold ad sys =
      if fires lib ad (str "PeriodicHold")
      then some (record {
        action = hold;
        reason = hold_reason lib ad (str "PeriodicHold") (str "job attribute");
        hold_code = hold_code_job_policy;
        hold_sub_code = to_int (attr_number lib ad (str "PeriodicHoldSubCode"));
        firing = str "PeriodicHold";
      })
      else if fires_expr lib ad (system_expr sys λ s. s.hold_expr)
      then some (record {
        action = hold;
        reason =
            or_default (expr_string lib ad (system_expr sys λ s. s.hold_reason))
              (default_reason (str "system macro") (str "SYSTEM_PERIODIC_HOLD"));
        hold_code = hold_code_system_policy;
        hold_sub_code = to_int (expr_number lib ad (system_expr sys λ s. s.hold_sub_code));
        firing = str "SYSTEM_PERIODIC_HOLD";
      })
      else none

  unfoldable pub check_release : Ad → Option (System lib) → Option Decision
  check_release ad sys =
      if fires lib ad (str "PeriodicRelease")
      then some (
          plain release (default_reason (str "job attribute") (str "PeriodicRelease"))
            (str "PeriodicRelease"))
      else if fires_expr lib ad (system_expr sys λ s. s.release_expr)
      then some (
          plain release (default_reason (str "system macro") (str "SYSTEM_PERIODIC_RELEASE"))
            (str "SYSTEM_PERIODIC_RELEASE"))
      else none

  unfoldable pub check_remove : Ad → Option (System lib) → Option Decision
  check_remove ad sys =
      if fires lib ad (str "PeriodicRemove")
      then some (
          plain remove (default_reason (str "job attribute") (str "PeriodicRemove"))
            (str "PeriodicRemove"))
      else if fires_expr lib ad (system_expr sys λ s. s.remove_expr)
      then some (
          plain remove
            (or_default (expr_string lib ad (system_expr sys λ s. s.remove_reason))
              (default_reason (str "system macro") (str "SYSTEM_PERIODIC_REMOVE")))
            (str "SYSTEM_PERIODIC_REMOVE"))
      else none

  -- The tail of `Analyze`: the on-exit chain.
  unfoldable pub on_exit : Ad → Decision
  on_exit ad =
      if fires lib ad (str "OnExitHold")
      then record {
        action = hold;
        reason = hold_reason lib ad (str "OnExitHold") (str "job attribute");
        hold_code = hold_code_job_policy;
        hold_sub_code = to_int (attr_number lib ad (str "OnExitHoldSubCode"));
        firing = str "OnExitHold";
      }
      else if on_exit_remove_is_false lib ad
      then plain requeue (str "OnExitRemove evaluated to false") (str "OnExitRemove")
      else plain complete (str "") (str "OnExitRemove")

  unfoldable pub at_exit : Mode → Ad → Decision
  unfolding on_exit
  at_exit periodic_only ad = plain stay (str "") (str "")
  at_exit periodic_then_exit ad = on_exit ad

  -- A negative state is read from the ad.
  unfoldable pub resolve_state : Ad → ℤ → ℤ
  resolve_state ad state =
      if ltb_ℤ state (pos 0) then int_or_zero (eval_int ad (str "JobStatus")) else state

  unfoldable pub periodic_hold : Ad → Option (System lib) → ℤ → Option Decision
  unfolding check_hold
  periodic_hold ad sys state =
      if not (state ==ℤ status_held) && not (state ==ℤ status_completed)
      then check_hold ad sys
      else none

  unfoldable pub periodic_release : Ad → Option (System lib) → ℤ → Option Decision
  unfolding check_release
  periodic_release ad sys state =
      if (state ==ℤ status_held)
        && not (int_or_zero (eval_int ad (str "HoldReasonCode")) ==ℤ hold_code_user_request)
      then check_release ad sys
      else none

  unfoldable pub analyze_at : Ad → Mode → Option (System lib) → ℤ → Decision
  unfolding at_exit periodic_hold periodic_release check_remove
  analyze_at ad mode sys state =
      if state ==ℤ status_removed
      then removed_decision mode
      else first_decision (periodic_hold ad sys state) (
          first_decision (periodic_release ad sys state)
            (first_decision (check_remove ad sys) (at_exit mode ad)))

  unfoldable pub analyze : Ad → Mode → Option (System lib) → ℤ → Decision
  unfolding analyze_at resolve_state
  analyze ad mode sys state = analyze_at ad mode sys (resolve_state ad state)
