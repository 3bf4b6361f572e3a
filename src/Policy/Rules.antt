-- ===== src/Policy/Rules.antt =====
-- The evaluation order that the header of internal/policy/policy.go documents, as a list of rules,
-- and that `analyze` follows it.
use golang_ap.Prelude.{
  ℤ, Bool, true, not, ◌&&◌, Option, List, [], ◌∷◌, ◌++◌, ◌≡◌, refl, sym, ap, ◌∙◌, arith, ◌==ℤ◌,
  if◌then◌else◌,
}
use golang_ap.Text.{Str, str}
use golang_ap.ClassAd.{ClassAdLib}
use golang_ap.Policy
use golang_ap.Policy.{
  Decision, Mode, periodic_only, periodic_then_exit, System, hold, release, remove, requeue, stay,
  complete, status_removed, status_completed, status_held, plain, hold_reason, default_reason,
  hold_code_job_policy, hold_code_system_policy, hold_code_user_request, on_exit_remove_is_false,
  attr_number, expr_number, expr_string, or_default, system_expr, int_or_zero, resolve_state,
  analyze, first_decision,
}

-- A rule: whether the job is in a state for it, whether its expression fires, what it decides.
pub record Rule : Type 0 where
  pub applies : Bool
  pub fires : Bool
  pub decision : Decision

-- The first rule that applies and fires decides.
unfoldable pub decide_by : List Rule → Decision → Decision
decide_by [] otherwise = otherwise
decide_by (r ∷ rs) otherwise =
    let rest = decide_by rs otherwise in if r.applies && r.fires then r.decision else rest

module _ (lib : ClassAdLib) (ad : lib.Ad) (sys : Option (System lib)) where
  abbrev job_fires : Str → Bool
  job_fires name = Policy.fires lib ad name

  abbrev system_fires : (System lib → Option lib.Expr) → Bool
  system_fires field = Policy.fires_expr lib ad (system_expr lib sys field)

  abbrev job_hold : Str → Decision
  job_hold base = record {
    action = hold;
    reason = hold_reason lib ad base (str "job attribute");
    hold_code = hold_code_job_policy;
    hold_sub_code = lib.to_int (attr_number lib ad (base ++ str "SubCode"));
    firing = base;
  }

  abbrev system_hold : Decision
  system_hold = record {
    action = hold;
    reason =
        or_default (expr_string lib ad (system_expr lib sys λ s. s.hold_reason))
          (default_reason (str "system macro") (str "SYSTEM_PERIODIC_HOLD"));
    hold_code = hold_code_system_policy;
    hold_sub_code = lib.to_int (expr_number lib ad (system_expr lib sys λ s. s.hold_sub_code));
    firing = str "SYSTEM_PERIODIC_HOLD";
  }

  -- Rules 1 to 3 of the documented order, the job's own expression before the pool's in each.
  unfoldable pub periodic_rules : ℤ → List Rule
  periodic_rules state =
      let active = not (state ==ℤ status_held) && not (state ==ℤ status_completed) in
      let releasable =
        (state ==ℤ status_held)
        && not (int_or_zero (lib.eval_int ad (str "HoldReasonCode")) ==ℤ hold_code_user_request) in
      record {
        applies = active;
        fires = job_fires (str "PeriodicHold");
        decision = job_hold (str "PeriodicHold");
      }
      ∷ record { applies = active; fires = system_fires (λ s. s.hold_expr); decision = system_hold }
      ∷ record {
        applies = releasable;
        fires = job_fires (str "PeriodicRelease");
        decision =
            plain release (default_reason (str "job attribute") (str "PeriodicRelease"))
              (str "PeriodicRelease");
      }
      ∷ record {
        applies = releasable;
        fires = system_fires (λ s. s.release_expr);
        decision =
            plain release (default_reason (str "system macro") (str "SYSTEM_PERIODIC_RELEASE"))
              (str "SYSTEM_PERIODIC_RELEASE");
      }
      ∷ record {
        applies = true;
        fires = job_fires (str "PeriodicRemove");
        decision =
            plain remove (default_reason (str "job attribute") (str "PeriodicRemove"))
              (str "PeriodicRemove");
      }
      ∷ record {
        applies = true;
        fires = system_fires (λ s. s.remove_expr);
        decision =
            plain remove
              (or_default (expr_string lib ad (system_expr lib sys λ s. s.remove_reason))
                (default_reason (str "system macro") (str "SYSTEM_PERIODIC_REMOVE")))
              (str "SYSTEM_PERIODIC_REMOVE");
      }
      ∷ []

  -- Rules 4 and 5, the on-exit chain.
  unfoldable pub exit_rules : List Rule
  exit_rules =
      record {
        applies = true;
        fires = job_fires (str "OnExitHold");
        decision = job_hold (str "OnExitHold");
      }
      ∷ record {
        applies = true;
        fires = on_exit_remove_is_false lib ad;
        decision = plain requeue (str "OnExitRemove evaluated to false") (str "OnExitRemove");
      }
      ∷ []

  periodic_chain :
      (state : ℤ) (rest : Decision)
      → first_decision (Policy.periodic_hold lib ad sys state) (
          first_decision
            (Policy.periodic_release lib ad sys state)
            (first_decision (Policy.check_remove lib ad sys) rest))
        ≡ decide_by (periodic_rules state) rest
  unfolding decide_by periodic_rules Policy.periodic_hold Policy.periodic_release
      Policy.check_remove str
  periodic_chain state rest = ground arith

  exit_chain :
      Policy.on_exit lib ad ≡ decide_by exit_rules (plain complete (str "") (str "OnExitRemove"))
  unfolding decide_by exit_rules Policy.on_exit str
  exit_chain = ground arith

  -- What happens when no rule fires.
  unfoldable pub no_rule : Mode → Decision
  no_rule periodic_only = plain stay (str "") (str "")
  no_rule periodic_then_exit = plain complete (str "") (str "OnExitRemove")

  -- A removed job is inert, and the C++ short-circuit removes it when it exits.
  abbrev removed_rule : Mode → ℤ → Rule
  removed_rule periodic_only state = record {
    applies = state ==ℤ status_removed;
    fires = true;
    decision = plain stay (str "") (str "");
  }
  removed_rule periodic_then_exit state = record {
    applies = state ==ℤ status_removed;
    fires = true;
    decision = plain remove (str "Job was removed") (str "OnExitRemove");
  }

  abbrev exit_rules_in : Mode → List Rule
  exit_rules_in periodic_only = []
  exit_rules_in periodic_then_exit = exit_rules

  unfoldable pub rules : Mode → ℤ → List Rule
  rules mode state = removed_rule mode state ∷ (periodic_rules state ++ exit_rules_in mode)

  at_exit_chain :
      (mode : Mode) → Policy.at_exit lib mode ad ≡ decide_by (exit_rules_in mode) (no_rule mode)
  unfolding Policy.at_exit no_rule decide_by
  at_exit_chain periodic_only = refl
  at_exit_chain periodic_then_exit = unfold no_rule in exit_chain

  decide_by-append :
      (r s : List Rule) (d : Decision) → decide_by (r ++ s) d ≡ decide_by r (decide_by s d)
  unfolding decide_by
  decide_by-append [] s d = refl
  decide_by-append (x ∷ r) s d =
      ap (λ t. if x.applies && x.fires then x.decision else t) (decide_by-append r s d)

  live_chain :
      (mode : Mode) (state : ℤ)
      → first_decision (Policy.periodic_hold lib ad sys state) (
          first_decision
            (Policy.periodic_release lib ad sys state)
            (first_decision (Policy.check_remove lib ad sys) (Policy.at_exit lib mode ad)))
        ≡ decide_by (periodic_rules state ++ exit_rules_in mode) (no_rule mode)
  live_chain mode state =
      periodic_chain state (Policy.at_exit lib mode ad)
      ∙ ap (decide_by (periodic_rules state)) (at_exit_chain mode)
      ∙ sym (decide_by-append (periodic_rules state) (exit_rules_in mode) (no_rule mode))

  -- In either mode and any job state, `analyze` returns the decision of the first rule of the
  -- documented order that applies and fires, and the mode's default where none does.
  pub analyze-rules :
      (mode : Mode) (state : ℤ)
      → analyze lib ad mode sys state
        ≡ decide_by (rules mode (resolve_state lib ad state)) (no_rule mode)
  unfolding analyze rules
  analyze-rules periodic_only state =
      rw (live_chain periodic_only (resolve_state lib ad state)) (unfold decide_by in ground arith)
  analyze-rules periodic_then_exit state =
      rw (live_chain periodic_then_exit (resolve_state lib ad state))
        (unfold decide_by in ground arith)
