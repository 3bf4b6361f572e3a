-- ===== src/Policy/Types.antt =====
-- internal/policy/policy.go: the job states, actions and modes, and a decision.
use golang_ap.Prelude.{ℤ, pos}
use golang_ap.Text.{Str}

abbrev pub status_removed : ℤ
status_removed = pos 3

abbrev pub status_completed : ℤ
status_completed = pos 4

abbrev pub status_held : ℤ
status_held = pos 5

abbrev pub hold_code_user_request : ℤ
hold_code_user_request = pos 1

abbrev pub hold_code_job_policy : ℤ
hold_code_job_policy = pos 3

abbrev pub hold_code_system_policy : ℤ
hold_code_system_policy = pos 26

pub data Action : Type 0 where
  stay complete requeue remove hold release : Action

pub data Mode : Type 0 where
  periodic_only periodic_then_exit : Mode

pub record Decision : Type 0 where
  pub action : Action
  pub reason : Str
  pub hold_code : ℤ
  pub hold_sub_code : ℤ
  pub firing : Str

-- The raw SYSTEM_PERIODIC_* knobs; the empty string is an unset knob.
pub record SystemConfig : Type 0 where
  pub hold_expr : Str
  pub hold_reason : Str
  pub hold_sub_code : Str
  pub release_expr : Str
  pub remove_expr : Str
  pub remove_reason : Str
