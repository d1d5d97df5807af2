-- ===== src/Task/Transition.antt =====
-- How a task moves: discord_task_model.py, `transition`, `attempt_after_transition` and
-- `claim_interruption`. `InvalidDiscordTaskTransition` is a `ValueError`.
use study_os_agent_gateway.Common.{
  ℕ, ◌+◌, String, Bool, ◌&&◌, ◌||◌, Option, none, some, if◌then◌else◌, is_some, ◌==◌, nat_eq,
  string_eq, bool_eq, option_eq, list_eq, Result, value_error, ok, raise, Stdlib,
}
use study_os_agent_gateway.Task.State.{
  State, state_eq, failed, timed_out, interrupted, recovering, delivering, delivery_failed,
  completed, stopped, can_transition,
}
use study_os_agent_gateway.Task.Failure.{Failure}
use study_os_agent_gateway.Task.Record.{Task, InterruptionCause, checked}

-- `failure or record.failure`.
abbrev pub or_else {ℓ} : {A : Type ℓ} → Option A → Option A → Option A
or_else none b = b
or_else (some a) b = some a

unfoldable pub is_retrying_agent : State → State → Bool
is_retrying_agent current target =
    (target == recovering)
    && ((current == failed) || (current == timed_out) || (current == interrupted))

unfoldable pub is_retrying_delivery : State → State → Bool
is_retrying_delivery current target = (current == delivery_failed) && (target == delivering)

unfoldable pub attempt_after_transition : Task → State → ℕ
unfolding is_retrying_agent is_retrying_delivery
attempt_after_transition record' target =
    if is_retrying_agent record'.state target || is_retrying_delivery record'.state target
    then record'.attempt + 1
    else record'.attempt

unfoldable pub next_failure : Task → State → Option Failure → Option Failure
unfolding is_retrying_delivery
next_failure record' target failure =
    if (target == completed) || (target == stopped) || is_retrying_delivery record'.state target
    then none
    else or_else failure record'.failure

module _ (lib : Stdlib) where
  unfoldable pub transition : Task → State → String → Option Failure → Result Task
  unfolding can_transition attempt_after_transition next_failure
  transition r target updated_at failure =
      if can_transition r.state target
      then checked lib (record r {
        state = target;
        updated_at = updated_at;
        failure = next_failure r target failure;
        attempt = attempt_after_transition r target;
      })
      else raise value_error

  unfoldable pub claim_interruption : Task → InterruptionCause → Result Task
  claim_interruption r cause =
      if (r.state == delivering) || (r.state == completed) || is_some r.interruption_cause
      then ok r
      else checked lib (record r { interruption_cause = some cause })
