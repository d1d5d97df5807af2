-- ===== src/Task/RuntimeFailures.antt =====
-- How a run that raised ends: discord_task_runtime_failures.py, and `_agent_runner` around the run.
pub mod Recorded
pub mod Delivered
use study_os_agent_gateway.Common.{
  String, false, Option, none, some, if◌then◌else◌, string_eq, bool_eq, nat_eq, ◌==◌, option_eq,
  list_eq, Error, Result, ok, raise, Datetime, Stdlib,
}
use study_os_agent_gateway.Task.Retention.{updated_at}
use study_os_agent_gateway.Common.Method.{return, fail, modify, ◌>>=◌, ◌>>◌, catch, finally}
use study_os_agent_gateway.Task.Store.{timestamp}
use study_os_agent_gateway.Task.Failure.{
  retry_mode_eq, category_eq, AgentError, Failure, classify_agent_failure,
}
use study_os_agent_gateway.Task.Queries.{Capabilities, latest}
use study_os_agent_gateway.Task.Transition.{claim_interruption}
use study_os_agent_gateway.Task.State.{State, state_eq, stopping}
use study_os_agent_gateway.Task.Record.{
  cause_eq, intent_eq, source_kind_eq, InterruptionCause, Task, checked,
}
use study_os_agent_gateway.Task.Request.{RunSpec}
use study_os_agent_gateway.Task.Service.{move_to, clean, get, wait, persist_update, Act}
use study_os_agent_gateway.Task.Runtime.{
  is_cancelled, run_task, RunEnv, catch_exception, failure_target, agent_error, finish_stopping,
  is_conflict,
}
use study_os_agent_gateway.Common.Outcome.{◌>>=◌ as bind}

module _ (lib : Stdlib) where
  abbrev pub claim_cause : Option InterruptionCause → Task → Result Task
  claim_cause none r = ok r
  claim_cause (some cause) r = claim_interruption lib r cause

  -- `fail`, the update of `record_agent_failure`.
  unfoldable pub record_error :
      Datetime → AgentError → State → Option InterruptionCause → Task → Result Task
  unfolding claim_interruption move_to classify_agent_failure
  record_error now x target cause r =
      bind (claim_cause cause r)
        (move_to lib now target (some (classify_agent_failure x false false)))

  abbrev pub with_failure : Datetime → Failure → Task → Result Task
  with_failure now failure r =
      bind (timestamp lib now)
        (λ stamp. checked lib (record r { failure = some failure; updated_at = stamp }))

  -- What the agent knows of the session, if it answers, is recorded unless the task changed.
  unfoldable pub enrich_failure : RunEnv → AgentError → Task → Result Capabilities → Act (Unit {0})
  unfolding ◌>>=◌ get persist_update classify_agent_failure
  enrich_failure e x q (raise y) = if is_cancelled y then fail y else return tt
  enrich_failure e x q (ok c) = do
    latest ← get lib q.task_id
    (if latest.revision == q.revision
        then (persist_update lib e.at_enrich.env latest (
              with_failure e.at_enrich.now
                (classify_agent_failure x c.persisted_session c.active_turn))
            >> return tt)
        else return tt)

  abbrev pub ask_and_enrich : RunEnv → AgentError → Task → Option InterruptionCause → Act (Unit {0})
  ask_and_enrich e x q none = return tt
  ask_and_enrich e x q (some cause) =
      modify e.capabilities.others >> enrich_failure e x q e.capabilities.answer

  -- `except TaskRevisionConflict`
  unfoldable pub after_conflict : RunEnv → String → Error → Act (Option Task)
  unfolding ◌>>=◌ get finish_stopping
  after_conflict e id x =
      if is_conflict x
      then (get lib id >>= λ latest.
          finish_stopping lib e.at_end e.done_rendered latest >> return none)
      else fail x

  abbrev pub after_failure :
      RunEnv → AgentError → Option InterruptionCause → Option Task → Act (Unit {0})
  after_failure e x cause none = return tt
  after_failure e x cause (some q) = ask_and_enrich e x q cause >> wait e.done_rendered

  abbrev pub fail_with :
      RunEnv
      → String
      → AgentError
      → Task
      → Option (State × Option InterruptionCause)
      → Act (Unit {0})
  fail_with e id x r none = return tt
  fail_with e id x r (some (target, cause)) =
      catch
        (persist_update lib e.at_failure.env r (record_error e.at_failure.now x target cause)
          >>= λ q. return (some q))
        (after_conflict e id)
      >>= after_failure e x cause

  unfoldable pub record_agent_failure : RunEnv → String → AgentError → Act (Unit {0})
  unfolding catch ◌>>=◌ get finish_stopping failure_target persist_update record_error
      after_conflict enrich_failure wait
  record_agent_failure e id x = do
    r ← get lib id
    (if r.state == stopping
        then finish_stopping lib e.at_end e.done_rendered r
        else fail_with e id x r (failure_target r.state x))

  unfoldable pub agent_runner : RunEnv → String → RunSpec → Act (Unit {0})
  unfolding finally catch_exception run_task record_agent_failure
  agent_runner e id spec =
      finally
        (catch_exception (run_task lib e id spec) (λ x. record_agent_failure e id (agent_error x)))
        clean
