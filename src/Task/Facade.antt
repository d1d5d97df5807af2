-- ===== src/Task/Facade.antt =====
-- The methods of discord_task_service.py, class `DiscordTaskService`, around those of its parts: each
-- checks first that the service is open. And discord_task_runners.py: the end of a runner, and closing.
pub mod Refused
use study_os_agent_gateway.Common.{
  ℕ, String, true, false, not, ◌&&◌, [], string_eq, bool_eq, nat_eq, ◌==◌, option_eq, list_eq,
  filter, Stdlib,
}
use study_os_agent_gateway.Common.Method.{return, from, check, modify, ◌>>=◌, ◌>>◌}
use study_os_agent_gateway.Task.Store.{Store}
use study_os_agent_gateway.Task.Failure.{category_eq, retry_mode_eq}
use study_os_agent_gateway.Task.Queries.{
  is_session_failure, can_continue, idle_saved_session, ControlState, known_capabilities,
  Capabilities, status,
}
use study_os_agent_gateway.Task.Ending.{continuable, forget_task_of, continue_from}
use study_os_agent_gateway.Task.State.{running, state_eq}
use study_os_agent_gateway.Task.Claims.{BoundedClaims}
use study_os_agent_gateway.Task.Record.{source_kind_eq, intent_eq, Task, cause_eq}
use study_os_agent_gateway.Task.Request.{Request}
use study_os_agent_gateway.Task.Access.{Access}
use study_os_agent_gateway.Task.Actions.{
  stop_task, RetryEnv, ForgetEnv, retry_task, SteerEnv, ContinueEnv, StopEnv, steer_task,
}
use study_os_agent_gateway.Task.Service.{Act, clean_on_error, Service, Await, wait, ensure_open}

-- `DiscordTaskRunners._done` of the task's own runner.
unfoldable pub runner_done : String → Service → Service
runner_done id s = record s { running = filter (λ j. not (j == id)) s.running }

-- `close`, up to the first await: no new runner starts after it.
unfoldable pub close_service : Service → Service
close_service s = record s { closed = true; runners_closed = true }

-- `DiscordTaskService.__init__`, on the store that it is given, and `_store` without a document.
unfoldable pub new_service : Store → BoundedClaims → Service
new_service store claims = record {
  store = store;
  triggers = claims;
  interactions = claims;
  running = [];
  closed = false;
  runners_closed = false;
  effects = [];
}

module _ (lib : Stdlib) where
  unfoldable pub steer_when_open : SteerEnv → String → Access → ℕ → Act Task
  unfolding ◌>>=◌ clean_on_error ensure_open steer_task
  steer_when_open e id access interaction =
      clean_on_error ensure_open >> steer_task lib e id access interaction

  unfoldable pub stop_when_open : StopEnv → String → Access → ℕ → Act Task
  unfolding ◌>>=◌ ensure_open stop_task
  stop_when_open e id access interaction = ensure_open >> stop_task lib e id access interaction

  unfoldable pub retry_when_open : RetryEnv → String → Access → ℕ → Act Task
  unfolding ◌>>=◌ ensure_open retry_task
  retry_when_open e id access interaction = ensure_open >> retry_task lib e id access interaction

  unfoldable pub continue_when_open : ContinueEnv → String → Access → Request → ℕ → Act Task
  unfolding ◌>>=◌ clean_on_error ensure_open continue_from
  continue_when_open e id access request interaction =
      clean_on_error ensure_open >> continue_from lib e id access request interaction

  unfoldable pub forget_when_open : ForgetEnv → String → Access → ℕ → Act (Unit {0})
  unfolding ◌>>=◌ ensure_open forget_task_of
  forget_when_open e id access interaction =
      ensure_open >> forget_task_of lib e id access interaction

  -- `refresh_card`
  unfoldable pub refresh_card : Await (Unit {0}) → String → Access → Act Task
  unfolding ◌>>=◌ status wait
  refresh_card rendered id access = do
    r ← check (λ s. status lib s.store.tasks id access)
    wait rendered
    return r

  -- `resolve_controls`, of discord_task_queries.py.
  unfoldable pub resolve_controls : Await Capabilities → String → Access → Act ControlState
  unfolding ◌>>=◌ status can_continue idle_saved_session
  resolve_controls a id access = do
    check (λ s. status lib s.store.tasks id access)
    modify a.others
    c ← from (known_capabilities a.answer)
    r ← check (λ s. status lib s.store.tasks id access)
    continuable ← check (λ s. can_continue lib s.store.tasks r)
    return (record {
      steering = (r.state == running) && c.steering;
      resumable = is_session_failure r.failure && idle_saved_session c;
      continuable = continuable && idle_saved_session c;
    })
