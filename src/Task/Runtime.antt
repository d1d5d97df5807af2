-- ===== src/Task/Runtime.antt =====
-- The runner of a task: discord_task_runtime.py, class `DiscordTaskRuntime`, with
-- discord_task_runtime_failures.py. The agent, Discord and the delivery cache answer from outside.
use study_os_agent_gateway.Common.{
  ℕ, String, Bool, true, false, not, Option, none, some, List, [], ◌∷◌, if◌then◌else◌, is_some,
  string_eq, bool_eq, nat_eq, ◌==◌, option_eq, list_eq, take, Error, Result, task_revision_conflict,
  agent_timed_out, agent_disconnected, agent_incompatible, agent_process, agent_output,
  agent_configuration, agent_workspace, definitive_non_delivery, cancelled, ok, raise, Datetime,
  Stdlib,
}
use study_os_agent_gateway.Common.Method.{return, fail, from, modify, fail_if, ◌>>=◌, ◌>>◌, catch}
use study_os_agent_gateway.Task.Store.{Env, timestamp}
use study_os_agent_gateway.Task.Failure.{
  process_failed, retry_mode_eq, configuration_error, category_eq, workspace_or_attachment_error,
  Failure, invalid_output, classify_delivery_failure, turn_timed_out, AgentError,
}
use study_os_agent_gateway.Task.Queries.{Capabilities}
use study_os_agent_gateway.Task.State.{
  failed, starting, delivering, running, stopped, completed, delivery_failed, interrupted, state_eq,
  recovering, timed_out, State, stopping,
}
use study_os_agent_gateway.Task.Record.{
  runtime_exit, checked, InterruptionCause, intent_eq, source_kind_eq, Task, cause_eq,
}
use study_os_agent_gateway.Task.Request.{RunSpec}
use study_os_agent_gateway.Task.Service.{
  discarded, effect, Act, wait, move_to, persist_update, Await, get,
}
use study_os_agent_gateway.Common.Outcome.{◌>>=◌ as bind}

-- A write to the store with its time; a wait before it.
pub record Write : Type 0 where
  pub env : Env
  pub now : Datetime

-- What the outside supplies to one run, in the order of the code.
pub record RunEnv : Type 0 where
  pub card : Await (Option ℕ)
  pub attach : List Write
  pub card_rendered : Await (Unit {0})
  pub started : Await (Unit {0})
  pub at_start : Write
  pub at_run : Write
  pub running_rendered : Await (Unit {0})
  pub context : Await (Unit {0})
  pub reply : Await (Unit {0})
  pub prepared : Await (Unit {0})
  pub put : Result (Unit {0})
  pub leased : Bool
  pub at_deliver : Write
  pub sent : Await ℕ
  pub at_end : Write
  pub done_rendered : Await (Unit {0})
  pub at_failure : Write
  pub capabilities : Await Capabilities
  pub at_enrich : Write

-- `isinstance` in discord_task_failures.py and `_failure_target`.
abbrev pub agent_error : Error → AgentError
agent_error agent_timed_out = turn_timed_out
agent_error agent_disconnected = AgentError.runtime_disconnected
agent_error agent_incompatible = AgentError.runtime_incompatible
agent_error agent_process = process_failed
agent_error agent_output = invalid_output
agent_error agent_configuration = configuration_error
agent_error agent_workspace = workspace_or_attachment_error
agent_error e = AgentError.other

-- `_failure_target`
abbrev pub running_target : AgentError → State × Option InterruptionCause
running_target turn_timed_out = (timed_out, some InterruptionCause.timeout)
running_target AgentError.runtime_disconnected = (interrupted, some runtime_exit)
running_target e = (failed, none)

unfoldable pub failure_target : State → AgentError → Option (State × Option InterruptionCause)
failure_target recovering e = some (failed, none)
failure_target starting e = some (failed, none)
failure_target running e = some (running_target e)
failure_target state e = none

abbrev pub is_cancelled : Error → Bool
is_cancelled cancelled = true
is_cancelled e = false

abbrev pub is_definitive : Error → Bool
is_definitive definitive_non_delivery = true
is_definitive e = false

abbrev pub is_conflict : Error → Bool
is_conflict task_revision_conflict = true
is_conflict e = false

-- `except Exception`: a cancellation passes.
unfoldable pub catch_exception : {A : Type 0} → Act A → (Error → Act A) → Act A
unfolding catch
catch_exception m h = catch m (λ e. if is_cancelled e then fail e else h e)

module _ (lib : Stdlib) where
  -- `_transition`
  unfoldable pub transition_task : Write → Task → State → Option Failure → Act Task
  unfolding persist_update move_to
  transition_task w r target failure = persist_update lib w.env r (move_to lib w.now target failure)

  -- `_finish_stopping`, of a task that is stopping.
  unfoldable pub finish_stopping : Write → Await (Unit {0}) → Task → Act (Unit {0})
  unfolding ◌>>=◌ transition_task wait
  finish_stopping w rendered r =
      if r.state == stopping then transition_task w r stopped none >> wait rendered else return tt

  -- `_set_message_id` of a card: four attempts.
  abbrev pub with_card : Datetime → ℕ → Task → Result Task
  with_card now card r =
      bind (timestamp lib now)
        (λ stamp. checked lib (record r { card_message_id = some card; updated_at = stamp }))

  unfoldable pub set_card : List Write → String → ℕ → Act Task
  unfolding catch ◌>>=◌ get persist_update
  set_card [] id card = get lib id
  set_card (w ∷ ws) id card =
      let again = set_card ws id card in
      get lib id >>= λ r.
      if is_some r.card_message_id
      then return r
      else catch (persist_update lib w.env r (with_card w.now card))
          (λ x. if is_conflict x then again else fail x)

  abbrev pub attach_card : RunEnv → String → Option ℕ → Act (Unit {0})
  attach_card e id none = return tt
  attach_card e id (some card) = set_card (take 4 e.attach) id card >> wait e.card_rendered

  unfoldable pub create_card : RunEnv → String → Act (Unit {0})
  unfolding catch_exception ◌>>=◌ get wait set_card
  create_card e id = do
    r ← get lib id
    (if is_some r.card_message_id
        then return tt
        else catch_exception (wait e.card) (λ x. return none) >>= attach_card e id)

  -- `_delivery_failed`
  unfoldable pub delivery_is_failed : RunEnv → String → Bool → Act (Unit {0})
  unfolding ◌>>=◌ get transition_task classify_delivery_failure wait
  delivery_is_failed e id definitive = do
    r ← get lib id
    (if not (r.state == delivering)
        then return tt
        else (transition_task e.at_end r delivery_failed
              (some (classify_delivery_failure definitive))
            >> wait e.done_rendered))

  -- The result of `_delivery.send`.
  abbrev pub with_result : Datetime → ℕ → Task → Result Task
  with_result now result r =
      bind (checked lib (record r { result_message_id = some result }))
        (move_to lib now completed none)

  unfoldable pub after_send : RunEnv → String → Result ℕ → Act (Unit {0})
  unfolding ◌>>=◌ get persist_update move_to checked wait delivery_is_failed
  after_send e id (ok result) = do
    r ← get lib id
    persist_update lib e.at_end.env r (with_result e.at_end.now result)
    wait e.done_rendered
  after_send e id (raise x) =
      if is_cancelled x then fail x else delivery_is_failed e id (is_definitive x)

  unfoldable pub send_delivery : RunEnv → String → Act (Unit {0})
  unfolding ◌>>=◌ get after_send
  send_delivery e id = do get lib id; modify e.sent.others; after_send e id e.sent.answer

  -- `_prepare_delivery`
  unfoldable pub deliver : RunEnv → String → Task → Act (Unit {0})
  unfolding catch ◌>>=◌ transition_task send_delivery
  deliver e id r = do
    fail_if (not e.leased) agent_workspace
    catch (transition_task e.at_deliver r delivering none)
        (λ x. modify (effect (discarded id)) >> fail x)
    send_delivery e id

  unfoldable pub prepare_delivery : RunEnv → String → Act (Unit {0})
  unfolding ◌>>=◌ get wait finish_stopping deliver
  prepare_delivery e id = do
    r ← get lib id
    (if r.state == stopping
        then finish_stopping e.at_end e.done_rendered r
        else if not (r.state == running)
        then return tt
        else do
          wait e.prepared
          from e.put
          r ← get lib id
          (if r.state == stopping
              then (modify (effect (discarded id)) >> finish_stopping e.at_end e.done_rendered r)
              else deliver e id r))

  -- The agent runs a task that is starting.
  unfoldable pub run_agent : RunEnv → String → Task → Act (Unit {0})
  unfolding ◌>>=◌ transition_task wait prepare_delivery
  run_agent e id r = do
    transition_task e.at_run r running none
    wait e.running_rendered
    wait e.context
    wait e.reply
    prepare_delivery e id

  abbrev pub run_from : RunEnv → String → Option Task → Act (Unit {0})
  run_from e id none = return tt
  run_from e id (some r) =
      if r.state == stopping
      then finish_stopping e.at_end e.done_rendered r
      else if not (r.state == starting)
      then return tt
      else run_agent e id r

  -- The first part for a task that recovers: `none` where the run ends.
  unfoldable pub recover : RunEnv → String → Act (Option Task)
  unfolding ◌>>=◌ get wait finish_stopping transition_task
  recover e id = do
    wait e.started
    r ← get lib id
    (if r.state == stopping
        then (finish_stopping e.at_end e.done_rendered r >> return none)
        else if not (r.state == recovering)
        then return none
        else (transition_task e.at_start r starting none >>= λ q. return (some q)))

  unfoldable pub run_task : RunEnv → String → RunSpec → Act (Unit {0})
  unfolding ◌>>=◌ create_card recover get run_agent finish_stopping
  run_task e id spec = do
    (if spec.create_card then create_card e id else return tt)
    r ← (if spec.recovering then recover e id else (get lib id >>= λ r. return (some r)))
    run_from e id r
