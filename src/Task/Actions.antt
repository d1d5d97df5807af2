-- ===== src/Task/Actions.antt =====
-- What users do to a task: discord_task_actions.py, class `DiscordTaskActions`, behind the checks of
-- `DiscordTaskService` that it is open. The task is read and the actor authorized anew after each
-- `await`.
use study_os_agent_gateway.Common.{
  ℕ, String, Bool, true, false, not, ◌||◌, Option, none, some, if◌then◌else◌, is_some, string_eq,
  bool_eq, nat_eq, ◌==◌, option_eq, list_eq, Error, Result, value_error, task_revision_conflict,
  action_unavailable, cancelled, ok, raise, Datetime, Stdlib,
}
use study_os_agent_gateway.Common.Method.{
  return, fail, from, read, check, modify, fail_if, ◌>>=◌, ◌>>◌, catch, finally,
}
use study_os_agent_gateway.Common.Dict
use study_os_agent_gateway.Task.Store.{timestamp, Env}
use study_os_agent_gateway.Task.Failure.{
  classify_delivery_failure, category_eq, Failure, retry_delivery, retry_mode_eq,
}
use study_os_agent_gateway.Task.Queries.{
  idle_saved_session, status, validate_session_retry, known_capabilities, Capabilities,
}
use study_os_agent_gateway.Task.Transition.{claim_interruption}
use study_os_agent_gateway.Task.State.{
  running, delivering, starting, state_eq, stopping, recovering,
}
use study_os_agent_gateway.Task.Record.{
  intent_eq, source_kind_eq, checked, user_stop, Task, cause_eq,
}
use study_os_agent_gateway.Task.Request.{for_recovery}
use study_os_agent_gateway.Task.Access.{retry, stop, authorize, Access, steer, TaskAction}
use study_os_agent_gateway.Task.Service.{
  clean, restored, wait, spawned_delivery, effect, spawned_agent, Await, remember_interaction,
  ensure_runners_open, get, spawn, move_to, Act, persist_update,
}
use study_os_agent_gateway.Common.Outcome.{◌>>=◌ as bind}

abbrev pub generic_resume_prompt : String
generic_resume_prompt =
    "Continue the saved task from its existing session. Review the work already present and finish the task safely without asking for the original prompt."

-- `SteerResult`
pub data SteerResult : Type 0 where
  steered no_active_turn not_steerable : SteerResult

abbrev pub is_steered : SteerResult → Bool
is_steered steered = true
is_steered other_result = false

-- What the outside supplies to each action.
pub record SteerEnv : Type 0 where
  pub capabilities : Await Capabilities
  pub result : Await SteerResult

pub record StopEnv : Type 0 where
  pub env : Env
  pub now : Datetime
  pub interrupted : Await (Unit {0})
  pub rendered : Await (Unit {0})

pub record RetryEnv : Type 0 where
  pub env : Env
  pub now : Datetime
  pub idle : Await (Unit {0})
  pub capabilities : Await Capabilities
  pub has_reply : Bool
  pub rendered : Await (Unit {0})

pub record ContinueEnv : Type 0 where
  pub env : Env
  pub now : Datetime
  pub new_id : String
  pub capabilities : Await Capabilities
  pub rendered : Await (Unit {0})

pub record ForgetEnv : Type 0 where
  pub env : Env
  pub rendered : Await (Unit {0})

-- Any exception of the agent, but not a cancellation; `except TaskRevisionConflict`; `except (TaskRevisionConflict, ValueError)`.
abbrev pub unavailable : Error → Error
unavailable cancelled = cancelled
unavailable e = action_unavailable

abbrev pub conflict_unavailable : Error → Error
conflict_unavailable task_revision_conflict = action_unavailable
conflict_unavailable e = e

abbrev pub value_unavailable : Error → Error
value_unavailable value_error = action_unavailable
value_unavailable e = e

abbrev pub retry_unavailable : Error → Error
retry_unavailable task_revision_conflict = action_unavailable
retry_unavailable value_error = action_unavailable
retry_unavailable e = e

abbrev pub is_delivery_retry : Option Failure → Bool
is_delivery_retry none = false
is_delivery_retry (some f) = f.retry_mode == retry_delivery

-- The tests of `retry` before it waits for the runner.
unfoldable pub may_retry : Task → Result (Unit {0})
unfolding validate_session_retry
may_retry r =
    if not (is_some r.failure)
    then raise action_unavailable
    else if is_delivery_retry r.failure
    then ok tt
    else validate_session_retry r

-- `require_idle_saved_session`
unfoldable pub require_idle_saved_session : Await Capabilities → Act (Unit {0})
unfolding ◌>>=◌ idle_saved_session
require_idle_saved_session a = do
  modify a.others
  c ← from (known_capabilities a.answer)
  fail_if (not (idle_saved_session c)) action_unavailable

module _ (lib : Stdlib) where
  -- `status` and `authorize`.
  unfoldable pub authorized : String → TaskAction → Access → Act Task
  unfolding status authorize
  authorized id action access = check (λ s.
      bind (status lib s.store.tasks id access) (λ r. bind (authorize r action access) (λ _. ok r)))

  -- `if duplicate is not None: return self._store.get(duplicate)`, and else what follows.
  unfoldable pub answer_or : Act Task → Option String → Act Task
  unfolding get
  answer_or rest (some id) = get lib id
  answer_or rest none = rest

  unfoldable pub unless_seen : ℕ → Act Task → Act Task
  unfolding ◌>>=◌ answer_or
  unless_seen interaction rest =
      read (λ s. Dict.get s.interactions.claims interaction) >>= answer_or rest

  unfoldable pub steer_task : SteerEnv → String → Access → ℕ → Act Task
  unfolding finally catch ◌>>=◌ authorized unless_seen wait get
  steer_task e id access interaction =
      finally
        (do
          r ← authorized id steer access
          unless_seen interaction do
            fail_if (not (r.state == running)) action_unavailable
            modify (remember_interaction interaction id)
            capabilities ← catch (wait e.capabilities) (λ x. fail (unavailable x))
            r ← get lib id
            from (authorize r steer access)
            fail_if (not (r.state == running) || not capabilities.steering) action_unavailable
            result ← wait e.result
            fail_if (not (is_steered result)) action_unavailable
            get lib id)
        clean

  -- `claim_stop`
  unfoldable pub claim_stop : Datetime → Task → Result Task
  unfolding claim_interruption move_to
  claim_stop now r = bind (claim_interruption lib r user_stop) (move_to lib now stopping none)

  -- Another stop of a task that is stopping.
  unfoldable pub stop_again : StopEnv → String → ℕ → Act Task
  unfolding ◌>>=◌ wait get
  stop_again e id interaction = do
    modify (remember_interaction interaction id)
    wait e.interrupted
    get lib id

  unfoldable pub stop_first : StopEnv → String → ℕ → Task → Act Task
  unfolding catch ◌>>=◌ wait get persist_update claim_stop
  stop_first e id interaction r = do
    fail_if (not ((r.state == recovering) || (r.state == starting) || (r.state == running)))
        action_unavailable
    catch (persist_update lib e.env r (claim_stop e.now)) (λ x. fail (conflict_unavailable x))
    modify (remember_interaction interaction id)
    wait e.interrupted
    wait e.rendered
    get lib id

  unfoldable pub stop_task : StopEnv → String → Access → ℕ → Act Task
  unfolding ◌>>=◌ authorized unless_seen stop_again stop_first
  stop_task e id access interaction = do
    r ← authorized id stop access
    unless_seen interaction
        (if r.state == stopping then stop_again e id interaction else stop_first e id interaction r)

  -- `replace(current, failure=..., updated_at=...)`.
  unfoldable pub without_reply : Datetime → Task → Result Task
  unfolding timestamp checked classify_delivery_failure
  without_reply now r = bind (timestamp lib now) (λ stamp.
      checked lib
        (record r { failure = some (classify_delivery_failure false); updated_at = stamp }))

  unfoldable pub retry_with_reply : RetryEnv → ℕ → Task → Bool → Act Task
  unfolding catch ◌>>=◌ wait persist_update without_reply move_to spawn
  retry_with_reply e interaction r false = do
    q ← persist_update lib e.env r (without_reply e.now)
    modify (remember_interaction interaction r.task_id)
    wait e.rendered
    return q
  retry_with_reply e interaction r true = do
    q ←
        catch (persist_update lib e.env r (move_to lib e.now delivering none))
          (λ x. modify (effect (restored r.task_id)) >> fail x)
    modify (remember_interaction interaction r.task_id)
    spawn r.task_id (spawned_delivery r.task_id)
    wait e.rendered
    return q

  -- The last part of `retry`: the saved session takes up the task.
  unfoldable pub recover_session : RetryEnv → String → Access → ℕ → Task → Act Task
  unfolding catch ◌>>=◌ wait authorized unless_seen validate_session_retry
      require_idle_saved_session ensure_runners_open persist_update move_to spawn for_recovery
  recover_session e id access interaction r = do
    from (validate_session_retry r)
    require_idle_saved_session e.capabilities
    r ← authorized id retry access
    unless_seen interaction do
      from (validate_session_retry r)
      ensure_runners_open
      q ←
          catch (persist_update lib e.env r (move_to lib e.now recovering none))
            (λ x. fail (retry_unavailable x))
      modify (remember_interaction interaction id)
      spawn id (spawned_agent id (for_recovery generic_resume_prompt))
      wait e.rendered
      return q

  unfoldable pub retry_task : RetryEnv → String → Access → ℕ → Act Task
  unfolding ◌>>=◌ wait authorized unless_seen may_retry ensure_runners_open retry_with_reply
      recover_session
  retry_task e id access interaction = do
    r ← authorized id retry access
    unless_seen interaction do
      from (may_retry r)
      wait e.idle
      ensure_runners_open
      r ← authorized id retry access
      unless_seen interaction do
        fail_if (not (is_some r.failure)) action_unavailable
        ensure_runners_open
        (if is_delivery_retry r.failure
            then retry_with_reply e interaction r e.has_reply
            else recover_session e id access interaction r)
