-- ===== src/Task/Ending.antt =====
-- The actions on a task that has ended: discord_task_actions.py, `continue_task` and `forget`, and the
-- reconciliation of the service at startup, discord_task_reconciliation.py.
use study_os_agent_gateway.Common.{
  ℕ, String, Bool, ◌&&◌, Option, none, some, List, [], ◌∷◌, if◌then◌else◌, string_eq, bool_eq,
  nat_eq, ◌==◌, option_eq, list_eq, Result, action_unavailable, Datetime, Stdlib,
}
use study_os_agent_gateway.Common.Method.{
  return, fail, from, read, check, modify, fail_if, ◌>>=◌, ◌>>◌, catch,
}
use study_os_agent_gateway.Common.Dict
use study_os_agent_gateway.Task.Store.{Env, link_child, timestamp}
use study_os_agent_gateway.Task.Failure.{
  category_eq, retry_mode_eq, AgentError, classify_agent_failure,
}
use study_os_agent_gateway.Task.Queries.{Capabilities, known_capabilities, validate_continuation}
use study_os_agent_gateway.Task.Forget.{forget}
use study_os_agent_gateway.Task.State.{is_active, interrupted, state_eq}
use study_os_agent_gateway.Task.Record.{
  source_kind_eq, checked, gateway_restart, cause_eq, Task, intent_eq,
}
use study_os_agent_gateway.Task.Request.{new_record, from_request, Request}
use study_os_agent_gateway.Task.Access.{Access, forget_task, continue_task}
use study_os_agent_gateway.Task.Reconcile.{reconcile_startup}
use study_os_agent_gateway.Task.Actions.{
  authorized, ContinueEnv, value_unavailable, ForgetEnv, StopEnv, require_idle_saved_session,
}
use study_os_agent_gateway.Task.Service.{
  ensure_open, spawned_agent, remember_interaction, clean_on_error, Act, effect, persist_update,
  clean, remember_trigger, spawn, Await, discarded, wait, ensure_runners_open, get, on_store,
}
use study_os_agent_gateway.Common.Outcome.{◌>>=◌ as bind}

-- A continuation that was linked, with its parent to render, or the task of an earlier interaction.
pub data Continued : Type 0 where
  linked_to : (parent child : Task) → Continued
  seen_before : Task → Continued

module _ (lib : Stdlib) where
  -- The checks of `continue_task` on the parent and the request.
  unfoldable pub continuable : Request → Task → Act (Unit {0})
  unfolding validate_continuation
  continuable request parent = check (λ s. validate_continuation lib s.store.tasks parent request)

  abbrev pub seen_or : Act Continued → Option String → Act Continued
  seen_or rest (some id) = get lib id >>= λ r. return (seen_before r)
  seen_or rest none = rest

  unfoldable pub unless_continued : ℕ → Act Continued → Act Continued
  unfolding ◌>>=◌ get
  unless_continued interaction rest =
      read (λ s. Dict.get s.interactions.claims interaction) >>= seen_or rest

  unfoldable pub link_new : ContinueEnv → Request → ℕ → Task → Act Continued
  unfolding ◌>>=◌ ensure_runners_open new_record on_store link_child spawn from_request
  link_new e request interaction parent = do
    ensure_runners_open
    child ← from (new_record lib request e.new_id e.now (some parent))
    pair ← on_store (link_child lib e.env parent.task_id parent.revision child)
    modify (remember_interaction interaction child.task_id)
    modify (remember_trigger request.trigger_event_id child.task_id)
    spawn child.task_id (spawned_agent child.task_id (from_request request))
    return (linked_to pair.0 pair.1)

  unfoldable pub link_continuation : ContinueEnv → String → Access → Request → ℕ → Act Continued
  unfolding ◌>>=◌ authorized continuable unless_continued require_idle_saved_session link_new
  link_continuation e id access request interaction = do
    parent ← authorized lib id continue_task access
    unless_continued interaction do
      continuable request parent
      require_idle_saved_session e.capabilities
      parent ← authorized lib id continue_task access
      unless_continued interaction
          do continuable request parent; link_new e request interaction parent

  -- The attachments are cleaned up unless the runner has them.
  abbrev pub after_link : ContinueEnv → Continued → Act Task
  after_link e (linked_to parent child) = wait e.rendered >> return child
  after_link e (seen_before r) = modify clean >> return r

  unfoldable pub continue_from : ContinueEnv → String → Access → Request → ℕ → Act Task
  unfolding ◌>>=◌ clean_on_error link_continuation wait
  continue_from e id access request interaction =
      clean_on_error (link_continuation e id access request interaction) >>= after_link e

  abbrev pub forget_unless : Act (Unit {0}) → Option String → Act (Unit {0})
  forget_unless rest (some id) = return tt
  forget_unless rest none = rest

  unfoldable pub forget_idle : ForgetEnv → String → ℕ → Task → Act (Unit {0})
  unfolding catch ◌>>=◌ is_active on_store forget wait
  forget_idle e id interaction r = do
    fail_if (is_active r.state) action_unavailable
    catch (on_store (forget lib e.env id r.revision)) (λ x. fail (value_unavailable x))
    modify (remember_interaction interaction id)
    modify (effect (discarded id))
    wait e.rendered

  unfoldable pub forget_task_of : ForgetEnv → String → Access → ℕ → Act (Unit {0})
  unfolding ◌>>=◌ authorized forget_idle
  forget_task_of e id access interaction =
      read (λ s. Dict.get s.interactions.claims interaction)
      >>= forget_unless (authorized lib id forget_task access >>= forget_idle e id interaction)

  -- `_enrich_restart`: what the agent knows of the session of an interrupted task.
  unfoldable pub enriched : Capabilities → Datetime → Task → Result Task
  unfolding timestamp checked classify_agent_failure
  enriched c now r = bind (timestamp lib now) (λ stamp. checked lib (record r {
    failure =
        some (
          classify_agent_failure AgentError.runtime_disconnected c.persisted_session c.active_turn);
    updated_at = stamp;
  }))

  unfoldable pub enrich_restart : StopEnv → Await Capabilities → Task → Act Task
  unfolding ◌>>=◌ get persist_update enriched
  enrich_restart e capabilities r = do
    modify capabilities.others
    c ← from (known_capabilities capabilities.answer)
    current ← get lib r.task_id
    persist_update lib e.env current (enriched c e.now)

  abbrev pub is_restarted : Task → Bool
  is_restarted r = (r.state == interrupted) && (r.interruption_cause == some gateway_restart)

  -- The loop of `reconcile`; the outside supplies each round.
  unfoldable pub reconcile_each :
      (String → StopEnv × Await Capabilities) → List Task → Act (List Task)
  unfolding ◌>>=◌ enrich_restart wait
  reconcile_each e [] = return []
  reconcile_each e (r ∷ rs) = do
    q ← (if is_restarted r then enrich_restart (e r.task_id).0 (e r.task_id).1 r else return r)
    wait (e r.task_id).0.rendered
    rest ← reconcile_each e rs
    return (q ∷ rest)

  unfoldable pub reconcile_service : Env → (String → StopEnv × Await Capabilities) → Act (List Task)
  unfolding ◌>>=◌ ensure_open on_store reconcile_startup reconcile_each
  reconcile_service env e = do
    ensure_open
    changed ← on_store (reconcile_startup lib env)
    reconcile_each e changed
