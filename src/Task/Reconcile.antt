-- ===== src/Task/Reconcile.antt =====
-- What a restart does to the tasks: discord_task_store.py, `reconcile_startup`, `_reconcile` and
-- `_delivery_retry_disabled`; and `_load`.
pub mod Restart
pub mod Stuck
use study_os_agent_gateway.Common.{
  ◌+◌, String, Bool, true, false, ◌&&◌, Option, none, some, List, [], ◌∷◌, ◌++◌, if◌then◌else◌,
  is_some, ◌==◌, nat_eq, string_eq, bool_eq, option_eq, list_eq, Result, ◌>>=◌, ◌>>◌, value_error,
  store_corruption, os_error, ok, raise, Datetime, Stdlib,
}
use study_os_agent_gateway.Task.Retention.{updated_at}
use study_os_agent_gateway.Common.Dict
use study_os_agent_gateway.Common.Dict.{Dict}
use study_os_agent_gateway.Task.State.{
  State, state_eq, starting, recovering, running, stopping, delivering, completed, delivery_failed,
  interrupted,
}
use study_os_agent_gateway.Task.Failure.{
  Failure, retry_delivery, no_retry, discord_delivery, checked_failure, category_eq, retry_mode_eq,
}
use study_os_agent_gateway.Task.Record.{
  intent_eq, source_kind_eq, Task, gateway_restart, checked, cause_eq,
}
use study_os_agent_gateway.Task.Transition.{claim_interruption}
use study_os_agent_gateway.Task.Ids.{validate_unique_task_ids}
use study_os_agent_gateway.Task.Graph.{validate_continuation_graph}
use study_os_agent_gateway.Task.Store.{
  Store, Env, Action, ◌>>>◌, finish, timestamp, commit, same_identity,
}

unfoldable pub delivery_retry_disabled : Option Failure → Result Failure
unfolding checked_failure
delivery_retry_disabled none = checked_failure (record {
  category = discord_delivery;
  summary = "Discord could not deliver the result.";
  retry_mode = no_retry;
})
delivery_retry_disabled (some f) = checked_failure (record f { retry_mode = no_retry })

-- `failure is not None and failure.retry_mode is RETRY_DELIVERY`
unfoldable pub offers_delivery_retry : Option Failure → Bool
offers_delivery_retry none = false
offers_delivery_retry (some f) = f.retry_mode == retry_delivery

-- The generated `__eq__` of the two dataclasses.
unfoldable pub failure_eqb : Failure → Failure → Bool
failure_eqb f g =
    (f.category == g.category) && (f.summary == g.summary) && (f.retry_mode == g.retry_mode)

unfoldable pub option_failure_eqb : Option Failure → Option Failure → Bool
unfolding failure_eqb
option_failure_eqb none none = true
option_failure_eqb (some f) (some g) = failure_eqb f g
option_failure_eqb _ _ = false

unfoldable pub task_eqb : Task → Task → Bool
task_eqb r q =
    same_identity r q
    && (r.revision == q.revision)
    && (r.card_message_id == q.card_message_id)
    && (r.result_message_id == q.result_message_id)
    && (r.updated_at == q.updated_at)
    && (r.attempt == q.attempt)
    && (r.state == q.state)
    && option_failure_eqb r.failure q.failure
    && (r.interruption_cause == q.interruption_cause)

module _ (lib : Stdlib) where
  unfoldable pub interrupt : Task → String → Result Task
  unfolding claim_interruption checked
  interrupt r now = do
    claimed ← claim_interruption lib r gateway_restart
    checked lib (record claimed { state = interrupted; updated_at = now })

  unfoldable pub end_delivery : Task → String → Result Task
  unfolding checked delivery_retry_disabled
  end_delivery r now =
      if is_some r.result_message_id
      then checked lib (record r { state = completed; updated_at = now; failure = none })
      else (delivery_retry_disabled r.failure >>= λ f.
          checked lib (record r { state = delivery_failed; updated_at = now; failure = some f }))

  unfoldable pub disable_retry : Task → String → Result Task
  unfolding checked delivery_retry_disabled offers_delivery_retry
  disable_retry r now =
      if offers_delivery_retry r.failure
      then (delivery_retry_disabled r.failure >>= λ f.
          checked lib (record r { updated_at = now; failure = some f }))
      else ok r

  unfoldable pub reconcile_in : State → Task → String → Result Task
  unfolding interrupt end_delivery disable_retry
  reconcile_in recovering r now = interrupt r now
  reconcile_in starting r now = interrupt r now
  reconcile_in running r now = interrupt r now
  reconcile_in stopping r now = interrupt r now
  reconcile_in delivering r now = end_delivery r now
  reconcile_in delivery_failed r now = disable_retry r now
  reconcile_in s r now = ok r

  unfoldable pub reconcile : Task → String → Result Task
  unfolding reconcile_in
  reconcile r now = reconcile_in r.state r now

  -- The loop over `self._tasks.items()`, with what is in `tasks` and `changed` so far.
  unfoldable pub reconcile_all :
      Dict String Task
      → String
      → Dict String Task × List Task
      → Result (Dict String Task × List Task)
  unfolding reconcile task_eqb checked
  reconcile_all [] now acc = ok acc
  reconcile_all ((task_id, r) ∷ rest) now (tasks, changed) = do
    reconciled ← reconcile r now
    next ←
        if task_eqb reconciled r
        then ok (tasks, changed)
        else (checked lib (record reconciled { revision = r.revision + 1 }) >>= λ q.
            ok (Dict.set tasks task_id q, changed ++ q ∷ []))
    reconcile_all rest now next

  unfoldable pub plan_startup : Dict String Task → Datetime → Result (Dict String Task × List Task)
  unfolding timestamp reconcile_all
  plan_startup tasks now = do stamp ← timestamp lib now; reconcile_all tasks stamp (tasks, [])

  unfoldable pub commit_changed : Env → Dict String Task → List Task → Action (List Task)
  unfolding commit
  commit_changed env tasks [] s = (ok [], s)
  commit_changed env tasks (r ∷ rest) s = finish (r ∷ rest) (commit lib env tasks s)

  -- `env.clock` is the argument `now`.
  unfoldable pub reconcile_startup : Env → Action (List Task)
  unfolding plan_startup commit_changed
  reconcile_startup env s =
      (plan_startup s.tasks env.clock >>> λ found.
      let (tasks, changed) = found in commit_changed env tasks changed)
        s

  -- `_load`, on what reading and decoding the file gave; `none` where there is no file. Each
  -- `OSError` and `ValueError` becomes `TaskStoreCorruptionError`.
  unfoldable pub as_corruption : {A : Type 0} → Result A → Result A
  as_corruption (ok a) = ok a
  as_corruption (raise os_error) = raise store_corruption
  as_corruption (raise value_error) = raise store_corruption
  as_corruption (raise e) = raise e

  unfoldable pub load : Option (Result (Dict String Task)) → Result Store
  unfolding as_corruption validate_unique_task_ids validate_continuation_graph
  load none = ok (record { tasks = []; document = none })
  load (some read) = as_corruption (do
    tasks ← read
    validate_unique_task_ids lib tasks
    validate_continuation_graph tasks
    ok (record { tasks = tasks; document = some tasks }))
