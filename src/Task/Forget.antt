-- ===== src/Task/Forget.antt =====
-- Forgetting a task: discord_task_store_mutations.py, and `DiscordTaskStore.forget`.
pub mod Kept
use study_os_agent_gateway.Common.{
  ℕ, ◌+◌, String, Option, none, some, List, [], ◌∷◌, ◌++◌, Result, raise_if, or_raise, ◌>>=◌, ◌>>◌,
  value_error, key_error, ok, Stdlib, string_eq, nat_eq,
}
use study_os_agent_gateway.Mirror.Record.{item_state_eq, item_kind_eq}
use study_os_agent_gateway.Task.Failure.{retry_mode_eq, category_eq}
use study_os_agent_gateway.Common.Dict
use study_os_agent_gateway.Common.Dict.{Dict}
use study_os_agent_gateway.Task.State.{state_eq, is_active}
use study_os_agent_gateway.Task.Record.{intent_eq, source_kind_eq, cause_eq, Task, checked}
use study_os_agent_gateway.Task.Graph.{validate_continuation_graph}
use study_os_agent_gateway.Task.Store.{
  Env, Action, ◌>>>◌, finish, find_at_revision, timestamp, commit,
}

module _ (lib : Stdlib) where
  -- The parent without its link, and then the child: `(updated, neighbors)`.
  unfoldable pub unlink_parent :
      Dict String Task → Option String → String → Result (Dict String Task × List Task)
  unfolding checked
  unlink_parent tasks none now = ok (tasks, [])
  unlink_parent tasks (some parent_id) now = do
    found ← or_raise (Dict.get tasks parent_id) key_error
    parent ← checked lib (record found {
      continued_to_task_id = none;
      revision = found.revision + 1;
      updated_at = now;
    })
    ok (Dict.set tasks parent.task_id parent, parent ∷ [])

  unfoldable pub unlink_child :
      Dict String Task → Option String → String → Result (Dict String Task × List Task)
  unfolding checked
  unlink_child tasks none now = ok (tasks, [])
  unlink_child tasks (some child_id) now = do
    found ← or_raise (Dict.get tasks child_id) key_error
    child ← checked lib (record found {
      continued_from_task_id = none;
      revision = found.revision + 1;
      updated_at = now;
    })
    ok (Dict.set tasks child.task_id child, child ∷ [])

  unfoldable pub forget_inactive_task :
      Dict String Task → String → String → Result (Dict String Task × List Task)
  unfolding is_active unlink_parent unlink_child validate_continuation_graph
  forget_inactive_task tasks task_id now = do
    target ← or_raise (Dict.get tasks task_id) key_error
    raise_if (is_active target.state) value_error
    (without_parent, parents) ←
        unlink_parent (Dict.remove tasks task_id) target.continued_from_task_id now
    (updated, children) ← unlink_child without_parent target.continued_to_task_id now
    validate_continuation_graph updated
    ok (updated, parents ++ children)

  unfoldable pub check_forget :
      Env → Dict String Task → String → ℕ → Result (Dict String Task × List Task)
  unfolding find_at_revision timestamp forget_inactive_task
  check_forget env tasks task_id expected_revision = do
    (key, current) ← find_at_revision lib tasks task_id expected_revision
    now ← timestamp lib env.clock
    forget_inactive_task tasks key now

  unfoldable pub forget : Env → String → ℕ → Action (List Task)
  unfolding check_forget commit
  forget env task_id expected_revision s =
      (check_forget env s.tasks task_id expected_revision >>> λ found s'.
      let (tasks, neighbors) = found in finish neighbors (commit lib env tasks s'))
        s
