-- ===== src/Task/Store.antt =====
-- The durable store of Discord tasks: discord_task_store.py, class `DiscordTaskStore`, with
-- discord_task_persistence.py and discord_task_store_mutations.py. An operation returns its result
-- or exception and the state that it left. The lock makes each operation one step.
pub mod Commit
mod Room
pub mod Operations
pub mod Linking
pub mod Revision
use study_os_agent_gateway.Common.{
  ℕ, ◌+◌, String, Bool, true, false, not, ◌&&◌, ◌||◌, Option, none, some, if◌then◌else◌, is_some,
  ◌==◌, nat_eq, string_eq, bool_eq, option_eq, list_eq, any, Result, ◌>>=◌, ◌>>◌, raise_if,
  or_raise, value_error, key_error, task_revision_conflict, task_already_exists, durability_error,
  os_error, ok, raise, Datetime, Stdlib,
}
use study_os_agent_gateway.Task.Failure.{retry_mode_eq, category_eq}
use study_os_agent_gateway.Task.Graph.{same_task_scope}
use study_os_agent_gateway.Common.Dict
use study_os_agent_gateway.Common.Dict.{Dict}
use study_os_agent_gateway.Task.State.{
  starting, state_eq, completed, delivering, is_active, can_transition,
}
use study_os_agent_gateway.Task.Record.{checked, Task, source_kind_eq, intent_eq, cause_eq}
use study_os_agent_gateway.Task.Transition.{attempt_after_transition}
use study_os_agent_gateway.Task.Ids.{lookup_task_key, contains_task_id}
use study_os_agent_gateway.Task.Retention.{updated_at, as_utc, apply_retention}

-- `_tasks`, and the document on disk: absent until the first write. The document is kept as the
-- tasks that it encodes.
pub record Store : Type 0 where
  pub tasks : Dict String Task
  pub document : Option (Dict String Task)

-- `return value` after a call that may have raised.
abbrev pub finish : {A : Type 0} → A → Result (Unit {0}) × Store → Result A × Store
finish a (ok tt, s) = (ok a, s)
finish a (raise e, s) = (raise e, s)

-- What the outside supplies to one operation: the clock's readings, by the operation and then by
-- `_commit`; whether the new document replaced the old one; and the two directory syncs.
pub record Env : Type 0 where
  pub clock : Datetime
  pub commit_clock : Datetime
  pub replaced : Bool
  pub synced : Bool
  pub synced_again : Bool

abbrev pub Action : Type 0 → Type 0
Action A = Store → Result A × Store

-- Code that only reads: an exception leaves the store as it is.
infixl 5 ◌>>>◌
abbrev pub ◌>>>◌ : {A B : Type 0} → Result A → (A → Action B) → Action B
◌>>>◌ (ok a) f s = f a s
◌>>>◌ (raise e) f s = (raise e, s)

-- `confirm_document_durability`
abbrev pub confirm_document_durability : Bool → Result (Unit {0})
confirm_document_durability true = ok tt
confirm_document_durability false = raise durability_error

-- `write_document`: what it raises, and the document that is on disk then.
unfoldable pub write_document :
    Env
    → Dict String Task
    → Option (Dict String Task)
    → Result (Unit {0}) × Option (Dict String Task)
write_document env tasks old =
    if env.replaced
    then (confirm_document_durability env.synced, some tasks)
    else (raise os_error, old)

-- The handler in `_commit`, on what `_write` raised.
unfoldable pub after_write :
    Env → Dict String Task → Result (Unit {0}) × Option (Dict String Task) → Action (Unit {0})
after_write env retained (ok tt, disk) s = (ok tt, record { tasks = retained; document = disk })
after_write env retained (raise durability_error, disk) s =
    (confirm_document_durability env.synced_again, record { tasks = retained; document = disk })
after_write env retained (raise e, disk) s = (raise e, record s { document = disk })

-- `getattr(current, field) == getattr(candidate, field)` for every immutable field.
unfoldable pub same_identity : Task → Task → Bool
same_identity current candidate =
    (current.task_id == candidate.task_id)
    && (current.owner_id == candidate.owner_id)
    && (current.guild_id == candidate.guild_id)
    && (current.origin_channel_id == candidate.origin_channel_id)
    && (current.execution_channel_id == candidate.execution_channel_id)
    && (current.trigger_event_id == candidate.trigger_event_id)
    && (current.source_message_id == candidate.source_message_id)
    && (current.source_kind == candidate.source_kind)
    && (current.source_label == candidate.source_label)
    && (current.intent == candidate.intent)
    && (current.source_reference_id == candidate.source_reference_id)
    && (current.repository_commit_sha == candidate.repository_commit_sha)
    && (current.created_at == candidate.created_at)
    && (current.continued_from_task_id == candidate.continued_from_task_id)
    && (current.continued_to_task_id == candidate.continued_to_task_id)

-- The checks of `_validate_update`, in order; each raises `ValueError`.
unfoldable pub is_valid_update : Task → Task → Bool
is_valid_update current candidate =
    same_identity current candidate
    && (candidate.revision == current.revision)
    && ((candidate.state == current.state) || can_transition current.state candidate.state)
    && (candidate.attempt == attempt_after_transition current candidate.state)
    && (not (is_some current.interruption_cause)
        || (candidate.interruption_cause == current.interruption_cause))
    && not (
        not (is_some current.interruption_cause)
        && is_some candidate.interruption_cause
        && ((current.state == delivering) || (current.state == completed)))

-- `task.task_id != ignore_task_id and task.execution_channel_id == ... and task.state in ACTIVE_STATES`
unfoldable pub is_in_the_way : Task → Option String → Task → Bool
unfolding is_active
is_in_the_way r ignore t =
    not (some t.task_id == ignore)
    && (t.execution_channel_id == r.execution_channel_id)
    && is_active t.state

unfoldable pub ensure_execution_available :
    Task → Dict String Task → Option String → Result (Unit {0})
unfolding is_in_the_way
ensure_execution_available r tasks ignore =
    raise_if (is_active r.state && any (is_in_the_way r ignore) (Dict.values tasks)) value_error

module _ (lib : Stdlib) where
  -- `_timestamp`
  unfoldable pub timestamp : Datetime → Result String
  unfolding as_utc
  timestamp value = do t ← as_utc value; ok (lib.isoformat t)

  unfoldable pub commit : Env → Dict String Task → Action (Unit {0})
  unfolding apply_retention write_document after_write
  commit env tasks s =
      (apply_retention lib tasks env.commit_clock >>> λ retained s'.
      after_write env retained (write_document env retained s'.document) s')
        s

  -- What `create` checks before it writes.
  unfoldable pub check_new : Dict String Task → Task → Result (Unit {0})
  unfolding contains_task_id ensure_execution_available
  check_new tasks r = do
    taken ← contains_task_id lib tasks r.task_id
    raise_if taken task_already_exists
    raise_if (is_some r.continued_from_task_id || is_some r.continued_to_task_id) value_error
    raise_if (not (r.attempt == 1)) value_error
    ensure_execution_available r tasks none

  unfoldable pub create : Env → Task → Action (Unit {0})
  unfolding check_new commit
  create env r s = (check_new s.tasks r >>> λ _. commit env (Dict.set s.tasks r.task_id r)) s

  -- `get`
  unfoldable pub get_task : Dict String Task → String → Result Task
  unfolding lookup_task_key
  get_task tasks task_id = do
    key ← lookup_task_key lib tasks task_id
    or_raise (Dict.get tasks key) key_error

  -- The key and the record of a task at the expected revision.
  unfoldable pub find_at_revision : Dict String Task → String → ℕ → Result (String × Task)
  unfolding lookup_task_key
  find_at_revision tasks task_id expected_revision = do
    key ← lookup_task_key lib tasks task_id
    current ← or_raise (Dict.get tasks key) key_error
    raise_if (not (current.revision == expected_revision)) task_revision_conflict
    ok (key, current)

  -- What `compare_and_set` stores under the key: the candidate with the next revision.
  unfoldable pub check_update :
      Dict String Task → String → ℕ → (Task → Result Task) → Result (String × Task)
  unfolding find_at_revision is_valid_update ensure_execution_available checked
  check_update tasks task_id expected_revision update = do
    (key, current) ← find_at_revision tasks task_id expected_revision
    candidate ← update current
    raise_if (not (is_valid_update current candidate)) value_error
    ensure_execution_available candidate tasks (some key)
    updated ← checked lib (record candidate { revision = current.revision + 1 })
    ok (key, updated)

  unfoldable pub compare_and_set : Env → String → ℕ → (Task → Result Task) → Action Task
  unfolding check_update commit
  compare_and_set env task_id expected_revision update s =
      (check_update s.tasks task_id expected_revision update >>> λ found s'.
      let (key, updated) = found in finish updated (commit env (Dict.set s'.tasks key updated) s'))
        s

  -- A linked starting task of the scope of its parent, at revision 0.
  unfoldable pub is_new_child : Task → Task → Bool
  is_new_child parent child =
      (child.state == starting)
      && (child.continued_from_task_id == some parent.task_id)
      && (child.revision == 0)
      && same_task_scope parent child

  -- The parent with its link, under its key.
  unfoldable pub check_child : Env → Dict String Task → String → ℕ → Task → Result (String × Task)
  unfolding find_at_revision contains_task_id is_new_child ensure_execution_available checked
      timestamp
  check_child env tasks parent_id expected_revision child = do
    (key, parent) ← find_at_revision tasks parent_id expected_revision
    raise_if (not (parent.state == completed) || is_some parent.continued_to_task_id) value_error
    taken ← contains_task_id lib tasks child.task_id
    raise_if taken task_already_exists
    raise_if (not (child.attempt == 1)) value_error
    raise_if (not (is_new_child parent child)) value_error
    ensure_execution_available child tasks none
    now ← timestamp env.clock
    linked ← checked lib (record parent {
      continued_to_task_id = some child.task_id;
      revision = parent.revision + 1;
      updated_at = now;
    })
    ok (key, linked)

  unfoldable pub link_child : Env → String → ℕ → Task → Action (Task × Task)
  unfolding check_child commit
  link_child env parent_id expected_revision child s =
      (check_child env s.tasks parent_id expected_revision child >>> λ found s'.
      let (key, linked) = found in
      finish (linked, child)
        (commit env (Dict.set (Dict.set s'.tasks key linked) child.task_id child) s'))
        s
