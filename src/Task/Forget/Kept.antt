-- ===== src/Task/Forget/Kept.antt =====
-- `forget` keeps the invariant of the store.
use study_os_agent_gateway.Common.{
  ℕ, ◌+◌, String, ◌≡◌, refl, ◌∙◌, true, Option, none, some, List, arith, raise_if, or_raise,
  Returns, Returns-or_raise, Returns-bind, Returns-then, value_error, key_error, Stdlib, string_eq,
  nat_eq,
}
use study_os_agent_gateway.Task.Retention.Subset.{IsPart}
use study_os_agent_gateway.Task.Store.Operations.{checked-Returns}
use study_os_agent_gateway.Task.Store.Commit.{
  commit-IsConsistent, >>>-keeps, finish-state, IsConsistent,
}
use study_os_agent_gateway.Task.Store.{Env, Store, find_at_revision, timestamp}
use study_os_agent_gateway.Task.Failure.{category_eq, retry_mode_eq}
use study_os_agent_gateway.Task.Forget.{
  forget, unlink_child, forget_inactive_task, check_forget, unlink_parent,
}
use study_os_agent_gateway.Task.State.{state_eq, is_active}
use study_os_agent_gateway.Task.Invariant.{HasRoom-same, IsSound, IsSound-set, IsSound-part}
use study_os_agent_gateway.Task.Record.{
  checked, intent_eq, cause_eq, Task, source_kind_eq, is_well_formed,
}
use study_os_agent_gateway.Task.Graph.{validate_continuation_graph}
use study_os_agent_gateway.Common.Dict
use study_os_agent_gateway.Common.Dict.{Dict}

module _ (lib : Stdlib) where
  abbrev Sound : Dict String Task × List Task → Type 0
  Sound found = IsSound lib found.0

  remove-IsPart : (tasks : Dict String Task) (k : String) → IsPart (Dict.remove tasks k) tasks
  remove-IsPart tasks k j r h = ground (arith, Dict.get-remove tasks k j)

  remove-IsSound :
      (tasks : Dict String Task) (k : String)
      → IsSound lib tasks
      → IsSound lib (Dict.remove tasks k)
  remove-IsSound tasks k sound =
      IsSound-part lib (Dict.remove tasks k) tasks (remove-IsPart tasks k)
        (Dict.IsUnique-remove tasks k sound.unique) sound

  -- A record that only loses a link.
  relinked-IsSound :
      (tasks : Dict String Task) (k : String) (found q : Task)
      → IsSound lib tasks
      → Dict.get tasks k ≡ some found
      → q.task_id ≡ found.task_id
      → q.state ≡ found.state
      → q.execution_channel_id ≡ found.execution_channel_id
      → is_well_formed lib q ≡ true
      → IsSound lib (Dict.set tasks q.task_id q)
  relinked-IsSound tasks k found q sound at own state channel good =
      let key : q.task_id ≡ k = own ∙ sound.keyed k found at in
      IsSound-set tasks q.task_id q lib sound refl good
        (HasRoom-same tasks q.task_id q {old = found} sound.exclusive (rw key at) state channel)

  unlink_parent-IsSound :
      (tasks : Dict String Task) (id : Option String) (now : String)
      → IsSound lib tasks
      → Returns Sound (unlink_parent lib tasks id now)
  unfolding unlink_parent
  unlink_parent-IsSound tasks none now sound = sound
  unlink_parent-IsSound tasks (some id) now sound =
      Returns-bind (λ r. Dict.get tasks id ≡ some r) Sound (or_raise (Dict.get tasks id) key_error)
        _ (Returns-or_raise (Dict.get tasks id) key_error)
        (λ found _ at.
          let parent : Task = record found {
            continued_to_task_id = none;
            revision = found.revision + 1;
            updated_at = now;
          } in
          Returns-bind (λ q. (q ≡ parent) × (is_well_formed lib parent ≡ true)) Sound
            (checked lib parent) _ (checked-Returns lib parent)
            (λ q _ (is, good).
              rw is (relinked-IsSound tasks id found parent sound at refl refl refl good)))

  unlink_child-IsSound :
      (tasks : Dict String Task) (id : Option String) (now : String)
      → IsSound lib tasks
      → Returns Sound (unlink_child lib tasks id now)
  unfolding unlink_child
  unlink_child-IsSound tasks none now sound = sound
  unlink_child-IsSound tasks (some id) now sound =
      Returns-bind (λ r. Dict.get tasks id ≡ some r) Sound (or_raise (Dict.get tasks id) key_error)
        _ (Returns-or_raise (Dict.get tasks id) key_error)
        (λ found _ at.
          let child : Task = record found {
            continued_from_task_id = none;
            revision = found.revision + 1;
            updated_at = now;
          } in
          Returns-bind (λ q. (q ≡ child) × (is_well_formed lib child ≡ true)) Sound
            (checked lib child) _ (checked-Returns lib child)
            (λ q _ (is, good).
              rw is (relinked-IsSound tasks id found child sound at refl refl refl good)))

  forget_inactive_task-IsSound :
      (tasks : Dict String Task) (id now : String)
      → IsSound lib tasks
      → Returns Sound (forget_inactive_task lib tasks id now)
  unfolding forget_inactive_task
  forget_inactive_task-IsSound tasks id now sound =
      Returns-then Sound (or_raise (Dict.get tasks id) key_error) _ (λ target _.
        Returns-then Sound (raise_if (is_active target.state) value_error) _ (λ _ _.
          Returns-bind Sound Sound
            (unlink_parent lib (Dict.remove tasks id) target.continued_from_task_id now) _
            (unlink_parent-IsSound (Dict.remove tasks id) target.continued_from_task_id now
              (remove-IsSound tasks id sound))
            (λ first _ sound1.
              Returns-bind Sound Sound (unlink_child lib first.0 target.continued_to_task_id now) _
                (unlink_child-IsSound first.0 target.continued_to_task_id now sound1)
                (λ second _ sound2.
                  Returns-then Sound (validate_continuation_graph second.0) _ (λ _ _. sound2)))))

  check_forget-IsSound :
      (env : Env) (tasks : Dict String Task) (id : String) (n : ℕ)
      → IsSound lib tasks
      → Returns Sound (check_forget lib env tasks id n)
  unfolding check_forget
  check_forget-IsSound env tasks id n sound =
      Returns-then Sound (find_at_revision lib tasks id n) _ (λ found _.
        Returns-then Sound (timestamp lib env.clock) _
          (λ now _. forget_inactive_task-IsSound tasks found.0 now sound))

  pub forget-IsConsistent :
      (env : Env) (id : String) (n : ℕ) (s : Store)
      → IsConsistent lib s
      → IsConsistent lib (forget lib env id n s).1
  unfolding forget
  forget-IsConsistent env id n s before =
      >>>-keeps Sound (IsConsistent lib) (check_forget lib env s.tasks id n) _ s
        (check_forget-IsSound env s.tasks id n before.sound) before
        (λ (tasks, neighbors) _ sound.
          rw (finish-state neighbors) (commit-IsConsistent lib env tasks s before sound))
