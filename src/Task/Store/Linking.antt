-- ===== src/Task/Store/Linking.antt =====
-- `link_child` keeps the invariant of the store.
use study_os_agent_gateway.Common.{
  ℕ, ◌+◌, String, ◌≡◌, refl, sym, ◌∙◌, inl, inr, true, false, not, ◌||◌, Option, none, some, arith,
  is_some, string_eq, bool_eq, nat_eq, ◌==◌, option_eq, list_eq, raise_if, Returns,
  Returns-raise_if, Returns-bind, Returns-then, value_error, task_already_exists, Stdlib,
}
use study_os_agent_gateway.Task.Store.Commit.{
  commit-IsConsistent, finish-state, >>>-keeps, IsConsistent,
}
use mathlib.Core.Bool.{false≢true}
use study_os_agent_gateway.Task.Store.Room.{available-HasRoom_new}
use study_os_agent_gateway.Task.Store.Operations.{checked-Returns, find_at_revision-Returns}
use study_os_agent_gateway.Task.Store.{
  link_child, Store, is_new_child, timestamp, check_child, ensure_execution_available, Env,
  find_at_revision,
}
use study_os_agent_gateway.Task.Failure.{category_eq, retry_mode_eq}
use study_os_agent_gateway.Task.State.{state_eq, State, is_active, completed}
use study_os_agent_gateway.Task.Invariant.{HasRoom-idle, IsSound, IsSound-set, HasRoom}
use study_os_agent_gateway.Task.Record.{
  checked, intent_eq, Task, cause_eq, is_well_formed, source_kind_eq,
}
use study_os_agent_gateway.Task.Ids.{contains_task_id}
use study_os_agent_gateway.Common.Dict
use study_os_agent_gateway.Common.Dict.{Dict}

module _ (lib : Stdlib) (tasks : Dict String Task) (child : Task) where
  -- What is about to be stored: a completed task that gets its link, and a child with room.
  abbrev pub IsLinking : String × Task → Type 0
  IsLinking found =
      (parent : Task) × (Dict.get tasks found.0 ≡ some parent)
      × (is_active found.1.state ≡ false)
      × (found.1.task_id ≡ parent.task_id)
      × (is_well_formed lib found.1 ≡ true)
      × HasRoom tasks child.task_id child

  completed-idle :
      (s : State) (o : Option String)
      → (not (s == completed) || is_some o) ≡ false
      → is_active s ≡ false
  unfolding is_active
  completed-idle s o h = ground arith

  check_child-IsLinking :
      (env : Env) (id : String) (n : ℕ) → Returns IsLinking (check_child lib env tasks id n child)
  unfolding check_child
  check_child-IsLinking env id n =
      Returns-bind (λ found. (Dict.get tasks found.0 ≡ some found.1) × (found.1.revision ≡ n))
        IsLinking (find_at_revision lib tasks id n) _ (find_at_revision-Returns lib tasks id n)
        (λ (key, parent) _ (found, _).
          Returns-bind
            (λ _. (not (parent.state == completed) || is_some parent.continued_to_task_id) ≡ false)
            IsLinking
            (raise_if (not (parent.state == completed) || is_some parent.continued_to_task_id)
              value_error)
            _
            (Returns-raise_if
              (not (parent.state == completed) || is_some parent.continued_to_task_id) value_error)
            (λ _ _ idle.
              Returns-then IsLinking (contains_task_id lib tasks child.task_id) _ (λ taken _.
                Returns-then IsLinking (raise_if taken task_already_exists) _ (λ _ _.
                  Returns-then IsLinking (raise_if (not (child.attempt == 1)) value_error) _ (λ _ _.
                    Returns-then IsLinking
                      (raise_if (not (is_new_child lib parent child)) value_error) _
                      (λ _ _.
                        Returns-bind (λ _. HasRoom tasks child.task_id child) IsLinking
                          (ensure_execution_available child tasks none) _
                          (available-HasRoom_new child tasks child.task_id)
                          (λ _ _ room. Returns-then IsLinking (timestamp lib env.clock) _ (λ now _.
                            let linked : Task = record parent {
                              continued_to_task_id = some child.task_id;
                              revision = parent.revision + 1;
                              updated_at = now;
                            } in
                            Returns-bind (λ q. (q ≡ linked) × (is_well_formed lib linked ≡ true))
                              IsLinking (checked lib linked) _ (checked-Returns lib linked)
                              (λ q _ (is, good). (
                                parent,
                                found,
                                rw is
                                    (completed-idle parent.state parent.continued_to_task_id idle),
                                rw is,
                                rw is good,
                                room,
                              ))))))))))

-- `link_child`, given a child that passed its constructor.
pub link_child-IsConsistent :
    (lib : Stdlib) (env : Env) (id : String) (n : ℕ) (child : Task) (s : Store)
    → is_well_formed lib child ≡ true
    → IsConsistent lib s
    → IsConsistent lib (link_child lib env id n child s).1
unfolding link_child
link_child-IsConsistent lib env id n child s good before =
    >>>-keeps (IsLinking lib s.tasks child) (IsConsistent lib)
      (check_child lib env s.tasks id n child) _ s
      (check_child-IsLinking lib s.tasks child env id n) before
      (λ (key, linked) _ (parent, found, idle, own, fine, room).
        let linked_tasks = Dict.set s.tasks key linked in
        let sound : IsSound lib linked_tasks =
          IsSound-set s.tasks key linked lib before.sound
            (own ∙ before.sound.keyed key parent found) fine
            (HasRoom-idle s.tasks key linked idle) in
        rw (finish-state {A = Task × Task} (linked, child)) (
          commit-IsConsistent lib env (Dict.set linked_tasks child.task_id child) s before (
            IsSound-set linked_tasks child.task_id child lib sound refl good (λ j q hq ne ac aq.
              elim (Dict.get-set-cases s.tasks key linked j q hq) [
                | inl (_, new) ↦ absurd (false≢true (sym idle ∙ (rw new at aq)))
                | inr (_, old) ↦ room j q old ne ac aq
              ]))))
