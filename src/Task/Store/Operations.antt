-- ===== src/Task/Store/Operations.antt =====
-- Every operation of the store keeps its invariant, whether it returns or raises.
use study_os_agent_gateway.Common.{
  ℕ, ◌+◌, String, ◌≡◌, refl, ◌∙◌, inl, inr, true, false, not, ◌||◌, some, arith, Bool-cases,
  is_some, not-false, ◌==◌, nat_eq, string_eq, bool_eq, option_eq, list_eq, Result, raise_if,
  or_raise, Returns, Returns-raise_if, Returns-or_raise, Returns-bind, Returns-then, value_error,
  key_error, task_revision_conflict, task_already_exists, Stdlib,
}
use text.Mathlib.TextEquality.{eq_iff}
use study_os_agent_gateway.Task.Retention.Subset.{IsKeyed}
use study_os_agent_gateway.Task.Store.Room.{available-HasRoom_old, available-HasRoom_new}
use study_os_agent_gateway.Task.Store.Commit.{
  finish-state, commit-IsConsistent, >>>-keeps, IsConsistent,
}
use study_os_agent_gateway.Task.Store.{
  compare_and_set, check_update, same_identity, ensure_execution_available, is_valid_update, create,
  check_new, find_at_revision, commit, Env, Store,
}
use study_os_agent_gateway.Task.Failure.{retry_mode_eq, category_eq}
use study_os_agent_gateway.Task.State.{state_eq}
use study_os_agent_gateway.Task.Invariant.{IsSound-set, HasRoom}
use study_os_agent_gateway.Task.Record.{
  Task, source_kind_eq, checked, is_well_formed, cause_eq, intent_eq,
}
use study_os_agent_gateway.Task.Ids.{lookup_task_key, contains_task_id}
use study_os_agent_gateway.Common.Dict
use study_os_agent_gateway.Common.Dict.{Dict}

module _ (lib : Stdlib) where
  check_new-HasRoom :
      (tasks : Dict String Task) (r : Task)
      → Returns (λ _. HasRoom tasks r.task_id r) (check_new lib tasks r)
  unfolding check_new
  check_new-HasRoom tasks r =
      let P : Unit {0} → Type 0 = λ _. HasRoom tasks r.task_id r in
      Returns-then P (contains_task_id lib tasks r.task_id) _ (λ taken _.
        Returns-then P (raise_if taken task_already_exists) _ (λ _ _.
          Returns-then P
            (raise_if (is_some r.continued_from_task_id || is_some r.continued_to_task_id)
              value_error)
            _
            (λ _ _.
              Returns-then P (raise_if (not (r.attempt == 1)) value_error) _
                (λ _ _. available-HasRoom_new r tasks r.task_id))))

  -- `create`, given a record that passed its constructor.
  pub create-IsConsistent :
      (env : Env) (r : Task) (s : Store)
      → is_well_formed lib r ≡ true
      → IsConsistent lib s
      → IsConsistent lib (create lib env r s).1
  unfolding create
  create-IsConsistent env r s good before =
      >>>-keeps (λ _. HasRoom s.tasks r.task_id r) (IsConsistent lib) (check_new lib s.tasks r)
        (λ _. commit lib env (Dict.set s.tasks r.task_id r)) s (check_new-HasRoom s.tasks r) before
        (λ _ _ room.
          commit-IsConsistent lib env (Dict.set s.tasks r.task_id r) s before
            (IsSound-set s.tasks r.task_id r lib before.sound refl good room))

  pub checked-Returns :
      (r : Task) → Returns (λ q. (q ≡ r) × (is_well_formed lib r ≡ true)) (checked lib r)
  unfolding checked
  checked-Returns r = elim (Bool-cases (is_well_formed lib r)) [
    | inl eq ↦ rw eq (refl, refl)
    | inr eq ↦ rw eq tt
  ]

  -- What stands under the key that is found.
  pub find_at_revision-Returns :
      (tasks : Dict String Task) (id : String) (n : ℕ)
      → Returns
          (λ found. (Dict.get tasks found.0 ≡ some found.1) × (found.1.revision ≡ n))
          (find_at_revision lib tasks id n)
  unfolding find_at_revision
  find_at_revision-Returns tasks id n =
      let P : String × Task → Type 0 =
        λ found. (Dict.get tasks found.0 ≡ some found.1) × (found.1.revision ≡ n) in
      Returns-then P (lookup_task_key lib tasks id) _ (λ key _.
        Returns-bind (λ r. Dict.get tasks key ≡ some r) P (or_raise (Dict.get tasks key) key_error)
          _ (Returns-or_raise (Dict.get tasks key) key_error)
          (λ r _ found.
            Returns-bind (λ _. not (r.revision == n) ≡ false) P
              (raise_if (not (r.revision == n)) task_revision_conflict) _
              (Returns-raise_if (not (r.revision == n)) task_revision_conflict)
              (λ _ _ e. (found, ground arith))))

  pub same_identity-task_id : (r q : Task) → same_identity r q ≡ true → q.task_id ≡ r.task_id
  unfolding same_identity
  same_identity-task_id r q h = ground (arith, eq_iff r.task_id q.task_id)

  pub is_valid_update-same_identity :
      (r q : Task) → is_valid_update r q ≡ true → same_identity r q ≡ true
  unfolding is_valid_update
  is_valid_update-same_identity r q h = ground arith

  -- What `compare_and_set` is about to store: the next revision of a valid update, with room.
  abbrev pub IsUpdate : Dict String Task → String × Task → Type 0
  IsUpdate tasks found =
      (current : Task) × (candidate : Task) × (Dict.get tasks found.0 ≡ some current)
      × (is_valid_update current candidate ≡ true)
      × (found.1 ≡ record candidate { revision = current.revision + 1 })
      × (is_well_formed lib (record candidate { revision = current.revision + 1 }) ≡ true)
      × HasRoom tasks found.0 candidate

  check_update-IsUpdate :
      (tasks : Dict String Task)
      → IsKeyed tasks
      → (id : String) (n : ℕ) (update : Task → Result Task)
      → Returns (IsUpdate tasks) (check_update lib tasks id n update)
  unfolding check_update
  check_update-IsUpdate tasks keyed id n update =
      Returns-bind (λ found. (Dict.get tasks found.0 ≡ some found.1) × (found.1.revision ≡ n))
        (IsUpdate tasks) (find_at_revision lib tasks id n) _ (find_at_revision-Returns tasks id n)
        (λ found _ at. Returns-then (IsUpdate tasks) (update found.1) _ (λ candidate _.
          Returns-bind (λ _. not (is_valid_update found.1 candidate) ≡ false) (IsUpdate tasks)
            (raise_if (not (is_valid_update found.1 candidate)) value_error) _
            (Returns-raise_if (not (is_valid_update found.1 candidate)) value_error)
            (λ _ _ valid.
              Returns-bind (λ _. HasRoom tasks found.0 candidate) (IsUpdate tasks)
                (ensure_execution_available candidate tasks (some found.0)) _
                (available-HasRoom_old candidate tasks found.0 keyed)
                (λ _ _ room.
                  Returns-bind
                    (λ q.
                      (q ≡ record candidate { revision = found.1.revision + 1 })
                      × (is_well_formed lib (record candidate { revision = found.1.revision + 1 })
                          ≡ true))
                    (IsUpdate tasks)
                    (checked lib (record candidate { revision = found.1.revision + 1 })) _
                    (checked-Returns (record candidate { revision = found.1.revision + 1 }))
                    (λ q _ good.
                      (found.1, candidate, at.0, not-false _ valid, good.0, good.1, room))))))

  -- `compare_and_set`, whatever the callback does.
  pub compare_and_set-IsConsistent :
      (env : Env) (id : String) (n : ℕ) (update : Task → Result Task) (s : Store)
      → IsConsistent lib s
      → IsConsistent lib (compare_and_set lib env id n update s).1
  unfolding compare_and_set
  compare_and_set-IsConsistent env id n update s before =
      >>>-keeps (IsUpdate s.tasks) (IsConsistent lib) (check_update lib s.tasks id n update) _ s
        (check_update-IsUpdate s.tasks before.sound.keyed id n update) before
        (λ (key, q) _ (current, candidate, found, valid, is, good, room). rw (finish-state q) (
          commit-IsConsistent lib env (Dict.set s.tasks key q) s before (
            IsSound-set s.tasks key q lib before.sound
              (rw is (
                same_identity-task_id current candidate
                  (is_valid_update-same_identity current candidate valid)
                ∙ before.sound.keyed key current found))
              (rw is good) (rw is room))))
