-- ===== src/Task/Store/Revision.antt =====
-- What a successful compare-and-set did: optimistic concurrency on the revision of a task.
use study_os_agent_gateway.Common.{
  ℕ, ◌+◌, String, ◌≡◌, sym, ap, true, false, not, ◌||◌, some, arith, not-false, string_eq, bool_eq,
  nat_eq, ◌==◌, option_eq, list_eq, Result, raise_if, Returns, Returns-eq, Returns-raise_if,
  Returns-bind, Returns-then, value_error, ok, raise, Stdlib,
}
use study_os_agent_gateway.Common.Dict.{Dict}
use study_os_agent_gateway.Common.Dict
use study_os_agent_gateway.Task.Store.Operations.{
  checked-Returns, same_identity-task_id, find_at_revision-Returns, is_valid_update-same_identity,
}
use study_os_agent_gateway.Task.Store.{
  is_valid_update, find_at_revision, commit, same_identity, Store, check_update, ◌>>>◌, Action,
  finish, Env, ensure_execution_available, compare_and_set,
}
use study_os_agent_gateway.Task.Failure.{retry_mode_eq, category_eq}
use study_os_agent_gateway.Task.State.{can_transition, state_eq}
use study_os_agent_gateway.Task.Record.{
  is_well_formed, cause_eq, intent_eq, source_kind_eq, checked, Task,
}

-- The new record against the stored one that it replaces.
pub record IsNext (n : ℕ) (current q : Task) : Type 0 where
  pub at_revision : current.revision ≡ n
  pub next_revision : q.revision ≡ n + 1
  pub same_id : current.task_id ≡ q.task_id
  pub same_owner : current.owner_id ≡ q.owner_id
  pub allowed : (q.state == current.state || can_transition current.state q.state) ≡ true

abbrev pub Replaces : Dict String Task → ℕ → Task → Type 0
Replaces tasks n q =
    (key : String) × (current : Task) × (Dict.get tasks key ≡ some current) × IsNext n current q

same_identity-owner : (r q : Task) → same_identity r q ≡ true → r.owner_id ≡ q.owner_id
unfolding same_identity
same_identity-owner r q h = ground (arith, nat_eq.same_iff r.owner_id q.owner_id)

is_valid_update-allowed :
    (r q : Task)
    → is_valid_update r q ≡ true
    → (q.state == r.state || can_transition r.state q.state) ≡ true
unfolding is_valid_update
is_valid_update-allowed r q h = ground arith

module _ (lib : Stdlib) where
  check_update-Replaces :
      (tasks : Dict String Task) (id : String) (n : ℕ) (update : Task → Result Task)
      → Returns (λ found. Replaces tasks n found.1) (check_update lib tasks id n update)
  unfolding check_update
  check_update-Replaces tasks id n update =
      let P : String × Task → Type 0 = λ found. Replaces tasks n found.1 in
      Returns-bind (λ found. (Dict.get tasks found.0 ≡ some found.1) × (found.1.revision ≡ n)) P
        (find_at_revision lib tasks id n) _ (find_at_revision-Returns lib tasks id n)
        (λ found _ at. Returns-then P (update found.1) _ (λ candidate _.
          Returns-bind (λ _. not (is_valid_update found.1 candidate) ≡ false) P
            (raise_if (not (is_valid_update found.1 candidate)) value_error) _
            (Returns-raise_if (not (is_valid_update found.1 candidate)) value_error)
            (λ _ _ valid.
              Returns-then P (ensure_execution_available candidate tasks (some found.0)) _ (λ _ _.
                let next = record candidate { revision = found.1.revision + 1 } in
                let good = not-false _ valid in
                let same = is_valid_update-same_identity lib found.1 candidate good in
                Returns-bind (λ q. (q ≡ next) × (is_well_formed lib next ≡ true)) P
                  (checked lib next) _ (checked-Returns lib next)
                  (λ q _ (is, _). (
                    found.0,
                    found.1,
                    at.0,
                    rw is (record {
                      at_revision = at.1;
                      next_revision = ap (λ m. m + 1) at.1;
                      same_id = sym (same_identity-task_id lib found.1 candidate same);
                      same_owner = same_identity-owner found.1 candidate same;
                      allowed = is_valid_update-allowed found.1 candidate good;
                    }),
                  ))))))

  finish-Returns :
      {A : Type 0} (P : A → Type 0) (a : A) (left : Result (Unit {0}) × Store)
      → P a
      → Returns P (finish a left).0
  finish-Returns P a (ok tt, s) p = p
  finish-Returns P a (raise e, s) p = tt

  >>>-Returns :
      {A B : Type 0} (Q : A → Type 0) (P : B → Type 0) (m : Result A) (f : A → Action B) (s : Store)
      → Returns Q m
      → ((a : A) → Q a → Returns P (f a s).0)
      → Returns P ((m >>> f) s).0
  >>>-Returns Q P (ok a) f s q rest = rest a q
  >>>-Returns Q P (raise e) f s q rest = tt

  -- When `compare_and_set` returns a record, a stored one stood at the expected revision; the new one
  -- is at the next, has the same identifier and owner, and its state is the old one or one
  -- that the old one may move to.
  pub compare_and_set-Replaces :
      (env : Env) (id : String) (n : ℕ) (update : Task → Result Task) (s : Store) (q : Task)
      → (compare_and_set lib env id n update s).0 ≡ ok q
      → Replaces s.tasks n q
  unfolding compare_and_set
  compare_and_set-Replaces env id n update s q done =
      Returns-eq (Replaces s.tasks n) (compare_and_set lib env id n update s).0 q
        (>>>-Returns (λ found. Replaces s.tasks n found.1) (Replaces s.tasks n)
          (check_update lib s.tasks id n update) _ s (check_update-Replaces s.tasks id n update)
          (λ (key, p) is.
            finish-Returns (Replaces s.tasks n) p (commit lib env (Dict.set s.tasks key p) s) is))
        done
