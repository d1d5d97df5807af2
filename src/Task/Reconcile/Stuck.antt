-- ===== src/Task/Reconcile/Stuck.antt =====
-- A task that was retried keeps the failure of its earlier attempt while it delivers. A restart at
-- that moment cannot turn it into a failed delivery: `_reconcile` builds a record that the
-- constructor of `DiscordTaskRecord` refuses.
use study_os_agent_gateway.Common.{
  ◌+◌, String, ◌≡◌, refl, ap, ◌∙◌, inl, inr, true, false, none, some, List, [], ◌∷◌, ◌++◌, arith,
  if◌then◌else◌, Bool-cases, and_split, string_eq, bool_eq, nat_eq, ◌==◌, option_eq, list_eq,
  is_bounded, Error, Returns, Returns-eq, ◌>>=◌, Result-cases, Raises, Raises-eq, Raises-first,
  Raises-rest, value_error, ok, raise, Stdlib,
}
use study_os_agent_gateway.Mirror.Record.{item_state_eq, item_kind_eq}
use study_os_agent_gateway.Task.Store.{Env, timestamp, Store}
use study_os_agent_gateway.Task.Invariant.{IsSound}
use study_os_agent_gateway.Common.Dict.{Dict}
use study_os_agent_gateway.Common.Dict
use study_os_agent_gateway.Task.Failure.{
  no_retry, retry_mode_eq, Failure, discord_delivery, RetryMode, checked_failure, category_eq,
}
use study_os_agent_gateway.Task.State.{delivery_failed, delivering, state_eq}
use study_os_agent_gateway.Task.Record.{
  state_fits_failure, checked, source_kind_eq, intent_eq, cause_eq, Task, is_well_formed,
}
use study_os_agent_gateway.Task.Reconcile.{
  task_eqb, reconcile_startup, plan_startup, reconcile_all, reconcile_in, reconcile, end_delivery,
  delivery_retry_disabled,
}

module _ (lib : Stdlib) where
  carried-category :
      (f : Failure)
      → state_fits_failure delivering (some f) ≡ true
      → (f.category == discord_delivery) ≡ false
  unfolding state_fits_failure
  carried-category f h = ground arith

  refused :
      (f : Failure) (m : RetryMode)
      → (f.category == discord_delivery) ≡ false
      → state_fits_failure delivery_failed (some (record f { retry_mode = m })) ≡ false
  unfolding state_fits_failure
  refused f m h = ground arith

  well_formed-fits :
      (r : Task) → is_well_formed lib r ≡ true → state_fits_failure r.state r.failure ≡ true
  unfolding is_well_formed
  well_formed-fits r h = (and_split _ _ h).1

  not_fitting :
      (r : Task) → state_fits_failure r.state r.failure ≡ false → checked lib r ≡ raise value_error
  unfolding checked is_well_formed
  not_fitting r h = ground arith

  disabled-carried :
      (f : Failure)
      → Returns (λ g. g ≡ record f { retry_mode = no_retry }) (delivery_retry_disabled (some f))
  unfolding delivery_retry_disabled checked_failure
  disabled-carried f = elim (Bool-cases (is_bounded f.summary 500)) [
    | inl eq ↦ rw eq refl
    | inr ne ↦ rw ne tt
  ]

  disabled-raise :
      (f : Failure) {e : Error} → delivery_retry_disabled (some f) ≡ raise e → e ≡ value_error
  unfolding delivery_retry_disabled checked_failure
  disabled-raise f h = elim (Bool-cases (is_bounded f.summary 500)) [
    | inl eq ↦ cc (rw eq at h)
    | inr ne ↦ cc (rw ne at h)
  ]

  end_delivery-carried :
      (r : Task) (f : Failure) (now : String)
      → (f.category == discord_delivery) ≡ false
      → r.result_message_id ≡ none
      → r.failure ≡ some f
      → end_delivery lib r now ≡ raise value_error
  unfolding end_delivery
  end_delivery-carried r f now cause result failure =
      rw (result, failure)
        (elim (Result-cases (delivery_retry_disabled (some f))) [
          | inr (e, bad) ↦ rw bad (ap raise (disabled-raise f bad))
          | inl (g, eq) ↦
              let is =
                Returns-eq (λ (h : Failure). h ≡ record f { retry_mode = no_retry })
                  (delivery_retry_disabled (some f)) g (disabled-carried f) eq in
              rw (eq, is)
                (not_fitting
                  (record r {
                    result_message_id = none;
                    state = delivery_failed;
                    updated_at = now;
                    failure = some (record f { retry_mode = no_retry });
                  })
                  (refused f no_retry cause))
        ])

  -- The record of a delivery that carries an earlier failure cannot be reconciled.
  pub reconcile-carried_failure :
      (r : Task) (f : Failure) (now : String)
      → is_well_formed lib r ≡ true
      → r.state ≡ delivering
      → r.result_message_id ≡ none
      → r.failure ≡ some f
      → reconcile lib r now ≡ raise value_error
  unfolding reconcile
  reconcile-carried_failure r f now good state result failure =
      let fits = rw (state, failure) at (well_formed-fits r good) in
      ap (λ s. reconcile_in lib s r now) state
      ∙ end_delivery-carried r f now (carried-category f fits) result failure

  -- One such task in the store, and the loop over the tasks raises.
  reconcile_all-Raises :
      (todo : Dict String Task) (now : String) (acc : Dict String Task × List Task) (k : String)
      (r : Task)
      → Dict.get todo k ≡ some r
      → reconcile lib r now ≡ raise value_error
      → Raises (reconcile_all lib todo now acc)
  unfolding reconcile_all Dict.get
  reconcile_all-Raises [] now acc k r found stuck = absurd (cc found)
  reconcile_all-Raises ((j, q) ∷ rest) now acc k r found stuck = elim (Bool-cases (j == k)) [
    | inl eq ↦
        Raises-first (reconcile lib q now) _
          (let same : q ≡ r = ground arith in rw (same, stuck) tt)
    | inr ne ↦ Raises-rest (reconcile lib q now) _ (λ reconciled _.
        Raises-rest
          (if task_eqb reconciled q
            then ok acc
            else (checked lib (record reconciled { revision = q.revision + 1 }) >>= λ p.
                ok (Dict.set acc.0 j p, acc.1 ++ p ∷ [])))
          _ (λ next _. reconcile_all-Raises rest now next k r (rw ne at found) stuck))
  ]

  -- While a task is delivering its result with the failure of an earlier attempt, a restart of the
  -- gateway cannot reconcile its store: the startup raises and changes nothing.
  pub reconcile_startup-stuck :
      (env : Env) (s : Store) (k : String) (r : Task) (f : Failure)
      → IsSound lib s.tasks
      → Dict.get s.tasks k ≡ some r
      → r.state ≡ delivering
      → r.result_message_id ≡ none
      → r.failure ≡ some f
      → (e : Error) × (reconcile_startup lib env s ≡ (raise e, s))
  unfolding reconcile_startup plan_startup
  reconcile_startup-stuck env s k r f sound found state result failure =
      let (e, bad) = Raises-eq (plan_startup lib s.tasks env.clock) (
        Raises-rest (timestamp lib env.clock) _ (λ now _.
          reconcile_all-Raises s.tasks now (s.tasks, []) k r found
            (reconcile-carried_failure r f now (sound.formed k r found) state result failure))) in
      (e, rw bad)
