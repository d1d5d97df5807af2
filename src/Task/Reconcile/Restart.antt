-- ===== src/Task/Reconcile/Restart.antt =====
-- A restart leaves no task active, and keeps the invariant of the store.
use study_os_agent_gateway.Common.{
  ◌+◌, String, ◌≡◌, refl, sym, ◌∙◌, inl, inr, true, false, ◌||◌, none, some, List, [], ◌∷◌, ◌++◌,
  arith, if◌then◌else◌, Bool-cases, is_some, string_eq, bool_eq, nat_eq, ◌==◌, option_eq, list_eq,
  snoc-ne-nil, Returns, Returns-eq, ◌>>=◌, Returns-bind, Returns-then, ok, Datetime, Stdlib,
}
use study_os_agent_gateway.Task.Retention.Subset.{IsPart, IsKeyed}
use study_os_agent_gateway.Common.Dict.{Dict}
use study_os_agent_gateway.Task.Store.Operations.{checked-Returns}
use study_os_agent_gateway.Task.Store.Commit.{
  finish-eq-ok, commit-eq-ok, >>>-eq-ok, finish-state, commit-IsConsistent, IsConsistent, >>>-keeps,
}
use study_os_agent_gateway.Task.Store.{commit, Env, Store, timestamp}
use mathlib.Core.Bool.{false≢true}
use text.Mathlib.TextEquality.{eq_iff}
use study_os_agent_gateway.Task.Invariant.{IsSound-set, HasRoom-idle, IsSound}
use study_os_agent_gateway.Task.Failure.{category_eq, retry_mode_eq}
use study_os_agent_gateway.Task.Transition.{claim_interruption}
use study_os_agent_gateway.Task.State.{
  state_eq, delivering, starting, State, running, stopping, recovering, interrupted, is_active,
  completed, delivery_failed,
}
use study_os_agent_gateway.Task.Record.{
  cause_eq, intent_eq, source_kind_eq, InterruptionCause, checked, Task, is_well_formed,
  gateway_restart,
}
use study_os_agent_gateway.Task.Reconcile.{
  plan_startup, reconcile_startup, reconcile_all, commit_changed, task_eqb, reconcile_in,
  offers_delivery_retry, disable_retry, reconcile, interrupt, delivery_retry_disabled, end_delivery,
}
use study_os_agent_gateway.Common.Dict

module _ (lib : Stdlib) where
  -- A record that a restart may leave behind in place of `r`.
  pub record IsSettled (r q : Task) : Type 0 where
    pub same_id : q.task_id ≡ r.task_id
    pub idle : is_active q.state ≡ false
    pub good : is_well_formed lib q ≡ true

  checked-task_id :
      (r q : Task) → q.task_id ≡ r.task_id → Returns (λ p. p.task_id ≡ r.task_id) (checked lib q)
  unfolding checked
  checked-task_id r q own = elim (Bool-cases (is_well_formed lib q)) [
    | inl eq ↦ rw eq own
    | inr ne ↦ rw ne tt
  ]

  settled :
      (r q : Task)
      → q.task_id ≡ r.task_id
      → is_active q.state ≡ false
      → Returns (IsSettled r) (checked lib q)
  unfolding checked
  settled r q own idle = elim (Bool-cases (is_well_formed lib q)) [
    | inl eq ↦ rw eq (record { same_id = own; idle = idle; good = eq })
    | inr ne ↦ rw ne tt
  ]

  claimed-task_id :
      (r : Task) (cause : InterruptionCause)
      → Returns (λ q. q.task_id ≡ r.task_id) (claim_interruption lib r cause)
  unfolding claim_interruption
  claimed-task_id r cause =
      elim (Bool-cases
        ((r.state == delivering) || (r.state == completed) || is_some r.interruption_cause)) [
          | inl eq ↦ rw eq refl
          | inr ne ↦ rw ne (checked-task_id r (record r { interruption_cause = some cause }) refl)
        ]

  interrupt-IsSettled : (r : Task) (now : String) → Returns (IsSettled r) (interrupt lib r now)
  unfolding interrupt is_active
  interrupt-IsSettled r now =
      Returns-bind (λ q. q.task_id ≡ r.task_id) (IsSettled r)
        (claim_interruption lib r gateway_restart) _ (claimed-task_id r gateway_restart)
        (λ claimed _ own.
          settled r (record claimed { state = interrupted; updated_at = now }) own refl)

  end_delivery-IsSettled :
      (r : Task) (now : String) → Returns (IsSettled r) (end_delivery lib r now)
  unfolding end_delivery is_active
  end_delivery-IsSettled r now = elim (Bool-cases (is_some r.result_message_id)) [
    | inl eq ↦
        rw eq
          (settled r (record r { state = completed; updated_at = now; failure = none }) refl refl)
    | inr ne ↦ rw ne (
        Returns-then (IsSettled r) (delivery_retry_disabled r.failure) _ (λ f _.
          settled r (record r { state = delivery_failed; updated_at = now; failure = some f }) refl
            refl))
  ]

  disable_retry-IsSettled :
      (r : Task) (now : String)
      → is_well_formed lib r ≡ true
      → is_active r.state ≡ false
      → Returns (IsSettled r) (disable_retry lib r now)
  unfolding disable_retry
  disable_retry-IsSettled r now good idle = elim (Bool-cases (offers_delivery_retry r.failure)) [
    | inl eq ↦ rw eq (
        Returns-then (IsSettled r) (delivery_retry_disabled r.failure) _
          (λ f _. settled r (record r { updated_at = now; failure = some f }) refl idle))
    | inr ne ↦ rw ne (record { same_id = refl; idle = idle; good = good })
  ]

  -- `_reconcile` ends every activity, whatever the record holds.
  pub reconcile-IsSettled :
      (r : Task) (now : String)
      → is_well_formed lib r ≡ true
      → Returns (IsSettled r) (reconcile lib r now)
  unfolding reconcile is_active
  reconcile-IsSettled r now good = by_state r.state refl
    where
      by_state : (s : State) → r.state ≡ s → Returns (IsSettled r) (reconcile_in lib s r now)
      by_state recovering e = interrupt-IsSettled r now
      by_state starting e = interrupt-IsSettled r now
      by_state running e = interrupt-IsSettled r now
      by_state stopping e = interrupt-IsSettled r now
      by_state delivering e = end_delivery-IsSettled r now
      by_state delivery_failed e = disable_retry-IsSettled r now good (rw e refl)
      by_state s e = record { same_id = refl; idle = rw e refl; good = good }

  -- An active task of `tasks` is still to come in `todo`.
  abbrev IsComing : Dict String Task → Dict String Task → Type 0
  IsComing todo tasks =
      (k : String) (r : Task)
      → Dict.get tasks k ≡ some r
      → is_active r.state ≡ true
      → Dict.get todo k ≡ some r

  abbrev Good : String → Task → Type 0
  Good k r = (r.task_id ≡ k) × (is_well_formed lib r ≡ true)

  abbrev Restarted : Dict String Task → Dict String Task × List Task → Type 0
  Restarted todo acc = IsSound lib acc.0 × IsComing todo acc.0

  task_eqb-state : (r q : Task) → task_eqb r q ≡ true → r.state ≡ q.state
  unfolding task_eqb
  task_eqb-state r q h = ground (arith, state_eq.same_iff r.state q.state)

  skip-IsComing :
      (id : String) (r : Task) (rest tasks : Dict String Task)
      → is_active r.state ≡ false
      → IsComing ((id, r) ∷ rest) tasks
      → IsComing rest tasks
  unfolding Dict.get
  skip-IsComing id r rest tasks idle coming k q h active =
      ground (arith, coming k q h active, eq_iff id k)

  set-IsComing :
      (id : String) (r new : Task) (rest tasks : Dict String Task)
      → is_active new.state ≡ false
      → IsComing ((id, r) ∷ rest) tasks
      → IsComing rest (Dict.set tasks id new)
  unfolding Dict.get
  set-IsComing id r new rest tasks idle coming k q h active =
      elim (Dict.get-set-cases tasks id new k q h) [
        | inl (_, is) ↦ absurd (false≢true (sym idle ∙ rw is at active))
        | inr (ne, old) ↦ ground (arith, coming k q old active, eq_iff id k)
      ]

  step-Restarted :
      (id : String) (r : Task) (rest : Dict String Task) (now : String) (tasks : Dict String Task)
      (changed : List Task)
      → Good id r
      → Restarted ((id, r) ∷ rest) (tasks, changed)
      → (reconciled : Task) → IsSettled r reconciled
      → Returns (Restarted rest) (
          if task_eqb reconciled r
          then ok (tasks, changed)
          else (checked lib (record reconciled { revision = r.revision + 1 }) >>= λ q.
              ok (Dict.set tasks id q, changed ++ q ∷ [])))
  step-Restarted id r rest now tasks changed good before reconciled settled_ =
      elim (Bool-cases (task_eqb reconciled r)) [
        | inl same ↦ rw same (
          before.0,
          skip-IsComing id r rest tasks (rw (← task_eqb-state reconciled r same) settled_.idle)
              before.1,
        )
        | inr ne ↦ rw ne (
            let new : Task = record reconciled { revision = r.revision + 1 } in
            Returns-bind (λ q. (q ≡ new) × (is_well_formed lib new ≡ true)) (Restarted rest)
              (checked lib new) _ (checked-Returns lib new)
              (λ q _ (is, fine). rw is (
                IsSound-set tasks id new lib before.0 (settled_.same_id ∙ good.0) fine
                    (HasRoom-idle tasks id new settled_.idle),
                set-IsComing id r new rest tasks settled_.idle before.1,
              )))
      ]

  reconcile_all-Restarted :
      (todo : Dict String Task) (now : String) (acc : Dict String Task × List Task)
      → Dict.AllEntries Good todo
      → Restarted todo acc
      → Returns (Restarted []) (reconcile_all lib todo now acc)
  unfolding reconcile_all
  reconcile_all-Restarted [] now acc good before = before
  reconcile_all-Restarted ((id, r) ∷ rest) now (tasks, changed) good before =
      Returns-bind (IsSettled r) (Restarted []) (reconcile lib r now) _
        (reconcile-IsSettled r now good.0.1)
        (λ reconciled _ s.
          Returns-bind (Restarted rest) (Restarted [])
            (if task_eqb reconciled r
              then ok (tasks, changed)
              else (checked lib (record reconciled { revision = r.revision + 1 }) >>= λ q.
                  ok (Dict.set tasks id q, changed ++ q ∷ [])))
            _ (step-Restarted id r rest now tasks changed good.0 before reconciled s)
            (λ next _ after. reconcile_all-Restarted rest now next good.1 after))

  -- What `reconcile_startup` is about to store: sound tasks, none of them active.
  pub plan_startup-Restarted :
      (tasks : Dict String Task) (now : Datetime)
      → IsSound lib tasks
      → Returns (Restarted []) (plan_startup lib tasks now)
  unfolding plan_startup
  plan_startup-Restarted tasks now sound =
      Returns-then (Restarted []) (timestamp lib now) _ (λ stamp _.
        reconcile_all-Restarted tasks stamp (tasks, [])
          (Dict.AllEntries-get Good tasks sound.unique
            (λ k r found. (sound.keyed k r found, sound.formed k r found)))
          (sound, λ k r h _. h))

  -- If nothing has changed, what is planned is what was there.
  reconcile_all-unchanged :
      (start todo : Dict String Task) (now : String) (tasks : Dict String Task)
      (changed : List Task)
      → (changed ≡ [] → tasks ≡ start)
      → Returns (λ out. out.1 ≡ [] → out.0 ≡ start) (reconcile_all lib todo now (tasks, changed))
  unfolding reconcile_all
  reconcile_all-unchanged start [] now tasks changed h = h
  reconcile_all-unchanged start ((id, r) ∷ rest) now tasks changed h =
      let P : Dict String Task × List Task → Type 0 = λ out. out.1 ≡ [] → out.0 ≡ start in
      Returns-then P (reconcile lib r now) _ (λ reconciled _.
        elim (Bool-cases (task_eqb reconciled r)) [
          | inl same ↦ rw same (reconcile_all-unchanged start rest now tasks changed h)
          | inr ne ↦ rw ne (
              Returns-bind P P
                (checked lib (record reconciled { revision = r.revision + 1 }) >>= λ q.
                  ok (Dict.set tasks id q, changed ++ q ∷ []))
                _
                (Returns-then P (checked lib (record reconciled { revision = r.revision + 1 })) _
                  (λ q _ none_changed. absurd (snoc-ne-nil changed q none_changed)))
                (λ next _ after. reconcile_all-unchanged start rest now next.0 next.1 after))
        ])

  commit_changed-IsConsistent :
      (env : Env) (tasks : Dict String Task) (changed : List Task) (s : Store)
      → IsConsistent lib s
      → IsSound lib tasks
      → IsConsistent lib (commit_changed lib env tasks changed s).1
  unfolding commit_changed
  commit_changed-IsConsistent env tasks [] s before sound = before
  commit_changed-IsConsistent env tasks (r ∷ rest) s before sound =
      rw (finish-state (r ∷ rest)) (commit-IsConsistent lib env tasks s before sound)

  pub reconcile_startup-IsConsistent :
      (env : Env) (s : Store)
      → IsConsistent lib s
      → IsConsistent lib (reconcile_startup lib env s).1
  unfolding reconcile_startup
  reconcile_startup-IsConsistent env s before =
      >>>-keeps (Restarted []) (IsConsistent lib) (plan_startup lib s.tasks env.clock) _ s
        (plan_startup-Restarted s.tasks env.clock before.sound) before
        (λ (tasks, changed) _ after. commit_changed-IsConsistent env tasks changed s before after.0)

  commit_changed-IsPart :
      (env : Env) (tasks : Dict String Task) (listed : List Task) (s : Store) {changed : List Task}
      → IsKeyed tasks
      → (listed ≡ [] → tasks ≡ s.tasks)
      → (commit_changed lib env tasks listed s).0 ≡ ok changed
      → IsPart (commit_changed lib env tasks listed s).1.tasks tasks
  unfolding commit_changed
  commit_changed-IsPart env tasks [] s keyed same done k r found = rw (same refl) found
  commit_changed-IsPart env tasks (q ∷ rest) s keyed same done k r found =
      let committed = finish-eq-ok (q ∷ rest) (commit lib env tasks s) done in
      let (kept, _, part, after) = commit-eq-ok lib env tasks s keyed committed.0 in
      part.0 k r (rw (finish-state (q ∷ rest) (commit lib env tasks s), after) at found)

  nothing-IsComing :
      (tasks : Dict String Task) (k : String) (r : Task)
      → IsComing [] tasks
      → Dict.get tasks k ≡ some r
      → is_active r.state ≡ false
  nothing-IsComing tasks k r coming found = elim (Bool-cases (is_active r.state)) [
    | inl active ↦ absurd (cc (coming k r found active, Dict.get-empty {V = Task} k))
    | inr idle ↦ idle
  ]

  -- Once a restart's reconciliation has returned, no stored task is active any more.
  pub reconcile_startup-idle :
      (env : Env) (s : Store) {changed : List Task} (k : String) (r : Task)
      → IsConsistent lib s
      → (reconcile_startup lib env s).0 ≡ ok changed
      → Dict.get (reconcile_startup lib env s).1.tasks k ≡ some r
      → is_active r.state ≡ false
  unfolding reconcile_startup plan_startup
  reconcile_startup-idle env s k r before returned found =
      let (plan, planned, done, after) =
        >>>-eq-ok (plan_startup lib s.tasks env.clock) _ s returned in
      let out =
        Returns-eq (Restarted []) (plan_startup lib s.tasks env.clock) plan
          (plan_startup-Restarted s.tasks env.clock before.sound) planned in
      let unchanged =
        Returns-eq (λ (o : Dict String Task × List Task). o.1 ≡ [] → o.0 ≡ s.tasks)
          (plan_startup lib s.tasks env.clock) plan
          (Returns-then (λ (o : Dict String Task × List Task). o.1 ≡ [] → o.0 ≡ s.tasks)
            (timestamp lib env.clock) _
            (λ stamp _. reconcile_all-unchanged s.tasks s.tasks stamp s.tasks [] (λ _. refl)))
          planned in
      nothing-IsComing plan.0 k r out.1 (
        commit_changed-IsPart env plan.0 plan.1 s out.0.keyed unchanged done k r
          (rw after at found))
