-- ===== src/Mirror/Actions/Ended.antt =====
-- What `attach_thread` and `finish` make of the reservation on disk, in an attempt without a conflict.
use study_os_agent_gateway.Common.{
  ℕ, String, ◌≡◌, refl, sym, ap, subst, ◌⊎◌, inl, inr, Bool, false, Option, none, some, [], ◌∷◌,
  ◌++◌, arith, if◌then◌else◌, Bool-cases, not-false, string_eq, bool_eq, nat_eq, ◌==◌, option_eq,
  beq-eq, list_eq, last_n, Result, raise_if, Returns, Returns-eq, Returns-intro, Returns-raise_if,
  ◌>>=◌, Returns-bind, Returns-map, value_error, action_unavailable, ok, Stdlib,
}
use study_os_agent_gateway.Mirror.Actions.Granted.{same_checked, reading-Returns}
use study_os_agent_gateway.Mirror.Actions.Returned.{
  on_conflict-Returns, cas-Returns, successor, get_mirror-then,
}
use study_os_agent_gateway.Mirror.Store.{read_document, MirrorStore}
use study_os_agent_gateway.Mirror.Record.{
  is_well_formed_claim, checked_claim, checked_mirror, item_state_eq, item_kind_eq,
  max_handled_claims, Mirror, HandledClaim, PendingAction,
}
use study_os_agent_gateway.Mirror.Actions.{
  finish_action, complete, attach_thread, matching_pending, is_other_thread, Attempt,
  update_pending,
}
use study_os_agent_gateway.Common.Dict.{Dict}
use study_os_agent_gateway.Common.Dict

-- The task has the reservation of the mirror.
abbrev pub IsReservedFor : String → Mirror → PendingAction → Type 0
IsReservedFor task current p = (current.pending_action ≡ some p) × (p.task_id ≡ task)

-- The claim that `finish` leaves of a reservation.
abbrev pub claim_of : PendingAction → Bool → HandledClaim
claim_of p succeeded = record {
  interaction_id = p.interaction_id;
  action = p.action;
  task_id = p.task_id;
  succeeded = succeeded;
}

abbrev pub IsFinished : String → Bool → Mirror → Mirror → Type 0
IsFinished task succeeded current r =
    (p : PendingAction) × IsReservedFor task current p
    × (r.pending_action ≡ none)
    × (r.active_task_id ≡ (if succeeded then some task else none))
    × (r.handled_interaction_claims
        ≡ last_n max_handled_claims
            (current.handled_interaction_claims ++ claim_of p succeeded ∷ []))

abbrev pub IsAttached : String → ℕ → Mirror → Mirror → Type 0
IsAttached task thread current r =
    (p : PendingAction) × IsReservedFor task current p
    × (r.pending_action ≡ some p)
    × (r.thread_id ≡ some thread)
    × ((current.thread_id ≡ none) ⊎ (current.thread_id ≡ some thread))

matching_pending-Returns :
    (current : Mirror) (task : String)
    → Returns (IsReservedFor task current) (matching_pending current task)
unfolding matching_pending
matching_pending-Returns current task =
    Returns-intro (IsReservedFor task current) (matching_pending current task)
      (λ p h. (ground arith, ground (arith, string_eq.same_iff p.task_id task)))

not_other_thread :
    (before : Option ℕ) (thread : ℕ)
    → is_other_thread (some thread) before ≡ false
    → (before ≡ none) ⊎ (before ≡ some thread)
not_other_thread none thread h = inl refl
not_other_thread (some old) thread h =
    inr (ap some (beq-eq old thread (not-false (old == thread) h)))

module _ (lib : Stdlib) (id task : String) (current : Mirror) (d : Dict String Mirror) where
  update_pending-Returns :
      (a : Attempt) (update : Mirror → Result Mirror) (allowed : Option ℕ) (P : Mirror → Type 0)
      (s : MirrorStore)
      → read_document lib s.document ≡ ok d
      → Dict.get d id ≡ some current
      → ((p : PendingAction)
          → IsReservedFor task current p
          → is_other_thread allowed current.thread_id ≡ false
          → (c : Mirror) → update current ≡ ok c
          → (m : ℕ) (stamp : String) → P (successor c m stamp))
      → Returns P (update_pending lib (a ∷ []) id task update allowed s).0
  unfolding update_pending
  update_pending-Returns a update allowed P s h found made =
      get_mirror-then lib P id _ s.records s.document s.callback_active (λ now e g here.
        let same_d : d ≡ e = cc (h, g) in
        let same : current ≡ now = cc (found, here, same_d) in
        reading-Returns P
          (matching_pending now task >>= λ _.
            raise_if (is_other_thread allowed now.thread_id) action_unavailable)
          _ _
          (Returns-bind (IsReservedFor task now)
            (λ _.
              (p : PendingAction) × IsReservedFor task now p
              × (is_other_thread allowed now.thread_id ≡ false))
            (matching_pending now task) _ (matching_pending-Returns now task)
            (λ p _ reserved.
              Returns-map _ _ (raise_if (is_other_thread allowed now.thread_id) action_unavailable)
                (λ _ own. (p, reserved, own)) (Returns-raise_if _ action_unavailable)))
          (λ _ (p, reserved, own).
            on_conflict-Returns lib P (λ r. r) _ _
              (cas-Returns lib a id now update P e e s.document s.callback_active g here
                (λ c written m stamp.
                  made p (subst (λ q. IsReservedFor task q p) (sym same) reserved)
                    (subst (λ q. is_other_thread allowed q.thread_id ≡ false) (sym same) own) c
                    (subst (λ q. update q ≡ ok c) (sym same) written) m stamp))
              (λ t. tt)))

  completed-Returns :
      (p : PendingAction)
      → IsReservedFor task current p
      → (succeeded : Bool) (m : ℕ) (stamp : String)
      → Returns
          (λ c. IsFinished task succeeded current (successor c m stamp))
          (complete lib task succeeded current)
  unfolding complete checked_claim
  completed-Returns p reserved succeeded m stamp =
      let Q : Mirror → Type 0 = λ c. IsFinished task succeeded current (successor c m stamp) in
      Returns-bind (IsReservedFor task current) Q (matching_pending current task) _
        (matching_pending-Returns current task)
        (λ q _ mine.
          let claim : HandledClaim = record {
            interaction_id = q.interaction_id;
            action = q.action;
            task_id = task;
            succeeded = succeeded;
          } in
          let next : Mirror = record current {
            pending_action = none;
            active_task_id = if succeeded then some task else none;
            handled_interaction_claims = current.handled_interaction_claims ++ claim ∷ [];
          } in
          elim (Bool-cases (is_well_formed_claim lib claim)) [
            | inr bad ↦ rw bad tt
            | inl good ↦ rw good (
                Returns-intro Q (checked_mirror lib next) (λ c made.
                  subst Q (same_checked lib next c made) (
                    q,
                    mine,
                    refl,
                    refl,
                    ap
                        (λ t.
                          last_n max_handled_claims (
                            current.handled_interaction_claims
                            ++ record claim { task_id = t } ∷ []))
                        (sym mine.1),
                  )))
          ])

  -- Where `finish` returns from an attempt, the mirror on disk was reserved for the task, and the new record has no
  -- reservation, has the task at work if it succeeded, and remembers the interaction, its action, the task and
  -- whether it succeeded, among the latest 64.
  pub finish_action-Finished :
      (a : Attempt) (succeeded : Bool) (s : MirrorStore) (r : Mirror)
      → read_document lib s.document ≡ ok d
      → Dict.get d id ≡ some current
      → (finish_action lib (a ∷ []) id task succeeded s).0 ≡ ok r
      → IsFinished task succeeded current r
  unfolding finish_action complete checked_claim
  finish_action-Finished a succeeded s r h found done =
      let P = IsFinished task succeeded current in
      Returns-eq P (finish_action lib (a ∷ []) id task succeeded s).0 r
        (update_pending-Returns a (complete lib task succeeded) none P s h found
          (λ p reserved _ c made m stamp.
            Returns-eq (λ q. P (successor q m stamp)) (complete lib task succeeded current) c
              (completed-Returns p reserved succeeded m stamp) made))
        done

  -- Where `attach_thread` returns from an attempt, the mirror on disk was reserved for the task and had no thread or
  -- this one, and the new record has the thread and the same reservation.
  pub attach_thread-Attached :
      (a : Attempt) (thread : ℕ) (s : MirrorStore) (r : Mirror)
      → read_document lib s.document ≡ ok d
      → Dict.get d id ≡ some current
      → (attach_thread lib (a ∷ []) id task thread s).0 ≡ ok r
      → IsAttached task thread current r
  unfolding attach_thread
  attach_thread-Attached a thread s r h found done =
      let P = IsAttached task thread current in
      let update : Mirror → Result Mirror =
        λ q. checked_mirror lib (record q { thread_id = some thread }) in
      Returns-eq P (attach_thread lib (a ∷ []) id task thread s).0 r
        (reading-Returns P (raise_if (thread == 0) value_error) _ s
          (Returns-intro (λ _. Unit {0}) (raise_if (thread == 0) value_error) (λ _ _. tt))
          (λ _ _.
            update_pending-Returns a update (some thread) P s h found
              (λ p reserved own c made m stamp.
                subst (λ q. P (successor q m stamp))
                  (same_checked lib (record current { thread_id = some thread }) c made)
                  (p, reserved, reserved.0, refl, not_other_thread current.thread_id thread own))))
        done
