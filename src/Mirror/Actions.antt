-- ===== src/Mirror/Actions.antt =====
-- The reservation of a mirror for one task: github_mirror_action_store.py. Between two attempts of
-- a compare-and-set, and inside one, others may write: each attempt has the action of the others.
pub mod Returned
pub mod Granted
pub mod Ended
use study_os_agent_gateway.Common.{
  ℕ, String, Bool, true, false, not, ◌||◌, Option, none, some, List, [], ◌∷◌, ◌++◌, if◌then◌else◌,
  is_some, string_eq, bool_eq, nat_eq, ◌==◌, option_eq, list_eq, take, find, Result, raise_if,
  ◌>>=◌, ◌>>◌, value_error, mirror_revision_conflict, action_unavailable, action_busy, ok, raise,
  Datetime, Stdlib,
}
use study_os_agent_gateway.Mirror.Store.{
  MirrorEnv, MirrorStore, return, mirror_timestamp, get_mirror, StoreAction, ◌>=>◌, ◌>>>◌,
}
use study_os_agent_gateway.Mirror.Record.{
  checked_mirror, PendingAction, item_kind_eq, item_state_eq, MirrorAction, open_item,
  checked_claim, HandledClaim, checked_pending, draft, Mirror,
}
use study_os_agent_gateway.Mirror.Cards.{compare_and_set_mirror}

pub record Reservation : Type 0 where
  pub mirror : Mirror
  pub task_id : String
  pub accepted : Bool
  pub succeeded : Option Bool

-- One attempt: what the outside supplies to the compare-and-set, the clock of the claim, and what
-- others write before the callback runs.
pub record Attempt : Type 0 where
  pub env : MirrorEnv
  pub claim_clock : Datetime
  pub others : MirrorStore → MirrorStore

-- `_CAS_ATTEMPTS`
abbrev pub cas_attempts : ℕ
cas_attempts = 8

-- `_reservation_for`
unfoldable pub reservation_for : Mirror → (interaction_id : ℕ) → Option Reservation
reservation_for r interaction =
    pending_reservation
      (find (λ (c : HandledClaim). c.interaction_id == interaction) r.handled_interaction_claims)
      r.pending_action
  where
    claim_reservation : Option HandledClaim → Option Reservation
    claim_reservation none = none
    claim_reservation (some c) =
        some (record {
          mirror = r;
          task_id = c.task_id;
          accepted = false;
          succeeded = some c.succeeded;
        })

    pending_reservation : Option HandledClaim → Option PendingAction → Option Reservation
    pending_reservation claim none = claim_reservation claim
    pending_reservation claim (some p) =
        if p.interaction_id == interaction
        then some (record { mirror = r; task_id = p.task_id; accepted = false; succeeded = none })
        else claim_reservation claim

-- `_matching_pending`
unfoldable pub matching_pending : Mirror → String → Result PendingAction
matching_pending r task = pending_of r.pending_action
  where
    pending_of : Option PendingAction → Result PendingAction
    pending_of none = raise action_unavailable
    pending_of (some p) = if p.task_id == task then ok p else raise action_unavailable

-- The callback of one attempt: others have written, and `update` makes the candidate.
abbrev pub callback : Attempt → (Mirror → Result Mirror) → Mirror → StoreAction Mirror
callback a update current s = (update current, a.others s)

-- `except GitHubMirrorRevisionConflict: continue`
abbrev pub on_conflict :
    {A : Type 0}
    → (Mirror → A)
    → StoreAction A
    → Result Mirror × MirrorStore
    → Result A × MirrorStore
on_conflict result again (ok r, s) = (ok (result r), s)
on_conflict result again (raise mirror_revision_conflict, s) = again s
on_conflict result again (raise e, s) = (raise e, s)

-- The guards of `reserve` on a record without a prior reservation.
unfoldable pub can_reserve : Mirror → Result (Unit {0})
can_reserve r = do
  raise_if (is_some r.pending_action) action_busy
  raise_if (is_some r.active_task_id) action_busy
  raise_if (not ((r.state == open_item) || (r.state == draft))) action_unavailable

-- The guard of `_update_pending` on the thread.
abbrev pub is_other_thread : Option ℕ → Option ℕ → Bool
is_other_thread (some allowed) (some thread) = not (thread == allowed)
is_other_thread _ _ = false

module _ (lib : Stdlib) where
  -- `_canonical_uuid`
  unfoldable pub canonical_uuid : String → Result (Unit {0})
  canonical_uuid value = raise_if (not (lib.uuid_str value == some value)) value_error

  unfoldable pub pending_claim :
      Attempt → (interaction_id : ℕ) → MirrorAction → (task : String) → Result PendingAction
  unfolding checked_pending
  pending_claim a interaction action task = do
    stamp ← mirror_timestamp lib a.claim_clock
    checked_pending lib (record {
      interaction_id = interaction;
      action = action;
      task_id = task;
      claimed_at = stamp;
    })

  -- One round of the loop of `reserve`; `again` is the rest of the loop.
  abbrev reserve_prior :
      Attempt
      → (id : String) → (interaction : ℕ) → MirrorAction
      → (task : String) → Mirror
      → StoreAction Reservation
      → Option Reservation
      → StoreAction Reservation
  reserve_prior a id interaction action task current again (some prior) = return prior
  reserve_prior a id interaction action task current again none =
      (do can_reserve current; pending_claim a interaction action task) >>> λ p s.
      on_conflict (λ r. record { mirror = r; task_id = task; accepted = true; succeeded = none })
        again
        (compare_and_set_mirror lib a.env id current.revision
          (callback a (λ r. checked_mirror lib (record r { pending_action = some p }))) s)

  unfoldable pub reserve_loop :
      List Attempt
      → (id : String) → (interaction : ℕ) → MirrorAction
      → (task : String) → StoreAction Reservation
  unfolding get_mirror reservation_for can_reserve pending_claim compare_and_set_mirror
  reserve_loop [] id interaction action task = raise action_unavailable >>> return
  reserve_loop (a ∷ attempts) id interaction action task =
      let again = reserve_loop attempts id interaction action task in
      get_mirror lib id >=> λ current.
      reserve_prior a id interaction action task current again (reservation_for current interaction)

  -- `reserve`, with what happens around each of its attempts.
  unfoldable pub reserve :
      List Attempt
      → (id : String) → (interaction : ℕ) → MirrorAction
      → (task : String) → StoreAction Reservation
  unfolding canonical_uuid reserve_loop
  reserve attempts id interaction action task = canonical_uuid task >>> λ _.
      reserve_loop (take cas_attempts attempts) id interaction action task

  -- `_update_pending`
  unfoldable pub update_pending :
      List Attempt
      → (id task : String) → (Mirror → Result Mirror)
      → (allowed : Option ℕ) → StoreAction Mirror
  unfolding get_mirror matching_pending compare_and_set_mirror
  update_pending [] id task update allowed = raise action_unavailable >>> return
  update_pending (a ∷ attempts) id task update allowed =
      let again = update_pending attempts id task update allowed in
      get_mirror lib id >=> λ current.
      (do
        _ ← matching_pending current task
        raise_if (is_other_thread allowed current.thread_id) action_unavailable)
      >>> λ _ s.
          on_conflict (λ r. r) again
            (compare_and_set_mirror lib a.env id current.revision (callback a update) s)

  unfoldable pub attach_thread :
      List Attempt → (id task : String) → (thread : ℕ) → StoreAction Mirror
  unfolding update_pending
  attach_thread attempts id task thread = raise_if (thread == 0) value_error >>> λ _.
      update_pending (take cas_attempts attempts) id task
        (λ r. checked_mirror lib (record r { thread_id = some thread })) (some thread)

  -- `complete`, the callback of `finish`.
  unfoldable pub complete : String → Bool → Mirror → Result Mirror
  unfolding matching_pending checked_claim checked_mirror
  complete task succeeded r = do
    p ← matching_pending r task
    claim ← checked_claim lib (record {
      interaction_id = p.interaction_id;
      action = p.action;
      task_id = task;
      succeeded = succeeded;
    })
    checked_mirror lib (record r {
      pending_action = none;
      active_task_id = if succeeded then some task else none;
      handled_interaction_claims = r.handled_interaction_claims ++ claim ∷ [];
    })

  unfoldable pub finish_action : List Attempt → (id task : String) → Bool → StoreAction Mirror
  unfolding update_pending complete
  finish_action attempts id task succeeded =
      update_pending (take cas_attempts attempts) id task (complete task succeeded) none

  unfoldable pub clear_active_loop : List Attempt → (id task : String) → StoreAction Mirror
  unfolding get_mirror compare_and_set_mirror
  clear_active_loop [] id task = raise action_unavailable >>> return
  clear_active_loop (a ∷ attempts) id task =
      let again = clear_active_loop attempts id task in
      get_mirror lib id >=> λ current s.
      if not (current.active_task_id == some task)
      then (ok current, s)
      else on_conflict (λ r. r) again
          (compare_and_set_mirror lib a.env id current.revision
            (callback a (λ r. checked_mirror lib (record r { active_task_id = none }))) s)

  unfoldable pub clear_active : List Attempt → (id task : String) → StoreAction Mirror
  unfolding clear_active_loop
  clear_active attempts id task = clear_active_loop (take cas_attempts attempts) id task
