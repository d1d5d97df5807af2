-- ===== src/Task/RuntimeFailures/Recorded.antt =====
-- The end of a run or of a delivery can be recorded: no transition and no constructor that it goes through refuses
-- the record of a task that the run may hold.
use study_os_agent_gateway.Common.{
  ℕ, ◌≡◌, refl, sym, ◌∙◌, inl, inr, Bool, true, false, not, ◌&&◌, ◌||◌, Option, none, some, arith,
  if◌then◌else◌, Bool-cases, and_split, string_eq, bool_eq, nat_eq, ◌==◌, option_eq, list_eq, ok,
  Stdlib, Lawful, aware,
}
use study_os_agent_gateway.Task.Runtime.{failure_target}
use study_os_agent_gateway.Task.Store.{timestamp}
use study_os_agent_gateway.Task.Failure.{
  AgentError, turn_timed_out, classify_agent_failure, category_eq, retry_mode_eq, Failure,
}
use study_os_agent_gateway.Task.Transition.{
  is_retrying_delivery, is_retrying_agent, attempt_after_transition, transition, next_failure,
}
use study_os_agent_gateway.Task.State.{
  failed, interrupted, stopped, running, recovering, delivering, starting, timed_out, completed,
  state_eq, can_transition, State,
}
use study_os_agent_gateway.Task.Record.{
  runtime_exit, InterruptionCause, cause_eq, intent_eq, source_kind_eq, has_valid_ids,
  state_fits_failure, is_aware_timestamp, Task, has_valid_fields, checked, is_well_formed,
}
use study_os_agent_gateway.Task.Service.{move_to}

not-true : (b : Bool) → not b ≡ true → b ≡ false
not-true false h = refl
not-true true h = absurd (cc h)

module _ (lib : Stdlib) (law : Lawful lib) (r : Task) (good : is_well_formed lib r ≡ true)
    (t : ℕ) where
  -- The record after a transition to `target`.
  abbrev pub moved : State → Option Failure → Task
  moved target failure = record r {
    state = target;
    updated_at = lib.isoformat t;
    failure = next_failure r target failure;
    attempt = attempt_after_transition r target;
  }

  stamp_aware : is_aware_timestamp lib (lib.isoformat t) ≡ true
  unfolding is_aware_timestamp
  stamp_aware = rw (law.fromisoformat-isoformat t, is_aware_timestamp) refl

  attempt_positive : has_valid_fields lib r ≡ true → (r.attempt == 0) ≡ false
  unfolding has_valid_fields
  attempt_positive fields =
      let (rest, h) = and_split _ _ fields in
      let (rest, h) = and_split _ _ rest in
      let (rest, h) = and_split _ _ rest in
      let (rest, h) = and_split _ _ rest in
      let (rest, h) = and_split _ _ rest in
      let (rest, h) = and_split _ _ rest in
      let (rest, h) = and_split _ _ rest in
      let (rest, h) = and_split _ _ rest in
      let (rest, h) = and_split _ _ rest in
      let (rest, h) = and_split _ _ rest in
      let (rest, h) = and_split _ _ rest in
      let (rest, h) = and_split _ _ rest in not-true (r.attempt == 0) h

  -- Both values of a counter that may have been raised are positive.
  attempt_still_positive :
      (target : State) → (r.attempt == 0) ≡ false → (attempt_after_transition r target == 0) ≡ false
  unfolding attempt_after_transition
  attempt_still_positive target h =
      elim (Bool-cases (is_retrying_agent r.state target || is_retrying_delivery r.state target)) [
        | inl again ↦ rw again (ground arith)
        | inr first ↦ rw first h
      ]

  updated_aware : has_valid_fields lib r ≡ true → is_aware_timestamp lib r.updated_at ≡ true
  unfolding has_valid_fields
  updated_aware fields = (and_split _ _ fields).1

  moved_fields :
      (target : State) (failure : Option Failure)
      → has_valid_fields lib r ≡ true
      → has_valid_fields lib (moved target failure) ≡ true
  unfolding has_valid_fields
  moved_fields target failure fields =
      let before = attempt_positive fields in
      let same_attempt : (attempt_after_transition r target == 0) ≡ (r.attempt == 0) =
        attempt_still_positive target before ∙ sym before in
      let same_stamp : is_aware_timestamp lib (lib.isoformat t)
          ≡ is_aware_timestamp lib r.updated_at =
        stamp_aware ∙ sym (updated_aware fields) in
      rw (same_attempt, same_stamp) fields

  moved_formed :
      (target : State) (failure : Option Failure)
      → state_fits_failure target (next_failure r target failure) ≡ true
      → is_well_formed lib (moved target failure) ≡ true
  unfolding is_well_formed has_valid_ids
  moved_formed target failure fits =
      let (rest, fitted) =
        and_split (has_valid_ids lib r && has_valid_fields lib r)
          (state_fits_failure r.state r.failure) good in
      let (ids, fields) = and_split (has_valid_ids lib r) (has_valid_fields lib r) rest in
      let same_ids : has_valid_ids lib (moved target failure) ≡ true = ids in
      rw (same_ids, moved_fields target failure fields, fits) refl

  pub move_to-moved :
      (target : State) (failure : Option Failure)
      → can_transition r.state target ≡ true
      → state_fits_failure target (next_failure r target failure) ≡ true
      → move_to lib (aware t) target failure r ≡ ok (moved target failure)
  unfolding move_to timestamp transition checked
  move_to-moved target failure may fits = rw (may, moved_formed target failure fits) refl

-- The states of a run before its delivery.
abbrev pub is_in_progress : State → Bool
is_in_progress state = (state == recovering) || (state == starting) || (state == running)

abbrev pub is_timeout : AgentError → Bool
is_timeout turn_timed_out = true
is_timeout x = false

abbrev pub is_disconnection : AgentError → Bool
is_disconnection AgentError.runtime_disconnected = true
is_disconnection x = false

-- What the end of a failed run says: a timeout or a lost runtime interrupts a turn, and only of a task that runs.
abbrev pub cause_of : State → AgentError → Option InterruptionCause
cause_of state x =
    if (state == running) && is_timeout x
    then some InterruptionCause.timeout
    else if (state == running) && is_disconnection x
    then some runtime_exit
    else none

abbrev pub IsEnd : State → AgentError → State → Type 0
IsEnd state x target =
    ((target == timed_out) ≡ ((state == running) && is_timeout x))
    × ((target == interrupted) ≡ ((state == running) && is_disconnection x))
    × ((target == failed) ≡ not ((state == running) && (is_timeout x || is_disconnection x)))

-- The way on from a state in progress.
record Way (state : State) (x : AgentError) : Type 0 where
  target : State
  chosen : failure_target state x ≡ some (target, cause_of state x)
  allowed : can_transition state target ≡ true
  kept : ((target == completed) || (target == stopped) || (target == delivering)) ≡ false
  fits : state_fits_failure target (some (classify_agent_failure x false false)) ≡ true
  end : IsEnd state x target

-- `claim_interruption` keeps the cause that is there.
abbrev pub first_cause :
    Option InterruptionCause → Option InterruptionCause → Option InterruptionCause
first_cause none new = new
first_cause (some old) new = some old

pub next_failure-given :
    (r : Task) (target : State) (f : Failure)
    → ((target == completed) || (target == stopped) || (target == delivering)) ≡ false
    → next_failure r target (some f) ≡ some f
unfolding next_failure is_retrying_delivery
next_failure-given r target f h = ground arith

module _ (lib : Stdlib) (r : Task) (good : is_well_formed lib r ≡ true) where
  abbrev caused : Option InterruptionCause → Task
  caused cause = record r { interruption_cause = cause }
