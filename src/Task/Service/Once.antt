-- ===== src/Task/Service/Once.antt =====
-- One event starts one task: a request whose event is known changes nothing but its own attachments.
use study_os_agent_gateway.Common.{
  ℕ, ◌≤◌, String, ◌≡◌, refl, sym, ap, subst, ◌∙◌, ◌≢◌, ◌⊎◌, inl, inr, true, false, Option, none,
  some, Bool-cases, string_eq, bool_eq, nat_eq, option_eq, list_eq, Error, Result, raise_if,
  Result-cases, service_closed, ok, raise, Stdlib,
}
use study_os_agent_gateway.Common.Method.{
  return, fail, from, read, check, modify, within, ◌>>=◌, catch,
}
use study_os_agent_gateway.Common.Method.Keeps.{Keeps, Keeps-modify, keeps_rules}
use study_os_agent_gateway.Common.Method.Steps.{bind-ok, bind-raise, catch-ok}
use study_os_agent_gateway.Task.Claims.Recall.{remember-recall}
use study_os_agent_gateway.Task.Claims.{BoundedClaims}
use study_os_agent_gateway.Task.Store.{Action, create, get_task}
use study_os_agent_gateway.Task.Failure.{category_eq, retry_mode_eq}
use study_os_agent_gateway.Task.State.{state_eq}
use study_os_agent_gateway.Task.Record.{cause_eq, Task, intent_eq, source_kind_eq}
use study_os_agent_gateway.Task.Request.{from_request, new_record, Request}
use study_os_agent_gateway.Task.Service.{
  start_runner, channel_is_busy, ensure_runners_open, Act, remember_trigger, spawned_agent, spawn,
  on_store, clean, already_handled, start_claimed, clean_on_error, ensure_open, StartEnv,
  by_trigger, start_task, Service, get, start_new,
}
use study_os_agent_gateway.Common.Dict

-- The event was claimed, or a stored task has it.
abbrev pub IsKnown : ℕ → Service → Type 0
IsKnown event s =
    ((id : String) × (Dict.get s.triggers.claims event ≡ some id))
    ⊎ ((r : Task) × (by_trigger event s.store.tasks ≡ some r))

-- What a repeated request must leave: the tasks, the runners and the claims.
abbrev pub SameTasks : Service → Service → Type 0
SameTasks s t = (t.store ≡ s.store) × (t.running ≡ s.running) × (t.triggers ≡ s.triggers)

clean_on_error-ok :
    {A : Type 0} (m : Act A) (s : Service) {a : A} {t : Service}
    → m s ≡ (ok a, t)
    → clean_on_error m s ≡ (ok a, t)
unfolding clean_on_error
clean_on_error-ok m s h = catch-ok m _ s h

on_store-ok :
    {A : Type 0} (m : Action A) (s : Service) {a : A}
    → (m s.store).0 ≡ ok a
    → on_store m s ≡ (ok a, record s { store = (m s.store).1 })
unfolding on_store within
on_store-ok m s h = ap (λ r. (r, record s { store = (m s.store).1 })) h

module _ (lib : Stdlib) (e : StartEnv) (request : Request) where
  get_same :
      (id : String) (s : Service)
      → SameTasks s (catch (get lib id) (λ x. fail (already_handled x)) (clean s)).1
  unfolding catch get fail
  get_same id s = elim (Result-cases (get_task lib s.store.tasks id)) [
    | inl (r, found) ↦ rw found (refl, refl, refl)
    | inr (x, bad) ↦ rw bad (refl, refl, refl)
  ]

  start_claimed-known :
      (s : Service) (seen : Option String)
      → Dict.get s.triggers.claims request.trigger_event_id ≡ seen
      → IsKnown request.trigger_event_id s
      → SameTasks s (start_claimed lib e request seen s).1
  unfolding start_claimed start_new ◌>>=◌
  start_claimed-known s (some id) eq known = get_same id s
  start_claimed-known s none eq (inl (id, claimed)) = absurd (cc)
  start_claimed-known s none eq (inr (r, stored)) = rw stored (refl, refl, refl)

  ensure_open-closed :
      (s : Service)
      → s.closed ≡ true
      → clean_on_error ensure_open s ≡ (raise service_closed, clean s)
  unfolding clean_on_error ensure_open catch ◌>>=◌ fail modify check
  ensure_open-closed s h = ap (λ c. clean_on_error (check (λ _. raise_if c service_closed)) s) h

  ensure_open-opened : (s : Service) → s.closed ≡ false → clean_on_error ensure_open s ≡ (ok tt, s)
  unfolding clean_on_error ensure_open catch ◌>>=◌ fail modify check
  ensure_open-opened s h = ap (λ c. clean_on_error (check (λ _. raise_if c service_closed)) s) h

  -- The rest of `start`, of a service that is open.
  rest : Service → Result Task × Service
  rest s = start_claimed lib e request (Dict.get s.triggers.claims request.trigger_event_id) s

  start_task-opened : (s : Service) → s.closed ≡ false → start_task lib e request s ≡ rest s
  unfolding start_task ◌>>=◌ rest
  start_task-opened s h = bind-ok (clean_on_error ensure_open) _ s (ensure_open-opened s h)

  start_task-closed :
      (s : Service) → s.closed ≡ true → start_task lib e request s ≡ (raise service_closed, clean s)
  unfolding start_task
  start_task-closed s h = bind-raise (clean_on_error ensure_open) _ s (ensure_open-closed s h)

  -- A request whose event is known leaves the tasks, the runners and the claims.
  pub start_task-known :
      (s : Service)
      → IsKnown request.trigger_event_id s
      → SameTasks s (start_task lib e request s).1
  unfolding rest
  start_task-known s known = elim (Bool-cases s.closed) [
    | inl closed ↦ rw (start_task-closed s closed) (refl, refl, refl)
    | inr opened ↦
        rw (start_task-opened s opened)
          (start_claimed-known s (Dict.get s.triggers.claims request.trigger_event_id) refl known)
  ]

  -- The task is stored, and its event remembered: the runner starts.
  abbrev launched : Task → Act Task
  launched r = spawn r.task_id (spawned_agent r.task_id (from_request request)) >>= λ _. return r

  launched-Keeps : (r : Task) (c : BoundedClaims) → Keeps (λ t. t.triggers ≡ c) (launched r)
  unfolding spawn ensure_runners_open
  launched-Keeps r c =
      let kept =
        Keeps-modify {P = λ t. t.triggers ≡ c}
          (start_runner r.task_id (spawned_agent r.task_id (from_request request))) (λ s h. h) in
      search keeps_rules

  launched-IsKnown :
      (r : Task) (s : Service)
      → 1 ≤ s.triggers.maximum
      → IsKnown request.trigger_event_id
          (launched r (remember_trigger request.trigger_event_id r.task_id s)).1
  launched-IsKnown r s room =
      let after = remember_trigger request.trigger_event_id r.task_id s in
      inl (
        r.task_id,
        ap (λ c. Dict.get c.claims request.trigger_event_id)
              ((launched-Keeps r after.triggers).run after refl)
            ∙ remember-recall s.triggers request.trigger_event_id r.task_id room,
      )

  -- A request with a new event, once its record is made.
  abbrev created_then : Task → Act Task
  created_then r =
      clean_on_error (catch (on_store (create lib e.env r)) (λ x. fail (channel_is_busy x)))
      >>= λ _. modify (remember_trigger request.trigger_event_id r.task_id) >>= λ _. launched r

  created_then-failed :
      (r q : Task) (s : Service) (x : Error)
      → (create lib e.env r s.store).0 ≡ raise x
      → (created_then r s).0 ≢ ok q
  unfolding ◌>>=◌ clean_on_error catch on_store within modify fail
  created_then-failed r q s x bad done = cc (rw bad at done)

  created_then-IsKnown :
      (r q : Task) (s : Service)
      → 1 ≤ s.triggers.maximum
      → (created_then r s).0 ≡ ok q
      → IsKnown request.trigger_event_id (created_then r s).1
  unfolding ◌>>=◌ modify
  created_then-IsKnown r q s room done = elim (Result-cases (create lib e.env r s.store).0) [
    | inr (x, bad) ↦ absurd (created_then-failed r q s x bad done)
    | inl (a, stored) ↦
        rw
          (bind-ok (clean_on_error (catch (on_store (create lib e.env r)) _)) _ s (
            clean_on_error-ok _ s (
              catch-ok (on_store (create lib e.env r)) _ s
                (on_store-ok (create lib e.env r) s stored))))
          (launched-IsKnown r (record s { store = (create lib e.env r s.store).1 }) room)
  ]

  start_new-failed :
      (s : Service) (x : Error) (r : Task)
      → new_record lib request e.new_id e.now none ≡ raise x
      → (start_new lib e request none s).0 ≢ ok r
  unfolding start_new ◌>>=◌ clean_on_error catch from fail modify
  start_new-failed s x r bad done = cc (rw bad at done)

  -- Each way to return a task leaves its event known.
  start_new-IsKnown :
      (s : Service) (existing : Option Task) (r : Task)
      → 1 ≤ s.triggers.maximum
      → by_trigger request.trigger_event_id s.store.tasks ≡ existing
      → (start_new lib e request existing s).0 ≡ ok r
      → IsKnown request.trigger_event_id (start_new lib e request existing s).1
  unfolding start_new from
  start_new-IsKnown s (some q) r room stored done = inr (q, stored)
  start_new-IsKnown s none r room stored done =
      elim (Result-cases (new_record lib request e.new_id e.now none)) [
        | inr (x, bad) ↦ absurd (start_new-failed s x r bad done)
        | inl (q, made) ↦
            let is =
              bind-ok (clean_on_error (from (new_record lib request e.new_id e.now none)))
                created_then s
                (clean_on_error-ok (from (new_record lib request e.new_id e.now none)) s
                  (ap (λ m. (m, s)) made)) in
            rw is (created_then-IsKnown q r s room (rw is at done))
      ]

  rest-IsKnown :
      (s : Service) (seen : Option String) (r : Task)
      → 1 ≤ s.triggers.maximum
      → Dict.get s.triggers.claims request.trigger_event_id ≡ seen
      → (start_claimed lib e request seen s).0 ≡ ok r
      → IsKnown request.trigger_event_id (start_claimed lib e request seen s).1
  unfolding start_claimed ◌>>=◌ read modify
  rest-IsKnown s none r room eq done =
      start_new-IsKnown s (by_trigger request.trigger_event_id s.store.tasks) r room refl done
  rest-IsKnown s (some id) r room eq done =
      let (same_store, same_runners, same_claims) = get_same id s in
      inl (id, ap (λ c. Dict.get c.claims request.trigger_event_id) same_claims ∙ eq)

  pub start_task-claims :
      (s : Service) (r : Task)
      → 1 ≤ s.triggers.maximum
      → (start_task lib e request s).0 ≡ ok r
      → IsKnown request.trigger_event_id (start_task lib e request s).1
  unfolding rest
  start_task-claims s r room done = elim (Bool-cases s.closed) [
    | inl closed ↦ absurd (cc (rw (start_task-closed s closed) at done))
    | inr opened ↦ rw (start_task-opened s opened) (
        rest-IsKnown s (Dict.get s.triggers.claims request.trigger_event_id) r room refl
          (rw (start_task-opened s opened) at done))
  ]

-- Once `start` has returned a task for a request, another request for the same event leaves the store,
-- the runners and the claims as they are, whatever else it asks for and whatever the outside supplies;
-- this needs room for a claim.
pub start_task-once :
    (lib : Stdlib) (e e' : StartEnv) (request request' : Request) (s : Service) (r : Task)
    → 1 ≤ s.triggers.maximum
    → (start_task lib e request s).0 ≡ ok r
    → request'.trigger_event_id ≡ request.trigger_event_id
    → SameTasks
        (start_task lib e request s).1
        (start_task lib e' request' (start_task lib e request s).1).1
start_task-once lib e e' request request' s r room done same =
    start_task-known lib e' request' (start_task lib e request s).1 (
      subst (λ event. IsKnown event (start_task lib e request s).1) (sym same)
        (start_task-claims lib e request s r room done))
