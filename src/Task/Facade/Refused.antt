-- ===== src/Task/Facade/Refused.antt =====
-- What a user may not do, or has done already, changes nothing: no task, no runner, no claim.
use study_os_agent_gateway.Common.{
  ℕ, String, ◌≡◌, refl, sym, ap, subst, ◌∙◌, ◌⊎◌, inl, inr, true, Option, none, some, string_eq,
  bool_eq, nat_eq, option_eq, list_eq, Error, Result, raise_if, Result-cases, service_closed, ok,
  raise, Stdlib,
}
use study_os_agent_gateway.Common.Method.{
  return, fail, read, check, modify, and_then, ◌>>=◌, ◌>>◌, catch, handled, finally,
}
use study_os_agent_gateway.Common.Method.Keeps.{
  Keeps, Keeps-bind, Keeps-modify, Keeps-finally, Keeps-read, keeps_rules,
}
use study_os_agent_gateway.Task.Store.{get_task}
use study_os_agent_gateway.Task.Facade.{
  continue_when_open, retry_when_open, stop_when_open, forget_when_open, steer_when_open,
}
use study_os_agent_gateway.Task.Request.{Request}
use study_os_agent_gateway.Task.Ending.{
  forget_idle, forget_task_of, link_continuation, continue_from, seen_or, after_link, seen_before,
  Continued, unless_continued, linked_to, forget_unless,
}
use study_os_agent_gateway.Task.Failure.{category_eq, retry_mode_eq}
use study_os_agent_gateway.Task.State.{state_eq}
use study_os_agent_gateway.Task.Record.{intent_eq, cause_eq, source_kind_eq, Task}
use study_os_agent_gateway.Task.Access.{
  steer, continue_task, forget_task, stop, retry, Access, TaskAction,
}
use study_os_agent_gateway.Task.Actions.{
  steer_task, stop_task, retry_task, ForgetEnv, RetryEnv, StopEnv, ContinueEnv, SteerEnv,
  authorized, unless_seen, answer_or,
}
use study_os_agent_gateway.Task.Service.{get, clean, ensure_open, Service, clean_on_error, Act}
use study_os_agent_gateway.Common.Dict

-- All but the effects.
pub record SameAs (s t : Service) : Type 0 where
  pub store : t.store ≡ s.store
  pub triggers : t.triggers ≡ s.triggers
  pub interactions : t.interactions ≡ s.interactions
  pub running : t.running ≡ s.running
  pub closed : t.closed ≡ s.closed

SameAs-self : (s : Service) → SameAs s s
SameAs-self s = record {
  store = refl;
  triggers = refl;
  interactions = refl;
  running = refl;
  closed = refl;
}

SameAs-clean : {s : Service} (t : Service) → SameAs s t → SameAs s (clean t)
SameAs-clean t h = record {
  store = h.store;
  triggers = h.triggers;
  interactions = h.interactions;
  running = h.running;
  closed = h.closed;
}

-- A continuation raised, or was found, and nothing else happened.
abbrev Unlinked : Service → Result Continued × Service → Type 0
Unlinked s (raise x, t) = SameAs s t
Unlinked s (ok (seen_before r), t) = SameAs s t
Unlinked s (ok (linked_to parent child), t) = ⊥

-- `status` or `authorize` raises.
abbrev pub IsRefused : Stdlib → Service → String → TaskAction → Access → Type 0
IsRefused lib s id action access = (x : Error) × ((authorized lib id action access s).0 ≡ raise x)

-- It does in every state that is the same.
still_refused :
    {s t : Service} (lib : Stdlib) (id : String) (action : TaskAction) (access : Access)
    (refused : IsRefused lib s id action access)
    → SameAs s t
    → (authorized lib id action access t).0 ≡ raise refused.0
unfolding authorized check
still_refused {s} {t} lib id action access (x, bad) h =
    subst (λ store. (authorized lib id action access (record s { store = store })).0 ≡ raise x)
      (sym h.store) bad

-- The interaction was handled.
abbrev pub IsSeen : Service → ℕ → Type 0
IsSeen s i = (id : String) × (Dict.get s.interactions.claims i ≡ some id)

-- It was in every state that is the same.
still_seen :
    {s t : Service} {id : String}
    → SameAs s t
    → (i : ℕ) → Dict.get s.interactions.claims i ≡ some id
    → Dict.get t.interactions.claims i ≡ some id
still_seen h i seen = ap (λ c. Dict.get c.claims i) h.interactions ∙ seen

module _ {s : Service} where
  quiet_clean : Keeps (SameAs s) (modify clean)
  quiet_clean = Keeps-modify clean SameAs-clean

  quiet_on_error :
      {A : Type 0} (m : Act A) → Keeps (SameAs s) m → Keeps (SameAs s) (clean_on_error m)
  unfolding clean_on_error
  quiet_on_error m k = search (keeps_rules, quiet_clean)

  quiet_finally : {A : Type 0} (m : Act A) → Keeps (SameAs s) m → Keeps (SameAs s) (finally m clean)
  quiet_finally m k = Keeps-finally m clean k SameAs-clean

  quiet_open : Keeps (SameAs s) ensure_open
  unfolding ensure_open
  quiet_open = search keeps_rules

  closed_raises :
      {A : Type 0} (f : Unit {0} → Act A) → s.closed ≡ true → Keeps (SameAs s) (ensure_open >>= f)
  unfolding ◌>>=◌ ensure_open check
  closed_raises f closed = record {
    run = λ t h.
        subst (λ c. SameAs s (and_then f (raise_if c service_closed, t)).1)
          (sym (h.closed ∙ closed)) h;
  }

  closed_cleans :
      {A : Type 0} (f : Unit {0} → Act A)
      → s.closed ≡ true
      → Keeps (SameAs s) (clean_on_error ensure_open >>= f)
  unfolding ◌>>=◌ ensure_open check clean_on_error catch fail modify
  closed_cleans f closed = record {
    run = λ t h.
        subst (λ c. SameAs s ((clean_on_error (check (λ _. raise_if c service_closed)) >>= f) t).1)
          (sym (h.closed ∙ closed)) (SameAs-clean t h);
  }

  module _ (lib : Stdlib) where
    quiet_authorized :
        (id : String) (action : TaskAction) (access : Access)
        → Keeps (SameAs s) (authorized lib id action access)
    unfolding authorized
    quiet_authorized id action access = search keeps_rules

    refused_raises :
        {A : Type 0} (id : String) (action : TaskAction) (access : Access) (f : Task → Act A)
        → IsRefused lib s id action access
        → Keeps (SameAs s) (authorized lib id action access >>= f)
    unfolding ◌>>=◌ authorized check
    refused_raises id action access f (x, bad) = record {
      run = λ t h.
          subst (λ r. SameAs s (and_then f (r, t)).1)
            (sym (still_refused lib id action access (x, bad) h)) h;
    }

    seen_answers :
        (i : ℕ) (rest : Act Task) → IsSeen s i → Keeps (SameAs s) (unless_seen lib i rest)
    unfolding unless_seen ◌>>=◌ read answer_or get check
    seen_answers i rest (id, seen) = record {
      run = λ t h. subst (λ o. SameAs s (answer_or lib rest o t).1) (sym (still_seen h i seen)) h;
    }

    seen_returns :
        (i : ℕ) (rest : Act (Unit {0}))
        → IsSeen s i
        → Keeps (SameAs s) (read (λ t. Dict.get t.interactions.claims i) >>= forget_unless lib rest)
    unfolding ◌>>=◌ read return
    seen_returns i rest (id, seen) = record {
      run =
          λ t h. subst (λ o. SameAs s (forget_unless lib rest o t).1) (sym (still_seen h i seen)) h;
    }

    -- The continuation of a refused or repeated request is not linked.
    seen_continues :
        (i : ℕ) (rest : Act Continued) (t : Service)
        → IsSeen s i
        → SameAs s t
        → Unlinked s (unless_continued lib i rest t)
    unfolding unless_continued ◌>>=◌ read return get check
    seen_continues i rest t (id, seen) h =
        let found : Unlinked s (seen_or lib rest (some id) t) =
          elim (Result-cases (get_task lib t.store.tasks id)) [
            | inl (r, is) ↦ rw is h
            | inr (x, bad) ↦ rw bad h
          ] in
        subst (λ o. Unlinked s (seen_or lib rest o t)) (sym (still_seen h i seen)) found

    after-Unlinked :
        (e : ContinueEnv) (left : Result Continued × Service)
        → Unlinked s left
        → SameAs s (and_then (after_link lib e) (handled (λ x. modify clean >> fail x) left)).1
    unfolding ◌>>=◌ modify fail return
    after-Unlinked e (raise x, t) h = SameAs-clean t h
    after-Unlinked e (ok (seen_before r), t) h = SameAs-clean t h
    after-Unlinked e (ok (linked_to parent child), t) h = elim h [ ]

    link-Unlinked :
        (e : ContinueEnv) (id : String) (access : Access) (request : Request) (i : ℕ) (t : Service)
        → IsRefused lib s id continue_task access ⊎ IsSeen s i
        → SameAs s t
        → Unlinked s (link_continuation lib e id access request i t)
    unfolding link_continuation ◌>>=◌ authorized check
    link-Unlinked e id access request i t why h =
        elim (Result-cases (authorized lib id continue_task access t).0) [
          | inr (x, bad) ↦ rw bad h
          | inl (r, allowed) ↦ elim why [
            | inl (x, bad) ↦
                absurd (cc (sym allowed ∙ still_refused lib id continue_task access (x, bad) h))
            | inr seen ↦ rw allowed (seen_continues i _ t seen h)
          ]
        ]

    quiet_continue :
        (e : ContinueEnv) (id : String) (access : Access) (request : Request) (i : ℕ)
        → IsRefused lib s id continue_task access ⊎ IsSeen s i
        → Keeps (SameAs s) (continue_from lib e id access request i)
    unfolding continue_from ◌>>=◌ clean_on_error catch
    quiet_continue e id access request i why = record {
      run = λ t h.
          after-Unlinked e (link_continuation lib e id access request i t)
            (link-Unlinked e id access request i t why h);
    }

-- The actions of users on a task.
pub data UserAction : Type 0 where
  steering : SteerEnv → UserAction
  stopping_it : StopEnv → UserAction
  retrying : RetryEnv → UserAction
  continuing : ContinueEnv → Request → UserAction
  forgetting : ForgetEnv → UserAction

abbrev pub right_of : UserAction → TaskAction
right_of (steering e) = steer
right_of (stopping_it e) = stop
right_of (retrying e) = retry
right_of (continuing e request) = continue_task
right_of (forgetting e) = forget_task

-- The state that the service's method leaves.
abbrev pub perform : Stdlib → UserAction → String → Access → ℕ → Service → Service
perform lib (steering e) id access i s = (steer_when_open lib e id access i s).1
perform lib (stopping_it e) id access i s = (stop_when_open lib e id access i s).1
perform lib (retrying e) id access i s = (retry_when_open lib e id access i s).1
perform lib (continuing e request) id access i s =
    (continue_when_open lib e id access request i s).1
perform lib (forgetting e) id access i s = (forget_when_open lib e id access i s).1

module _ {s : Service} (lib : Stdlib) where
  -- What starts with `authorize`, and then tells a repeated interaction.
  quiet_answer :
      (id : String) (action : TaskAction) (access : Access) (i : ℕ) (rest : Task → Act Task)
      → IsRefused lib s id action access ⊎ IsSeen s i
      → Keeps (SameAs s) (authorized lib id action access >>= λ r. unless_seen lib i (rest r))
  quiet_answer id action access i rest (inl refused) = refused_raises lib id action access _ refused
  quiet_answer id action access i rest (inr seen) =
      Keeps-bind (authorized lib id action access) _ (quiet_authorized lib id action access)
        (λ r. seen_answers lib i (rest r) seen)

  forget_unless_quiet :
      (rest : Act (Unit {0})) (seen : Option String)
      → Keeps (SameAs s) rest
      → Keeps (SameAs s) (forget_unless lib rest seen)
  forget_unless_quiet rest none k = k
  forget_unless_quiet rest (some id) k = search keeps_rules

  quiet_forget :
      (e : ForgetEnv) (id : String) (access : Access) (i : ℕ)
      → IsRefused lib s id forget_task access ⊎ IsSeen s i
      → Keeps (SameAs s) (forget_task_of lib e id access i)
  unfolding forget_task_of
  quiet_forget e id access i (inl refused) = Keeps-bind (read _) _ (Keeps-read _) (λ seen.
      forget_unless_quiet _ seen
        (refused_raises lib id forget_task access (forget_idle lib e id i) refused))
  quiet_forget e id access i (inr seen) = seen_returns lib i _ seen

-- An action on a task of a service that is closed, of an actor without the right to it, or of an interaction
-- that was handled before, leaves the store, the runners and the claims as they were, whatever the outside
-- supplies.
pub refused_or_repeated :
    (lib : Stdlib) (u : UserAction) (id : String) (access : Access) (i : ℕ) (s : Service)
    → (s.closed ≡ true) ⊎ (IsRefused lib s id (right_of u) access ⊎ IsSeen s i)
    → SameAs s (perform lib u id access i s)
unfolding steer_when_open stop_when_open retry_when_open continue_when_open forget_when_open
    steer_task stop_task retry_task
refused_or_repeated lib (steering e) id access i s (inl closed) =
    (closed_cleans (λ _. steer_task lib e id access i) closed).run s (SameAs-self s)
refused_or_repeated lib (steering e) id access i s (inr why) =
    (Keeps-bind (clean_on_error ensure_open) _ (quiet_on_error ensure_open quiet_open)
        (λ _. quiet_finally _ (quiet_answer lib id steer access i _ why))).run
      s (SameAs-self s)
refused_or_repeated lib (stopping_it e) id access i s (inl closed) =
    (closed_raises (λ _. stop_task lib e id access i) closed).run s (SameAs-self s)
refused_or_repeated lib (stopping_it e) id access i s (inr why) =
    (Keeps-bind ensure_open _ quiet_open (λ _. quiet_answer lib id stop access i _ why)).run s
      (SameAs-self s)
refused_or_repeated lib (retrying e) id access i s (inl closed) =
    (closed_raises (λ _. retry_task lib e id access i) closed).run s (SameAs-self s)
refused_or_repeated lib (retrying e) id access i s (inr why) =
    (Keeps-bind ensure_open _ quiet_open (λ _. quiet_answer lib id retry access i _ why)).run s
      (SameAs-self s)
refused_or_repeated lib (continuing e request) id access i s (inl closed) =
    (closed_cleans (λ _. continue_from lib e id access request i) closed).run s (SameAs-self s)
refused_or_repeated lib (continuing e request) id access i s (inr why) =
    (Keeps-bind (clean_on_error ensure_open) _ (quiet_on_error ensure_open quiet_open)
        (λ _. quiet_continue lib e id access request i why)).run
      s (SameAs-self s)
refused_or_repeated lib (forgetting e) id access i s (inl closed) =
    (closed_raises (λ _. forget_task_of lib e id access i) closed).run s (SameAs-self s)
refused_or_repeated lib (forgetting e) id access i s (inr why) =
    (Keeps-bind ensure_open _ quiet_open (λ _. quiet_forget lib e id access i why)).run s
      (SameAs-self s)
