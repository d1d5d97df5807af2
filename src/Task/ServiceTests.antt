-- ===== src/Task/ServiceTests.antt =====
-- The service at work on concrete requests, and its theorems at concrete inputs.
use study_os_agent_gateway.Common.{
  ◌≤◌, String, ◌≡◌, refl, ap, subst, ◌≢◌, inl, inr, true, false, none, some, [], ◌∷◌, arith,
  Bool-cases, string_eq, bool_eq, nat_eq, ◌==◌, option_eq, list_eq, length, filter, Every, optional,
  Result, Returns, authorization_error, out_of_fuel, ok, raise, aware,
}
use study_os_agent_gateway.Common.Json.{sort_keys}
use study_os_agent_gateway.Common.Method.{check}
use study_os_agent_gateway.Task.Document.Loaded.{decode_document-Loaded}
use study_os_agent_gateway.Task.Document.RoundTrip.{document_round_trip}
use study_os_agent_gateway.Task.Queries.Listing.{
  list_tasks-Listed, can_continue-Latest, IsLatestFirst, IsEarlier,
}
use study_os_agent_gateway.Task.Retention.Total.{apply_retention-Ends}
use study_os_agent_gateway.Task.Retention.Subset.{IsKeyed}
use study_os_agent_gateway.Task.Graph.Ends.{validate_continuation_graph-Ends}
use study_os_agent_gateway.Task.Queries.{is_visible, can_continue, in_scope, list_tasks, in_state}
use study_os_agent_gateway.Task.Document.{encode_document, decode_document}
use study_os_agent_gateway.Task.Invariant.{IsFormed, IsSound, IsSound-set, IsSound-empty}
use study_os_agent_gateway.Task.Store.{Store}
use study_os_agent_gateway.Task.Retention.{apply_retention}
use study_os_agent_gateway.Task.Graph.{validate_continuation_graph}
use study_os_agent_gateway.Task.Facade.Refused.{SameAs, refused_or_repeated, perform, stopping_it}
use study_os_agent_gateway.Task.Service.Once.{SameTasks, start_task-once}
use study_os_agent_gateway.Task.Failure.{is_well_formed_failure, retry_mode_eq, category_eq}
use study_os_agent_gateway.Task.Access.{stop, Access}
use study_os_agent_gateway.Task.Actions.{StopEnv, authorized}
use study_os_agent_gateway.Task.Facade.{new_service}
use study_os_agent_gateway.Task.State.{completed, is_active, state_eq}
use study_os_agent_gateway.Task.Claims.{remember, BoundedClaims}
use study_os_agent_gateway.Task.Record.{
  has_valid_fields, state_fits_failure, has_valid_ids, intent_eq, cause_eq, source_kind_eq, Task,
  is_well_formed, general, mention,
}
use study_os_agent_gateway.Task.Request.{from_request, Request}
use study_os_agent_gateway.Task.Service.{Await, StartEnv, Service, start_task, spawned_agent}
use study_os_agent_gateway.Common.Dict
use study_os_agent_gateway.Task.Tests.{
  running_store-IsConsistent, toy, first_id, first, env, running_store, owner_access,
}

abbrev request : Request
request = record {
  source_kind = mention;
  guild_id = 2;
  origin_channel_id = 3;
  execution_channel_id = 4;
  owner_id = 1;
  trigger_event_id = 5;
  source_message_id = none;
  prompt = "do it";
  source_label = "please";
  intent = general;
  source_reference_id = none;
  repository_commit_sha = none;
  task_id = none;
}

abbrev two_claims : BoundedClaims
two_claims = record { maximum = 2; claims = [] }

abbrev start_env : StartEnv
start_env = record { env = env; new_id = first_id; now = aware 2 }

-- A store before its first task.
abbrev no_tasks : Store
no_tasks = record { tasks = []; document = none }

abbrev begin : Service
begin = new_service no_tasks two_claims

-- The service once the request was taken.
abbrev started_service : Service
started_service = record {
  store = running_store;
  triggers = record { maximum = 2; claims = (5, first_id) ∷ [] };
  interactions = two_claims;
  running = first_id ∷ [];
  closed = false;
  runners_closed = false;
  effects = spawned_agent first_id (from_request request) ∷ [];
}

started-eq : start_task toy start_env request begin ≡ (ok first, started_service)
unfolding start_task new_service Dict.get is_well_formed has_valid_ids toy has_valid_fields
    state_fits_failure Dict.set remember Dict.remove
started-eq = refl

-- Another request for the same event, with another prompt and another new identifier.
abbrev repeated : Request
repeated = record request { prompt = "do it again" }

abbrev later_env : StartEnv
later_env = record { env = env; new_id = "ffffffffffffffffffffffffffffffff"; now = aware 3 }

start_task-once_example :
    SameTasks
      (start_task toy start_env request begin).1
      (start_task toy later_env repeated (start_task toy start_env request begin).1).1
unfolding new_service
start_task-once_example =
    start_task-once toy start_env later_env request repeated begin first (omega arith)
      (ap (λ (m : Result Task × Service). m.0) started-eq) refl

-- Somebody else may not stop the task.
abbrev stranger : Access
stranger = record owner_access { actor_id = 9 }

abbrev quiet : {A : Type 0} → A → Await A
quiet a = record { answer = ok a; others = λ s. s }

abbrev stop_env : StopEnv
stop_env = record { env = env; now = aware 3; interrupted = quiet tt; rendered = quiet tt }

stranger-refused :
    (authorized toy first_id stop stranger started_service).0 ≡ raise authorization_error
unfolding authorized check Dict.get
stranger-refused = refl

refused_or_repeated_example :
    SameAs started_service (perform toy (stopping_it stop_env) first_id stranger 11 started_service)
refused_or_repeated_example =
    refused_or_repeated toy (stopping_it stop_env) first_id stranger 11 started_service
      (inr (inl (authorization_error, stranger-refused)))

-- What the owner sees of the channel.
list_tasks-Listed_example :
    Returns
      (λ rs.
        (length rs ≤ 10)
        × IsLatestFirst toy rs
        × Every
            (λ r.
              (r.owner_id ≡ 1)
              × (is_visible r owner_access ≡ true)
              × (in_scope r owner_access "mine" 4 ≡ true)
              × (in_state r "active" ≡ true))
            rs)
      (list_tasks toy running_store.tasks owner_access "mine" "active" 4)
list_tasks-Listed_example =
    list_tasks-Listed toy (λ r. r.owner_id ≡ 1) running_store.tasks owner_access "mine" "active" 4
      (refl, tt)

listed : list_tasks toy running_store.tasks owner_access "mine" "active" 4 ≡ ok (first ∷ [])
unfolding list_tasks toy
listed = refl

-- The task has completed.
abbrev done_task : Task
done_task = record first { state = completed; updated_at = "xxx" }

abbrev done_tasks : Dict.Dict String Task
done_tasks = (first_id, done_task) ∷ []

may_continue : can_continue toy done_tasks done_task ≡ ok true
unfolding can_continue toy
may_continue = refl

done_tasks-Sound : IsSound toy done_tasks
unfolding is_well_formed has_valid_ids has_valid_fields state_fits_failure toy Dict.set is_active
done_tasks-Sound =
    IsSound-set [] first_id done_task toy (IsSound-empty toy) refl refl
      (λ j q found other busy. absurd (cc busy))

done_task-here : Dict.get done_tasks done_task.task_id ≡ some done_task
unfolding Dict.get
done_task-here = refl

can_continue-Latest_example :
    (done_task.state ≡ completed)
    × (done_task.continued_to_task_id ≡ none)
    × Every
        (λ p. IsEarlier toy p done_task)
        (filter
          (λ p. p.execution_channel_id == done_task.execution_channel_id)
          (Dict.values done_tasks))
can_continue-Latest_example =
    can_continue-Latest toy done_tasks done_task done_tasks-Sound done_task-here may_continue

no_failures :
    (k : String) (r : Task)
    → Dict.get running_store.tasks k ≡ some r
    → optional is_well_formed_failure r.failure ≡ true
unfolding Dict.get
no_failures k r found = elim (Bool-cases (first_id == k)) [
  | inl eq ↦
      let same : first ≡ r = cc (rw eq at found) in
      subst (λ (q : Task). optional is_well_formed_failure q.failure ≡ true) same refl
  | inr ne ↦ absurd (cc (rw ne at found))
]

document_round_trip_example :
    (loaded : Dict.Dict String Task) × (decode_document toy
        (some (sort_keys (encode_document running_store.tasks)))
      ≡ ok loaded)
    × ((k : String) → Dict.get loaded k ≡ Dict.get running_store.tasks k)
document_round_trip_example =
    document_round_trip toy (λ _. "document")
      (λ _. some (sort_keys (encode_document running_store.tasks))) running_store.tasks refl
      running_store-IsConsistent.sound no_failures

decode_document-Loaded_example :
    Returns
      (λ d. Dict.IsUnique d × IsKeyed d × IsFormed toy d)
      (decode_document toy (some (encode_document running_store.tasks)))
decode_document-Loaded_example =
    decode_document-Loaded toy (some (encode_document running_store.tasks))

-- A task whose continuation is itself.
abbrev cyclic : Dict.Dict String Task
cyclic = (first_id, record first { state = completed; continued_to_task_id = some first_id }) ∷ []

validate_continuation_graph-Ends_example : validate_continuation_graph cyclic ≢ raise out_of_fuel
validate_continuation_graph-Ends_example = validate_continuation_graph-Ends cyclic

apply_retention-Ends_example : apply_retention toy cyclic (aware 3) ≢ raise out_of_fuel
apply_retention-Ends_example = apply_retention-Ends cyclic toy (aware 3)
