-- ===== src/Task/Service.antt =====
-- The service around the store: discord_task_service.py, class `DiscordTaskService`, its shared state,
-- and `start`. A method runs up to its next `await` in one step; what others do meanwhile, to the store
-- too, is the environment's.
pub mod Once
use study_os_agent_gateway.Common.{
  ℕ, String, Bool, Option, none, some, List, [], ◌∷◌, ◌++◌, string_eq, bool_eq, nat_eq, ◌==◌,
  option_eq, list_eq, find, member, Error, Result, raise_if, value_error, key_error,
  action_unavailable, channel_busy, service_closed, runtime_error, ok, Datetime, Stdlib,
}
use study_os_agent_gateway.Common.Dict.{Dict}
use study_os_agent_gateway.Common.Dict
use study_os_agent_gateway.Task.Store.{
  Store, create, Env, compare_and_set, timestamp, get_task, Action,
}
use study_os_agent_gateway.Task.Failure.{Failure, category_eq, retry_mode_eq}
use study_os_agent_gateway.Task.Transition.{transition}
use study_os_agent_gateway.Task.State.{state_eq, State}
use study_os_agent_gateway.Task.Claims.{remember, BoundedClaims}
use study_os_agent_gateway.Task.Record.{cause_eq, Task, source_kind_eq, intent_eq}
use study_os_agent_gateway.Task.Request.{from_request, Request, new_record, RunSpec}
use study_os_agent_gateway.Common.Method.{
  Method, return, fail, from, read, check, modify, within, ◌>>=◌, ◌>>◌, catch,
}
use study_os_agent_gateway.Common.Outcome.{◌>>=◌ as bind}

-- What reaches the agent, Discord and the file system.
pub data Effect : Type 0 where
  cleaned : Effect
  spawned_agent : String → RunSpec → Effect
  spawned_delivery discarded restored : String → Effect

-- The store, `_triggers` and `interactions`, the tasks with a live runner in `DiscordTaskRunners`, the
-- two `_closed`, and the effects in their order.
pub record Service : Type 0 where
  pub store : Store
  pub triggers : BoundedClaims
  pub interactions : BoundedClaims
  pub running : List String
  pub closed : Bool
  pub runners_closed : Bool
  pub effects : List Effect

-- What an `await` gives, and what others have done when it gives it.
pub record Await (A : Type 0) : Type 0 where
  pub answer : Result A
  pub others : Service → Service

abbrev pub Act : Type 0 → Type 0
Act A = Method Service A

unfoldable pub wait : {A : Type 0} → Await A → Act A
unfolding ◌>>=◌
wait a = modify a.others >> from a.answer

unfoldable pub on_store : {A : Type 0} → Action A → Act A
on_store m = within (λ s. s.store) (λ t s. record s { store = t }) m

abbrev pub effect : Effect → Service → Service
effect e s = record s { effects = s.effects ++ e ∷ [] }

-- `request.attachments.cleanup()`.
abbrev pub clean : Service → Service
clean = effect cleaned

-- A handler that cleans up and raises again.
unfoldable pub clean_on_error : {A : Type 0} → Act A → Act A
unfolding catch ◌>>=◌
clean_on_error m = catch m (λ e. modify clean >> fail e)

abbrev pub remember_interaction : ℕ → String → Service → Service
remember_interaction i id s = record s { interactions = remember s.interactions i id }

abbrev pub remember_trigger : ℕ → String → Service → Service
remember_trigger i id s = record s { triggers = remember s.triggers i id }

-- `DiscordTaskRunners.ensure_open` and `spawn`.
unfoldable pub ensure_runners_open : Act (Unit {0})
ensure_runners_open = check (λ s. raise_if s.runners_closed service_closed)

abbrev pub start_runner : String → Effect → Service → Service
start_runner id e s = effect e (record s { running = s.running ++ id ∷ [] })

unfoldable pub spawn : String → Effect → Act (Unit {0})
unfolding ◌>>=◌ ensure_runners_open
spawn id e = do
  ensure_runners_open
  check (λ s. raise_if (member id s.running) runtime_error)
  modify (start_runner id e)

-- `_ensure_open`
unfoldable pub ensure_open : Act (Unit {0})
ensure_open = check (λ s. raise_if s.closed service_closed)

-- `_by_trigger`
abbrev pub by_trigger : ℕ → Dict String Task → Option Task
by_trigger trigger tasks = find (λ (r : Task). r.trigger_event_id == trigger) (Dict.values tasks)

-- `except KeyError` around the lookup of a claimed task; `except ValueError` around `persist_create`.
abbrev pub already_handled : Error → Error
already_handled key_error = action_unavailable
already_handled e = e

abbrev pub channel_is_busy : Error → Error
channel_is_busy value_error = channel_busy
channel_is_busy e = e

-- What the outside supplies to `start`: the write, a new identifier and the time.
pub record StartEnv : Type 0 where
  pub env : Env
  pub new_id : String
  pub now : Datetime

module _ (lib : Stdlib) where
  -- `persist_update`: the candidate is made before the store is called.
  unfoldable pub persist_update : Env → Task → (Task → Result Task) → Act Task
  unfolding ◌>>=◌ on_store compare_and_set
  persist_update env current update = do
    candidate ← from (update current)
    on_store (compare_and_set lib env current.task_id current.revision (λ _. ok candidate))

  -- `as_timestamp` and `transition`, in the callback of an update.
  unfoldable pub move_to : Datetime → State → Option Failure → Task → Result Task
  unfolding timestamp transition
  move_to now target failure r =
      bind (timestamp lib now) (λ stamp. transition lib r target stamp failure)

  unfoldable pub get : String → Act Task
  unfolding get_task
  get id = check (λ s. get_task lib s.store.tasks id)

  unfoldable pub start_new : StartEnv → Request → Option Task → Act Task
  unfolding ◌>>=◌ catch clean_on_error new_record on_store create spawn from_request
  start_new e request (some existing) = modify clean >> return existing
  start_new e request none = do
    r ← clean_on_error (from (new_record lib request e.new_id e.now none))
    clean_on_error (catch (on_store (create lib e.env r)) (λ x. fail (channel_is_busy x)))
    modify (remember_trigger request.trigger_event_id r.task_id)
    spawn r.task_id (spawned_agent r.task_id (from_request request))
    return r

  unfoldable pub start_claimed : StartEnv → Request → Option String → Act Task
  unfolding ◌>>=◌ catch get start_new
  start_claimed e request (some id) = do
    modify clean
    catch (get id) (λ x. fail (already_handled x))
  start_claimed e request none = do
    existing ← read (λ s. by_trigger request.trigger_event_id s.store.tasks)
    start_new e request existing

  unfoldable pub start_task : StartEnv → Request → Act Task
  unfolding ◌>>=◌ clean_on_error ensure_open start_claimed
  start_task e request = do
    clean_on_error ensure_open
    claimed ← read (λ s. Dict.get s.triggers.claims request.trigger_event_id)
    start_claimed e request claimed
