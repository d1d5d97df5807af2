-- ===== src/Task/Tests.antt =====
-- The task store at work on concrete tasks, and the theorems at concrete inputs. Python's library is
-- played by texts whose length is the instant that they stand for; identifiers are plain hex.
use study_os_agent_gateway.Common.{
  ℕ, zero, suc, ◌≤◌, String, ◌≡◌, refl, ap, ◌⊎◌, true, false, Option, none, some, List, [], ◌∷◌,
  arith, if◌then◌else◌, string_eq, bool_eq, nat_eq, ◌==◌, option_eq, list_eq, length,
  is_hex_of_length, Error, Result, ok, raise, Stdlib, aware,
}
use study_os_agent_gateway.Task.Claims.{BoundedClaims, remember, claim-IsBounded, claim}
use study_os_agent_gateway.Task.Store.Revision.{Replaces, compare_and_set-Replaces}
use study_os_agent_gateway.Task.Access.{
  Access, channels_are_visible, authorize-Rights, Rights, stop, authorize,
}
use study_os_agent_gateway.Mirror.Record.{item_state_eq, item_kind_eq}
use study_os_agent_gateway.Task.Reconcile.Restart.{reconcile_startup-idle}
use study_os_agent_gateway.Common.Dict
use study_os_agent_gateway.Task.Reconcile.Stuck.{reconcile_startup-stuck}
use study_os_agent_gateway.Task.Store.Commit.{on_disk, IsConsistent}
use study_os_agent_gateway.Task.Reconcile.{reconcile_startup}
use study_os_agent_gateway.Task.History.{
  updated, created, start, one_active_task, Reach-IsConsistent, memory_agrees_with_disk, next,
  Reach,
}
use study_os_agent_gateway.Task.Store.{same_identity, Store, compare_and_set, Env, create}
use study_os_agent_gateway.Task.Failure.{
  category_eq, retry_mode_eq, Category, timeout_summary, continue_session, Failure,
}
use study_os_agent_gateway.Task.Transition.{transition}
use study_os_agent_gateway.Task.State.{
  state_eq, interrupted, is_active, recovering, delivering, running, State, timed_out, starting,
}
use study_os_agent_gateway.Task.Record.{
  gateway_restart, cause_eq, source_kind_eq, intent_eq, has_valid_fields, general, is_well_formed,
  mention, has_valid_ids, Task, state_fits_failure,
}
use Prim.Native.String.{count}

abbrev tally : ℕ → String
tally zero = String.[]
tally (suc t) = String.◌∷◌ "x" (tally t)

unfoldable pub toy : Stdlib
unfolding is_hex_of_length
toy = record {
  uuid_hex = λ v. if is_hex_of_length 32 v then some v else none;
  uuid_str = λ v. if is_hex_of_length 32 v then some v else none;
  fromisoformat = λ v. some (aware (count v));
  isoformat = tally;
  replace_zulu = λ v. v;
  is_blank = λ v. count v == 0;
  str_int = tally;
  url_has_extra = λ v. false;
}

abbrev pub first_id : String
first_id = "0123456789abcdef0123456789abcdef"

abbrev pub first : Task
first = record {
  task_id = first_id;
  revision = 0;
  owner_id = 1;
  guild_id = 2;
  origin_channel_id = 3;
  execution_channel_id = 4;
  trigger_event_id = 5;
  source_message_id = none;
  card_message_id = none;
  result_message_id = none;
  source_kind = mention;
  source_label = "please";
  created_at = "xx";
  updated_at = "xx";
  attempt = 1;
  state = starting;
  failure = none;
  interruption_cause = none;
  continued_from_task_id = none;
  continued_to_task_id = none;
  intent = general;
  source_reference_id = none;
  repository_commit_sha = none;
}

abbrev pub timed_out_failure : Failure
timed_out_failure = record {
  category = Category.timeout;
  summary = timeout_summary;
  retry_mode = continue_session;
}

abbrev pub env : Env
env = record {
  clock = aware 3;
  commit_clock = aware 3;
  replaced = true;
  synced = true;
  synced_again = true;
}

abbrev pub empty : Store
empty = record { tasks = []; document = none }

pub first-is_well_formed : is_well_formed toy first ≡ true
unfolding is_well_formed has_valid_ids has_valid_fields state_fits_failure toy
first-is_well_formed = refl

-- One operation after another: what the runtime makes of a task that times out and is retried.
move : ℕ → State → Option Failure → Store → Store
unfolding compare_and_set transition
move n target failure s =
    (compare_and_set toy env first_id n (λ r. transition toy r target "xxx" failure) s).1

retried : Store
unfolding create move
retried = move 5 delivering none (
    move 4 running none (
      move 3 starting none (
        move 2 recovering none (
          move 1 timed_out (some timed_out_failure)
            (move 0 running none (create toy env first empty).1)))))

abbrev pub retried_task : Task
retried_task = record first {
  revision = 6;
  state = delivering;
  updated_at = "xxx";
  attempt = 2;
  failure = some timed_out_failure;
}

abbrev pub stuck : Store
stuck = record {
  tasks = (first_id, retried_task) ∷ [];
  document = some ((first_id, retried_task) ∷ []);
}

-- The task delivers its result with the failure of its first attempt.
retried-eq : retried ≡ stuck
unfolding retried Dict.get toy Dict.set is_well_formed has_valid_ids has_valid_fields
    state_fits_failure same_identity
retried-eq = refl

stuck-found : Dict.get stuck.tasks first_id ≡ some retried_task
unfolding Dict.get
stuck-found = refl

move-Reach :
    (n : ℕ) (target : State) (failure : Option Failure) {s : Store}
    → Reach toy s
    → Reach toy (move n target failure s)
unfolding move
move-Reach n target failure {s} r =
    next r (updated s env first_id n (λ q. transition toy q target "xxx" failure))

retried-Reach : Reach toy retried
unfolding retried
retried-Reach = move-Reach 5 delivering none (
    move-Reach 4 running none (
      move-Reach 3 starting none (
        move-Reach 2 recovering none (
          move-Reach 1 timed_out (some timed_out_failure) (
            move-Reach 0 running none
              (next start (created empty env first first-is_well_formed)))))))

stuck-Reach : Reach toy stuck
stuck-Reach = rw retried-eq at retried-Reach

one_active_task_example : first_id ≡ first_id
unfolding is_active
one_active_task_example =
    one_active_task first_id first_id retried_task retried_task stuck-Reach stuck-found stuck-found
      refl refl refl

memory_agrees_with_disk_example :
    (Dict.get (on_disk stuck.document) first_id ≡ some retried_task)
    × (retried_task.task_id ≡ first_id)
    × (is_well_formed toy retried_task ≡ true)
memory_agrees_with_disk_example =
    memory_agrees_with_disk first_id retried_task stuck-Reach stuck-found

reconcile_startup-stuck_example : (e : Error) × (reconcile_startup toy env stuck ≡ (raise e, stuck))
reconcile_startup-stuck_example =
    reconcile_startup-stuck toy env stuck first_id retried_task timed_out_failure
      (Reach-IsConsistent stuck-Reach).sound stuck-found refl refl refl

-- The first task before its first transition, and the store that a restart then leaves.
abbrev pub running_store : Store
running_store = record { tasks = (first_id, first) ∷ []; document = some ((first_id, first) ∷ []) }

created-eq : (create toy env first empty).1 ≡ running_store
unfolding create Dict.get toy Dict.set is_well_formed has_valid_ids has_valid_fields
    state_fits_failure same_identity
created-eq = refl

pub running_store-IsConsistent : IsConsistent toy running_store
running_store-IsConsistent =
    Reach-IsConsistent
      (rw created-eq at (next start (created empty env first first-is_well_formed)))

abbrev interrupted_task : Task
interrupted_task = record first {
  revision = 1;
  state = interrupted;
  updated_at = "xxx";
  interruption_cause = some gateway_restart;
}

restarted-eq : reconcile_startup toy env running_store ≡ (
  ok (interrupted_task ∷ []),
  record {
    tasks = (first_id, interrupted_task) ∷ [];
    document = some ((first_id, interrupted_task) ∷ []);
  },
)
unfolding reconcile_startup is_well_formed has_valid_ids toy has_valid_fields state_fits_failure
    same_identity Dict.set Dict.get
restarted-eq = refl

interrupted-found :
    Dict.get (reconcile_startup toy env running_store).1.tasks first_id ≡ some interrupted_task
unfolding Dict.get
interrupted-found = rw restarted-eq refl

reconcile_startup-idle_example : is_active interrupted ≡ false
reconcile_startup-idle_example =
    reconcile_startup-idle toy env running_store first_id interrupted_task
      running_store-IsConsistent (ap (λ (m : Result (List Task) × Store). m.0) restarted-eq)
      interrupted-found

-- The owner of the first task stops it from its own channel.
abbrev pub owner_access : Access
owner_access = record {
  actor_id = 1;
  guild_id = 2;
  channel_id = 4;
  visible_channel_ids = 3 ∷ 4 ∷ [];
  manageable_channel_ids = [];
}

authorize-first : authorize first stop owner_access ≡ ok tt
unfolding authorize
authorize-first = refl

authorize-Rights_example :
    (first.guild_id ≡ owner_access.guild_id)
    × (channels_are_visible first owner_access ≡ true)
    × ((owner_access.channel_id ≡ first.origin_channel_id)
        ⊎ (owner_access.channel_id ≡ first.execution_channel_id))
    × Rights stop first owner_access
authorize-Rights_example = authorize-Rights first stop owner_access authorize-first

-- The agent starts to run: a compare-and-set at revision 0.
abbrev pub running_task : Task
running_task = record first { revision = 1; state = running; updated_at = "xxx" }

started-eq :
    (compare_and_set toy env first_id 0 (λ r. transition toy r running "xxx" none) running_store).0
    ≡ ok running_task
unfolding compare_and_set transition is_well_formed has_valid_ids toy has_valid_fields
    state_fits_failure same_identity Dict.set Dict.get
started-eq = refl

compare_and_set-Replaces_example : Replaces running_store.tasks 0 running_task
compare_and_set-Replaces_example =
    compare_and_set-Replaces toy env first_id 0 (λ r. transition toy r running "xxx" none)
      running_store running_task started-eq

-- A full memory of one claim.
abbrev pub one_claim : BoundedClaims
one_claim = record { maximum = 1; claims = (7, "first") ∷ [] }

claim-IsBounded_example :
    (length (claim one_claim 8 "second").1.claims ≤ 1)
    × (length (remember one_claim 8 "second").claims ≤ 1)
claim-IsBounded_example = claim-IsBounded one_claim 8 "second" (omega arith)

claim-full :
    claim one_claim 8 "second" ≡ (none, record { maximum = 1; claims = (8, "second") ∷ [] })
unfolding claim Dict.get Dict.set
claim-full = refl
