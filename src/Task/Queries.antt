-- ===== src/Task/Queries.antt =====
-- What is read off the tasks: discord_task_queries.py, class `DiscordTaskQueries`.
pub mod Listing
use study_os_agent_gateway.Common.{
  ℕ, String, Bool, false, not, ◌&&◌, ◌||◌, Option, none, some, List, [], ◌∷◌, map, ltb,
  if◌then◌else◌, is_some, string_eq, bool_eq, nat_eq, ◌==◌, option_eq, list_eq, take, filter, find,
  member, text_leb, Result, raise_if, ◌>>=◌, ◌>>◌, value_error, action_unavailable, cancelled, ok,
  raise, Datetime, Stdlib, aware,
}
use study_os_agent_gateway.Common.Dict.{Dict}
use study_os_agent_gateway.Common.Dict
use study_os_agent_gateway.Task.Store.{get_task}
use study_os_agent_gateway.Task.Failure.{
  other, retry_mode_eq, continue_session, category_eq, Failure,
}
use study_os_agent_gateway.Task.State.{
  completed, is_active, state_eq, interrupted, timed_out, failed,
}
use study_os_agent_gateway.Task.Record.{source_kind_eq, continuation, intent_eq, cause_eq, Task}
use study_os_agent_gateway.Task.Request.{Request}
use study_os_agent_gateway.Task.Access.{view, channels_are_visible, Access, authorize}

-- `AgentChannelCapabilities`
pub record Capabilities : Type 0 where
  pub steering : Bool
  pub resumable : Bool
  pub persisted_session : Bool
  pub active_turn : Bool

abbrev pub no_capabilities : Capabilities
no_capabilities = record {
  steering = false;
  resumable = false;
  persisted_session = false;
  active_turn = false;
}

-- `_capabilities`: an exception of the agent gives none, and a cancellation passes.
abbrev pub known_capabilities : Result Capabilities → Result Capabilities
known_capabilities (ok c) = ok c
known_capabilities (raise cancelled) = raise cancelled
known_capabilities (raise e) = ok no_capabilities

unfoldable pub idle_saved_session : Capabilities → Bool
idle_saved_session c = c.resumable && c.persisted_session && not c.active_turn

pub record ControlState : Type 0 where
  pub steering : Bool
  pub resumable : Bool
  pub continuable : Bool

-- `_visible`, `_in_scope` and `_in_state`.
unfoldable pub is_visible : Task → Access → Bool
unfolding channels_are_visible
is_visible r a = (r.guild_id == a.guild_id) && channels_are_visible r a

unfoldable pub in_scope : Task → Access → String → ℕ → Bool
in_scope r a scope current =
    if scope == "mine"
    then r.owner_id == a.actor_id
    else (current == a.channel_id) && (r.execution_channel_id == current)

unfoldable pub in_state : Task → String → Bool
unfolding is_active
in_state r state =
    (state == "all")
    || ((state == "active") && is_active r.state)
    || ((state == "terminal") && not (is_active r.state))

-- `state in ACTIVE_STATES` of the channel's task, if it has one.
unfoldable pub active_task : Dict String Task → ℕ → Option Task
unfolding is_active
active_task tasks channel =
    find (λ (r : Task). (r.execution_channel_id == channel) && is_active r.state)
      (Dict.values tasks)

-- A key of `_created_order`: the instant of creation, then the identifier.
abbrev pub Created : Type 0
Created = ℕ × String

abbrev pub created_leb : Created → Created → Bool
created_leb (t, i) (u, j) = ltb t u || ((t == u) && text_leb i j)

-- `sorted(..., reverse=True)`: the latest first, and equal keys in their order.
abbrev pub insert_latest : Created × Task → List (Created × Task) → List (Created × Task)
insert_latest (k, r) [] = (k, r) ∷ []
insert_latest (k, r) ((j, q) ∷ rest) =
    if created_leb j k then (k, r) ∷ (j, q) ∷ rest else (j, q) ∷ insert_latest (k, r) rest

unfoldable pub latest_first : List (Created × Task) → List (Created × Task)
latest_first [] = []
latest_first (x ∷ xs) = insert_latest x (latest_first xs)

-- `max(..., key=_created_order, default=None)`: the first of the greatest.
abbrev pub later_of : Created × Task → Option (Created × Task) → Option (Created × Task)
later_of (k, r) none = some (k, r)
later_of (k, r) (some (j, q)) = if created_leb j k then some (k, r) else some (j, q)

unfoldable pub latest : List (Created × Task) → Option (Created × Task)
latest [] = none
latest (x ∷ xs) = later_of x (latest xs)

module _ (lib : Stdlib) where
  unfoldable pub status : Dict String Task → String → Access → Result Task
  unfolding get_task authorize
  status tasks task_id access = do r ← get_task lib tasks task_id; authorize r view access; ok r

  -- `_created_order`. The constructor refuses a time of creation without a timezone.
  abbrev pub created_key : String → Option Datetime → Result Created
  created_key id (some (aware t)) = ok (t, id)
  created_key id o = raise value_error

  unfoldable pub created_order : Task → Result Created
  created_order r = created_key r.task_id (lib.fromisoformat r.created_at)

  -- The records with their keys.
  unfoldable pub with_keys : List Task → Result (List (Created × Task))
  unfolding created_order
  with_keys [] = ok []
  with_keys (r ∷ rs) = do k ← created_order r; rest ← with_keys rs; ok ((k, r) ∷ rest)

  abbrev pub is_listed : Access → String → String → ℕ → Task → Bool
  is_listed access scope state current r =
      is_visible r access && in_scope r access scope current && in_state r state

  unfoldable pub list_tasks :
      Dict String Task → Access → (scope state : String) → ℕ → Result (List Task)
  unfolding is_visible in_scope in_state with_keys latest_first
  list_tasks tasks access scope state current = do
    raise_if
        (not (
          member scope ("mine" ∷ "channel" ∷ [])
          && member state ("all" ∷ "active" ∷ "terminal" ∷ [])))
        value_error
    keyed ← with_keys (filter (is_listed access scope state current) (Dict.values tasks))
    ok (take 10 (map (λ (x : Created × Task). x.1) (latest_first keyed)))

  -- `latest is not None and ...`, of the latest task of the channel.
  abbrev pub is_latest : Task → Option (Created × Task) → Bool
  is_latest r none = false
  is_latest r (some (k, q)) =
      (q.task_id == r.task_id) && (r.state == completed) && not (is_some r.continued_to_task_id)

  unfoldable pub can_continue : Dict String Task → Task → Result Bool
  unfolding with_keys latest
  can_continue tasks r = do
    keyed ← with_keys (
        filter (λ (q : Task). q.execution_channel_id == r.execution_channel_id) (Dict.values tasks))
    ok (is_latest r (latest keyed))

  unfoldable pub validate_continuation : Dict String Task → Task → Request → Result (Unit {0})
  unfolding can_continue
  validate_continuation tasks parent request = do
    raise_if (not (request.source_kind == continuation)) action_unavailable
    raise_if
        (not (
          (request.owner_id == parent.owner_id)
          && (request.guild_id == parent.guild_id)
          && (request.origin_channel_id == parent.origin_channel_id)
          && (request.execution_channel_id == parent.execution_channel_id)))
        action_unavailable
    open_end ← can_continue tasks parent
    raise_if (not open_end) action_unavailable

-- `validate_session_retry`
abbrev pub is_session_failure : Option Failure → Bool
is_session_failure none = false
is_session_failure (some f) = f.retry_mode == continue_session

unfoldable pub validate_session_retry : Task → Result (Unit {0})
validate_session_retry r =
    raise_if
      (not (
        is_session_failure r.failure
        && ((r.state == failed) || (r.state == timed_out) || (r.state == interrupted))))
      action_unavailable
