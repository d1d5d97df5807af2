-- ===== src/Task/Request.antt =====
-- What a user asks for: discord_task_request.py, with `new_record` of discord_task_service_state.py and
-- `AgentRunSpec` of discord_task_execution.py. The attachments are files that the request owns until
-- they are cleaned up or a runner has them; their paths and the origin context are left out, since
-- they are only passed on to the agent.
use study_os_agent_gateway.Common.{
  ℕ, String, Bool, true, false, not, ◌&&◌, Option, none, some, leb, if◌then◌else◌, string_eq,
  bool_eq, nat_eq, ◌==◌, option_eq, list_eq, is_hex_of_length, optional, is_positive, Result, ◌>>=◌,
  value_error, ok, raise, Datetime, Stdlib,
}
use study_os_agent_gateway.Task.Store.{timestamp}
use study_os_agent_gateway.Task.Failure.{retry_mode_eq, category_eq}
use study_os_agent_gateway.Task.State.{state_eq, starting}
use study_os_agent_gateway.Task.Record.{
  Intent, checked, source_kind_eq, SourceKind, continuation, intent_eq, cause_eq, Task,
}
use Prim.Native.String.{count}

pub record Request : Type 0 where
  pub source_kind : SourceKind
  pub guild_id : ℕ
  pub origin_channel_id : ℕ
  pub execution_channel_id : ℕ
  pub owner_id : ℕ
  pub trigger_event_id : ℕ
  pub source_message_id : Option ℕ
  pub prompt : String
  pub source_label : String
  pub intent : Intent
  pub source_reference_id : Option String
  pub repository_commit_sha : Option String
  pub task_id : Option String

pub record SteerRequest : Type 0 where
  pub prompt : String
  pub source_message_id : Option ℕ

-- `MAX_TASK_PROMPT_CHARS` and `MAX_TASK_SOURCE_LABEL_CHARS`.
abbrev pub max_task_prompt_chars : ℕ
max_task_prompt_chars = 4000

abbrev pub max_task_source_label_chars : ℕ
max_task_source_label_chars = 200

pub record RunSpec : Type 0 where
  pub prompt : String
  pub source_message_id : Option ℕ
  pub recovering : Bool
  pub create_card : Bool
  pub require_existing_session : Bool

-- `AgentRunSpec.from_request` and `AgentRunSpec.for_recovery`.
unfoldable pub from_request : Request → RunSpec
from_request r = record {
  prompt = r.prompt;
  source_message_id = r.source_message_id;
  recovering = false;
  create_card = true;
  require_existing_session = r.source_kind == continuation;
}

unfoldable pub for_recovery : String → RunSpec
for_recovery prompt = record {
  prompt = prompt;
  source_message_id = none;
  recovering = true;
  create_card = false;
  require_existing_session = true;
}

-- `a or b` of an optional text that is not empty.
abbrev pub or_text : Option String → String → String
or_text (some a) b = if a == "" then b else a
or_text none b = b

-- The fields that a continuation takes from its parent.
abbrev pub parent_id : Option Task → Option String
parent_id none = none
parent_id (some p) = some p.task_id

abbrev pub intent_from : Option Task → Request → Intent
intent_from none r = r.intent
intent_from (some p) r = p.intent

abbrev pub reference_from : Option Task → Request → Option String
reference_from none r = r.source_reference_id
reference_from (some p) r = p.source_reference_id

abbrev pub commit_from : Option Task → Request → Option String
commit_from none r = r.repository_commit_sha
commit_from (some p) r = p.repository_commit_sha

abbrev pub new_record_fields : Request → String → String → Option Task → Task
new_record_fields r task_id stamp parent = record {
  task_id = or_text r.task_id task_id;
  revision = 0;
  owner_id = r.owner_id;
  guild_id = r.guild_id;
  origin_channel_id = r.origin_channel_id;
  execution_channel_id = r.execution_channel_id;
  trigger_event_id = r.trigger_event_id;
  source_message_id = r.source_message_id;
  card_message_id = none;
  result_message_id = none;
  source_kind = r.source_kind;
  source_label = r.source_label;
  created_at = stamp;
  updated_at = stamp;
  attempt = 1;
  state = starting;
  failure = none;
  interruption_cause = none;
  continued_from_task_id = parent_id parent;
  continued_to_task_id = none;
  intent = intent_from parent r;
  source_reference_id = reference_from parent r;
  repository_commit_sha = commit_from parent r;
}

module _ (lib : Stdlib) where
  -- `_bounded_text`
  unfoldable pub is_bounded_text : String → ℕ → Bool
  is_bounded_text value maximum = not (lib.is_blank value) && leb (count value) maximum

  -- `_optional_canonical_uuid`
  abbrev is_canonical_uuid : String → Bool
  is_canonical_uuid value = lib.uuid_str value == some value

  -- The constructors' checks; each raises `ValueError`.
  unfoldable pub is_well_formed_request : Request → Bool
  unfolding is_bounded_text is_hex_of_length
  is_well_formed_request r =
      is_positive r.guild_id
      && is_positive r.origin_channel_id
      && is_positive r.execution_channel_id
      && is_positive r.owner_id
      && is_positive r.trigger_event_id
      && optional is_positive r.source_message_id
      && is_bounded_text r.prompt max_task_prompt_chars
      && is_bounded_text r.source_label max_task_source_label_chars
      && optional (is_hex_of_length 32) r.source_reference_id
      && optional (is_hex_of_length 40) r.repository_commit_sha
      && optional is_canonical_uuid r.task_id

  unfoldable pub checked_request : Request → Result Request
  unfolding is_well_formed_request
  checked_request r = if is_well_formed_request r then ok r else raise value_error

  unfoldable pub checked_steer_request : SteerRequest → Result SteerRequest
  unfolding is_bounded_text
  checked_steer_request r =
      if is_bounded_text r.prompt max_task_prompt_chars && optional is_positive r.source_message_id
      then ok r
      else raise value_error

  unfoldable pub new_record : Request → String → Datetime → Option Task → Result Task
  unfolding timestamp checked
  new_record r task_id now parent = do
    stamp ← timestamp lib now
    checked lib (new_record_fields r task_id stamp parent)
