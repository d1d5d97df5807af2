-- ===== src/Task/Document.antt =====
-- The document of the task store: discord_task_serialization.py. `json.loads` gives a value or none
-- where the text is not JSON.
pub mod RoundTrip
pub mod Loaded
use study_os_agent_gateway.Common.{
  ℕ, String, not, Option, none, List, [], ◌∷◌, ◌++◌, if◌then◌else◌, string_eq, bool_eq, nat_eq,
  ◌==◌, option_eq, list_eq, member, Result, raise_if, or_raise, ◌>>=◌, ◌>>◌, value_error, ok,
  Stdlib,
}
use study_os_agent_gateway.Common.Json.{
  Json, integer, text, dict, maybe, read_object, read_integer, read_text, at_key, has_keys, text_at,
  integer_at, optional_at, read_enum, encode_values,
}
use study_os_agent_gateway.Common.Dict.{Dict}
use study_os_agent_gateway.Task.Store.{commit}
use study_os_agent_gateway.Task.Failure.{
  checked_failure, retry_mode_eq, Category, Failure, agent_process_failed, internal, no_retry,
  invalid_agent_output, workspace_or_attachment, RetryMode, discord_delivery, continue_session,
  retry_delivery, configuration, category_eq,
}
use study_os_agent_gateway.Task.State.{
  State, starting, failed, stopping, delivery_failed, state_eq, running, recovering, stopped,
  interrupted, completed, timed_out, delivering,
}
use study_os_agent_gateway.Task.Record.{
  mention, runtime_exit, source_kind_eq, SourceKind, cause_eq, continuation, intent_eq, review,
  checked, vulnerability_scan, context_action, security_review, slash, InterruptionCause, general,
  Task, user_stop, implementation, gateway_restart, Intent, is_aware_timestamp,
}
use study_os_agent_gateway.Task.Retention.{updated_at}
use study_os_agent_gateway.Common.Dict

-- The values of the enumerations of discord_task_model.py, and their members.
abbrev pub state_value : State → String
state_value starting = "starting"
state_value recovering = "recovering"
state_value running = "running"
state_value stopping = "stopping"
state_value delivering = "delivering"
state_value completed = "completed"
state_value delivery_failed = "delivery_failed"
state_value failed = "failed"
state_value timed_out = "timed_out"
state_value stopped = "stopped"
state_value interrupted = "interrupted"

abbrev pub all_states : List State
all_states =
    starting ∷ recovering ∷ running ∷ stopping ∷ delivering ∷ completed ∷ delivery_failed ∷ failed
    ∷ timed_out ∷ stopped ∷ interrupted ∷ []

abbrev pub source_kind_value : SourceKind → String
source_kind_value mention = "mention"
source_kind_value slash = "slash"
source_kind_value context_action = "context_action"
source_kind_value continuation = "continuation"

abbrev pub all_source_kinds : List SourceKind
all_source_kinds = mention ∷ slash ∷ context_action ∷ continuation ∷ []

abbrev pub intent_value : Intent → String
intent_value general = "general"
intent_value review = "review"
intent_value security_review = "security_review"
intent_value vulnerability_scan = "vulnerability_scan"
intent_value implementation = "implementation"

abbrev pub all_intents : List Intent
all_intents = general ∷ review ∷ security_review ∷ vulnerability_scan ∷ implementation ∷ []

abbrev pub cause_value : InterruptionCause → String
cause_value user_stop = "user_stop"
cause_value InterruptionCause.timeout = "timeout"
cause_value runtime_exit = "runtime_exit"
cause_value gateway_restart = "gateway_restart"

abbrev pub all_causes : List InterruptionCause
all_causes = user_stop ∷ InterruptionCause.timeout ∷ runtime_exit ∷ gateway_restart ∷ []

abbrev pub category_value : Category → String
category_value Category.timeout = "timeout"
category_value Category.runtime_disconnected = "runtime_disconnected"
category_value agent_process_failed = "agent_process_failed"
category_value invalid_agent_output = "invalid_agent_output"
category_value Category.runtime_incompatible = "runtime_incompatible"
category_value configuration = "configuration"
category_value workspace_or_attachment = "workspace_or_attachment"
category_value discord_delivery = "discord_delivery"
category_value internal = "internal"

abbrev pub all_categories : List Category
all_categories =
    Category.timeout ∷ Category.runtime_disconnected ∷ agent_process_failed ∷ invalid_agent_output
    ∷ Category.runtime_incompatible ∷ configuration ∷ workspace_or_attachment ∷ discord_delivery
    ∷ internal ∷ []

abbrev pub retry_mode_value : RetryMode → String
retry_mode_value continue_session = "continue_session"
retry_mode_value retry_delivery = "retry_delivery"
retry_mode_value no_retry = "none"

abbrev pub all_retry_modes : List RetryMode
all_retry_modes = continue_session ∷ retry_delivery ∷ no_retry ∷ []

abbrev pub encode_failure : Failure → Json
encode_failure f = dict (
    ("category", text (category_value f.category))
    ∷ ("summary", text f.summary)
    ∷ ("retry_mode", text (retry_mode_value f.retry_mode))
    ∷ [])

-- `_encode_record`
unfoldable pub encode_record : Task → Json
encode_record r = dict (
    ("task_id", text r.task_id)
    ∷ ("revision", integer r.revision)
    ∷ ("owner_id", integer r.owner_id)
    ∷ ("guild_id", integer r.guild_id)
    ∷ ("origin_channel_id", integer r.origin_channel_id)
    ∷ ("execution_channel_id", integer r.execution_channel_id)
    ∷ ("trigger_event_id", integer r.trigger_event_id)
    ∷ ("source_message_id", maybe integer r.source_message_id)
    ∷ ("card_message_id", maybe integer r.card_message_id)
    ∷ ("result_message_id", maybe integer r.result_message_id)
    ∷ ("source_kind", text (source_kind_value r.source_kind))
    ∷ ("source_label", text r.source_label)
    ∷ ("created_at", text r.created_at)
    ∷ ("updated_at", text r.updated_at)
    ∷ ("attempt", integer r.attempt)
    ∷ ("state", text (state_value r.state))
    ∷ ("failure", maybe encode_failure r.failure)
    ∷ ("interruption_cause", maybe (λ c. text (cause_value c)) r.interruption_cause)
    ∷ ("continued_from_task_id", maybe text r.continued_from_task_id)
    ∷ ("continued_to_task_id", maybe text r.continued_to_task_id)
    ∷ ("intent", text (intent_value r.intent))
    ∷ ("source_reference_id", maybe text r.source_reference_id)
    ∷ ("repository_commit_sha", maybe text r.repository_commit_sha)
    ∷ [])

-- `encode_document`, up to `json.dumps`.
unfoldable pub encode_document : Dict String Task → Json
unfolding encode_record
encode_document tasks =
    dict (("version", integer 2) ∷ ("tasks", dict (encode_values encode_record tasks)) ∷ [])

-- `_V1_RECORD_KEYS` and `_RECORD_KEYS`.
abbrev pub v1_record_keys : List String
v1_record_keys =
    "task_id" ∷ "revision" ∷ "owner_id" ∷ "guild_id" ∷ "origin_channel_id" ∷ "execution_channel_id"
    ∷ "trigger_event_id" ∷ "source_message_id" ∷ "card_message_id" ∷ "result_message_id"
    ∷ "source_kind" ∷ "source_label" ∷ "created_at" ∷ "updated_at" ∷ "attempt" ∷ "state" ∷ "failure"
    ∷ "interruption_cause" ∷ "continued_from_task_id" ∷ "continued_to_task_id" ∷ []

abbrev pub record_keys : List String
record_keys = v1_record_keys ++ "intent" ∷ "source_reference_id" ∷ "repository_commit_sha" ∷ []

-- `_decode_failure`
unfoldable pub decode_failure : Json → Result Failure
unfolding checked_failure
decode_failure j = do
  fields ← read_object j
  raise_if (not (has_keys ("category" ∷ "summary" ∷ "retry_mode" ∷ []) fields)) value_error
  category ← at_key fields "category" >>= read_enum category_value all_categories
  summary ← at_key fields "summary" >>= read_text
  retry_mode ← at_key fields "retry_mode" >>= read_enum retry_mode_value all_retry_modes
  checked_failure (record { category = category; summary = summary; retry_mode = retry_mode })

module _ (lib : Stdlib) where
  -- `_timestamp`
  unfoldable pub read_timestamp : Json → Result String
  unfolding is_aware_timestamp
  read_timestamp j = do
    stamp ← read_text j
    raise_if (not (is_aware_timestamp lib stamp)) value_error
    ok stamp

  -- `_decode_record`; the fields that version 1 does not have.
  abbrev pub later_fields : ℕ → Dict String Json → Result (Intent × Option String × Option String)
  later_fields version fields = if version == 1 then ok (general, none, none) else do
    intent ← at_key fields "intent" >>= read_enum intent_value all_intents
    reference ← optional_at read_text fields "source_reference_id"
    commit ← optional_at read_text fields "repository_commit_sha"
    ok (intent, reference, commit)

  unfoldable pub decode_fields : ℕ → Dict String Json → Result Task
  unfolding decode_failure read_timestamp
  decode_fields version fields = do
    failure ← optional_at decode_failure fields "failure"
    task_id ← text_at fields "task_id"
    revision ← integer_at fields "revision"
    owner_id ← integer_at fields "owner_id"
    guild_id ← integer_at fields "guild_id"
    origin_channel_id ← integer_at fields "origin_channel_id"
    execution_channel_id ← integer_at fields "execution_channel_id"
    trigger_event_id ← integer_at fields "trigger_event_id"
    source_message_id ← optional_at read_integer fields "source_message_id"
    card_message_id ← optional_at read_integer fields "card_message_id"
    result_message_id ← optional_at read_integer fields "result_message_id"
    source_kind ← at_key fields "source_kind" >>= read_enum source_kind_value all_source_kinds
    source_label ← text_at fields "source_label"
    created_at ← at_key fields "created_at" >>= read_timestamp
    updated_at ← at_key fields "updated_at" >>= read_timestamp
    attempt ← integer_at fields "attempt"
    state ← at_key fields "state" >>= read_enum state_value all_states
    interruption_cause ← optional_at (read_enum cause_value all_causes) fields "interruption_cause"
    continued_from_task_id ← optional_at read_text fields "continued_from_task_id"
    continued_to_task_id ← optional_at read_text fields "continued_to_task_id"
    later ← later_fields version fields
    let (intent, source_reference_id, repository_commit_sha) = later in
        ok (record {
          task_id = task_id;
          revision = revision;
          owner_id = owner_id;
          guild_id = guild_id;
          origin_channel_id = origin_channel_id;
          execution_channel_id = execution_channel_id;
          trigger_event_id = trigger_event_id;
          source_message_id = source_message_id;
          card_message_id = card_message_id;
          result_message_id = result_message_id;
          source_kind = source_kind;
          source_label = source_label;
          created_at = created_at;
          updated_at = updated_at;
          attempt = attempt;
          state = state;
          failure = failure;
          interruption_cause = interruption_cause;
          continued_from_task_id = continued_from_task_id;
          continued_to_task_id = continued_to_task_id;
          intent = intent;
          source_reference_id = source_reference_id;
          repository_commit_sha = repository_commit_sha;
        })

  unfoldable pub decode_record : ℕ → Json → Result Task
  unfolding decode_fields checked
  decode_record version j = do
    fields ← read_object j
    raise_if (not (has_keys (if version == 1 then v1_record_keys else record_keys) fields))
        value_error
    r ← decode_fields version fields
    checked lib r

  -- The loop of `decode_document`.
  unfoldable pub decode_tasks : ℕ → Dict String Json → Dict String Task → Result (Dict String Task)
  unfolding decode_record
  decode_tasks version [] result = ok result
  decode_tasks version ((k, j) ∷ rest) result = do
    r ← decode_record version j
    raise_if (not (r.task_id == k)) value_error
    decode_tasks version rest (Dict.set result k r)

  unfoldable pub decode_document : Option Json → Result (Dict String Task)
  unfolding decode_tasks
  decode_document payload = do
    document ← or_raise payload value_error >>= read_object
    raise_if (not (has_keys ("version" ∷ "tasks" ∷ []) document)) value_error
    version ← integer_at document "version"
    raise_if (not (member version (1 ∷ 2 ∷ []))) value_error
    tasks ← at_key document "tasks" >>= read_object
    decode_tasks version tasks []
