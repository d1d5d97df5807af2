-- ===== src/Task/Failure.antt =====
-- Why a task failed and how it may be retried: discord_task_model.py, the enumerations and
-- `DiscordTaskFailure`; discord_task_failures.py, the classification of errors.
use study_os_agent_gateway.Common.{
  ℕ, String, ◌≡◌, refl, Bool, true, false, not, ◌&&◌, [], ◌∷◌, if◌then◌else◌, Eq, enum_eq, nth,
  is_bounded, Result, value_error, ok, raise,
}
use study_os_agent_gateway.Task.State.{state_eq}

pub data Category : Type 0 where
  timeout runtime_disconnected agent_process_failed invalid_agent_output : Category
  runtime_incompatible configuration workspace_or_attachment discord_delivery : Category
  internal : Category

pub data RetryMode : Type 0 where
  continue_session retry_delivery no_retry : RetryMode

abbrev pub category_tag : Category → ℕ
category_tag timeout = 0
category_tag runtime_disconnected = 1
category_tag agent_process_failed = 2
category_tag invalid_agent_output = 3
category_tag runtime_incompatible = 4
category_tag configuration = 5
category_tag workspace_or_attachment = 6
category_tag discord_delivery = 7
category_tag internal = 8

abbrev pub category_of : ℕ → Category
category_of n = nth timeout n (
    timeout ∷ runtime_disconnected ∷ agent_process_failed ∷ invalid_agent_output
    ∷ runtime_incompatible ∷ configuration ∷ workspace_or_attachment ∷ discord_delivery ∷ internal
    ∷ [])

pub category_of-category_tag : (c : Category) → category_of (category_tag c) ≡ c
category_of-category_tag timeout = refl
category_of-category_tag c = refl

instance abbrev pub category_eq : Eq Category
category_eq = enum_eq category_tag category_of category_of-category_tag

abbrev pub retry_mode_tag : RetryMode → ℕ
retry_mode_tag continue_session = 0
retry_mode_tag retry_delivery = 1
retry_mode_tag no_retry = 2

abbrev pub retry_mode_of : ℕ → RetryMode
retry_mode_of n = nth no_retry n (continue_session ∷ retry_delivery ∷ no_retry ∷ [])

pub retry_mode_of-retry_mode_tag : (m : RetryMode) → retry_mode_of (retry_mode_tag m) ≡ m
retry_mode_of-retry_mode_tag continue_session = refl
retry_mode_of-retry_mode_tag m = refl

instance abbrev pub retry_mode_eq : Eq RetryMode
retry_mode_eq = enum_eq retry_mode_tag retry_mode_of retry_mode_of-retry_mode_tag

pub record Failure : Type 0 where
  pub category : Category
  pub summary : String
  pub retry_mode : RetryMode

-- `DiscordTaskFailure.__post_init__`.
unfoldable pub checked_failure : Failure → Result Failure
checked_failure f = if is_bounded f.summary 500 then ok f else raise value_error

abbrev pub is_well_formed_failure : Failure → Bool
is_well_formed_failure f = is_bounded f.summary 500

-- The summaries of discord_task_failures.py.
abbrev pub timeout_summary : String
timeout_summary = "The agent timed out. Partial work and the agent session were kept."

abbrev pub disconnected_summary : String
disconnected_summary = "Codex app server disconnected. The session and worktree were kept."

abbrev pub no_session_summary : String
no_session_summary = "The agent session was not saved, so recovery is unavailable."

abbrev pub active_turn_summary : String
active_turn_summary = "An agent turn may still be active, so recovery is unavailable yet."

abbrev pub incompatible_summary : String
incompatible_summary = "The configured Codex app server is incompatible."

abbrev pub process_summary : String
process_summary = "The agent process exited before returning a result."

abbrev pub invalid_output_summary : String
invalid_output_summary = "The agent returned an invalid result."

abbrev pub configuration_summary : String
configuration_summary = "The gateway configuration is incomplete."

abbrev pub workspace_summary : String
workspace_summary = "The workspace or attachment could not be prepared safely."

abbrev pub internal_summary : String
internal_summary = "The task failed safely. Check the task ID with an administrator."

abbrev pub retry_delivery_summary : String
retry_delivery_summary = "Discord could not deliver the result. It is safe to retry delivery."

abbrev pub ambiguous_delivery_summary : String
ambiguous_delivery_summary =
    "Discord delivery may have succeeded. Check the channel before trying again."

-- The exception classes of agent_errors.py that the classification tells apart.
pub data AgentError : Type 0 where
  turn_timed_out runtime_disconnected runtime_incompatible process_failed : AgentError
  invalid_output configuration_error workspace_or_attachment_error other : AgentError

unfoldable pub resumable_failure : Category → String → Bool → Bool → Failure
resumable_failure category summary persisted_session active_turn =
    if persisted_session && not active_turn
    then record { category = category; summary = summary; retry_mode = continue_session }
    else if active_turn
    then record { category = category; summary = active_turn_summary; retry_mode = no_retry }
    else record { category = category; summary = no_session_summary; retry_mode = no_retry }

unfoldable pub plain_failure : Category → String → Failure
plain_failure category summary = record {
  category = category;
  summary = summary;
  retry_mode = no_retry;
}

unfoldable pub classify_agent_failure : AgentError → Bool → Bool → Failure
unfolding resumable_failure plain_failure
classify_agent_failure AgentError.turn_timed_out persisted active =
    resumable_failure timeout timeout_summary persisted active
classify_agent_failure AgentError.runtime_disconnected persisted active =
    resumable_failure Category.runtime_disconnected disconnected_summary persisted active
classify_agent_failure AgentError.runtime_incompatible persisted active =
    plain_failure Category.runtime_incompatible incompatible_summary
classify_agent_failure AgentError.process_failed persisted active =
    plain_failure agent_process_failed process_summary
classify_agent_failure AgentError.invalid_output persisted active =
    plain_failure invalid_agent_output invalid_output_summary
classify_agent_failure AgentError.configuration_error persisted active =
    plain_failure configuration configuration_summary
classify_agent_failure AgentError.workspace_or_attachment_error persisted active =
    plain_failure workspace_or_attachment workspace_summary
classify_agent_failure AgentError.other persisted active = plain_failure internal internal_summary

unfoldable pub classify_delivery_failure : Bool → Failure
classify_delivery_failure true = record {
  category = discord_delivery;
  summary = retry_delivery_summary;
  retry_mode = retry_delivery;
}
classify_delivery_failure false = record {
  category = discord_delivery;
  summary = ambiguous_delivery_summary;
  retry_mode = no_retry;
}
