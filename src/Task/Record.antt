-- ===== src/Task/Record.antt =====
-- A Discord task: discord_task_model.py, `DiscordTaskRecord` with the checks of its constructor.
-- Identifiers and counters are natural numbers: Python's negative integers fail the same checks
-- as zero does and are not represented.
use study_os_agent_gateway.Common.{
  ℕ, String, ◌≡◌, refl, Bool, true, false, not, ◌&&◌, ◌||◌, Option, none, some, [], ◌∷◌,
  if◌then◌else◌, is_some, Eq, enum_eq, string_eq, bool_eq, nat_eq, ◌==◌, option_eq, list_eq, nth,
  is_hex_of_length, optional, is_positive, is_bounded, Result, value_error, ok, raise, Stdlib,
  naive, aware,
}
use study_os_agent_gateway.Task.State.{
  State, state_eq, completed, stopped, delivery_failed, is_failure,
}
use study_os_agent_gateway.Task.Failure.{
  category_eq, retry_mode_eq, Failure, retry_delivery, no_retry, discord_delivery,
}

pub data SourceKind : Type 0 where
  mention slash context_action continuation : SourceKind

pub data Intent : Type 0 where
  general review security_review vulnerability_scan implementation : Intent

pub data InterruptionCause : Type 0 where
  user_stop timeout runtime_exit gateway_restart : InterruptionCause

abbrev pub source_kind_tag : SourceKind → ℕ
source_kind_tag mention = 0
source_kind_tag slash = 1
source_kind_tag context_action = 2
source_kind_tag continuation = 3

abbrev pub source_kind_of : ℕ → SourceKind
source_kind_of n = nth mention n (mention ∷ slash ∷ context_action ∷ continuation ∷ [])

pub source_kind_of-source_kind_tag : (k : SourceKind) → source_kind_of (source_kind_tag k) ≡ k
source_kind_of-source_kind_tag mention = refl
source_kind_of-source_kind_tag k = refl

instance abbrev pub source_kind_eq : Eq SourceKind
source_kind_eq = enum_eq source_kind_tag source_kind_of source_kind_of-source_kind_tag

abbrev pub intent_tag : Intent → ℕ
intent_tag general = 0
intent_tag review = 1
intent_tag security_review = 2
intent_tag vulnerability_scan = 3
intent_tag implementation = 4

abbrev pub intent_of : ℕ → Intent
intent_of n =
    nth general n (general ∷ review ∷ security_review ∷ vulnerability_scan ∷ implementation ∷ [])

pub intent_of-intent_tag : (i : Intent) → intent_of (intent_tag i) ≡ i
intent_of-intent_tag general = refl
intent_of-intent_tag i = refl

instance abbrev pub intent_eq : Eq Intent
intent_eq = enum_eq intent_tag intent_of intent_of-intent_tag

abbrev pub cause_tag : InterruptionCause → ℕ
cause_tag user_stop = 0
cause_tag timeout = 1
cause_tag runtime_exit = 2
cause_tag gateway_restart = 3

abbrev pub cause_of : ℕ → InterruptionCause
cause_of n = nth user_stop n (user_stop ∷ timeout ∷ runtime_exit ∷ gateway_restart ∷ [])

pub cause_of-cause_tag : (c : InterruptionCause) → cause_of (cause_tag c) ≡ c
cause_of-cause_tag user_stop = refl
cause_of-cause_tag c = refl

instance abbrev pub cause_eq : Eq InterruptionCause
cause_eq = enum_eq cause_tag cause_of cause_of-cause_tag

pub record Task : Type 0 where
  pub task_id : String
  pub revision : ℕ
  pub owner_id : ℕ
  pub guild_id : ℕ
  pub origin_channel_id : ℕ
  pub execution_channel_id : ℕ
  pub trigger_event_id : ℕ
  pub source_message_id : Option ℕ
  pub card_message_id : Option ℕ
  pub result_message_id : Option ℕ
  pub source_kind : SourceKind
  pub source_label : String
  pub created_at : String
  pub updated_at : String
  pub attempt : ℕ
  pub state : State
  pub failure : Option Failure
  pub interruption_cause : Option InterruptionCause
  pub continued_from_task_id : Option String
  pub continued_to_task_id : Option String
  pub intent : Intent
  pub source_reference_id : Option String
  pub repository_commit_sha : Option String

-- `_validate_delivery_failure`.
unfoldable pub is_delivery_failure : Option Failure → Bool
is_delivery_failure none = false
is_delivery_failure (some f) =
    (f.category == discord_delivery)
    && ((f.retry_mode == retry_delivery) || (f.retry_mode == no_retry))

-- `failure.category is DISCORD_DELIVERY or failure.retry_mode is RETRY_DELIVERY`, if there is one.
unfoldable pub has_delivery_metadata : Option Failure → Bool
has_delivery_metadata none = false
has_delivery_metadata (some f) =
    (f.category == discord_delivery) || (f.retry_mode == retry_delivery)

-- The checks of `__post_init__` that join the state and the failure.
unfoldable pub state_fits_failure : State → Option Failure → Bool
unfolding is_failure is_delivery_failure has_delivery_metadata
state_fits_failure state failure =
    not (is_failure state && not (is_some failure))
    && not (((state == completed) || (state == stopped)) && is_some failure)
    && (not (state == delivery_failed) || is_delivery_failure failure)
    && not (has_delivery_metadata failure && not (state == delivery_failed))

module _ (lib : Stdlib) where
  -- `_validate_uuid` and `_validate_timestamp`.
  unfoldable pub is_uuid : String → Bool
  is_uuid value = is_some (lib.uuid_hex value)

  unfoldable pub is_aware_timestamp : String → Bool
  is_aware_timestamp value = elim (lib.fromisoformat value) [
    | none ↦ false
    | some (naive t) ↦ false
    | some (aware t) ↦ true
  ]

  -- The checks of `__post_init__` on the identifiers and the two links.
  unfoldable pub has_valid_ids : Task → Bool
  unfolding is_uuid
  has_valid_ids r =
      is_uuid r.task_id
      && optional is_uuid r.continued_from_task_id
      && optional is_uuid r.continued_to_task_id
      && not (
          (r.continued_from_task_id == some r.task_id)
          || (r.continued_to_task_id == some r.task_id))

  -- The checks on the remaining fields but for state and failure.
  unfoldable pub has_valid_fields : Task → Bool
  unfolding is_aware_timestamp is_bounded is_hex_of_length
  has_valid_fields r =
      optional (is_hex_of_length 32) r.source_reference_id
      && optional (is_hex_of_length 40) r.repository_commit_sha
      && is_positive r.attempt
      && is_bounded r.source_label 200
      && is_positive r.owner_id
      && is_positive r.guild_id
      && is_positive r.origin_channel_id
      && is_positive r.execution_channel_id
      && is_positive r.trigger_event_id
      && optional is_positive r.source_message_id
      && optional is_positive r.card_message_id
      && optional is_positive r.result_message_id
      && is_aware_timestamp r.created_at
      && is_aware_timestamp r.updated_at

  unfoldable pub is_well_formed : Task → Bool
  is_well_formed r = has_valid_ids r && has_valid_fields r && state_fits_failure r.state r.failure

  -- The constructor, and `dataclasses.replace`, which calls it: every check raises `ValueError`.
  unfoldable pub checked : Task → Result Task
  checked r = if is_well_formed r then ok r else raise value_error
