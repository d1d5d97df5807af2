-- ===== src/Mirror/Record.antt =====
-- A mirror card and the webhook events that change it: github_mirror_model.py, with the checks of
-- the constructors. A check of a field's Python type has no counterpart here. Numbers are natural.
use study_os_agent_gateway.Common.{
  ℕ, ◌^◌, String, ◌≡◌, refl, Bool, true, false, not, ◌&&◌, ◌||◌, Option, none, some, List, [], ◌∷◌,
  map, ltb, leb, if◌then◌else◌, is_some, Eq, enum_eq, string_eq, bool_eq, nat_eq, ◌==◌, option_eq,
  list_eq, length, nth, all, member, all_distinct, codes, is_hex_of_length, optional, is_bounded,
  is_repository, is_login, is_delivery_id, is_card_nonce, Result, value_error, ok, raise, Stdlib,
  naive, aware,
}
use Prim.Native.String.{◌++◌ as str_append}

pub data ItemKind : Type 0 where
  issue pull_request : ItemKind

pub data ItemState : Type 0 where
  open_item draft closed merged : ItemState

pub data MirrorAction : Type 0 where
  review security_review vulnerability_scan work : MirrorAction

abbrev pub item_kind_tag : ItemKind → ℕ
item_kind_tag issue = 0
item_kind_tag pull_request = 1

abbrev pub item_kind_of : ℕ → ItemKind
item_kind_of n = nth issue n (issue ∷ pull_request ∷ [])

pub item_kind_of-item_kind_tag : (k : ItemKind) → item_kind_of (item_kind_tag k) ≡ k
item_kind_of-item_kind_tag issue = refl
item_kind_of-item_kind_tag k = refl

instance abbrev pub item_kind_eq : Eq ItemKind
item_kind_eq = enum_eq item_kind_tag item_kind_of item_kind_of-item_kind_tag

abbrev pub item_state_tag : ItemState → ℕ
item_state_tag open_item = 0
item_state_tag draft = 1
item_state_tag closed = 2
item_state_tag merged = 3

abbrev pub item_state_of : ℕ → ItemState
item_state_of n = nth open_item n (open_item ∷ draft ∷ closed ∷ merged ∷ [])

pub item_state_of-item_state_tag : (s : ItemState) → item_state_of (item_state_tag s) ≡ s
item_state_of-item_state_tag open_item = refl
item_state_of-item_state_tag s = refl

instance abbrev pub item_state_eq : Eq ItemState
item_state_eq = enum_eq item_state_tag item_state_of item_state_of-item_state_tag

-- `MAX_TITLE_LENGTH` and the limits below it.
abbrev pub max_title_length : ℕ
max_title_length = 256

abbrev pub max_activity_length : ℕ
max_activity_length = 160

abbrev pub max_labels : ℕ
max_labels = 12

abbrev pub max_label_length : ℕ
max_label_length = 64

abbrev pub max_recent_deliveries : ℕ
max_recent_deliveries = 64

abbrev pub max_handled_claims : ℕ
max_handled_claims = 64

pub record HandledClaim : Type 0 where
  pub interaction_id : ℕ
  pub action : MirrorAction
  pub task_id : String
  pub succeeded : Bool

pub record PendingAction : Type 0 where
  pub interaction_id : ℕ
  pub action : MirrorAction
  pub task_id : String
  pub claimed_at : String

pub record MirrorEvent : Type 0 where
  pub delivery_id : String
  pub event_name : String
  pub action : String
  pub repository_full_name : String
  pub item_kind : ItemKind
  pub item_number : ℕ
  pub item_url : String
  pub title : String
  pub state : ItemState
  pub author_login : String
  pub labels : List String
  pub base_ref : Option String
  pub head_ref : Option String
  pub base_sha : Option String
  pub head_sha : Option String
  pub activity : String
  pub item_updated_at : String

pub record Mirror : Type 0 where
  pub mirror_id : String
  pub revision : ℕ
  pub guild_id : ℕ
  pub channel_id : ℕ
  pub card_message_id : Option ℕ
  pub card_create_pending : Bool
  pub card_create_nonce : Option String
  pub card_cleanup_nonce : Option String
  pub publication_pending : Bool
  pub thread_id : Option ℕ
  pub repository_full_name : String
  pub item_kind : ItemKind
  pub item_number : ℕ
  pub item_url : String
  pub title : String
  pub state : ItemState
  pub author_login : String
  pub labels : List String
  pub base_ref : Option String
  pub head_ref : Option String
  pub base_sha : Option String
  pub head_sha : Option String
  pub activity : String
  pub item_updated_at : String
  pub recent_delivery_ids : List String
  pub pending_action : Option PendingAction
  pub handled_interaction_claims : List HandledClaim
  pub active_task_id : Option String
  pub created_at : String
  pub updated_at : String

-- `logical_key`
abbrev pub LogicalKey : Type 0
LogicalKey = String × ItemKind × ℕ

abbrev pub logical_key : Mirror → LogicalKey
logical_key r = (r.repository_full_name, r.item_kind, r.item_number)

abbrev pub same_key : LogicalKey → LogicalKey → Bool
same_key (a, k, n) (b, l, m) = (a == b) && (k == l) && (n == m)

-- `_positive_integer`: from 1 to 2 ** 64 - 1.
unfoldable pub is_positive_integer : ℕ → Bool
is_positive_integer n = not (n == 0) && ltb n (2 ^ 64)

-- `_references`
unfoldable pub has_valid_references :
    ItemKind → Option String → Option String → Option String → Option String → Bool
unfolding is_bounded is_hex_of_length
has_valid_references kind base_ref head_ref base_sha head_sha =
    not (
      (kind == issue)
      && (is_some base_ref || is_some head_ref || is_some base_sha || is_some head_sha))
    && optional (λ v. is_bounded v 255) base_ref
    && optional (λ v. is_bounded v 255) head_ref
    && optional (is_hex_of_length 40) base_sha
    && optional (is_hex_of_length 40) head_sha

-- `_labels`
unfoldable pub has_valid_labels : List String → Bool
unfolding is_bounded
has_valid_labels labels =
    leb (length labels) max_labels
    && all_distinct labels
    && all (λ l. is_bounded l max_label_length) labels

-- `GITHUB_EVENT_ACTIONS`
abbrev pub event_actions : String → List String
event_actions name =
    if name == "pull_request"
    then "opened" ∷ "edited" ∷ "reopened" ∷ "ready_for_review" ∷ "synchronize" ∷ "labeled"
      ∷ "unlabeled" ∷ "closed" ∷ []
    else if name == "issues"
    then "opened" ∷ "edited" ∷ "reopened" ∷ "labeled" ∷ "unlabeled" ∷ "closed" ∷ []
    else if name == "issue_comment"
    then "created" ∷ "edited" ∷ "deleted" ∷ []
    else []

abbrev item_path : ItemKind → String
item_path pull_request = "pull"
item_path issue = "issues"

-- The checks of the constructor that concern the card: a pending creation has its nonce, an
-- attached card has no pending creation, and a cleanup needs an attached card.
unfoldable pub has_valid_card : Mirror → Bool
has_valid_card r =
    (r.card_create_pending == is_some r.card_create_nonce)
    && not (is_some r.card_message_id && r.card_create_pending)
    && not (not (is_some r.card_message_id) && is_some r.card_cleanup_nonce)

-- The checks on the actions: one of a pending and an active task, and no interaction twice.
unfoldable pub has_valid_actions : Mirror → Bool
has_valid_actions r =
    not (is_some r.pending_action && is_some r.active_task_id)
    && all_distinct (map (λ (c : HandledClaim). c.interaction_id) r.handled_interaction_claims)

-- The checks on the recent deliveries.
unfoldable pub has_valid_deliveries : Mirror → Bool
unfolding is_delivery_id
has_valid_deliveries r =
    all (λ d. is_delivery_id (codes d)) r.recent_delivery_ids
    && leb (length r.recent_delivery_ids) max_recent_deliveries
    && all_distinct r.recent_delivery_ids

module _ (lib : Stdlib) where
  -- `_timestamp`
  unfoldable pub is_zulu_timestamp : String → Bool
  is_zulu_timestamp value = elim (lib.fromisoformat (lib.replace_zulu value)) [
    | none ↦ false
    | some (naive t) ↦ false
    | some (aware t) ↦ true
  ]

  -- `_opaque_task_id`
  unfoldable pub is_opaque_task_id : String → Bool
  is_opaque_task_id value = lib.uuid_str value == some value

  unfoldable pub item_url_of : String → ItemKind → ℕ → String
  item_url_of repository kind number = str_append "https://github.com/" (
      str_append repository
        (str_append "/" (str_append (item_path kind) (str_append "/" (lib.str_int number)))))

  -- `_item_identity`
  unfoldable pub has_valid_identity : String → ItemKind → ℕ → String → Bool
  unfolding is_positive_integer item_url_of is_repository
  has_valid_identity repository kind number url =
      is_repository repository
      && is_positive_integer number
      && (url == item_url_of repository kind number)
      && not (lib.url_has_extra url)

  unfoldable pub is_well_formed_claim : HandledClaim → Bool
  unfolding is_positive_integer is_opaque_task_id
  is_well_formed_claim c = is_positive_integer c.interaction_id && is_opaque_task_id c.task_id

  unfoldable pub is_well_formed_pending : PendingAction → Bool
  unfolding is_positive_integer is_opaque_task_id is_zulu_timestamp
  is_well_formed_pending p =
      is_positive_integer p.interaction_id
      && is_opaque_task_id p.task_id
      && is_zulu_timestamp p.claimed_at

  unfoldable pub is_well_formed_event : MirrorEvent → Bool
  is_well_formed_event e =
      is_delivery_id (codes e.delivery_id)
      && member e.action (event_actions e.event_name)
      && has_valid_identity e.repository_full_name e.item_kind e.item_number e.item_url
      && is_bounded e.title max_title_length
      && is_login (codes e.author_login)
      && has_valid_labels e.labels
      && has_valid_references e.item_kind e.base_ref e.head_ref e.base_sha e.head_sha
      && is_bounded e.activity max_activity_length
      && is_zulu_timestamp e.item_updated_at

  -- The checks on the fields one by one.
  unfoldable pub has_valid_item : Mirror → Bool
  has_valid_item r =
      is_hex_of_length 32 r.mirror_id
      && is_positive_integer r.guild_id
      && is_positive_integer r.channel_id
      && optional is_positive_integer r.card_message_id
      && optional (λ n. is_card_nonce (codes n)) r.card_create_nonce
      && optional (λ n. is_card_nonce (codes n)) r.card_cleanup_nonce
      && optional is_positive_integer r.thread_id
      && has_valid_identity r.repository_full_name r.item_kind r.item_number r.item_url
      && is_bounded r.title max_title_length
      && is_login (codes r.author_login)
      && has_valid_labels r.labels
      && has_valid_references r.item_kind r.base_ref r.head_ref r.base_sha r.head_sha
      && is_bounded r.activity max_activity_length
      && is_zulu_timestamp r.item_updated_at
      && optional is_opaque_task_id r.active_task_id
      && is_zulu_timestamp r.created_at
      && is_zulu_timestamp r.updated_at

  unfoldable pub is_well_formed_mirror : Mirror → Bool
  is_well_formed_mirror r =
      has_valid_item r && has_valid_card r && has_valid_deliveries r && has_valid_actions r

  -- The constructors, and `dataclasses.replace`.
  unfoldable pub checked_mirror : Mirror → Result Mirror
  checked_mirror r = if is_well_formed_mirror r then ok r else raise value_error

  unfoldable pub checked_claim : HandledClaim → Result HandledClaim
  checked_claim c = if is_well_formed_claim c then ok c else raise value_error

  unfoldable pub checked_pending : PendingAction → Result PendingAction
  checked_pending p = if is_well_formed_pending p then ok p else raise value_error

  unfoldable pub checked_event : MirrorEvent → Result MirrorEvent
  checked_event e = if is_well_formed_event e then ok e else raise value_error
