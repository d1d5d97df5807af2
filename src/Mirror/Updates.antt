-- ===== src/Mirror/Updates.antt =====
-- The next record of a mirror: github_mirror_store_updates.py.
pub mod Kept
pub mod Delivered
pub mod Order
use study_os_agent_gateway.Common.{
  ℕ, ◌+◌, String, Bool, true, false, not, ◌&&◌, Option, none, some, [], ◌∷◌, ◌++◌, ltb, leb,
  if◌then◌else◌, string_eq, bool_eq, nat_eq, ◌==◌, option_eq, list_eq, last_n, Result, raise_if,
  ◌>>=◌, ◌>>◌, value_error, ok, raise, Stdlib, naive, aware,
}
use study_os_agent_gateway.Mirror.Record.{
  logical_key, same_key, max_handled_claims, item_state_eq, max_recent_deliveries, MirrorEvent,
  pull_request, closed, draft, Mirror, checked_mirror, ItemState, open_item, item_kind_eq, merged,
}

unfoldable pub record_from_event_fields :
    MirrorEvent → (id : String) → (guild channel : ℕ) → (stamp : String) → Mirror
record_from_event_fields e id guild channel stamp = record {
  mirror_id = id;
  revision = 0;
  guild_id = guild;
  channel_id = channel;
  card_message_id = none;
  card_create_pending = false;
  card_create_nonce = none;
  card_cleanup_nonce = none;
  publication_pending = true;
  thread_id = none;
  repository_full_name = e.repository_full_name;
  item_kind = e.item_kind;
  item_number = e.item_number;
  item_url = e.item_url;
  title = e.title;
  state = e.state;
  author_login = e.author_login;
  labels = e.labels;
  base_ref = e.base_ref;
  head_ref = e.head_ref;
  base_sha = e.base_sha;
  head_sha = e.head_sha;
  activity = e.activity;
  item_updated_at = e.item_updated_at;
  recent_delivery_ids = e.delivery_id ∷ [];
  pending_action = none;
  handled_interaction_claims = [];
  active_task_id = none;
  created_at = stamp;
  updated_at = stamp;
}

-- `terminal_rank`
abbrev pub terminal_rank : ItemState → ℕ
terminal_rank draft = 0
terminal_rank open_item = 1
terminal_rank closed = 2
terminal_rank merged = 3

-- A comment on a pull request does not know that it is merged or a draft.
unfoldable pub state_from_event : Mirror → MirrorEvent → ItemState
state_from_event r e =
    if (e.event_name == "issue_comment") && (e.item_kind == pull_request)
    then if r.state == merged
      then merged
      else if (r.state == draft) && (e.state == open_item)
      then draft
      else e.state
    else e.state

-- `new if new is not None else old`
abbrev pub or_else : Option String → Option String → Option String
or_else (some new) old = some new
or_else none old = old

-- What every delivery changes.
unfoldable pub record_delivery : Mirror → MirrorEvent → String → Mirror
record_delivery r e stamp = record r {
  recent_delivery_ids = last_n max_recent_deliveries (r.recent_delivery_ids ++ e.delivery_id ∷ []);
  publication_pending = true;
  revision = r.revision + 1;
  updated_at = stamp;
}

-- What an event changes that is not stale.
unfoldable pub apply_event : Mirror → MirrorEvent → Mirror → Mirror
unfolding state_from_event
apply_event r e delivered = record delivered {
  title = e.title;
  state = state_from_event r e;
  author_login = e.author_login;
  labels = e.labels;
  base_ref = or_else e.base_ref r.base_ref;
  head_ref = or_else e.head_ref r.head_ref;
  base_sha = or_else e.base_sha r.base_sha;
  head_sha = or_else e.head_sha r.head_sha;
  activity = e.activity;
  item_updated_at = e.item_updated_at;
}

-- The checks of `_validate_update`: no identity, item or delivery field changes.
unfoldable pub same_item : Mirror → Mirror → Bool
same_item current candidate =
    (current.revision == candidate.revision)
    && (current.guild_id == candidate.guild_id)
    && (current.channel_id == candidate.channel_id)
    && (current.item_url == candidate.item_url)
    && (current.title == candidate.title)
    && (current.state == candidate.state)
    && (current.author_login == candidate.author_login)
    && (current.labels == candidate.labels)
    && (current.base_ref == candidate.base_ref)
    && (current.head_ref == candidate.head_ref)
    && (current.base_sha == candidate.base_sha)
    && (current.head_sha == candidate.head_sha)
    && (current.activity == candidate.activity)
    && (current.item_updated_at == candidate.item_updated_at)
    && (current.created_at == candidate.created_at)
    && (current.mirror_id == candidate.mirror_id)
    && same_key (logical_key current) (logical_key candidate)
    && (current.recent_delivery_ids == candidate.recent_delivery_ids)

module _ (lib : Stdlib) where
  unfoldable pub record_from_event :
      MirrorEvent → (id : String) → (guild channel : ℕ) → (stamp : String) → Result Mirror
  unfolding record_from_event_fields checked_mirror
  record_from_event e id guild channel stamp =
      checked_mirror lib (record_from_event_fields e id guild channel stamp)

  -- `_parse_timestamp`. The constructors refuse a timestamp without a timezone.
  unfoldable pub parse_timestamp : String → Result ℕ
  parse_timestamp value = elim (lib.fromisoformat (lib.replace_zulu value)) [
    | none ↦ raise value_error
    | some (naive t) ↦ raise value_error
    | some (aware t) ↦ ok t
  ]

  unfoldable pub should_apply_event : Mirror → MirrorEvent → Result Bool
  unfolding parse_timestamp
  should_apply_event r e = do
    event_timestamp ← parse_timestamp e.item_updated_at
    record_timestamp ← parse_timestamp r.item_updated_at
    ok (
        if event_timestamp == record_timestamp
        then leb (terminal_rank r.state) (terminal_rank e.state)
        else ltb record_timestamp event_timestamp)

  unfoldable pub update_from_event : Mirror → MirrorEvent → String → Result Mirror
  unfolding should_apply_event record_delivery apply_event checked_mirror
  update_from_event r e stamp = do
    fresh ← should_apply_event r e
    let delivered = record_delivery r e stamp
    checked_mirror lib (if fresh then apply_event r e delivered else delivered)

  unfoldable pub updated_record : Mirror → (Mirror → Result Mirror) → String → Result Mirror
  unfolding same_item checked_mirror
  updated_record current update stamp = do
    candidate ← update current
    raise_if (not (same_item current candidate)) value_error
    checked_mirror lib (record candidate {
      revision = current.revision + 1;
      handled_interaction_claims = last_n max_handled_claims candidate.handled_interaction_claims;
      updated_at = stamp;
    })

  -- The changes that the operations on a card make, each a `replace`.
  abbrev pub claiming : String → Mirror → Result Mirror
  claiming nonce r =
      checked_mirror lib (record r { card_create_pending = true; card_create_nonce = some nonce })

  abbrev pub attaching : ℕ → String → Mirror → Result Mirror
  attaching message_id nonce r = checked_mirror lib (record r {
    card_message_id = some message_id;
    card_create_pending = false;
    card_create_nonce = none;
    card_cleanup_nonce = some nonce;
  })

  abbrev pub queueing : String → Mirror → Result Mirror
  queueing nonce r = checked_mirror lib (record r { card_cleanup_nonce = some nonce })

  abbrev pub releasing : Mirror → Result Mirror
  releasing r =
      checked_mirror lib (record r { card_create_pending = false; card_create_nonce = none })

  abbrev pub cleaned : Mirror → Result Mirror
  cleaned r = checked_mirror lib (record r { card_cleanup_nonce = none })

  abbrev pub cleared : Mirror → Result Mirror
  cleared r = checked_mirror lib (record r {
    card_message_id = none;
    card_create_pending = false;
    card_create_nonce = none;
    card_cleanup_nonce = none;
    publication_pending = true;
  })

  abbrev pub published : Mirror → Result Mirror
  published r = checked_mirror lib (record r { publication_pending = false })

  unfoldable pub claim_card_record : Mirror → String → (stamp : String) → Result Mirror
  unfolding updated_record
  claim_card_record current nonce stamp = updated_record current (claiming nonce) stamp

  unfoldable pub attach_card_record : Mirror → ℕ → String → (stamp : String) → Result Mirror
  unfolding updated_record
  attach_card_record current message_id nonce stamp =
      updated_record current (attaching message_id nonce) stamp

  unfoldable pub queue_card_cleanup_record : Mirror → String → (stamp : String) → Result Mirror
  unfolding updated_record
  queue_card_cleanup_record current nonce stamp = updated_record current (queueing nonce) stamp

  unfoldable pub release_card_creation_record : Mirror → (stamp : String) → Result Mirror
  unfolding updated_record
  release_card_creation_record current stamp = updated_record current (releasing) stamp

  unfoldable pub complete_card_cleanup_record : Mirror → (stamp : String) → Result Mirror
  unfolding updated_record
  complete_card_cleanup_record current stamp = updated_record current (cleaned) stamp

  unfoldable pub clear_card_record : Mirror → (stamp : String) → Result Mirror
  unfolding updated_record
  clear_card_record current stamp = updated_record current (cleared) stamp
