-- ===== src/Mirror/Document.antt =====
-- The JSON of a document of mirrors: github_mirror_serialization.py. `json.loads` gives a value, in which
-- an object may have a key twice, or none where the text is not JSON.
pub mod RoundTrip
pub mod Accepted
use study_os_agent_gateway.Common.{
  ℕ, String, Bool, true, false, not, Option, none, List, [], ◌∷◌, leb, if◌then◌else◌, string_eq,
  bool_eq, nat_eq, ◌==◌, option_eq, list_eq, length, any, member, Result, raise_if, or_raise, ◌>>=◌,
  ◌>>◌, value_error, ok, raise, Stdlib,
}
use study_os_agent_gateway.Common.Json.{
  Json, boolean, integer, text, dict, maybe, read_object, read_integer, read_text, some_of, at_key,
  has_keys, text_at, integer_at, optional_at, read_enum, encode_values, boolean_at, list_of,
  list_at, texts_at, each, has_unique_keys,
}
use study_os_agent_gateway.Mirror.Store.{distinct_items}
use study_os_agent_gateway.Mirror.Record.{
  vulnerability_scan, security_review, checked_pending, checked_mirror, max_handled_claims, Mirror,
  item_state_eq, closed, open_item, review, ItemKind, ItemState, draft, issue, checked_claim,
  pull_request, PendingAction, HandledClaim, merged, item_kind_eq, work, MirrorAction,
}
use study_os_agent_gateway.Common.Dict.{Dict}
use study_os_agent_gateway.Common.Dict
use Prim.Native.String.{◌++◌ as str_append}

-- The values of the enumerations of github_mirror_model.py, and their members.
abbrev pub item_kind_value : ItemKind → String
item_kind_value issue = "issue"
item_kind_value pull_request = "pull_request"

abbrev pub all_item_kinds : List ItemKind
all_item_kinds = issue ∷ pull_request ∷ []

abbrev pub item_state_value : ItemState → String
item_state_value open_item = "open"
item_state_value draft = "draft"
item_state_value closed = "closed"
item_state_value merged = "merged"

abbrev pub all_item_states : List ItemState
all_item_states = open_item ∷ draft ∷ closed ∷ merged ∷ []

abbrev pub action_value : MirrorAction → String
action_value review = "review"
action_value security_review = "security_review"
action_value vulnerability_scan = "vulnerability_scan"
action_value work = "work"

abbrev pub all_actions : List MirrorAction
all_actions = review ∷ security_review ∷ vulnerability_scan ∷ work ∷ []

abbrev pub encode_pending : PendingAction → Json
encode_pending p = dict (
    ("interaction_id", integer p.interaction_id)
    ∷ ("action", text (action_value p.action))
    ∷ ("task_id", text p.task_id)
    ∷ ("claimed_at", text p.claimed_at)
    ∷ [])

abbrev pub encode_claim : HandledClaim → Json
encode_claim c = dict (
    ("interaction_id", integer c.interaction_id)
    ∷ ("action", text (action_value c.action))
    ∷ ("task_id", text c.task_id)
    ∷ ("succeeded", boolean c.succeeded)
    ∷ [])

-- `_encode_record`
unfoldable pub encode_mirror : Mirror → Json
encode_mirror r = dict (
    ("mirror_id", text r.mirror_id)
    ∷ ("revision", integer r.revision)
    ∷ ("guild_id", integer r.guild_id)
    ∷ ("channel_id", integer r.channel_id)
    ∷ ("card_message_id", maybe integer r.card_message_id)
    ∷ ("card_create_pending", boolean r.card_create_pending)
    ∷ ("card_create_nonce", maybe text r.card_create_nonce)
    ∷ ("card_cleanup_nonce", maybe text r.card_cleanup_nonce)
    ∷ ("publication_pending", boolean r.publication_pending)
    ∷ ("thread_id", maybe integer r.thread_id)
    ∷ ("repository_full_name", text r.repository_full_name)
    ∷ ("item_kind", text (item_kind_value r.item_kind))
    ∷ ("item_number", integer r.item_number)
    ∷ ("item_url", text r.item_url)
    ∷ ("title", text r.title)
    ∷ ("state", text (item_state_value r.state))
    ∷ ("author_login", text r.author_login)
    ∷ ("labels", list_of text r.labels)
    ∷ ("base_ref", maybe text r.base_ref)
    ∷ ("head_ref", maybe text r.head_ref)
    ∷ ("base_sha", maybe text r.base_sha)
    ∷ ("head_sha", maybe text r.head_sha)
    ∷ ("activity", text r.activity)
    ∷ ("item_updated_at", text r.item_updated_at)
    ∷ ("recent_delivery_ids", list_of text r.recent_delivery_ids)
    ∷ ("pending_action", maybe encode_pending r.pending_action)
    ∷ ("handled_interaction_claims", list_of encode_claim r.handled_interaction_claims)
    ∷ ("active_task_id", maybe text r.active_task_id)
    ∷ ("created_at", text r.created_at)
    ∷ ("updated_at", text r.updated_at)
    ∷ [])

-- `encode_document`, up to `json.dumps`.
unfoldable pub encode_mirrors : Dict String Mirror → Json
unfolding encode_mirror
encode_mirrors records =
    dict (("version", integer 2) ∷ ("mirrors", dict (encode_values encode_mirror records)) ∷ [])

-- The fields of `GitHubMirrorRecord`, and those of the two forms of version 1.
abbrev pub old_v1_keys : List String
old_v1_keys =
    "mirror_id" ∷ "revision" ∷ "guild_id" ∷ "channel_id" ∷ "card_message_id" ∷ "card_create_pending"
    ∷ "thread_id" ∷ "repository_full_name" ∷ "item_kind" ∷ "item_number" ∷ "item_url" ∷ "title"
    ∷ "state" ∷ "author_login" ∷ "labels" ∷ "base_ref" ∷ "head_ref" ∷ "base_sha" ∷ "head_sha"
    ∷ "activity" ∷ "item_updated_at" ∷ "recent_delivery_ids" ∷ "pending_action"
    ∷ "handled_interaction_claims" ∷ "active_task_id" ∷ "created_at" ∷ "updated_at" ∷ []

abbrev pub current_v1_keys : List String
current_v1_keys = "card_create_nonce" ∷ "card_cleanup_nonce" ∷ old_v1_keys

abbrev pub mirror_keys : List String
mirror_keys = "publication_pending" ∷ current_v1_keys

module _ (lib : Stdlib) where
  -- `_decode_pending` and `_decode_claim`
  unfoldable pub decode_pending : Json → Result PendingAction
  unfolding checked_pending
  decode_pending j = do
    fields ← read_object j
    raise_if (not (has_keys ("interaction_id" ∷ "action" ∷ "task_id" ∷ "claimed_at" ∷ []) fields))
        value_error
    interaction_id ← integer_at fields "interaction_id"
    action ← at_key fields "action" >>= read_enum action_value all_actions
    task_id ← text_at fields "task_id"
    claimed_at ← text_at fields "claimed_at"
    checked_pending lib (record {
      interaction_id = interaction_id;
      action = action;
      task_id = task_id;
      claimed_at = claimed_at;
    })

  unfoldable pub decode_claim : Json → Result HandledClaim
  unfolding checked_claim
  decode_claim j = do
    fields ← read_object j
    raise_if (not (has_keys ("interaction_id" ∷ "action" ∷ "task_id" ∷ "succeeded" ∷ []) fields))
        value_error
    succeeded ← boolean_at fields "succeeded"
    interaction_id ← integer_at fields "interaction_id"
    action ← at_key fields "action" >>= read_enum action_value all_actions
    task_id ← text_at fields "task_id"
    checked_claim lib (record {
      interaction_id = interaction_id;
      action = action;
      task_id = task_id;
      succeeded = succeeded;
    })

  -- `urlsafe_b64encode(bytes.fromhex(value)).decode().rstrip("=")`, which may raise a `ValueError`.
  module _ (encode_hex : String → Option String) where
    -- `_legacy_creation_nonce`
    unfoldable pub legacy_creation_nonce : String → Result String
    legacy_creation_nonce id =
        or_raise (encode_hex id) value_error >>= λ encoded. ok (str_append "gm:" encoded)

    -- The two nonces, and whether a publication is pending.
    abbrev pub legacy_nonce_if : Bool → Dict String Json → Result (Option String)
    legacy_nonce_if true fields =
        text_at fields "mirror_id" >>= λ id. some_of (legacy_creation_nonce id)
    legacy_nonce_if false fields = ok none

    abbrev pub stored_nonces : Dict String Json → Result (Option String × Option String)
    stored_nonces fields = do
      create_nonce ← optional_at read_text fields "card_create_nonce"
      cleanup_nonce ← optional_at read_text fields "card_cleanup_nonce"
      ok (create_nonce, cleanup_nonce)

    abbrev pub legacy_nonces : Dict String Json → Result (Option String × Option String)
    legacy_nonces fields = do
      is_creating ← boolean_at fields "card_create_pending"
      create_nonce ← legacy_nonce_if is_creating fields
      ok (create_nonce, none)

    abbrev pub nonces_by_version :
        ℕ → Dict String Json → Result ((Option String × Option String) × Bool)
    nonces_by_version version fields =
        if version == 2
        then (raise_if (not (has_keys mirror_keys fields)) value_error
            >> stored_nonces fields
            >>= λ nonces. boolean_at fields "publication_pending" >>= λ publication_pending.
                ok (nonces, publication_pending))
        else if has_keys current_v1_keys fields
        then (stored_nonces fields >>= λ nonces. ok (nonces, true))
        else if has_keys old_v1_keys fields
        then (legacy_nonces fields >>= λ nonces. ok (nonces, true))
        else raise value_error

    abbrev pub pending_at : Dict String Json → String → Result (Option PendingAction)
    pending_at fields k = optional_at (decode_pending) fields k

    unfoldable pub decode_mirror_fields :
        Dict String Json → Option String → Option String → Bool → Result Mirror
    unfolding decode_pending decode_claim
    decode_mirror_fields fields create_nonce cleanup_nonce publication_pending = do
      pending ← pending_at fields "pending_action"
      claims_raw ← list_at fields "handled_interaction_claims"
      raise_if (not (leb (length claims_raw) max_handled_claims)) value_error
      mirror_id ← text_at fields "mirror_id"
      revision ← integer_at fields "revision"
      guild_id ← integer_at fields "guild_id"
      channel_id ← integer_at fields "channel_id"
      card_message_id ← optional_at read_integer fields "card_message_id"
      card_create_pending ← boolean_at fields "card_create_pending"
      thread_id ← optional_at read_integer fields "thread_id"
      repository ← text_at fields "repository_full_name"
      item_kind ← at_key fields "item_kind" >>= read_enum item_kind_value all_item_kinds
      item_number ← integer_at fields "item_number"
      item_url ← text_at fields "item_url"
      title ← text_at fields "title"
      state ← at_key fields "state" >>= read_enum item_state_value all_item_states
      author_login ← text_at fields "author_login"
      labels ← texts_at fields "labels"
      base_ref ← optional_at read_text fields "base_ref"
      head_ref ← optional_at read_text fields "head_ref"
      base_sha ← optional_at read_text fields "base_sha"
      head_sha ← optional_at read_text fields "head_sha"
      activity ← text_at fields "activity"
      item_updated_at ← text_at fields "item_updated_at"
      deliveries ← texts_at fields "recent_delivery_ids"
      claims ← each (decode_claim) claims_raw
      active_task_id ← optional_at read_text fields "active_task_id"
      created_at ← text_at fields "created_at"
      updated_at ← text_at fields "updated_at"
      ok (record {
        mirror_id = mirror_id;
        revision = revision;
        guild_id = guild_id;
        channel_id = channel_id;
        card_message_id = card_message_id;
        card_create_pending = card_create_pending;
        card_create_nonce = create_nonce;
        card_cleanup_nonce = cleanup_nonce;
        publication_pending = publication_pending;
        thread_id = thread_id;
        repository_full_name = repository;
        item_kind = item_kind;
        item_number = item_number;
        item_url = item_url;
        title = title;
        state = state;
        author_login = author_login;
        labels = labels;
        base_ref = base_ref;
        head_ref = head_ref;
        base_sha = base_sha;
        head_sha = head_sha;
        activity = activity;
        item_updated_at = item_updated_at;
        recent_delivery_ids = deliveries;
        pending_action = pending;
        handled_interaction_claims = claims;
        active_task_id = active_task_id;
        created_at = created_at;
        updated_at = updated_at;
      })

    -- `_decode_record`
    unfoldable pub decode_mirror : ℕ → Json → Result Mirror
    unfolding decode_mirror_fields checked_mirror legacy_creation_nonce
    decode_mirror version j = do
      fields ← read_object j
      found ← nonces_by_version version fields
      r ← decode_mirror_fields fields found.0.0 found.0.1 found.1
      checked_mirror lib r

    -- `decode_document`
    unfoldable pub decode_entries : ℕ → Dict String Json → Result (Dict String Mirror)
    unfolding decode_mirror
    decode_entries version [] = ok []
    decode_entries version ((k, j) ∷ rest) = do
      r ← decode_mirror version j
      others ← decode_entries version rest
      ok ((k, r) ∷ others)

    abbrev pub is_elsewhere : String × Mirror → Bool
    is_elsewhere (k, r) = not (k == r.mirror_id)

    unfoldable pub decode_mirrors : Option Json → Result (Dict String Mirror)
    unfolding decode_entries
    decode_mirrors payload = do
      raw ← or_raise payload value_error
      raise_if (not (has_unique_keys raw)) value_error
      document ← read_object raw
      raise_if (not (has_keys ("version" ∷ "mirrors" ∷ []) document)) value_error
      version ← integer_at document "version"
      raise_if (not (member version (1 ∷ 2 ∷ []))) value_error
      mirrors ← at_key document "mirrors" >>= read_object
      records ← decode_entries version mirrors
      raise_if (any is_elsewhere records) value_error
      raise_if (not (distinct_items (Dict.values records))) value_error
      ok records
