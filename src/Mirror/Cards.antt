-- ===== src/Mirror/Cards.antt =====
-- Compare-and-set and the operations on the card of a mirror: github_mirror_store.py.
pub mod Safe
pub mod Operations
use study_os_agent_gateway.Common.{
  ℕ, String, Bool, true, false, not, ◌||◌, some, if◌then◌else◌, is_some, string_eq, bool_eq, nat_eq,
  ◌==◌, option_eq, list_eq, Result, raise_if, or_raise, ◌>>=◌, ◌>>◌, value_error, key_error,
  mirror_revision_conflict, ok, raise, Stdlib,
}
use study_os_agent_gateway.Common.Dict.{Dict}
use study_os_agent_gateway.Common.Dict
use study_os_agent_gateway.Mirror.Store.{
  StoreAction, MirrorEnv, ◌>=>◌, commit_record, mirror_timestamp, load_records, return,
  reject_callback_mutation, ◌>>>◌,
}
use study_os_agent_gateway.Mirror.Updates.{
  published, attach_card_record, queue_card_cleanup_record, release_card_creation_record,
  complete_card_cleanup_record, clear_card_record, claim_card_record, updated_record,
}
use study_os_agent_gateway.Mirror.Record.{item_kind_eq, checked_mirror, Mirror, item_state_eq}

-- `self._compare_callback()` around `update(current)`. The callback may call the store, and
-- while it runs others may write: it is an action on the state.
abbrev pub in_callback : (Mirror → StoreAction Mirror) → Mirror → StoreAction Mirror
in_callback update current s =
    let left = update current (record s { callback_active = true }) in
    (left.0, record (left.1) { callback_active = false })

-- `records[mirror_id]`, and the check of its revision.
unfoldable pub current_mirror : Dict String Mirror → String → ℕ → Result Mirror
current_mirror d id expected = do
  current ← or_raise (Dict.get d id) key_error
  raise_if (not (current.revision == expected)) mirror_revision_conflict
  ok current

module _ (lib : Stdlib) where
  -- The tail of the operations on a card: the new record is written and returned.
  abbrev pub write_mirror :
      {A : Type 0}
      → MirrorEnv
      → Dict String Mirror
      → (String → Result Mirror)
      → (Mirror → A)
      → StoreAction A
  write_mirror env d update result =
      (do stamp ← mirror_timestamp lib env.clock; update stamp) >>> λ r.
      commit_record env d r >=> λ r. return (result r)

  unfoldable pub compare_and_set_mirror :
      MirrorEnv
      → (id : String) → (expected : ℕ) → (Mirror → StoreAction Mirror)
      → StoreAction Mirror
  unfolding load_records current_mirror updated_record commit_record
  compare_and_set_mirror env id expected update = reject_callback_mutation >=> λ _.
      load_records lib >=> λ d. current_mirror d id expected >>> in_callback update >=> λ candidate.
      load_records lib >=> λ d. current_mirror d id expected >>> λ current.
      write_mirror env d (updated_record lib current (λ _. ok candidate)) (λ r. r)

  -- Every operation on a card: the record is read, and what `act` makes of it is done.
  abbrev pub on_mirror :
      {A : Type 0} → String → (Dict String Mirror → Mirror → StoreAction A) → StoreAction A
  on_mirror id act = reject_callback_mutation >=> λ _.
      load_records lib >=> λ d. or_raise (Dict.get d id) key_error >>> act d

  unfoldable pub attach_card_if_missing :
      MirrorEnv → (id : String) → (message_id : ℕ) → (nonce : String) → StoreAction (Mirror × Bool)
  unfolding load_records queue_card_cleanup_record attach_card_record commit_record
  attach_card_if_missing env id message_id nonce = reject_callback_mutation >=> λ _.
      raise_if (message_id == 0) value_error >>> λ _. load_records lib >=> λ d.
      or_raise (Dict.get d id) key_error >>> λ current.
      if is_some current.card_message_id
      then if current.card_cleanup_nonce == some nonce
        then return (current, false)
        else if is_some current.card_cleanup_nonce
        then raise mirror_revision_conflict >>> return
        else write_mirror env d (queue_card_cleanup_record lib current nonce) (λ r. (r, false))
      else if not (current.card_create_nonce == some nonce)
      then raise mirror_revision_conflict >>> return
      else write_mirror env d (attach_card_record lib current message_id nonce) (λ r. (r, true))

  unfoldable pub claim_card_creation : MirrorEnv → String → StoreAction (Mirror × Bool)
  unfolding load_records claim_card_record commit_record
  claim_card_creation env id = on_mirror id λ d current.
      if is_some current.card_message_id || current.card_create_pending
      then return (current, false)
      else write_mirror env d (claim_card_record lib current env.new_nonce) (λ r. (r, true))

  unfoldable pub release_card_creation : MirrorEnv → (id nonce : String) → StoreAction Mirror
  unfolding load_records release_card_creation_record commit_record
  release_card_creation env id nonce = on_mirror id λ d current.
      if is_some current.card_message_id || not (current.card_create_nonce == some nonce)
      then return current
      else write_mirror env d (release_card_creation_record lib current) (λ r. r)

  unfoldable pub complete_card_cleanup : MirrorEnv → (id nonce : String) → StoreAction Mirror
  unfolding load_records complete_card_cleanup_record commit_record
  complete_card_cleanup env id nonce = on_mirror id λ d current.
      if not (current.card_cleanup_nonce == some nonce)
      then return current
      else write_mirror env d (complete_card_cleanup_record lib current) (λ r. r)

  unfoldable pub complete_publication :
      MirrorEnv → (id : String) → (expected : ℕ) → StoreAction Mirror
  unfolding load_records updated_record commit_record
  complete_publication env id expected = on_mirror id λ d current.
      if not (current.revision == expected) || not current.publication_pending
      then return current
      else if not (is_some current.card_message_id)
          || current.card_create_pending
          || is_some current.card_cleanup_nonce
      then return current
      else write_mirror env d (updated_record lib current (published lib)) (λ r. r)

  unfoldable pub clear_card_if_matches :
      MirrorEnv → (id : String) → (message_id : ℕ) → StoreAction Mirror
  unfolding load_records clear_card_record commit_record
  clear_card_if_matches env id message_id = on_mirror id λ d current.
      if not (current.card_message_id == some message_id)
      then return current
      else write_mirror env d (clear_card_record lib current) (λ r. r)
