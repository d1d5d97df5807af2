-- ===== src/Mirror/Store.antt =====
-- The durable store of mirrors: github_mirror_store.py, class `GitHubMirrorStore`, with the
-- checks of github_mirror_serialization.py on a document. An operation returns its result or
-- exception and the state that it left. Each load and each load with its commit is one step.
pub mod Safe
pub mod Events
pub mod Redelivery
use study_os_agent_gateway.Common.{
  ℕ, String, Bool, true, false, not, ◌&&◌, ◌||◌, Option, none, some, List, [], ◌∷◌, map, leb,
  if◌then◌else◌, is_some, string_eq, bool_eq, nat_eq, ◌==◌, option_eq, list_eq, length, any, all,
  filter, find, member, Result, raise_if, or_raise, ◌>>=◌, ◌>>◌, value_error, key_error,
  store_corruption, durability_error, os_error, delivery_collision, mutation_reentry, ok, raise,
  Datetime, Stdlib, naive, aware,
}
use study_os_agent_gateway.Common.Dict.{Dict}
use study_os_agent_gateway.Common.Dict
use study_os_agent_gateway.Mirror.Updates.{update_from_event, record_from_event}
use study_os_agent_gateway.Mirror.Record.{
  Mirror, MirrorEvent, is_well_formed_mirror, item_kind_eq, LogicalKey, item_state_eq, same_key,
  max_handled_claims, logical_key,
}

-- `_records`, the document on disk, absent until the first write and kept as the records that it
-- encodes, and `_callback_state.active` of the acting thread.
pub record MirrorStore : Type 0 where
  pub records : Dict String Mirror
  pub document : Option (Dict String Mirror)
  pub callback_active : Bool

-- What the outside supplies to one operation: the clock, `uuid4().hex`, the new nonce, whether the
-- new document replaced the old one, and whether the directory was synced then.
pub record MirrorEnv : Type 0 where
  pub clock : Datetime
  pub new_id : String
  pub new_nonce : String
  pub replaced : Bool
  pub synced : Bool

abbrev pub StoreAction : Type 0 → Type 0
StoreAction A = MirrorStore → Result A × MirrorStore

-- `GitHubMirrorUpsert`
pub record Upsert : Type 0 where
  pub mirror : Mirror
  pub duplicate : Bool

-- A step that may raise: the statements after it see the state that it left.
abbrev pub continue :
    {A B : Type 0} → (A → StoreAction B) → Result A × MirrorStore → Result B × MirrorStore
continue f (ok a, s) = f a s
continue f (raise e, s) = (raise e, s)

infixl 5 ◌>=>◌ ◌>>>◌
abbrev pub ◌>=>◌ : {A B : Type 0} → StoreAction A → (A → StoreAction B) → StoreAction B
◌>=>◌ m f s = continue f (m s)

-- Code that only reads: an exception leaves the store as it is.
abbrev pub ◌>>>◌ : {A B : Type 0} → Result A → (A → StoreAction B) → StoreAction B
◌>>>◌ m f s = continue f (m, s)

abbrev pub return : {A : Type 0} → A → StoreAction A
return a s = (ok a, s)

abbrev pub reject_callback_mutation : StoreAction (Unit {0})
reject_callback_mutation s = (raise_if s.callback_active mutation_reentry, s)

-- `_timestamp`
abbrev pub mirror_timestamp : Stdlib → Datetime → Result String
mirror_timestamp lib (naive t) = raise value_error
mirror_timestamp lib (aware t) = ok (lib.isoformat t)

abbrev pub same_mirror_key : LogicalKey → Mirror → Bool
same_mirror_key k r = same_key (logical_key r) k

-- No two records of one issue or pull request.
abbrev pub distinct_items : List Mirror → Bool
distinct_items [] = true
distinct_items (r ∷ rs) = not (any (same_mirror_key (logical_key r)) rs) && distinct_items rs

-- `_commit`: the old file stays, or the new one is there and the sync of the directory fails.
unfoldable pub commit_records : MirrorEnv → Dict String Mirror → StoreAction (Unit {0})
commit_records env d s =
    if env.replaced
    then (
      if env.synced then ok tt else raise durability_error,
      record s { records = d; document = some d },
    )
    else (raise os_error, s)

unfoldable pub commit_record : MirrorEnv → Dict String Mirror → Mirror → StoreAction Mirror
unfolding commit_records
commit_record env d r = commit_records env (Dict.set d r.mirror_id r) >=> λ _. return r

abbrev needs_publication : Mirror → Bool
needs_publication r =
    r.publication_pending
    || not (is_some r.card_message_id)
    || r.card_create_pending
    || is_some r.card_cleanup_nonce

abbrev pub event_key : MirrorEvent → LogicalKey
event_key e = (e.repository_full_name, e.item_kind, e.item_number)

-- `delivery_owner`
abbrev pub delivery_owner : String → Dict String Mirror → Option Mirror
delivery_owner delivery d =
    find (λ (r : Mirror). member delivery r.recent_delivery_ids) (Dict.values d)

-- The handler in `_load`: what `decode_document` raises is corruption.
abbrev pub store_decoded : Result (Dict String Mirror) → StoreAction (Dict String Mirror)
store_decoded (ok d) s = (ok d, record s { records = d })
store_decoded (raise e) s = (raise store_corruption, s)

module _ (lib : Stdlib) where
  abbrev pub is_valid_entry : String × Mirror → Bool
  is_valid_entry (k, r) =
      is_well_formed_mirror lib r
      && (k == r.mirror_id)
      && leb (length r.handled_interaction_claims) max_handled_claims

  -- `decode_document`, of a document that `encode_document` wrote.
  unfoldable pub decode_document : Dict String Mirror → Result (Dict String Mirror)
  decode_document d =
      if all is_valid_entry d && distinct_items (Dict.values d) then ok d else raise value_error

  abbrev pub read_document : Option (Dict String Mirror) → Result (Dict String Mirror)
  read_document none = ok []
  read_document (some d) = decode_document d

  -- `_load`, with the assignment to `_records` in `_canonical_records`.
  unfoldable pub load_records : StoreAction (Dict String Mirror)
  load_records s = store_decoded (read_document s.document) s

  unfoldable pub get_mirror : String → StoreAction Mirror
  unfolding load_records
  get_mirror id = load_records >=> λ d. or_raise (Dict.get d id) key_error >>> return

  unfoldable pub pending_publication_ids : StoreAction (List String)
  unfolding load_records
  pending_publication_ids = load_records >=> λ d.
      return (map (λ (r : Mirror). r.mirror_id) (filter needs_publication (Dict.values d)))

  unfoldable pub get_by_item : LogicalKey → StoreAction (Option Mirror)
  unfolding load_records
  get_by_item k = load_records >=> λ d. return (find (same_mirror_key k) (Dict.values d))

  -- The new record of an event that was not delivered before.
  unfoldable pub record_for_event :
      MirrorEnv → MirrorEvent → (guild channel : ℕ) → Option Mirror → String → Result Mirror
  unfolding record_from_event update_from_event
  record_for_event env e guild channel none stamp =
      record_from_event lib e env.new_id guild channel stamp
  record_for_event env e guild channel (some r) stamp = do
    raise_if (not ((r.guild_id == guild) && (r.channel_id == channel))) value_error
    update_from_event lib r e stamp

  -- `upsert_event`, after the lookups of the delivery's owner and of the item's record.
  unfoldable pub upsert_with :
      MirrorEnv
      → MirrorEvent
      → (guild channel : ℕ) → Dict String Mirror
      → (owner existing : Option Mirror) → StoreAction Upsert
  unfolding record_for_event commit_record
  upsert_with env e guild channel d (some owner) (some r) =
      if owner.mirror_id == r.mirror_id
      then return (record { mirror = r; duplicate = true })
      else raise delivery_collision >>> return
  upsert_with env e guild channel d (some owner) none = raise delivery_collision >>> return
  upsert_with env e guild channel d none existing =
      (do
        stamp ← mirror_timestamp lib env.clock
        record_for_event env e guild channel existing stamp)
      >>> λ r. commit_record env d r >=> λ r. return (record { mirror = r; duplicate = false })

  unfoldable pub upsert_in :
      MirrorEnv → MirrorEvent → (guild channel : ℕ) → Dict String Mirror → StoreAction Upsert
  unfolding upsert_with
  upsert_in env e guild channel d =
      upsert_with env e guild channel d (delivery_owner e.delivery_id d)
        (find (same_mirror_key (event_key e)) (Dict.values d))

  unfoldable pub upsert_event : MirrorEnv → MirrorEvent → (guild channel : ℕ) → StoreAction Upsert
  unfolding load_records upsert_in
  upsert_event env e guild channel =
      reject_callback_mutation >=> λ _. load_records >=> upsert_in env e guild channel
