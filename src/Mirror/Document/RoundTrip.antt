-- ===== src/Mirror/Document/RoundTrip.antt =====
-- What the store of mirrors writes is what it loads: an encoded document, with its keys sorted, decodes to
-- the same mirrors.
use study_os_agent_gateway.Common.{
  ℕ, suc, String, ◌≡◌, refl, sym, ap, subst, ◌∙◌, true, false, Option, none, some, List, [], ◌∷◌,
  map, leb, and_split, string_eq, bool_eq, nat_eq, ◌==◌, option_eq, beq_self, list_eq, length, any,
  all, all_distinct, optional, ok, Stdlib,
}
use study_os_agent_gateway.Common.Json.{
  Json, integer, text, sort_keys, sort_items, maybe, read_integer, read_text, read_optional,
  enum_from, encode_values, each, has_unique_keys, unique_in_items, items, from_items, all_texts,
  text_before,
}
use study_os_agent_gateway.Common.Json.Sorted.{
  sort_entries, get-sort_entries, IsUnique-sort_entries, sort_fields-encode_values,
  entries-from_entries, IsUnique-keys, keys-encode_values, unique_in_fields-encode_values,
}
use study_os_agent_gateway.Mirror.Store.{distinct_items}
use study_os_agent_gateway.Mirror.Document.{
  decode_mirrors, is_elsewhere, decode_entries, encode_mirrors, all_actions, all_item_states,
  decode_claim, encode_pending, decode_mirror_fields, item_kind_value, encode_mirror,
  item_state_value, decode_pending, decode_mirror, all_item_kinds, action_value, encode_claim,
}
use study_os_agent_gateway.Mirror.Invariant.{
  distinct_entries, IsSoundMirrors, IsValidEntry-own, IsValidEntry,
}
use study_os_agent_gateway.Mirror.Record.{
  max_handled_claims, is_well_formed_mirror, review, ItemState, checked_pending, open_item,
  item_kind_eq, PendingAction, is_well_formed_pending, item_state_eq, issue, checked_mirror,
  ItemKind, is_well_formed_claim, MirrorAction, checked_claim, Mirror, HandledClaim,
}
use study_os_agent_gateway.Common.Dict.{Dict}
use study_os_agent_gateway.Common.Dict

item_kind_from :
    (k : ItemKind) → enum_from item_kind_value all_item_kinds (item_kind_value k) ≡ ok k
item_kind_from issue = refl
item_kind_from k = refl

item_state_from :
    (s : ItemState) → enum_from item_state_value all_item_states (item_state_value s) ≡ ok s
item_state_from open_item = refl
item_state_from s = refl

action_from : (a : MirrorAction) → enum_from action_value all_actions (action_value a) ≡ ok a
action_from review = refl
action_from a = refl

-- An optional value or a list, sorted and read.
integer_back : (o : Option ℕ) → read_optional read_integer (sort_keys (maybe integer o)) ≡ ok o
unfolding sort_keys
integer_back none = refl
integer_back (some n) = refl

text_back : (o : Option String) → read_optional read_text (sort_keys (maybe text o)) ≡ ok o
unfolding sort_keys
text_back none = refl
text_back (some s) = refl

integer_unique : (o : Option ℕ) → has_unique_keys (sort_keys (maybe integer o)) ≡ true
unfolding sort_keys has_unique_keys
integer_unique none = refl
integer_unique (some n) = refl

text_unique : (o : Option String) → has_unique_keys (sort_keys (maybe text o)) ≡ true
unfolding sort_keys has_unique_keys
text_unique none = refl
text_unique (some s) = refl

texts_back : (l : List String) → all_texts (items (sort_items (from_items (map text l)))) ≡ ok l
unfolding sort_items sort_keys
texts_back [] = refl
texts_back (s ∷ l) = ap (text_before (text s)) (texts_back l)

texts_unique : (l : List String) → unique_in_items (sort_items (from_items (map text l))) ≡ true
unfolding sort_items sort_keys unique_in_items
texts_unique [] = refl
texts_unique (s ∷ l) = texts_unique l

claims_unique :
    (l : List HandledClaim) → unique_in_items (sort_items (from_items (map encode_claim l))) ≡ true
unfolding sort_items sort_keys unique_in_items
claims_unique [] = refl
claims_unique (c ∷ l) = claims_unique l

length-claims :
    (l : List HandledClaim)
    → length (items (sort_items (from_items (map encode_claim l)))) ≡ length l
unfolding sort_items
length-claims [] = refl
length-claims (c ∷ l) = ap suc (length-claims l)

pending_unique :
    (o : Option PendingAction) → has_unique_keys (sort_keys (maybe encode_pending o)) ≡ true
unfolding sort_keys has_unique_keys
pending_unique none = refl
pending_unique (some p) = refl

module _ (lib : Stdlib) where
  -- The claims and the pending action pass their constructors.
  abbrev pub HasSoundActions : Mirror → Type 0
  HasSoundActions r =
      (optional (is_well_formed_pending lib) r.pending_action ≡ true)
      × (all (is_well_formed_claim lib) r.handled_interaction_claims ≡ true)

  pending_back :
      (o : Option PendingAction)
      → optional (is_well_formed_pending lib) o ≡ true
      → read_optional (decode_pending lib) (sort_keys (maybe encode_pending o)) ≡ ok o
  unfolding sort_keys decode_pending Dict.get checked_pending
  pending_back none h = refl
  pending_back (some p) h = rw (action_from p.action, h) refl

  claim_back :
      (c : HandledClaim)
      → is_well_formed_claim lib c ≡ true
      → decode_claim lib (sort_keys (encode_claim c)) ≡ ok c
  unfolding sort_keys decode_claim Dict.get checked_claim
  claim_back c h = rw (action_from c.action, h) refl

  claims_back :
      (l : List HandledClaim)
      → all (is_well_formed_claim lib) l ≡ true
      → each (decode_claim lib) (items (sort_items (from_items (map encode_claim l)))) ≡ ok l
  unfolding sort_items
  claims_back [] h = refl
  claims_back (c ∷ l) h =
      let (good, rest) = and_split (is_well_formed_claim lib c) _ h in
      rw (claim_back c good, claims_back l rest) refl

  encode_mirror_unique : (r : Mirror) → has_unique_keys (sort_keys (encode_mirror r)) ≡ true
  unfolding encode_mirror sort_keys has_unique_keys
  encode_mirror_unique r =
      rw
        (
          integer_unique r.card_message_id,
          text_unique r.card_create_nonce,
          text_unique r.card_cleanup_nonce,
          integer_unique r.thread_id,
          texts_unique r.labels,
          text_unique r.base_ref,
          text_unique r.head_ref,
          text_unique r.base_sha,
          text_unique r.head_sha,
          texts_unique r.recent_delivery_ids,
          pending_unique r.pending_action,
          claims_unique r.handled_interaction_claims,
          text_unique r.active_task_id,
        )
        refl

  module _ (encode_hex : String → Option String) where
    decode_mirror-sorted :
        (r : Mirror)
        → IsValidEntry lib r.mirror_id r
        → HasSoundActions r
        → decode_mirror lib encode_hex 2 (sort_keys (encode_mirror r)) ≡ ok r
    unfolding decode_mirror encode_mirror sort_keys decode_mirror_fields checked_mirror Dict.get
    decode_mirror-sorted r h (pending, claims) =
        let good : is_well_formed_mirror lib r ≡ true = (and_split _ _ ((and_split _ _ h).0)).0 in
        let few : leb (length r.handled_interaction_claims) max_handled_claims ≡ true =
          (and_split _ _ h).1 in
        rw
          (
            text_back r.card_create_nonce,
            text_back r.card_cleanup_nonce,
            pending_back r.pending_action pending,
            length-claims r.handled_interaction_claims,
            few,
            integer_back r.card_message_id,
            integer_back r.thread_id,
            item_kind_from r.item_kind,
            item_state_from r.state,
            texts_back r.labels,
            text_back r.base_ref,
            text_back r.head_ref,
            text_back r.base_sha,
            text_back r.head_sha,
            texts_back r.recent_delivery_ids,
            claims_back r.handled_interaction_claims claims,
            text_back r.active_task_id,
            good,
          )
          refl

    abbrev IsWritten : String → Mirror → Type 0
    IsWritten k r = (k ≡ r.mirror_id) × IsValidEntry lib r.mirror_id r × HasSoundActions r

    decode_entries-sorted :
        (d : Dict String Mirror)
        → Dict.AllEntries IsWritten d
        → decode_entries lib encode_hex 2 (encode_values (λ r. sort_keys (encode_mirror r)) d)
          ≡ ok d
    unfolding decode_entries
    decode_entries-sorted [] h = refl
    decode_entries-sorted ((k, r) ∷ d) ((own, sits, actions), h) =
        rw (decode_mirror-sorted r sits actions, decode_entries-sorted d h) refl

    at_home :
        (d : Dict String Mirror)
        → Dict.AllEntries IsWritten d
        → any (is_elsewhere lib encode_hex) d ≡ false
    at_home [] h = refl
    at_home ((k, r) ∷ d) ((own, sits, actions), h) =
        let same : (k == r.mirror_id) ≡ true =
          ap (λ i. i == r.mirror_id) own ∙ beq_self r.mirror_id in
        rw same (at_home d h)

    decode_mirrors-sorted :
        (d : Dict String Mirror)
        → Dict.IsUnique (sort_entries d)
        → Dict.AllEntries IsWritten (sort_entries d)
        → distinct_items (Dict.values (sort_entries d)) ≡ true
        → decode_mirrors lib encode_hex (some (sort_keys (encode_mirrors d))) ≡ ok (sort_entries d)
    unfolding decode_mirrors encode_mirrors sort_keys Dict.get has_unique_keys
    decode_mirrors-sorted d u h distinct =
        let f : Mirror → Json = λ r. sort_keys (encode_mirror r) in
        let keys : all_distinct (Dict.keys (encode_values f (sort_entries d))) ≡ true =
          ap all_distinct (keys-encode_values f (sort_entries d))
          ∙ IsUnique-keys (sort_entries d) u in
        rw
          (
            sort_fields-encode_values encode_mirror d,
            entries-from_entries (encode_values f (sort_entries d)),
            keys,
            unique_in_fields-encode_values f (sort_entries d) encode_mirror_unique,
            decode_entries-sorted (sort_entries d) h,
            at_home (sort_entries d) h,
            distinct,
          )
          refl

-- A sound collection of mirrors, each of its actions as their constructors want them, is encoded, written with
-- sorted keys, read and decoded without an error, to a dictionary that has the same mirror under each
-- identifier. Of `json` it is used that it reads the document that it wrote, with its keys sorted.
pub mirrors_round_trip :
    (lib : Stdlib) (encode_hex : String → Option String) (dumps : Json → String)
    (loads : String → Option Json) (records : Dict String Mirror)
    → loads (dumps (encode_mirrors records)) ≡ some (sort_keys (encode_mirrors records))
    → IsSoundMirrors lib records
    → ((k : String) (r : Mirror) → Dict.get records k ≡ some r → HasSoundActions lib r)
    → (decoded : Dict String Mirror) × (decode_mirrors lib encode_hex
          (loads (dumps (encode_mirrors records)))
        ≡ ok decoded)
      × ((k : String) → Dict.get decoded k ≡ Dict.get records k)
mirrors_round_trip lib encode_hex dumps loads records faithful sound fine =
    let sorted = sort_entries records in
    let unique = IsUnique-sort_entries records sound.unique in
    let stored : (k : String) (r : Mirror)
        → Dict.get sorted k ≡ some r
        → Dict.get records k ≡ some r =
      λ k r found. sym (get-sort_entries records k sound.unique) ∙ found in
    let written : Dict.AllEntries (IsWritten lib encode_hex) sorted =
      Dict.AllEntries-get (IsWritten lib encode_hex) sorted unique (λ k r found.
        let sits = sound.valid k r (stored k r found) in
        let own = IsValidEntry-own lib k r sits in
        (own, subst (λ i. IsValidEntry lib i r) own sits, fine k r (stored k r found))) in
    let distinct =
      distinct_entries sorted unique
        (λ j k r q hr hq same. sound.one_item j k r q (stored j r hr) (stored k q hq) same) in
    (
      sorted,
      ap (decode_mirrors lib encode_hex) faithful
          ∙ decode_mirrors-sorted lib encode_hex records unique written distinct,
      λ k. get-sort_entries records k sound.unique,
    )
