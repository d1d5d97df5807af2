-- ===== src/Mirror/PublicationTests.antt =====
-- The publication of a card on one event, with nobody else at work.
use study_os_agent_gateway.Mirror.Publisher.Deletions.{
  WhenOk, deletions, others_than, all_gone, delete_nonce_matches-Deleted,
  delete_uncommitted_cards-Deleted,
}
use study_os_agent_gateway.Mirror.Publisher.Kept.{cleanup_duplicates-Spared}
use study_os_agent_gateway.Mirror.Publisher.Shown.{Shows, reconcile_card-Shown}
use study_os_agent_gateway.Mirror.Publisher.{
  delete_nonce_matches, delete_uncommitted_cards, cleanup_duplicates, card_deleted, card_edited,
  reconcile_card,
}
use study_os_agent_gateway.Common.{List, ◌∷◌, ◌++◌, Every, ◌≢◌, ◌⊎◌}
use study_os_agent_gateway.Mirror.Tests.{
  opened, mirror_env, no_mirrors, opened_mirror, after_opened,
}
use study_os_agent_gateway.Task.Tests.{toy, first_id}
use study_os_agent_gateway.Common.{ℕ, ◌≡◌, refl, some, [], ok}
use study_os_agent_gateway.Mirror.Publisher.{Publishing, World}
use study_os_agent_gateway.Mirror.Record.{
  Mirror, is_well_formed_mirror, has_valid_item, is_positive_integer, has_valid_identity,
  has_valid_labels, has_valid_references, is_zulu_timestamp, has_valid_card, has_valid_deliveries,
  has_valid_actions,
}
use study_os_agent_gateway.Common.Dict
use study_os_agent_gateway.Common.{is_card_nonce, is_hex_of_length, is_bounded, is_login}
use study_os_agent_gateway.Mirror.Store.{decode_document}
use study_os_agent_gateway.Mirror.Updates.{record_from_event_fields}
use study_os_agent_gateway.Mirror.Publication.{publish}
use study_os_agent_gateway.Common.{false, none, true, not, ◌==◌, option_eq, nat_eq}

abbrev still_world : ℕ → World
still_world n = record {
  channel = ok tt;
  found = ok [];
  sent = ok 7;
  fetched = ok tt;
  edited = ok tt;
  deleted = ok tt;
  env = mirror_env;
  others = λ s. s;
}

abbrev at_first : Publishing
at_first = record { store = no_mirrors; tick = 0; effects = [] }

abbrev published_mirror : Mirror
published_mirror = record opened_mirror {
  revision = 4;
  card_message_id = some 7;
  card_create_pending = false;
  card_create_nonce = none;
  card_cleanup_nonce = none;
  publication_pending = false;
}

publish-first :
    (publish toy still_world 4 (some 2) (some 3) opened at_first).0 ≡ ok published_mirror
unfolding publish toy is_well_formed_mirror has_valid_item is_hex_of_length is_positive_integer
    has_valid_identity is_bounded is_login has_valid_labels has_valid_references is_zulu_timestamp
    has_valid_card has_valid_deliveries has_valid_actions decode_document Dict.set Dict.get
    is_card_nonce
publish-first = refl

-- Discord has two messages with the nonce, and the card is one of them.
abbrev crowded_world : ℕ → World
crowded_world n = record (still_world n) { found = ok (7 ∷ 9 ∷ []) }

delete_nonce_matches-Deleted_example :
    WhenOk
      (λ _ t.
        (ms : List ℕ) × ((crowded_world 0).found ≡ ok ms)
        × (t.effects ≡ [] ++ deletions (others_than (some 7) ms)))
      (delete_nonce_matches toy crowded_world "gm:0123456789abcdefghijkl" (some 7) at_first)
delete_nonce_matches-Deleted_example =
    delete_nonce_matches-Deleted toy crowded_world "gm:0123456789abcdefghijkl" (some 7) at_first

-- It deletes the other one.
delete_nonce_matches-deletes :
    (delete_nonce_matches toy crowded_world "gm:0123456789abcdefghijkl" (some 7) at_first).1.effects
    ≡ card_deleted 9 ∷ []
unfolding delete_nonce_matches
delete_nonce_matches-deletes = refl

delete_uncommitted_cards-Deleted_example :
    WhenOk
      (λ gone t.
        (gone ≡ all_gone still_world 0 (7 ∷ 9 ∷ [])) × (t.effects ≡ [] ++ deletions (7 ∷ 9 ∷ [])))
      (delete_uncommitted_cards toy still_world (7 ∷ 9 ∷ []) at_first)
delete_uncommitted_cards-Deleted_example =
    delete_uncommitted_cards-Deleted toy still_world (7 ∷ 9 ∷ []) at_first

-- The card after an earlier publication, with a nonce to clean up.
abbrev crowded_mirror : Mirror
crowded_mirror = record published_mirror { card_cleanup_nonce = some "gm:0123456789abcdefghijkl" }

cleanup_duplicates-Spared_example :
    Every
      (λ x. x ≢ card_deleted 7)
      (cleanup_duplicates toy crowded_world 7 crowded_mirror at_first).1.effects
cleanup_duplicates-Spared_example =
    cleanup_duplicates-Spared toy crowded_world 7 crowded_mirror at_first tt

-- The mirror has changed since the card was rendered at revision 3.
abbrev after_rendering : Publishing
after_rendering = record {
  store = record {
    records = (first_id, published_mirror) ∷ [];
    document = some ((first_id, published_mirror) ∷ []);
    callback_active = false;
  };
  tick = 0;
  effects = card_edited 7 3 ∷ [];
}

reconcile_card-Shown_example :
    WhenOk
      (λ r t. (not (r.card_message_id == some 7) ≡ true) ⊎ Shows 7 r.revision t)
      (reconcile_card toy still_world 8 7 first_id 3 after_rendering)
reconcile_card-Shown_example =
    reconcile_card-Shown toy still_world 7 8 first_id 3 after_rendering ([], refl)

-- It is rendered again, once.
reconcile_card-renders :
    (reconcile_card toy still_world 8 7 first_id 3 after_rendering).1.effects
    ≡ card_edited 7 3 ∷ card_edited 7 4 ∷ []
unfolding reconcile_card toy is_well_formed_mirror has_valid_item is_hex_of_length
    is_positive_integer has_valid_identity is_bounded is_login has_valid_labels has_valid_references
    is_zulu_timestamp has_valid_card has_valid_deliveries has_valid_actions decode_document Dict.set
    Dict.get record_from_event_fields
reconcile_card-renders = refl

-- The mirror of the store, for a publisher of another channel.
abbrev with_mirror : Publishing
with_mirror = record { store = after_opened; tick = 0; effects = [] }
