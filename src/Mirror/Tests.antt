-- ===== src/Mirror/Tests.antt =====
-- The store of mirrors on concrete events, and the theorems there. Timestamps are those of the tests
-- of the task store: the string of `n` characters is the instant `n`.
use study_os_agent_gateway.Common.{
  ◌≡◌, refl, subst, true, false, none, some, [], ◌∷◌, is_hex_of_length, is_bounded, is_login,
  Result, ok, aware, string_eq, nat_eq,
}
use study_os_agent_gateway.Mirror.Updates.Order.{Follows, update_from_event-Follows}
use study_os_agent_gateway.Mirror.Invariant.{IsSoundMirrors-empty}
use study_os_agent_gateway.Common.Dict
use study_os_agent_gateway.Mirror.Store.Redelivery.{upsert_event-duplicate}
use study_os_agent_gateway.Mirror.Store.Safe.{IsSafe, loaded, on_disk_mirrors}
use study_os_agent_gateway.Mirror.History.{
  document_always_loads, upserted, start, one_mirror_per_item, one_mirror_per_delivery, Reach,
}
use study_os_agent_gateway.Task.Tests.{toy, first_id}
use study_os_agent_gateway.Mirror.Store.{Upsert, load_records, upsert_event, MirrorStore, MirrorEnv}
use study_os_agent_gateway.Mirror.Updates.{update_from_event, record_from_event_fields}
use study_os_agent_gateway.Mirror.Record.{
  merged, has_valid_item, has_valid_identity, item_state_eq, item_kind_eq, is_positive_integer,
  has_valid_references, has_valid_card, has_valid_deliveries, is_zulu_timestamp, has_valid_actions,
  has_valid_labels, is_well_formed_mirror, MirrorEvent, Mirror, open_item, pull_request,
}

abbrev pub opened : MirrorEvent
opened = record {
  delivery_id = "delivery-1";
  event_name = "pull_request";
  action = "opened";
  repository_full_name = "tue/gateway";
  item_kind = pull_request;
  item_number = 1;
  item_url = "https://github.com/tue/gateway/pull/x";
  title = "Title";
  state = open_item;
  author_login = "octo";
  labels = "bug" ∷ [];
  base_ref = some "main";
  head_ref = some "topic";
  base_sha = none;
  head_sha = none;
  activity = "opened";
  item_updated_at = "xxx";
}

abbrev pub mirror_env : MirrorEnv
mirror_env = record {
  clock = aware 4;
  new_id = first_id;
  new_nonce = "gm:0123456789abcdefghijkl";
  replaced = true;
  synced = true;
}

abbrev pub no_mirrors : MirrorStore
no_mirrors = record { records = []; document = none; callback_active = false }

abbrev pub opened_mirror : Mirror
opened_mirror = record (record_from_event_fields opened first_id 2 3 "xxxx") { revision = 0 }

upsert_event-first : upsert_event toy mirror_env opened 2 3 no_mirrors ≡ (
  ok (record { mirror = opened_mirror; duplicate = false }),
  record {
    records = (first_id, opened_mirror) ∷ [];
    document = some ((first_id, opened_mirror) ∷ []);
    callback_active = false;
  },
)
unfolding upsert_event is_well_formed_mirror has_valid_item is_hex_of_length is_positive_integer
    has_valid_identity is_bounded is_login has_valid_labels has_valid_references is_zulu_timestamp
    has_valid_card has_valid_deliveries has_valid_actions Dict.set toy
upsert_event-first = refl

abbrev pub after_opened : MirrorStore
after_opened = record {
  records = (first_id, opened_mirror) ∷ [];
  document = some ((first_id, opened_mirror) ∷ []);
  callback_active = false;
}

pub after_opened-Reach : Reach toy after_opened
after_opened-Reach =
    subst (λ (m : Result Upsert × MirrorStore). Reach toy m.1) upsert_event-first
      (upserted mirror_env opened 2 3 start)

after_opened-found : Dict.get (on_disk_mirrors after_opened.document) first_id ≡ some opened_mirror
unfolding Dict.get
after_opened-found = refl

document_always_loads_example :
    load_records toy after_opened
    ≡ (ok (on_disk_mirrors after_opened.document), loaded after_opened)
document_always_loads_example = document_always_loads after_opened-Reach

one_mirror_per_item_example : first_id ≡ first_id
unfolding record_from_event_fields
one_mirror_per_item_example =
    one_mirror_per_item first_id first_id opened_mirror opened_mirror after_opened-Reach
      after_opened-found after_opened-found refl

one_mirror_per_delivery_example : first_id ≡ first_id
unfolding record_from_event_fields
one_mirror_per_delivery_example =
    one_mirror_per_delivery first_id first_id opened_mirror opened_mirror "delivery-1"
      after_opened-Reach after_opened-found after_opened-found refl refl

pub no_mirrors-IsSafe : IsSafe toy no_mirrors
no_mirrors-IsSafe = IsSoundMirrors-empty toy

upsert_event-duplicate_example :
    upsert_event toy mirror_env opened 8 9 after_opened
    ≡ (ok (record { mirror = opened_mirror; duplicate = true }), loaded after_opened)
upsert_event-duplicate_example =
    upsert_event-duplicate toy opened mirror_env mirror_env 2 3 8 9 no_mirrors after_opened
      (record { mirror = opened_mirror; duplicate = false }) no_mirrors-IsSafe refl
      upsert_event-first

-- The pull request is merged later.
abbrev merged_event : MirrorEvent
merged_event = record opened {
  delivery_id = "delivery-2";
  action = "closed";
  title = "Renamed";
  state = merged;
  item_updated_at = "xxxxx";
}

abbrev merged_mirror : Mirror
merged_mirror = record opened_mirror {
  revision = 1;
  title = "Renamed";
  state = merged;
  item_updated_at = "xxxxx";
  recent_delivery_ids = "delivery-1" ∷ "delivery-2" ∷ [];
  updated_at = "xxxxxx";
}

update_from_event-merged :
    update_from_event toy opened_mirror merged_event "xxxxxx" ≡ ok merged_mirror
unfolding update_from_event record_from_event_fields is_well_formed_mirror has_valid_item
    is_hex_of_length is_positive_integer has_valid_identity is_bounded is_login has_valid_labels
    has_valid_references is_zulu_timestamp has_valid_card has_valid_deliveries has_valid_actions toy
update_from_event-merged = refl

update_from_event-Follows_example : Follows toy opened_mirror merged_event merged_mirror
update_from_event-Follows_example =
    update_from_event-Follows toy opened_mirror merged_mirror merged_event "xxxxxx"
      update_from_event-merged
