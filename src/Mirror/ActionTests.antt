-- ===== src/Mirror/ActionTests.antt =====
-- A task takes the mirror of a pull request, gets a thread and finishes, while others write nothing.
use study_os_agent_gateway.Common.{
  String, ◌≡◌, refl, true, false, none, some, [], ◌∷◌, is_hex_of_length, is_bounded, is_login, ok,
  aware, string_eq, nat_eq,
}
use study_os_agent_gateway.Mirror.Actions.Ended.{
  IsAttached, claim_of, attach_thread-Attached, IsFinished, finish_action-Finished,
}
use study_os_agent_gateway.Mirror.Store.{MirrorStore, read_document, decode_document}
use study_os_agent_gateway.Mirror.Record.{
  is_well_formed_pending, is_well_formed_claim, has_valid_identity, has_valid_deliveries,
  has_valid_labels, is_opaque_task_id, is_zulu_timestamp, has_valid_item, has_valid_references,
  has_valid_actions, is_positive_integer, has_valid_card, is_well_formed_mirror, work, Mirror,
  item_kind_eq, PendingAction, item_state_eq,
}
use study_os_agent_gateway.Mirror.Actions.{Reservation, finish_action, attach_thread, Attempt}
use study_os_agent_gateway.Mirror.Tests.{mirror_env, opened_mirror}
use study_os_agent_gateway.Task.Tests.{toy, first_id}
use study_os_agent_gateway.Mirror.Updates.{record_from_event_fields}
use study_os_agent_gateway.Common.Dict

abbrev undisturbed : Attempt
undisturbed = record { env = mirror_env; claim_clock = aware 4; others = λ s. s }

abbrev reserved : PendingAction
reserved = record { interaction_id = 7; action = work; task_id = first_id; claimed_at = "xxxx" }

abbrev reserved_mirror : Mirror
reserved_mirror = record opened_mirror { revision = 1; pending_action = some reserved }

abbrev granted : Reservation
granted = record { mirror = reserved_mirror; task_id = first_id; accepted = true; succeeded = none }

abbrev one_reserved : Dict.Dict String Mirror
one_reserved = (first_id, reserved_mirror) ∷ []

abbrev after_reserved : MirrorStore
after_reserved = record {
  records = one_reserved;
  document = some one_reserved;
  callback_active = false;
}

one_reserved-read : read_document toy after_reserved.document ≡ ok one_reserved
unfolding toy is_well_formed_mirror has_valid_item is_hex_of_length is_positive_integer
    has_valid_identity is_bounded is_login has_valid_labels has_valid_references is_zulu_timestamp
    has_valid_card has_valid_deliveries has_valid_actions decode_document Dict.set Dict.get
    is_well_formed_pending is_well_formed_claim is_opaque_task_id record_from_event_fields
one_reserved-read = refl

reserved-here : Dict.get one_reserved first_id ≡ some reserved_mirror
unfolding Dict.get
reserved-here = refl

abbrev finished_mirror : Mirror
finished_mirror = record opened_mirror {
  revision = 2;
  active_task_id = some first_id;
  handled_interaction_claims = claim_of reserved true ∷ [];
}

finish-first :
    (finish_action toy (undisturbed ∷ []) first_id first_id true after_reserved).0
    ≡ ok finished_mirror
unfolding finish_action toy is_well_formed_mirror has_valid_item is_hex_of_length
    is_positive_integer has_valid_identity is_bounded is_login has_valid_labels has_valid_references
    is_zulu_timestamp has_valid_card has_valid_deliveries has_valid_actions decode_document Dict.set
    Dict.get is_well_formed_pending is_well_formed_claim is_opaque_task_id record_from_event_fields
finish-first = refl

finish_action-Finished_example : IsFinished first_id true reserved_mirror finished_mirror
finish_action-Finished_example =
    finish_action-Finished toy first_id first_id reserved_mirror one_reserved undisturbed true
      after_reserved finished_mirror one_reserved-read reserved-here finish-first

abbrev threaded_mirror : Mirror
threaded_mirror = record reserved_mirror { revision = 2; thread_id = some 8 }

attach_thread-first :
    (attach_thread toy (undisturbed ∷ []) first_id first_id 8 after_reserved).0 ≡ ok threaded_mirror
unfolding attach_thread toy is_well_formed_mirror has_valid_item is_hex_of_length
    is_positive_integer has_valid_identity is_bounded is_login has_valid_labels has_valid_references
    is_zulu_timestamp has_valid_card has_valid_deliveries has_valid_actions decode_document Dict.set
    Dict.get is_well_formed_pending is_well_formed_claim is_opaque_task_id record_from_event_fields
attach_thread-first = refl

attach_thread-Attached_example : IsAttached first_id 8 reserved_mirror threaded_mirror
attach_thread-Attached_example =
    attach_thread-Attached toy first_id first_id reserved_mirror one_reserved undisturbed 8
      after_reserved threaded_mirror one_reserved-read reserved-here attach_thread-first
