-- ===== src/Mirror/DocumentTests.antt =====
-- The document of a store that mirrors one pull request.
use study_os_agent_gateway.Mirror.Document.Accepted.{decode_mirrors-Accepted}
use study_os_agent_gateway.Mirror.Store.{decode_document}
use study_os_agent_gateway.Common.{Returns}
use study_os_agent_gateway.Common.{
  String, ◌≡◌, refl, subst, inl, inr, Option, none, some, Bool-cases, string_eq, bool_eq, nat_eq,
  ◌==◌, option_eq, list_eq, ok,
}
use study_os_agent_gateway.Mirror.Document.RoundTrip.{HasSoundActions, mirrors_round_trip}
use study_os_agent_gateway.Mirror.Store.Safe.{on_disk_mirrors}
use study_os_agent_gateway.Mirror.Document.{decode_mirrors, encode_mirrors}
use study_os_agent_gateway.Mirror.Record.{Mirror, item_state_eq, item_kind_eq}
use study_os_agent_gateway.Mirror.Updates.{record_from_event_fields}
use study_os_agent_gateway.Mirror.History.{Reach-IsSafe}
use study_os_agent_gateway.Common.Json.{sort_keys}
use study_os_agent_gateway.Mirror.Tests.{after_opened, after_opened-Reach, opened_mirror}
use study_os_agent_gateway.Task.Tests.{toy, first_id}
use study_os_agent_gateway.Common.Dict

-- The mirrors on its disk.
abbrev one_mirror : Dict.Dict String Mirror
one_mirror = on_disk_mirrors after_opened.document

no_nonce : String → Option String
no_nonce s = none

no_actions : (k : String) (r : Mirror) → Dict.get one_mirror k ≡ some r → HasSoundActions toy r
unfolding Dict.get record_from_event_fields
no_actions k r found = elim (Bool-cases (first_id == k)) [
  | inl eq ↦
      let same : opened_mirror ≡ r = cc (rw eq at found) in
      subst (λ q. HasSoundActions toy q) same (refl, refl)
  | inr ne ↦ absurd (cc (rw ne at found))
]

mirrors_round_trip_example :
    (decoded : Dict.Dict String Mirror) × (decode_mirrors toy no_nonce
        (some (sort_keys (encode_mirrors one_mirror)))
      ≡ ok decoded)
    × ((k : String) → Dict.get decoded k ≡ Dict.get one_mirror k)
mirrors_round_trip_example =
    mirrors_round_trip toy no_nonce (λ _. "document")
      (λ _. some (sort_keys (encode_mirrors one_mirror))) one_mirror refl
      (Reach-IsSafe after_opened-Reach) no_actions

decode_mirrors-Accepted_example :
    Returns
      (λ d. decode_document toy d ≡ ok d)
      (decode_mirrors toy no_nonce (some (sort_keys (encode_mirrors one_mirror))))
decode_mirrors-Accepted_example =
    decode_mirrors-Accepted toy no_nonce (some (sort_keys (encode_mirrors one_mirror)))
