-- ===== src/Mirror/Cards/Operations.antt =====
-- Each operation on a card, and compare-and-set, keeps the document sound.
use study_os_agent_gateway.Common.{
  ℕ, String, ◌≡◌, Bool, true, false, not, ◌||◌, some, if◌then◌else◌, is_some, string_eq, bool_eq,
  nat_eq, ◌==◌, option_eq, list_eq, raise_if, or_raise, Returns, Returns-intro, Returns-or_raise,
  Returns-bind, Returns-then, value_error, key_error, mirror_revision_conflict, mutation_reentry,
  ok, raise, Stdlib,
}
use study_os_agent_gateway.Common.Dict.{Dict}
use study_os_agent_gateway.Common.Dict
use study_os_agent_gateway.Mirror.Updates.Kept.{updated_record-IsSuccessor}
use study_os_agent_gateway.Mirror.Cards.Safe.{
  if-IsSafe, KeepsSafe, >=>-KeepsSafe, on_mirror-KeepsSafe, write_mirror-IsSafe,
}
use study_os_agent_gateway.Mirror.Store.Safe.{on_disk_mirrors, >>>-IsSafe, loaded, load_records->=>}
use study_os_agent_gateway.Mirror.Store.{load_records, return, ◌>>>◌, MirrorEnv, ◌>=>◌, StoreAction}
use study_os_agent_gateway.Mirror.Updates.{
  queueing, attaching, cleared, claiming, cleaned, published, releasing, queue_card_cleanup_record,
  complete_card_cleanup_record, clear_card_record, attach_card_record, claim_card_record,
  release_card_creation_record,
}
use study_os_agent_gateway.Mirror.Record.{item_kind_eq, item_state_eq, Mirror}
use study_os_agent_gateway.Mirror.Cards.{
  current_mirror, compare_and_set_mirror, complete_publication, clear_card_if_matches, in_callback,
  claim_card_creation, release_card_creation, attach_card_if_missing, write_mirror,
  complete_card_cleanup,
}

module _ (lib : Stdlib) (env : MirrorEnv) (id : String) where
  pub claim_card_creation-KeepsSafe : KeepsSafe lib (claim_card_creation lib env id)
  unfolding claim_card_creation claim_card_record
  claim_card_creation-KeepsSafe = on_mirror-KeepsSafe lib id _ λ current s safe at.
      if-IsSafe lib (is_some current.card_message_id || current.card_create_pending) _ _ s safe (
        write_mirror-IsSafe lib env current _ _
          (λ stamp. updated_record-IsSuccessor lib current (claiming lib env.new_nonce) stamp) s
          safe at)

  pub release_card_creation-KeepsSafe :
      (nonce : String) → KeepsSafe lib (release_card_creation lib env id nonce)
  unfolding release_card_creation release_card_creation_record
  release_card_creation-KeepsSafe nonce = on_mirror-KeepsSafe lib id _ λ current s safe at.
      if-IsSafe lib
        (is_some current.card_message_id || not (current.card_create_nonce == some nonce)) _ _ s
        safe
        (write_mirror-IsSafe lib env current _ _
          (λ stamp. updated_record-IsSuccessor lib current (releasing lib) stamp) s safe at)

  pub complete_card_cleanup-KeepsSafe :
      (nonce : String) → KeepsSafe lib (complete_card_cleanup lib env id nonce)
  unfolding complete_card_cleanup complete_card_cleanup_record
  complete_card_cleanup-KeepsSafe nonce = on_mirror-KeepsSafe lib id _ λ current s safe at.
      if-IsSafe lib (not (current.card_cleanup_nonce == some nonce)) _ _ s safe (
        write_mirror-IsSafe lib env current _ _
          (λ stamp. updated_record-IsSuccessor lib current (cleaned lib) stamp) s safe at)

  pub complete_publication-KeepsSafe :
      (expected : ℕ) → KeepsSafe lib (complete_publication lib env id expected)
  unfolding complete_publication
  complete_publication-KeepsSafe expected = on_mirror-KeepsSafe lib id _ λ current s safe at.
      if-IsSafe lib (not (current.revision == expected) || not current.publication_pending) _ _ s
        safe
        (if-IsSafe lib
          (not (is_some current.card_message_id)
            || current.card_create_pending
            || is_some current.card_cleanup_nonce)
          _ _ s safe
          (write_mirror-IsSafe lib env current _ _
            (λ stamp. updated_record-IsSuccessor lib current (published lib) stamp) s safe at))

  pub clear_card_if_matches-KeepsSafe :
      (message_id : ℕ) → KeepsSafe lib (clear_card_if_matches lib env id message_id)
  unfolding clear_card_if_matches clear_card_record
  clear_card_if_matches-KeepsSafe message_id = on_mirror-KeepsSafe lib id _ λ current s safe at.
      if-IsSafe lib (not (current.card_message_id == some message_id)) _ _ s safe (
        write_mirror-IsSafe lib env current _ _
          (λ stamp. updated_record-IsSuccessor lib current (cleared lib) stamp) s safe at)

  pub attach_card_if_missing-KeepsSafe :
      (message_id : ℕ) (nonce : String)
      → KeepsSafe lib (attach_card_if_missing lib env id message_id nonce)
  unfolding attach_card_if_missing queue_card_cleanup_record attach_card_record
  attach_card_if_missing-KeepsSafe message_id nonce s safe =
      >>>-IsSafe lib (λ _. Unit {0}) (raise_if s.callback_active mutation_reentry) _ s
        (Returns-intro (λ _. Unit {0}) _ (λ _ _. tt)) safe
        (λ _ _.
          >>>-IsSafe lib (λ _. Unit {0}) (raise_if (message_id == 0) value_error) _ s
            (Returns-intro (λ _. Unit {0}) _ (λ _ _. tt)) safe (λ _ _. on_stored s safe))
    where
      on_stored : KeepsSafe lib {A = Mirror × Bool} (λ s.
          (load_records lib >=> λ d. or_raise (Dict.get d id) key_error >>> λ current.
          if is_some current.card_message_id
          then if current.card_cleanup_nonce == some nonce
            then return (current, false)
            else if is_some current.card_cleanup_nonce
            then raise mirror_revision_conflict >>> return
            else write_mirror lib env d
                (queue_card_cleanup_record lib current nonce)
                (λ r. (r, false))
          else if not (current.card_create_nonce == some nonce)
          then raise mirror_revision_conflict >>> return
          else write_mirror lib env d
              (attach_card_record lib current message_id nonce)
              (λ r. (r, true)))
            s)
      on_stored s safe = load_records->=> lib _ s safe (
          >>>-IsSafe lib (λ r. Dict.get (on_disk_mirrors s.document) id ≡ some r)
            (or_raise (Dict.get (on_disk_mirrors s.document) id) key_error) _ (loaded s)
            (Returns-or_raise (Dict.get (on_disk_mirrors s.document) id) key_error) safe
            (λ current at.
              if-IsSafe lib (is_some current.card_message_id) _ _ (loaded s)
                (if-IsSafe lib (current.card_cleanup_nonce == some nonce) _ _ (loaded s) safe (
                  if-IsSafe lib (is_some current.card_cleanup_nonce) _ _ (loaded s) safe (
                    write_mirror-IsSafe lib env current _ _
                      (λ stamp. updated_record-IsSuccessor lib current (queueing lib nonce) stamp)
                      (loaded s) safe (id, at))))
                (if-IsSafe lib (not (current.card_create_nonce == some nonce)) _ _ (loaded s) safe (
                  write_mirror-IsSafe lib env current _ _
                    (λ stamp.
                      updated_record-IsSuccessor lib current (attaching lib message_id nonce) stamp)
                    (loaded s) safe (id, at)))))

  -- The record that the second load of a compare-and-set finds.
  current_mirror-Returns :
      (d : Dict String Mirror) (expected : ℕ)
      → Returns (λ r. Dict.get d id ≡ some r) (current_mirror d id expected)
  unfolding current_mirror
  current_mirror-Returns d expected =
      let P : Mirror → Type 0 = λ r. Dict.get d id ≡ some r in
      Returns-bind P P (or_raise (Dict.get d id) key_error) _
        (Returns-or_raise (Dict.get d id) key_error)
        (λ r _ at.
          Returns-then P (raise_if (not (r.revision == expected)) mirror_revision_conflict) _
            (λ _ _. at))

  -- Given a callback during which the document stays sound.
  pub compare_and_set_mirror-KeepsSafe :
      (expected : ℕ) (update : Mirror → StoreAction Mirror)
      → ((current : Mirror) → KeepsSafe lib (update current))
      → KeepsSafe lib (compare_and_set_mirror lib env id expected update)
  unfolding compare_and_set_mirror
  compare_and_set_mirror-KeepsSafe expected update keeps s safe =
      >>>-IsSafe lib (λ _. Unit {0}) (raise_if s.callback_active mutation_reentry) _ s
        (Returns-intro (λ _. Unit {0}) _ (λ _ _. tt)) safe
        (λ _ _. load_records->=> lib _ s safe (
          >=>-KeepsSafe lib
            (current_mirror (on_disk_mirrors s.document) id expected >>> in_callback update) _
            (λ s' safe'.
              >>>-IsSafe lib (λ _. Unit {0})
                (current_mirror (on_disk_mirrors s.document) id expected) _ s'
                (Returns-intro (λ _. Unit {0}) _ (λ _ _. tt)) safe'
                (λ current _. keeps current (record s' { callback_active = true }) safe'))
            (λ candidate t kept. load_records->=> lib _ t kept (
              >>>-IsSafe lib (λ r. Dict.get (on_disk_mirrors t.document) id ≡ some r)
                (current_mirror (on_disk_mirrors t.document) id expected) _ (loaded t)
                (current_mirror-Returns (on_disk_mirrors t.document) expected) kept
                (λ now at.
                  write_mirror-IsSafe lib env now _ _
                    (λ stamp. updated_record-IsSuccessor lib now (λ _. ok candidate) stamp)
                    (loaded t) kept (id, at))))
            (loaded s) safe))
