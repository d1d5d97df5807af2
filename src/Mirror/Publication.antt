-- ===== src/Mirror/Publication.antt =====
-- The publication of a card as a whole: github_mirror_publisher.py, `publish`, `publish_staged`,
-- `_create_card` and `_finish_attached_card`, which call one another.
pub mod Destination
use study_os_agent_gateway.Common.{
  ℕ, zero, suc, ◌+◌, String, Bool, true, false, not, ◌&&◌, Option, none, some, List, [], ◌∷◌, leb,
  if◌then◌else◌, is_some, string_eq, bool_eq, nat_eq, ◌==◌, option_eq, list_eq, Error, Result,
  or_raise, out_of_fuel, runtime_error, channel_access, configuration_missing, assertion_error, ok,
  raise, Stdlib,
}
use study_os_agent_gateway.Common.Method.{return, fail, from, fail_if, ◌>>=◌, ◌>>◌, catch}
use study_os_agent_gateway.Mirror.Store.{upsert_event}
use study_os_agent_gateway.Mirror.Publisher.{
  ask, Publish, World, cleanup_duplicates, creating, is_not_found, reconcile_attempts, call, least,
  is_cancellation, finishing, is_durability, delete_nonce_matches, render_card, card_sent,
  no_access, Goal, get, is_forbidden, delete_uncommitted_cards, find_messages, is_http, attempt,
  reconcile_card,
}
use study_os_agent_gateway.Mirror.Updates.{cleaned, cleared}
use study_os_agent_gateway.Mirror.Record.{MirrorEvent, item_kind_eq, Mirror, item_state_eq}
use study_os_agent_gateway.Mirror.Cards.{
  complete_publication, complete_card_cleanup, attach_card_if_missing, clear_card_if_matches,
  release_card_creation, claim_card_creation,
}

-- `try: m except Exception: h`.
unfoldable pub catch_failure : {A : Type 0} → Publish A → (Error → Publish A) → Publish A
unfolding catch
catch_failure m h = catch m (λ e. if is_cancellation e then fail e else h e)

module _ (lib : Stdlib) (world : ℕ → World) where
  -- `again` is the rest of the publication.
  module _ (again : Goal → Publish Mirror) where
    -- `_best_effort_reconcile_uncertain_attachment`
    unfoldable pub reconcile_uncertain : Mirror → ℕ → Publish (Unit {0})
    unfolding catch_failure ◌>>=◌ get
    reconcile_uncertain r m =
        catch_failure
          (get lib world r.mirror_id >>= λ canonical.
            if is_some canonical.card_message_id
            then (again (finishing canonical (some m) 0) >>= λ _. return tt)
            else return tt)
          (λ x. return tt)

    -- `_attach_created_cards`
    abbrev pub release_if : Bool → Mirror → String → Publish (Unit {0})
    release_if true r nonce =
        call lib world (λ env. release_card_creation lib env r.mirror_id nonce) >>= λ _. return tt
    release_if false r nonce = return tt

    unfoldable pub after_attach :
        List ℕ → Mirror → ℕ → String → Result (Mirror × Bool) → Publish Mirror
    unfolding ◌>>=◌ reconcile_uncertain delete_uncommitted_cards call release_card_creation
    after_attach messages r m nonce (ok (retained, is_new)) = again (finishing retained (some m) 0)
    after_attach messages r m nonce (raise x) =
        if is_durability x
        then (reconcile_uncertain r m >>= λ _. fail x)
        else (delete_uncommitted_cards lib world messages >>= λ removed.
            release_if removed r nonce >>= λ _. fail x)

    unfoldable pub attach_created_cards : ℕ → List ℕ → Mirror → String → Publish Mirror
    unfolding ◌>>=◌ attempt call attach_card_if_missing after_attach
    attach_created_cards first messages r nonce =
        let m = least first messages in
        fail_if (m == 0) runtime_error >>= λ _.
        attempt (call lib world (λ env. attach_card_if_missing lib env r.mirror_id m nonce))
        >>= after_attach (first ∷ messages) r m nonce

    -- `_create_card`, after the message was sent; without messages of the nonce the error passes on.
    abbrev pub attach_or : Publish Mirror → Mirror → String → List ℕ → Publish Mirror
    attach_or missing r nonce [] = missing
    attach_or missing r nonce (m ∷ ms) = attach_created_cards m ms r nonce

    unfoldable pub after_sending : Mirror → String → Result ℕ → Publish Mirror
    unfolding ◌>>=◌ attach_created_cards call release_card_creation find_messages
    after_sending r nonce (ok m) = attach_created_cards m [] r nonce
    after_sending r nonce (raise x) =
        if is_forbidden x
        then (call lib world (λ env. release_card_creation lib env r.mirror_id nonce) >>= λ _.
            fail channel_access)
        else if is_http x
        then (find_messages lib world nonce >>= attach_or (fail x) r nonce)
        else fail x

    unfoldable pub send_card : Mirror → String → Publish Mirror
    unfolding ◌>>=◌ ask after_sending
    send_card r nonce = ask lib world (λ w. w.sent) (card_sent nonce ∷ []) >>= after_sending r nonce

    abbrev pub create_with : Mirror → Bool → Option String → Publish Mirror
    create_with r is_mine none = fail runtime_error
    create_with r true (some nonce) = send_card r nonce
    create_with r false (some nonce) =
        find_messages lib world nonce >>= attach_or (send_card r nonce) r nonce

    unfoldable pub create_card : Mirror → Publish Mirror
    unfolding ◌>>=◌ call claim_card_creation send_card find_messages attach_created_cards
    create_card r = do
      pair ← call lib world (λ env. claim_card_creation lib env r.mirror_id)
      (if is_some pair.0.card_message_id
          then again (finishing pair.0 none 0)
          else create_with pair.0 pair.1 pair.0.card_create_nonce)

    -- `_replace_missing_card`
    abbrev pub clean_missing : Mirror → Option String → Publish Mirror
    clean_missing r none = return r
    clean_missing r (some nonce) = delete_nonce_matches lib world nonce none >>= λ _.
        call lib world (λ env. complete_card_cleanup lib env r.mirror_id nonce)

    unfoldable pub replace_missing_card : Mirror → ℕ → Publish Mirror
    unfolding ◌>>=◌ call delete_nonce_matches complete_card_cleanup clear_card_if_matches
    replace_missing_card r missing = do
      cleaned ← clean_missing r r.card_cleanup_nonce
      cleared ← call lib world (λ env. clear_card_if_matches lib env cleaned.mirror_id missing)
      (if is_some cleared.card_message_id
          then again (finishing cleared none 0)
          else again (creating cleared))

    -- The message of the card: `true` where Discord has it.
    abbrev pub fetched_or_missing : Result (Unit {0}) → Result Bool
    fetched_or_missing (ok u) = ok true
    fetched_or_missing (raise e) = if is_not_found e then ok false else raise (no_access e)

    unfoldable pub has_message : ℕ → Option ℕ → Publish Bool
    unfolding ◌>>=◌ ask
    has_message card message =
        if message == some card
        then return true
        else (ask lib world (λ w. w.fetched) [] >>= λ r. from (fetched_or_missing r))

    unfoldable pub finish_rendered : ℕ → Mirror → ℕ → Publish Mirror
    unfolding ◌>>=◌ render_card reconcile_card cleanup_duplicates
    finish_rendered card r redirects = do
      render_card lib world card r.revision
      retained ← reconcile_card lib world reconcile_attempts card r.mirror_id r.revision
      (if not (retained.card_message_id == some card)
          then again (finishing retained none (redirects + 1))
          else (cleanup_duplicates lib world card retained >>= λ cleaned.
              if not (cleaned.card_message_id == some card)
              then again (finishing cleaned none (redirects + 1))
              else return cleaned))

    unfoldable pub finish_attached_card : Mirror → Option ℕ → ℕ → Publish Mirror
    unfolding ◌>>=◌ catch has_message finish_rendered replace_missing_card
    finish_attached_card r message redirects = do
      fail_if (leb reconcile_attempts redirects) runtime_error
      card ← from (or_raise r.card_message_id assertion_error)
      there ← has_message card message
      (if there
          then catch (finish_rendered card r redirects)
              (λ x. if is_not_found x then replace_missing_card r card else fail x)
          else replace_missing_card r card)

    abbrev pub reach : Goal → Publish Mirror
    reach (creating r) = create_card r
    reach (finishing r message redirects) = finish_attached_card r message redirects

  unfoldable pub publish_card : ℕ → Goal → Publish Mirror
  unfolding create_card finish_attached_card
  publish_card zero goal = fail out_of_fuel
  publish_card (suc fuel) goal = reach (publish_card fuel) goal

  abbrev pub goal_of : Mirror → Goal
  goal_of r = if is_some r.card_message_id then finishing r none 0 else creating r

  -- The loop of `publish_staged`.
  unfoldable pub publish_rounds : ℕ → ℕ → String → Publish Mirror
  unfolding ◌>>=◌ get publish_card call complete_publication
  publish_rounds fuel zero id = fail runtime_error
  publish_rounds fuel (suc n) id =
      let again = publish_rounds fuel n id in
      get lib world id >>= λ r. publish_card fuel (goal_of r) >>= λ delivered.
      call lib world (λ env. complete_publication lib env id delivered.revision) >>= λ completed.
      if not completed.publication_pending then return completed else again

  unfoldable pub publish_staged : ℕ → Option ℕ → Option ℕ → String → Publish Mirror
  unfolding ◌>>=◌ get ask publish_rounds
  publish_staged fuel guild channel id = do
    r ← get lib world id
    fail_if (not ((some r.guild_id == guild) && (some r.channel_id == channel)))
        configuration_missing
    reached ← ask lib world (λ w. w.channel) []
    from reached
    publish_rounds fuel reconcile_attempts id

  -- `publish`
  abbrev pub publish_at : ℕ → MirrorEvent → Option ℕ → Option ℕ → Publish Mirror
  publish_at fuel e (some guild) (some channel) =
      call lib world (λ env. upsert_event lib env e guild channel) >>= λ upsert.
      publish_staged fuel (some guild) (some channel) upsert.mirror.mirror_id
  publish_at fuel e guild channel = fail configuration_missing

  unfoldable pub publish : ℕ → Option ℕ → Option ℕ → MirrorEvent → Publish Mirror
  unfolding ◌>>=◌ call upsert_event publish_staged
  publish fuel guild channel e = publish_at fuel e guild channel
