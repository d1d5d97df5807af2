-- ===== src/Mirror/Publisher.antt =====
-- The publication of a mirror's card: github_mirror_publisher.py, class `GitHubMirrorPublisher`. The
-- outside is a sequence of worlds, of which every await and every call of the store uses up the next.
-- The calls between the parts of the publication run on fuel.
pub mod Deletions
pub mod Kept
pub mod Shown
use study_os_agent_gateway.Common.{
  ℕ, zero, suc, ◌+◌, String, Bool, true, false, not, ◌&&◌, Option, none, some, List, [], ◌∷◌, ◌++◌,
  ltb, if◌then◌else◌, string_eq, bool_eq, nat_eq, ◌==◌, option_eq, list_eq, Error, Result,
  durability_error, runtime_error, cancelled, not_found, forbidden, http_error, channel_access, ok,
  raise, Stdlib,
}
use study_os_agent_gateway.Mirror.Store.{get_mirror, StoreAction, MirrorEnv, MirrorStore}
use study_os_agent_gateway.Mirror.Updates.{cleaned}
use study_os_agent_gateway.Mirror.Record.{item_kind_eq, item_state_eq, Mirror}
use study_os_agent_gateway.Mirror.Cards.{complete_card_cleanup}
use study_os_agent_gateway.Common.Method.{Method, return, fail, from, ◌>>=◌, ◌>>◌}

-- What one step meets: the channel, the messages with a nonce, what Discord answers, what the store's
-- operation needs, and what others have done to the store before it goes on.
pub record World : Type 0 where
  pub channel : Result (Unit {0})
  pub found : Result (List ℕ)
  pub sent : Result ℕ
  pub fetched : Result (Unit {0})
  pub edited : Result (Unit {0})
  pub deleted : Result (Unit {0})
  pub env : MirrorEnv
  pub others : MirrorStore → MirrorStore

-- What reaches Discord, by the message; an edit with the revision of the record that it shows.
pub data CardEffect : Type 0 where
  card_sent : String → CardEffect
  card_edited : ℕ → (revision : ℕ) → CardEffect
  card_deleted : ℕ → CardEffect

pub record Publishing : Type 0 where
  pub store : MirrorStore
  pub tick : ℕ
  pub effects : List CardEffect

abbrev pub Publish : Type 0 → Type 0
Publish A = Method Publishing A

-- `_RECONCILE_ATTEMPTS`
abbrev pub reconcile_attempts : ℕ
reconcile_attempts = 8

-- The two ways in which the publication goes on: `_create_card` and `_finish_attached_card`.
pub data Goal : Type 0 where
  creating : Mirror → Goal
  finishing : Mirror → Option ℕ → ℕ → Goal

abbrev pub is_not_found : Error → Bool
is_not_found not_found = true
is_not_found e = false

abbrev pub is_forbidden : Error → Bool
is_forbidden forbidden = true
is_forbidden e = false

-- `discord.HTTPException`, which `NotFound` and `Forbidden` inherit from.
abbrev pub is_http : Error → Bool
is_http http_error = true
is_http not_found = true
is_http forbidden = true
is_http e = false

abbrev pub is_durability : Error → Bool
is_durability durability_error = true
is_durability e = false

abbrev pub is_cancellation : Error → Bool
is_cancellation cancelled = true
is_cancellation e = false

abbrev pub no_access : Error → Error
no_access e = if is_forbidden e then channel_access else e

-- `min(messages)`, of messages that are there.
abbrev pub least : ℕ → List ℕ → ℕ
least m [] = m
least m (n ∷ ns) = least (if ltb n m then n else m) ns

-- `github_mirror_card_signature`, compared.
unfoldable pub same_signature : Mirror → Mirror → Bool
same_signature a b =
    (a.mirror_id == b.mirror_id)
    && (a.repository_full_name == b.repository_full_name)
    && (a.item_kind == b.item_kind)
    && (a.item_number == b.item_number)
    && (a.item_url == b.item_url)
    && (a.title == b.title)
    && (a.state == b.state)
    && (a.author_login == b.author_login)
    && (a.labels == b.labels)
    && (a.base_ref == b.base_ref)
    && (a.head_ref == b.head_ref)
    && (a.activity == b.activity)

-- The result of a part, exceptions included.
abbrev pub outcome_of : {A : Type 0} → Result A × Publishing → Result (Result A) × Publishing
outcome_of (r, s) = (ok r, s)

unfoldable pub attempt : {A : Type 0} → Publish A → Publish (Result A)
attempt m s = outcome_of (m s)

module _ (lib : Stdlib) (world : ℕ → World) where
  -- An await, with its effect; a call of the store.
  unfoldable pub ask : {A : Type 0} → (World → A) → List CardEffect → Publish A
  ask f seen s =
      let w = world s.tick in
      (
        ok (f w),
        record { store = w.others s.store; tick = s.tick + 1; effects = s.effects ++ seen },
      )

  unfoldable pub call : {A : Type 0} → (MirrorEnv → StoreAction A) → Publish A
  call m s =
      let (r, t) = m (world s.tick).env s.store in (r, record s { store = t; tick = s.tick + 1 })

  unfoldable pub get : String → Publish Mirror
  unfolding call get_mirror
  get id = call (λ _. get_mirror lib id)

  unfoldable pub find_messages : String → Publish (List ℕ)
  unfolding ◌>>=◌ ask
  find_messages nonce = ask (λ w. w.found) [] >>= λ r. from r

  abbrev pub or_no_access : Result (Unit {0}) → Result (Unit {0})
  or_no_access (ok u) = ok u
  or_no_access (raise e) = raise (no_access e)

  -- `_render_card`
  unfoldable pub render_card : ℕ → (revision : ℕ) → Publish (Unit {0})
  unfolding ◌>>=◌ ask
  render_card card revision =
      ask (λ w. w.edited) (card_edited card revision ∷ []) >>= λ r. from (or_no_access r)

  -- `_reconcile_card`, with the revision that was rendered.
  unfoldable pub reconcile_card : ℕ → ℕ → String → ℕ → Publish Mirror
  unfolding ◌>>=◌ get render_card
  reconcile_card zero card id revision = fail runtime_error
  reconcile_card (suc n) card id revision =
      let again = reconcile_card n card id in
      get id >>= λ canonical.
      if not (canonical.card_message_id == some card)
      then return canonical
      else ((if canonical.revision == revision
            then return tt
            else render_card card canonical.revision)
          >>= λ _. get id >>= λ latest.
              if not (latest.card_message_id == some card)
              then return latest
              else if latest.revision == canonical.revision
              then return latest
              else again canonical.revision)

  -- The loop of `_delete_nonce_matches`.
  abbrev pub unless_not_found : Result (Unit {0}) → Result (Unit {0})
  unless_not_found (ok u) = ok u
  unless_not_found (raise e) = if is_not_found e then ok tt else raise e

  unfoldable pub delete_each : Option ℕ → List ℕ → Publish (Unit {0})
  unfolding ◌>>=◌ ask
  delete_each keep [] = return tt
  delete_each keep (m ∷ ms) =
      let rest = delete_each keep ms in
      if keep == some m
      then rest
      else (ask (λ w. w.deleted) (card_deleted m ∷ []) >>= λ r.
          from (unless_not_found r) >>= λ _. rest)

  unfoldable pub delete_nonce_matches : String → Option ℕ → Publish (Unit {0})
  unfolding ◌>>=◌ find_messages delete_each
  delete_nonce_matches nonce keep = find_messages nonce >>= delete_each keep

  -- `_delete_uncommitted_cards`
  abbrev pub after_delete : Publish Bool → Result (Unit {0}) → Publish Bool
  after_delete rest (ok u) = rest
  after_delete rest (raise e) =
      if is_not_found e
      then rest
      else if is_cancellation e
      then fail e
      else (rest >>= λ _. return false)

  unfoldable pub delete_uncommitted_cards : List ℕ → Publish Bool
  unfolding ◌>>=◌ ask
  delete_uncommitted_cards [] = return true
  delete_uncommitted_cards (m ∷ ms) =
      let rest = delete_uncommitted_cards ms in
      ask (λ w. w.deleted) (card_deleted m ∷ []) >>= after_delete rest

  -- `_cleanup_duplicates`
  abbrev pub clean_nonce : ℕ → Mirror → Option String → Publish Mirror
  clean_nonce card r none = return r
  clean_nonce card r (some nonce) = do
    delete_nonce_matches nonce (some card)
    cleaned ← call (λ env. complete_card_cleanup lib env r.mirror_id nonce)
    (if same_signature cleaned r
        then return cleaned
        else (render_card card cleaned.revision >>= λ _.
            reconcile_card reconcile_attempts card cleaned.mirror_id cleaned.revision))

  unfoldable pub cleanup_duplicates : ℕ → Mirror → Publish Mirror
  unfolding ◌>>=◌ delete_nonce_matches call complete_card_cleanup same_signature render_card
      reconcile_card
  cleanup_duplicates card r = clean_nonce card r r.card_cleanup_nonce
