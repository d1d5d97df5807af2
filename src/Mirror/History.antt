-- ===== src/Mirror/History.antt =====
-- The life of the store of mirrors: its operations in any order, failing or not. While the callback
-- of a compare-and-set runs, others write: the state that it continues in is any that others reach.
use study_os_agent_gateway.Common.{
  ℕ, String, ◌≡◌, true, false, none, some, [], string_eq, bool_eq, nat_eq, option_eq, list_eq,
  member, Result, ok, Stdlib,
}
use study_os_agent_gateway.Common.Dict
use study_os_agent_gateway.Mirror.Cards.Operations.{
  complete_card_cleanup-KeepsSafe, complete_publication-KeepsSafe, claim_card_creation-KeepsSafe,
  attach_card_if_missing-KeepsSafe, clear_card_if_matches-KeepsSafe,
  release_card_creation-KeepsSafe, compare_and_set_mirror-KeepsSafe,
}
use study_os_agent_gateway.Mirror.Store.Events.{upsert_event-IsSafe}
use study_os_agent_gateway.Mirror.Store.Safe.{loaded, IsSafe, on_disk_mirrors, load_records-ok}
use study_os_agent_gateway.Mirror.Store.{load_records, upsert_event, MirrorEnv, MirrorStore}
use study_os_agent_gateway.Mirror.Invariant.{IsSoundMirrors-empty}
use study_os_agent_gateway.Mirror.Record.{
  MirrorEvent, Mirror, logical_key, item_state_eq, same_key, item_kind_eq,
}
use study_os_agent_gateway.Mirror.Cards.{
  release_card_creation, claim_card_creation, complete_card_cleanup, complete_publication,
  compare_and_set_mirror, clear_card_if_matches, attach_card_if_missing,
}

pub data Reach (lib : Stdlib) : MirrorStore → Type 0 where
  start : Reach lib (record { records = []; document = none; callback_active = false })
  upserted :
      {s : MirrorStore} (env : MirrorEnv) (e : MirrorEvent) (guild channel : ℕ)
      → Reach lib s
      → Reach lib (upsert_event lib env e guild channel s).1
  compared :
      {s t : MirrorStore} (env : MirrorEnv) (id : String) (n : ℕ) (update : Mirror → Result Mirror)
      → Reach lib s
      → Reach lib t
      → Reach lib (compare_and_set_mirror lib env id n (λ r _. (update r, t)) s).1
  attached :
      {s : MirrorStore} (env : MirrorEnv) (id : String) (message_id : ℕ) (nonce : String)
      → Reach lib s
      → Reach lib (attach_card_if_missing lib env id message_id nonce s).1
  claimed :
      {s : MirrorStore} (env : MirrorEnv) (id : String)
      → Reach lib s
      → Reach lib (claim_card_creation lib env id s).1
  released :
      {s : MirrorStore} (env : MirrorEnv) (id nonce : String)
      → Reach lib s
      → Reach lib (release_card_creation lib env id nonce s).1
  cleaned_up :
      {s : MirrorStore} (env : MirrorEnv) (id nonce : String)
      → Reach lib s
      → Reach lib (complete_card_cleanup lib env id nonce s).1
  completed :
      {s : MirrorStore} (env : MirrorEnv) (id : String) (n : ℕ)
      → Reach lib s
      → Reach lib (complete_publication lib env id n s).1
  forgot :
      {s : MirrorStore} (env : MirrorEnv) (id : String) (message_id : ℕ)
      → Reach lib s
      → Reach lib (clear_card_if_matches lib env id message_id s).1

pub Reach-IsSafe : {lib : Stdlib} {s : MirrorStore} → Reach lib s → IsSafe lib s
Reach-IsSafe {lib} start = IsSoundMirrors-empty lib
Reach-IsSafe {lib} (upserted env e guild channel r) =
    upsert_event-IsSafe lib env e guild channel _ (Reach-IsSafe r)
Reach-IsSafe {lib} (compared {s} {t} env id n update r q) =
    compare_and_set_mirror-KeepsSafe lib env id n (λ r _. (update r, t)) (λ _ _ _. Reach-IsSafe q) s
      (Reach-IsSafe r)
Reach-IsSafe {lib} (attached env id message_id nonce r) =
    attach_card_if_missing-KeepsSafe lib env id message_id nonce _ (Reach-IsSafe r)
Reach-IsSafe {lib} (claimed env id r) = claim_card_creation-KeepsSafe lib env id _ (Reach-IsSafe r)
Reach-IsSafe {lib} (released env id nonce r) =
    release_card_creation-KeepsSafe lib env id nonce _ (Reach-IsSafe r)
Reach-IsSafe {lib} (cleaned_up env id nonce r) =
    complete_card_cleanup-KeepsSafe lib env id nonce _ (Reach-IsSafe r)
Reach-IsSafe {lib} (completed env id n r) =
    complete_publication-KeepsSafe lib env id n _ (Reach-IsSafe r)
Reach-IsSafe {lib} (forgot env id message_id r) =
    clear_card_if_matches-KeepsSafe lib env id message_id _ (Reach-IsSafe r)

-- Whatever happens to the store, its next load returns the document and never reports corruption:
-- every record is well formed, stands under its own identifier, keeps at most 64 handled claims, and
-- no two records mirror one item.
pub document_always_loads :
    {lib : Stdlib} {s : MirrorStore}
    → Reach lib s
    → load_records lib s ≡ (ok (on_disk_mirrors s.document), loaded s)
document_always_loads {lib} {s} reached = load_records-ok lib s (Reach-IsSafe reached)

-- Whatever happens to the store, an issue or pull request has at most one mirror: two records that
-- agree on repository, kind and number are one.
pub one_mirror_per_item :
    {lib : Stdlib} {s : MirrorStore} (j k : String) (r q : Mirror)
    → Reach lib s
    → Dict.get (on_disk_mirrors s.document) j ≡ some r
    → Dict.get (on_disk_mirrors s.document) k ≡ some q
    → same_key (logical_key r) (logical_key q) ≡ true
    → j ≡ k
one_mirror_per_item j k r q reached = (Reach-IsSafe reached).one_item j k r q

-- Whatever happens to the store, a webhook delivery is remembered by at most one mirror.
pub one_mirror_per_delivery :
    {lib : Stdlib} {s : MirrorStore} (j k : String) (r q : Mirror) (x : String)
    → Reach lib s
    → Dict.get (on_disk_mirrors s.document) j ≡ some r
    → Dict.get (on_disk_mirrors s.document) k ≡ some q
    → member x r.recent_delivery_ids ≡ true
    → member x q.recent_delivery_ids ≡ true
    → j ≡ k
one_mirror_per_delivery j k r q x reached = (Reach-IsSafe reached).one_delivery j k r q x
