-- ===== src/Mirror/Store/Redelivery.antt =====
-- A webhook delivery that arrives again.
use study_os_agent_gateway.Common.{
  ℕ, String, ◌≡◌, refl, sym, ap, subst, ◌∙◌, inl, inr, Bool, true, false, not, ◌&&◌, Option, none,
  some, Bool-cases, string_eq, bool_eq, nat_eq, ◌==◌, option_eq, beq_self, list_eq, find, member,
  Result, raise_if, Returns, ◌>>=◌, Returns-then, Returns-map, value_error, mutation_reentry, ok,
  raise, Stdlib,
}
use study_os_agent_gateway.Mirror.Store.Events.{upsert_event-IsSafe}
use study_os_agent_gateway.Common.Dict.{Dict}
use study_os_agent_gateway.Mirror.Updates.Delivered.{
  update_from_event-Returns, IsDelivered, record_from_event-Returns,
}
use study_os_agent_gateway.Mirror.Updates.{record_from_event, update_from_event}
use study_os_agent_gateway.Common.Dict
use study_os_agent_gateway.Mirror.Store.Safe.{loaded, IsSafe, on_disk_mirrors, load_records-ok}
use study_os_agent_gateway.Mirror.Store.{
  mirror_timestamp, ◌>>>◌, continue, load_records, StoreAction, record_for_event, commit_records,
  commit_record, ◌>=>◌, return, upsert_in, upsert_with, upsert_event, event_key, delivery_owner,
  MirrorEnv, Upsert, same_mirror_key, MirrorStore,
}
use study_os_agent_gateway.Mirror.Invariant.{IsValidEntry-own, same_key_sym, same_key_trans}
use study_os_agent_gateway.Mirror.Record.{
  MirrorEvent, Mirror, logical_key, item_state_eq, same_key, item_kind_eq,
}

-- What a successful `upsert_event` left.
record IsRecorded (e : MirrorEvent) (r : Mirror) (s : MirrorStore) : Type 0 where
  pub idle : s.callback_active ≡ false
  pub key : String
  pub at : Dict.get (on_disk_mirrors s.document) key ≡ some r
  pub event_item : same_key (logical_key r) (event_key e) ≡ true
  pub remembers : member e.delivery_id r.recent_delivery_ids ≡ true

abbrev Records : MirrorEvent → Result Upsert × MirrorStore → Type 0
Records e (ok u, s) = IsRecorded e u.mirror s
Records e (raise x, s) = Unit

module _ (lib : Stdlib) (e : MirrorEvent) where
  -- Outside a callback the operation is what follows its load.
  upsert_event-upsert_in :
      (env : MirrorEnv) (guild channel : ℕ) (s : MirrorStore)
      → IsSafe lib s
      → s.callback_active ≡ false
      → upsert_event lib env e guild channel s
        ≡ upsert_in lib env e guild channel (on_disk_mirrors s.document) (loaded s)
  unfolding upsert_event
  upsert_event-upsert_in env guild channel s safe idle =
      ap
        (λ c.
          continue (λ _. load_records lib >=> upsert_in lib env e guild channel)
            (raise_if c mutation_reentry, s))
        idle
      ∙ ap (continue (upsert_in lib env e guild channel)) (load_records-ok lib s safe)

  -- The second delivery finds the record, whatever its destination, and changes nothing.
  IsRecorded-duplicate :
      (env : MirrorEnv) (guild channel : ℕ) (r : Mirror) (s : MirrorStore)
      → IsSafe lib s
      → IsRecorded e r s
      → upsert_event lib env e guild channel s
        ≡ (ok (record { mirror = r; duplicate = true }), loaded s)
  unfolding upsert_in upsert_with
  IsRecorded-duplicate env guild channel r s safe is =
      let d = on_disk_mirrors s.document in
      let (q, found) =
        Dict.find-some (same_mirror_key (event_key e)) d is.key r is.at is.event_item in
      let (o, owns) =
        Dict.find-some (λ (p : Mirror). member e.delivery_id p.recent_delivery_ids) d is.key r is.at
          is.remembers in
      let (i, at, same) = Dict.find-values (same_mirror_key (event_key e)) d safe.unique q found in
      let (j, at', has) =
        Dict.find-values (λ (p : Mirror). member e.delivery_id p.recent_delivery_ids) d safe.unique
          o owns in
      let item : i ≡ is.key = safe.one_item i is.key q r at is.at (
        same_key_trans (logical_key q) (event_key e) (logical_key r) same
          (same_key_sym (logical_key r) (event_key e) is.event_item)) in
      let owner : j ≡ is.key =
        safe.one_delivery j is.key o r e.delivery_id at' is.at has is.remembers in
      let q_is : some q ≡ some r = sym at ∙ ap (Dict.get d) item ∙ is.at in
      let o_is : some o ≡ some r = sym at' ∙ ap (Dict.get d) owner ∙ is.at in
      go (found ∙ q_is) (owns ∙ o_is)
    where
      go :
          find (same_mirror_key (event_key e)) (Dict.values (on_disk_mirrors s.document)) ≡ some r
          → delivery_owner e.delivery_id (on_disk_mirrors s.document) ≡ some r
          → upsert_event lib env e guild channel s
            ≡ (ok (record { mirror = r; duplicate = true }), loaded s)
      go found owned =
          upsert_event-upsert_in env guild channel s safe is.idle
          ∙ rw (owned, found) (rw (beq_self r.mirror_id) refl)

  -- The record that is written for an event is the event's.
  record_for_event-IsDelivered :
      (env : MirrorEnv) (guild channel : ℕ) (stamp : String) (existing : Option Mirror)
      (d : Dict String Mirror)
      → Dict.IsUnique d
      → find (same_mirror_key (event_key e)) (Dict.values d) ≡ existing
      → Returns (IsDelivered lib e) (record_for_event lib env e guild channel existing stamp)
  unfolding record_for_event
  record_for_event-IsDelivered env guild channel stamp none d unique found =
      Returns-map _ (IsDelivered lib e) (record_from_event lib e env.new_id guild channel stamp)
        (λ r (_, _, _, is). is) (record_from_event-Returns lib e env.new_id guild channel stamp)
  record_for_event-IsDelivered env guild channel stamp (some r) d unique found =
      let (k, at, same) = Dict.find-values (same_mirror_key (event_key e)) d unique r found in
      Returns-then (IsDelivered lib e)
        (raise_if (not ((r.guild_id == guild) && (r.channel_id == channel))) value_error) _
        (λ _ _.
          Returns-map _ (IsDelivered lib e) (update_from_event lib r e stamp)
            (λ q (_, _, _, is). is) (update_from_event-Returns lib e r stamp same))

  commit_record-Records :
      (env : MirrorEnv) (d : Dict String Mirror) (r : Mirror) (s : MirrorStore)
      → s.callback_active ≡ false
      → IsDelivered lib e r
      → Records e (
          continue
            (λ r. return (record { mirror = r; duplicate = false }))
            (commit_record env d r s))
  unfolding commit_record commit_records
  commit_record-Records env d r s idle is = go env.replaced env.synced
    where
      go :
          (replaced synced : Bool)
          → Records e (
              continue
                (λ r. return (record { mirror = r; duplicate = false }))
                (commit_record (record env { replaced = replaced; synced = synced }) d r s))
      go true true = record {
        idle = idle;
        key = r.mirror_id;
        at = Dict.get-set_self d r.mirror_id r;
        event_item = is.event_item;
        remembers = is.remembers;
      }
      go true false = tt
      go false synced = tt

  >>>-Records :
      {A : Type 0} (Q : A → Type 0) (m : Result A) (f : A → StoreAction Upsert) (s : MirrorStore)
      → Returns Q m
      → ((a : A) → Q a → Records e (f a s))
      → Records e ((m >>> f) s)
  >>>-Records Q (ok a) f s q rest = rest a q
  >>>-Records Q (raise x) f s q rest = tt

  upsert_with-Records :
      (env : MirrorEnv) (guild channel : ℕ) (s : MirrorStore) (owner existing : Option Mirror)
      → IsSafe lib s
      → s.callback_active ≡ false
      → delivery_owner e.delivery_id (on_disk_mirrors s.document) ≡ owner
      → find (same_mirror_key (event_key e)) (Dict.values (on_disk_mirrors s.document)) ≡ existing
      → Records e
          (upsert_with lib env e guild channel (on_disk_mirrors s.document) owner existing s)
  unfolding upsert_with
  upsert_with-Records env guild channel s (some owner) none safe idle owned found = tt
  upsert_with-Records env guild channel s (some owner) (some r) safe idle owned found =
      let d = on_disk_mirrors s.document in
      elim (Bool-cases (owner.mirror_id == r.mirror_id)) [
        | inr differ ↦ rw differ tt
        | inl same ↦
            let (k, at, item) =
              Dict.find-values (same_mirror_key (event_key e)) d safe.unique r found in
            let (j, at', has) =
              Dict.find-values (λ (p : Mirror). member e.delivery_id p.recent_delivery_ids) d
                safe.unique owner owned in
            let key : j ≡ k =
              IsValidEntry-own lib j owner (safe.valid j owner at')
              ∙ (string_eq.same_iff owner.mirror_id r.mirror_id).0 same
              ∙ sym (IsValidEntry-own lib k r (safe.valid k r at)) in
            let one : some owner ≡ some r = sym at' ∙ ap (Dict.get d) key ∙ at in
            let is : owner ≡ r = cc one in
            let recorded : IsRecorded e r s = record {
              idle = idle;
              key = k;
              at = at;
              event_item = item;
              remembers =
                  ap (λ (p : Mirror). member e.delivery_id p.recent_delivery_ids) (sym is) ∙ has;
            } in
            rw same recorded
      ]
  upsert_with-Records env guild channel s none existing safe idle owned found =
      let d = on_disk_mirrors s.document in
      >>>-Records (IsDelivered lib e)
        (mirror_timestamp lib env.clock >>= record_for_event lib env e guild channel existing) _ s
        (Returns-then (IsDelivered lib e) (mirror_timestamp lib env.clock) _ (λ stamp _.
          record_for_event-IsDelivered env guild channel stamp existing d safe.unique found))
        (λ r is. commit_record-Records env d r s idle is)

  -- Once `upsert_event` has returned, another delivery of the event, to whatever destination, finds
  -- the same record as a duplicate and changes nothing on disk.
  pub upsert_event-duplicate :
      (env again : MirrorEnv) (guild channel guild' channel' : ℕ) (s t : MirrorStore) (u : Upsert)
      → IsSafe lib s
      → s.callback_active ≡ false
      → upsert_event lib env e guild channel s ≡ (ok u, t)
      → upsert_event lib again e guild' channel' t
        ≡ (ok (record { mirror = u.mirror; duplicate = true }), loaded t)
  unfolding upsert_in
  upsert_event-duplicate env again guild channel guild' channel' s t u safe idle done =
      let recorded : Records e (ok u, t) =
        subst (Records e) (sym (upsert_event-upsert_in env guild channel s safe idle) ∙ done)
          (upsert_with-Records env guild channel (loaded s) _ _ safe idle refl refl) in
      IsRecorded-duplicate again guild' channel' u.mirror t
        (subst (λ (m : Result Upsert × MirrorStore). IsSafe lib m.1) done
          (upsert_event-IsSafe lib env e guild channel s safe))
        recorded
