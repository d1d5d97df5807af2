-- ===== src/Mirror/Store/Events.antt =====
-- `upsert_event`: the document stays sound.
use study_os_agent_gateway.Common.{
  ℕ, String, ◌≡◌, refl, sym, ap, ◌∙◌, inl, inr, false, not, ◌&&◌, Option, none, some, arith,
  Bool-cases, string_eq, bool_eq, nat_eq, ◌==◌, option_eq, list_eq, find, member, member-single,
  member-last_n-cases, raise_if, Returns, Returns-intro, ◌>>=◌, Returns-then, Returns-map,
  value_error, mutation_reentry, Stdlib,
}
use study_os_agent_gateway.Common.Dict.{Dict}
use study_os_agent_gateway.Common.Dict
use study_os_agent_gateway.Mirror.Updates.Delivered.{
  record_from_event-Returns, update_from_event-Returns,
}
use study_os_agent_gateway.Mirror.Store.Safe.{
  load_records->=>, IsSafe, loaded, commit_record-IsSafe, on_disk_mirrors, >>>-IsSafe,
  return-IsSafe,
}
use study_os_agent_gateway.Mirror.Store.{
  upsert_with, upsert_in, mirror_timestamp, record_for_event, same_mirror_key, delivery_owner,
  commit_record, upsert_event, MirrorStore, event_key, MirrorEnv,
}
use study_os_agent_gateway.Mirror.Invariant.{
  IsValidEntry-intro, IsValidEntry-own, IsSoundMirrors, IsValidEntry-few, IsFitting, same_key_sym,
  same_key_trans,
}
use study_os_agent_gateway.Mirror.Updates.{update_from_event, record_from_event}
use study_os_agent_gateway.Mirror.Record.{
  MirrorEvent, logical_key, item_state_eq, Mirror, max_recent_deliveries, item_kind_eq,
}

module _ (lib : Stdlib) (d : Dict String Mirror) (sound : IsSoundMirrors lib d)
    (e : MirrorEvent) where
  -- No record remembers the delivery, and the found record is the event's, if there is one.
  abbrev IsNew : Type 0
  IsNew =
      (k : String) (r : Mirror)
      → Dict.get d k ≡ some r
      → member e.delivery_id r.recent_delivery_ids ≡ false

  -- What is written for an event fits.
  record_for_event-IsFitting :
      (env : MirrorEnv) (guild channel : ℕ) (stamp : String) (existing : Option Mirror)
      → IsNew
      → find (same_mirror_key (event_key e)) (Dict.values d) ≡ existing
      → Returns
          (λ r. IsFitting lib d r.mirror_id r)
          (record_for_event lib env e guild channel existing stamp)
  unfolding record_for_event
  record_for_event-IsFitting env guild channel stamp none fresh missing =
      Returns-map _ (λ r. IsFitting lib d r.mirror_id r)
        (record_from_event lib e env.new_id guild channel stamp)
        (λ r (id, deliveries, claims, new). record {
          entry = IsValidEntry-intro lib r new.formed (omega (arith, claims));
          item = λ j q at same. absurd (
              cc (
                same_key_trans (logical_key q) (logical_key r) (event_key e)
                    (same_key_sym (logical_key r) (logical_key q) same) new.event_item,
                Dict.find-none (same_mirror_key (event_key e)) d j q missing at,
              ));
          delivery = λ j q x at here there. absurd (
              cc (
                there,
                ap (λ y. member y q.recent_delivery_ids)
                    (member-single x e.delivery_id (rw deliveries at here)),
                fresh j q at,
              ));
        })
        (record_from_event-Returns lib e env.new_id guild channel stamp)
  record_for_event-IsFitting env guild channel stamp (some r) fresh found =
      let (k, at, same) = Dict.find-values (same_mirror_key (event_key e)) d sound.unique r found in
      Returns-then (λ r. IsFitting lib d r.mirror_id r)
        (raise_if (not ((r.guild_id == guild) && (r.channel_id == channel))) value_error) _
        (λ _ _.
          Returns-map _ (λ r. IsFitting lib d r.mirror_id r) (update_from_event lib r e stamp)
            (λ q (id, deliveries, claims, new).
              let own : k ≡ q.mirror_id = IsValidEntry-own lib k r (sound.valid k r at) ∙ sym id in
              record {
                entry =
                    IsValidEntry-intro lib q new.formed
                      (rw claims (IsValidEntry-few lib k r (sound.valid k r at)));
                item = λ j p there same'.
                    sound.one_item j k p r there at (
                      same_key_trans (logical_key p) (event_key e) (logical_key r)
                        (same_key_trans (logical_key p) (logical_key q) (event_key e)
                          (same_key_sym (logical_key q) (logical_key p) same') new.event_item)
                        (same_key_sym (logical_key r) (event_key e) same))
                    ∙ own;
                delivery = λ j p x there here other.
                    elim (member-last_n-cases x e.delivery_id max_recent_deliveries
                      r.recent_delivery_ids (rw deliveries at here)) [
                        | inl old ↦ sound.one_delivery j k p r x there at other old ∙ own
                        | inr is ↦ absurd (
                            cc
                              (other, ap (λ y. member y p.recent_delivery_ids) is, fresh j p there))
                      ];
              })
            (update_from_event-Returns lib e r stamp same))

  upsert_with-IsSafe :
      (env : MirrorEnv) (guild channel : ℕ) (s : MirrorStore) (owner existing : Option Mirror)
      → IsSafe lib s
      → delivery_owner e.delivery_id d ≡ owner
      → find (same_mirror_key (event_key e)) (Dict.values d) ≡ existing
      → IsSafe lib (upsert_with lib env e guild channel d owner existing s).1
  unfolding upsert_with
  upsert_with-IsSafe env guild channel s (some owner) none safe owned found = safe
  upsert_with-IsSafe env guild channel s (some owner) (some r) safe owned found =
      elim (Bool-cases (owner.mirror_id == r.mirror_id)) [
        | inl same ↦ rw same safe
        | inr differ ↦ rw differ safe
      ]
  upsert_with-IsSafe env guild channel s none existing safe owned found =
      >>>-IsSafe lib (λ r. IsFitting lib d r.mirror_id r)
        (mirror_timestamp lib env.clock >>= record_for_event lib env e guild channel existing) _ s
        (Returns-then (λ r. IsFitting lib d r.mirror_id r) (mirror_timestamp lib env.clock) _
          (λ stamp _.
            record_for_event-IsFitting env guild channel stamp existing
              (λ k r at.
                Dict.find-none (λ (r : Mirror). member e.delivery_id r.recent_delivery_ids) d k r
                  owned at)
              found))
        safe
        (λ r fits.
          return-IsSafe lib _ (commit_record env d r s)
            (commit_record-IsSafe lib env d r s safe sound fits))

-- Whatever event arrives, and whatever the disk does.
pub upsert_event-IsSafe :
    (lib : Stdlib) (env : MirrorEnv) (e : MirrorEvent) (guild channel : ℕ) (s : MirrorStore)
    → IsSafe lib s
    → IsSafe lib (upsert_event lib env e guild channel s).1
unfolding upsert_event upsert_in
upsert_event-IsSafe lib env e guild channel s safe =
    >>>-IsSafe lib (λ _. Unit {0}) (raise_if s.callback_active mutation_reentry) _ s
      (Returns-intro (λ _. Unit {0}) _ (λ _ _. tt)) safe
      (λ _ _. load_records->=> lib (upsert_in lib env e guild channel) s safe (
        upsert_with-IsSafe lib (on_disk_mirrors s.document) safe e env guild channel (loaded s) _ _
          safe refl refl))
