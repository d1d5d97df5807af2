-- ===== src/Mirror/Updates/Delivered.antt =====
-- What an event makes of the record of its item, or of none.
use study_os_agent_gateway.Common.{
  ℕ, String, ◌≡◌, refl, Bool, true, false, [], ◌∷◌, ◌++◌, if◌then◌else◌, string_eq, bool_eq, nat_eq,
  option_eq, beq_self, list_eq, length, last_n, member, member-last_n-snoc, Returns, Returns-then,
  Returns-map, Stdlib,
}
use study_os_agent_gateway.Mirror.Updates.Kept.{checked_mirror-Returns}
use study_os_agent_gateway.Mirror.Store.{event_key}
use study_os_agent_gateway.Mirror.Updates.{
  should_apply_event, update_from_event, apply_event, record_delivery, record_from_event,
  record_from_event_fields,
}
use study_os_agent_gateway.Mirror.Record.{
  checked_mirror, max_recent_deliveries, Mirror, is_well_formed_mirror, logical_key, same_key,
  MirrorEvent,
}

-- The record of a delivery: the item is the event's, and the delivery is the last that it remembers.
pub record IsDelivered (lib : Stdlib) (e : MirrorEvent) (r : Mirror) : Type 0 where
  pub event_item : same_key (logical_key r) (event_key e) ≡ true
  pub remembers : member e.delivery_id r.recent_delivery_ids ≡ true
  pub formed : is_well_formed_mirror lib r ≡ true

event_key_self :
    (e : MirrorEvent)
    → same_key (e.repository_full_name, e.item_kind, e.item_number) (event_key e) ≡ true
event_key_self e =
    rw (beq_self e.repository_full_name, beq_self e.item_kind, beq_self e.item_number) refl

module _ (lib : Stdlib) (e : MirrorEvent) where
  -- What a new record is.
  pub record_from_event-Returns :
      (id : String) (guild channel : ℕ) (stamp : String)
      → Returns
          (λ r.
            (r.mirror_id ≡ id)
            × (r.recent_delivery_ids ≡ e.delivery_id ∷ [])
            × (length r.handled_interaction_claims ≡ 0)
            × IsDelivered lib e r)
          (record_from_event lib e id guild channel stamp)
  unfolding record_from_event record_from_event_fields
  record_from_event-Returns id guild channel stamp =
      let next = record_from_event_fields e id guild channel stamp in
      Returns-map (λ r. (r ≡ next) × (is_well_formed_mirror lib next ≡ true)) _
        (checked_mirror lib next)
        (λ r (is, good). rw is (
          refl,
          refl,
          refl,
          record {
            event_item = event_key_self e;
            remembers = rw (beq_self e.delivery_id) refl;
            formed = good;
          },
        ))
        (checked_mirror-Returns lib next)

  -- What the next record of an item is.
  pub update_from_event-Returns :
      (r : Mirror) (stamp : String)
      → same_key (logical_key r) (event_key e) ≡ true
      → Returns
          (λ q.
            (q.mirror_id ≡ r.mirror_id)
            × (q.recent_delivery_ids
                ≡ last_n max_recent_deliveries (r.recent_delivery_ids ++ e.delivery_id ∷ []))
            × (q.handled_interaction_claims ≡ r.handled_interaction_claims)
            × IsDelivered lib e q)
          (update_from_event lib r e stamp)
  unfolding update_from_event record_delivery apply_event
  update_from_event-Returns r stamp same = Returns-then _ (should_apply_event lib r e) _ (λ fresh _.
      let delivered = record_delivery r e stamp in
      let next = if fresh then apply_event r e delivered else delivered in
      Returns-map (λ q. (q ≡ next) × (is_well_formed_mirror lib next ≡ true)) _
        (checked_mirror lib next) (λ q (is, good). rw is (either fresh good))
        (checked_mirror-Returns lib next))
    where
      either :
          (fresh : Bool)
          → (let delivered = record_delivery r e stamp in
              let next = if fresh then apply_event r e delivered else delivered in
              is_well_formed_mirror lib next ≡ true
              → (next.mirror_id ≡ r.mirror_id)
                × (next.recent_delivery_ids
                    ≡ last_n max_recent_deliveries (r.recent_delivery_ids ++ e.delivery_id ∷ []))
                × (next.handled_interaction_claims ≡ r.handled_interaction_claims)
                × IsDelivered lib e next)
      either true good = (
        refl,
        refl,
        refl,
        record {
          event_item = same;
          remembers = member-last_n-snoc e.delivery_id 63 r.recent_delivery_ids;
          formed = good;
        },
      )
      either false good = (
        refl,
        refl,
        refl,
        record {
          event_item = same;
          remembers = member-last_n-snoc e.delivery_id 63 r.recent_delivery_ids;
          formed = good;
        },
      )
