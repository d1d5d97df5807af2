-- ===== src/Mirror/Updates/Order.antt =====
-- Events may arrive late and out of order: the record of an item follows the newest.
use study_os_agent_gateway.Common.{
  ℕ, ◌+◌, ◌≤◌, String, ◌≡◌, refl, ◌⊎◌, inl, inr, Bool, true, false, [], ◌∷◌, ◌++◌, arith, ltb, leb,
  if◌then◌else◌, Bool-cases, string_eq, bool_eq, nat_eq, ◌==◌, option_eq, list_eq, length,
  length-last_n, Returns, Returns-eq, Returns-bind, Returns-then, Returns-map, ok, Stdlib,
}
use study_os_agent_gateway.Mirror.Updates.Kept.{checked_mirror-Returns}
use study_os_agent_gateway.Mirror.Updates.{
  terminal_rank, apply_event, update_from_event, parse_timestamp, record_delivery,
  should_apply_event,
}
use study_os_agent_gateway.Mirror.Record.{
  MirrorEvent, checked_mirror, is_well_formed_mirror, Mirror, max_recent_deliveries, item_kind_eq,
  item_state_eq,
}

module _ (lib : Stdlib) where
  -- An event that is applied is no older than the record.
  abbrev pub IsNoOlder : Mirror → MirrorEvent → Type 0
  IsNoOlder r e =
      (new : ℕ) × (old : ℕ) × (parse_timestamp lib e.item_updated_at ≡ ok new)
      × (parse_timestamp lib r.item_updated_at ≡ ok old)
      × (old ≤ new)

  should_apply_event-IsNoOlder :
      (r : Mirror) (e : MirrorEvent)
      → Returns (λ fresh. fresh ≡ true → IsNoOlder r e) (should_apply_event lib r e)
  unfolding should_apply_event
  should_apply_event-IsNoOlder r e =
      let P : Bool → Type 0 = λ fresh. fresh ≡ true → IsNoOlder r e in
      Returns-then P (parse_timestamp lib e.item_updated_at) _ (λ new is_new.
        Returns-then P (parse_timestamp lib r.item_updated_at) _ (λ old is_old fresh. (
          new,
          old,
          is_new,
          is_old,
          in_order new old (leb (terminal_rank r.state) (terminal_rank e.state)) fresh,
        )))
    where
      in_order :
          (new old : ℕ) (tie : Bool) → (if new == old then tie else ltb old new) ≡ true → old ≤ new
      in_order new old tie h = elim (Bool-cases (new == old)) [
        | inl same ↦ omega (arith, (nat_eq.same_iff new old).0 same)
        | inr differ ↦ ground arith
      ]

  -- What a delivery changes in every case, and when it changes the item.
  abbrev pub Follows : Mirror → MirrorEvent → Mirror → Type 0
  Follows r e q =
      (q.revision ≡ r.revision + 1)
      × (q.publication_pending ≡ true)
      × (length q.recent_delivery_ids ≤ max_recent_deliveries)
      × (((q.item_updated_at ≡ e.item_updated_at) × IsNoOlder r e)
          ⊎ ((q.item_updated_at ≡ r.item_updated_at) × (q.state ≡ r.state) × (q.title ≡ r.title)))

  -- `update_from_event` moves to the next revision, asks for a publication and remembers at most 64
  -- deliveries; and it takes the time of the event, which is then no older than the record's, or
  -- keeps the record's time, state and title.
  pub update_from_event-Follows :
      (r q : Mirror) (e : MirrorEvent) (stamp : String)
      → update_from_event lib r e stamp ≡ ok q
      → Follows r e q
  unfolding update_from_event record_delivery apply_event
  update_from_event-Follows r q e stamp h =
      Returns-eq (Follows r e) (update_from_event lib r e stamp) q
        (Returns-bind (λ fresh. fresh ≡ true → IsNoOlder r e) (Follows r e)
          (should_apply_event lib r e) _ (should_apply_event-IsNoOlder r e)
          (λ fresh _ order.
            let delivered = record_delivery r e stamp in
            let written = if fresh then apply_event r e delivered else delivered in
            Returns-map (λ p. (p ≡ written) × (is_well_formed_mirror lib written ≡ true))
              (Follows r e) (checked_mirror lib written)
              (λ p (is, _). rw is (written-Follows fresh order))
              (checked_mirror-Returns lib written)))
        h
    where
      written-Follows :
          (fresh : Bool)
          → (fresh ≡ true → IsNoOlder r e)
          → (let delivered = record_delivery r e stamp in
              Follows r e (if fresh then apply_event r e delivered else delivered))
      written-Follows true order = (
        refl,
        refl,
        length-last_n max_recent_deliveries (r.recent_delivery_ids ++ e.delivery_id ∷ []),
        inl (refl, order refl),
      )
      written-Follows false order = (
        refl,
        refl,
        length-last_n max_recent_deliveries (r.recent_delivery_ids ++ e.delivery_id ∷ []),
        inr (refl, refl, refl),
      )
