-- ===== src/Mirror/Updates/Kept.antt =====
-- What the next record of a mirror keeps of the current one, and what it passes.
use study_os_agent_gateway.Common.{
  ◌+◌, ◌≤◌, String, ◌≡◌, refl, sym, inl, inr, true, false, not, Bool-cases, and_split, not-false,
  string_eq, list_eq, length, last_n, length-last_n, Result, raise_if, Returns, Returns-raise_if,
  Returns-bind, Returns-then, Returns-map, value_error, Stdlib,
}
use study_os_agent_gateway.Mirror.Invariant.{same_key_sym}
use study_os_agent_gateway.Mirror.Updates.{same_item, updated_record}
use study_os_agent_gateway.Mirror.Record.{
  max_handled_claims, checked_mirror, same_key, logical_key, is_well_formed_mirror, Mirror,
}

-- The next record of a compare-and-set, and of the operations on a card.
pub record IsSuccessor (lib : Stdlib) (current r : Mirror) : Type 0 where
  pub same_id : r.mirror_id ≡ current.mirror_id
  pub same_item_key : same_key (logical_key r) (logical_key current) ≡ true
  pub same_deliveries : r.recent_delivery_ids ≡ current.recent_delivery_ids
  pub next_revision : r.revision ≡ current.revision + 1
  pub well_formed : is_well_formed_mirror lib r ≡ true
  pub few_claims : length r.handled_interaction_claims ≤ max_handled_claims

same_item-fields :
    (current r : Mirror)
    → same_item current r ≡ true
    → (r.mirror_id ≡ current.mirror_id)
      × (same_key (logical_key r) (logical_key current) ≡ true)
      × (r.recent_delivery_ids ≡ current.recent_delivery_ids)
unfolding same_item
same_item-fields current r h =
    let (rest, deliveries) = and_split _ _ h in
    let (rest, key) = and_split _ _ rest in
    let (rest, id) = and_split _ _ rest in
    (
      sym ((string_eq.same_iff current.mirror_id r.mirror_id).0 id),
      same_key_sym (logical_key current) (logical_key r) key,
      sym (
          ((list_eq ⦃e = string_eq⦄).same_iff current.recent_delivery_ids r.recent_delivery_ids).0
            deliveries),
    )

module _ (lib : Stdlib) where
  pub checked_mirror-Returns :
      (r : Mirror)
      → Returns (λ q. (q ≡ r) × (is_well_formed_mirror lib r ≡ true)) (checked_mirror lib r)
  unfolding checked_mirror
  checked_mirror-Returns r = elim (Bool-cases (is_well_formed_mirror lib r)) [
    | inl eq ↦ rw eq (refl, refl)
    | inr eq ↦ rw eq tt
  ]

  pub updated_record-IsSuccessor :
      (current : Mirror) (update : Mirror → Result Mirror) (stamp : String)
      → Returns (IsSuccessor lib current) (updated_record lib current update stamp)
  unfolding updated_record
  updated_record-IsSuccessor current update stamp =
      Returns-then (IsSuccessor lib current) (update current) _ (λ candidate _.
        Returns-bind (λ _. not (same_item current candidate) ≡ false) (IsSuccessor lib current)
          (raise_if (not (same_item current candidate)) value_error) _
          (Returns-raise_if (not (same_item current candidate)) value_error)
          (λ _ _ same.
            let next = record candidate {
              revision = current.revision + 1;
              handled_interaction_claims =
                  last_n max_handled_claims candidate.handled_interaction_claims;
              updated_at = stamp;
            } in
            Returns-map (λ q. (q ≡ next) × (is_well_formed_mirror lib next ≡ true))
              (IsSuccessor lib current) (checked_mirror lib next)
              (λ q (is, good). rw is (successor candidate (not-false _ same) good))
              (checked_mirror-Returns next)))
    where
      successor :
          (candidate : Mirror)
          → same_item current candidate ≡ true
          → (let next = record candidate {
            revision = current.revision + 1;
            handled_interaction_claims =
                last_n max_handled_claims candidate.handled_interaction_claims;
            updated_at = stamp;
          } in
              is_well_formed_mirror lib next ≡ true → IsSuccessor lib current next)
      successor candidate same good =
          let (id, key, deliveries) = same_item-fields current candidate same in
          record {
            same_id = id;
            same_item_key = key;
            same_deliveries = deliveries;
            next_revision = refl;
            well_formed = good;
            few_claims = length-last_n max_handled_claims candidate.handled_interaction_claims;
          }
