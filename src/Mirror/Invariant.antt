-- ===== src/Mirror/Invariant.antt =====
-- What holds of every collection of mirrors that the store writes: it decodes again, no two records
-- mirror one issue or pull request, and a delivery is remembered by one record.
use study_os_agent_gateway.Common.{
  ◌≤◌, String, ◌≡◌, refl, sym, ap, ◌∙◌, ◌≢◌, inl, inr, true, false, some, [], ◌∷◌, arith, leb_iff,
  Bool-cases, and_split, string_eq, bool_eq, nat_eq, option_eq, beq_self, beq_trans, ne_beq,
  list_eq, length, any, all, member, ok, Stdlib,
}
use study_os_agent_gateway.Common.Dict.{Dict}
use study_os_agent_gateway.Common.Dict
use study_os_agent_gateway.Mirror.Store.{
  same_mirror_key, decode_document, distinct_items, is_valid_entry,
}
use study_os_agent_gateway.Mirror.Record.{
  is_well_formed_mirror, max_handled_claims, item_state_eq, logical_key, Mirror, LogicalKey,
  same_key, item_kind_eq,
}

-- What each record of the document passes.
abbrev pub IsValidEntry : Stdlib → String → Mirror → Type 0
IsValidEntry lib k r = is_valid_entry lib (k, r) ≡ true

pub record IsSoundMirrors (lib : Stdlib) (d : Dict String Mirror) : Type 0 where
  pub unique : Dict.IsUnique d
  pub valid : (k : String) (r : Mirror) → Dict.get d k ≡ some r → IsValidEntry lib k r
  pub one_item :
      (j k : String) (r q : Mirror)
      → Dict.get d j ≡ some r
      → Dict.get d k ≡ some q
      → same_key (logical_key r) (logical_key q) ≡ true
      → j ≡ k
  pub one_delivery :
      (j k : String) (r q : Mirror) (x : String)
      → Dict.get d j ≡ some r
      → Dict.get d k ≡ some q
      → member x r.recent_delivery_ids ≡ true
      → member x q.recent_delivery_ids ≡ true
      → j ≡ k

-- A record that may be written under `k`.
pub record IsFitting (lib : Stdlib) (d : Dict String Mirror) (k : String) (r : Mirror)
    : Type 0 where
  pub entry : IsValidEntry lib k r
  pub item :
      (j : String) (q : Mirror)
      → Dict.get d j ≡ some q
      → same_key (logical_key r) (logical_key q) ≡ true
      → j ≡ k
  pub delivery :
      (j : String) (q : Mirror) (x : String)
      → Dict.get d j ≡ some q
      → member x r.recent_delivery_ids ≡ true
      → member x q.recent_delivery_ids ≡ true
      → j ≡ k

pub same_key_sym : (a b : LogicalKey) → same_key a b ≡ true → same_key b a ≡ true
same_key_sym (a, k, n) (b, l, m) h = ground (
  arith,
  string_eq.same_iff a b,
  string_eq.same_iff b a,
  item_kind_eq.same_iff k l,
  item_kind_eq.same_iff l k,
)

pub same_key_trans :
    (a b c : LogicalKey) → same_key a b ≡ true → same_key b c ≡ true → same_key a c ≡ true
same_key_trans (a, k, n) (b, l, m) (c, i, o) h g =
    let (ab, nm) = and_split _ _ h in
    let (ab, kl) = and_split _ _ ab in
    let (bc, mo) = and_split _ _ g in
    let (bc, li) = and_split _ _ bc in
    rw (beq_trans a b c ab bc, beq_trans k l i kl li, beq_trans n m o nm mo) refl

module _ (lib : Stdlib) where
  pub IsValidEntry-own : (k : String) (r : Mirror) → IsValidEntry lib k r → k ≡ r.mirror_id
  IsValidEntry-own k r h =
      (string_eq.same_iff k r.mirror_id).0 ((and_split _ _ ((and_split _ _ h).0)).1)

  pub IsValidEntry-few :
      (k : String) (r : Mirror)
      → IsValidEntry lib k r
      → length r.handled_interaction_claims ≤ max_handled_claims
  IsValidEntry-few k r h =
      (leb_iff (length r.handled_interaction_claims) max_handled_claims).0 ((and_split _ _ h).1)

  pub IsValidEntry-intro :
      (r : Mirror)
      → is_well_formed_mirror lib r ≡ true
      → length r.handled_interaction_claims ≤ max_handled_claims
      → IsValidEntry lib r.mirror_id r
  IsValidEntry-intro r good few =
      rw
        (
          good,
          beq_self r.mirror_id,
          (leb_iff (length r.handled_interaction_claims) max_handled_claims).1 few,
        )
        refl

module _ (lib : Stdlib) (d : Dict String Mirror) where
  pub IsSoundMirrors-set :
      (k : String) (r : Mirror)
      → IsSoundMirrors lib d
      → IsFitting lib d k r
      → IsSoundMirrors lib (Dict.set d k r)
  IsSoundMirrors-set k r sound fits = record {
    unique = Dict.IsUnique-set d k r sound.unique;
    valid = λ j q h. elim (Dict.get-set-cases d k r j q h) [
      | inl (at, new) ↦ rw new (rw at at fits.entry)
      | inr (ne, old) ↦ sound.valid j q old
    ];
    one_item = λ i j p q hp hq same. elim (Dict.get-set-cases d k r i p hp) [
      | inl (at, new) ↦ elim (Dict.get-set-cases d k r j q hq) [
        | inl (at', new') ↦ sym at ∙ at'
        | inr (ne, old) ↦ sym at ∙ sym (fits.item j q old (rw new at same))
      ]
      | inr (ne, old) ↦ elim (Dict.get-set-cases d k r j q hq) [
        | inl (at', new') ↦
            fits.item i p old (same_key_sym (logical_key p) (logical_key r) (rw new' at same)) ∙ at'
        | inr (ne', old') ↦ sound.one_item i j p q old old' same
      ]
    ];
    one_delivery = λ i j p q x hp hq here there. elim (Dict.get-set-cases d k r i p hp) [
      | inl (at, new) ↦ elim (Dict.get-set-cases d k r j q hq) [
        | inl (at', new') ↦ sym at ∙ at'
        | inr (ne, old) ↦ sym at ∙ sym (fits.delivery j q x old (rw new at here) there)
      ]
      | inr (ne, old) ↦ elim (Dict.get-set-cases d k r j q hq) [
        | inl (at', new') ↦ fits.delivery i p x old (rw new' at there) here ∙ at'
        | inr (ne', old') ↦ sound.one_delivery i j p q x old old' here there
      ]
    ];
  }

pub IsSoundMirrors-empty : (lib : Stdlib) → IsSoundMirrors lib []
IsSoundMirrors-empty lib = record {
  unique = tt;
  valid = λ k r h. absurd (cc (h, Dict.get-empty {V = Mirror} k));
  one_item = λ j k r q h _ _. absurd (cc (h, Dict.get-empty {V = Mirror} j));
  one_delivery = λ j k r q x h _ _ _. absurd (cc (h, Dict.get-empty {V = Mirror} j));
}

-- What the checks of `decode_document` find.
all_entries :
    (lib : Stdlib) (d : Dict String Mirror)
    → Dict.AllEntries (IsValidEntry lib) d
    → all (is_valid_entry lib) d ≡ true
all_entries lib [] h = refl
all_entries lib ((k, r) ∷ d) h = rw h.0 (all_entries lib d h.1)

pub distinct_entries :
    (d : Dict String Mirror)
    → Dict.IsUnique d
    → ((j k : String) (r q : Mirror)
        → Dict.get d j ≡ some r
        → Dict.get d k ≡ some q
        → same_key (logical_key r) (logical_key q) ≡ true
        → j ≡ k)
    → distinct_items (Dict.values d) ≡ true
unfolding Dict.get
distinct_entries [] u h = refl
distinct_entries ((k, r) ∷ d) u h =
    let below : (j : String) (q : Mirror) → Dict.get d j ≡ some q → k ≢ j =
      λ j q found same. cc (u.0, ap (Dict.get d) same, found) in
    let under : (j : String) (q : Mirror)
        → Dict.get d j ≡ some q
        → Dict.get ((k, r) ∷ d) j ≡ some q =
      λ j q found. rw (ne_beq k j (below j q found)) found in
    let fresh : any (same_mirror_key (logical_key r)) (Dict.values d) ≡ false =
      Dict.any-get (same_mirror_key (logical_key r)) d u.1 (λ j q found.
        elim (Bool-cases (same_mirror_key (logical_key r) q)) [
          | inl same ↦
              absurd
                (below j q found (sym (h j k q r (under j q found) (rw (beq_self k) refl) same)))
          | inr other ↦ other
        ]) in
    rw fresh (distinct_entries d u.1 (λ i j p q hp hq. h i j p q (under i p hp) (under j q hq)))

-- The document decodes again.
pub decode_document-ok :
    (lib : Stdlib) (d : Dict String Mirror) → IsSoundMirrors lib d → decode_document lib d ≡ ok d
unfolding decode_document
decode_document-ok lib d sound =
    rw (all_entries lib d (Dict.AllEntries-get (IsValidEntry lib) d sound.unique sound.valid))
      (rw (distinct_entries d sound.unique sound.one_item) refl)
