-- ===== src/Mirror/Document/Accepted.antt =====
-- Whatever the file holds, what the JSON of a document decodes to passes the checks that the store
-- makes of the records.
use study_os_agent_gateway.Common.{
  ℕ, suc, String, ◌≡◌, refl, ap, ◌∙◌, inl, inr, Bool, true, false, not, Option, List, [], ◌∷◌,
  arith, leb, Bool-cases, not-false, string_eq, bool_eq, nat_eq, ◌==◌, option_eq, list_eq, length,
  any, all, member, Result, raise_if, or_raise, Returns, Returns-raise_if, ◌>>=◌, Returns-bind,
  Returns-then, value_error, ok, Stdlib,
}
use study_os_agent_gateway.Mirror.Store.{decode_document, distinct_items, is_valid_entry}
use study_os_agent_gateway.Mirror.Document.{
  decode_mirror_fields, pending_at, nonces_by_version, decode_mirror, is_elsewhere, all_item_states,
  all_item_kinds, item_state_value, decode_mirrors, decode_entries, decode_claim, item_kind_value,
}
use study_os_agent_gateway.Mirror.Record.{
  is_well_formed_mirror, max_handled_claims, checked_mirror, item_kind_eq, Mirror, item_state_eq,
}
use study_os_agent_gateway.Common.Json.{
  Json, read_object, read_integer, read_text, at_key, has_keys, text_at, integer_at, optional_at,
  read_enum, boolean_at, list_at, texts_at, each, has_unique_keys,
}
use study_os_agent_gateway.Common.Dict.{Dict}
use study_os_agent_gateway.Common.Dict

each-Returns :
    {A : Type 0} (f : Json → Result A) (l : List Json)
    → Returns (λ r. length r ≡ length l) (each f l)
each-Returns f [] = refl
each-Returns f (j ∷ l) =
    Returns-then (λ r. length r ≡ suc (length l)) (f j) _
      (λ a _.
        Returns-bind (λ r. length r ≡ length l) (λ r. length r ≡ suc (length l)) (each f l) _
          (each-Returns f l) (λ others _ h. ap suc h))

abbrev KeepsFew : Mirror → Type 0
KeepsFew r = leb (length r.handled_interaction_claims) max_handled_claims ≡ true

module _ (lib : Stdlib) (encode_hex : String → Option String) where
  decode_mirror_fields-Returns :
      (fields : Dict String Json) (a b : Option String) (c : Bool)
      → Returns KeepsFew (decode_mirror_fields lib encode_hex fields a b c)
  unfolding decode_mirror_fields
  decode_mirror_fields-Returns fields a b c =
      Returns-then KeepsFew (pending_at lib encode_hex fields "pending_action") _ (λ _ _.
        Returns-then KeepsFew (list_at fields "handled_interaction_claims") _ (λ claims_raw _.
          Returns-bind (λ _. not (leb (length claims_raw) max_handled_claims) ≡ false) KeepsFew
            (raise_if (not (leb (length claims_raw) max_handled_claims)) value_error) _
            (Returns-raise_if (not (leb (length claims_raw) max_handled_claims)) value_error)
            (λ _ _ few. Returns-then KeepsFew (text_at fields "mirror_id") _ (λ _ _.
              Returns-then KeepsFew (integer_at fields "revision") _ (λ _ _.
                Returns-then KeepsFew (integer_at fields "guild_id") _ (λ _ _.
                  Returns-then KeepsFew (integer_at fields "channel_id") _ (λ _ _.
                    Returns-then KeepsFew (optional_at read_integer fields "card_message_id") _
                      (λ _ _.
                        Returns-then KeepsFew (boolean_at fields "card_create_pending") _ (λ _ _.
                          Returns-then KeepsFew (optional_at read_integer fields "thread_id") _
                            (λ _ _.
                              Returns-then KeepsFew (text_at fields "repository_full_name") _
                                (λ _ _.
                                  Returns-then KeepsFew
                                    (at_key fields "item_kind"
                                      >>= read_enum item_kind_value all_item_kinds)
                                    _
                                    (λ _ _.
                                      Returns-then KeepsFew (integer_at fields "item_number") _
                                        (λ _ _.
                                          Returns-then KeepsFew (text_at fields "item_url") _
                                            (λ _ _.
                                              Returns-then KeepsFew (text_at fields "title") _
                                                (λ _ _.
                                                  Returns-then KeepsFew
                                                    (at_key fields "state"
                                                      >>= read_enum item_state_value
                                                          all_item_states)
                                                    _
                                                    (λ _ _.
                                                      Returns-then KeepsFew
                                                        (text_at fields "author_login") _
                                                        (λ _ _.
                                                          Returns-then KeepsFew
                                                            (texts_at fields "labels") _
                                                            (λ _ _.
                                                            Returns-then KeepsFew
                                                            (optional_at read_text fields
                                                            "base_ref")
                                                            _
                                                            (λ _ _.
                                                            Returns-then KeepsFew
                                                            (optional_at read_text fields
                                                            "head_ref")
                                                            _
                                                            (λ _ _.
                                                            Returns-then KeepsFew
                                                            (optional_at read_text fields
                                                            "base_sha")
                                                            _
                                                            (λ _ _.
                                                            Returns-then KeepsFew
                                                            (optional_at read_text fields
                                                            "head_sha")
                                                            _
                                                            (λ _ _.
                                                            Returns-then KeepsFew
                                                            (text_at fields "activity") _
                                                            (λ _ _.
                                                            Returns-then KeepsFew
                                                            (text_at fields "item_updated_at") _
                                                            (λ _ _.
                                                            Returns-then KeepsFew
                                                            (texts_at fields "recent_delivery_ids")
                                                            _
                                                            (λ _ _.
                                                            Returns-bind
                                                            (λ l. length l ≡ length claims_raw)
                                                            KeepsFew
                                                            (each (decode_claim lib) claims_raw) _
                                                            (each-Returns (decode_claim lib)
                                                            claims_raw)
                                                            (λ claims _ same.
                                                            Returns-then KeepsFew
                                                            (optional_at read_text fields
                                                            "active_task_id")
                                                            _
                                                            (λ _ _.
                                                            Returns-then KeepsFew
                                                            (text_at fields "created_at") _
                                                            (λ _ _.
                                                            Returns-then KeepsFew
                                                            (text_at fields "updated_at") _
                                                            (λ _ _.
                                                            ap (λ n. leb n max_handled_claims) same
                                                            ∙ not-false
                                                            (leb (length claims_raw)
                                                            max_handled_claims)
                                                            few)))))))))))))))))))))))))))))

  decode_mirror-Returns :
      (version : ℕ) (j : Json)
      → Returns
          (λ r. KeepsFew r × (is_well_formed_mirror lib r ≡ true))
          (decode_mirror lib encode_hex version j)
  unfolding decode_mirror checked_mirror
  decode_mirror-Returns version j =
      let P : Mirror → Type 0 = λ r. KeepsFew r × (is_well_formed_mirror lib r ≡ true) in
      Returns-then P (read_object j) _ (λ fields _.
        Returns-then P (nonces_by_version lib encode_hex version fields) _ (λ found _.
          Returns-bind KeepsFew P
            (decode_mirror_fields lib encode_hex fields found.0.0 found.0.1 found.1) _
            (decode_mirror_fields-Returns fields found.0.0 found.0.1 found.1)
            (λ r _ few. elim (Bool-cases (is_well_formed_mirror lib r)) [
              | inl good ↦ rw good (few, good)
              | inr bad ↦ rw bad tt
            ])))

  -- What the entries of a decoded document pass.
  abbrev IsDecoded : Dict String Mirror → Type 0
  IsDecoded d = Dict.AllEntries (λ _ r. KeepsFew r × (is_well_formed_mirror lib r ≡ true)) d

  decode_entries-Returns :
      (version : ℕ) (d : Dict String Json)
      → Returns IsDecoded (decode_entries lib encode_hex version d)
  unfolding decode_entries
  decode_entries-Returns version [] = tt
  decode_entries-Returns version ((k, j) ∷ rest) =
      Returns-bind (λ r. KeepsFew r × (is_well_formed_mirror lib r ≡ true)) IsDecoded
        (decode_mirror lib encode_hex version j) _ (decode_mirror-Returns version j)
        (λ r _ good.
          Returns-bind IsDecoded IsDecoded (decode_entries lib encode_hex version rest) _
            (decode_entries-Returns version rest) (λ others _ h. (good, h)))

  all_valid :
      (d : Dict String Mirror)
      → IsDecoded d
      → any (is_elsewhere lib encode_hex) d ≡ false
      → all (is_valid_entry lib) d ≡ true
  all_valid [] h here = refl
  all_valid ((k, r) ∷ d) ((few, good), h) here =
      let own : (k == r.mirror_id) ≡ true = ground arith in
      let rest : any (is_elsewhere lib encode_hex) d ≡ false = ground arith in
      rw (good, own, few) (all_valid d h rest)

  -- Whatever the file holds, of either version, the records that `decode_document` returns pass the checks that
  -- the store makes of the records of a document: each is well formed, under its own identifier, with at most 64
  -- handled claims, and no two mirror one item.
  pub decode_mirrors-Accepted :
      (payload : Option Json)
      → Returns (λ d. decode_document lib d ≡ ok d) (decode_mirrors lib encode_hex payload)
  unfolding decode_mirrors decode_document
  decode_mirrors-Accepted payload =
      let P : Dict String Mirror → Type 0 = λ d. decode_document lib d ≡ ok d in
      Returns-then P (or_raise payload value_error) _ (λ raw _.
        Returns-then P (raise_if (not (has_unique_keys raw)) value_error) _ (λ _ _.
          Returns-then P (read_object raw) _ (λ document _.
            Returns-then P
              (raise_if (not (has_keys ("version" ∷ "mirrors" ∷ []) document)) value_error) _
              (λ _ _. Returns-then P (integer_at document "version") _ (λ version _.
                Returns-then P (raise_if (not (member version (1 ∷ 2 ∷ []))) value_error) _ (λ _ _.
                  Returns-then P (at_key document "mirrors" >>= read_object) _ (λ mirrors _.
                    Returns-bind IsDecoded P (decode_entries lib encode_hex version mirrors) _
                      (decode_entries-Returns version mirrors)
                      (λ d _ decoded.
                        Returns-bind (λ _. any (is_elsewhere lib encode_hex) d ≡ false) P
                          (raise_if (any (is_elsewhere lib encode_hex) d) value_error) _
                          (Returns-raise_if _ value_error)
                          (λ _ _ here.
                            Returns-bind (λ _. not (distinct_items (Dict.values d)) ≡ false) P
                              (raise_if (not (distinct_items (Dict.values d))) value_error) _
                              (Returns-raise_if _ value_error)
                              (λ _ _ distinct.
                                let one : distinct_items (Dict.values d) ≡ true =
                                  not-false (distinct_items (Dict.values d)) distinct in
                                rw (all_valid d decoded here, one) refl))))))))))
