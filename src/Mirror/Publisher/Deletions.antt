-- ===== src/Mirror/Publisher/Deletions.antt =====
-- Which messages the publisher deletes: `_delete_nonce_matches` and `_delete_uncommitted_cards`.
use mathlib.Core.List.{append_assoc, append-nil}
use study_os_agent_gateway.Common.{
  ℕ, ◌+◌, String, ◌≡◌, refl, sym, ap, ◌∙◌, inl, inr, Bool, true, false, not, ◌&&◌, Option, some,
  List, [], ◌∷◌, ◌++◌, map, Bool-cases, string_eq, bool_eq, nat_eq, ◌==◌, option_eq, list_eq,
  filter, Result, Result-cases, ok, raise, Stdlib,
}
use study_os_agent_gateway.Common.Method.{return, fail, from, and_then, ◌>>=◌}
use study_os_agent_gateway.Mirror.Publisher.{
  delete_uncommitted_cards, delete_nonce_matches, find_messages, is_cancellation, CardEffect, World,
  ask, card_deleted, Publishing, delete_each, is_not_found,
}
use study_os_agent_gateway.Mirror.Record.{item_state_eq, item_kind_eq}

-- What holds of the value and the state, if there is a value.
abbrev pub WhenOk : {A : Type 0} → (A → Publishing → Type 0) → Result A × Publishing → Type 0
WhenOk Q (ok a, s) = Q a s
WhenOk Q (raise e, s) = Unit

abbrev pub deletions : List ℕ → List CardEffect
deletions ms = map card_deleted ms

-- The messages but for the one to keep.
abbrev pub others_than : Option ℕ → List ℕ → List ℕ
others_than keep ms = filter (λ m. not (keep == some m)) ms

-- Whether Discord has none of the messages that it was asked to delete from a step on.
abbrev pub is_gone : Result (Unit {0}) → Bool
is_gone (ok u) = true
is_gone (raise e) = is_not_found e

abbrev pub all_gone : (ℕ → World) → ℕ → List ℕ → Bool
all_gone world tick [] = true
all_gone world tick (m ∷ ms) = is_gone (world tick).deleted && all_gone world (tick + 1) ms

module _ (lib : Stdlib) (world : ℕ → World) where
  -- The state after the request to delete a message.
  abbrev asked : ℕ → Publishing → Publishing
  asked m s = record {
    store = (world s.tick).others s.store;
    tick = s.tick + 1;
    effects = s.effects ++ card_deleted m ∷ [];
  }

  -- What is added behind a request is added behind it.
  WhenOk-asked :
      {A : Type 0} (m : ℕ) (l : List CardEffect) (Q : A → Type 0) (s : Publishing)
      (left : Result A × Publishing)
      → WhenOk (λ a t. Q a × (t.effects ≡ (asked m s).effects ++ l)) left
      → WhenOk (λ a t. Q a × (t.effects ≡ s.effects ++ card_deleted m ∷ l)) left
  WhenOk-asked m l Q s (ok a, t) (q, is) = (q, is ∙ append_assoc s.effects (card_deleted m ∷ []) l)
  WhenOk-asked m l Q s (raise e, t) h = tt

  delete_each-Deleted :
      (keep : Option ℕ) (ms : List ℕ) (s : Publishing)
      → WhenOk
          (λ _ t. Unit {0} × (t.effects ≡ s.effects ++ deletions (others_than keep ms)))
          (delete_each lib world keep ms s)
  unfolding delete_each ◌>>=◌ ask from return
  delete_each-Deleted keep [] s = (tt, sym (append-nil s.effects))
  delete_each-Deleted keep (m ∷ ms) s = elim (Bool-cases (keep == some m)) [
    | inl kept ↦ rw kept (delete_each-Deleted keep ms s)
    | inr other ↦ rw other (elim (Result-cases (world s.tick).deleted) [
      | inl (u, done) ↦
          rw done (WhenOk-asked m _ (λ _. Unit {0}) s _ (delete_each-Deleted keep ms (asked m s)))
      | inr (e, failed) ↦ rw failed (elim (Bool-cases (is_not_found e)) [
        | inl gone ↦
            rw gone (WhenOk-asked m _ (λ _. Unit {0}) s _ (delete_each-Deleted keep ms (asked m s)))
        | inr raised ↦ rw raised tt
      ])
    ])
  ]

  WhenOk-imp :
      {A : Type 0} (ms : List ℕ) (keep : Option ℕ) (s : Publishing) (left : Result A × Publishing)
      → (world s.tick).found ≡ ok ms
      → WhenOk
          (λ _ t. Unit {0} × (t.effects ≡ (s.effects ++ []) ++ deletions (others_than keep ms)))
          left
      → WhenOk
          (λ _ t.
            (ns : List ℕ) × ((world s.tick).found ≡ ok ns)
            × (t.effects ≡ s.effects ++ deletions (others_than keep ns)))
          left
  WhenOk-imp ms keep s (ok a, t) found (u, is) =
      (ms, found, is ∙ ap (λ l. l ++ deletions (others_than keep ms)) (append-nil s.effects))
  WhenOk-imp ms keep s (raise e, t) found h = tt

  -- A message that Discord keeps.
  WhenOk-false :
      (m : ℕ) (ms : List ℕ) (s : Publishing) (left : Result Bool × Publishing)
      → WhenOk
          (λ gone t.
            (gone ≡ all_gone world (s.tick + 1) ms)
            × (t.effects ≡ (asked m s).effects ++ deletions ms))
          left
      → WhenOk
          (λ gone t. (gone ≡ false) × (t.effects ≡ s.effects ++ deletions (m ∷ ms)))
          (and_then (λ _. return false) left)
  unfolding return
  WhenOk-false m ms s (ok b, t) (b_is, is) =
      (refl, is ∙ append_assoc s.effects (card_deleted m ∷ []) (deletions ms))
  WhenOk-false m ms s (raise e, t) h = tt

  -- Where `_delete_nonce_matches` returns, the search gave messages, and the request to delete was made once for
  -- each of them in their order, but not for the message to keep; nothing else reached Discord.
  pub delete_nonce_matches-Deleted :
      (nonce : String) (keep : Option ℕ) (s : Publishing)
      → WhenOk
          (λ _ t.
            (ms : List ℕ) × ((world s.tick).found ≡ ok ms)
            × (t.effects ≡ s.effects ++ deletions (others_than keep ms)))
          (delete_nonce_matches lib world nonce keep s)
  unfolding delete_nonce_matches find_messages ◌>>=◌ ask from
  delete_nonce_matches-Deleted nonce keep s = elim (Result-cases (world s.tick).found) [
    | inr (e, failed) ↦ rw failed tt
    | inl (ms, found) ↦ rw found (
        WhenOk-imp ms keep s _ found (
          delete_each-Deleted keep ms (record {
            store = (world s.tick).others s.store;
            tick = s.tick + 1;
            effects = s.effects ++ [];
          })))
  ]

  -- Where `_delete_uncommitted_cards` returns, the request to delete was made for every message, whichever of the
  -- others failed, and the result tells whether Discord has none of them.
  pub delete_uncommitted_cards-Deleted :
      (ms : List ℕ) (s : Publishing)
      → WhenOk
          (λ gone t. (gone ≡ all_gone world s.tick ms) × (t.effects ≡ s.effects ++ deletions ms))
          (delete_uncommitted_cards lib world ms s)
  unfolding delete_uncommitted_cards ◌>>=◌ ask return fail
  delete_uncommitted_cards-Deleted [] s = (refl, sym (append-nil s.effects))
  delete_uncommitted_cards-Deleted (m ∷ ms) s =
      let rest = delete_uncommitted_cards-Deleted ms (asked m s) in
      elim (Result-cases (world s.tick).deleted) [
        | inl (u, done) ↦
            rw done (WhenOk-asked m _ (λ b. b ≡ all_gone world (s.tick + 1) ms) s _ rest)
        | inr (e, failed) ↦ rw failed (elim (Bool-cases (is_not_found e)) [
          | inl gone ↦ rw gone (WhenOk-asked m _ (λ b. b ≡ all_gone world (s.tick + 1) ms) s _ rest)
          | inr kept ↦ rw kept (elim (Bool-cases (is_cancellation e)) [
            | inl stopped ↦ rw stopped tt
            | inr other ↦
                rw other
                  (WhenOk-false m ms s (delete_uncommitted_cards lib world ms (asked m s)) rest)
          ])
        ])
      ]
