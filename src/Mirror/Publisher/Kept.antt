-- ===== src/Mirror/Publisher/Kept.antt =====
-- The publisher's effects on the card that it publishes: `_cleanup_duplicates` and what it calls.
use study_os_agent_gateway.Common.{
  ℕ, zero, suc, String, ◌≡◌, ap, ◌≢◌, inl, inr, false, Option, none, some, List, [], ◌∷◌,
  Bool-cases, string_eq, bool_eq, nat_eq, ◌==◌, option_eq, beq_self, list_eq, Every, Every-append,
  Stdlib,
}
use study_os_agent_gateway.Mirror.Store.{StoreAction, get_mirror, MirrorEnv}
use study_os_agent_gateway.Mirror.Publisher.{
  ask, get, CardEffect, find_messages, delete_each, reconcile_card, clean_nonce, World,
  cleanup_duplicates, call, render_card, card_edited, card_deleted, Publishing,
  delete_nonce_matches,
}
use study_os_agent_gateway.Mirror.Record.{Mirror, item_state_eq, item_kind_eq}
use study_os_agent_gateway.Common.Method.Keeps.{Keeps, keeps_rules}

-- No request to delete the card has been made.
abbrev pub IsSpared : ℕ → Publishing → Type 0
IsSpared card s = Every (λ x. x ≢ card_deleted card) s.effects

module _ (lib : Stdlib) (world : ℕ → World) (card : ℕ) where
  Keeps-ask :
      {A : Type 0} (f : World → A) (seen : List CardEffect)
      → Every (λ x. x ≢ card_deleted card) seen
      → Keeps (IsSpared card) (ask lib world f seen)
  unfolding ask
  Keeps-ask f seen h = record {
    run = λ s spared. Every-append (λ x. x ≢ card_deleted card) s.effects seen spared h;
  }

  Keeps-call :
      {A : Type 0} (m : MirrorEnv → StoreAction A) → Keeps (IsSpared card) (call lib world m)
  unfolding call
  Keeps-call m = record { run = λ s spared. spared }

  Keeps-get : (id : String) → Keeps (IsSpared card) (get lib world id)
  unfolding get
  Keeps-get id = Keeps-call (λ _. get_mirror lib id)

  Keeps-find_messages : (nonce : String) → Keeps (IsSpared card) (find_messages lib world nonce)
  unfolding find_messages
  Keeps-find_messages nonce = let silent = Keeps-ask (λ w. w.found) [] tt in search keeps_rules

  Keeps-render_card : (m revision : ℕ) → Keeps (IsSpared card) (render_card lib world m revision)
  unfolding render_card
  Keeps-render_card m revision =
      let edits = Keeps-ask (λ w. w.edited) (card_edited m revision ∷ []) ((λ same. cc same), tt) in
      search keeps_rules

  Keeps-reconcile_card :
      (n m : ℕ) (id : String) (revision : ℕ)
      → Keeps (IsSpared card) (reconcile_card lib world n m id revision)
  unfolding reconcile_card
  Keeps-reconcile_card zero m id revision = search keeps_rules
  Keeps-reconcile_card (suc n) m id revision =
      let again = Keeps-reconcile_card n m id in
      search (keeps_rules, Keeps-get, Keeps-render_card) depth 40

  -- A message that is not the one to keep.
  Keeps-delete :
      (m : ℕ)
      → (some card == some m) ≡ false
      → Keeps (IsSpared card) (ask lib world (λ w. w.deleted) (card_deleted m ∷ []))
  Keeps-delete m other =
      Keeps-ask (λ w. w.deleted) (card_deleted m ∷ [])
        (
          (λ same.
              let is : m ≡ card = cc same in
              cc (other, ap (λ n. some card == some n) is, beq_self (some card))),
          tt,
        )

  Keeps-delete_each : (ms : List ℕ) → Keeps (IsSpared card) (delete_each lib world (some card) ms)
  unfolding delete_each
  Keeps-delete_each [] = search keeps_rules
  Keeps-delete_each (m ∷ ms) =
      let rest = Keeps-delete_each ms in
      elim (Bool-cases (some card == some m)) [
        | inl kept ↦ rw kept rest
        | inr other ↦ rw other (let gone = Keeps-delete m other in search keeps_rules depth 40)
      ]

  Keeps-delete_nonce_matches :
      (nonce : String) → Keeps (IsSpared card) (delete_nonce_matches lib world nonce (some card))
  unfolding delete_nonce_matches
  Keeps-delete_nonce_matches nonce = search (keeps_rules, Keeps-find_messages, Keeps-delete_each)

  clean_nonce-Keeps :
      (r : Mirror) (nonce : Option String)
      → Keeps (IsSpared card) (clean_nonce lib world card r nonce)
  clean_nonce-Keeps r none = search keeps_rules
  clean_nonce-Keeps r (some nonce) =
      search
        (
          keeps_rules, Keeps-delete_nonce_matches, Keeps-call, Keeps-render_card,
          Keeps-reconcile_card,
        )
        depth 40

  -- Cleaning up the duplicates of a card never asks Discord to delete the card, whatever Discord and others do
  -- meanwhile and whether it returns or raises.
  pub cleanup_duplicates-Spared :
      (r : Mirror) (s : Publishing)
      → Every (λ x. x ≢ card_deleted card) s.effects
      → Every (λ x. x ≢ card_deleted card) (cleanup_duplicates lib world card r s).1.effects
  unfolding cleanup_duplicates
  cleanup_duplicates-Spared r s h = (clean_nonce-Keeps r r.card_cleanup_nonce).run s h
