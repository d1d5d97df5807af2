-- ===== src/Mirror/Publisher/Shown.antt =====
-- What the card shows when the publisher is done with it.
use study_os_agent_gateway.Common.{
  ℕ, zero, suc, ◌+◌, String, ◌≡◌, refl, sym, subst, ◌⊎◌, inl, inr, true, not, some, List, [], ◌∷◌,
  ◌++◌, if◌then◌else◌, Bool-cases, string_eq, bool_eq, nat_eq, ◌==◌, option_eq, beq-eq, list_eq,
  Result, ok, raise, Stdlib,
}
use study_os_agent_gateway.Mirror.Publisher.Deletions.{WhenOk}
use study_os_agent_gateway.Mirror.Store.{get_mirror}
use study_os_agent_gateway.Mirror.Publisher.{
  ask, render_card, CardEffect, get, call, World, reconcile_card, Publish, or_no_access, Publishing,
  card_edited,
}
use study_os_agent_gateway.Mirror.Record.{Mirror, item_state_eq, item_kind_eq}
use study_os_agent_gateway.Common.Method.{return, fail, from, and_then, ◌>>=◌}

-- The last effect is an edit of the card, to the record at the revision.
abbrev pub Shows : ℕ → ℕ → Publishing → Type 0
Shows card revision s =
    (before : List CardEffect) × (s.effects ≡ before ++ card_edited card revision ∷ [])

WhenOk-bind :
    {A B : Type 0} (P : A → Publishing → Type 0) (Q : B → Publishing → Type 0) (m : Publish A)
    (f : A → Publish B) (s : Publishing)
    → WhenOk P (m s)
    → ((a : A) (t : Publishing) → P a t → WhenOk Q (f a t))
    → WhenOk Q ((m >>= f) s)
unfolding ◌>>=◌
WhenOk-bind {A = A} {B = B} P Q m f s h rest = go (m s) h
  where
    go : (left : Result A × Publishing) → WhenOk P left → WhenOk Q (and_then f left)
    go (ok a, t) h = rest a t h
    go (raise e, t) h = tt

module _ (lib : Stdlib) (world : ℕ → World) (card : ℕ) where
  -- A call of the store has no effect.
  get-Shows :
      (id : String) (revision : ℕ) (s : Publishing)
      → Shows card revision s
      → WhenOk (λ _ t. Shows card revision t) (get lib world id s)
  unfolding get call
  get-Shows id revision s h = go (get_mirror lib id s.store).0
    where
      go :
          (r : Result Mirror)
          → WhenOk
              (λ _ t. Shows card revision t)
              (r, record s { store = (get_mirror lib id s.store).1; tick = s.tick + 1 })
      go (ok r) = h
      go (raise e) = tt

  render_card-Shows :
      (revision : ℕ) (s : Publishing)
      → WhenOk (λ _ t. Shows card revision t) (render_card lib world card revision s)
  unfolding render_card ◌>>=◌ ask from
  render_card-Shows revision s = go (or_no_access lib world (world s.tick).edited)
    where
      go :
          (r : Result (Unit {0}))
          → WhenOk
              (λ _ t. Shows card revision t)
              (
                r,
                record {
                  store = (world s.tick).others s.store;
                  tick = s.tick + 1;
                  effects = s.effects ++ card_edited card revision ∷ [];
                },
              )
      go (ok u) = (s.effects, refl)
      go (raise e) = tt

  -- The card is rendered again unless it shows the revision.
  shown :
      (revision now : ℕ) (s : Publishing)
      → Shows card revision s
      → WhenOk
          (λ _ t. Shows card now t)
          ((if now == revision then return tt else render_card lib world card now) s)
  unfolding return
  shown revision now s h = elim (Bool-cases (now == revision)) [
    | inl same ↦ rw same (subst (λ n. Shows card n s) (sym (beq-eq now revision same)) h)
    | inr newer ↦ rw newer (render_card-Shows now s)
  ]

  -- Another card, or the last effect is an edit to the revision.
  abbrev IsUpToDate : Mirror → Publishing → Type 0
  IsUpToDate r t = (not (r.card_message_id == some card) ≡ true) ⊎ Shows card r.revision t

  -- The end of an attempt that rendered the revision, with the next attempt.
  abbrev attempt_end : Publish Mirror → ℕ → Mirror → Publish Mirror
  attempt_end again revision latest =
      if not (latest.card_message_id == some card)
      then return latest
      else if latest.revision == revision
      then return latest
      else again

  attempt_end-IsUpToDate :
      (again : Publish Mirror) (revision : ℕ) (latest : Mirror) (s : Publishing)
      → Shows card revision s
      → WhenOk IsUpToDate (again s)
      → WhenOk IsUpToDate (attempt_end again revision latest s)
  unfolding return
  attempt_end-IsUpToDate again revision latest s h next =
      elim (Bool-cases (not (latest.card_message_id == some card))) [
        | inl gone ↦ rw gone (inl gone)
        | inr ours ↦ rw ours (elim (Bool-cases (latest.revision == revision)) [
          | inl same ↦
              rw same
                (inr (subst (λ k. Shows card k s) (sym (beq-eq latest.revision revision same)) h))
          | inr changed ↦ rw changed next
        ])
      ]

  -- An attempt on the mirror that it read.
  abbrev attempt : (ℕ → Publish Mirror) → String → ℕ → Mirror → Publish Mirror
  attempt again id revision canonical =
      if not (canonical.card_message_id == some card)
      then return canonical
      else ((if canonical.revision == revision
            then return tt
            else render_card lib world card canonical.revision)
          >>= λ _. (get lib world id >>= attempt_end (again canonical.revision) canonical.revision))

  attempt-IsUpToDate :
      (again : ℕ → Publish Mirror) (id : String) (revision : ℕ) (canonical : Mirror)
      (s : Publishing)
      → Shows card revision s
      → ((k : ℕ) (t : Publishing) → Shows card k t → WhenOk IsUpToDate (again k t))
      → WhenOk IsUpToDate (attempt again id revision canonical s)
  unfolding return
  attempt-IsUpToDate again id revision canonical s h next =
      let now : ℕ = canonical.revision in
      let end : Mirror → Publish Mirror = attempt_end (again now) now in
      elim (Bool-cases (not (canonical.card_message_id == some card))) [
        | inl moved ↦ rw moved (inl moved)
        | inr ours ↦ rw ours (
            WhenOk-bind (λ _ t. Shows card now t) IsUpToDate
              (if now == revision then return tt else render_card lib world card now)
              (λ _. get lib world id >>= end) s (shown revision now s h)
              (λ _ t h.
                WhenOk-bind (λ _ u. Shows card now u) IsUpToDate (get lib world id) end t
                  (get-Shows id now t h)
                  (λ latest u h. attempt_end-IsUpToDate (again now) now latest u h (next now u h))))
      ]

  -- Where `_reconcile_card` returns, after a rendering of the revision that it is given, either the mirror has
  -- another card, or the last effect is an edit of this card to the revision of the mirror that it returns,
  -- however often others change the mirror meanwhile.
  pub reconcile_card-Shown :
      (n : ℕ) (id : String) (revision : ℕ) (s : Publishing)
      → Shows card revision s
      → WhenOk
          (λ r t. (not (r.card_message_id == some card) ≡ true) ⊎ Shows card r.revision t)
          (reconcile_card lib world n card id revision s)
  unfolding reconcile_card fail
  reconcile_card-Shown zero id revision s h = tt
  reconcile_card-Shown (suc n) id revision s h =
      let again : ℕ → Publish Mirror = reconcile_card lib world n card id in
      WhenOk-bind (λ _ t. Shows card revision t) IsUpToDate (get lib world id)
        (attempt again id revision) s (get-Shows id revision s h)
        (λ canonical t h.
          attempt-IsUpToDate again id revision canonical t h (reconcile_card-Shown n id))
