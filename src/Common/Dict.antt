-- ===== src/Common/Dict.antt =====
-- Python's `dict`, in insertion order.
use study_os_agent_gateway.Common.Tests.{if◌then◌else◌, is_some, Bool-cases, Option-cases}
use study_os_agent_gateway.Common.Equality.{Eq, ◌==◌, beq_self, beq-eq, ne_beq}
use study_os_agent_gateway.Common.Seq.{any, find}
use mathlib.Core.Path.{◌≡◌, refl, subst, ap, ◌∙◌}
use mathlib.Core.Logic.{◌⊎◌, ◌≢◌, inl, inr}
use mathlib.Core.Bool.{Bool, true, false}
use mathlib.Core.Option.{Option, none, some}
use mathlib.Core.List.{List, [], ◌∷◌}
use native.Mathlib.Omega.{arith}

abbrev pub Dict {ℓ κ} : Type ℓ → Type κ → Type (ℓ ⊔ κ)
Dict K V = List (K × V)

module _ {ℓ κ} {K : Type ℓ} {V : Type κ} where
  -- `d.values()` and `d.keys()`
  abbrev pub values : Dict K V → List V
  values [] = []
  values ((k, v) ∷ d) = v ∷ values d

  abbrev pub keys : Dict K V → List K
  keys [] = []
  keys ((k, v) ∷ d) = k ∷ keys d

or_nothing {κ} : {V : Type κ} (o : Option V) → (if is_some o then o else none) ≡ o
or_nothing none = refl
or_nothing (some v) = refl

module _ {ℓ κ} {K : Type ℓ} {V : Type κ} ⦃e : Eq K⦄ where
  -- `d.get(k)`
  unfoldable pub get : Dict K V → K → Option V
  get [] k = none
  get ((j, v) ∷ d) k = if j == k then some v else get d k

  -- `d[k] = v`: in place, or at the end.
  unfoldable pub set : Dict K V → K → V → Dict K V
  set [] k v = (k, v) ∷ []
  set ((j, w) ∷ d) k v = if j == k then (j, v) ∷ d else (j, w) ∷ set d k v

  -- `del d[k]`
  unfoldable pub remove : Dict K V → K → Dict K V
  remove [] k = []
  remove ((j, w) ∷ d) k = let rest = remove d k in if j == k then rest else (j, w) ∷ rest

  pub get-empty : (k : K) → get [] k ≡ none
  unfolding get
  get-empty k = refl

  pub get-set :
      (d : Dict K V) (k j : K) (v : V) → get (set d k v) j ≡ (if k == j then some v else get d j)
  unfolding get set
  get-set [] k j v = refl
  get-set ((i, w) ∷ d) k j v =
      ground (arith, e.same_iff k j, e.same_iff i k, e.same_iff i j, get-set d k j v)

  pub get-remove :
      (d : Dict K V) (k j : K) → get (remove d k) j ≡ (if k == j then none else get d j)
  unfolding get remove
  get-remove [] k j = ground arith
  get-remove ((i, w) ∷ d) k j =
      ground (arith, e.same_iff k j, e.same_iff i k, e.same_iff i j, get-remove d k j)

  -- What no value of the dictionary satisfies, no entry does.
  pub any-values :
      (p : V → Bool) (d : Dict K V) (k : K) (v : V)
      → any p (values d) ≡ false
      → get d k ≡ some v
      → p v ≡ false
  unfolding get
  any-values p [] k v h found = cc
  any-values p ((j, w) ∷ d) k v h found = ground (arith, any-values p d k v)

  pub get-set_self : (d : Dict K V) (k : K) (v : V) → get (set d k v) k ≡ some v
  get-set_self d k v = ground (arith, get-set d k k v, e.same_iff k k)

  -- What an entry of the changed dictionary is.
  pub get-set-cases :
      (d : Dict K V) (k : K) (v : V) (j : K) (w : V)
      → get (set d k v) j ≡ some w
      → ((k ≡ j) × (w ≡ v)) ⊎ ((j ≢ k) × (get d j ≡ some w))
  get-set-cases d k v j w h = elim (Bool-cases (k == j)) [
    | inl eq ↦ inl (ground (arith, e.same_iff k j), ground (arith, get-set d k j v))
    | inr ne ↦ inr (ground (arith, e.same_iff k j), ground (arith, get-set d k j v))
  ]

  -- A Python dictionary holds a key once.
  abbrev pub IsUnique : Dict K V → Type κ
  IsUnique [] = Unit
  IsUnique ((k, v) ∷ d) = (get d k ≡ none) × IsUnique d

  pub IsUnique-set : (d : Dict K V) (k : K) (v : V) → IsUnique d → IsUnique (set d k v)
  unfolding set
  IsUnique-set [] k v u = (get-empty k, tt)
  IsUnique-set ((j, w) ∷ d) k v u = elim (Bool-cases (j == k)) [
    | inl eq ↦ rw eq u
    | inr ne ↦ rw ne (
      get-set d k j v ∙ ground (arith, e.same_iff k j, e.same_iff j k, u.0),
      IsUnique-set d k v u.1,
    )
  ]

  pub IsUnique-remove : (d : Dict K V) (k : K) → IsUnique d → IsUnique (remove d k)
  unfolding remove
  IsUnique-remove [] k u = tt
  IsUnique-remove ((j, w) ∷ d) k u = elim (Bool-cases (j == k)) [
    | inl eq ↦ rw eq (IsUnique-remove d k u.1)
    | inr ne ↦ rw ne (ground (arith, get-remove d k j, u.0), IsUnique-remove d k u.1)
  ]

  abbrev pub AllEntries {μ} : (K → V → Type μ) → Dict K V → Type μ
  AllEntries P [] = Unit
  AllEntries P ((k, v) ∷ d) = P k v × AllEntries P d

  -- What holds of what `get` finds holds of every entry.
  pub AllEntries-get {μ} :
      (P : K → V → Type μ) (d : Dict K V)
      → IsUnique d
      → ((k : K) (v : V) → get d k ≡ some v → P k v)
      → AllEntries P d
  unfolding get
  AllEntries-get P [] u h = tt
  AllEntries-get P ((k, v) ∷ d) u h = (
    h k v (rw (beq_self k) refl),
    AllEntries-get P d u.1
        (λ j w found. h j w (rw (ne_beq k j (λ same. cc (u.0, ap (get d) same, found))) found)),
  )

  any-entries :
      (p : V → Bool) (d : Dict K V) → AllEntries (λ _ v. p v ≡ false) d → any p (values d) ≡ false
  any-entries p [] h = refl
  any-entries p ((k, v) ∷ d) h = rw h.0 (any-entries p d h.1)

  -- No value of the dictionary satisfies what no entry that `get` finds satisfies.
  pub any-get :
      (p : V → Bool) (d : Dict K V)
      → IsUnique d
      → ((k : K) (v : V) → get d k ≡ some v → p v ≡ false)
      → any p (values d) ≡ false
  any-get p d u h = any-entries p d (AllEntries-get (λ _ v. p v ≡ false) d u h)

  -- The value that a search over the values finds stands under some key.
  pub find-values :
      (p : V → Bool) (d : Dict K V)
      → IsUnique d
      → (v : V) → find p (values d) ≡ some v
      → (k : K) × (get d k ≡ some v) × (p v ≡ true)
  unfolding get
  find-values p [] u v h = absurd (cc h)
  find-values p ((k, w) ∷ d) u v h = elim (Bool-cases (p w)) [
    | inl holds ↦
        let same : w ≡ v = ground arith in (k, rw (beq_self k) (cc same), cc (holds, same))
    | inr fails ↦
        let (j, found, good) = find-values p d u.1 v (ground arith) in
        (j, rw (ne_beq k j (λ same. cc (u.0, ap (get d) same, found))) found, good)
  ]

  -- A search that fails passed every entry.
  pub find-none :
      (p : V → Bool) (d : Dict K V) (k : K) (v : V)
      → find p (values d) ≡ none
      → get d k ≡ some v
      → p v ≡ false
  unfolding get
  find-none p [] k v h found = absurd (cc found)
  find-none p ((j, w) ∷ d) k v h found = ground (arith, find-none p d k v)

  -- A search succeeds where an entry satisfies the test.
  pub find-some :
      (p : V → Bool) (d : Dict K V) (k : K) (v : V)
      → get d k ≡ some v
      → p v ≡ true
      → (w : V) × (find p (values d) ≡ some w)
  find-some p d k v found holds = elim (Option-cases (find p (values d))) [
    | inl fails ↦ absurd (cc (holds, find-none p d k v fails found))
    | inr is ↦ is
  ]

  -- `result.update(d)`
  abbrev pub set_all : Dict K V → Dict K V → Dict K V
  set_all [] result = result
  set_all ((k, v) ∷ d) result = set_all d (set result k v)

  pub get-set_all :
      (d result : Dict K V) (k : K)
      → IsUnique d
      → get (set_all d result) k ≡ (if is_some (get d k) then get d k else get result k)
  unfolding get
  get-set_all [] result k u = refl
  get-set_all ((j, v) ∷ d) result k (new, u) =
      get-set_all d (set result j v) k u ∙ (elim (Bool-cases (j == k)) [
        | inl eq ↦
            let gone : get d k ≡ none = subst (λ i. get d i ≡ none) (beq-eq j k eq) new in
            rw (gone, eq) (get-set result j k v ∙ rw eq refl)
        | inr ne ↦
            rw ne (
              ap (λ o. if is_some (get d k) then get d k else o)
                (get-set result j k v ∙ rw ne refl))
      ])

  pub get-set_all_nothing : (d : Dict K V) (k : K) → IsUnique d → get (set_all d []) k ≡ get d k
  unfolding get
  get-set_all_nothing d k u = get-set_all d [] k u ∙ or_nothing (get d k)
