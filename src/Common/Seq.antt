-- ===== src/Common/Seq.antt =====
-- Python's sequences as lists, measured by native numbers: `len`, slices and membership.
use Prim.Native.Nat.{ℕ, zero, suc, ◌+◌, ◌-◌, ◌≤◌}
use mathlib.Core.Path.{◌≡◌, refl}
use mathlib.Core.Logic.{◌≢◌, ◌⊎◌, inl, inr}
use mathlib.Core.Bool.{Bool, true, false, ◌&&◌, ◌||◌}
use mathlib.Core.Option.{Option, none, some}
use mathlib.Core.List.{List, [], ◌∷◌, ◌++◌}
use native.Mathlib.Omega.{arith}
use package.study_os_agent_gateway.Common.Tests.{if◌then◌else◌, Bool-cases}
use package.study_os_agent_gateway.Common.Equality.{Eq, ◌==◌, beq_self}

module _ {ℓ} {A : Type ℓ} where
  abbrev pub length : List A → ℕ
  length [] = 0
  length (x ∷ xs) = suc (length xs)

  abbrev pub take : ℕ → List A → List A
  take zero xs = []
  take (suc n) [] = []
  take (suc n) (x ∷ xs) = x ∷ take n xs

  abbrev pub drop : ℕ → List A → List A
  drop zero xs = xs
  drop (suc n) [] = []
  drop (suc n) (x ∷ xs) = drop n xs

  -- `xs[i]`, with a default outside the range.
  abbrev pub nth : A → ℕ → List A → A
  nth d i [] = d
  nth d zero (x ∷ xs) = x
  nth d (suc i) (x ∷ xs) = nth d i xs

  -- `xs[-n:]` for a positive `n`.
  abbrev pub last_n : ℕ → List A → List A
  last_n n xs = drop (length xs - n) xs

  -- `any(p(x) for x in xs)` and `all(...)`.
  abbrev pub any : (A → Bool) → List A → Bool
  any p [] = false
  any p (x ∷ xs) = p x || any p xs

  abbrev pub all : (A → Bool) → List A → Bool
  all p [] = true
  all p (x ∷ xs) = p x && all p xs

  -- `[x for x in xs if p(x)]`
  abbrev pub filter : (A → Bool) → List A → List A
  filter p [] = []
  filter p (x ∷ xs) = if p x then x ∷ filter p xs else filter p xs

  -- `next((x for x in xs if p(x)), None)`.
  abbrev pub find : (A → Bool) → List A → Option A
  find p [] = none
  find p (x ∷ xs) = if p x then some x else find p xs

  pub length-append : (xs ys : List A) → length (xs ++ ys) ≡ length xs + length ys
  length-append [] ys = omega arith
  length-append (x ∷ xs) ys = omega (arith, length-append xs ys)

  pub length-drop : (n : ℕ) (xs : List A) → length (drop n xs) ≡ length xs - n
  length-drop zero xs = omega arith
  length-drop (suc n) [] = omega arith
  length-drop (suc n) (x ∷ xs) = omega (arith, length-drop n xs)

  pub snoc-ne-nil : (xs : List A) (x : A) → xs ++ x ∷ [] ≢ []
  snoc-ne-nil [] x h = cc
  snoc-ne-nil (y ∷ xs) x h = cc

  pub length-last_n : (n : ℕ) (xs : List A) → length (last_n n xs) ≤ n
  length-last_n n xs = omega (arith, length-drop (length xs - n) xs)

module _ {ℓ} {A : Type ℓ} ⦃e : Eq A⦄ where
  -- `x in xs`.
  abbrev pub member : A → List A → Bool
  member a [] = false
  member a (x ∷ xs) = x == a || member a xs

  -- `len(set(xs)) == len(xs)`.
  abbrev pub all_distinct : List A → Bool
  all_distinct [] = true
  all_distinct (x ∷ xs) = if member x xs then false else all_distinct xs

  pub member-append : (a : A) (xs ys : List A) → member a (xs ++ ys) ≡ (member a xs || member a ys)
  member-append a [] ys = refl
  member-append a (x ∷ xs) ys = ground (arith, member-append a xs ys)

  pub member-drop : (a : A) (n : ℕ) (xs : List A) → member a (drop n xs) ≡ true → member a xs ≡ true
  member-drop a zero xs h = h
  member-drop a (suc n) [] h = h
  member-drop a (suc n) (x ∷ xs) h = ground (arith, member-drop a n xs h)

  -- What is appended is among the last.
  pub member-drop-snoc :
      (a : A) (n : ℕ) (xs : List A) → n ≤ length xs → member a (drop n (xs ++ a ∷ [])) ≡ true
  member-drop-snoc a zero [] h = rw (beq_self a) refl
  member-drop-snoc a zero (x ∷ xs) h = ground (arith, member-drop-snoc a zero xs (omega arith))
  member-drop-snoc a (suc n) [] h = absurd (omega arith)
  member-drop-snoc a (suc n) (x ∷ xs) h = member-drop-snoc a n xs (omega arith)

  pub member-last_n-snoc :
      (a : A) (n : ℕ) (xs : List A) → member a (last_n (suc n) (xs ++ a ∷ [])) ≡ true
  member-last_n-snoc a n xs =
      member-drop-snoc a (length (xs ++ a ∷ []) - suc n) xs
        (omega (arith, length-append xs (a ∷ [])))

  pub member-single : (a b : A) → member a (b ∷ []) ≡ true → a ≡ b
  member-single a b h = ground (arith, e.same_iff b a)

  pub member-last_n-cases :
      (a b : A) (n : ℕ) (xs : List A)
      → member a (last_n n (xs ++ b ∷ [])) ≡ true
      → (member a xs ≡ true) ⊎ (a ≡ b)
  member-last_n-cases a b n xs h =
      let all_of = member-drop a (length (xs ++ b ∷ []) - n) (xs ++ b ∷ []) h in
      elim (Bool-cases (member a xs)) [
        | inl old ↦ inl old
        | inr new ↦ inr (member-single a b (ground (arith, member-append a xs (b ∷ []))))
      ]
