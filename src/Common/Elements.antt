-- ===== src/Common/Elements.antt =====
-- What holds of every element of a list, through the operations on lists.
use Prim.Native.Nat.{ℕ, zero, suc}
use mathlib.Core.Path.{◌≡◌}
use mathlib.Core.Logic.{inl, inr}
use mathlib.Core.Bool.{Bool, true}
use mathlib.Core.List.{List, [], ◌∷◌, ◌++◌, map}
use package.study_os_agent_gateway.Common.Tests.{Bool-cases}
use package.study_os_agent_gateway.Common.Seq.{take, filter}

module _ {ℓ κ} {A : Type ℓ} where
  abbrev pub Every : (A → Type κ) → List A → Type κ
  Every P [] = Unit
  Every P (x ∷ xs) = P x × Every P xs

module _ {ℓ κ μ} {A : Type ℓ} where
  pub Every-imp :
      (P : A → Type κ) (Q : A → Type μ) (xs : List A)
      → ((x : A) → P x → Q x)
      → Every P xs
      → Every Q xs
  Every-imp P Q [] f h = tt
  Every-imp P Q (x ∷ xs) f (px, pxs) = (f x px, Every-imp P Q xs f pxs)

module _ {ℓ κ} {A : Type ℓ} (P : A → Type κ) where
  pub Every-intro : (xs : List A) → ((x : A) → P x) → Every P xs
  Every-intro [] f = tt
  Every-intro (x ∷ xs) f = (f x, Every-intro xs f)

  pub Every-take : (n : ℕ) (xs : List A) → Every P xs → Every P (take n xs)
  Every-take zero xs h = tt
  Every-take (suc n) [] h = tt
  Every-take (suc n) (x ∷ xs) (px, pxs) = (px, Every-take n xs pxs)

module _ {ℓ} {A : Type ℓ} (p : A → Bool) where
  pub Every-filter : (xs : List A) → Every (λ x. p x ≡ true) (filter p xs)
  Every-filter [] = tt
  Every-filter (x ∷ xs) = elim (Bool-cases (p x)) [
    | inl holds ↦ rw holds (holds, Every-filter xs)
    | inr fails ↦ rw fails (Every-filter xs)
  ]

  pub Every-filter_of {κ} : (Q : A → Type κ) (xs : List A) → Every Q xs → Every Q (filter p xs)
  Every-filter_of Q [] h = tt
  Every-filter_of Q (x ∷ xs) (qx, rest) = elim (Bool-cases (p x)) [
    | inl holds ↦ rw holds (qx, Every-filter_of Q xs rest)
    | inr fails ↦ rw fails (Every-filter_of Q xs rest)
  ]

module _ {ℓ κ μ} {A : Type ℓ} (P : A → Type κ) (Q : A → Type μ) where
  pub Every-both : (xs : List A) → Every P xs → Every Q xs → Every (λ x. P x × Q x) xs
  Every-both [] p q = tt
  Every-both (x ∷ xs) (px, ps) (qx, qs) = ((px, qx), Every-both xs ps qs)

module _ {ℓ κ μ} {A : Type ℓ} {B : Type κ} (f : A → B) (P : B → Type μ) where
  pub Every-map : (xs : List A) → Every (λ x. P (f x)) xs → Every P (map f xs)
  Every-map [] h = tt
  Every-map (x ∷ xs) (px, pxs) = (px, Every-map xs pxs)

module _ {ℓ κ} {A : Type ℓ} (P : A → Type κ) where
  pub Every-append : (xs ys : List A) → Every P xs → Every P ys → Every P (xs ++ ys)
  Every-append [] ys h g = g
  Every-append (x ∷ xs) ys (px, h) g = (px, Every-append xs ys h g)
