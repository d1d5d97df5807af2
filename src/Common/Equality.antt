-- ===== src/Common/Equality.antt =====
-- Decidable equality as an interface: Python's `==` on the types of the model.
use Prim.Native.Nat.{ℕ}
use Prim.Native.String.{String}
use mathlib.Core.Path.{◌≡◌, refl, sym, ap, ◌∙◌}
use mathlib.Core.Logic.{◌↔◌, ◌≢◌}
use mathlib.Core.Bool.{Bool, true, false, not, ◌&&◌}
use mathlib.Core.Option.{Option, none, some}
use mathlib.Core.List.{List, [], ◌∷◌}
use native.Mathlib.Omega.{arith}
use text.Mathlib.Text.{◌==◌ as str_eqb}
use text.Mathlib.TextEquality.{eq_iff}
use package.study_os_agent_gateway.Common.Tests.{nat_eqb, nat_eqb_iff}

pub record Eq {ℓ} (A : Type ℓ) : Type ℓ where
  pub same : A → A → Bool
  pub same_iff : (x y : A) → (same x y ≡ true) ↔ (x ≡ y)

-- Equality of an enumeration, from a numbering of its constructors.
module _ {ℓ} {A : Type ℓ} (tag : A → ℕ) (untag : ℕ → A) (back : (a : A) → untag (tag a) ≡ a) where
  pub tag_iff : (a b : A) → (nat_eqb (tag a) (tag b) ≡ true) ↔ (a ≡ b)
  tag_iff a b = (
    λ h. sym (back a) ∙ ap untag ((nat_eqb_iff (tag a) (tag b)).0 h) ∙ back b,
    λ h. (nat_eqb_iff (tag a) (tag b)).1 (ap tag h),
  )

  abbrev pub enum_eq : Eq A
  enum_eq = record { same = λ a b. nat_eqb (tag a) (tag b); same_iff = tag_iff }

instance abbrev pub string_eq : Eq String
string_eq = record { same = str_eqb; same_iff = eq_iff }

abbrev pub bool_eqb : Bool → Bool → Bool
bool_eqb true b = b
bool_eqb false b = not b

pub bool_eqb_iff : (a b : Bool) → (bool_eqb a b ≡ true) ↔ (a ≡ b)
bool_eqb_iff a b = ground arith

instance abbrev pub bool_eq : Eq Bool
bool_eq = record { same = bool_eqb; same_iff = bool_eqb_iff }

instance abbrev pub nat_eq : Eq ℕ
nat_eq = record { same = nat_eqb; same_iff = nat_eqb_iff }

infix 50 ◌!=◌ ◌==◌
abbrev pub ◌!=◌ {ℓ} : {A : Type ℓ} ⦃law : Eq A⦄ → A → A → Bool
◌!=◌ ⦃law⦄ x y = not (law.same x y)

-- Python's `==`.
abbrev pub ◌==◌ {ℓ} : {A : Type ℓ} ⦃law : Eq A⦄ → A → A → Bool
◌==◌ ⦃law⦄ x y = law.same x y

module _ {ℓ} {A : Type ℓ} ⦃e : Eq A⦄ where
  abbrev pub option_eqb : Option A → Option A → Bool
  option_eqb none none = true
  option_eqb (some a) (some b) = a == b
  option_eqb _ _ = false

  pub option_eqb_iff : (a b : Option A) → (option_eqb a b ≡ true) ↔ (a ≡ b)
  option_eqb_iff none none = (λ _. refl, λ _. refl)
  option_eqb_iff none (some b) = (λ h. cc, λ h. cc)
  option_eqb_iff (some a) none = (λ h. cc, λ h. cc)
  option_eqb_iff (some a) (some b) = ground (arith, e.same_iff a b)

  instance abbrev pub option_eq : Eq (Option A)
  option_eq = record { same = option_eqb; same_iff = option_eqb_iff }

  pub beq_self : (a : A) → (a == a) ≡ true
  beq_self a = (e.same_iff a a).1 refl

  pub beq-eq : (a b : A) → (a == b) ≡ true → a ≡ b
  beq-eq a b = (e.same_iff a b).0

  pub beq_trans : (a b c : A) → (a == b) ≡ true → (b == c) ≡ true → (a == c) ≡ true
  beq_trans a b c h g = (e.same_iff a c).1 ((e.same_iff a b).0 h ∙ (e.same_iff b c).0 g)

  pub beq_ne : (a b : A) → (a == b) ≡ false → a ≢ b
  beq_ne a b h p = cc ((e.same_iff a b).1 p)

  pub ne_beq : (a b : A) → a ≢ b → (a == b) ≡ false
  ne_beq a b h = go (a == b) (e.same_iff a b).0
    where
      go : (t : Bool) → (t ≡ true → a ≡ b) → t ≡ false
      go true f = absurd (h (f refl))
      go false f = refl

  abbrev pub list_eqb : List A → List A → Bool
  list_eqb [] [] = true
  list_eqb (x ∷ xs) (y ∷ ys) = x == y && list_eqb xs ys
  list_eqb _ _ = false

  pub list_eqb_iff : (xs ys : List A) → (list_eqb xs ys ≡ true) ↔ (xs ≡ ys)
  list_eqb_iff [] [] = (λ _. refl, λ _. refl)
  list_eqb_iff [] (y ∷ ys) = (λ h. cc, λ h. cc)
  list_eqb_iff (x ∷ xs) [] = (λ h. cc, λ h. cc)
  list_eqb_iff (x ∷ xs) (y ∷ ys) = ground (arith, e.same_iff x y, list_eqb_iff xs ys)

  instance abbrev pub list_eq : Eq (List A)
  list_eq = record { same = list_eqb; same_iff = list_eqb_iff }
