-- ===== src/Common/Fuel.antt =====
-- Loops on fuel: a loop that handles each key of a dictionary once needs no more rounds than it has
-- keys, and one round to end.
use Prim.Native.Nat.{◌+◌, ◌≤◌}
use Prim.Native.String.{String}
use mathlib.Core.Path.{◌≡◌, refl}
use mathlib.Core.Logic.{◌≢◌, inl, inr}
use mathlib.Core.Bool.{Bool, true, false}
use mathlib.Core.Option.{Option, none, some}
use mathlib.Core.List.{List, [], ◌∷◌}
use native.Mathlib.Omega.{arith}
use package.study_os_agent_gateway.Common.Tests.{Bool-cases, Option-cases, is_some}
use package.study_os_agent_gateway.Common.Equality.{string_eq, ◌==◌, ne_beq, beq_self}
use package.study_os_agent_gateway.Common.Seq.{length, member, all_distinct}
use package.study_os_agent_gateway.Common.Dict.{Dict}
use package.study_os_agent_gateway.Common.Dict
use package.study_os_agent_gateway.Common.Outcome.{
  Result, ok, raise, Error, out_of_fuel, ◌>>=◌, raise_if, or_raise,
}

-- The loop did not stop for want of fuel.
abbrev pub Ends {ℓ} : {A : Type ℓ} → Result A → Type 0
Ends (ok a) = Unit
Ends (raise e) = e ≢ out_of_fuel

pub Ends-bind {ℓ κ} :
    {A : Type ℓ} {B : Type κ} (m : Result A) (f : A → Result B)
    → Ends m
    → ((a : A) → m ≡ ok a → Ends (f a))
    → Ends (m >>= f)
Ends-bind (ok a) f em ef = ef a refl
Ends-bind (raise e) f em ef = em

pub Ends-or_raise {ℓ} :
    {A : Type ℓ} (o : Option A) (e : Error) → e ≢ out_of_fuel → Ends (or_raise o e)
Ends-or_raise none e h = h
Ends-or_raise (some a) e h = tt

pub Ends-raise_if : (c : Bool) (e : Error) → e ≢ out_of_fuel → Ends (raise_if c e)
Ends-raise_if true e h = h
Ends-raise_if false e h = tt

module _ {V : Type 0} where
  remove_shrinks : (d : Dict String V) (k : String) → length (Dict.remove d k) ≤ length d
  unfolding Dict.remove
  remove_shrinks [] k = omega arith
  remove_shrinks ((j, w) ∷ d) k = elim (Bool-cases (j == k)) [
    | inl eq ↦ rw eq (omega (arith, remove_shrinks d k))
    | inr ne ↦ rw ne (omega (arith, remove_shrinks d k))
  ]

  remove_found :
      (d : Dict String V) (k : String) (v : V)
      → Dict.get d k ≡ some v
      → length (Dict.remove d k) + 1 ≤ length d
  unfolding Dict.remove Dict.get
  remove_found [] k v h = absurd (cc h)
  remove_found ((j, w) ∷ d) k v h = elim (Bool-cases (j == k)) [
    | inl eq ↦ rw eq (omega (arith, remove_shrinks d k))
    | inr ne ↦ rw ne (omega (arith, remove_found d k v (rw ne at h)))
  ]

  abbrev pub AllKeys : Dict String V → List String → Type 0
  AllKeys d [] = Unit
  AllKeys d (x ∷ xs) = (is_some (Dict.get d x) ≡ true) × AllKeys d xs

  AllKeys-remove :
      (d : Dict String V) (x : String) (xs : List String)
      → member x xs ≡ false
      → AllKeys d xs
      → AllKeys (Dict.remove d x) xs
  AllKeys-remove d x [] new h = tt
  AllKeys-remove d x (y ∷ ys) new (here, rest) = elim (Bool-cases (y == x)) [
    | inl eq ↦ absurd (cc (rw eq at new))
    | inr ne ↦
        let other_key = ne_beq x y (λ same. cc (ne, same, beq_self y)) in
        (rw (Dict.get-remove d x y) (rw other_key here), AllKeys-remove d x ys (rw ne at new) rest)
  ]

  -- Distinct keys are no more than the dictionary has.
  pub distinct_keys_fit :
      (d : Dict String V) (xs : List String)
      → all_distinct xs ≡ true
      → AllKeys d xs
      → length xs ≤ length d
  distinct_keys_fit d [] u h = omega arith
  distinct_keys_fit d (x ∷ xs) u (here, rest) = elim (Bool-cases (member x xs)) [
    | inl twice ↦ absurd (cc (rw twice at u))
    | inr new ↦ elim (Option-cases (Dict.get d x)) [
      | inl nothing ↦ absurd (cc (rw nothing at here))
      | inr (v, found) ↦ omega (
        arith,
        distinct_keys_fit (Dict.remove d x) xs (rw new at u) (AllKeys-remove d x xs new rest),
        remove_found d x v found,
      )
    ]
  ]

pub Ends-not {ℓ} : {A : Type ℓ} (m : Result A) → Ends m → m ≢ raise out_of_fuel
Ends-not (ok a) em h = cc
Ends-not (raise e) em h = em (cc)
