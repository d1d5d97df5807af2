-- ===== src/Common/Outcome.antt =====
-- Code that may raise. The exception classes of the two stores; the messages are left out.
use mathlib.Core.Path.{◌≡◌, refl, subst}
use mathlib.Core.Logic.{◌⊎◌, inl, inr}
use mathlib.Core.Bool.{Bool, true, false}
use mathlib.Core.Option.{Option, none, some}

pub data Error : Type 0 where
  value_error key_error : Error
  task_revision_conflict task_already_exists : Error
  store_corruption durability_error os_error : Error
  delivery_collision mirror_revision_conflict mutation_reentry : Error
  action_unavailable authorization_error out_of_fuel : Error
  action_busy channel_busy service_closed runtime_error : Error
  agent_timed_out agent_disconnected agent_incompatible agent_process agent_output : Error
  agent_configuration agent_workspace : Error
  definitive_non_delivery ambiguous_delivery cancelled : Error
  not_found forbidden http_error channel_access configuration_missing assertion_error : Error

pub data Result {ℓ} (A : Type ℓ) : Type ℓ where
  ok : A → Result A
  raise : Error → Result A

-- `if c: raise e`
abbrev pub raise_if : Bool → Error → Result (Unit {0})
raise_if true e = raise e
raise_if false e = ok tt

abbrev pub or_raise {ℓ} : {A : Type ℓ} → Option A → Error → Result A
or_raise none e = raise e
or_raise (some a) e = ok a

-- What holds of the value, if there is one.
abbrev pub Returns {ℓ κ} : {A : Type ℓ} → (A → Type κ) → Result A → Type κ
Returns P (ok a) = P a
Returns P (raise e) = Unit

pub Returns-eq {ℓ κ} :
    {A : Type ℓ} (P : A → Type κ) (m : Result A) (a : A) → Returns P m → m ≡ ok a → P a
Returns-eq P (ok b) a p h = subst P (cc h) p
Returns-eq P (raise e) a p h = absurd (cc h)

pub Returns-intro {ℓ κ} :
    {A : Type ℓ} (P : A → Type κ) (m : Result A) → ((a : A) → m ≡ ok a → P a) → Returns P m
Returns-intro P (ok a) f = f a refl
Returns-intro P (raise e) f = tt

pub Returns-raise_if : (c : Bool) (e : Error) → Returns (λ _. c ≡ false) (raise_if c e)
Returns-raise_if true e = tt
Returns-raise_if false e = refl

pub Returns-or_raise {ℓ} :
    {A : Type ℓ} (o : Option A) (e : Error) → Returns (λ a. o ≡ some a) (or_raise o e)
Returns-or_raise none e = tt
Returns-or_raise (some a) e = refl

-- The statement after one that may raise.
infixl 5 ◌>>=◌ ◌>>◌
abbrev pub ◌>>=◌ {ℓ κ} : {A : Type ℓ} {B : Type κ} → Result A → (A → Result B) → Result B
raise e >>= rest = raise e
ok value >>= rest = rest value

abbrev pub ◌>>◌ {ℓ} : {B : Type ℓ} → Result (Unit {0}) → Result B → Result B
first >> rest = first >>= λ _. rest

pub Returns-bind {ℓ κ μ ν} :
    {A : Type ℓ} {B : Type κ} (Q : A → Type μ) (P : B → Type ν) (m : Result A) (f : A → Result B)
    → Returns Q m
    → ((a : A) → m ≡ ok a → Q a → Returns P (f a))
    → Returns P (m >>= f)
Returns-bind Q P (ok a) f q rest = rest a refl q
Returns-bind Q P (raise e) f q rest = tt

-- Where nothing is known of the first value.
pub Returns-then {ℓ κ ν} :
    {A : Type ℓ} {B : Type κ} (P : B → Type ν) (m : Result A) (f : A → Result B)
    → ((a : A) → m ≡ ok a → Returns P (f a))
    → Returns P (m >>= f)
Returns-then P (ok a) f rest = rest a refl
Returns-then P (raise e) f rest = tt

pub Returns-map {ℓ κ ν} :
    {A : Type ℓ} (Q : A → Type κ) (P : A → Type ν) (m : Result A)
    → ((a : A) → Q a → P a)
    → Returns Q m
    → Returns P m
Returns-map Q P (ok a) f q = f a q
Returns-map Q P (raise e) f q = tt

pub Result-cases {ℓ} :
    {A : Type ℓ} (m : Result A) → ((a : A) × (m ≡ ok a)) ⊎ ((e : Error) × (m ≡ raise e))
Result-cases (ok a) = inl (a, refl)
Result-cases (raise e) = inr (e, refl)

-- The code raises.
abbrev pub Raises {ℓ} : {A : Type ℓ} → Result A → Type 0
Raises (ok a) = ⊥
Raises (raise e) = Unit

pub Raises-eq {ℓ} : {A : Type ℓ} (m : Result A) → Raises m → (e : Error) × (m ≡ raise e)
Raises-eq (ok a) h = absurd h
Raises-eq (raise e) h = (e, refl)

pub Raises-first {ℓ κ} :
    {A : Type ℓ} {B : Type κ} (m : Result A) (f : A → Result B) → Raises m → Raises (m >>= f)
Raises-first (ok a) f h = absurd h
Raises-first (raise e) f h = tt

pub Raises-rest {ℓ κ} :
    {A : Type ℓ} {B : Type κ} (m : Result A) (f : A → Result B)
    → ((a : A) → m ≡ ok a → Raises (f a))
    → Raises (m >>= f)
Raises-rest (ok a) f h = h a refl
Raises-rest (raise e) f h = tt
