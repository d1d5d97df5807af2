-- ===== src/Task/Claims.antt =====
-- The bounded memory of claimed events: discord_task_service_state.py, class `BoundedClaims`. The
-- constructor refuses a limit below one. An `OrderedDict` is a dictionary in its order.
pub mod Recall
use study_os_agent_gateway.Common.{
  ℕ, ◌+◌, ◌≤◌, String, ◌≡◌, refl, inl, inr, Option, none, some, [], ◌∷◌, ◌++◌, arith, ltb,
  if◌then◌else◌, Bool-cases, string_eq, bool_eq, nat_eq, ◌==◌, option_eq, list_eq, length, drop,
  length-append, length-drop, Result, raise_if, ◌>>◌, value_error, ok,
}
use study_os_agent_gateway.Common.Dict.{Dict}
use study_os_agent_gateway.Common.Dict
use study_os_agent_gateway.Task.Failure.{retry_mode_eq, category_eq}
use study_os_agent_gateway.Task.State.{state_eq}
use study_os_agent_gateway.Task.Record.{cause_eq, intent_eq, source_kind_eq}

pub record BoundedClaims : Type 0 where
  pub maximum : ℕ
  pub claims : Dict ℕ String

-- `__init__`
unfoldable pub new_claims : ℕ → Result BoundedClaims
new_claims maximum = do
  raise_if (ltb maximum 1) value_error
  ok (record { maximum = maximum; claims = [] })

-- `move_to_end` of a key with its value.
abbrev pub move_to_end : Dict ℕ String → ℕ → String → Dict ℕ String
move_to_end d k v = Dict.remove d k ++ (k, v) ∷ []

-- `if len(...) > maximum: popitem(last=False)`
abbrev pub trim : ℕ → Dict ℕ String → Dict ℕ String
trim maximum d = if ltb maximum (length d) then drop 1 d else d

unfoldable pub claim_with :
    BoundedClaims → ℕ → String → Option String → Option String × BoundedClaims
claim_with c event_id task_id (some existing) =
    (some existing, record c { claims = move_to_end c.claims event_id existing })
claim_with c event_id task_id none =
    (none, record c { claims = trim c.maximum (Dict.set c.claims event_id task_id) })

unfoldable pub claim : BoundedClaims → ℕ → String → Option String × BoundedClaims
unfolding claim_with
claim c event_id task_id = claim_with c event_id task_id (Dict.get c.claims event_id)

unfoldable pub remember : BoundedClaims → ℕ → String → BoundedClaims
remember c event_id task_id = record c {
  claims = trim c.maximum (move_to_end (Dict.set c.claims event_id task_id) event_id task_id);
}

length-remove : (d : Dict ℕ String) (k : ℕ) → length (Dict.remove d k) ≤ length d
unfolding Dict.remove
length-remove [] k = omega arith
length-remove ((j, w) ∷ d) k = elim (Bool-cases (j == k)) [
  | inl eq ↦ rw eq (omega (arith, length-remove d k))
  | inr ne ↦ rw ne (omega (arith, length-remove d k))
]

length-remove_found :
    (d : Dict ℕ String) (k : ℕ) (v : String)
    → Dict.get d k ≡ some v
    → length (Dict.remove d k) + 1 ≤ length d
unfolding Dict.remove Dict.get
length-remove_found [] k v h = absurd (cc h)
length-remove_found ((j, w) ∷ d) k v h = elim (Bool-cases (j == k)) [
  | inl eq ↦ rw eq (omega (arith, length-remove d k))
  | inr ne ↦ rw ne (omega (arith, length-remove_found d k v (rw ne at h)))
]

length-set : (d : Dict ℕ String) (k : ℕ) (v : String) → length (Dict.set d k v) ≤ length d + 1
unfolding Dict.set
length-set [] k v = omega arith
length-set ((j, w) ∷ d) k v = elim (Bool-cases (j == k)) [
  | inl eq ↦ rw eq (omega arith)
  | inr ne ↦ rw ne (omega (arith, length-set d k v))
]

length-trim : (n : ℕ) (d : Dict ℕ String) → length d ≤ n + 1 → length (trim n d) ≤ n
length-trim n d h = elim (Bool-cases (ltb n (length d))) [
  | inl over ↦ rw over (omega (arith, length-drop 1 d))
  | inr within ↦ rw within (ground arith)
]

claim_with-bound :
    (c : BoundedClaims) (event_id : ℕ) (task_id : String) (found : Option String)
    → Dict.get c.claims event_id ≡ found
    → length c.claims ≤ c.maximum
    → length (claim_with c event_id task_id found).1.claims ≤ c.maximum
unfolding claim_with
claim_with-bound c event_id task_id none missing h =
    length-trim c.maximum (Dict.set c.claims event_id task_id)
      (omega (arith, length-set c.claims event_id task_id))
claim_with-bound c event_id task_id (some existing) found h = omega (
  arith,
  length-append (Dict.remove c.claims event_id) ((event_id, existing) ∷ []),
  length-remove_found c.claims event_id existing found,
)

-- On a memory of claims within its limit neither a claim nor a remembered event makes more entries than the limit.
pub claim-IsBounded :
    (c : BoundedClaims) (event_id : ℕ) (task_id : String)
    → length c.claims ≤ c.maximum
    → (length (claim c event_id task_id).1.claims ≤ c.maximum)
      × (length (remember c event_id task_id).claims ≤ c.maximum)
unfolding claim remember
claim-IsBounded c event_id task_id h =
    let stored = Dict.set c.claims event_id task_id in
    (
      claim_with-bound c event_id task_id (Dict.get c.claims event_id) refl h,
      length-trim c.maximum (move_to_end stored event_id task_id) (
          omega (
            arith,
            length-append (Dict.remove stored event_id) ((event_id, task_id) ∷ []),
            length-remove_found stored event_id task_id
                (Dict.get-set_self c.claims event_id task_id),
            length-set c.claims event_id task_id,
          )),
    )
