-- ===== src/Task/Claims/Recall.antt =====
-- A remembered event is found again, whatever else the memory of claims had to drop for it.
use study_os_agent_gateway.Common.{
  ℕ, ◌≤◌, String, ◌≡◌, refl, inl, inr, none, some, [], ◌∷◌, ◌++◌, arith, ltb, Bool-cases, string_eq,
  bool_eq, nat_eq, ◌==◌, option_eq, beq_self, list_eq, length,
}
use study_os_agent_gateway.Task.Failure.{category_eq, retry_mode_eq}
use study_os_agent_gateway.Task.State.{state_eq}
use study_os_agent_gateway.Task.Claims.{trim, remember, BoundedClaims}
use study_os_agent_gateway.Task.Record.{cause_eq, intent_eq, source_kind_eq}
use study_os_agent_gateway.Common.Dict.{Dict}
use study_os_agent_gateway.Common.Dict

get-snoc :
    (d : Dict ℕ String) (k : ℕ) (v : String)
    → Dict.get d k ≡ none
    → Dict.get (d ++ (k, v) ∷ []) k ≡ some v
unfolding Dict.get
get-snoc [] k v missing = rw (beq_self k) refl
get-snoc ((j, w) ∷ d) k v missing = elim (Bool-cases (j == k)) [
  | inl eq ↦ absurd (cc (rw eq at missing))
  | inr ne ↦ rw ne (get-snoc d k v (rw ne at missing))
]

get-drop_snoc :
    (d : Dict ℕ String) (k : ℕ) (v : String) (n : ℕ)
    → 1 ≤ n
    → Dict.get d k ≡ none
    → Dict.get (trim n (d ++ (k, v) ∷ [])) k ≡ some v
unfolding Dict.get
get-drop_snoc [] k v n h missing = elim (Bool-cases (ltb n 1)) [
  | inl over ↦ absurd (ground arith)
  | inr fits ↦ rw fits (rw (beq_self k) refl)
]
get-drop_snoc ((j, w) ∷ d) k v n h missing = elim (Bool-cases (j == k)) [
  | inl eq ↦ absurd (cc (rw eq at missing))
  | inr ne ↦ elim (Bool-cases (ltb n (length (((j, w) ∷ d) ++ (k, v) ∷ [])))) [
    | inl over ↦ rw over (get-snoc d k v (rw ne at missing))
    | inr fits ↦ rw fits (rw ne (get-snoc d k v (rw ne at missing)))
  ]
]

get-removed : (d : Dict ℕ String) (k : ℕ) → Dict.get (Dict.remove d k) k ≡ none
get-removed d k = rw (Dict.get-remove d k k) (rw (beq_self k) refl)

-- A memory of claims that may hold an entry gives the task of the event that was remembered last.
pub remember-recall :
    (c : BoundedClaims) (event_id : ℕ) (task_id : String)
    → 1 ≤ c.maximum
    → Dict.get (remember c event_id task_id).claims event_id ≡ some task_id
unfolding remember
remember-recall c event_id task_id h =
    let stored = Dict.set c.claims event_id task_id in
    get-drop_snoc (Dict.remove stored event_id) event_id task_id c.maximum h
      (get-removed stored event_id)
