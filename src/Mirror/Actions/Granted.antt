-- ===== src/Mirror/Actions/Granted.antt =====
-- Which reservations `reserve` grants.
use study_os_agent_gateway.Common.{
  ℕ, String, ◌≡◌, ◌⊎◌, inl, inr, true, false, ◌||◌, none, some, Bool-cases, string_eq, bool_eq,
  nat_eq, ◌==◌, option_eq, list_eq, find, Result, Returns, ok, raise, Stdlib,
}
use study_os_agent_gateway.Mirror.Store.{MirrorStore, StoreAction, ◌>>>◌}
use study_os_agent_gateway.Mirror.Record.{
  is_well_formed_mirror, checked_mirror, PendingAction, HandledClaim, Mirror, item_kind_eq,
  open_item, item_state_eq, MirrorAction, draft,
}
use study_os_agent_gateway.Mirror.Actions.{Reservation, reservation_for}

-- The mirror is reserved for the task alone: its item is open, no task works on it, and the interaction has not
-- been handled.
abbrev pub IsGranted : ℕ → MirrorAction → String → Reservation → Type 0
IsGranted interaction action task v =
    (v.accepted ≡ true)
    × (v.task_id ≡ task)
    × ((p : PendingAction) × (v.mirror.pending_action ≡ some p)
        × (p.interaction_id ≡ interaction)
        × (p.action ≡ action)
        × (p.task_id ≡ task))
    × (v.mirror.active_task_id ≡ none)
    × (((v.mirror.state == open_item) || (v.mirror.state == draft)) ≡ true)
    × (find (λ (c : HandledClaim). c.interaction_id == interaction)
          v.mirror.handled_interaction_claims
        ≡ none)

-- The answer to an interaction that the mirror knows.
abbrev pub IsRepeated : ℕ → Reservation → Type 0
IsRepeated interaction v = (v.accepted ≡ false) × (reservation_for v.mirror interaction ≡ some v)

abbrev pub IsAnswer : ℕ → MirrorAction → String → Reservation → Type 0
IsAnswer interaction action task v = IsGranted interaction action task v ⊎ IsRepeated interaction v

-- Code that only reads, before a step.
pub reading-Returns :
    {A B : Type 0} {Q : A → Type 0} (P : B → Type 0) (m : Result A) (f : A → StoreAction B)
    (s : MirrorStore)
    → Returns Q m
    → ((a : A) → Q a → Returns P (f a s).0)
    → Returns P ((m >>> f) s).0
reading-Returns P (ok a) f s q rest = rest a q
reading-Returns P (raise e) f s q rest = tt

pub same_checked : (lib : Stdlib) (next c : Mirror) → checked_mirror lib next ≡ ok c → next ≡ c
unfolding checked_mirror
same_checked lib next c h = elim (Bool-cases (is_well_formed_mirror lib next)) [
  | inl good ↦ cc (rw good at h)
  | inr bad ↦ absurd (cc (rw bad at h))
]

module _ (lib : Stdlib) (interaction : ℕ) (action : MirrorAction) (task : String) where
  abbrev IsClaim : PendingAction → Type 0
  IsClaim p = (p.interaction_id ≡ interaction) × (p.action ≡ action) × (p.task_id ≡ task)

  abbrev accepting : Mirror → Reservation
  accepting r = record { mirror = r; task_id = task; accepted = true; succeeded = none }
