-- ===== src/Task/State.antt =====
-- The life cycle of a Discord task: discord_task_model.py, `DiscordTaskState` and its transitions.
use study_os_agent_gateway.Common.{
  ℕ, ◌≡◌, refl, Bool, true, false, List, [], ◌∷◌, Eq, nat_eq, string_eq, bool_eq, enum_eq,
  option_eq, list_eq, nth, member,
}

pub data State : Type 0 where
  starting recovering running stopping delivering : State
  completed delivery_failed failed timed_out stopped interrupted : State

abbrev pub state_tag : State → ℕ
state_tag starting = 0
state_tag recovering = 1
state_tag running = 2
state_tag stopping = 3
state_tag delivering = 4
state_tag completed = 5
state_tag delivery_failed = 6
state_tag failed = 7
state_tag timed_out = 8
state_tag stopped = 9
state_tag interrupted = 10

abbrev pub state_of : ℕ → State
state_of n = nth starting n (
    starting ∷ recovering ∷ running ∷ stopping ∷ delivering ∷ completed ∷ delivery_failed ∷ failed
    ∷ timed_out ∷ stopped ∷ interrupted ∷ [])

pub state_of-state_tag : (s : State) → state_of (state_tag s) ≡ s
state_of-state_tag starting = refl
state_of-state_tag s = refl

instance abbrev pub state_eq : Eq State
state_eq = enum_eq state_tag state_of state_of-state_tag

-- `state in ACTIVE_STATES`.
unfoldable pub is_active : State → Bool
is_active recovering = true
is_active starting = true
is_active running = true
is_active stopping = true
is_active delivering = true
is_active s = false

-- `state in _FAILURE_STATES`.
unfoldable pub is_failure : State → Bool
is_failure failed = true
is_failure timed_out = true
is_failure delivery_failed = true
is_failure s = false

-- `_TRANSITIONS`.
unfoldable pub transitions : State → List State
transitions failed = recovering ∷ []
transitions timed_out = recovering ∷ []
transitions interrupted = recovering ∷ []
transitions recovering = starting ∷ failed ∷ stopping ∷ []
transitions starting = running ∷ failed ∷ stopping ∷ []
transitions running = delivering ∷ failed ∷ timed_out ∷ stopping ∷ interrupted ∷ []
transitions stopping = stopped ∷ failed ∷ interrupted ∷ []
transitions delivering = completed ∷ delivery_failed ∷ []
transitions delivery_failed = delivering ∷ []
transitions completed = []
transitions stopped = []

unfoldable pub can_transition : State → State → Bool
unfolding transitions
can_transition current target = member target (transitions current)
