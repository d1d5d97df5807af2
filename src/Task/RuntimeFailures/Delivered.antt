-- ===== src/Task/RuntimeFailures/Delivered.antt =====
-- The end of a delivery can be recorded.
use study_os_agent_gateway.Common.{
  ℕ, ◌≡◌, true, false, some, string_eq, bool_eq, nat_eq, ◌==◌, option_eq, list_eq, Stdlib,
}
use study_os_agent_gateway.Task.Failure.{retry_mode_eq, category_eq}
use study_os_agent_gateway.Task.State.{state_eq, State}
use study_os_agent_gateway.Task.Record.{is_well_formed, Task, intent_eq, cause_eq, source_kind_eq}

module _ (lib : Stdlib) (r : Task) (good : is_well_formed lib r ≡ true) (n : ℕ)
    (sent : (n == 0) ≡ false) where
  abbrev resulting : Task
  resulting = record r { result_message_id = some n }
