-- ===== src/Task/Store/Room.antt =====
-- `_ensure_execution_available` finds every active task in the channel but the ignored one.
use study_os_agent_gateway.Common.{
  String, ◌≡◌, refl, sym, ◌∙◌, ◌≢◌, true, false, Option, none, some, arith, ◌==◌, nat_eq, string_eq,
  bool_eq, option_eq, ne_beq, list_eq, any, Returns, Returns-intro, ok,
}
use study_os_agent_gateway.Task.Retention.Subset.{IsKeyed}
use study_os_agent_gateway.Task.Store.{ensure_execution_available, is_in_the_way}
use study_os_agent_gateway.Task.Failure.{category_eq, retry_mode_eq}
use study_os_agent_gateway.Task.State.{is_active, state_eq}
use study_os_agent_gateway.Task.Invariant.{HasRoom}
use study_os_agent_gateway.Task.Record.{cause_eq, Task, intent_eq, source_kind_eq}
use study_os_agent_gateway.Common.Dict
use study_os_agent_gateway.Common.Dict.{Dict}

module _ (r : Task) (tasks : Dict String Task) where
  available-ne :
      (ignore : Option String) (j : String) (q : Task) {u : Unit {0}}
      → ensure_execution_available r tasks ignore ≡ ok u
      → Dict.get tasks j ≡ some q
      → (some q.task_id == ignore) ≡ false
      → is_active r.state ≡ true
      → is_active q.state ≡ true
      → q.execution_channel_id ≢ r.execution_channel_id
  unfolding ensure_execution_available
  available-ne ignore j q free found not_ignored ar aq same =
      let clear : any (is_in_the_way r ignore) (Dict.values tasks) ≡ false = ground arith in
      let apart = Dict.any-values (is_in_the_way r ignore) tasks j q clear found in ground arith

  -- A new task, under any key.
  pub available-HasRoom_new :
      (k : String) → Returns (λ _. HasRoom tasks k r) (ensure_execution_available r tasks none)
  available-HasRoom_new k =
      Returns-intro (λ (_ : Unit {0}). HasRoom tasks k r) (ensure_execution_available r tasks none)
        (λ u free j q found _ ar aq. available-ne none j q free found refl ar aq)

  -- A task that replaces the one under its key.
  pub available-HasRoom_old :
      (k : String)
      → IsKeyed tasks
      → Returns (λ _. HasRoom tasks k r) (ensure_execution_available r tasks (some k))
  available-HasRoom_old k keyed =
      Returns-intro (λ (_ : Unit {0}). HasRoom tasks k r)
        (ensure_execution_available r tasks (some k))
        (λ u free j q found ne ar aq.
          available-ne (some k) j q free found
            (ne_beq q.task_id k (λ e. ne (sym (keyed j q found) ∙ e))) ar aq)
