-- ===== src/Task/Graph.antt =====
-- The links between a task and its continuation: discord_task_store_policy.py, `same_task_scope`,
-- `validate_continuation_graph` and `_assert_acyclic`.
pub mod Ends
use study_os_agent_gateway.Common.{
  ℕ, zero, suc, String, Bool, true, false, not, ◌&&◌, Option, none, some, List, [], ◌∷◌, ◌++◌, ◌==◌,
  nat_eq, string_eq, bool_eq, option_eq, list_eq, length, all, member, Result, ◌>>=◌, ◌>>◌,
  raise_if, value_error, key_error, out_of_fuel, ok, raise,
}
use study_os_agent_gateway.Common.Dict
use study_os_agent_gateway.Common.Dict.{Dict}
use study_os_agent_gateway.Task.State.{state_eq, completed}
use study_os_agent_gateway.Task.Record.{Task, intent_eq}

unfoldable pub same_task_scope : Task → Task → Bool
same_task_scope parent child =
    (parent.owner_id == child.owner_id)
    && (parent.guild_id == child.guild_id)
    && (parent.origin_channel_id == child.origin_channel_id)
    && (parent.execution_channel_id == child.execution_channel_id)
    && (parent.intent == child.intent)
    && (parent.source_reference_id == child.source_reference_id)
    && (parent.repository_commit_sha == child.repository_commit_sha)

-- `child` is the reciprocal continuation of the completed `parent`, of the same scope.
unfoldable pub is_link : Task → Task → Bool
unfolding same_task_scope
is_link parent child = (parent.state == completed) && same_task_scope parent child

-- The check of `record.continued_to_task_id`, then that of `continued_from_task_id`.
unfoldable pub is_linked_forward : Dict String Task → Task → Bool
unfolding is_link
is_linked_forward tasks r = elim r.continued_to_task_id [
  | none ↦ true
  | some id ↦ elim (Dict.get tasks id) [
    | none ↦ false
    | some child ↦ (child.continued_from_task_id == some r.task_id) && is_link r child
  ]
]

unfoldable pub is_linked_backward : Dict String Task → Task → Bool
unfolding is_link
is_linked_backward tasks r = elim r.continued_from_task_id [
  | none ↦ true
  | some id ↦ elim (Dict.get tasks id) [
    | none ↦ false
    | some parent ↦ (parent.continued_to_task_id == some r.task_id) && is_link parent r
  ]
]

-- The inner loop of `_assert_acyclic`: it returns the chain that it adds to the visited ids.
unfoldable pub follow :
    ℕ → Dict String Task → Option String → List String → List String → Result (List String)
follow fuel tasks none visited chain = ok chain
follow zero tasks (some current) visited chain = raise out_of_fuel
follow (suc fuel) tasks (some current) visited chain = elim (member current visited) [
  | true ↦ ok chain
  | false ↦ elim (member current chain) [
    | true ↦ raise value_error
    | false ↦ elim (Dict.get tasks current) [
      | none ↦ raise key_error
      | some r ↦ follow fuel tasks r.continued_to_task_id visited (current ∷ chain)
    ]
  ]
]

unfoldable pub assert_acyclic_from :
    Dict String Task → List String → List String → Result (Unit {0})
unfolding follow
assert_acyclic_from tasks [] visited = ok tt
assert_acyclic_from tasks (task_id ∷ rest) visited = do
  chain ← follow (suc (length tasks)) tasks (some task_id) visited []
  assert_acyclic_from tasks rest (chain ++ visited)

unfoldable pub assert_acyclic : Dict String Task → Result (Unit {0})
unfolding assert_acyclic_from
assert_acyclic tasks = assert_acyclic_from tasks (Dict.keys tasks) []

unfoldable pub validate_continuation_graph : Dict String Task → Result (Unit {0})
unfolding is_linked_forward is_linked_backward assert_acyclic
validate_continuation_graph tasks = do
  raise_if
      (not (all (λ r. is_linked_forward tasks r && is_linked_backward tasks r) (Dict.values tasks)))
      value_error
  assert_acyclic tasks
