-- ===== src/Task/Graph/Ends.antt =====
-- The loops over the links of tasks end: their fuel is enough.
use study_os_agent_gateway.Common.{
  ℕ, zero, suc, ◌+◌, ◌≤◌, String, ◌≡◌, refl, ◌≢◌, inl, inr, true, Option, none, some, List, [], ◌∷◌,
  ◌++◌, arith, Bool-cases, Option-cases, string_eq, bool_eq, nat_eq, option_eq, list_eq, length,
  member, all_distinct, Ends, Ends-bind, Ends-raise_if, AllKeys, distinct_keys_fit, Ends-not,
  raise_if, value_error, out_of_fuel, raise,
}
use study_os_agent_gateway.Common.Dict.{Dict}
use study_os_agent_gateway.Task.Failure.{category_eq, retry_mode_eq}
use study_os_agent_gateway.Task.State.{state_eq}
use study_os_agent_gateway.Task.Record.{cause_eq, intent_eq, source_kind_eq, Task}
use study_os_agent_gateway.Task.Graph.{
  follow, assert_acyclic_from, validate_continuation_graph, assert_acyclic,
}
use study_os_agent_gateway.Common.Dict

module _ (tasks : Dict String Task) where
  -- The chain so far: distinct keys, and with what fuel is left more than there are keys.
  follow-Ends :
      (fuel : ℕ) (current : Option String) (visited chain : List String)
      → all_distinct chain ≡ true
      → AllKeys tasks chain
      → suc (length tasks) ≤ fuel + length chain
      → Ends (follow fuel tasks current visited chain)
  unfolding follow
  follow-Ends fuel none visited chain u known enough = tt
  follow-Ends zero (some id) visited chain u known enough =
      absurd (omega (arith, distinct_keys_fit tasks chain u known))
  follow-Ends (suc fuel) (some id) visited chain u known enough =
      elim (Bool-cases (member id visited)) [
        | inl before ↦ rw (before, Ends) tt
        | inr new ↦
            rw (new, Ends)
              (elim (Bool-cases (member id chain)) [
                | inl cycle ↦ rw (cycle, Ends) (λ h. cc)
                | inr apart ↦
                    rw (apart, Ends)
                      (elim (Option-cases (Dict.get tasks id)) [
                        | inl nothing ↦ rw (nothing, Ends) (λ h. cc)
                        | inr (r, found) ↦
                            rw (found, Ends)
                              (follow-Ends fuel r.continued_to_task_id visited (id ∷ chain)
                                (rw apart u) (rw found refl, known) (omega (arith, enough)))
                      ])
              ])
      ]

  assert_acyclic_from-Ends :
      (ids visited : List String) → Ends (assert_acyclic_from tasks ids visited)
  unfolding assert_acyclic_from
  assert_acyclic_from-Ends [] visited = tt
  assert_acyclic_from-Ends (id ∷ ids) visited =
      Ends-bind (follow (suc (length tasks)) tasks (some id) visited []) _
        (follow-Ends (suc (length tasks)) (some id) visited [] refl tt (omega arith))
        (λ chain _. assert_acyclic_from-Ends ids (chain ++ visited))

  -- The check of the continuation links ends on every set of tasks, cyclic ones too: it never runs out of fuel.
  pub validate_continuation_graph-Ends : validate_continuation_graph tasks ≢ raise out_of_fuel
  unfolding validate_continuation_graph assert_acyclic
  validate_continuation_graph-Ends h =
      Ends-not (validate_continuation_graph tasks)
        (Ends-bind (raise_if _ value_error) (λ _. assert_acyclic tasks)
          (Ends-raise_if _ value_error (λ eq. cc))
          (λ _ _. assert_acyclic_from-Ends (Dict.keys tasks) []))
        h
