-- ===== src/Task/Retention/Total.antt =====
-- Retention never runs out of fuel: its loops over links end, and the rest recurses on lists.
use study_os_agent_gateway.Common.{
  ℕ, suc, ◌+◌, ◌-◌, ◌*◌, String, ◌≡◌, refl, ap, ◌≢◌, inl, inr, Bool, true, false, List, [], ◌∷◌,
  arith, ltb, leb, if◌then◌else◌, Bool-cases, length, any, Ends, Ends-bind, Ends-or_raise, Ends-not,
  or_raise, value_error, key_error, out_of_fuel, ok, raise, Datetime, Stdlib, naive, aware,
  string_eq, nat_eq,
}
use study_os_agent_gateway.Common.Dict.{Dict}
use study_os_agent_gateway.Task.Retention.Ends.{components_from-Ends}
use study_os_agent_gateway.Task.Failure.{retry_mode_eq, category_eq}
use study_os_agent_gateway.Task.State.{is_active, state_eq}
use study_os_agent_gateway.Task.Record.{source_kind_eq, intent_eq, cause_eq, Task}
use study_os_agent_gateway.Task.Retention.{
  sort_out, pack, select, sort_newest_first, apply_retention, updated_at, Key, component_key,
  components, keep_all, retention_days, newest, microseconds_per_day, place, max_inactive_tasks,
  as_utc,
}
use study_os_agent_gateway.Common.Dict

module _ (tasks : Dict String Task) where
  length-keys : (d : Dict String Task) → length (Dict.keys d) ≡ length d
  length-keys [] = refl
  length-keys ((k, r) ∷ d) = ap suc (length-keys d)

  components-Ends : Ends (components tasks)
  unfolding components
  components-Ends =
      components_from-Ends tasks (length tasks) (Dict.keys tasks) (omega (arith, length-keys tasks))

  found-Ends : (id : String) → Ends (or_raise (Dict.get tasks id) key_error)
  found-Ends id = Ends-or_raise (Dict.get tasks id) key_error (λ eq. cc)

  select-Ends : (ids : List String) → Ends (select tasks ids)
  unfolding select
  select-Ends [] = tt
  select-Ends (id ∷ ids) =
      Ends-bind (or_raise (Dict.get tasks id) key_error) _ (found-Ends id) (λ r _.
        Ends-bind (select tasks ids) (λ rest. ok (r ∷ rest)) (select-Ends ids) (λ rest _. tt))

  module _ (lib : Stdlib) where
    as_utc-Ends : (t : Datetime) → Ends (as_utc t)
    unfolding as_utc
    as_utc-Ends (naive t) = λ eq. cc
    as_utc-Ends (aware t) = tt

    updated_at-Ends : (r : Task) → Ends (updated_at lib r)
    unfolding updated_at
    updated_at-Ends r =
        Ends-bind (or_raise (lib.fromisoformat r.updated_at) value_error) as_utc
          (Ends-or_raise (lib.fromisoformat r.updated_at) value_error (λ eq. cc))
          (λ t _. as_utc-Ends t)

    newest-Ends : (rs : List Task) → Ends (newest lib rs)
    unfolding newest
    newest-Ends [] = tt
    newest-Ends (r ∷ rs) = Ends-bind (updated_at lib r) _ (updated_at-Ends r) (λ t _.
        Ends-bind (newest lib rs) (λ u. ok (if ltb t u then u else t)) (newest-Ends rs) (λ u _. tt))

    component_key-Ends : (ids : List String) → Ends (component_key lib tasks ids)
    unfolding component_key
    component_key-Ends [] = tt
    component_key-Ends (id ∷ ids) =
        Ends-bind (or_raise (Dict.get tasks id) key_error) _ (found-Ends id) (λ r _.
          Ends-bind (updated_at lib r) _ (updated_at-Ends r) (λ t _.
            Ends-bind (component_key lib tasks ids) _ (component_key-Ends ids) (λ rest _. tt)))

    place-Ends :
        (cutoff : ℕ) (component : List String) (acc : Dict String Task × List (List String))
        → Ends (place lib tasks cutoff component acc)
    unfolding place
    place-Ends cutoff component (retained, inactive) =
        Ends-bind (select tasks component) _ (select-Ends component) (λ records _.
          elim (Bool-cases (any (λ r. is_active r.state) records)) [
            | inl active ↦ rw (active, Ends) tt
            | inr rest_idle ↦
                rw (rest_idle, Ends)
                  (Ends-bind (newest lib records) _ (newest-Ends records) (λ t _. tt))
          ])

    sort_out-Ends :
        (cutoff : ℕ) (parts : List (List String)) (acc : Dict String Task × List (List String))
        → Ends (sort_out lib tasks cutoff parts acc)
    unfolding sort_out
    sort_out-Ends cutoff [] acc = tt
    sort_out-Ends cutoff (component ∷ rest) acc =
        Ends-bind (place lib tasks cutoff component acc) (sort_out lib tasks cutoff rest)
          (place-Ends cutoff component acc) (λ later _. sort_out-Ends cutoff rest later)

    sort_newest_first-Ends : (parts : List (List String)) → Ends (sort_newest_first lib tasks parts)
    unfolding sort_newest_first
    sort_newest_first-Ends [] = tt
    sort_newest_first-Ends (component ∷ rest) =
        Ends-bind (component_key lib tasks component) _ (component_key-Ends component) (λ k _.
          Ends-bind (sort_newest_first lib tasks rest) _ (sort_newest_first-Ends rest)
            (λ sorted _. tt))

    keep_all-Ends :
        (ids : List String) (retained : Dict String Task) → Ends (keep_all lib tasks ids retained)
    unfolding keep_all
    keep_all-Ends [] retained = tt
    keep_all-Ends (id ∷ ids) retained =
        Ends-bind (or_raise (Dict.get tasks id) key_error) _ (found-Ends id)
          (λ r _. keep_all-Ends ids (Dict.set retained id r))

    kept-Ends :
        (fits : Bool) (ids : List String) (retained : Dict String Task)
        → Ends (if fits then keep_all lib tasks ids retained else ok retained)
    kept-Ends true ids retained = keep_all-Ends ids retained
    kept-Ends false ids retained = tt

    pack-Ends :
        (parts : List (Key × List String)) (retained : Dict String Task) (n : ℕ)
        → Ends (pack lib tasks parts retained n)
    unfolding pack
    pack-Ends [] retained n = tt
    pack-Ends ((k, component) ∷ rest) retained n =
        let fits = leb (n + length component) max_inactive_tasks in
        Ends-bind (if fits then keep_all lib tasks component retained else ok retained)
          (λ kept. pack lib tasks rest kept (if fits then n + length component else n))
          (kept-Ends fits component retained)
          (λ kept _. pack-Ends rest kept (if fits then n + length component else n))

    -- `apply_retention` ends on every set of tasks, whatever their links: its loops never run out of fuel.
    pub apply_retention-Ends : (now : Datetime) → apply_retention lib tasks now ≢ raise out_of_fuel
    unfolding apply_retention
    apply_retention-Ends now = Ends-not (apply_retention lib tasks now) (
        Ends-bind (as_utc now) _ (as_utc-Ends now) (λ instant _.
          Ends-bind (components tasks) _ components-Ends (λ parts _.
            let cutoff = instant - retention_days * microseconds_per_day in
            Ends-bind (sort_out lib tasks cutoff parts ([], [])) _
              (sort_out-Ends cutoff parts ([], []))
              (λ (retained, inactive) _.
                Ends-bind (sort_newest_first lib tasks inactive) _ (sort_newest_first-Ends inactive)
                  (λ sorted _. pack-Ends sorted retained 0)))))
