-- ===== src/Task/Retention.antt =====
-- What the store keeps: discord_task_store_policy.py, `apply_retention` and its helpers. A Python
-- set is a list here, and `remaining.pop()` takes the first of the tasks that remain: Python
-- leaves that choice open. Instants are microseconds.
pub mod Subset
pub mod Ends
pub mod Total
use study_os_agent_gateway.Common.{
  ℕ, zero, suc, ◌+◌, ◌-◌, ◌*◌, String, Bool, true, false, ◌&&◌, ◌||◌, Option, none, some, List, [],
  ◌∷◌, ◌++◌, ltb, leb, if◌then◌else◌, ◌==◌, nat_eq, string_eq, bool_eq, option_eq, list_eq, length,
  any, member, Result, ◌>>=◌, or_raise, value_error, key_error, out_of_fuel, ok, raise, Datetime,
  Stdlib, naive, aware,
}
use study_os_agent_gateway.Common.Dict
use study_os_agent_gateway.Common.Dict.{Dict}
use Prim.Native.Nat.{Ordering}
use Prim.Native.String.{compare}
use study_os_agent_gateway.Task.State.{is_active}
use study_os_agent_gateway.Task.Record.{Task}

abbrev pub retention_days : ℕ
retention_days = 30

abbrev pub max_inactive_tasks : ℕ
max_inactive_tasks = 500

abbrev pub microseconds_per_day : ℕ
microseconds_per_day = 86400000000

-- `_as_utc`
unfoldable pub as_utc : Datetime → Result ℕ
as_utc (naive t) = raise value_error
as_utc (aware t) = ok t

-- `retained.update({record.task_id: record for record in records})`
unfoldable pub update_all : Dict String Task → List Task → Dict String Task
update_all retained [] = retained
update_all retained (r ∷ rest) = update_all (Dict.set retained r.task_id r) rest

-- `[tasks[task_id] for task_id in component]`
unfoldable pub select : Dict String Task → List String → Result (List Task)
select tasks [] = ok []
select tasks (id ∷ ids) = do
  r ← or_raise (Dict.get tasks id) key_error
  rest ← select tasks ids
  ok (r ∷ rest)

abbrev pub discard : String → List String → List String
discard id [] = []
discard id (x ∷ xs) = let rest = discard id xs in if x == id then rest else x ∷ rest

-- The inner loop of `_components` on one linked id: `(component, remaining, pending)`.
unfoldable pub visit :
    Option String
    → List String × List String × List String
    → List String × List String × List String
visit none (component, remaining, pending) = (component, remaining, pending)
visit (some linked) (component, remaining, pending) =
    if member linked component
    then (component, remaining, pending)
    else (linked ∷ component, discard linked remaining, linked ∷ pending)

-- `while pending`: the component and what remains.
unfoldable pub explore :
    ℕ
    → Dict String Task
    → List String × List String × List String
    → Result (List String × List String)
unfolding visit
explore fuel tasks (component, remaining, []) = ok (component, remaining)
explore zero tasks (component, remaining, id ∷ pending) = raise out_of_fuel
explore (suc fuel) tasks (component, remaining, id ∷ pending) = elim (Dict.get tasks id) [
  | none ↦ raise key_error
  | some r ↦ explore fuel tasks (
      visit r.continued_to_task_id (visit r.continued_from_task_id (component, remaining, pending)))
]

-- `while remaining`.
unfoldable pub components_from : ℕ → Dict String Task → List String → Result (List (List String))
unfolding explore
components_from fuel tasks [] = ok []
components_from zero tasks (id ∷ remaining) = raise out_of_fuel
components_from (suc fuel) tasks (id ∷ remaining) = do
  (component, left) ← explore (suc (length tasks)) tasks (id ∷ [], remaining, id ∷ [])
  rest ← components_from fuel tasks left
  ok (component ∷ rest)

unfoldable pub components : Dict String Task → Result (List (List String))
unfolding components_from
components tasks = components_from (length tasks) tasks (Dict.keys tasks)

abbrev str_leb : String → String → Bool
str_leb a b = elim (compare a b) [ Ordering.gt ↦ false | _ ↦ true ]

abbrev pub Key : Type 0
Key = ℕ × String

unfoldable pub key_leb : Key → Key → Bool
key_leb (t, a) (u, b) = ltb t u || ((t == u) && str_leb a b)

abbrev key_max : Key → Key → Key
key_max a b = if key_leb a b then b else a

module _ (lib : Stdlib) where
  -- `_updated_at`
  unfoldable pub updated_at : Task → Result ℕ
  unfolding as_utc
  updated_at r = do value ← or_raise (lib.fromisoformat r.updated_at) value_error; as_utc value

  -- `max(_updated_at(record) for record in records)`, of records that are there.
  unfoldable pub newest : List Task → Result ℕ
  unfolding updated_at
  newest [] = ok 0
  newest (r ∷ rest) = do t ← updated_at r; u ← newest rest; ok (if ltb t u then u else t)

  unfoldable pub component_key : Dict String Task → List String → Result Key
  unfolding updated_at key_leb
  component_key tasks [] = ok (0, "")
  component_key tasks (id ∷ ids) = do
    r ← or_raise (Dict.get tasks id) key_error
    t ← updated_at r
    rest ← component_key tasks ids
    ok (key_max (t, id) rest)

  -- One round of the first loop: an active component is retained whole, an inactive one waits if
  -- one of its records is recent.
  unfoldable pub place :
      Dict String Task
      → ℕ
      → List String
      → Dict String Task × List (List String)
      → Result (Dict String Task × List (List String))
  unfolding select is_active newest update_all
  place tasks cutoff component (retained, inactive) = do
    records ← select tasks component
    if any (λ r. is_active r.state) records
        then ok (update_all retained records, inactive)
        else newest records >>= λ t.
            ok (retained, if leb cutoff t then inactive ++ component ∷ [] else inactive)

  unfoldable pub sort_out :
      Dict String Task
      → ℕ
      → List (List String)
      → Dict String Task × List (List String)
      → Result (Dict String Task × List (List String))
  unfolding place
  sort_out tasks cutoff [] acc = ok acc
  sort_out tasks cutoff (component ∷ rest) acc = do
    next ← place tasks cutoff component acc
    sort_out tasks cutoff rest next

  -- `inactive.sort(key=..., reverse=True)`: the library's sort, as an insertion sort.
  unfoldable pub insert_by_key :
      Key → List String → List (Key × List String) → List (Key × List String)
  unfolding key_leb
  insert_by_key k component [] = (k, component) ∷ []
  insert_by_key k component ((j, other) ∷ rest) =
      let later = insert_by_key k component rest in
      if key_leb j k then (k, component) ∷ (j, other) ∷ rest else (j, other) ∷ later

  unfoldable pub sort_newest_first :
      Dict String Task → List (List String) → Result (List (Key × List String))
  unfolding component_key insert_by_key
  sort_newest_first tasks [] = ok []
  sort_newest_first tasks (component ∷ rest) = do
    k ← component_key tasks component
    sorted ← sort_newest_first tasks rest
    ok (insert_by_key k component sorted)

  -- `retained.update({task_id: tasks[task_id] for task_id in component})`
  unfoldable pub keep_all :
      Dict String Task → List String → Dict String Task → Result (Dict String Task)
  keep_all tasks [] retained = ok retained
  keep_all tasks (id ∷ ids) retained = do
    r ← or_raise (Dict.get tasks id) key_error
    keep_all tasks ids (Dict.set retained id r)

  -- The second loop: components are kept while at most 500 inactive tasks are.
  unfoldable pub pack :
      Dict String Task → List (Key × List String) → Dict String Task → ℕ → Result (Dict String Task)
  unfolding keep_all
  pack tasks [] retained inactive_count = ok retained
  pack tasks ((_, component) ∷ rest) retained inactive_count = do
    let fits = leb (inactive_count + length component) max_inactive_tasks
    kept ← if fits then keep_all tasks component retained else ok retained
    pack tasks rest kept (if fits then inactive_count + length component else inactive_count)

  unfoldable pub apply_retention : Dict String Task → Datetime → Result (Dict String Task)
  unfolding as_utc components sort_out sort_newest_first pack
  apply_retention tasks now = do
    instant ← as_utc now
    parts ← components tasks
    (retained, inactive) ←
        sort_out tasks (instant - retention_days * microseconds_per_day) parts ([], [])
    sorted ← sort_newest_first tasks inactive
    pack tasks sorted retained 0
