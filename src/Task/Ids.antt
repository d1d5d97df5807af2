-- ===== src/Task/Ids.antt =====
-- Task identifiers are UUIDs in any spelling: discord_task_ids.py.
use study_os_agent_gateway.Common.{
  String, Bool, true, false, none, some, List, [], ◌∷◌, if◌then◌else◌, is_some, ◌==◌, nat_eq,
  string_eq, bool_eq, option_eq, list_eq, member, Result, value_error, key_error, ok, raise, Stdlib,
}
use study_os_agent_gateway.Common.Dict
use study_os_agent_gateway.Common.Dict.{Dict}
use study_os_agent_gateway.Task.Record.{Task}

module _ (lib : Stdlib) where
  -- The loop over the keys. A key that is no UUID makes `UUID(key)` raise.
  unfoldable pub find_key : String → List String → Result String
  find_key canonical [] = raise key_error
  find_key canonical (key ∷ rest) =
      let later = find_key canonical rest in
      elim (lib.uuid_hex key) [
        | none ↦ raise value_error
        | some hex ↦ if hex == canonical then ok key else later
      ]

  unfoldable pub lookup_task_key : Dict String Task → String → Result String
  unfolding find_key
  lookup_task_key tasks task_id =
      if is_some (Dict.get tasks task_id) then ok task_id else elim (lib.uuid_hex task_id) [
        | none ↦ raise key_error
        | some canonical ↦ find_key canonical (Dict.keys tasks)
      ]

  -- Only `KeyError` is caught.
  unfoldable pub contains_task_id : Dict String Task → String → Result Bool
  unfolding lookup_task_key
  contains_task_id tasks task_id = elim (lookup_task_key tasks task_id) [
    | ok _ ↦ ok true
    | raise key_error ↦ ok false
    | raise e ↦ raise e
  ]

  unfoldable pub check_unique : List String → List String → Result (Unit {0})
  check_unique [] seen = ok tt
  check_unique (key ∷ rest) seen = elim (lib.uuid_hex key) [
    | none ↦ raise value_error
    | some canonical ↦
        let later = check_unique rest (canonical ∷ seen) in
        if member canonical seen then raise value_error else later
  ]

  unfoldable pub validate_unique_task_ids : Dict String Task → Result (Unit {0})
  unfolding check_unique
  validate_unique_task_ids tasks = check_unique (Dict.keys tasks) []
