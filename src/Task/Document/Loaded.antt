-- ===== src/Task/Document/Loaded.antt =====
-- Whatever the file holds, what `decode_document` returns passed the constructors and stands under its
-- identifiers.
use study_os_agent_gateway.Common.{
  ℕ, String, ◌≡◌, true, false, not, Option, [], ◌∷◌, not-false, string_eq, bool_eq, nat_eq, ◌==◌,
  option_eq, beq-eq, list_eq, member, Result, raise_if, or_raise, Returns, Returns-raise_if, ◌>>=◌,
  ◌>>◌, Returns-bind, Returns-then, Returns-map, value_error, Stdlib,
}
use study_os_agent_gateway.Common.Json.{Json, read_object, at_key, has_keys, integer_at}
use study_os_agent_gateway.Common.Dict.{Dict}
use study_os_agent_gateway.Task.Retention.Subset.{IsKeyed}
use study_os_agent_gateway.Task.Store.Operations.{checked-Returns}
use study_os_agent_gateway.Task.Failure.{retry_mode_eq, category_eq}
use study_os_agent_gateway.Task.State.{state_eq}
use study_os_agent_gateway.Task.Document.{
  decode_document, decode_fields, decode_record, decode_tasks,
}
use study_os_agent_gateway.Task.Invariant.{IsSound-empty, IsFormed, IsFormed-set, IsKeyed-set}
use study_os_agent_gateway.Task.Record.{
  cause_eq, intent_eq, source_kind_eq, checked, Task, is_well_formed,
}
use study_os_agent_gateway.Common.Dict

abbrev IsLoaded : Stdlib → Dict String Task → Type 0
IsLoaded lib d = Dict.IsUnique d × IsKeyed d × IsFormed lib d

module _ (lib : Stdlib) where
  decode_record-Returns :
      (version : ℕ) (j : Json)
      → Returns (λ r. is_well_formed lib r ≡ true) (decode_record lib version j)
  unfolding decode_record
  decode_record-Returns version j =
      let P : Task → Type 0 = λ r. is_well_formed lib r ≡ true in
      Returns-then P (read_object j) _ (λ fields _.
        Returns-then P (raise_if _ value_error) _ (λ _ _.
          Returns-then P (decode_fields lib version fields) (checked lib) (λ r _.
            Returns-map (λ q. (q ≡ r) × (is_well_formed lib r ≡ true)) P (checked lib r)
              (λ q (is, good). rw is good) (checked-Returns lib r))))

  decode_tasks-Returns :
      (version : ℕ) (payload : Dict String Json) (result : Dict String Task)
      → IsLoaded lib result
      → Returns (IsLoaded lib) (decode_tasks lib version payload result)
  unfolding decode_tasks
  decode_tasks-Returns version [] result h = h
  decode_tasks-Returns version ((k, j) ∷ rest) result (u, keyed, formed) =
      Returns-bind (λ r. is_well_formed lib r ≡ true) (IsLoaded lib) (decode_record lib version j)
        (λ r.
          raise_if (not (r.task_id == k)) value_error
          >> decode_tasks lib version rest (Dict.set result k r))
        (decode_record-Returns version j)
        (λ r _ good.
          Returns-bind (λ _. not (r.task_id == k) ≡ false) (IsLoaded lib)
            (raise_if (not (r.task_id == k)) value_error)
            (λ _. decode_tasks lib version rest (Dict.set result k r))
            (Returns-raise_if (not (r.task_id == k)) value_error)
            (λ _ _ own. decode_tasks-Returns version rest (Dict.set result k r) (
              Dict.IsUnique-set result k r u,
              IsKeyed-set result k r keyed (beq-eq r.task_id k (not-false (r.task_id == k) own)),
              IsFormed-set result k r lib formed good,
            )))

  -- Whatever the file holds, version 1 or 2, each task that `decode_document` returns stands once, under its own
  -- identifier, and passes the checks of its constructor.
  pub decode_document-Loaded :
      (payload : Option Json)
      → Returns (λ d. Dict.IsUnique d × IsKeyed d × IsFormed lib d) (decode_document lib payload)
  unfolding decode_document
  decode_document-Loaded payload =
      let P : Dict String Task → Type 0 = IsLoaded lib in
      Returns-then P (or_raise payload value_error >>= read_object) _ (λ document _.
        let loop : ℕ → Result (Dict String Task) = λ version.
          (at_key document "tasks" >>= read_object) >>= λ tasks.
          decode_tasks lib version tasks [] in
        let known : ℕ → Result (Dict String Task) =
          λ version. raise_if (not (member version (1 ∷ 2 ∷ []))) value_error >> loop version in
        Returns-then P (raise_if (not (has_keys ("version" ∷ "tasks" ∷ []) document)) value_error)
          (λ _. integer_at document "version" >>= known)
          (λ _ _. Returns-then P (integer_at document "version") known (λ version _.
            Returns-then P (raise_if (not (member version (1 ∷ 2 ∷ []))) value_error)
              (λ _. loop version)
              (λ _ _.
                Returns-then P (at_key document "tasks" >>= read_object)
                  (λ tasks. decode_tasks lib version tasks [])
                  (λ tasks _.
                    decode_tasks-Returns version tasks []
                      (tt, (IsSound-empty lib).keyed, (IsSound-empty lib).formed))))))
