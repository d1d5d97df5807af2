-- ===== src/Task/Document/RoundTrip.antt =====
-- What the task store writes is what it loads: an encoded document, with its keys sorted, decodes to the
-- same tasks.
use study_os_agent_gateway.Common.{
  ℕ, String, ◌≡◌, refl, sym, ap, ◌∙◌, true, Option, none, some, [], ◌∷◌, and_split, string_eq,
  bool_eq, nat_eq, ◌==◌, option_eq, beq_self, list_eq, optional, ok, Stdlib,
}
use study_os_agent_gateway.Common.Json.{
  Json, integer, text, sort_keys, maybe, read_integer, read_text, some_of, read_optional, enum_from,
  read_enum, encode_values,
}
use study_os_agent_gateway.Task.Invariant.{IsSound}
use study_os_agent_gateway.Common.Json.Sorted.{
  sort_entries, get-sort_entries, IsUnique-sort_entries, sort_fields-encode_values,
  entries-from_entries,
}
use study_os_agent_gateway.Common.Dict.{Dict}
use study_os_agent_gateway.Task.Failure.{
  checked_failure, is_well_formed_failure, retry_mode_eq, Category, Failure, RetryMode,
  continue_session, configuration, category_eq,
}
use study_os_agent_gateway.Task.State.{State, starting, state_eq}
use study_os_agent_gateway.Task.Document.{
  encode_document, decode_document, decode_tasks, read_timestamp, decode_fields, all_states,
  all_causes, decode_record, source_kind_value, all_intents, state_value, all_source_kinds,
  intent_value, category_value, encode_record, retry_mode_value, cause_value, all_categories,
  all_retry_modes, encode_failure, decode_failure,
}
use study_os_agent_gateway.Task.Record.{
  has_valid_fields, is_aware_timestamp, checked, mention, source_kind_eq, SourceKind, cause_eq,
  intent_eq, InterruptionCause, general, is_well_formed, Task, user_stop, Intent,
}
use study_os_agent_gateway.Common.Dict

state_from : (s : State) → enum_from state_value all_states (state_value s) ≡ ok s
state_from starting = refl
state_from s = refl

source_kind_from :
    (k : SourceKind) → enum_from source_kind_value all_source_kinds (source_kind_value k) ≡ ok k
source_kind_from mention = refl
source_kind_from k = refl

intent_from_value : (i : Intent) → enum_from intent_value all_intents (intent_value i) ≡ ok i
intent_from_value general = refl
intent_from_value i = refl

cause_from : (c : InterruptionCause) → enum_from cause_value all_causes (cause_value c) ≡ ok c
cause_from user_stop = refl
cause_from c = refl

category_from : (c : Category) → enum_from category_value all_categories (category_value c) ≡ ok c
category_from configuration = refl
category_from c = refl

retry_mode_from :
    (m : RetryMode) → enum_from retry_mode_value all_retry_modes (retry_mode_value m) ≡ ok m
retry_mode_from continue_session = refl
retry_mode_from m = refl

-- An optional value, sorted and read.
integer_back : (o : Option ℕ) → read_optional read_integer (sort_keys (maybe integer o)) ≡ ok o
unfolding sort_keys
integer_back none = refl
integer_back (some n) = refl

text_back : (o : Option String) → read_optional read_text (sort_keys (maybe text o)) ≡ ok o
unfolding sort_keys
text_back none = refl
text_back (some s) = refl

cause_back :
    (o : Option InterruptionCause)
    → read_optional
        (read_enum cause_value all_causes)
        (sort_keys (maybe (λ c. text (cause_value c)) o))
      ≡ ok o
unfolding sort_keys
cause_back none = refl
cause_back (some c) = ap some_of (cause_from c)

failure_back :
    (o : Option Failure)
    → optional is_well_formed_failure o ≡ true
    → read_optional decode_failure (sort_keys (maybe encode_failure o)) ≡ ok o
unfolding sort_keys decode_failure Dict.get checked_failure
failure_back none h = refl
failure_back (some f) h = rw (category_from f.category, retry_mode_from f.retry_mode, h) refl

module _ (lib : Stdlib) where
  stamp_back : (v : String) → is_aware_timestamp lib v ≡ true → read_timestamp lib (text v) ≡ ok v
  unfolding read_timestamp
  stamp_back v h = rw h refl

  stamps_are_aware :
      (r : Task)
      → is_well_formed lib r ≡ true
      → (is_aware_timestamp lib r.created_at ≡ true) × (is_aware_timestamp lib r.updated_at ≡ true)
  unfolding is_well_formed has_valid_fields
  stamps_are_aware r good =
      let (rest, fits) = and_split _ _ good in
      let (ids, valid) = and_split _ _ rest in
      let (rest, changed) = and_split _ _ valid in
      let (rest, made) = and_split _ _ rest in (made, changed)

  decode_record-sorted :
      (r : Task)
      → is_well_formed lib r ≡ true
      → optional is_well_formed_failure r.failure ≡ true
      → decode_record lib 2 (sort_keys (encode_record r)) ≡ ok r
  unfolding decode_record sort_keys encode_record decode_fields checked Dict.get
  decode_record-sorted r good fine =
      let (made, changed) = stamps_are_aware r good in
      rw
        (
          failure_back r.failure fine,
          integer_back r.source_message_id,
          integer_back r.card_message_id,
          integer_back r.result_message_id,
          source_kind_from r.source_kind,
          stamp_back r.created_at made,
          stamp_back r.updated_at changed,
          state_from r.state,
          cause_back r.interruption_cause,
          text_back r.continued_from_task_id,
          text_back r.continued_to_task_id,
          intent_from_value r.intent,
          text_back r.source_reference_id,
          text_back r.repository_commit_sha,
          good,
        )
        refl

  -- The loop of `decode_document`, on records that it accepts.
  abbrev IsAccepted : Dict String Task → Type 0
  IsAccepted d =
      Dict.AllEntries
        (λ k r.
          (r.task_id ≡ k)
          × (is_well_formed lib r ≡ true)
          × (optional is_well_formed_failure r.failure ≡ true))
        d

  decode_tasks-set_all :
      (d result : Dict String Task)
      → IsAccepted d
      → decode_tasks lib 2 (encode_values (λ r. sort_keys (encode_record r)) d) result
        ≡ ok (Dict.set_all d result)
  unfolding decode_tasks
  decode_tasks-set_all [] result h = refl
  decode_tasks-set_all ((k, r) ∷ d) result ((own, good, fine), h) =
      let same : (r.task_id == k) ≡ true = ap (λ i. i == k) own ∙ beq_self k in
      rw (decode_record-sorted r good fine, same) (decode_tasks-set_all d (Dict.set result k r) h)

  IsAccepted-get :
      (d : Dict String Task)
      → ((k : String) (r : Task)
          → Dict.get d k ≡ some r
          → (r.task_id ≡ k)
            × (is_well_formed lib r ≡ true)
            × (optional is_well_formed_failure r.failure ≡ true))
      → Dict.IsUnique d
      → IsAccepted d
  IsAccepted-get d h u =
      Dict.AllEntries-get
        (λ k r.
          (r.task_id ≡ k)
          × (is_well_formed lib r ≡ true)
          × (optional is_well_formed_failure r.failure ≡ true))
        d u h

  decode_document-sorted :
      (tasks : Dict String Task)
      → IsAccepted (sort_entries tasks)
      → decode_document lib (some (sort_keys (encode_document tasks)))
        ≡ ok (Dict.set_all (sort_entries tasks) [])
  unfolding decode_document encode_document sort_keys Dict.get
  decode_document-sorted tasks h =
      rw
        (
          sort_fields-encode_values encode_record tasks,
          entries-from_entries
              (encode_values (λ r. sort_keys (encode_record r)) (sort_entries tasks)),
        )
        (decode_tasks-set_all (sort_entries tasks) [] h)

-- A sound set of tasks, each failure as its constructor wants it, is encoded, written with sorted keys, read
-- and decoded without an error, to a dictionary that has the same task under each identifier. Of `json` it is
-- used that it reads the document that it wrote, with its keys sorted.
pub document_round_trip :
    (lib : Stdlib) (dumps : Json → String) (loads : String → Option Json) (tasks : Dict String Task)
    → loads (dumps (encode_document tasks)) ≡ some (sort_keys (encode_document tasks))
    → IsSound lib tasks
    → ((k : String) (r : Task)
        → Dict.get tasks k ≡ some r
        → optional is_well_formed_failure r.failure ≡ true)
    → (loaded : Dict String Task) × (decode_document lib (loads (dumps (encode_document tasks)))
        ≡ ok loaded)
      × ((k : String) → Dict.get loaded k ≡ Dict.get tasks k)
unfolding Dict.get
document_round_trip lib dumps loads tasks faithful sound fine =
    let sorted = sort_entries tasks in
    let unique = IsUnique-sort_entries tasks sound.unique in
    let accepted : IsAccepted lib sorted =
      IsAccepted-get lib sorted
        (λ k r found.
          let stored = sym (get-sort_entries tasks k sound.unique) ∙ found in
          (sound.keyed k r stored, sound.formed k r stored, fine k r stored))
        unique in
    (
      Dict.set_all sorted [],
      ap (decode_document lib) faithful ∙ decode_document-sorted lib tasks accepted,
      λ k. Dict.get-set_all_nothing sorted k unique ∙ get-sort_entries tasks k sound.unique,
    )
