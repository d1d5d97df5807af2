-- ===== src/Task/Retention/Subset.antt =====
-- What retention keeps was there: nothing is invented or changed by `apply_retention`.
use study_os_agent_gateway.Common.{
  ℕ, ◌+◌, String, ◌≡◌, inl, inr, some, List, [], ◌∷◌, arith, leb, if◌then◌else◌, Bool-cases,
  Option-cases, ◌==◌, nat_eq, string_eq, bool_eq, option_eq, list_eq, length, any, Returns,
  Returns-bind, Returns-then, ok, Datetime, Stdlib,
}
use text.Mathlib.TextEquality.{eq_iff}
use study_os_agent_gateway.Task.Failure.{category_eq, retry_mode_eq}
use study_os_agent_gateway.Task.State.{is_active, state_eq}
use study_os_agent_gateway.Task.Record.{Task, source_kind_eq, cause_eq, intent_eq}
use study_os_agent_gateway.Task.Retention.{
  as_utc, components, sort_newest_first, apply_retention, max_inactive_tasks, newest, Key, keep_all,
  place, sort_out, pack, update_all, select,
}
use study_os_agent_gateway.Common.Dict
use study_os_agent_gateway.Common.Dict.{Dict}

-- Every entry of `small` is one of `big`.
abbrev pub IsPart : Dict String Task → Dict String Task → Type 0
IsPart small big = (k : String) (r : Task) → Dict.get small k ≡ some r → Dict.get big k ≡ some r

-- Every record is stored under its own identifier.
abbrev pub IsKeyed : Dict String Task → Type 0
IsKeyed tasks = (k : String) (r : Task) → Dict.get tasks k ≡ some r → r.task_id ≡ k

abbrev pub AllFound : Dict String Task → List Task → Type 0
AllFound tasks [] = Unit
AllFound tasks (r ∷ rs) = (Dict.get tasks r.task_id ≡ some r) × AllFound tasks rs

pub IsPart-empty : (tasks : Dict String Task) → IsPart [] tasks
IsPart-empty tasks k r h = cc (h, Dict.get-empty {V = Task} k)

pub IsPart-set :
    (small tasks : Dict String Task) (k : String) (r : Task)
    → IsPart small tasks
    → Dict.get tasks k ≡ some r
    → IsPart (Dict.set small k r) tasks
IsPart-set small tasks k r part found j q h = elim (Bool-cases (k == j)) [
  | inl eq ↦ ground (arith, Dict.get-set small k j r, eq_iff k j)
  | inr ne ↦ ground (arith, Dict.get-set small k j r, part j q)
]

-- A part of `big`, each key once.
abbrev pub IsKept : Dict String Task → Dict String Task → Type 0
IsKept small big = IsPart small big × Dict.IsUnique small

IsKept-set :
    (small tasks : Dict String Task) (k : String) (r : Task)
    → IsKept small tasks
    → Dict.get tasks k ≡ some r
    → IsKept (Dict.set small k r) tasks
IsKept-set small tasks k r kept found =
    (IsPart-set small tasks k r kept.0 found, Dict.IsUnique-set small k r kept.1)

pub IsKept-update_all :
    (small tasks : Dict String Task) (rs : List Task)
    → IsKept small tasks
    → AllFound tasks rs
    → IsKept (update_all small rs) tasks
unfolding update_all
IsKept-update_all small tasks [] part found = part
IsKept-update_all small tasks (r ∷ rs) part found =
    IsKept-update_all (Dict.set small r.task_id r) tasks rs
      (IsKept-set small tasks r.task_id r part found.0) found.1

pub select-AllFound :
    (tasks : Dict String Task)
    → IsKeyed tasks
    → (ids : List String) → Returns (AllFound tasks) (select tasks ids)
unfolding select
select-AllFound tasks keyed [] = tt
select-AllFound tasks keyed (id ∷ ids) = elim (Option-cases (Dict.get tasks id)) [
  | inl absent ↦ ground arith
  | inr (r, found) ↦ ground (arith, keyed id r found, select-AllFound tasks keyed ids)
]

pub keep_all-IsKept :
    (lib : Stdlib) (tasks : Dict String Task) (ids : List String) (retained : Dict String Task)
    → IsKept retained tasks
    → Returns (λ kept. IsKept kept tasks) (keep_all lib tasks ids retained)
unfolding keep_all
keep_all-IsKept lib tasks [] retained part = part
keep_all-IsKept lib tasks (id ∷ ids) retained part = elim (Option-cases (Dict.get tasks id)) [
  | inl absent ↦ rw absent tt
  | inr (r, found) ↦ rw found (
      keep_all-IsKept lib tasks ids (Dict.set retained id r)
        (IsKept-set retained tasks id r part found))
]

module _ (lib : Stdlib) (tasks : Dict String Task) (keyed : IsKeyed tasks) where
  abbrev KeptOf : Dict String Task → Type 0
  KeptOf kept = IsKept kept tasks

  abbrev FirstKeptOf : Dict String Task × List (List String) → Type 0
  FirstKeptOf next = IsKept next.0 tasks

  place-IsKept :
      (cutoff : ℕ) (component : List String) (acc : Dict String Task × List (List String))
      → FirstKeptOf acc
      → Returns FirstKeptOf (place lib tasks cutoff component acc)
  unfolding place
  place-IsKept cutoff component (retained, inactive) part =
      Returns-bind (AllFound tasks) FirstKeptOf (select tasks component) _
        (select-AllFound tasks keyed component)
        (λ records _ found. elim (Bool-cases (any (λ r. is_active r.state) records)) [
          | inl eq ↦ rw eq (IsKept-update_all retained tasks records part found)
          | inr eq ↦ rw eq (Returns-then FirstKeptOf (newest lib records) _ (λ t _. part))
        ])

  sort_out-IsKept :
      (cutoff : ℕ) (parts : List (List String)) (acc : Dict String Task × List (List String))
      → FirstKeptOf acc
      → Returns FirstKeptOf (sort_out lib tasks cutoff parts acc)
  unfolding sort_out
  sort_out-IsKept cutoff [] acc part = part
  sort_out-IsKept cutoff (component ∷ rest) acc part =
      Returns-bind FirstKeptOf FirstKeptOf (place lib tasks cutoff component acc) _
        (place-IsKept cutoff component acc part)
        (λ next _ part'. sort_out-IsKept cutoff rest next part')

  pack-IsKept :
      (sorted : List (Key × List String)) (retained : Dict String Task) (n : ℕ)
      → IsKept retained tasks
      → Returns KeptOf (pack lib tasks sorted retained n)
  unfolding pack
  pack-IsKept [] retained n part = part
  pack-IsKept ((k, component) ∷ rest) retained n part =
      Returns-bind KeptOf KeptOf
        (if leb (n + length component) max_inactive_tasks
          then keep_all lib tasks component retained
          else ok retained)
        _
        (elim (Bool-cases (leb (n + length component) max_inactive_tasks)) [
          | inl eq ↦ rw eq (keep_all-IsKept lib tasks component retained part)
          | inr eq ↦ rw eq part
        ])
        (λ kept _ part'. pack-IsKept rest kept _ part')

-- Retention invents nothing: every record it keeps was there, unchanged, under the same identifier.
pub apply_retention-IsKept :
    (lib : Stdlib) (tasks : Dict String Task) (now : Datetime)
    → IsKeyed tasks
    → Returns (λ kept. IsKept kept tasks) (apply_retention lib tasks now)
unfolding apply_retention
apply_retention-IsKept lib tasks now keyed =
    let P : Dict String Task → Type 0 = λ kept. IsKept kept tasks in
    Returns-then P (as_utc now) _ (λ instant _. Returns-then P (components tasks) _ (λ parts _.
      Returns-bind (FirstKeptOf lib tasks keyed) P (sort_out lib tasks _ parts ([], [])) _
        (sort_out-IsKept lib tasks keyed _ parts ([], []) ((IsPart-empty tasks, tt)))
        (λ next _ part.
          Returns-then P (sort_newest_first lib tasks next.1) _
            (λ sorted _. pack-IsKept lib tasks keyed sorted next.0 0 part))))
