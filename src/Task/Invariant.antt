-- ===== src/Task/Invariant.antt =====
-- What holds of every collection of tasks that the store builds: its keys are the identifiers, its
-- records passed the checks of the constructor, and no channel runs two tasks at once.
use study_os_agent_gateway.Common.{
  String, ◌≡◌, sym, ap, ◌∙◌, ◌≢◌, inl, inr, true, false, some, [], Stdlib, string_eq, nat_eq,
}
use study_os_agent_gateway.Task.Retention.Subset.{IsPart, IsKeyed}
use study_os_agent_gateway.Task.Failure.{retry_mode_eq, category_eq}
use study_os_agent_gateway.Task.State.{state_eq, is_active}
use study_os_agent_gateway.Task.Record.{intent_eq, cause_eq, is_well_formed, Task, source_kind_eq}
use study_os_agent_gateway.Common.Dict
use study_os_agent_gateway.Common.Dict.{Dict}

-- Two active tasks of one execution channel are the same task.
abbrev pub IsExclusive : Dict String Task → Type 0
IsExclusive tasks =
    (j k : String) (r q : Task)
    → Dict.get tasks j ≡ some r
    → Dict.get tasks k ≡ some q
    → is_active r.state ≡ true
    → is_active q.state ≡ true
    → r.execution_channel_id ≡ q.execution_channel_id
    → j ≡ k

-- Every record passes the constructor's checks.
abbrev pub IsFormed : Stdlib → Dict String Task → Type 0
IsFormed lib tasks =
    (k : String) (r : Task) → Dict.get tasks k ≡ some r → is_well_formed lib r ≡ true

pub record IsSound (lib : Stdlib) (tasks : Dict String Task) : Type 0 where
  pub unique : Dict.IsUnique tasks
  pub keyed : IsKeyed tasks
  pub formed : IsFormed lib tasks
  pub exclusive : IsExclusive tasks

-- No other active task occupies the channel of `r`, which is to stand under `k`.
abbrev pub HasRoom : Dict String Task → String → Task → Type 0
HasRoom tasks k r =
    (j : String) (q : Task)
    → Dict.get tasks j ≡ some q
    → j ≢ k
    → is_active r.state ≡ true
    → is_active q.state ≡ true
    → q.execution_channel_id ≢ r.execution_channel_id

module _ (tasks : Dict String Task) (k : String) (r : Task) where
  pub IsKeyed-set : IsKeyed tasks → r.task_id ≡ k → IsKeyed (Dict.set tasks k r)
  IsKeyed-set keyed own j q h = elim (Dict.get-set-cases tasks k r j q h) [
    | inl (eq, new) ↦ cc
    | inr (ne, old) ↦ keyed j q old
  ]

  pub IsFormed-set :
      (lib : Stdlib)
      → IsFormed lib tasks
      → is_well_formed lib r ≡ true
      → IsFormed lib (Dict.set tasks k r)
  IsFormed-set lib formed good j q h = elim (Dict.get-set-cases tasks k r j q h) [
    | inl (eq, new) ↦ rw new good
    | inr (ne, old) ↦ formed j q old
  ]

  pub IsExclusive-set : IsExclusive tasks → HasRoom tasks k r → IsExclusive (Dict.set tasks k r)
  IsExclusive-set exclusive room i j p q hp hq ap aq same =
      elim (Dict.get-set-cases tasks k r i p hp) [
        | inl (ei, np) ↦ elim (Dict.get-set-cases tasks k r j q hq) [
          | inl (ej, nq) ↦ sym ei ∙ ej
          | inr (nj, oq) ↦ absurd (room j q oq nj (rw np at ap) aq (cc))
        ]
        | inr (ni, op) ↦ elim (Dict.get-set-cases tasks k r j q hq) [
          | inl (ej, nq) ↦ absurd (room i p op ni (rw nq at aq) ap (cc))
          | inr (nj, oq) ↦ exclusive i j p q op oq ap aq same
        ]
      ]

  -- A task that keeps its channel and state, or is not active, needs no further room.
  pub HasRoom-same :
      {old : Task}
      → IsExclusive tasks
      → Dict.get tasks k ≡ some old
      → r.state ≡ old.state
      → r.execution_channel_id ≡ old.execution_channel_id
      → HasRoom tasks k r
  HasRoom-same {old} exclusive found state channel j q hq ne ar aq same =
      ne (sym (exclusive k j old q found hq (rw state at ar) aq (cc)))

  pub HasRoom-idle : is_active r.state ≡ false → HasRoom tasks k r
  HasRoom-idle idle j q hq ne ar aq same = cc

  pub IsSound-set :
      (lib : Stdlib)
      → IsSound lib tasks
      → r.task_id ≡ k
      → is_well_formed lib r ≡ true
      → HasRoom tasks k r
      → IsSound lib (Dict.set tasks k r)
  IsSound-set lib sound own good room = record {
    unique = Dict.IsUnique-set tasks k r sound.unique;
    keyed = IsKeyed-set sound.keyed own;
    formed = IsFormed-set lib sound.formed good;
    exclusive = IsExclusive-set sound.exclusive room;
  }

-- Whatever is kept of a sound collection is sound.
pub IsSound-part :
    (lib : Stdlib) (small tasks : Dict String Task)
    → IsPart small tasks
    → Dict.IsUnique small
    → IsSound lib tasks
    → IsSound lib small
IsSound-part lib small tasks part unique sound = record {
  unique = unique;
  keyed = λ k r h. sound.keyed k r (part k r h);
  formed = λ k r h. sound.formed k r (part k r h);
  exclusive = λ j k r q hr hq. sound.exclusive j k r q (part j r hr) (part k q hq);
}

pub IsSound-empty : (lib : Stdlib) → IsSound lib []
IsSound-empty lib = record {
  unique = tt;
  keyed = λ k r h. cc (h, Dict.get-empty {V = Task} k);
  formed = λ k r h. cc (h, Dict.get-empty {V = Task} k);
  exclusive = λ j k r q h _ _ _ _. cc (h, Dict.get-empty {V = Task} j);
}
