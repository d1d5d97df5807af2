-- ===== src/Task/Store/Commit.antt =====
-- `_commit`: whatever the clock and the disk do, memory and document go on agreeing, and what is
-- kept is part of what was to be written.
use study_os_agent_gateway.Common.{
  String, ◌≡◌, refl, ◌⊎◌, inl, inr, Option, none, some, [], arith, Bool-cases, Result, Returns,
  Returns-eq, Result-cases, ok, raise, Stdlib,
}
use study_os_agent_gateway.Task.Retention.Subset.{IsKept, IsKeyed, apply_retention-IsKept}
use study_os_agent_gateway.Task.Store.{
  ◌>>>◌, Action, after_write, commit, finish, Env, Store, write_document,
}
use study_os_agent_gateway.Task.Invariant.{IsSound, IsSound-part}
use study_os_agent_gateway.Task.Record.{Task}
use study_os_agent_gateway.Task.Retention.{apply_retention}
use study_os_agent_gateway.Common.Dict.{Dict}

-- The tasks that a restart would load.
abbrev pub on_disk : Option (Dict String Task) → Dict String Task
on_disk none = []
on_disk (some tasks) = tasks

-- The invariant of the store: sound tasks, and the same on disk.
pub record IsConsistent (lib : Stdlib) (s : Store) : Type 0 where
  pub sound : IsSound lib s.tasks
  pub agrees : on_disk s.document ≡ s.tasks

-- What a call left: the old state, or a part of `tasks` in memory and on disk.
abbrev pub Leaves : Dict String Task → Store → Store → Type 0
Leaves tasks s s' =
    (s' ≡ s)
    ⊎ ((kept : Dict String Task) × IsKept kept tasks
        × (s' ≡ record { tasks = kept; document = some kept }))

after_write-Leaves :
    (env : Env) (kept : Dict String Task) (s : Store)
    → (let s' = (after_write env kept (write_document env kept s.document) s).1 in
        (s' ≡ s) ⊎ (s' ≡ record { tasks = kept; document = some kept }))
unfolding after_write write_document
after_write-Leaves env kept s = elim (Bool-cases env.replaced) [
  | inr eq ↦ inl (rw eq)
  | inl eq ↦ elim (Bool-cases env.synced) [
    | inl ok' ↦ inr (rw (eq, ok'))
    | inr bad ↦ inr (rw (eq, bad))
  ]
]

module _ (lib : Stdlib) (env : Env) (tasks : Dict String Task) (s : Store) where
  pub commit-Leaves : IsKeyed tasks → Leaves tasks s (commit lib env tasks s).1
  unfolding commit
  commit-Leaves keyed = elim (Result-cases (apply_retention lib tasks env.commit_clock)) [
    | inr (e, bad) ↦ inl (rw bad)
    | inl (kept, e) ↦ rw e (elim (after_write-Leaves env kept s) [
      | inl same ↦ inl same
      | inr new ↦ inr (
        kept,
        Returns-eq (λ (d : Dict String Task). IsKept d tasks)
            (apply_retention lib tasks env.commit_clock) kept
            (apply_retention-IsKept lib tasks env.commit_clock keyed) e,
        new,
      )
    ])
  ]

  pub commit-IsConsistent :
      IsConsistent lib s → IsSound lib tasks → IsConsistent lib (commit lib env tasks s).1
  commit-IsConsistent before sound = elim (commit-Leaves sound.keyed) [
    | inl same ↦ rw same before
    | inr (kept, part, new) ↦
        rw new (record { sound = IsSound-part lib kept tasks part.0 part.1 sound; agrees = refl })
  ]

after_write-eq-ok :
    (env : Env) (kept : Dict String Task) (s : Store) {u : Unit {0}}
    → (after_write env kept (write_document env kept s.document) s).0 ≡ ok u
    → (after_write env kept (write_document env kept s.document) s).1
      ≡ record { tasks = kept; document = some kept }
unfolding after_write write_document
after_write-eq-ok env kept s h = elim (Bool-cases env.replaced) [
  | inr eq ↦ ground arith
  | inl eq ↦ elim (Bool-cases env.synced) [ inl synced ↦ rw (eq, synced) | inr bad ↦ rw (eq, bad) ]
]

-- A commit that returns has stored a part of `tasks`, in memory and on disk.
pub commit-eq-ok :
    (lib : Stdlib) (env : Env) (tasks : Dict String Task) (s : Store) {u : Unit {0}}
    → IsKeyed tasks
    → (commit lib env tasks s).0 ≡ ok u
    → (kept : Dict String Task) × (apply_retention lib tasks env.commit_clock ≡ ok kept)
      × IsKept kept tasks
      × ((commit lib env tasks s).1 ≡ record { tasks = kept; document = some kept })
unfolding commit
commit-eq-ok lib env tasks s keyed h =
    elim (Result-cases (apply_retention lib tasks env.commit_clock)) [
      | inr (e, bad) ↦ absurd (cc (rw bad at h))
      | inl (kept, e) ↦ (
        kept,
        e,
        Returns-eq (λ (d : Dict String Task). IsKept d tasks)
            (apply_retention lib tasks env.commit_clock) kept
            (apply_retention-IsKept lib tasks env.commit_clock keyed) e,
        rw e (after_write-eq-ok env kept s (rw e at h)),
      )
    ]

pub finish-state : {A : Type 0} (a : A) (m : Result (Unit {0}) × Store) → (finish a m).1 ≡ m.1
finish-state a (ok u, s) = refl
finish-state a (raise e, s) = refl

-- A call that reads and then goes on keeps what holds before it, if the rest does.
pub >>>-keeps :
    {A B : Type 0} (Q : A → Type 0) (P : Store → Type 0) (m : Result A) (f : A → Action B)
    (s : Store)
    → Returns Q m
    → P s
    → ((a : A) → m ≡ ok a → Q a → P (f a s).1)
    → P ((m >>> f) s).1
>>>-keeps Q P (ok a) f s q before rest = rest a refl q
>>>-keeps Q P (raise e) f s q before rest = before

pub >>>-eq-ok :
    {A B : Type 0} (m : Result A) (f : A → Action B) (s : Store) {b : B}
    → ((m >>> f) s).0 ≡ ok b
    → (a : A) × (m ≡ ok a) × ((f a s).0 ≡ ok b) × (((m >>> f) s).1 ≡ (f a s).1)
>>>-eq-ok (ok a) f s h = (a, refl, h, refl)
>>>-eq-ok (raise e) f s h = cc

pub finish-eq-ok :
    {A : Type 0} (a : A) (m : Result (Unit {0}) × Store) {b : A}
    → (finish a m).0 ≡ ok b
    → (m.0 ≡ ok tt) × (a ≡ b)
finish-eq-ok a (ok u, s) h = (refl, cc)
finish-eq-ok a (raise e, s) h = cc
