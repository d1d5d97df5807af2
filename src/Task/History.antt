-- ===== src/Task/History.antt =====
-- The life of the store: any sequence of its operations, failing or not, and restarts of the
-- gateway in between. The environment chooses clocks, callbacks and what the disk does.
-- The process starts with no document; a restart loads the document again.
use study_os_agent_gateway.Common.{
  ℕ, String, ◌≡◌, refl, sym, ◌∙◌, true, none, some, [], Result, Stdlib, string_eq, nat_eq,
}
use study_os_agent_gateway.Common.Dict
use study_os_agent_gateway.Task.Forget.Kept.{forget-IsConsistent}
use study_os_agent_gateway.Task.Reconcile.Restart.{reconcile_startup-IsConsistent}
use study_os_agent_gateway.Task.Store.Linking.{link_child-IsConsistent}
use study_os_agent_gateway.Task.Store.Operations.{create-IsConsistent, compare_and_set-IsConsistent}
use study_os_agent_gateway.Task.Store.Commit.{on_disk, IsConsistent}
use study_os_agent_gateway.Task.Store.{Env, Store, link_child, compare_and_set, create}
use study_os_agent_gateway.Task.Failure.{category_eq, retry_mode_eq}
use study_os_agent_gateway.Task.Forget.{forget}
use study_os_agent_gateway.Task.State.{is_active, state_eq}
use study_os_agent_gateway.Task.Invariant.{IsSound-empty}
use study_os_agent_gateway.Task.Record.{Task, intent_eq, source_kind_eq, cause_eq, is_well_formed}
use study_os_agent_gateway.Task.Reconcile.{reconcile_startup}

pub data Step (lib : Stdlib) : Store → Store → Type 0 where
  created :
      (s : Store) (env : Env) (r : Task)
      → is_well_formed lib r ≡ true
      → Step lib s (create lib env r s).1
  updated :
      (s : Store) (env : Env) (id : String) (n : ℕ) (update : Task → Result Task)
      → Step lib s (compare_and_set lib env id n update s).1
  linked :
      (s : Store) (env : Env) (id : String) (n : ℕ) (child : Task)
      → is_well_formed lib child ≡ true
      → Step lib s (link_child lib env id n child s).1
  forgotten : (s : Store) (env : Env) (id : String) (n : ℕ) → Step lib s (forget lib env id n s).1
  reconciled : (s : Store) (env : Env) → Step lib s (reconcile_startup lib env s).1
  reloaded : (s : Store) → Step lib s (record s { tasks = on_disk s.document })

pub data Reach (lib : Stdlib) : Store → Type 0 where
  start : Reach lib (record { tasks = []; document = none })
  next : {s t : Store} → Reach lib s → Step lib s t → Reach lib t

Step-IsConsistent :
    {lib : Stdlib} {s t : Store} → Step lib s t → IsConsistent lib s → IsConsistent lib t
Step-IsConsistent {lib} (created s env r good) h = create-IsConsistent lib env r s good h
Step-IsConsistent {lib} (updated s env id n update) h =
    compare_and_set-IsConsistent lib env id n update s h
Step-IsConsistent {lib} (linked s env id n child good) h =
    link_child-IsConsistent lib env id n child s good h
Step-IsConsistent {lib} (forgotten s env id n) h = forget-IsConsistent lib env id n s h
Step-IsConsistent {lib} (reconciled s env) h = reconcile_startup-IsConsistent lib env s h
Step-IsConsistent {lib} (reloaded s) h = record { sound = rw h.agrees h.sound; agrees = refl }

pub Reach-IsConsistent : {lib : Stdlib} {s : Store} → Reach lib s → IsConsistent lib s
Reach-IsConsistent {lib} start = record { sound = IsSound-empty lib; agrees = refl }
Reach-IsConsistent (next before step) = Step-IsConsistent step (Reach-IsConsistent before)

-- Whatever happens to the store, no channel ever runs two tasks at once: two active tasks with one
-- execution channel have the same identifier.
pub one_active_task :
    {lib : Stdlib} {s : Store} (j k : String) (r q : Task)
    → Reach lib s
    → Dict.get s.tasks j ≡ some r
    → Dict.get s.tasks k ≡ some q
    → is_active r.state ≡ true
    → is_active q.state ≡ true
    → r.execution_channel_id ≡ q.execution_channel_id
    → r.task_id ≡ q.task_id
one_active_task j k r q reached hr hq ar aq same =
    let sound = (Reach-IsConsistent reached).sound in
    sound.keyed j r hr ∙ sound.exclusive j k r q hr hq ar aq same ∙ sym (sound.keyed k q hq)

-- Whatever happens to the store, memory and disk agree, and every stored record is under its own
-- identifier and passes the checks of its constructor.
pub memory_agrees_with_disk :
    {lib : Stdlib} {s : Store} (k : String) (r : Task)
    → Reach lib s
    → Dict.get s.tasks k ≡ some r
    → (Dict.get (on_disk s.document) k ≡ some r) × (r.task_id ≡ k) × (is_well_formed lib r ≡ true)
memory_agrees_with_disk k r reached found =
    let h = Reach-IsConsistent reached in
    (rw h.agrees found, h.sound.keyed k r found, h.sound.formed k r found)
