-- ===== src/Mirror/Cards/Safe.antt =====
-- The operations on a card keep the document sound. A callback, and others that write while it
-- runs, do so too: this is the hypothesis of compare-and-set.
use study_os_agent_gateway.Common.{
  String, ◌≡◌, Bool, true, false, some, if◌then◌else◌, Result, raise_if, or_raise, Returns,
  Returns-intro, Returns-or_raise, ◌>>=◌, Returns-then, key_error, mutation_reentry, ok, raise,
  Stdlib, string_eq, nat_eq,
}
use study_os_agent_gateway.Common.Dict.{Dict}
use study_os_agent_gateway.Common.Dict
use study_os_agent_gateway.Mirror.Updates.Kept.{IsSuccessor}
use study_os_agent_gateway.Mirror.Store.Safe.{
  loaded, load_records->=>, >>>-IsSafe, return-IsSafe, on_disk_mirrors, commit_record-IsSafe,
  IsSuccessor-IsFitting, IsSafe,
}
use study_os_agent_gateway.Mirror.Store.{
  continue, mirror_timestamp, MirrorEnv, commit_record, MirrorStore, ◌>=>◌, StoreAction,
}
use study_os_agent_gateway.Mirror.Record.{item_state_eq, item_kind_eq, Mirror}
use study_os_agent_gateway.Mirror.Cards.{on_mirror, write_mirror}

abbrev pub KeepsSafe : Stdlib → {A : Type 0} → StoreAction A → Type 0
KeepsSafe lib m = (s : MirrorStore) → IsSafe lib s → IsSafe lib (m s).1

module _ (lib : Stdlib) where
  pub >=>-KeepsSafe :
      {A B : Type 0} (m : StoreAction A) (f : A → StoreAction B)
      → KeepsSafe lib m
      → ((a : A) → KeepsSafe lib (f a))
      → KeepsSafe lib (m >=> f)
  >=>-KeepsSafe {A} {B} m f first rest s safe = go (m s) (first s safe)
    where
      go : (left : Result A × MirrorStore) → IsSafe lib left.1 → IsSafe lib (continue f left).1
      go (ok a, t) kept = rest a t kept
      go (raise e, t) kept = kept

  pub if-IsSafe :
      {A : Type 0} (c : Bool) (m n : StoreAction A) (s : MirrorStore)
      → IsSafe lib (m s).1
      → IsSafe lib (n s).1
      → IsSafe lib ((if c then m else n) s).1
  if-IsSafe true m n s first second = first
  if-IsSafe false m n s first second = second

  -- The rest of an operation that writes what it makes of a stored record.
  abbrev pub IsStored : Mirror → MirrorStore → Type 0
  IsStored current s = (k : String) × (Dict.get (on_disk_mirrors s.document) k ≡ some current)

  pub write_mirror-IsSafe :
      {A : Type 0} (env : MirrorEnv) (current : Mirror) (update : String → Result Mirror)
      (result : Mirror → A)
      → ((stamp : String) → Returns (IsSuccessor lib current) (update stamp))
      → (s : MirrorStore) → IsSafe lib s
      → IsStored current s
      → IsSafe lib (write_mirror lib env (on_disk_mirrors s.document) update result s).1
  write_mirror-IsSafe env current update result next s safe (k, at) =
      >>>-IsSafe lib (IsSuccessor lib current) (mirror_timestamp lib env.clock >>= update) _ s
        (Returns-then (IsSuccessor lib current) (mirror_timestamp lib env.clock) _
          (λ stamp _. next stamp))
        safe
        (λ r is. return-IsSafe lib result (commit_record env (on_disk_mirrors s.document) r s) (
          commit_record-IsSafe lib env (on_disk_mirrors s.document) r s safe safe
            (IsSuccessor-IsFitting lib (on_disk_mirrors s.document) k current r safe at is)))

  -- Every operation that reads a record and then writes its successor, or does nothing.
  pub on_mirror-KeepsSafe :
      {A : Type 0} (id : String) (act : Dict String Mirror → Mirror → StoreAction A)
      → ((current : Mirror) (s : MirrorStore)
          → IsSafe lib s
          → IsStored current s
          → IsSafe lib (act (on_disk_mirrors s.document) current s).1)
      → KeepsSafe lib (on_mirror lib id act)
  on_mirror-KeepsSafe id act keeps s safe =
      >>>-IsSafe lib (λ _. Unit {0}) (raise_if s.callback_active mutation_reentry) _ s
        (Returns-intro (λ _. Unit {0}) _ (λ _ _. tt)) safe
        (λ _ _. load_records->=> lib _ s safe (
          >>>-IsSafe lib (λ r. Dict.get (on_disk_mirrors s.document) id ≡ some r)
            (or_raise (Dict.get (on_disk_mirrors s.document) id) key_error) _ (loaded s)
            (Returns-or_raise (Dict.get (on_disk_mirrors s.document) id) key_error) safe
            (λ current at. keeps current (loaded s) safe (id, at))))
