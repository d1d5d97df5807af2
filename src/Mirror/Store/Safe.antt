-- ===== src/Mirror/Store/Safe.antt =====
-- The steps of the store keep the document sound, whatever they raise and whatever the disk does.
use study_os_agent_gateway.Common.{
  String, ◌≡◌, refl, sym, ◌∙◌, inl, inr, Bool, Option, none, some, [], Bool-cases, Result, Returns,
  ok, raise, Stdlib, string_eq, nat_eq,
}
use study_os_agent_gateway.Common.Dict.{Dict}
use study_os_agent_gateway.Common.Dict
use study_os_agent_gateway.Mirror.Updates.Kept.{IsSuccessor}
use study_os_agent_gateway.Mirror.Store.{
  return, commit_records, ◌>=>◌, continue, ◌>>>◌, MirrorStore, StoreAction, load_records,
  commit_record, MirrorEnv,
}
use study_os_agent_gateway.Mirror.Invariant.{
  IsFitting, same_key_sym, IsValidEntry-own, same_key_trans, IsValidEntry-intro, decode_document-ok,
  IsSoundMirrors-set, IsSoundMirrors,
}
use study_os_agent_gateway.Mirror.Record.{item_kind_eq, item_state_eq, Mirror, logical_key}

-- The mirrors that the next load reads.
abbrev pub on_disk_mirrors : Option (Dict String Mirror) → Dict String Mirror
on_disk_mirrors none = []
on_disk_mirrors (some d) = d

abbrev pub IsSafe : Stdlib → MirrorStore → Type 0
IsSafe lib s = IsSoundMirrors lib (on_disk_mirrors s.document)

-- The state after a load.
abbrev pub loaded : MirrorStore → MirrorStore
loaded s = record s { records = on_disk_mirrors s.document }

-- A load of a sound document reads it.
pub load_records-ok :
    (lib : Stdlib) (s : MirrorStore)
    → IsSafe lib s
    → load_records lib s ≡ (ok (on_disk_mirrors s.document), loaded s)
unfolding load_records
load_records-ok lib s safe = go s.document s.records s.callback_active safe
  where
    go :
        (document : Option (Dict String Mirror)) (records : Dict String Mirror) (active : Bool)
        → (let s : MirrorStore = record {
          records = records;
          document = document;
          callback_active = active;
        } in
            IsSafe lib s → load_records lib s ≡ (ok (on_disk_mirrors document), loaded s))
    go none records active safe = refl
    go (some d) records active safe = rw (decode_document-ok lib d safe) refl

module _ (lib : Stdlib) where
  -- The rest of an operation sees the document.
  pub load_records->=> :
      {B : Type 0} (f : Dict String Mirror → StoreAction B) (s : MirrorStore)
      → IsSafe lib s
      → IsSafe lib (f (on_disk_mirrors s.document) (loaded s)).1
      → IsSafe lib ((load_records lib >=> f) s).1
  load_records->=> f s safe rest = rw (load_records-ok lib s safe) rest

  pub >>>-IsSafe :
      {A B : Type 0} (Q : A → Type 0) (m : Result A) (f : A → StoreAction B) (s : MirrorStore)
      → Returns Q m
      → IsSafe lib s
      → ((a : A) → Q a → IsSafe lib (f a s).1)
      → IsSafe lib ((m >>> f) s).1
  >>>-IsSafe Q (ok a) f s q safe rest = rest a q
  >>>-IsSafe Q (raise e) f s q safe rest = safe

  -- A step that only computes its result.
  pub return-IsSafe :
      {A B : Type 0} (f : A → B) (m : Result A × MirrorStore)
      → IsSafe lib m.1
      → IsSafe lib (continue (λ a. return (f a)) m).1
  return-IsSafe f (ok a, s) safe = safe
  return-IsSafe f (raise e, s) safe = safe

  pub commit_record-IsSafe :
      (env : MirrorEnv) (d : Dict String Mirror) (r : Mirror) (s : MirrorStore)
      → IsSafe lib s
      → IsSoundMirrors lib d
      → IsFitting lib d r.mirror_id r
      → IsSafe lib (commit_record env d r s).1
  unfolding commit_record commit_records
  commit_record-IsSafe env d r s safe sound fits =
      let new = IsSoundMirrors-set lib d r.mirror_id r sound fits in
      elim (Bool-cases env.replaced) [
        | inr no_write ↦ rw no_write safe
        | inl wrote ↦
            rw wrote
              (elim (Bool-cases env.synced) [ inl fine ↦ rw fine new | inr unsure ↦ rw unsure new ])
      ]

  -- The next record of a stored one fits in its place.
  pub IsSuccessor-IsFitting :
      (d : Dict String Mirror) (k : String) (current r : Mirror)
      → IsSoundMirrors lib d
      → Dict.get d k ≡ some current
      → IsSuccessor lib current r
      → IsFitting lib d r.mirror_id r
  IsSuccessor-IsFitting d k current r sound found next =
      let own : k ≡ r.mirror_id =
        IsValidEntry-own lib k current (sound.valid k current found) ∙ sym next.same_id in
      record {
        entry = IsValidEntry-intro lib r next.well_formed next.few_claims;
        item = λ j q at same.
            sound.one_item j k q current at found (
              same_key_trans (logical_key q) (logical_key r) (logical_key current)
                (same_key_sym (logical_key r) (logical_key q) same) next.same_item_key)
            ∙ own;
        delivery = λ j q x at here there.
            sound.one_delivery j k q current x at found there (rw next.same_deliveries at here)
            ∙ own;
      }
