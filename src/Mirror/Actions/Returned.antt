-- ===== src/Mirror/Actions/Returned.antt =====
-- What the operations on a reservation return, through compare-and-set and its retries, whatever others write.
use study_os_agent_gateway.Common.{
  ℕ, ◌+◌, String, ◌≡◌, refl, sym, subst, inl, inr, Bool, true, false, not, Option, some, Bool-cases,
  Option-cases, string_eq, bool_eq, nat_eq, option_eq, beq_self, list_eq, last_n, Result, raise_if,
  Returns, ◌>>=◌, Returns-then, Returns-map, Result-cases, value_error, mirror_revision_conflict,
  ok, raise, Stdlib,
}
use study_os_agent_gateway.Mirror.Actions.{on_conflict, callback, Attempt}
use study_os_agent_gateway.Mirror.Store.{
  read_document, get_mirror, commit_record, MirrorStore, commit_records, mirror_timestamp, ◌>>>◌,
  MirrorEnv, load_records, continue, StoreAction, ◌>=>◌, return,
}
use study_os_agent_gateway.Mirror.Updates.{updated_record, same_item}
use study_os_agent_gateway.Mirror.Record.{
  checked_mirror, Mirror, max_handled_claims, is_well_formed_mirror, item_kind_eq, item_state_eq,
}
use study_os_agent_gateway.Mirror.Cards.{compare_and_set_mirror, write_mirror, current_mirror}
use study_os_agent_gateway.Common.Dict.{Dict}
use study_os_agent_gateway.Common.Dict

-- The record that a compare-and-set writes for a candidate.
abbrev pub successor : Mirror → ℕ → String → Mirror
successor c n stamp = record c {
  revision = n;
  handled_interaction_claims = last_n max_handled_claims c.handled_interaction_claims;
  updated_at = stamp;
}

module _ (lib : Stdlib) where
  pub continue-Returns :
      {A B : Type 0} (P : B → Type 0) (f : A → StoreAction B) (left : Result A × MirrorStore)
      → ((a : A) (t : MirrorStore) → Returns P (f a t).0)
      → Returns P (continue f left).0
  continue-Returns P f (ok a, t) rest = rest a t
  continue-Returns P f (raise e, t) rest = tt

  updated_record-Returns :
      (current candidate : Mirror) (stamp : String)
      → Returns
          (λ q. q ≡ successor candidate (current.revision + 1) stamp)
          (updated_record lib current (λ _. ok candidate) stamp)
  unfolding updated_record checked_mirror
  updated_record-Returns current candidate stamp =
      let next = successor candidate (current.revision + 1) stamp in
      Returns-then (λ q. q ≡ next) (raise_if (not (same_item current candidate)) value_error) _
        (λ _ _. elim (Bool-cases (is_well_formed_mirror lib next)) [
          | inl good ↦ rw good refl
          | inr bad ↦ rw bad tt
        ])

  commit_record-Returns :
      (env : MirrorEnv) (d : Dict String Mirror) (P : Mirror → Type 0) (r : Mirror)
      (s : MirrorStore)
      → P r
      → Returns P (commit_record env d r s).0
  unfolding commit_record
  commit_record-Returns env d P r s p =
      continue-Returns P (λ _. return r) (commit_records env (Dict.set d r.mirror_id r) s)
        (λ _ _. p)

  -- The second load of a compare-and-set and what follows.
  written-Returns :
      (env : MirrorEnv) (id : String) (n : ℕ) (P : Mirror → Type 0) (candidate : Mirror)
      (s : MirrorStore)
      → ((m : ℕ) (stamp : String) → P (successor candidate m stamp))
      → Returns P
          ((load_records lib >=> λ d. current_mirror d id n >>> λ current.
              write_mirror lib env d (updated_record lib current (λ _. ok candidate)) (λ r. r))
            s).0
  written-Returns env id n P candidate s p = continue-Returns P _ (load_records lib s) (λ d t.
      continue-Returns P _ (current_mirror d id n, t)
        (λ current u. after-stamp d current u (mirror_timestamp lib env.clock)))
    where
      after-update :
          (d : Dict String Mirror) (u : MirrorStore) (m : Result Mirror)
          → Returns P m
          → Returns P ((m >>> λ r. commit_record env d r >=> λ r. return r) u).0
      after-update d u (ok r) h =
          tail (commit_record env d r u) (commit_record-Returns env d P r u h)
        where
          tail :
              (left : Result Mirror × MirrorStore)
              → Returns P left.0
              → Returns P (continue (λ r. return r) left).0
          tail (ok q, t) h = h
          tail (raise e, t) h = tt
      after-update d u (raise e) h = tt

      after-stamp :
          (d : Dict String Mirror) (current : Mirror) (u : MirrorStore) (stamp : Result String)
          → Returns P
              (((stamp >>= updated_record lib current (λ _. ok candidate)) >>> λ r.
                  commit_record env d r >=> λ r. return r)
                u).0
      after-stamp d current u (ok stamp) =
          after-update d u (updated_record lib current (λ _. ok candidate) stamp) (
            Returns-map (λ q. q ≡ successor candidate (current.revision + 1) stamp) P
              (updated_record lib current (λ _. ok candidate) stamp)
              (λ q is. subst P (sym is) (p (current.revision + 1) stamp))
              (updated_record-Returns current candidate stamp))
      after-stamp d current u (raise e) = tt

  -- A compare-and-set at the revision of the record that is on disk writes what `update` makes of that record.
  pub cas-Returns :
      (a : Attempt) (id : String) (current : Mirror) (update : Mirror → Result Mirror)
      (P : Mirror → Type 0) (d : Dict String Mirror) (records : Dict String Mirror)
      (document : Option (Dict String Mirror)) (active : Bool)
      → read_document lib document ≡ ok d
      → Dict.get d id ≡ some current
      → ((c : Mirror) → update current ≡ ok c → (m : ℕ) (stamp : String) → P (successor c m stamp))
      → Returns P
          (compare_and_set_mirror lib a.env id current.revision
            (callback a update)
            (record { records = records; document = document; callback_active = active })).0
  unfolding compare_and_set_mirror load_records current_mirror
  cas-Returns a id current update P d records document true h found p = tt
  cas-Returns a id current update P d records document false h found p =
      rw (h, found, beq_self current.revision)
        (elim (Result-cases (update current)) [
          | inr (e, failed) ↦ rw failed tt
          | inl (c, made) ↦ rw made (written-Returns a.env id current.revision P c _ (p c made))
        ])

  -- The attempts of a loop: one that meets a conflict is followed by the rest.
  pub on_conflict-Returns :
      {A : Type 0} (P : A → Type 0) (result : Mirror → A) (again : StoreAction A)
      (left : Result Mirror × MirrorStore)
      → Returns (λ r. P (result r)) left.0
      → ((s : MirrorStore) → Returns P (again s).0)
      → Returns P (on_conflict result again left).0
  on_conflict-Returns P result again (ok r, s) h rest = h
  on_conflict-Returns P result again (raise mirror_revision_conflict, s) h rest = rest s
  on_conflict-Returns P result again (raise e, s) h rest = tt

  -- The record that `get` reads, with the document it stands in.
  pub get_mirror-then :
      {A : Type 0} (P : A → Type 0) (id : String) (f : Mirror → StoreAction A)
      (records : Dict String Mirror) (document : Option (Dict String Mirror)) (active : Bool)
      → ((current : Mirror) (d : Dict String Mirror)
          → read_document lib document ≡ ok d
          → Dict.get d id ≡ some current
          → Returns P
              (f current (record { records = d; document = document; callback_active = active })).0)
      → Returns P
          ((get_mirror lib id >=> f)
            (record { records = records; document = document; callback_active = active })).0
  unfolding get_mirror load_records
  get_mirror-then P id f records document active rest =
      elim (Result-cases (read_document lib document)) [
        | inr (e, bad) ↦ rw bad tt
        | inl (d, h) ↦ elim (Option-cases (Dict.get d id)) [
          | inl missing ↦ rw (h, missing) tt
          | inr (current, found) ↦ rw (h, found) (rest current d h found)
        ]
      ]
