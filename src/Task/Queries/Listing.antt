-- ===== src/Task/Queries/Listing.antt =====
-- What the queries promise: whose tasks are listed, in which order, and which task may be continued.
use study_os_agent_gateway.Common.{
  ℕ, zero, suc, ◌≤◌, String, ◌≡◌, refl, sym, ap, subst, ◌∙◌, ◌≢◌, inl, inr, Bool, true, false, not,
  Option, none, some, List, [], ◌∷◌, map, arith, Bool-cases, and_split, is_some, string_eq, bool_eq,
  nat_eq, ◌==◌, option_eq, beq-eq, list_eq, length, take, filter, Every, Every-imp, Every-take,
  Every-filter, Every-filter_of, Every-both, Every-map, raise_if, Returns, Returns-eq, ◌>>=◌,
  Returns-bind, Returns-then, Result-cases, value_error, ok, Datetime, Stdlib, naive, aware,
}
use study_os_agent_gateway.Task.Retention.Subset.{IsKeyed}
use study_os_agent_gateway.Task.Invariant.{IsSound}
use study_os_agent_gateway.Task.Failure.{category_eq, retry_mode_eq}
use study_os_agent_gateway.Task.State.{completed, state_eq}
use study_os_agent_gateway.Common.Dict.{Dict}
use study_os_agent_gateway.Task.Access.{Access}
use study_os_agent_gateway.Task.Queries.{
  is_latest, can_continue, is_listed, later_of, latest, is_visible, list_tasks, in_state, in_scope,
  created_key, with_keys, created_leb, Created, created_order, insert_latest, latest_first,
}
use study_os_agent_gateway.Task.Record.{cause_eq, intent_eq, source_kind_eq, Task}
use study_os_agent_gateway.Common.Dict

-- The instant of creation of a record whose time is one.
abbrev pub instant_of : Option Datetime → ℕ
instant_of (some (aware t)) = t
instant_of o = 0

-- `q` was created no later than `r`.
abbrev pub IsEarlier : Stdlib → Task → Task → Type 0
IsEarlier lib q r =
    instant_of (lib.fromisoformat q.created_at) ≤ instant_of (lib.fromisoformat r.created_at)

abbrev pub IsLatestFirst : Stdlib → List Task → Type 0
IsLatestFirst lib [] = Unit
IsLatestFirst lib (r ∷ rs) = Every (λ q. IsEarlier lib q r) rs × IsLatestFirst lib rs

-- The list in its order, by the keys: the instants do not grow.
abbrev Falls : List (Created × Task) → Type 0
Falls [] = Unit
Falls ((k, r) ∷ rest) = Every (λ (x : Created × Task). x.0.0 ≤ k.0) rest × Falls rest

created_leb-le : (j k : Created) → created_leb j k ≡ true → j.0 ≤ k.0
created_leb-le (t, i) (u, j) h = ground arith

created_leb-ge : (j k : Created) → created_leb j k ≡ false → k.0 ≤ j.0
created_leb-ge (t, i) (u, j) h = ground arith

module _ (P : Created × Task → Type 0) where
  insert_latest-Every :
      (x : Created × Task) (xs : List (Created × Task))
      → P x
      → Every P xs
      → Every P (insert_latest x xs)
  insert_latest-Every (k, r) [] px pxs = (px, tt)
  insert_latest-Every (k, r) ((j, q) ∷ rest) px (pj, pxs) = elim (Bool-cases (created_leb j k)) [
    | inl le ↦ rw le (px, (pj, pxs))
    | inr gt ↦ rw gt (pj, insert_latest-Every (k, r) rest px pxs)
  ]

  latest_first-Every : (xs : List (Created × Task)) → Every P xs → Every P (latest_first xs)
  unfolding latest_first
  latest_first-Every [] h = tt
  latest_first-Every (x ∷ xs) (px, pxs) =
      insert_latest-Every x (latest_first xs) px (latest_first-Every xs pxs)

insert_latest-Falls :
    (x : Created × Task) (xs : List (Created × Task)) → Falls xs → Falls (insert_latest x xs)
insert_latest-Falls (k, r) [] h = (tt, tt)
insert_latest-Falls (k, r) ((j, q) ∷ rest) (below, falls) = elim (Bool-cases (created_leb j k)) [
  | inl le ↦ rw le (
    (
      created_leb-le j k le,
      Every-imp _ _ rest (λ x h. omega (arith, h, created_leb-le j k le)) below,
    ),
    (below, falls),
  )
  | inr gt ↦ rw gt (
    insert_latest-Every (λ x. x.0.0 ≤ j.0) (k, r) rest (created_leb-ge j k gt) below,
    insert_latest-Falls (k, r) rest falls,
  )
]

latest_first-Falls : (xs : List (Created × Task)) → Falls (latest_first xs)
unfolding latest_first
latest_first-Falls [] = tt
latest_first-Falls (x ∷ xs) = insert_latest-Falls x (latest_first xs) (latest_first-Falls xs)

length-take : (n : ℕ) (rs : List Task) → length (take n rs) ≤ n
length-take zero rs = omega arith
length-take (suc n) [] = omega arith
length-take (suc n) (r ∷ rs) = omega (arith, length-take n rs)

module _ (lib : Stdlib) where
  -- A record with the key that it has.
  abbrev IsKeyedBy : Created × Task → Type 0
  IsKeyedBy (k, r) = lib.fromisoformat r.created_at ≡ some (aware k.0)

  created_key-IsKeyedBy :
      (r : Task) (o : Option Datetime)
      → lib.fromisoformat r.created_at ≡ o
      → Returns (λ k. IsKeyedBy (k, r)) (created_key lib r.task_id o)
  created_key-IsKeyedBy r (some (aware t)) h = h
  created_key-IsKeyedBy r (some (naive t)) h = tt
  created_key-IsKeyedBy r none h = tt

  created_order-IsKeyedBy : (r : Task) → Returns (λ k. IsKeyedBy (k, r)) (created_order lib r)
  unfolding created_order
  created_order-IsKeyedBy r = created_key-IsKeyedBy r (lib.fromisoformat r.created_at) refl

  -- Each record has its key, and is one of the list.
  with_keys-Returns :
      (P : Task → Type 0) (rs : List Task)
      → Every P rs
      → Returns
          (λ keyed. Every (λ (x : Created × Task). IsKeyedBy x × P x.1) keyed)
          (with_keys lib rs)
  unfolding with_keys
  with_keys-Returns P [] h = tt
  with_keys-Returns P (r ∷ rs) (pr, prs) =
      let Good : List (Created × Task) → Type 0 =
        Every (λ (x : Created × Task). IsKeyedBy x × P x.1) in
      Returns-then Good (created_order lib r) _ (λ k made.
        Returns-bind Good Good (with_keys lib rs) _ (with_keys-Returns P rs prs) (λ rest _ good. (
          (
            Returns-eq (λ k. IsKeyedBy (k, r)) (created_order lib r) k (created_order-IsKeyedBy r)
                made,
            pr,
          ),
          good,
        )))

  -- Keys that fall are instants of creation that fall.
  fall-below :
      (k : Created) (r : Task) (xs : List (Created × Task))
      → IsKeyedBy (k, r)
      → Every IsKeyedBy xs
      → Every (λ (x : Created × Task). x.0.0 ≤ k.0) xs
      → Every (λ q. IsEarlier lib q r) (map (λ (x : Created × Task). x.1) xs)
  fall-below k r [] kr kxs below = tt
  fall-below k r ((j, q) ∷ xs) kr (kq, kxs) (le, below) =
      (omega (arith, ap instant_of kq, ap instant_of kr, le), fall-below k r xs kr kxs below)

  IsLatestFirst-map :
      (xs : List (Created × Task))
      → Every IsKeyedBy xs
      → Falls xs
      → IsLatestFirst lib (map (λ (x : Created × Task). x.1) xs)
  IsLatestFirst-map [] keyed falls = tt
  IsLatestFirst-map ((k, r) ∷ xs) (kr, kxs) (below, falls) =
      (fall-below k r xs kr kxs below, IsLatestFirst-map xs kxs falls)

  IsLatestFirst-take :
      (n : ℕ) (rs : List Task) → IsLatestFirst lib rs → IsLatestFirst lib (take n rs)
  IsLatestFirst-take zero rs h = tt
  IsLatestFirst-take (suc n) [] h = tt
  IsLatestFirst-take (suc n) (r ∷ rs) (below, h) =
      (Every-take (λ q. IsEarlier lib q r) n rs below, IsLatestFirst-take n rs h)

  chosen-Every :
      (P : Task → Type 0) (access : Access) (scope state : String) (current : ℕ) (rs : List Task)
      → Every P rs
      → Every
          (λ r.
            P r
            × (is_visible r access ≡ true)
            × (in_scope r access scope current ≡ true)
            × (in_state r state ≡ true))
          (filter (is_listed lib access scope state current) rs)
  chosen-Every P access scope state current rs all_stored =
      let test = is_listed lib access scope state current in
      Every-imp _ _ (filter test rs)
        (λ r (pr, listed).
          let (shown, right_state) = and_split _ _ listed in
          let (visible, right_scope) = and_split _ _ shown in
          (pr, visible, right_scope, right_state))
        (Every-both P (λ r. test r ≡ true) (filter test rs) (Every-filter_of test P rs all_stored)
          (Every-filter test rs))

  -- `list_tasks` returns at most ten tasks, the latest first; each is stored, visible to the actor, and in the
  -- scope and state that were asked for. What holds of every stored task stands for being stored.
  pub list_tasks-Listed :
      (P : Task → Type 0) (tasks : Dict String Task) (access : Access) (scope state : String)
      (current : ℕ)
      → Every P (Dict.values tasks)
      → Returns
          (λ rs.
            (length rs ≤ 10)
            × IsLatestFirst lib rs
            × Every
                (λ r.
                  P r
                  × (is_visible r access ≡ true)
                  × (in_scope r access scope current ≡ true)
                  × (in_state r state ≡ true))
                rs)
          (list_tasks lib tasks access scope state current)
  unfolding list_tasks
  list_tasks-Listed P tasks access scope state current all_stored =
      let Q : Task → Type 0 = λ r.
        P r
        × (is_visible r access ≡ true)
        × (in_scope r access scope current ≡ true)
        × (in_state r state ≡ true) in
      let G : List Task → Type 0 = λ rs. (length rs ≤ 10) × IsLatestFirst lib rs × Every Q rs in
      let test = is_listed lib access scope state current in
      let chosen = filter test (Dict.values tasks) in
      Returns-then G (raise_if _ value_error) _ (λ _ _.
        Returns-bind (Every (λ x. IsKeyedBy x × Q x.1)) G (with_keys lib chosen)
          (λ keyed. ok (take 10 (map (λ (x : Created × Task). x.1) (latest_first keyed))))
          (with_keys-Returns Q chosen
            (chosen-Every P access scope state current (Dict.values tasks) all_stored))
          (λ keyed _ good.
            let sorted = latest_first-Every (λ x. IsKeyedBy x × Q x.1) keyed good in
            let own = Every-imp _ IsKeyedBy (latest_first keyed) (λ x h. h.0) sorted in
            let listed =
              Every-imp _ (λ (x : Created × Task). Q x.1) (latest_first keyed) (λ x h. h.1)
                sorted in
            (
              length-take 10 (map (λ (x : Created × Task). x.1) (latest_first keyed)),
              IsLatestFirst-take 10 _
                  (IsLatestFirst-map (latest_first keyed) own (latest_first-Falls keyed)),
              Every-take Q 10 _
                  (Every-map (λ (x : Created × Task). x.1) Q (latest_first keyed) listed),
            )))

later_of-Every :
    (P : Created × Task → Type 0) (x y : Created × Task) (o : Option (Created × Task))
    → P x
    → ((z : Created × Task) → o ≡ some z → P z)
    → later_of x o ≡ some y
    → P y
later_of-Every P (k, r) y none px po is = subst P (cc) px
later_of-Every P (k, r) y (some (j, q)) px po is = elim (Bool-cases (created_leb j k)) [
  | inl le ↦ subst P (cc (rw le at is)) px
  | inr gt ↦ subst P (cc (rw gt at is)) (po (j, q) refl)
]

latest-Every :
    (P : Created × Task → Type 0) (xs : List (Created × Task)) (y : Created × Task)
    → Every P xs
    → latest xs ≡ some y
    → P y
unfolding latest
latest-Every P [] y h is = absurd (cc)
latest-Every P (x ∷ xs) y (px, pxs) is =
    later_of-Every P x y (latest xs) px (λ z found. latest-Every P xs z pxs found) is

abbrev Under : Created × Task → List (Created × Task) → Type 0
Under y xs = Every (λ (x : Created × Task). x.0.0 ≤ y.0.0) xs

later_of-Under :
    (x y : Created × Task) (o : Option (Created × Task)) (xs : List (Created × Task))
    → (o ≡ none → xs ≡ [])
    → ((z : Created × Task) → o ≡ some z → Under z xs)
    → later_of x o ≡ some y
    → Under y (x ∷ xs)
later_of-Under (k, r) y none xs empty under is =
    let last : (k, r) ≡ y = cc in
    subst (λ z. Under z ((k, r) ∷ xs)) last (rw (empty refl) (omega arith, tt))
later_of-Under (k, r) y (some (j, q)) xs empty under is = elim (Bool-cases (created_leb j k)) [
  | inl le ↦
      let last : (k, r) ≡ y = cc (rw le at is) in
      let up = created_leb-le j k le in
      subst (λ z. Under z ((k, r) ∷ xs)) last
        (omega arith, Every-imp _ _ xs (λ x h. omega (arith, h, up)) (under (j, q) refl))
  | inr gt ↦
      let last : (j, q) ≡ y = cc (rw gt at is) in
      subst (λ z. Under z ((k, r) ∷ xs)) last (created_leb-ge j k gt, under (j, q) refl)
]

later_of-ne : (x : Created × Task) (o : Option (Created × Task)) → later_of x o ≢ none
later_of-ne (k, r) none h = cc
later_of-ne (k, r) (some (j, q)) h = elim (Bool-cases (created_leb j k)) [
  | inl le ↦ cc (rw le at h)
  | inr gt ↦ cc (rw gt at h)
]

latest-none : (xs : List (Created × Task)) → latest xs ≡ none → xs ≡ []
unfolding latest
latest-none [] h = refl
latest-none (x ∷ xs) h = absurd (later_of-ne x (latest xs) h)

latest-Under : (xs : List (Created × Task)) (y : Created × Task) → latest xs ≡ some y → Under y xs
unfolding latest
latest-Under [] y h = tt
latest-Under (x ∷ xs) y h =
    later_of-Under x y (latest xs) xs (latest-none xs) (λ z found. latest-Under xs z found) h

not_some : {A : Type 0} (o : Option A) → not (is_some o) ≡ true → o ≡ none
not_some none h = refl
not_some (some a) h = absurd (cc)

-- The keyed records are the records.
with_keys-Records :
    (lib : Stdlib) (rs : List Task)
    → Returns (λ keyed. map (λ (x : Created × Task). x.1) keyed ≡ rs) (with_keys lib rs)
unfolding with_keys
with_keys-Records lib [] = refl
with_keys-Records lib (r ∷ rs) =
    Returns-then (λ keyed. map (λ (x : Created × Task). x.1) keyed ≡ r ∷ rs) (created_order lib r)
      (λ k. with_keys lib rs >>= λ rest. ok ((k, r) ∷ rest))
      (λ k _.
        Returns-bind _ (λ keyed. map (λ (x : Created × Task). x.1) keyed ≡ r ∷ rs)
          (with_keys lib rs) (λ rest. ok ((k, r) ∷ rest)) (with_keys-Records lib rs)
          (λ rest _ same. ap (λ qs. r ∷ qs) same))

AllEntries-values :
    (P : Task → Type 0) (d : Dict String Task)
    → Dict.AllEntries (λ _ q. P q) d
    → Every P (Dict.values d)
AllEntries-values P [] h = tt
AllEntries-values P ((k, q) ∷ d) (p, h) = (p, AllEntries-values P d h)

module _ (lib : Stdlib) (tasks : Dict String Task) (r : Task) where
  abbrev same_channel : Task → Bool
  same_channel q = q.execution_channel_id == r.execution_channel_id

  -- The latest of the tasks in the channel, by its identifier.
  abbrev IsLatest : Task → Type 0
  IsLatest q = Every (λ p. IsEarlier lib p q) (filter same_channel (Dict.values tasks))

  latest-IsLatest :
      (keyed : List (Created × Task)) (k : Created) (q : Task)
      → map (λ (x : Created × Task). x.1) keyed ≡ filter same_channel (Dict.values tasks)
      → Every (IsKeyedBy lib) keyed
      → latest keyed ≡ some (k, q)
      → IsLatest q
  latest-IsLatest keyed k q these own found = rw⁻¹ these (
      fall-below lib k q keyed (latest-Every (IsKeyedBy lib) keyed (k, q) own found) own
        (latest-Under keyed (k, q) found))

  is_latest-split :
      (o : Option (Created × Task))
      → is_latest lib r o ≡ true
      → (r.state ≡ completed)
        × (r.continued_to_task_id ≡ none)
        × ((k : Created) × ((q : Task) × (o ≡ some (k, q)) × (q.task_id ≡ r.task_id)))
  is_latest-split none h = absurd (cc)
  is_latest-split (some (k, q)) h =
      let (both, open_end) = and_split _ _ h in
      let (own, done) = and_split _ _ both in
      (
        beq-eq r.state completed done,
        not_some r.continued_to_task_id open_end,
        (k, (q, refl, beq-eq q.task_id r.task_id own)),
      )

  -- A record that is stored.
  abbrev Stored : Task → Type 0
  Stored q = (k : String) × (Dict.get tasks k ≡ some q)

  values-Stored : Dict.IsUnique tasks → Every Stored (Dict.values tasks)
  values-Stored u =
      AllEntries-values Stored tasks
        (Dict.AllEntries-get (λ _ q. Stored q) tasks u (λ k q found. (k, found)))

  -- Of the stored tasks one alone has the identifier.
  Stored-same :
      (q : Task)
      → IsKeyed tasks
      → Dict.get tasks r.task_id ≡ some r
      → Stored q
      → q.task_id ≡ r.task_id
      → q ≡ r
  Stored-same q keyed here (k, found) own =
      let at_r : Dict.get tasks r.task_id ≡ some q =
        subst (λ j. Dict.get tasks j ≡ some q) (sym (keyed k q found) ∙ own) found in
      cc (at_r, here)

  -- A stored task that `can_continue` lets continue has completed, has no continuation, and no task of its
  -- channel was created after it.
  pub can_continue-Latest :
      IsSound lib tasks
      → Dict.get tasks r.task_id ≡ some r
      → can_continue lib tasks r ≡ ok true
      → (r.state ≡ completed)
        × (r.continued_to_task_id ≡ none)
        × Every (λ p. IsEarlier lib p r) (filter same_channel (Dict.values tasks))
  unfolding can_continue
  can_continue-Latest sound here done =
      elim (Result-cases (with_keys lib (filter same_channel (Dict.values tasks)))) [
        | inr (x, bad) ↦ absurd (cc (rw bad at done))
        | inl (keyed, made) ↦
            let chosen = filter same_channel (Dict.values tasks) in
            let (complete, open_end, (k, (q, found, own))) =
              is_latest-split (latest keyed) (cc (rw made at done)) in
            let these =
              Returns-eq _ (with_keys lib chosen) keyed (with_keys-Records lib chosen) made in
            let good =
              Returns-eq _ (with_keys lib chosen) keyed
                (with_keys-Returns lib Stored chosen (
                  Every-filter_of same_channel Stored (Dict.values tasks)
                    (values-Stored sound.unique)))
                made in
            let stored =
              latest-Every (λ (x : Created × Task). IsKeyedBy lib x × Stored x.1) keyed (k, q) good
                found in
            let last =
              latest-IsLatest keyed k q these (Every-imp _ (IsKeyedBy lib) keyed (λ x h. h.0) good)
                found in
            (complete, open_end, subst IsLatest (Stored-same q sound.keyed here stored.1 own) last)
      ]
