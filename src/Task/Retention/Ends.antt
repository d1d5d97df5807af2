-- ===== src/Task/Retention/Ends.antt =====
-- The loops of retention end: their fuel is enough for every set of tasks.
use study_os_agent_gateway.Common.{
  ℕ, zero, suc, ◌+◌, ◌≤◌, String, ◌≡◌, refl, sym, subst, ◌∙◌, ◌⊎◌, inl, inr, true, false, Option,
  none, some, List, [], ◌∷◌, arith, Bool-cases, Option-cases, string_eq, bool_eq, nat_eq, ◌==◌,
  option_eq, beq_self, beq-eq, list_eq, length, member, all_distinct, Ends, Ends-bind, AllKeys,
  distinct_keys_fit, Returns, Returns-eq, Returns-map,
}
use mathlib.Core.Bool.{false≢true}
use study_os_agent_gateway.Common.Dict.{Dict}
use study_os_agent_gateway.Task.Failure.{retry_mode_eq, category_eq}
use study_os_agent_gateway.Task.State.{state_eq}
use study_os_agent_gateway.Task.Record.{Task, cause_eq, intent_eq, source_kind_eq}
use study_os_agent_gateway.Task.Retention.{components_from, explore, discard, visit}
use study_os_agent_gateway.Common.Dict

abbrev Work : Type 0
Work = List String × List String × List String

-- The keys that were taken from the worklist, those on it, and the component that has both.
record IsWork (done : List String) (w : Work) : Type 0 where
  done_once : all_distinct done ≡ true
  pending_once : all_distinct w.2 ≡ true
  apart : (x : String) → member x w.2 ≡ true → member x done ≡ false
  done_inside : (x : String) → member x done ≡ true → member x w.0 ≡ true
  pending_inside : (x : String) → member x w.2 ≡ true → member x w.0 ≡ true

not_inside :
    (x : String) (xs ys : List String)
    → ((z : String) → member z xs ≡ true → member z ys ≡ true)
    → member x ys ≡ false
    → member x xs ≡ false
not_inside x xs ys inside gone = elim (Bool-cases (member x xs)) [
  | inl here ↦ absurd (false≢true (sym gone ∙ inside x here))
  | inr away ↦ away
]

distinct_cons :
    (x : String) (xs : List String)
    → member x xs ≡ false
    → all_distinct xs ≡ true
    → all_distinct (x ∷ xs) ≡ true
distinct_cons x xs new u = rw new u

distinct_tail :
    (x : String) (xs : List String)
    → all_distinct (x ∷ xs) ≡ true
    → (member x xs ≡ false) × (all_distinct xs ≡ true)
distinct_tail x xs u = elim (Bool-cases (member x xs)) [
  | inl twice ↦ absurd (cc (rw twice at u))
  | inr new ↦ (new, rw new at u)
]

member-cases :
    (x y : String) (ys : List String) → member x (y ∷ ys) ≡ true → (y ≡ x) ⊎ (member x ys ≡ true)
member-cases x y ys h = elim (Bool-cases (y == x)) [
  | inl eq ↦ inl (beq-eq y x eq)
  | inr ne ↦ inr (rw ne at h)
]

member_here : (x : String) (xs : List String) → member x (x ∷ xs) ≡ true
member_here x xs = rw (beq_self x) refl

discard_shrinks : (id : String) (xs : List String) → length (discard id xs) ≤ length xs
discard_shrinks id [] = omega arith
discard_shrinks id (x ∷ xs) = elim (Bool-cases (x == id)) [
  | inl eq ↦ rw eq (omega (arith, discard_shrinks id xs))
  | inr ne ↦ rw ne (omega (arith, discard_shrinks id xs))
]

visit_shrinks : (o : Option String) (w : Work) → length (visit o w).1 ≤ length w.1
unfolding visit
visit_shrinks none (component, remaining, pending) = omega arith
visit_shrinks (some id) (component, remaining, pending) = elim (Bool-cases (member id component)) [
  | inl old ↦ rw old (omega arith)
  | inr new ↦ rw new (discard_shrinks id remaining)
]

member_later : (x y : String) (xs : List String) → member x xs ≡ true → member x (y ∷ xs) ≡ true
member_later x y xs h = ground arith

visit-IsWork :
    (done : List String) (o : Option String) (w : Work) → IsWork done w → IsWork done (visit o w)
unfolding visit
visit-IsWork done none (component, remaining, pending) h = h
visit-IsWork done (some id) (component, remaining, pending) h =
    elim (Bool-cases (member id component)) [
      | inl old ↦ rw old h
      | inr new ↦ rw new (record {
        done_once = h.done_once;
        pending_once =
            distinct_cons id pending (not_inside id pending component h.pending_inside new)
              h.pending_once;
        apart = λ x here. elim (member-cases x id pending here) [
          | inl same ↦
              subst (λ y. member y done ≡ false) same
                (not_inside id done component h.done_inside new)
          | inr later ↦ h.apart x later
        ];
        done_inside = λ x here. member_later x id component (h.done_inside x here);
        pending_inside = λ x here. elim (member-cases x id pending here) [
          | inl same ↦ subst (λ y. member y (id ∷ component) ≡ true) same (member_here id component)
          | inr later ↦ member_later x id component (h.pending_inside x later)
        ];
      })
    ]

take-IsWork :
    (done component remaining pending : List String) (id : String)
    → IsWork done (component, remaining, id ∷ pending)
    → IsWork (id ∷ done) (component, remaining, pending)
take-IsWork done component remaining pending id h = record {
  done_once = distinct_cons id done (h.apart id (member_here id pending)) h.done_once;
  pending_once = (distinct_tail id pending h.pending_once).1;
  apart = λ x here. elim (Bool-cases (id == x)) [
    | inl eq ↦ absurd (
        false≢true (
          sym (distinct_tail id pending h.pending_once).0
          ∙ subst (λ y. member y pending ≡ true) (sym (beq-eq id x eq)) here))
    | inr ne ↦ rw ne (h.apart x (member_later x id pending here))
  ];
  done_inside = λ x here. elim (member-cases x id done here) [
    | inl same ↦
        subst (λ y. member y component ≡ true) same (h.pending_inside id (member_here id pending))
    | inr before ↦ h.done_inside x before
  ];
  pending_inside = λ x here. h.pending_inside x (member_later x id pending here);
}

module _ (tasks : Dict String Task) where
  -- The inner loop, with what its remaining list can be.
  explore-Ends :
      (fuel : ℕ) (done : List String) (w : Work)
      → IsWork done w
      → AllKeys tasks done
      → suc (length tasks) ≤ fuel + length done
      → Ends (explore fuel tasks w)
  unfolding explore
  explore-Ends fuel done (component, remaining, []) h known enough = tt
  explore-Ends zero done (component, remaining, id ∷ pending) h known enough =
      absurd (omega (arith, distinct_keys_fit tasks done h.done_once known))
  explore-Ends (suc fuel) done (component, remaining, id ∷ pending) h known enough =
      elim (Option-cases (Dict.get tasks id)) [
        | inl nothing ↦ rw (nothing, Ends) (λ eq. cc)
        | inr (r, found) ↦
            rw (found, Ends)
              (let taken = take-IsWork done component remaining pending id h in
                explore-Ends fuel (id ∷ done)
                  (visit r.continued_to_task_id
                    (visit r.continued_from_task_id (component, remaining, pending)))
                  (visit-IsWork (id ∷ done) r.continued_to_task_id _ (
                    visit-IsWork (id ∷ done) r.continued_from_task_id
                      (component, remaining, pending) taken))
                  (rw found refl, known) (omega (arith, enough)))
      ]

  explore_shrinks :
      (fuel : ℕ) (w : Work) → Returns (λ left. length left.1 ≤ length w.1) (explore fuel tasks w)
  unfolding explore
  explore_shrinks fuel (component, remaining, []) = omega arith
  explore_shrinks zero (component, remaining, id ∷ pending) = tt
  explore_shrinks (suc fuel) (component, remaining, id ∷ pending) =
      elim (Option-cases (Dict.get tasks id)) [
        | inl nothing ↦ rw (nothing, Returns) tt
        | inr (r, found) ↦
            let first = visit r.continued_from_task_id (component, remaining, pending) in
            let both = visit r.continued_to_task_id first in
            rw (found, Returns)
              (Returns-map (λ left. length left.1 ≤ length both.1) _ (explore fuel tasks both)
                (λ left h. omega (
                  arith,
                  h,
                  visit_shrinks r.continued_to_task_id first,
                  visit_shrinks r.continued_from_task_id (component, remaining, pending),
                ))
                (explore_shrinks fuel both))
      ]

  first-IsWork : (id : String) (remaining : List String) → IsWork [] (id ∷ [], remaining, id ∷ [])
  first-IsWork id remaining = record {
    done_once = refl;
    pending_once = refl;
    apart = λ x here. refl;
    done_inside = λ x here. absurd (cc here);
    pending_inside = λ x here. here;
  }

  pub components_from-Ends :
      (fuel : ℕ) (remaining : List String)
      → length remaining ≤ fuel
      → Ends (components_from fuel tasks remaining)
  unfolding components_from
  components_from-Ends fuel [] enough = tt
  components_from-Ends zero (id ∷ remaining) enough = absurd (omega (arith, enough))
  components_from-Ends (suc fuel) (id ∷ remaining) enough =
      let w : Work = (id ∷ [], remaining, id ∷ []) in
      Ends-bind (explore (suc (length tasks)) tasks w) _
        (explore-Ends (suc (length tasks)) [] w (first-IsWork id remaining) tt (omega arith))
        (λ (component, left) found.
          let fewer =
            Returns-eq (λ left. length left.1 ≤ length w.1) (explore (suc (length tasks)) tasks w)
              (component, left) (explore_shrinks (suc (length tasks)) w) found in
          Ends-bind (components_from fuel tasks left) _
            (components_from-Ends fuel left (omega (arith, enough, fewer))) (λ rest _. tt))
