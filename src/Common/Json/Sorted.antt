-- ===== src/Common/Json/Sorted.antt =====
-- Sorting the keys of an object leaves what is found under each.
use mathlib.Core.Path.{◌≡◌, refl, ◌∙◌, ap}
use mathlib.Core.Logic.{inl, inr}
use mathlib.Core.Bool.{true, false}
use mathlib.Core.Option.{none, some}
use mathlib.Core.List.{[], ◌∷◌}
use native.Mathlib.Omega.{arith}
use Prim.Native.String.{String}
use package.study_os_agent_gateway.Common.Tests.{if◌then◌else◌, Bool-cases}
use package.study_os_agent_gateway.Common.Equality.{string_eq, ◌==◌}
use package.study_os_agent_gateway.Common.Dict.{Dict}
use package.study_os_agent_gateway.Common.Dict
use package.study_os_agent_gateway.Common.Seq.{member, all_distinct}
use package.study_os_agent_gateway.Common.Text.{text_leb}
use package.study_os_agent_gateway.Common.Json.{
  Json, field, entries, from_entries, encode_values, insert_field, sort_keys, sort_fields,
  has_unique_keys, unique_in_fields,
}

module _ {V : Type 0} where
  -- The order of the keys, on a dictionary.
  abbrev pub insert_entry : String → V → Dict String V → Dict String V
  insert_entry k v [] = (k, v) ∷ []
  insert_entry k v ((j, w) ∷ d) =
      let rest = insert_entry k v d in if text_leb k j then (k, v) ∷ (j, w) ∷ d else (j, w) ∷ rest

  abbrev pub sort_entries : Dict String V → Dict String V
  sort_entries [] = []
  sort_entries ((k, v) ∷ d) = insert_entry k v (sort_entries d)

  get-insert_entry :
      (k j : String) (v : V) (d : Dict String V)
      → Dict.get d k ≡ none
      → Dict.get (insert_entry k v d) j ≡ (if k == j then some v else Dict.get d j)
  unfolding Dict.get
  get-insert_entry k j v [] missing = refl
  get-insert_entry k j v ((i, w) ∷ d) missing = elim (Bool-cases (text_leb k i)) [
    | inl before ↦ rw before refl
    | inr after ↦ rw after (
        ground (
          arith,
          string_eq.same_iff k j,
          string_eq.same_iff i k,
          string_eq.same_iff i j,
          missing,
          get-insert_entry k j v d,
        ))
  ]

  pub get-sort_entries :
      (d : Dict String V) (j : String)
      → Dict.IsUnique d
      → Dict.get (sort_entries d) j ≡ Dict.get d j
  unfolding Dict.get
  get-sort_entries [] j u = refl
  get-sort_entries ((k, v) ∷ d) j (new, u) =
      get-insert_entry k j v (sort_entries d) (get-sort_entries d k u ∙ new)
      ∙ ap (λ o. if k == j then some v else o) (get-sort_entries d j u)

  missing_below :
      (k i : String) (w : V) (d : Dict String V)
      → Dict.get ((i, w) ∷ d) k ≡ none
      → ((i == k) ≡ false) × (Dict.get d k ≡ none)
  unfolding Dict.get
  missing_below k i w d missing = elim (Bool-cases (i == k)) [
    | inl eq ↦ absurd (cc (rw eq at missing))
    | inr ne ↦ (ne, rw ne at missing)
  ]

  IsUnique-insert_entry :
      (k : String) (v : V) (d : Dict String V)
      → Dict.get d k ≡ none
      → Dict.IsUnique d
      → Dict.IsUnique (insert_entry k v d)
  unfolding Dict.get
  IsUnique-insert_entry k v [] missing u = (refl, tt)
  IsUnique-insert_entry k v ((i, w) ∷ d) missing (new, u) = elim (Bool-cases (text_leb k i)) [
    | inl before ↦ rw before (missing, (new, u))
    | inr after ↦
        let (other_key, absent) = missing_below k i w d missing in
        rw after (
          ground (
            arith,
            get-insert_entry k i v d absent,
            string_eq.same_iff i k,
            string_eq.same_iff k i,
            new,
            other_key,
          ),
          IsUnique-insert_entry k v d absent u,
        )
  ]

  pub IsUnique-sort_entries : (d : Dict String V) → Dict.IsUnique d → Dict.IsUnique (sort_entries d)
  IsUnique-sort_entries [] u = tt
  IsUnique-sort_entries ((k, v) ∷ d) (new, u) =
      IsUnique-insert_entry k v (sort_entries d) (get-sort_entries d k u ∙ new)
        (IsUnique-sort_entries d u)

  -- An object that encodes a dictionary, sorted, is that of the sorted dictionary.
  entries-insert_field :
      (k : String) (v : V) (f : V → Json) (d : Dict String V)
      → insert_field k (f v) (from_entries (encode_values f d))
        ≡ from_entries (encode_values f (insert_entry k v d))
  entries-insert_field k v f [] = refl
  entries-insert_field k v f ((i, w) ∷ d) = elim (Bool-cases (text_leb k i)) [
    | inl before ↦ rw before refl
    | inr after ↦ rw after (ap (field i (f w)) (entries-insert_field k v f d))
  ]

  pub sort_fields-encode_values :
      (f : V → Json) (d : Dict String V)
      → sort_fields (from_entries (encode_values f d))
        ≡ from_entries (encode_values (λ v. sort_keys (f v)) (sort_entries d))
  unfolding sort_fields
  sort_fields-encode_values f [] = refl
  sort_fields-encode_values f ((k, v) ∷ d) =
      ap (insert_field k (sort_keys (f v))) (sort_fields-encode_values f d)
      ∙ entries-insert_field k v (λ w. sort_keys (f w)) (sort_entries d)

pub entries-from_entries : (d : Dict String Json) → entries (from_entries d) ≡ d
entries-from_entries [] = refl
entries-from_entries ((k, v) ∷ d) = ap (λ e. (k, v) ∷ e) (entries-from_entries d)

-- The keys of a dictionary are different.
missing-member :
    {V : Type 0} (d : Dict String V) (k : String)
    → Dict.get d k ≡ none
    → member k (Dict.keys d) ≡ false
unfolding Dict.get
missing-member [] k h = refl
missing-member ((j, v) ∷ d) k h =
    ground (arith, string_eq.same_iff j k, string_eq.same_iff k j, missing-member d k)

pub keys-encode_values :
    {V : Type 0} (f : V → Json) (d : Dict String V) → Dict.keys (encode_values f d) ≡ Dict.keys d
keys-encode_values f [] = refl
keys-encode_values f ((k, v) ∷ d) = ap (λ l. k ∷ l) (keys-encode_values f d)

pub IsUnique-keys :
    {V : Type 0} (d : Dict String V) → Dict.IsUnique d → all_distinct (Dict.keys d) ≡ true
IsUnique-keys [] u = refl
IsUnique-keys ((k, v) ∷ d) (new, u) = rw (missing-member d k new) (IsUnique-keys d u)

-- An object that encodes a dictionary has no key twice.
pub unique_in_fields-encode_values :
    {V : Type 0} (f : V → Json) (d : Dict String V)
    → ((v : V) → has_unique_keys (f v) ≡ true)
    → unique_in_fields (from_entries (encode_values f d)) ≡ true
unfolding unique_in_fields
unique_in_fields-encode_values f [] h = refl
unique_in_fields-encode_values f ((k, v) ∷ d) h = rw (h v) (unique_in_fields-encode_values f d h)
