-- ===== src/Common/Json.antt =====
-- JSON values as Python's `json` reads them: an object is a dictionary in its order. Negative integers
-- and fractions are told apart from natural numbers only.
pub mod Sorted
use Prim.Native.Nat.{ℕ}
use Prim.Native.String.{String}
use mathlib.Core.Bool.{Bool, true, false, ◌&&◌}
use mathlib.Core.Option.{Option, none, some}
use mathlib.Core.List.{List, [], ◌∷◌, map}
use package.study_os_agent_gateway.Common.Tests.{if◌then◌else◌}
use package.study_os_agent_gateway.Common.Equality.{Eq, string_eq, ◌==◌}
use package.study_os_agent_gateway.Common.Seq.{all, all_distinct, member, find}
use package.study_os_agent_gateway.Common.Dict.{Dict}
use package.study_os_agent_gateway.Common.Dict
use package.study_os_agent_gateway.Common.Text.{text_leb}
use package.study_os_agent_gateway.Common.Outcome.{
  Result, ok, raise, or_raise, value_error, key_error, ◌>>=◌,
}

mutual
  pub data Json : Type 0 where
    null : Json
    boolean : Bool → Json
    integer : ℕ → Json
    other_number : Json
    text : String → Json
    array : Items → Json
    object : Fields → Json

  pub data Fields : Type 0 where
    no_fields : Fields
    field : String → Json → Fields → Fields

  pub data Items : Type 0 where
    no_items : Items
    item : Json → Items → Items

-- An object as a dictionary, and back.
abbrev pub entries : Fields → Dict String Json
entries no_fields = []
entries (field k v rest) = (k, v) ∷ entries rest

abbrev pub from_entries : Dict String Json → Fields
from_entries [] = no_fields
from_entries ((k, v) ∷ rest) = field k v (from_entries rest)

abbrev pub dict : Dict String Json → Json
dict d = object (from_entries d)

-- An array as a list, and back.
abbrev pub items : Items → List Json
items no_items = []
items (item x rest) = x ∷ items rest

abbrev pub from_items : List Json → Items
from_items [] = no_items
from_items (x ∷ rest) = item x (from_items rest)

abbrev pub list_of : {A : Type 0} → (A → Json) → List A → Json
list_of f xs = array (from_items (map f xs))

-- No object has a key twice.
unfoldable mutual
  pub has_unique_keys : Json → Bool
  has_unique_keys (object fs) = all_distinct (Dict.keys (entries fs)) && unique_in_fields fs
  has_unique_keys (array xs) = unique_in_items xs
  has_unique_keys j = true

  pub unique_in_fields : Fields → Bool
  unique_in_fields no_fields = true
  unique_in_fields (field k v rest) = has_unique_keys v && unique_in_fields rest

  pub unique_in_items : Items → Bool
  unique_in_items no_items = true
  unique_in_items (item x rest) = has_unique_keys x && unique_in_items rest

-- What `json.dumps(..., sort_keys=True)` writes: every object in the order of its keys.
abbrev pub insert_field : String → Json → Fields → Fields
insert_field k v no_fields = field k v no_fields
insert_field k v (field j w rest) =
    if text_leb k j then field k v (field j w rest) else field j w (insert_field k v rest)

unfoldable mutual
  pub sort_keys : Json → Json
  sort_keys null = null
  sort_keys (boolean b) = boolean b
  sort_keys (integer n) = integer n
  sort_keys other_number = other_number
  sort_keys (text s) = text s
  sort_keys (array xs) = array (sort_items xs)
  sort_keys (object fs) = object (sort_fields fs)

  pub sort_fields : Fields → Fields
  sort_fields no_fields = no_fields
  sort_fields (field k v rest) = insert_field k (sort_keys v) (sort_fields rest)

  pub sort_items : Items → Items
  sort_items no_items = no_items
  sort_items (item x rest) = item (sort_keys x) (sort_items rest)

-- `{key: f(value) for key, value in d.items()}`
abbrev pub encode_values : {V : Type 0} → (V → Json) → Dict String V → Dict String Json
encode_values f [] = []
encode_values f ((k, v) ∷ d) = (k, f v) ∷ encode_values f d

-- `None` or the value.
abbrev pub maybe : {A : Type 0} → (A → Json) → Option A → Json
maybe f none = null
maybe f (some a) = f a

-- The readers that the two documents share; every failure is a `ValueError`.
abbrev pub read_object : Json → Result (Dict String Json)
read_object (object fs) = ok (entries fs)
read_object j = raise value_error

abbrev pub read_integer : Json → Result ℕ
read_integer (integer n) = ok n
read_integer j = raise value_error

abbrev pub read_text : Json → Result String
read_text (text s) = ok s
read_text j = raise value_error

abbrev pub read_boolean : Json → Result Bool
read_boolean (boolean b) = ok b
read_boolean j = raise value_error

abbrev pub read_list : Json → Result (List Json)
read_list (array xs) = ok (items xs)
read_list j = raise value_error

-- `_strings`, of the entries.
abbrev pub text_before : Json → Result (List String) → Result (List String)
text_before (text s) (ok rest) = ok (s ∷ rest)
text_before (text s) (raise e) = raise e
text_before j rest = raise value_error

abbrev pub all_texts : List Json → Result (List String)
all_texts [] = ok []
all_texts (j ∷ rest) = text_before j (all_texts rest)

-- `tuple(f(value) for value in values)`
abbrev pub each : {A : Type 0} → (Json → Result A) → List Json → Result (List A)
each f [] = ok []
each f (j ∷ rest) = f j >>= λ a. each f rest >>= λ others. ok (a ∷ others)

abbrev pub some_of : {A : Type 0} → Result A → Result (Option A)
some_of (ok a) = ok (some a)
some_of (raise e) = raise e

abbrev pub read_optional : {A : Type 0} → (Json → Result A) → Json → Result (Option A)
read_optional f null = ok none
read_optional f j = some_of (f j)

-- `data[key]`
abbrev pub at_key : Dict String Json → String → Result Json
at_key d k = or_raise (Dict.get d k) key_error

-- `set(data) == expected`
abbrev pub has_keys : List String → Dict String Json → Bool
has_keys expected d =
    all (λ k. member k (Dict.keys d)) expected && all (λ k. member k expected) (Dict.keys d)

-- An enumeration from its value.
abbrev pub enum_from : {A : Type 0} → (A → String) → List A → String → Result A
enum_from value members s = or_raise (find (λ a. value a == s) members) value_error

abbrev pub read_enum : {A : Type 0} → (A → String) → List A → Json → Result A
read_enum value members j = read_text j >>= enum_from value members

-- A value under a key.
abbrev pub text_at : Dict String Json → String → Result String
text_at fields k = at_key fields k >>= read_text

abbrev pub boolean_at : Dict String Json → String → Result Bool
boolean_at fields k = at_key fields k >>= read_boolean

abbrev pub list_at : Dict String Json → String → Result (List Json)
list_at fields k = at_key fields k >>= read_list

abbrev pub texts_at : Dict String Json → String → Result (List String)
texts_at fields k = list_at fields k >>= all_texts

abbrev pub integer_at : Dict String Json → String → Result ℕ
integer_at fields k = at_key fields k >>= read_integer

abbrev pub optional_at :
    {A : Type 0} → (Json → Result A) → Dict String Json → String → Result (Option A)
optional_at f fields k = at_key fields k >>= read_optional f
