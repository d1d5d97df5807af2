-- ===== src/Common/Text.antt =====
-- Tests on texts: regular expressions that are matched in full, and lengths in characters.
use Prim.Native.Nat.{ℕ, Ordering}
use Prim.Native.Char.{code}
use Prim.Native.String.{String, count, compare as compare_text}
use mathlib.Core.Bool.{Bool, true, false, not, ◌&&◌, ◌||◌}
use mathlib.Core.Option.{Option, none, some}
use mathlib.Core.List.{List, [], ◌∷◌}
use package.study_os_agent_gateway.Common.Tests.{leb, if◌then◌else◌}
use package.study_os_agent_gateway.Common.Equality.{◌==◌, nat_eq}
use package.study_os_agent_gateway.Common.Seq.{length, all}

-- `re.fullmatch(r"[0-9a-f]{n}", value)`.
abbrev pub codes : String → List ℕ
codes String.[] = []
codes (String.◌∷◌ c s) = code c ∷ codes s

is_lower_hex : ℕ → Bool
is_lower_hex c = (leb b'0' c && leb c b'9') || (leb b'a' c && leb c b'f')

unfoldable pub is_hex_of_length : ℕ → String → Bool
unfolding is_lower_hex
is_hex_of_length n value = all is_lower_hex (codes value) && (length (codes value) == n)

-- `re.fullmatch(r"[0-9a-f]{least,most}", value)`.
unfoldable pub is_hex_between : ℕ → ℕ → String → Bool
unfolding is_lower_hex
is_hex_between least most value =
    all is_lower_hex (codes value)
    && leb least (length (codes value))
    && leb (length (codes value)) most

-- `value is None or p(value)`.
abbrev pub optional {ℓ} : {A : Type ℓ} → (A → Bool) → Option A → Bool
optional p none = true
optional p (some a) = p a

-- `type(value) is int and value > 0`.
abbrev pub is_positive : ℕ → Bool
is_positive n = not (n == 0)

-- `not value or len(value) > maximum`, negated.
unfoldable pub is_bounded : String → ℕ → Bool
is_bounded value maximum = not (count value == 0) && leb (count value) maximum

-- `[A-Za-z0-9]`
abbrev is_alnum : ℕ → Bool
is_alnum c = (leb b'A' c && leb c b'Z') || (leb b'a' c && leb c b'z') || (leb b'0' c && leb c b'9')

-- `[A-Za-z0-9_-]`
abbrev is_token_char : ℕ → Bool
is_token_char c = is_alnum c || (c == b'_') || (c == b'-')

-- `[A-Za-z0-9_.-]+`
abbrev is_name_char : ℕ → Bool
is_name_char c = is_token_char c || (c == b'.')

is_name : List ℕ → Bool
is_name [] = false
is_name (c ∷ cs) = is_name_char c && all is_name_char cs

-- `re.fullmatch(prefix + r"[A-Za-z0-9._-]+", value)`.
is_name_after : List ℕ → List ℕ → Bool
unfolding is_name
is_name_after [] cs = is_name cs
is_name_after (p ∷ ps) [] = false
is_name_after (p ∷ ps) (c ∷ cs) = (p == c) && is_name_after ps cs

unfoldable pub is_name_behind : String → String → Bool
unfolding is_name_after
is_name_behind start value = is_name_after (codes start) (codes value)

-- The name before the slash, of which something has been read, and the name behind it.
is_owner_and_name : Bool → List ℕ → Bool
unfolding is_name
is_owner_and_name begun [] = false
is_owner_and_name begun (c ∷ cs) =
    let rest = is_owner_and_name true cs in
    if c == b'/' then begun && is_name cs else is_name_char c && rest

-- `_REPOSITORY`
unfoldable pub is_repository : String → Bool
unfolding is_owner_and_name
is_repository value = is_owner_and_name false (codes value)

-- `_LOGIN`
unfoldable pub is_login : List ℕ → Bool
is_login [] = false
is_login (c ∷ cs) = is_alnum c && all (λ d. is_alnum d || (d == b'-')) cs && leb (length cs) 38

-- `_DELIVERY_ID`
unfoldable pub is_delivery_id : List ℕ → Bool
is_delivery_id [] = false
is_delivery_id (c ∷ cs) =
    is_alnum c
    && all (λ d. is_alnum d || (d == b'.') || (d == b'_') || (d == b':') || (d == b'-')) cs
    && leb (length cs) 127

-- `_CARD_NONCE`
unfoldable pub is_card_nonce : List ℕ → Bool
is_card_nonce (g ∷ m ∷ colon ∷ rest) =
    (g == b'g') && (m == b'm') && (colon == b':') && all is_token_char rest && (length rest == 22)
is_card_nonce other = false

-- Python's order of texts, by code points.
abbrev pub text_leb : String → String → Bool
text_leb a b = elim (compare_text a b) [ Ordering.gt ↦ false | _ ↦ true ]
