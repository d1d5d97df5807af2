-- ===== src/Session/Document.antt =====
-- The document of the sessions: session_store.py, `_read`, what it calls, and what `_write` writes.
-- The file is what `json.loads` reads off it, in `some`, if it is there.
pub mod Loaded
use study_os_agent_gateway.Common.{
  ℕ, String, Bool, true, false, not, Option, none, some, List, [], ◌∷◌, if◌then◌else◌, string_eq,
  bool_eq, nat_eq, ◌==◌, option_eq, list_eq, all, Result, raise_if, or_raise, ◌>>=◌, ◌>>◌,
  value_error, runtime_error, ok, raise,
}
use study_os_agent_gateway.Common.Json.{
  Json, null, integer, other_number, text, object, entries, dict, maybe, at_key, has_keys,
  encode_values,
}
use Prim.Native.String.{count}
pub mod RoundTrip
use study_os_agent_gateway.Session.Binding.{
  SessionLib, checked_binding, bare_session, ChannelSessionBinding,
}
use study_os_agent_gateway.Common.Dict.{Dict}
use study_os_agent_gateway.Common.Dict

abbrev pub File : Type 0
File = Option (Option Json)

abbrev pub binding_keys : List String
binding_keys =
    "session_id" ∷ "policy_class" ∷ "policy_fingerprint" ∷ "repository_full_name" ∷ "commit_sha"
    ∷ "workspace_path" ∷ []

-- `asdict(binding)`
unfoldable pub encode_binding : ChannelSessionBinding → Json
encode_binding b = dict (
    ("session_id", text b.session_id)
    ∷ ("policy_class", maybe text b.policy_class)
    ∷ ("policy_fingerprint", maybe text b.policy_fingerprint)
    ∷ ("repository_full_name", maybe text b.repository_full_name)
    ∷ ("commit_sha", maybe text b.commit_sha)
    ∷ ("workspace_path", maybe text b.workspace_path)
    ∷ [])

-- The document that `_write` writes.
unfoldable pub encode_sessions : Dict String ChannelSessionBinding → Json
unfolding encode_binding
encode_sessions bindings =
    dict (("version", integer 2) ∷ ("sessions", dict (encode_values encode_binding bindings)) ∷ [])

-- `_optional_string`
abbrev pub optional_string : Json → Option String
optional_string (text s) = some s
optional_string j = none

abbrev pub is_null_or_text : Json → Bool
is_null_or_text null = true
is_null_or_text (text s) = true
is_null_or_text j = false

abbrev pub session_text : Json → Result String
session_text (text s) = ok s
session_text j = raise runtime_error

-- `_decode_legacy`, of one value.
abbrev pub legacy_session : Json → Result String
legacy_session (text s) = if count s == 0 then raise runtime_error else ok s
legacy_session j = raise runtime_error

-- A JSON object, where the code raises a `RuntimeError` otherwise.
abbrev pub object_of : Json → Result (Dict String Json)
object_of (object fs) = ok (entries fs)
object_of j = raise runtime_error

module _ (lib : SessionLib) where
  -- `version == 2`
  abbrev pub is_schema_version : Json → Bool
  is_schema_version (integer n) = n == 2
  is_schema_version other_number = lib.other_number_is_two
  is_schema_version j = false

  -- `_channel_key`
  abbrev pub positive_key : String → Option ℕ → Result String
  positive_key k none = raise value_error
  positive_key k (some n) = if n == 0 then raise runtime_error else ok k

  unfoldable pub channel_key : String → Result String
  channel_key k = if lib.is_digit k then positive_key k (lib.int_of k) else raise runtime_error

  -- The loop of `_decode_sessions`.
  unfoldable pub decode_binding : Json → Result ChannelSessionBinding
  unfolding checked_binding
  decode_binding j = do
    values ← object_of j
    raise_if (not (has_keys binding_keys values)) runtime_error
    raise_if (not (all is_null_or_text (Dict.values values))) runtime_error
    session_id ← at_key values "session_id" >>= session_text
    policy ← at_key values "policy_class"
    fingerprint ← at_key values "policy_fingerprint"
    repository ← at_key values "repository_full_name"
    commit ← at_key values "commit_sha"
    path ← at_key values "workspace_path"
    checked_binding lib (record {
      session_id = session_id;
      policy_class = optional_string policy;
      policy_fingerprint = optional_string fingerprint;
      repository_full_name = optional_string repository;
      commit_sha = optional_string commit;
      workspace_path = optional_string path;
    })

  unfoldable pub decode_legacy_binding : Json → Result ChannelSessionBinding
  unfolding checked_binding
  decode_legacy_binding j = legacy_session j >>= λ s. checked_binding lib (bare_session s)

  -- A dictionary of bindings, with what reads one.
  unfoldable pub decode_each :
      (Json → Result ChannelSessionBinding)
      → Dict String Json
      → Dict String ChannelSessionBinding
      → Result (Dict String ChannelSessionBinding)
  unfolding channel_key
  decode_each one [] result = ok result
  decode_each one ((k, j) ∷ rest) result = do
    key ← channel_key k
    b ← one j
    decode_each one rest (Dict.set result key b)

  -- `_decode_sessions` and `_decode_legacy`
  unfoldable pub decode_sessions : Dict String Json → Result (Dict String ChannelSessionBinding)
  unfolding decode_each decode_binding
  decode_sessions payload = decode_each decode_binding payload []

  unfoldable pub decode_legacy : Dict String Json → Result (Dict String ChannelSessionBinding)
  unfolding decode_each decode_legacy_binding
  decode_legacy payload = decode_each decode_legacy_binding payload []

  -- `_read`
  abbrev pub decode_current : Dict String Json → Result (Dict String ChannelSessionBinding)
  decode_current payload = do
    version ← at_key payload "version"
    raise_if (not (is_schema_version version)) runtime_error
    sessions ← at_key payload "sessions" >>= object_of
    decode_sessions sessions

  unfoldable pub read_sessions : File → Result (Dict String ChannelSessionBinding)
  unfolding decode_sessions decode_legacy
  read_sessions none = ok []
  read_sessions (some document) = do
    payload ← or_raise document value_error >>= object_of
    (if has_keys ("version" ∷ "sessions" ∷ []) payload
        then decode_current payload
        else decode_legacy payload)
