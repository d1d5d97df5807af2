-- ===== src/Session/Binding.antt =====
-- The record of a session, and of the restricted session of a repository: session_store.py, class
-- `ChannelSessionBinding`.
use study_os_agent_gateway.Common.{
  ℕ, String, Bool, true, false, not, ◌&&◌, Option, none, some, List, [], ◌∷◌, if◌then◌else◌,
  string_eq, bool_eq, nat_eq, ◌==◌, option_eq, list_eq, member, is_hex_of_length, is_hex_between,
  is_name_behind, Result, value_error, ok, raise,
}
use study_os_agent_gateway.Common.Json.{Json}
use Prim.Native.String.{count}

-- What the store calls: `Path(value).is_absolute()`, `str(number)`, `value.isdigit()`, `int(value)`, which may
-- raise, and what `json.loads` reads off the file that was written with `json.dumps(..., sort_keys=True)`, which
-- is none where it raises.
pub record SessionLib : Type 0 where
  pub is_absolute : String → Bool
  pub str_int : ℕ → String
  pub is_digit : String → Bool
  pub int_of : String → Option ℕ
  pub written : Json → Option Json
  -- Whether the number of the file that is not a natural number equals 2, as 2.0 does.
  pub other_number_is_two : Bool

pub record ChannelSessionBinding : Type 0 where
  pub session_id : String
  pub policy_class : Option String
  pub policy_fingerprint : Option String
  pub repository_full_name : Option String
  pub commit_sha : Option String
  pub workspace_path : Option String

-- `_POLICY_CLASSES`
abbrev pub policy_classes : List String
policy_classes = "review" ∷ "security_review" ∷ "vulnerability_scan" ∷ "implementation" ∷ []

-- `ChannelSessionBinding(session_id)`
abbrev pub bare_session : String → ChannelSessionBinding
bare_session id = record {
  session_id = id;
  policy_class = none;
  policy_fingerprint = none;
  repository_full_name = none;
  commit_sha = none;
  workspace_path = none;
}

module _ (lib : SessionLib) where
  -- The checks on the metadata: all of it, or none.
  abbrev pub has_valid_metadata :
      Option String → Option String → Option String → Option String → Option String → Bool
  has_valid_metadata none none none none none = true
  has_valid_metadata (some policy) (some fingerprint) (some repository) (some commit) (some path) =
      member policy policy_classes
      && is_hex_of_length 64 fingerprint
      && is_name_behind "Tue-StudyOS/" repository
      && is_hex_between 40 64 commit
      && lib.is_absolute path
  has_valid_metadata policy fingerprint repository commit path = false

  unfoldable pub is_valid_binding : ChannelSessionBinding → Bool
  is_valid_binding b =
      not (count b.session_id == 0)
      && has_valid_metadata b.policy_class b.policy_fingerprint b.repository_full_name b.commit_sha
          b.workspace_path

  -- `__post_init__`
  unfoldable pub checked_binding : ChannelSessionBinding → Result ChannelSessionBinding
  unfolding is_valid_binding
  checked_binding b = if is_valid_binding b then ok b else raise value_error
