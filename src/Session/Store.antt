-- ===== src/Session/Store.antt =====
-- The store of sessions: session_store.py, class `ChannelSessionStore`.
pub mod Kept
use study_os_agent_gateway.Common.{
  ℕ, String, Bool, true, false, Option, none, some, if◌then◌else◌, string_eq, bool_eq, nat_eq, ◌==◌,
  option_eq, list_eq, Result, value_error, durability_error, os_error, ok, raise,
}
use study_os_agent_gateway.Session.Document.{read_sessions, encode_sessions, File}
use study_os_agent_gateway.Session.Binding.{
  SessionLib, checked_binding, bare_session, ChannelSessionBinding,
}
use study_os_agent_gateway.Common.Method.{Method, return, from, check, fail_if, ◌>>=◌, ◌>>◌}
use study_os_agent_gateway.Common.Dict.{Dict}
use study_os_agent_gateway.Common.Dict

-- What the outside does to one `write_document`: whether the new document replaced the old one, and
-- whether its directory was synced.
pub record Write : Type 0 where
  pub replaced : Bool
  pub synced : Bool

module _ (lib : SessionLib) where
  -- `_write`
  abbrev pub confirm_durability : Bool → Result (Unit {0})
  confirm_durability true = ok tt
  confirm_durability false = raise durability_error

  unfoldable pub write_sessions : Write → Dict String ChannelSessionBinding → Method File (Unit {0})
  unfolding encode_sessions
  write_sessions w bindings file =
      if w.replaced
      then (confirm_durability w.synced, some (lib.written (encode_sessions bindings)))
      else (raise os_error, file)

  -- `get_binding`, `get`, `set_binding` and `set`
  unfoldable pub get_binding : ℕ → Method File (Option ChannelSessionBinding)
  unfolding ◌>>=◌ read_sessions
  get_binding n =
      check (read_sessions lib) >>= λ bindings. return (Dict.get bindings (lib.str_int n))

  abbrev pub session_of : Option ChannelSessionBinding → Option String
  session_of none = none
  session_of (some b) = some b.session_id

  unfoldable pub get_session : ℕ → Method File (Option String)
  unfolding ◌>>=◌ get_binding
  get_session n = get_binding n >>= λ b. return (session_of b)

  unfoldable pub set_binding : Write → ℕ → ChannelSessionBinding → Method File (Unit {0})
  unfolding ◌>>=◌ read_sessions write_sessions
  set_binding w n b = do
    fail_if (n == 0) value_error
    bindings ← check (read_sessions lib)
    write_sessions w (Dict.set bindings (lib.str_int n) b)

  unfoldable pub set_session : Write → ℕ → String → Method File (Unit {0})
  unfolding ◌>>=◌ set_binding checked_binding
  set_session w n s = from (checked_binding lib (bare_session s)) >>= set_binding w n
