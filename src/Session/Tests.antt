-- ===== src/Session/Tests.antt =====
-- The store of sessions on concrete files, and the theorems there. The channel `n` is written with `n`
-- characters.
use study_os_agent_gateway.Common.{
  ℕ, zero, suc, String, ◌≡◌, refl, ap, ◌⊎◌, true, some, [], ◌∷◌, length, codes, Returns, ok,
  string_eq, nat_eq,
}
use study_os_agent_gateway.Common.Json.{text, dict, sort_keys}
use study_os_agent_gateway.Session.Document.Loaded.{read_sessions-Loaded, IsLoadedSessions}
use study_os_agent_gateway.Session.Document.RoundTrip.{LawfulSessions}
use study_os_agent_gateway.Session.Store.Kept.{set_binding-kept, set_binding-atomic}
use study_os_agent_gateway.Session.Store.{get_binding, set_binding, Write}
use study_os_agent_gateway.Session.Document.{encode_sessions, File, read_sessions}
use study_os_agent_gateway.Session.Binding.{bare_session, SessionLib, is_valid_binding}
use study_os_agent_gateway.Common.Dict

abbrev unary : ℕ → String
unary zero = String.[]
unary (suc n) = String.◌∷◌ "x" (unary n)

length-unary : (n : ℕ) → length (codes (unary n)) ≡ n
length-unary zero = refl
length-unary (suc n) = ap suc (length-unary n)

unfoldable files : SessionLib
files = record {
  is_absolute = λ s. true;
  str_int = unary;
  is_digit = λ s. true;
  int_of = λ s. some (length (codes s));
  written = λ j. some (sort_keys j);
  other_number_is_two = true;
}

files-Lawful : LawfulSessions files
unfolding files
files-Lawful = record {
  is_digit-str_int = λ n. refl;
  int_of-str_int = λ n. ap some (length-unary n);
  written-sorted = λ d u. refl;
}

-- A file of the version before, with a session for the channel 1.
abbrev legacy_file : File
legacy_file = some (some (dict (("x", text "old") ∷ [])))

abbrev write_through : Write
write_through = record { replaced = true; synced = true }

abbrev rebound_file : File
rebound_file = some (
    some
      (sort_keys (encode_sessions (("x", bare_session "old") ∷ ("xx", bare_session "new") ∷ []))))

new-valid : is_valid_binding files (bare_session "new") ≡ true
unfolding is_valid_binding files
new-valid = refl

set_binding-rebound :
    set_binding files write_through 2 (bare_session "new") legacy_file ≡ (ok tt, rebound_file)
unfolding set_binding files Dict.set
set_binding-rebound = refl

set_binding-kept_example :
    (get_binding files 1 rebound_file).0 ≡ (get_binding files 1 legacy_file).0
set_binding-kept_example =
    set_binding-kept files write_through 2 1 (bare_session "new") legacy_file rebound_file
      files-Lawful new-valid set_binding-rebound

set_binding-atomic_example :
    ((set_binding files write_through 2 (bare_session "new") legacy_file).1 ≡ legacy_file)
    ⊎ ((get_binding files 1
          (set_binding files write_through 2 (bare_session "new") legacy_file).1).0
        ≡ (get_binding files 1 legacy_file).0)
set_binding-atomic_example =
    set_binding-atomic files write_through 2 1 (bare_session "new") legacy_file files-Lawful
      new-valid

read_sessions-Loaded_example : Returns (IsLoadedSessions files) (read_sessions files legacy_file)
read_sessions-Loaded_example = read_sessions-Loaded files legacy_file
