-- ===== src/Session/Document/RoundTrip.antt =====
-- What `_write` writes is what `_read` reads.
use study_os_agent_gateway.Common.{
  ℕ, String, ◌≡◌, refl, sym, ap, ◌∙◌, true, Option, none, some, [], ◌∷◌, ok, string_eq, nat_eq,
}
use study_os_agent_gateway.Common.Json.{text, sort_keys, maybe, encode_values}
use study_os_agent_gateway.Common.Dict.{Dict}
use study_os_agent_gateway.Common.Json.Sorted.{
  sort_entries, get-sort_entries, IsUnique-sort_entries, sort_fields-encode_values,
  entries-from_entries,
}
use study_os_agent_gateway.Common.Dict.{Dict}
use study_os_agent_gateway.Session.Document.Loaded.{IsLoadedSessions}
use study_os_agent_gateway.Session.Document.{
  is_null_or_text, decode_binding, optional_string, decode_sessions, read_sessions, encode_binding,
  decode_each, encode_sessions, channel_key,
}
use study_os_agent_gateway.Session.Binding.{
  is_valid_binding, ChannelSessionBinding, checked_binding, SessionLib,
}
use study_os_agent_gateway.Common.Dict

-- An optional text, sorted and read.
text_back : (o : Option String) → optional_string (sort_keys (maybe text o)) ≡ o
unfolding sort_keys
text_back none = refl
text_back (some s) = refl

text_fits : (o : Option String) → is_null_or_text (sort_keys (maybe text o)) ≡ true
unfolding sort_keys
text_fits none = refl
text_fits (some s) = refl

-- What the code relies on: a number is written in digits, and read as it was; a document of sessions
-- is read as it was written, in the order of its keys.
pub record LawfulSessions (lib : SessionLib) : Type 0 where
  pub is_digit-str_int : (n : ℕ) → lib.is_digit (lib.str_int n) ≡ true
  pub int_of-str_int : (n : ℕ) → lib.int_of (lib.str_int n) ≡ some n
  pub written-sorted :
      (d : Dict String ChannelSessionBinding)
      → Dict.IsUnique d
      → lib.written (encode_sessions d) ≡ some (sort_keys (encode_sessions d))

module _ (lib : SessionLib) where
  decode_binding-sorted :
      (b : ChannelSessionBinding)
      → is_valid_binding lib b ≡ true
      → decode_binding lib (sort_keys (encode_binding b)) ≡ ok b
  unfolding decode_binding sort_keys encode_binding checked_binding Dict.get
  decode_binding-sorted b good =
      rw
        (
          text_fits b.policy_class,
          text_fits b.policy_fingerprint,
          text_fits b.repository_full_name,
          text_fits b.commit_sha,
          text_fits b.workspace_path,
          text_back b.policy_class,
          text_back b.policy_fingerprint,
          text_back b.repository_full_name,
          text_back b.commit_sha,
          text_back b.workspace_path,
          good,
        )
        refl

  abbrev IsAccepted : Dict String ChannelSessionBinding → Type 0
  IsAccepted d =
      Dict.AllEntries (λ k b. (channel_key lib k ≡ ok k) × (is_valid_binding lib b ≡ true)) d

  decode_each-set_all :
      (d result : Dict String ChannelSessionBinding)
      → IsAccepted d
      → decode_each lib
          (decode_binding lib)
          (encode_values (λ b. sort_keys (encode_binding b)) d)
          result
        ≡ ok (Dict.set_all d result)
  unfolding decode_each
  decode_each-set_all [] result h = refl
  decode_each-set_all ((k, b) ∷ d) result ((key, good), h) =
      rw (key, decode_binding-sorted b good) (decode_each-set_all d (Dict.set result k b) h)

  read_sessions-sorted :
      (d : Dict String ChannelSessionBinding)
      → IsAccepted (sort_entries d)
      → read_sessions lib (some (some (sort_keys (encode_sessions d))))
        ≡ ok (Dict.set_all (sort_entries d) [])
  unfolding read_sessions encode_sessions sort_keys decode_sessions Dict.get
  read_sessions-sorted d h =
      rw
        (
          sort_fields-encode_values encode_binding d,
          entries-from_entries (encode_values (λ b. sort_keys (encode_binding b)) (sort_entries d)),
        )
        (decode_each-set_all (sort_entries d) [] h)

  -- What is read off the file that was written has the same session for each channel.
  pub read_sessions-written :
      (d : Dict String ChannelSessionBinding)
      → LawfulSessions lib
      → IsLoadedSessions lib d
      → (loaded : Dict String ChannelSessionBinding) × (read_sessions lib
            (some (lib.written (encode_sessions d)))
          ≡ ok loaded)
        × ((k : String) → Dict.get loaded k ≡ Dict.get d k)
  read_sessions-written d law (u, h) =
      let sorted = sort_entries d in
      let unique = IsUnique-sort_entries d u in
      let accepted : IsAccepted sorted =
        Dict.AllEntries-get (λ k b. (channel_key lib k ≡ ok k) × (is_valid_binding lib b ≡ true))
          sorted unique (λ k b found. h k b (sym (get-sort_entries d k u) ∙ found)) in
      (
        Dict.set_all sorted [],
        ap (λ j. read_sessions lib (some j)) (law.written-sorted d u)
            ∙ read_sessions-sorted d accepted,
        λ k. Dict.get-set_all_nothing sorted k unique ∙ get-sort_entries d k u,
      )
