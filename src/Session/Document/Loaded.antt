-- ===== src/Session/Document/Loaded.antt =====
-- Whatever the file holds, what `_read` returns passed the constructor and stands under a channel.
use study_os_agent_gateway.Common.{
  ℕ, String, ◌≡◌, sym, ap, subst, ◌∙◌, inl, inr, true, not, Option, none, some, [], ◌∷◌, arith,
  if◌then◌else◌, Bool-cases, all, Result, raise_if, or_raise, Returns, Returns-intro, ◌>>=◌,
  Returns-bind, Returns-then, value_error, runtime_error, ok, string_eq, nat_eq,
}
use study_os_agent_gateway.Common.Json.{Json, at_key, has_keys}
use study_os_agent_gateway.Session.Document.{
  object_of, session_text, is_null_or_text, decode_binding, binding_keys, File, decode_sessions,
  read_sessions, decode_current, is_schema_version, decode_legacy, decode_each, positive_key,
  decode_legacy_binding, legacy_session, channel_key,
}
use study_os_agent_gateway.Session.Binding.{
  ChannelSessionBinding, is_valid_binding, bare_session, checked_binding, SessionLib,
}
use study_os_agent_gateway.Common.Dict.{Dict}
use study_os_agent_gateway.Common.Dict

module _ (lib : SessionLib) where
  -- Keys and bindings that `_read` accepts.
  abbrev pub IsKept : Dict String ChannelSessionBinding → Type 0
  IsKept d =
      (k : String) (b : ChannelSessionBinding)
      → Dict.get d k ≡ some b
      → (channel_key lib k ≡ ok k) × (is_valid_binding lib b ≡ true)

  abbrev pub IsLoadedSessions : Dict String ChannelSessionBinding → Type 0
  IsLoadedSessions d = Dict.IsUnique d × IsKept d

  pub IsKept-set :
      (d : Dict String ChannelSessionBinding) (k : String) (b : ChannelSessionBinding)
      → IsKept d
      → channel_key lib k ≡ ok k
      → is_valid_binding lib b ≡ true
      → IsKept (Dict.set d k b)
  IsKept-set d k b h key good j c found = elim (Dict.get-set-cases d k b j c found) [
    | inl (same, is) ↦ (
      subst (λ i. channel_key lib i ≡ ok i) same key,
      subst (λ v. is_valid_binding lib v ≡ true) (sym is) good,
    )
    | inr (other, before) ↦ h j c before
  ]

  positive_key-same :
      (k : String) (o : Option ℕ) (key : String) → positive_key lib k o ≡ ok key → key ≡ k
  positive_key-same k none key h = absurd (cc h)
  positive_key-same k (some n) key h = ground arith

  channel_key-same : (k key : String) → channel_key lib k ≡ ok key → key ≡ k
  unfolding channel_key
  channel_key-same k key h = elim (Bool-cases (lib.is_digit k)) [
    | inl digits ↦ positive_key-same k (lib.int_of k) key (rw digits at h)
    | inr other ↦ absurd (cc (rw other at h))
  ]

  channel_key-Returns :
      (k : String) → Returns (λ key. channel_key lib key ≡ ok key) (channel_key lib k)
  channel_key-Returns k =
      Returns-intro (λ key. channel_key lib key ≡ ok key) (channel_key lib k)
        (λ key h.
          subst (λ i. channel_key lib i ≡ ok i) (sym (channel_key-same k key h))
            (h ∙ ap ok (channel_key-same k key h)))

  abbrev IsValid : ChannelSessionBinding → Type 0
  IsValid b = is_valid_binding lib b ≡ true

  checked_binding-Returns : (b : ChannelSessionBinding) → Returns IsValid (checked_binding lib b)
  unfolding checked_binding
  checked_binding-Returns b = elim (Bool-cases (is_valid_binding lib b)) [
    | inl good ↦ rw good good
    | inr bad ↦ rw bad tt
  ]

  decode_legacy_binding-Returns : (j : Json) → Returns IsValid (decode_legacy_binding lib j)
  unfolding decode_legacy_binding
  decode_legacy_binding-Returns j =
      Returns-then IsValid (legacy_session j) _ (λ s _. checked_binding-Returns (bare_session s))

  decode_each-Returns :
      (one : Json → Result ChannelSessionBinding) (payload : Dict String Json)
      (result : Dict String ChannelSessionBinding)
      → ((j : Json) → Returns IsValid (one j))
      → IsLoadedSessions result
      → Returns IsLoadedSessions (decode_each lib one payload result)
  unfolding decode_each
  decode_each-Returns one [] result good h = h
  decode_each-Returns one ((k, j) ∷ rest) result good (u, h) =
      Returns-bind (λ key. channel_key lib key ≡ ok key) IsLoadedSessions (channel_key lib k) _
        (channel_key-Returns k)
        (λ key _ is_key. Returns-bind IsValid IsLoadedSessions (one j) _ (good j) (λ b _ valid.
          decode_each-Returns one rest (Dict.set result key b) good
            (Dict.IsUnique-set result key b u, IsKept-set result key b h is_key valid)))

  nothing-IsLoadedSessions : IsLoadedSessions []
  unfolding Dict.get
  nothing-IsLoadedSessions = (tt, λ k b found. absurd (cc found))

  decode_binding-Returns : (j : Json) → Returns IsValid (decode_binding lib j)
  unfolding decode_binding
  decode_binding-Returns j = Returns-then IsValid (object_of j) _ (λ values _.
      Returns-then IsValid (raise_if (not (has_keys binding_keys values)) runtime_error) _ (λ _ _.
        Returns-then IsValid
          (raise_if (not (all is_null_or_text (Dict.values values))) runtime_error) _
          (λ _ _. Returns-then IsValid (at_key values "session_id" >>= session_text) _ (λ s _.
            Returns-then IsValid (at_key values "policy_class") _ (λ p _.
              Returns-then IsValid (at_key values "policy_fingerprint") _ (λ f _.
                Returns-then IsValid (at_key values "repository_full_name") _ (λ r _.
                  Returns-then IsValid (at_key values "commit_sha") _ (λ c _.
                    Returns-then IsValid (at_key values "workspace_path") _
                      (λ w _. search checked_binding-Returns)))))))))

  payload-Returns :
      (payload : Dict String Json)
      → Returns IsLoadedSessions (
          if has_keys ("version" ∷ "sessions" ∷ []) payload
          then decode_current lib payload
          else decode_legacy lib payload)
  unfolding decode_sessions decode_legacy
  payload-Returns payload = elim (Bool-cases (has_keys ("version" ∷ "sessions" ∷ []) payload)) [
    | inl current ↦ rw current (
        Returns-then IsLoadedSessions (at_key payload "version") _ (λ version _.
          Returns-then IsLoadedSessions
            (raise_if (not (is_schema_version lib version)) runtime_error) _
            (λ _ _.
              Returns-then IsLoadedSessions (at_key payload "sessions" >>= object_of) _
                (λ sessions _.
                  decode_each-Returns (decode_binding lib) sessions [] decode_binding-Returns
                    nothing-IsLoadedSessions))))
    | inr legacy ↦ rw legacy (
        decode_each-Returns (decode_legacy_binding lib) payload [] decode_legacy_binding-Returns
          nothing-IsLoadedSessions)
  ]

  -- Whatever the file holds, of the present version or of the one before, each session that `_read` returns
  -- stands once, under the number of a channel, and passes the checks of its constructor.
  pub read_sessions-Loaded : (file : File) → Returns IsLoadedSessions (read_sessions lib file)
  unfolding read_sessions
  read_sessions-Loaded none = nothing-IsLoadedSessions
  read_sessions-Loaded (some document) =
      Returns-then IsLoadedSessions (or_raise document value_error >>= object_of) _
        (λ payload _. payload-Returns payload)
