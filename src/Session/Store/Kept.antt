-- ===== src/Session/Store/Kept.antt =====
-- What `set_binding` leaves in the file.
use study_os_agent_gateway.Common.{
  ℕ, String, ◌≡◌, refl, sym, ap, subst, ◌∙◌, ◌⊎◌, inl, inr, true, false, some, if◌then◌else◌,
  Bool-cases, string_eq, bool_eq, nat_eq, ◌==◌, option_eq, beq_self, beq-eq, ne_beq, list_eq,
  Returns-eq, Result-cases, Raises, ok,
}
use study_os_agent_gateway.Common.Method.{return, check, fail_if, ◌>>=◌}
use study_os_agent_gateway.Session.Document.Loaded.{
  IsKept-set, read_sessions-Loaded, IsLoadedSessions,
}
use study_os_agent_gateway.Session.Document.RoundTrip.{read_sessions-written, LawfulSessions}
use study_os_agent_gateway.Session.Store.{set_binding, get_binding, write_sessions, Write}
use study_os_agent_gateway.Session.Document.{channel_key, encode_sessions, read_sessions, File}
use study_os_agent_gateway.Session.Binding.{is_valid_binding, SessionLib, ChannelSessionBinding}
use study_os_agent_gateway.Common.Dict.{Dict}
use study_os_agent_gateway.Common.Dict

module _ (lib : SessionLib) (law : LawfulSessions lib) where
  str_int-beq : (n m : ℕ) → (lib.str_int n == lib.str_int m) ≡ (n == m)
  str_int-beq n m = elim (Bool-cases (n == m)) [
    | inl eq ↦
        rw eq (
          ap (λ i. lib.str_int n == lib.str_int i) (sym (beq-eq n m eq)) ∙ beq_self (lib.str_int n))
    | inr ne ↦ rw ne (
        ne_beq (lib.str_int n) (lib.str_int m) (λ same.
          let is : n ≡ m = cc (law.int_of-str_int n, law.int_of-str_int m, ap lib.int_of same) in
          cc (ne, ap (λ i. n == i) is, beq_self n)))
  ]

  channel_key-str_int :
      (n : ℕ) → (n == 0) ≡ false → channel_key lib (lib.str_int n) ≡ ok (lib.str_int n)
  unfolding channel_key
  channel_key-str_int n h = rw (law.is_digit-str_int n, law.int_of-str_int n, h) refl

  get_binding-read :
      (m : ℕ) (file : File) (d : Dict String ChannelSessionBinding)
      → read_sessions lib file ≡ ok d
      → (get_binding lib m file).0 ≡ ok (Dict.get d (lib.str_int m))
  unfolding get_binding ◌>>=◌ check return
  get_binding-read m file d h = rw h refl

  get_binding-written :
      (n m : ℕ) (b : ChannelSessionBinding) (file : File) (d : Dict String ChannelSessionBinding)
      → read_sessions lib file ≡ ok d
      → (n == 0) ≡ false
      → is_valid_binding lib b ≡ true
      → (get_binding lib m (some (lib.written (encode_sessions (Dict.set d (lib.str_int n) b))))).0
        ≡ (if n == m then ok (some b) else (get_binding lib m file).0)
  get_binding-written n m b file d h positive good =
      let key = lib.str_int n in
      let (u, kept) =
        Returns-eq (IsLoadedSessions lib) (read_sessions lib file) d (read_sessions-Loaded lib file)
          h in
      let (loaded, is, same) = read_sessions-written lib (Dict.set d key b) law (
        Dict.IsUnique-set d key b u,
        IsKept-set lib d key b kept (channel_key-str_int n positive) good,
      ) in
      get_binding-read m _ loaded is
      ∙ ap ok (same (lib.str_int m) ∙ Dict.get-set d key (lib.str_int m) b)
      ∙ rw (str_int-beq n m) (elim (Bool-cases (n == m)) [
        | inl eq ↦ rw eq refl
        | inr ne ↦ rw ne (sym (get_binding-read m file d h))
      ])

  -- Either the call raised and left the file, or the file has what was there and the binding.
  set_binding-cases :
      (w : Write) (n m : ℕ) (b : ChannelSessionBinding) (file : File)
      → is_valid_binding lib b ≡ true
      → (((set_binding lib w n b file).1 ≡ file) × Raises (set_binding lib w n b file).0)
        ⊎ ((get_binding lib m (set_binding lib w n b file).1).0
            ≡ (if n == m then ok (some b) else (get_binding lib m file).0))
  unfolding set_binding ◌>>=◌ fail_if check write_sessions
  set_binding-cases w n m b file good = elim (Bool-cases (n == 0)) [
    | inl nothing ↦ inl (rw nothing (refl, tt))
    | inr positive ↦ elim (Result-cases (read_sessions lib file)) [
      | inr (e, h) ↦ inl (rw (positive, h) (refl, tt))
      | inl (d, h) ↦ elim (Bool-cases w.replaced) [
        | inl there ↦ inr (
            ap (λ f. (get_binding lib m f).0)
              (let is : (set_binding lib w n b file).1
                    ≡ some (lib.written (encode_sessions (Dict.set d (lib.str_int n) b))) =
                  rw (positive, h, there) refl in
                is)
            ∙ get_binding-written n m b file d h positive good)
        | inr kept ↦ inl (rw (positive, h, kept) (refl, tt))
      ]
    ]
  ]

-- After a call of `set_binding` that returned, `get_binding` gives the binding for its channel, and for another
-- channel what it gave or raised before, whatever version the file had.
pub set_binding-kept :
    (lib : SessionLib) (w : Write) (n m : ℕ) (b : ChannelSessionBinding) (file t : File)
    → LawfulSessions lib
    → is_valid_binding lib b ≡ true
    → set_binding lib w n b file ≡ (ok tt, t)
    → (get_binding lib m t).0 ≡ (if n == m then ok (some b) else (get_binding lib m file).0)
set_binding-kept lib w n m b file t law good done =
    elim (set_binding-cases lib law w n m b file good) [
      | inl (same, raises) ↦ absurd (subst (λ p. Raises p.0) done raises)
      | inr is ↦ ap (λ p. (get_binding lib m p.1).0) (sym done) ∙ is
    ]

-- Whether `set_binding` returns or raises, in its write too, the file is as before, or each channel has the
-- session that it had and the channel of the call the new one.
pub set_binding-atomic :
    (lib : SessionLib) (w : Write) (n m : ℕ) (b : ChannelSessionBinding) (file : File)
    → LawfulSessions lib
    → is_valid_binding lib b ≡ true
    → ((set_binding lib w n b file).1 ≡ file)
      ⊎ ((get_binding lib m (set_binding lib w n b file).1).0
          ≡ (if n == m then ok (some b) else (get_binding lib m file).0))
set_binding-atomic lib w n m b file law good = elim (set_binding-cases lib law w n m b file good) [
  | inl (same, raises) ↦ inl same
  | inr is ↦ inr is
]
