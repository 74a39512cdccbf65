-- ===== src/Session/Resume.antt =====
-- How a session's history is recognised in internal/gateway/registry.go: by comparison while the
-- gateway runs, by count and fingerprint after a restart.
use mathlib.Core.Option
use agentrun_openai.Prelude.{
  ◌≡◌, refl, ap, ◌∙◌, ℕ, zero, suc, inl, inr, Bool-cases, true, false, List, [], ◌∷◌, ◌++◌, arith,
  some, none, ltb, ◌==◌, length, take, drop, length-append, take-length-append, take-append-drop,
}
use agentrun_openai.Prelude.Text.{Text, is_empty, text_eq_iff}
use agentrun_openai.Prelude.Dict.{Dict, lookup}
use agentrun_openai.Types.{TranscriptMessage}
use agentrun_openai.History.{has_prefix}
use agentrun_openai.History.Prefix.{has_prefix_iff}
use agentrun_openai.Session.{
  SessionState, matches_fingerprint, matches_history_prefix, remember, persisted_history_count,
}
use agentrun_openai.Session.Store.{
  PersistedSession, SessionStore, is_abs, is_valid, put, new_session_store,
}
use agentrun_openai.Session.Registry.{saved, restored, restore_all, new_registry}
use agentrun_openai.Session.Durable.{IsSound, put-found}

take-le : (n : ℕ) (ms : List TranscriptMessage) → ltb (length ms) n ≡ false → length (take n ms) ≡ n
take-le zero ms h = refl
take-le (suc n) [] h = ground arith
take-le (suc n) (m ∷ ms) h = ground (arith, take-le n ms)

-- No other transcript has the transcript's fingerprint.
abbrev pub Unmistaken : (List TranscriptMessage → Text) → List TranscriptMessage → Type 0
Unmistaken hash h = (ms : List TranscriptMessage) → hash ms ≡ hash h → ms ≡ h

module _ (hash : List TranscriptMessage → Text)
    (hashes : (ms : List TranscriptMessage) → is_empty (hash ms) ≡ false) where
  fingerprint_true :
      (h rest : List TranscriptMessage)
      → (length h == 0) ≡ false
      → matches_fingerprint hash (length h) (hash h) (h ++ rest) ≡ true
  unfolding matches_fingerprint
  fingerprint_true h rest e =
      rw (take-length-append h rest)
        (ground (arith, length-append h rest, hashes h, text_eq_iff (hash h) (hash h)))

  fingerprint_prefix :
      (h ms : List TranscriptMessage)
      → Unmistaken hash h
      → matches_fingerprint hash (length h) (hash h) ms ≡ true
      → ms ≡ h ++ drop (length h) ms
  unfolding matches_fingerprint
  fingerprint_prefix h ms un e =
      let same : hash (take (length h) ms) ≡ hash h =
        ground (arith, text_eq_iff (hash (take (length h) ms)) (hash h)) in
      let start = un (take (length h) ms) same in let whole = take-append-drop (length h) ms in cc

  fingerprint_lem :
      (h ms : List TranscriptMessage)
      → Unmistaken hash h
      → (length h == 0) ≡ false
      → matches_fingerprint hash (length h) (hash h) ms ≡ has_prefix ms h
  fingerprint_lem h ms un e = elim (Bool-cases (has_prefix ms h)) [
    | inl p ↦
        let (rest, q) = (has_prefix_iff ms h).0 p in
        let f = fingerprint_true h rest e in rw (p, q) f
    | inr n ↦ elim (Bool-cases (matches_fingerprint hash (length h) (hash h) ms)) [
      | inl f ↦
          let p = (has_prefix_iff ms h).1 (drop (length h) ms, fingerprint_prefix h ms un f) in cc
      | inr f ↦ cc
    ]
  ]

  counted :
      (ms : List TranscriptMessage) (answer : TranscriptMessage)
      → (length (ms ++ (answer ∷ [])) == 0) ≡ false
  counted ms answer = ground (arith, length-append ms (answer ∷ []))

  remembered-restored :
      (now : ℕ) (ms ns : List TranscriptMessage) (answer : TranscriptMessage) (s : SessionState)
      → Unmistaken hash (ms ++ (answer ∷ []))
      → matches_history_prefix hash (restored now (saved (remember hash ms answer s))) ns
        ≡ matches_history_prefix hash (remember hash ms answer s) ns
  unfolding matches_history_prefix remember
  remembered-restored now ms ns answer s un =
      fingerprint_lem (ms ++ (answer ∷ [])) ns un (counted ms answer)

  lookup-restore_all :
      (now : ℕ) (key : Text) (d : Dict PersistedSession)
      → lookup key (restore_all now d) ≡ Option.map (restored now) (lookup key d)
  unfolding restore_all lookup
  lookup-restore_all now key [] = refl
  lookup-restore_all now key ((k, r) ∷ d) = ground (arith, lookup-restore_all now key d)

  remembered-is_valid :
      (key : Text) (ms : List TranscriptMessage) (answer : TranscriptMessage) (s : SessionState)
      → is_empty key ≡ false
      → is_empty s.resume_id ≡ false
      → is_abs s.cwd ≡ true
      → is_valid key (saved (remember hash ms answer s)) ≡ true
  unfolding remember
  remembered-is_valid key ms answer s k i c =
      ground (arith, counted ms answer, hashes (ms ++ (answer ∷ [])))

  -- No fingerprint is empty, and no other transcript shares the one of a session's transcript. A turn
  -- of the session went well and the session, with a native session and an absolute directory, is saved
  -- in a sound store under a key. Then a gateway that starts on the store's file has the session, without a process, with the
  -- same native session and directory; it recognises the same messages as the session before the
  -- restart, and takes as many of them as known.
  pub restart_resumes :
      (ttl now : ℕ) (key : Text) (store : SessionStore) (ms : List TranscriptMessage)
      → (answer : TranscriptMessage) (s : SessionState) → Unmistaken hash (ms ++ (answer ∷ []))
      → IsSound store
      → is_empty key ≡ false
      → is_empty s.resume_id ≡ false
      → is_abs s.cwd ≡ true
      → let before = remember hash ms answer s in
        let file = (put none key (saved before) store).0.file in
        (after : SessionState) × (lookup key (new_registry ttl store.path file now).0.sessions
          ≡ some after)
        × (after.process ≡ none)
        × (after.resume_id ≡ before.resume_id)
        × (after.cwd ≡ before.cwd)
        × (persisted_history_count after ≡ persisted_history_count before)
        × ((ns : List TranscriptMessage)
            → matches_history_prefix hash after ns ≡ matches_history_prefix hash before ns)
  unfolding new_registry persisted_history_count remember
  restart_resumes ttl now key store ms answer s un sound k i c =
      let r = saved (remember hash ms answer s) in
      let valid = remembered-is_valid key ms answer s k i c in
      let found =
        lookup-restore_all now key
          (new_session_store store.path (put none key r store).0.file).0.records
        ∙ ap (Option.map (restored now)) (put-found key r store valid sound) in
      (
        restored now (saved (remember hash ms answer s)),
        found,
        refl,
        refl,
        refl,
        refl,
        λ ns. remembered-restored now ms ns answer s un,
      )
