-- ===== src/Chat/Recorded.antt =====
-- What the store holds of the session of a request (internal/gateway/server.go, session_store.go).
use agentrun_openai.Prelude.{
  ◌≡◌, refl, ℕ, true, false, List, [], arith, Option, none, some, ◌⊎◌, inl, inr, length,
}
use agentrun_openai.Prelude.Text.{Text, is_empty, text_eq_refl}
use agentrun_openai.Prelude.Dict.{lookup, lookup-insert, lookup-remove}
use agentrun_openai.Types.{TranscriptMessage}
use agentrun_openai.Session.{SessionState, cleared, stop}
use agentrun_openai.Session.Store.{SessionStore, PersistedSession, Fault, put, delete, delete_found}
use agentrun_openai.Session.Durable.{IsSound, delete-IsSound}
use agentrun_openai.Session.Registry.{saved}
use agentrun_openai.Chat.{World, clear_session}

-- A store with no path holds nothing; one with a path is sound.
abbrev pub IsStore : SessionStore → Type 0
IsStore s = ((is_empty s.path ≡ true) × (s.records ≡ [])) ⊎ IsSound s

-- The history of the running gateway has its length and fingerprint beside it.
abbrev pub Counted :
    (List TranscriptMessage → Text) → Option (List TranscriptMessage) → ℕ → Text → Type 0
Counted hash none count fingerprint = Unit
Counted hash (some h) count fingerprint = (count ≡ length h) × (fingerprint ≡ hash h)

-- The record of a session, if there is one, is what the session would save.
abbrev pub Recorded : SessionState → Option PersistedSession → Type 0
Recorded s o = (o ≡ none) ⊎ (o ≡ some (saved s))

pub record Synced (hash : List TranscriptMessage → Text) (key : Text) (w : World) : Type 0 where
  pub counted : Counted hash w.state.history w.state.history_count w.state.history_hash
  pub recorded : Recorded w.state (lookup key w.store.records)
  pub store_ok : IsStore w.store

pub delete-IsStore :
    (fault : Option Fault) (key : Text) (s : SessionStore)
    → IsStore s
    → IsStore (delete fault key s).0
unfolding delete
delete-IsStore fault key s (inl (p, e)) = rw p (inl (p, e))
delete-IsStore fault key s (inr sound) = inr (delete-IsSound fault key s sound)

pub delete_found-none :
    (found : Option PersistedSession) (fault : Option Fault) (key : Text) (s : SessionStore)
    → lookup key s.records ≡ found
    → lookup key (delete_found found fault key s).0.records ≡ none
delete_found-none none fault key s e = e
delete_found-none (some r) none key s e =
    rw (lookup-remove key key s.records, text_eq_refl key) refl
delete_found-none (some r) (some f) key s e =
    rw (lookup-remove key key s.records, text_eq_refl key) refl

pub delete-none :
    (fault : Option Fault) (key : Text) (s : SessionStore)
    → IsStore s
    → lookup key (delete fault key s).0.records ≡ none
unfolding delete
delete-none fault key s (inl (p, e)) = rw (p, e) (unfold lookup in refl)
delete-none fault key s (inr sound) =
    rw sound.0 (delete_found-none (lookup key s.records) fault key s refl)

pub no_path_none : (key : Text) (s : SessionStore) → s.records ≡ [] → lookup key s.records ≡ none
unfolding lookup
no_path_none key s e = rw e refl

pub put-recorded :
    (fault : Option Fault) (key : Text) (r : PersistedSession) (s : SessionStore)
    → is_empty s.path ≡ false
    → lookup key (put fault key r s).0.records ≡ some r
unfolding put
put-recorded none key r s p = rw (p, lookup-insert key key r s.records, text_eq_refl key) refl
put-recorded (some f) key r s p = rw (p, lookup-insert key key r s.records, text_eq_refl key) refl

pub put_unused :
    (fault : Option Fault) (key : Text) (r : PersistedSession) (s : SessionStore)
    → is_empty s.path ≡ true
    → (put fault key r s).0 ≡ s
unfolding put
put_unused fault key r s p = rw p refl

-- A session with no native session has no record.
pub unresumable-none :
    (key : Text) (s : SessionState) (store : SessionStore)
    → IsStore store
    → Recorded s (lookup key store.records)
    → s.resume_id ≡ []
    → lookup key store.records ≡ none
unresumable-none key s store store_ok (inl e) i = e
unresumable-none key s store (inl (p, n)) (inr e) i = no_path_none key store n
unresumable-none key s store (inr (p, u, a)) (inr e) i = ground (arith, a key)

module _ (hash : List TranscriptMessage → Text) where
  -- A cleared session has no history, no process and no record.
  pub clear_session-Synced :
      (fault : Option Fault) (key : Text) (w : World)
      → IsStore w.store
      → Synced hash key (clear_session fault key w)
  unfolding clear_session cleared stop
  clear_session-Synced fault key w s = record {
    counted = tt;
    recorded = inl (delete-none fault key w.store s);
    store_ok = delete-IsStore fault key w.store s;
  }
