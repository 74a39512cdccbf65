-- ===== src/Session/Durable.antt =====
-- What the session store of internal/gateway/session_store.go keeps across restarts.
use mathlib.Core.Option
use agentrun_openai.Prelude.{
  ◌≡◌, refl, ◌∙◌, true, false, [], ◌∷◌, Option, none, some, arith, if◌then◌else◌,
}
use agentrun_openai.Prelude.Text.{Text, is_empty, text_eq, text_eq_iff, text_eq_refl}
use agentrun_openai.Prelude.Dict.{
  Dict, lookup, insert, remove, Unique, lookup-insert, lookup-remove, insert-Unique, remove-Unique,
}
use agentrun_openai.Session.Store.{
  PersistedSession, stored, SessionStore, is_valid, valid_records, new_session_store, Fault,
  fault_error, put, delete, delete_found,
}

-- The record that a file's record becomes: itself when it is valid, nothing otherwise.
abbrev pub accepted : Text → Option PersistedSession → Option PersistedSession
accepted key none = none
accepted key (some r) = if is_valid key r then some r else none

abbrev or_else : Option PersistedSession → Option PersistedSession → Option PersistedSession
or_else none b = b
or_else (some a) b = some a

lookup-valid_records :
    (j : Text) (d acc : Dict PersistedSession)
    → Unique d
    → lookup j (valid_records d acc) ≡ or_else (accepted j (lookup j d)) (lookup j acc)
unfolding valid_records lookup
lookup-valid_records j [] acc u = refl
lookup-valid_records j ((k, r) ∷ d) acc u = ground (
  arith,
  lookup-valid_records j d (insert k r acc) u.1,
  lookup-valid_records j d acc u.1,
  lookup-insert k j r acc,
  text_eq_iff k j,
)

-- A store at a path: its records are valid and stand under different keys.
abbrev pub IsSound : SessionStore → Type 0
IsSound s =
    (is_empty s.path ≡ false)
    × Unique s.records
    × ((j : Text) → accepted j (lookup j s.records) ≡ lookup j s.records)

-- What a gateway that starts on the store's file finds.
abbrev pub reopened : SessionStore → SessionStore
reopened s = (new_session_store s.path s.file).0

-- A gateway that starts on a file of version 1 has exactly the file's valid records, under their
-- keys.
pub load_exact :
    (path : Text) (d : Dict PersistedSession) (j : Text)
    → is_empty path ≡ false
    → Unique d
    → lookup j (new_session_store path (stored 1 d)).0.records ≡ accepted j (lookup j d)
unfolding new_session_store lookup
load_exact path d j p u = ground (arith, lookup-valid_records j d [] u)

pub valid_records-Unique :
    (d acc : Dict PersistedSession) → Unique acc → Unique (valid_records d acc)
unfolding valid_records
valid_records-Unique [] acc u = u
valid_records-Unique ((k, r) ∷ d) acc u = ground (
  arith,
  valid_records-Unique d (insert k r acc),
  valid_records-Unique d acc u,
  insert-Unique k r acc u,
)

reopen_written :
    (path : Text) (d : Dict PersistedSession) (j : Text)
    → is_empty path ≡ false
    → Unique d
    → accepted j (lookup j d) ≡ lookup j d
    → lookup j (new_session_store path (stored 1 d)).0.records ≡ lookup j d
reopen_written path d j p u a = rw (load_exact path d j p u) a

pub accepted-insert :
    (key j : Text) (r : PersistedSession) (d : Dict PersistedSession)
    → is_valid key r ≡ true
    → accepted j (lookup j d) ≡ lookup j d
    → accepted j (lookup j (insert key r d)) ≡ lookup j (insert key r d)
accepted-insert key j r d v a = ground (arith, lookup-insert key j r d, text_eq_iff key j)

accepted-remove :
    (key j : Text) (d : Dict PersistedSession)
    → accepted j (lookup j d) ≡ lookup j d
    → accepted j (lookup j (remove key d)) ≡ lookup j (remove key d)
accepted-remove key j d a = ground (arith, lookup-remove key j d)

pub put-IsSound :
    (fault : Option Fault) (key : Text) (r : PersistedSession) (s : SessionStore)
    → is_valid key r ≡ true
    → IsSound s
    → IsSound (put fault key r s).0
unfolding put
put-IsSound none key r s v (p, u, a) =
    rw p (p, insert-Unique key r s.records u, λ j. accepted-insert key j r s.records v (a j))
put-IsSound (some f) key r s v (p, u, a) =
    rw p (p, insert-Unique key r s.records u, λ j. accepted-insert key j r s.records v (a j))

delete_found-IsSound :
    (found : Option PersistedSession) (fault : Option Fault) (key : Text) (s : SessionStore)
    → IsSound s
    → IsSound (delete_found found fault key s).0
delete_found-IsSound none fault key s sound = sound
delete_found-IsSound (some r) none key s (p, u, a) =
    (p, remove-Unique key s.records u, λ j. accepted-remove key j s.records (a j))
delete_found-IsSound (some r) (some f) key s (p, u, a) =
    (p, remove-Unique key s.records u, λ j. accepted-remove key j s.records (a j))

pub delete-IsSound :
    (fault : Option Fault) (key : Text) (s : SessionStore)
    → IsSound s
    → IsSound (delete fault key s).0
unfolding delete
delete-IsSound fault key s sound =
    rw sound.0 (delete_found-IsSound (lookup key s.records) fault key s sound)

-- What a restart finds after a write: the store's records, or what it found before when a step failed.
abbrev pub found_after : Option Fault → SessionStore → SessionStore → Dict PersistedSession
found_after none before after = after.records
found_after (some f) before after = (reopened before).records

-- A sound store is asked to save a valid record. The running gateway has it from then on, and every
-- other record as it was. When nothing fails, a gateway that starts on the file finds the same,
-- whatever the file held before; when a step fails, its error is reported and a restart finds what it
-- would have found before.
pub put_durable :
    (fault : Option Fault) (key : Text) (r : PersistedSession) (s : SessionStore) (j : Text)
    → is_valid key r ≡ true
    → IsSound s
    → let (after, e) = put fault key r s in
      (lookup j after.records ≡ (if text_eq key j then some r else lookup j s.records))
      × (e ≡ Option.map fault_error fault)
      × (lookup j (reopened after).records ≡ lookup j (found_after fault s after))
unfolding put
put_durable none key r s j v (p, u, a) = rw p (
  lookup-insert key j r s.records,
  refl,
  reopen_written s.path (insert key r s.records) j p (insert-Unique key r s.records u)
      (accepted-insert key j r s.records v (a j)),
)
put_durable (some f) key r s j v (p, u, a) = rw p (lookup-insert key j r s.records, refl, refl)

-- A gateway that starts on the file after a save finds the record.
pub put-found :
    (key : Text) (r : PersistedSession) (s : SessionStore)
    → is_valid key r ≡ true
    → IsSound s
    → lookup key (new_session_store s.path (put none key r s).0.file).0.records ≡ some r
unfolding put
put-found key r s v (p, u, a) = rw p (
    reopen_written s.path (insert key r s.records) key p (insert-Unique key r s.records u)
      (accepted-insert key key r s.records v (a key))
    ∙ ground (arith, lookup-insert key key r s.records, text_eq_refl key))

-- A session is deleted from a sound store. Nothing fails: then no record stands under its key and every
-- other record is as it was; and if there was a record, a gateway that starts on the file finds the
-- same.
pub delete_durable :
    (key : Text) (r : PersistedSession) (s : SessionStore) (j : Text)
    → IsSound s
    → lookup key s.records ≡ some r
    → let (after, e) = delete none key s in
      (lookup j after.records ≡ (if text_eq key j then none else lookup j s.records))
      × (e ≡ none)
      × (lookup j (reopened after).records ≡ lookup j after.records)
unfolding delete
delete_durable key r s j (p, u, a) h =
    rw (p, h)
      (
        lookup-remove key j s.records,
        refl,
        reopen_written s.path (remove key s.records) j p (remove-Unique key s.records u)
            (accepted-remove key j s.records (a j)),
      )

-- A deletion whose write fails is forgotten: deleting the session again reports success and writes
-- nothing, so a restart finds what it would have found before both.
pub delete_forgotten :
    (f : Fault) (again : Option Fault) (key : Text) (r : PersistedSession) (s : SessionStore)
    → is_empty s.path ≡ false
    → lookup key s.records ≡ some r
    → let (failed, e) = delete (some f) key s in
      (e ≡ some (fault_error f))
      × (delete again key failed ≡ (failed, none))
      × (failed.file ≡ s.file)
unfolding delete
delete_forgotten f again key r s p h =
    rw (p, h, p) (refl, ground (arith, lookup-remove key key s.records, text_eq_refl key), refl)

delete_unknown :
    (key : Text) (s : SessionStore) → lookup key s.records ≡ none → (delete none key s).0 ≡ s
unfolding delete
delete_unknown key s e = ground (arith, e)

-- A session is deleted from a sound store whose file says of the session what the store says. Nothing
-- fails: then neither has a record of it, and the store is sound.
pub delete-gone :
    (key : Text) (s : SessionStore)
    → IsSound s
    → lookup key (reopened s).records ≡ lookup key s.records
    → let after = (delete none key s).0 in
      IsSound after
      × (lookup key after.records ≡ none)
      × (lookup key (reopened after).records ≡ none)
delete-gone key s sound same = go (lookup key s.records) refl
  where
    go :
        (found : Option PersistedSession)
        → lookup key s.records ≡ found
        → let after = (delete none key s).0 in
          IsSound after
          × (lookup key after.records ≡ none)
          × (lookup key (reopened after).records ≡ none)
    go (some r) e =
        let (here, _, again) = delete_durable key r s key sound e in
        let gone = here ∙ rw (text_eq_refl key) refl in
        (delete-IsSound none key s sound, gone, again ∙ gone)
    go none e =
        let nothing : (delete none key s).0 ≡ s = delete_unknown key s e in
        (delete-IsSound none key s sound, rw nothing e, rw nothing (same ∙ e))
