-- ===== src/Session/Contract/Refines.antt =====
-- The session store of internal/gateway/session_store.go keeps its contract.
use agentrun_openai.Prelude.{
  ◌≡◌, refl, sym, ap, ap₂, ◌∙◌, subst, Bool, true, false, List, [], ◌∷◌, Option, none, some,
  if◌then◌else◌, arith, All,
}
use agentrun_openai.Prelude.Text.{Text, text_eq, is_empty}
use agentrun_openai.Prelude.Dict.{Dict, lookup, insert, remove, Unique, lookup-remove}
use agentrun_openai.Types.{GoError}
use agentrun_openai.Session.Store.{
  PersistedSession, File, missing, unreadable, malformed, stored, SessionStore, is_valid,
  valid_records, new_session_store, Fault, fault_error, delete,
}
use agentrun_openai.Session.Durable.{
  accepted, IsSound, reopened, put_durable, put-IsSound, delete-IsSound, accepted-insert,
  valid_records-Unique, delete_durable,
}
use agentrun_openai.Session.Contract.{
  Contents, StoreCall, puts, deletes, restarts, delete_spec, spec_call, store_call, run_spec,
  run_store, IsProper, Shows, view,
}

-- A call keeps the store sound, shows what the contract says, and returns its error.
abbrev pub Keeps : StoreCall → SessionStore → Contents → Type 0
Keeps call s c =
    IsSound (store_call call s).0
    × Shows (store_call call s).0 (spec_call call c).0
    × ((store_call call s).1 ≡ (spec_call call c).1)

puts-Keeps :
    (fault : Option Fault) (key : Text) (r : PersistedSession) (s : SessionStore) (c : Contents)
    → is_valid key r ≡ true
    → IsSound s
    → Shows s c
    → Keeps (puts fault key r) s c
puts-Keeps none key r s c v sound (memory, disk) = (
  put-IsSound none key r s v sound,
  (
    λ j.
        (put_durable none key r s j v sound).0
        ∙ ap (λ o. if text_eq key j then some r else o) (memory j),
    λ j.
        (put_durable none key r s j v sound).2
        ∙ (put_durable none key r s j v sound).0
        ∙ ap (λ o. if text_eq key j then some r else o) (memory j),
  ),
  (put_durable none key r s key v sound).1,
)
puts-Keeps (some f) key r s c v sound (memory, disk) = (
  put-IsSound (some f) key r s v sound,
  (
    λ j.
        (put_durable (some f) key r s j v sound).0
        ∙ ap (λ o. if text_eq key j then some r else o) (memory j),
    λ j. (put_durable (some f) key r s j v sound).2 ∙ disk j,
  ),
  (put_durable (some f) key r s key v sound).1,
)

delete_failed :
    (f : Fault) (key : Text) (r : PersistedSession) (s : SessionStore)
    → IsSound s
    → lookup key s.records ≡ some r
    → delete (some f) key s ≡ (record s { records = remove key s.records }, some (fault_error f))
unfolding delete
delete_failed f key r s sound h = rw (sound.0, h)

delete_nothing :
    (fault : Option Fault) (key : Text) (s : SessionStore)
    → IsSound s
    → lookup key s.records ≡ none
    → delete fault key s ≡ (s, none)
unfolding delete
delete_nothing fault key s sound h = rw (sound.0, h)

-- The state and the error that a call gives.
abbrev Agrees : SessionStore × Option GoError → Contents × Option GoError → Type 0
Agrees (s, e) (c, f) = Shows s c × (e ≡ f)

delete-Agrees :
    (fault : Option Fault) (key : Text) (r : PersistedSession) (s : SessionStore) (c : Contents)
    → IsSound s
    → Shows s c
    → lookup key s.records ≡ some r
    → Agrees (delete fault key s) (delete_spec (some r) fault key c)
delete-Agrees none key r s c sound (memory, disk) h = (
  (
    λ j.
        (delete_durable key r s j sound h).0
        ∙ ap (λ o. if text_eq key j then none else o) (memory j),
    λ j.
        (delete_durable key r s j sound h).2
        ∙ (delete_durable key r s j sound h).0
        ∙ ap (λ o. if text_eq key j then none else o) (memory j),
  ),
  (delete_durable key r s key sound h).1,
)
delete-Agrees (some f) key r s c sound (memory, disk) h =
    subst (λ x. Agrees x (delete_spec (some r) (some f) key c))
      (sym (delete_failed f key r s sound h))
      (
        (
          λ j.
              lookup-remove key j s.records
              ∙ ap (λ o. if text_eq key j then none else o) (memory j),
          disk,
        ),
        refl,
      )

deletes-Agrees :
    (o : Option PersistedSession) (fault : Option Fault) (key : Text) (s : SessionStore)
    (c : Contents)
    → IsSound s
    → Shows s c
    → lookup key s.records ≡ o
    → Agrees (delete fault key s) (delete_spec o fault key c)
deletes-Agrees (some r) fault key s c sound shows h = delete-Agrees fault key r s c sound shows h
deletes-Agrees none fault key s c sound shows h =
    subst (λ x. Agrees x (c, none)) (sym (delete_nothing fault key s sound h)) (shows, refl)

deletes-Keeps :
    (fault : Option Fault) (key : Text) (s : SessionStore) (c : Contents)
    → IsSound s
    → Shows s c
    → Keeps (deletes fault key) s c
deletes-Keeps fault key s c sound (memory, disk) =
    let (shows, same) =
      deletes-Agrees (c.memory key) fault key s c sound (memory, disk) (memory key) in
    (delete-IsSound fault key s sound, shows, same)

valid_records-accepted :
    (d acc : Dict PersistedSession)
    → ((j : Text) → accepted j (lookup j acc) ≡ lookup j acc)
    → (j : Text) → accepted j (lookup j (valid_records d acc)) ≡ lookup j (valid_records d acc)
unfolding valid_records
valid_records-accepted [] acc a j = a j
valid_records-accepted ((k, r) ∷ d) acc a j =
    valid_records-accepted d (if is_valid k r then insert k r acc else acc)
      (λ i. kept (is_valid k r) refl i) j
  where
    kept :
        (b : Bool)
        → is_valid k r ≡ b
        → (i : Text)
        → accepted i (lookup i (if b then insert k r acc else acc))
          ≡ lookup i (if b then insert k r acc else acc)
    kept true v i = accepted-insert k i r acc v (a i)
    kept false v i = a i

loaded_same :
    (path : Text) (file : File)
    → ((new_session_store path file).0.path ≡ path) × ((new_session_store path file).0.file ≡ file)
unfolding new_session_store
loaded_same path missing = ground arith
loaded_same path (unreadable e) = ground arith
loaded_same path (malformed e) = ground arith
loaded_same path (stored version d) = ground arith

loaded-Unique : (path : Text) (file : File) → Unique (new_session_store path file).0.records
unfolding new_session_store
loaded-Unique path missing = ground arith
loaded-Unique path (unreadable e) = ground arith
loaded-Unique path (malformed e) = ground arith
loaded-Unique path (stored version d) = ground (arith, valid_records-Unique d [] tt)

loaded-accepted :
    (path : Text) (file : File) (j : Text)
    → accepted j (lookup j (new_session_store path file).0.records)
      ≡ lookup j (new_session_store path file).0.records
unfolding new_session_store lookup
loaded-accepted path missing j = ground arith
loaded-accepted path (unreadable e) j = ground arith
loaded-accepted path (malformed e) j = ground arith
loaded-accepted path (stored version d) j =
    ground (arith, valid_records-accepted d [] (λ i. refl) j)

reopened-IsSound : (s : SessionStore) → IsSound s → IsSound (reopened s)
reopened-IsSound s sound = (
  ap is_empty (loaded_same s.path s.file).0 ∙ sound.0,
  loaded-Unique s.path s.file,
  loaded-accepted s.path s.file,
)

reopened_again : (s : SessionStore) → reopened (reopened s) ≡ reopened s
reopened_again s =
    ap₂ (λ path file. (new_session_store path file).0) (loaded_same s.path s.file).0
      (loaded_same s.path s.file).1

store_call-Keeps :
    (call : StoreCall) (s : SessionStore) (c : Contents)
    → IsProper call
    → IsSound s
    → Shows s c
    → Keeps call s c
store_call-Keeps (puts fault key r) s c v sound shows = puts-Keeps fault key r s c v sound shows
store_call-Keeps (deletes fault key) s c v sound shows = deletes-Keeps fault key s c sound shows
store_call-Keeps restarts s c v sound (memory, disk) = (
  reopened-IsSound s sound,
  (disk, λ j. ap (λ t. lookup j t.records) (reopened_again s) ∙ disk j),
  refl,
)

run-Shows :
    (calls : List StoreCall) (s : SessionStore) (c : Contents)
    → All IsProper calls
    → IsSound s
    → Shows s c
    → Shows (run_store calls s).0 (run_spec calls c).0
      × ((run_store calls s).1 ≡ (run_spec calls c).1)
run-Shows [] s c proper sound shows = (shows, refl)
run-Shows (call ∷ calls) s c proper sound shows =
    let (kept, shown, same) = store_call-Keeps call s c proper.0 sound shows in
    let (final, rest) =
      run-Shows calls (store_call call s).0 (spec_call call c).0 proper.1 kept shown in
    (final, ap₂ (λ e es. e ∷ es) same rest)

-- A sound store is called in any order, with valid records, any of its writes fail at any step, and the
-- gateway is started again at any time. The store returns the errors that the two maps of the contract
-- give; in the end it has under each key what the first map has, and a gateway that starts on its file
-- finds what the second has.
pub store_refines :
    (calls : List StoreCall) (s : SessionStore)
    → All IsProper calls
    → IsSound s
    → Shows (run_store calls s).0 (run_spec calls (view s)).0
      × ((run_store calls s).1 ≡ (run_spec calls (view s)).1)
store_refines calls s proper sound =
    run-Shows calls s (view s) proper sound ((λ j. refl), (λ j. refl))
