-- ===== src/Session/Contract.antt =====
-- What the session store of internal/gateway/session_store.go promises: two maps, what the gateway has
-- and what a gateway that starts on the file would find. A call that fails changes only the first.
pub mod Refines
use mathlib.Core.Option
use agentrun_openai.Prelude.{
  ◌≡◌, refl, sym, ap, ap₂, ◌∙◌, subst, Bool, true, false, List, [], ◌∷◌, Option, none, some,
  if◌then◌else◌, arith, All,
}
use agentrun_openai.Prelude.Text.{Text, text_eq, is_empty}
use agentrun_openai.Prelude.Dict.{Dict, lookup, insert, remove, Unique, lookup-remove}
use agentrun_openai.Types.{GoError}
use agentrun_openai.Session.Store.{
  PersistedSession, File, missing, unreadable, malformed, stored, SessionStore, is_valid,
  valid_records, new_session_store, Fault, fault_error, put, delete, delete_found,
}
use agentrun_openai.Session.Durable.{
  accepted, IsSound, reopened, put_durable, put-IsSound, delete-IsSound, accepted-insert,
  valid_records-Unique, delete_durable,
}

-- The abstract state.
pub record Contents : Type 0 where
  pub memory : Text → Option PersistedSession
  pub disk : Text → Option PersistedSession

-- A call of the store, with the step of its write that fails, or a restart of the gateway.
pub data StoreCall : Type 0 where
  puts : Option Fault → Text → PersistedSession → StoreCall
  deletes : Option Fault → Text → StoreCall
  restarts : StoreCall

abbrev pub set_in :
    Text
    → Option PersistedSession
    → (Text → Option PersistedSession)
    → Text
    → Option PersistedSession
set_in key v m j = if text_eq key j then v else m j

-- A new memory, which is written unless a step fails.
abbrev pub committed :
    Option Fault → (Text → Option PersistedSession) → Contents → Contents × Option GoError
committed none m c = (record { memory = m; disk = m }, none)
committed (some f) m c = (record { memory = m; disk = c.disk }, some (fault_error f))

abbrev pub delete_spec :
    Option PersistedSession → Option Fault → Text → Contents → Contents × Option GoError
delete_spec none fault key c = (c, none)
delete_spec (some r) fault key c = committed fault (set_in key none c.memory) c

abbrev pub spec_call : StoreCall → Contents → Contents × Option GoError
spec_call (puts fault key r) c = committed fault (set_in key (some r) c.memory) c
spec_call (deletes fault key) c = delete_spec (c.memory key) fault key c
spec_call restarts c = (record { memory = c.disk; disk = c.disk }, none)

-- The same calls of the store itself; what a restart says of a file that it cannot read is aside.
abbrev pub store_call : StoreCall → SessionStore → SessionStore × Option GoError
store_call (puts fault key r) s = put fault key r s
store_call (deletes fault key) s = delete fault key s
store_call restarts s = (reopened s, none)

abbrev pub run_spec : List StoreCall → Contents → Contents × List (Option GoError)
run_spec [] c = (c, [])
run_spec (call ∷ calls) c =
    let (d, e) = spec_call call c in let (final, es) = run_spec calls d in (final, e ∷ es)

abbrev pub run_store : List StoreCall → SessionStore → SessionStore × List (Option GoError)
run_store [] s = (s, [])
run_store (call ∷ calls) s =
    let (t, e) = store_call call s in let (final, es) = run_store calls t in (final, e ∷ es)

abbrev pub IsProper : StoreCall → Type 0
IsProper (puts fault key r) = is_valid key r ≡ true
IsProper (deletes fault key) = Unit
IsProper restarts = Unit

abbrev pub Shows : SessionStore → Contents → Type 0
Shows s c =
    ((j : Text) → lookup j s.records ≡ c.memory j)
    × ((j : Text) → lookup j (reopened s).records ≡ c.disk j)

abbrev pub view : SessionStore → Contents
view s = record { memory = λ j. lookup j s.records; disk = λ j. lookup j (reopened s).records }
