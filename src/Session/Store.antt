-- ===== src/Session/Store.antt =====
-- The session store of internal/gateway/session_store.go. The file at its path and what goes wrong
-- when it is written are explicit; its JSON is the value that it encodes, and a path is absolute as on
-- Unix.
use agentrun_openai.Prelude.{
  ℕ, Bool, false, not, ◌&&◌, [], ◌∷◌, Option, none, some, if◌then◌else◌, ◌==◌,
}
use agentrun_openai.Prelude.Text.{Text, codes, is_empty}
use agentrun_openai.Prelude.Dict.{Dict, lookup, insert, remove}
use agentrun_openai.Types.{GoError, formatted, wrapped}

pub record PersistedSession : Type 0 where
  pub resume_id : Text
  pub cwd : Text
  pub history_count : ℕ
  pub history_hash : Text

-- What a read of the path finds.
pub data File : Type 0 where
  missing : File
  unreadable : GoError → File
  malformed : GoError → File
  stored : ℕ → Dict PersistedSession → File

pub record SessionStore : Type 0 where
  pub path : Text
  pub records : Dict PersistedSession
  pub file : File

abbrev pub is_abs : Text → Bool
is_abs [] = false
is_abs (c ∷ s) = c == b'/'

abbrev pub is_valid : Text → PersistedSession → Bool
is_valid key r =
    not (is_empty key)
    && not (is_empty r.resume_id)
    && is_abs r.cwd
    && not (r.history_count == 0)
    && not (is_empty r.history_hash)

-- The loop over the stored sessions.
unfoldable pub valid_records : Dict PersistedSession → Dict PersistedSession → Dict PersistedSession
valid_records [] records = records
valid_records ((key, r) ∷ rest) records =
    valid_records rest (if is_valid key r then insert key r records else records)

abbrev pub load : File → SessionStore → SessionStore × Option GoError
load missing s = (s, none)
load (unreadable e) s = (s, some (wrapped (codes "read: %w") [] e))
load (malformed e) s = (s, some (wrapped (codes "decode: %w") [] e))
load (stored version sessions) s =
    if not (version == 1)
    then (s, some (formatted (codes "unsupported version %d") ((version ∷ []) ∷ [])))
    else (record s { records = valid_records sessions s.records }, none)

unfoldable pub new_session_store : Text → File → SessionStore × Option GoError
new_session_store path file =
    let s : SessionStore = record { path = path; records = []; file = file } in
    if is_empty path then (s, none) else load file s

-- A step of `writeLocked` that fails, with its error. The file at the path is replaced by the rename
-- alone; each failure returns before it or is its own.
pub data Fault : Type 0 where
  create_directory encode create_temporary set_permissions write sync close replace :
      GoError → Fault

abbrev pub fault_error : Fault → GoError
fault_error (create_directory e) = wrapped (codes "create directory: %w") [] e
fault_error (encode e) = wrapped (codes "encode: %w") [] e
fault_error (create_temporary e) = wrapped (codes "create temporary file: %w") [] e
fault_error (set_permissions e) = wrapped (codes "set permissions: %w") [] e
fault_error (write e) = wrapped (codes "write: %w") [] e
fault_error (sync e) = wrapped (codes "sync: %w") [] e
fault_error (close e) = wrapped (codes "close: %w") [] e
fault_error (replace e) = wrapped (codes "replace: %w") [] e

abbrev pub write_locked : Option Fault → SessionStore → SessionStore × Option GoError
write_locked (some f) s = (s, some (fault_error f))
write_locked none s = (record s { file = stored 1 s.records }, none)

unfoldable pub put :
    Option Fault → Text → PersistedSession → SessionStore → SessionStore × Option GoError
put fault key r s =
    if is_empty s.path
    then (s, none)
    else write_locked fault (record s { records = insert key r s.records })

abbrev pub delete_found :
    Option PersistedSession → Option Fault → Text → SessionStore → SessionStore × Option GoError
delete_found none fault key s = (s, none)
delete_found (some r) fault key s = write_locked fault (record s { records = remove key s.records })

unfoldable pub delete : Option Fault → Text → SessionStore → SessionStore × Option GoError
delete fault key s =
    if is_empty s.path then (s, none) else delete_found (lookup key s.records) fault key s
