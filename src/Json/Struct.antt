-- ===== src/Json/Struct.antt =====
-- `json.Unmarshal` into the structs that internal/gateway/tools.go and history.go declare in place:
-- a field's value is set as often as the document has its key, in any case of the letters, `null`
-- leaves it, and a value of another kind is an error.
use agentrun_openai.Prelude.{ℕ, Bool, ◌&&◌, map, ◌+◌, Option, none, some, if◌then◌else◌, ◌==◌, leb}
use agentrun_openai.Prelude.Text.{Text, text_eq}
use agentrun_openai.Json.{Json, Members, null, string, object, end, field}

-- The folding of `encoding/json` on the names of struct fields: besides A-Z two code points fold to an
-- ASCII letter.
abbrev pub fold_char : ℕ → ℕ
fold_char c =
    if leb b'A' c && leb c b'Z'
    then c + 32
    else if c == 0x17f
    then b's'
    else if c == 0x212a
    then b'k'
    else c

unfoldable pub is_field : Text → Text → Bool
is_field key name = text_eq (map fold_char key) name

-- A value for a field of type string that holds `now`.
abbrev pub set_string : Text → Json → Option Text
set_string now (string t) = some t
set_string now null = some now
set_string now _ = none

-- The field `name` of type string; `now` is what it holds so far.
unfoldable pub read_string : Text → Text → Members → Option Text
unfolding is_field
read_string name now end = some now
read_string name now (field k v fs) =
    if is_field k name
    then elim (set_string now v) [ none ↦ none | some t ↦ read_string name t fs ]
    else read_string name now fs

-- A struct of one field of type string.
unfoldable pub read_struct : Text → Text → Json → Option Text
unfolding read_string
read_struct name now (object fs) = read_string name now fs
read_struct name now null = some now
read_struct name now _ = none
