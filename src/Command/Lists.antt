-- ===== src/Command/Lists.antt =====
-- The lists of cmd/agentrun-openai/main.go: the values of repeatable flags, and lists in the environment.
use agentrun_openai.Prelude.{ℕ, Bool, ◌||◌, List, [], ◌∷◌, ◌++◌, if◌then◌else◌, ◌==◌}
use agentrun_openai.Prelude.Text.{Text, codes, is_empty, trim_space, split_on, push_first, join}
use agentrun_openai.Types.{plain, Result, ok, err}

-- `pathListFlag.Set` and `acpFlagList.Set`.
abbrev pub set_value : Text → Text → List Text → Result (List Text)
set_value complaint value values =
    if is_empty (trim_space value)
    then err (plain complaint)
    else ok (values ++ (trim_space value ∷ []))

unfoldable pub set_path : Text → List Text → Result (List Text)
set_path = set_value (codes "allowed root must not be empty")

unfoldable pub set_acp : Text → List Text → Result (List Text)
set_acp = set_value (codes "acp backend specification must not be empty")

-- `pathListFlag.String` and `acpFlagList.String`.
unfoldable pub path_string : List Text → Text
path_string paths = join (codes ":") paths

unfoldable pub acp_string : List Text → Text
acp_string specs = join (codes "; ") specs

-- `strings.FieldsFunc` at line feeds and semicolons: the pieces that are not empty.
abbrev pub is_separator : ℕ → Bool
is_separator r = r == b'\n' || r == b';'

unfoldable pub pieces : Text → List Text
pieces [] = [] ∷ []
pieces (r ∷ s) = let rest = pieces s in if is_separator r then [] ∷ rest else push_first r rest

unfoldable pub filled_pieces : List Text → List Text
filled_pieces [] = []
filled_pieces (w ∷ ws) = let rest = filled_pieces ws in if is_empty w then rest else w ∷ rest

-- The loop of `splitACPList`.
unfoldable pub trimmed : List Text → List Text
trimmed [] = []
trimmed (w ∷ ws) =
    let rest = trimmed ws in if is_empty (trim_space w) then rest else trim_space w ∷ rest

unfoldable pub split_acp_list : Text → List Text
split_acp_list value =
    if is_empty (trim_space value) then [] else trimmed (filled_pieces (pieces value))

-- `splitPathList`, with `filepath.SplitList` of Unix.
unfoldable pub split_path_list : Text → List Text
split_path_list value = if is_empty (trim_space value) then [] else split_on b':' value
