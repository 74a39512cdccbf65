-- ===== src/Json.antt =====
-- JSON values, and `canonicalJSON` of internal/gateway/tools.go. Texts are read by `decode`, the
-- decoder of encoding/json on a whole document, which keeps the literals of numbers; `encode` is
-- `json.Marshal` of a value so decoded.
pub mod Order
pub mod Canonical
pub mod Settled
pub mod Struct
use agentrun_openai.Prelude.{
  ℕ, ◌+◌, ◌-◌, ◌/◌, ◌%◌, Bool, true, false, not, ◌&&◌, ◌||◌, List, [], ◌∷◌, ◌++◌, Option, none,
  some, if◌then◌else◌, ◌==◌, ltb,
}
use agentrun_openai.Prelude.Text.{Text, codes, text_eq}
use agentrun_openai.Json.Order.{text_lt}

mutual
  pub data Json : Type 0 where
    null : Json
    boolean : Bool → Json
    number : Text → Json
    string : Text → Json
    array : Items → Json
    object : Members → Json

  pub data Items : Type 0 where
    nil : Items
    cons : Json → Items → Items

  pub data Members : Type 0 where
    end : Members
    field : Text → Json → Members → Members

-- A field in front of the sorted fields that stand behind it in the document: of two with one key the
-- later one counts.
unfoldable pub put_field : Text → Json → Members → Members
put_field k v end = field k v end
put_field k v (field j w fs) =
    let rest = field j w (put_field k v fs) in
    if text_eq k j then field j w fs else if text_lt k j then field k v (field j w fs) else rest

-- A value decoded into Go maps and encoded again.
unfoldable mutual
  pub canonical : Json → Json
  canonical null = null
  canonical (boolean b) = boolean b
  canonical (number t) = number t
  canonical (string t) = string t
  canonical (array xs) = array (canonical_items xs)
  canonical (object fs) = object (canonical_fields fs)

  pub canonical_items : Items → Items
  canonical_items nil = nil
  canonical_items (cons v xs) = cons (canonical v) (canonical_items xs)

  pub canonical_fields : Members → Members
  canonical_fields end = end
  canonical_fields (field k v fs) = put_field k (canonical v) (canonical_fields fs)

-- The escapes of `json.Marshal`, which keeps HTML out of strings.
abbrev pub hex_digit : ℕ → ℕ
hex_digit d = if ltb d 10 then b'0' + d else b'a' + d - 10

abbrev pub unicode_escape : ℕ → Text
unicode_escape c =
    92
    ∷ b'u'
    ∷ hex_digit (c / 4096 % 16)
    ∷ hex_digit (c / 256 % 16)
    ∷ hex_digit (c / 16 % 16)
    ∷ hex_digit (c % 16)
    ∷ []

abbrev pub escape : ℕ → Text
escape c =
    if c == b'"' || c == 92
    then 92 ∷ c ∷ []
    else if c == 8
    then codes "\\b"
    else if c == 9
    then codes "\\t"
    else if c == 10
    then codes "\\n"
    else if c == 12
    then codes "\\f"
    else if c == 13
    then codes "\\r"
    else if ltb c 32 || c == b'<' || c == b'>' || c == b'&' || c == 0x2028 || c == 0x2029
    then unicode_escape c
    else c ∷ []

unfoldable pub escapes : Text → Text
escapes [] = []
escapes (c ∷ s) = escape c ++ escapes s

abbrev pub quoted : Text → Text
quoted s = b'"' ∷ (escapes s ++ (b'"' ∷ []))

unfoldable mutual
  pub encode : Json → Text
  encode null = codes "null"
  encode (boolean true) = codes "true"
  encode (boolean false) = codes "false"
  encode (number t) = t
  encode (string t) = quoted t
  encode (array xs) = b'[' ∷ encode_items xs
  encode (object fs) = b'{' ∷ encode_fields fs

  pub encode_items : Items → Text
  encode_items nil = b']' ∷ []
  encode_items (cons v xs) = encode v ++ encode_more_items xs

  pub encode_more_items : Items → Text
  encode_more_items nil = b']' ∷ []
  encode_more_items (cons v xs) = b',' ∷ (encode v ++ encode_more_items xs)

  pub encode_fields : Members → Text
  encode_fields end = b'}' ∷ []
  encode_fields (field k v fs) = quoted k ++ (b':' ∷ (encode v ++ encode_more_fields fs))

  pub encode_more_fields : Members → Text
  encode_more_fields end = b'}' ∷ []
  encode_more_fields (field k v fs) =
      b',' ∷ (quoted k ++ (b':' ∷ (encode v ++ encode_more_fields fs)))

-- `canonicalJSON`; `none` is an error.
abbrev pub encoded : Option Json → Option Text
encoded none = none
encoded (some v) = some (encode (canonical v))

unfoldable pub canonical_json : (Text → Option Json) → Text → Option Text
canonical_json decode raw = encoded (decode raw)
