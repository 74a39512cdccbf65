-- ===== src/Tools/Alike.antt =====
-- How a request writes the schema of a tool does not count (`normalizeTools` and `canonicalJSON` of
-- internal/gateway/tools.go): white space, the order of keys, and whether an empty schema is left out.
use mathlib.Core.Option
use agentrun_openai.Prelude.{◌≡◌, refl, ap, ◌∙◌, List, [], ◌∷◌, Option, some, none, if◌then◌else◌}
use agentrun_openai.Prelude.Text.{Text}
use agentrun_openai.Json.{Json, Members, object, canonical, canonical_json}
use agentrun_openai.Json.Canonical.{find, canonical_object_iff}
use agentrun_openai.Tools.{
  FunctionTool, checked_schema, unless_absent, normalize_tool, normalize_each, normalize_tools,
  with_parameters, typed, no_object, opens_object, read_type,
}

module _ (decode : Text → Option Json) where
  -- Two schemas with the same value under every key, up to the canonical form of the values.
  abbrev pub AlikeSchemas : Text → Text → Type 0
  AlikeSchemas p q =
      (fs gs : Members) × (decode (unless_absent p) ≡ some (object fs))
      × (decode (unless_absent q) ≡ some (object gs))
      × ((k : Text) → Option.map canonical (find k fs) ≡ Option.map canonical (find k gs))

  -- The tools of two requests, one by one the same but for how their schemas are written.
  pub data AlikeTools : List FunctionTool → List FunctionTool → Type 0 where
    nil : AlikeTools [] []
    cons :
        {t : FunctionTool} {q : Text} {ts us : List FunctionTool}
        → AlikeSchemas t.function.parameters q
        → AlikeTools ts us
        → AlikeTools (t ∷ ts) (with_parameters t q ∷ us)

  pub canonical_json-AlikeSchemas :
      (p q : Text)
      → AlikeSchemas p q
      → canonical_json decode (unless_absent p) ≡ canonical_json decode (unless_absent q)
  unfolding canonical_json
  canonical_json-AlikeSchemas p q (fs, gs, e, f, h) =
      let same = (canonical_object_iff fs gs).1 h in rw (e, f, same)

  pub checked_schema_with :
      (t : FunctionTool) (q : Text) (o : Option Text)
      → checked_schema decode t o ≡ checked_schema decode (with_parameters t q) o
  checked_schema_with t q none = refl
  checked_schema_with t q (some raw) =
      elim (read_type (decode raw))
        as (λ kind.
          (if opens_object raw then typed t raw kind else no_object t)
          ≡ (if opens_object raw then typed (with_parameters t q) raw kind else no_object t)) [
            | none ↦ refl
            | some kind ↦ refl
          ]

  pub normalize_tool-AlikeSchemas :
      (t : FunctionTool) (q : Text)
      → AlikeSchemas t.function.parameters q
      → normalize_tool decode t ≡ normalize_tool decode (with_parameters t q)
  unfolding normalize_tool
  normalize_tool-AlikeSchemas t q a =
      checked_schema_with t q (canonical_json decode (unless_absent t.function.parameters))
      ∙ ap (checked_schema decode (with_parameters t q))
          (canonical_json-AlikeSchemas t.function.parameters q a)

  pub normalize_each-AlikeTools :
      {ts us : List FunctionTool}
      → AlikeTools ts us
      → (names : List Text) → normalize_each decode names ts ≡ normalize_each decode names us
  unfolding normalize_each
  normalize_each-AlikeTools nil names = refl
  normalize_each-AlikeTools (cons {t = t} {q = q} {ts = ts} {us = us} a rest) names =
      let e = normalize_tool-AlikeSchemas t q a in
      let f = normalize_each-AlikeTools rest (t.function.name ∷ names) in rw (e, f)

  -- Two requests whose tools differ only in how their schemas are written give the same result: the
  -- same tools, hash and policy, or the same error.
  pub normalize_tools-AlikeTools :
      (digest : Text → Text) {ts us : List FunctionTool}
      → AlikeTools ts us
      → (choice : Text)
      → normalize_tools decode digest ts choice ≡ normalize_tools decode digest us choice
  unfolding normalize_tools
  normalize_tools-AlikeTools digest a choice = rw (normalize_each-AlikeTools a [])
