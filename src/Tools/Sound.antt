-- ===== src/Tools/Sound.antt =====
-- What `normalizeTools` of internal/gateway/tools.go lets through.
use agentrun_openai.Prelude.{
  ◌≡◌, refl, sym, ap, ap₂, ◌∙◌, subst, ◌≢◌, Bool, true, false, List, [], ◌∷◌, Option, none, some,
  if◌then◌else◌, arith, All,
}
use agentrun_openai.Prelude.Text.{Text, codes, text_eq_iff, member}
use agentrun_openai.Prelude.Distinct.{Distinct, Apart, Apart-cons}
use agentrun_openai.Types.{
  Result, ok, ◌>>=◌, bind-eq-ok, ToolPolicy, Mode, auto, off, required, named,
}
use agentrun_openai.Json.{
  Json, null, boolean, number, string, array, object, canonical, encode, canonical_json, encoded,
}
use agentrun_openai.Tools.{
  FunctionTool, is_function_name, opens_object, unless_absent, read_type, checked_schema, typed,
  normalize_tool, is_refused, bad_name, normalize_each, sort_tools, names_of, tools_hash,
  counted_policy, normalize_choice, Normalized, with_choice, normalize_tools, with_parameters,
  chosen_policy, is_absent, normalized,
}
use agentrun_openai.Tools.Selection.{
  choice_policy, named_policy, mode_policy, read_choice, policy_of, Choice,
}
use agentrun_openai.Tools.Order.{Sorted, sort_tools-Sorted, sort_tools-All, member-sort_tools}

-- A schema that the source takes, in its canonical form.
abbrev pub IsSchema : (Text → Option Json) → Text → Type 0
IsSchema decode raw =
    ((v : Json) × (raw ≡ encode (canonical v)))
    × (opens_object raw ≡ true)
    × (read_type (decode raw) ≡ some (codes "object"))

abbrev pub IsTool : (Text → Option Json) → FunctionTool → Type 0
IsTool decode t =
    (t.kind ≡ codes "function")
    × (is_function_name t.function.name ≡ true)
    × IsSchema decode t.function.parameters

pub typed_ok :
    (t u : FunctionTool) (raw : Text) (kind : Option Text)
    → typed t raw kind ≡ ok u
    → (u ≡ with_parameters t raw) × (kind ≡ some (codes "object"))
typed_ok t u raw none h = ground arith
typed_ok t u raw (some kind) h = ground (arith, text_eq_iff kind (codes "object"))

pub checked_schema_ok :
    (decode : Text → Option Json) (t u : FunctionTool) (raw : Text)
    → checked_schema decode t (some raw) ≡ ok u
    → (u ≡ with_parameters t raw)
      × (opens_object raw ≡ true)
      × (read_type (decode raw) ≡ some (codes "object"))
checked_schema_ok decode t u raw h = ground (arith, typed_ok t u raw (read_type (decode raw)))

pub encoded_ok :
    (decode : Text → Option Json) (t u : FunctionTool) (o : Option Json)
    → checked_schema decode t (encoded o) ≡ ok u
    → (raw : Text) × (u ≡ with_parameters t raw) × IsSchema decode raw
encoded_ok decode t u none h = ground arith
encoded_ok decode t u (some v) h =
    let done = checked_schema_ok decode t u (encode (canonical v)) h in
    (encode (canonical v), done.0, ((v, refl), done.1, done.2))

-- A tool that is let through has its own name and kind, and a schema.
pub normalize_tool_ok :
    (decode : Text → Option Json) (t u : FunctionTool)
    → normalize_tool decode t ≡ ok u
    → (u.kind ≡ t.kind)
      × (u.function.name ≡ t.function.name)
      × IsSchema decode u.function.parameters
unfolding normalize_tool canonical_json
normalize_tool_ok decode t u h =
    let (raw, e, schema) = encoded_ok decode t u (decode (unless_absent t.function.parameters)) h in
    (
      ap (λ w. w.kind) e,
      ap (λ w. w.function.name) e,
      subst (λ s. IsSchema decode s) (ap (λ w. w.function.parameters) (sym e)) schema,
    )

pub if_ok :
    (b : Bool) (body : Result (List FunctionTool)) {us : List FunctionTool}
    → (if b then bad_name else body) ≡ ok us
    → (b ≡ false) × (body ≡ ok us)
if_ok true body h = ground arith
if_ok false body h = (refl, h)

-- One turn of the loop over the tools.
pub normalize_each_step :
    (decode : Text → Option Json) (names : List Text) (t : FunctionTool) (ts us : List FunctionTool)
    → normalize_each decode names (t ∷ ts) ≡ ok us
    → (u : FunctionTool) × (rest : List FunctionTool) × (is_refused names t ≡ false)
      × (normalize_tool decode t ≡ ok u)
      × (normalize_each decode (t.function.name ∷ names) ts ≡ ok rest)
      × (us ≡ u ∷ rest)
unfolding normalize_each
normalize_each_step decode names t ts us h =
    let (accepted, body) =
      if_ok (is_refused names t)
        (normalize_tool decode t >>= λ u.
          normalize_each decode (t.function.name ∷ names) ts >>= λ rest. ok (u ∷ rest))
        h in
    let (u, e, tail) =
      bind-eq-ok (normalize_tool decode t)
        (λ u. normalize_each decode (t.function.name ∷ names) ts >>= λ rest. ok (u ∷ rest)) body in
    let (rest, f, g) =
      bind-eq-ok (normalize_each decode (t.function.name ∷ names) ts) (λ rest. ok (u ∷ rest))
        tail in
    (u, rest, accepted, e, f, ground (arith, g))

pub accepted_fits :
    (names : List Text) (t : FunctionTool)
    → is_refused names t ≡ false
    → (t.kind ≡ codes "function")
      × (is_function_name t.function.name ≡ true)
      × (member t.function.name names ≡ false)
accepted_fits names t h = ground (arith, text_eq_iff t.kind (codes "function"))

abbrev pub Accepted :
    (Text → Option Json) → List Text → List FunctionTool → List FunctionTool → Type 0
Accepted decode names ts us =
    All (IsTool decode) us
    × Distinct (names_of us)
    × Apart names (names_of us)
    × (names_of us ≡ names_of ts)

pub normalize_each_ok :
    (decode : Text → Option Json) (names : List Text) (ts us : List FunctionTool)
    → normalize_each decode names ts ≡ ok us
    → Accepted decode names ts us
normalize_each_ok decode names [] us h =
    let e : [] ≡ us = unfold normalize_each in ground (arith, h) in
    subst (Accepted decode names []) e (tt, tt, tt, refl)
normalize_each_ok decode names (t ∷ ts) us h =
    let (u, rest, accepted, e, f, g) = normalize_each_step decode names t ts us h in
    let (all, distinct, apart, same) =
      normalize_each_ok decode (t.function.name ∷ names) ts rest f in
    let (kind, name, schema) = normalize_tool_ok decode t u e in
    let fit = accepted_fits names t accepted in
    let cut_off = Apart-cons t.function.name names (names_of rest) apart in
    subst (Accepted decode names (t ∷ ts)) (sym g) (
      ((kind ∙ fit.0, ap is_function_name name ∙ fit.1, schema), all),
      (ap (λ n. member n (names_of rest)) name ∙ cut_off.0, distinct),
      (ap (λ n. member n names) name ∙ fit.2, cut_off.1),
      ap₂ (λ n ns. n ∷ ns) name same,
    )

-- A policy that calls for a tool finds one, and one that names a tool finds that.
abbrev pub Met : Mode → Text → List FunctionTool → Type 0
Met auto name ts = Unit
Met off name ts = Unit
Met required name ts = ts ≢ []
Met named name ts = member name (names_of ts) ≡ true

-- A policy that names a tool names one of these.
abbrev pub Offered : Mode → Text → List FunctionTool → Type 0
Offered named name ts = member name (names_of ts) ≡ true
Offered _ name ts = Unit

pub mode_policy-Offered :
    (s : Text) (ts : List FunctionTool) (policy : ToolPolicy)
    → mode_policy s ≡ ok policy
    → Offered policy.mode policy.name ts
mode_policy-Offered s ts policy h = ground arith

pub named_policy-Offered :
    (ts : List FunctionTool) (c : Option Choice) (policy : ToolPolicy)
    → named_policy (names_of ts) c ≡ ok policy
    → Offered policy.mode policy.name ts
named_policy-Offered ts none policy h = ground arith
named_policy-Offered ts (some c) policy h = ground arith

pub counted_policy_ok :
    (ts : List FunctionTool) (p policy : ToolPolicy) → counted_policy ts p ≡ ok policy → p ≡ policy
counted_policy_ok [] p policy h = ground arith
counted_policy_ok (t ∷ ts) p policy h = ground arith

pub counted_policy-Met :
    (ts : List FunctionTool) (mode : Mode) (name : Text) {policy : ToolPolicy}
    → Offered mode name ts
    → counted_policy ts (policy_of mode name) ≡ ok policy
    → Met mode name ts
counted_policy-Met ts auto name o h = tt
counted_policy-Met ts off name o h = tt
counted_policy-Met ts named name o h = o
counted_policy-Met [] required name o h = ground arith
counted_policy-Met (t ∷ ts) required name o h = ground arith

pub choice_policy-Offered :
    (ts : List FunctionTool) (o : Option Json) (policy : ToolPolicy)
    → choice_policy (names_of ts) o ≡ ok policy
    → Offered policy.mode policy.name ts
choice_policy-Offered ts (some (string s)) policy h = mode_policy-Offered s ts policy h
choice_policy-Offered ts (some null) policy h = ground arith
choice_policy-Offered ts none policy h = named_policy-Offered ts (read_choice none) policy h
choice_policy-Offered ts (some (boolean b)) policy h =
    named_policy-Offered ts (read_choice (some (boolean b))) policy h
choice_policy-Offered ts (some (number n)) policy h =
    named_policy-Offered ts (read_choice (some (number n))) policy h
choice_policy-Offered ts (some (array xs)) policy h =
    named_policy-Offered ts (read_choice (some (array xs))) policy h
choice_policy-Offered ts (some (object fs)) policy h =
    named_policy-Offered ts (read_choice (some (object fs))) policy h

pub defaulted-Offered :
    (b : Bool) (ts : List FunctionTool) (o : Option Json) (policy : ToolPolicy)
    → (if b then ok (policy_of auto []) else choice_policy (names_of ts) o) ≡ ok policy
    → Offered policy.mode policy.name ts
defaulted-Offered true ts o policy h = ground arith
defaulted-Offered false ts o policy h = choice_policy-Offered ts o policy h

pub normalize_choice-Met :
    (decode : Text → Option Json) (ts : List FunctionTool) (choice : Text) (policy : ToolPolicy)
    → normalize_choice decode ts choice ≡ ok policy
    → Met policy.mode policy.name ts
unfolding normalize_choice
normalize_choice-Met decode ts choice policy h =
    let (p, e, f) = bind-eq-ok (chosen_policy decode ts choice) (counted_policy ts) h in
    let offered = defaulted-Offered (is_absent choice) ts (decode choice) p e in
    subst (λ (q : ToolPolicy). Met q.mode q.name ts) (counted_policy_ok ts p policy f)
      (counted_policy-Met ts p.mode p.name offered f)

-- Whatever `normalizeTools` lets through has only function tools of valid names, whose parameters are
-- a schema in canonical form, of type "object"; the names are those of the request, in order, and no
-- two are the same. A tool_choice that requires a tool has one, and one that names a tool names one of these.
pub normalize_tools_ok :
    (decode : Text → Option Json) (digest : Text → Text) (tools : List FunctionTool) (choice : Text)
    (result : Normalized)
    → normalize_tools decode digest tools choice ≡ ok result
    → All (IsTool decode) result.tools
      × Sorted result.tools
      × ((x : Text) → member x (names_of result.tools) ≡ member x (names_of tools))
      × Met result.policy.mode result.policy.name result.tools
      × (result.hash ≡ tools_hash digest result.tools)
unfolding normalize_tools
normalize_tools_ok decode digest tools choice result h =
    let (ts, e, f) =
      bind-eq-ok (normalize_each decode [] tools)
        (λ ts. with_choice decode digest choice (sort_tools ts)) h in
    let (all, distinct, apart, same) = normalize_each_ok decode [] tools ts e in
    let (policy, g, k) =
      bind-eq-ok (normalize_choice decode (sort_tools ts) choice)
        (λ p. ok (normalized digest (sort_tools ts) p)) f in
    let met = normalize_choice-Met decode (sort_tools ts) choice policy g in
    let done : normalized digest (sort_tools ts) policy ≡ result = ground (arith, k) in
    subst
      (λ (r : Normalized).
        All (IsTool decode) r.tools
        × Sorted r.tools
        × ((x : Text) → member x (names_of r.tools) ≡ member x (names_of tools))
        × Met r.policy.mode r.policy.name r.tools
        × (r.hash ≡ tools_hash digest r.tools))
      done
      (
        sort_tools-All (IsTool decode) ts all,
        sort_tools-Sorted ts distinct,
        (λ x. member-sort_tools x ts ∙ ap (member x) same),
        met,
        refl,
      )
