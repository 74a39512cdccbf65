-- ===== src/Backend/Valid.antt =====
-- What the parsers of acp_backend.go promise of a configuration that they return.
use agentrun_openai.Prelude.{
  ◌≡◌, ◌≢◌, ◌↔◌, refl, sym, ap, ◌∙◌, subst, false, List, [], ◌∷◌, ◌++◌, arith, append_assoc,
  append-nil, Option, none, some, Bool-cases, inl, inr,
}
use agentrun_openai.Prelude.Text.{
  Text, codes, contains_char, contains_any, trim_space, member, cut, split_on,
}
use agentrun_openai.Prelude.Distinct.{Distinct, Apart, Apart-cons, cons-Apart}
use agentrun_openai.Types.{GoError, Result, ok, err, ◌>>=◌, bind-eq-ok}
use agentrun_openai.Backend.{
  AcpBackendConfig, Fields, validate_acp_id, checked, backend, backend_of_tokens, parse_command,
  parse_standard, parse_structured, parse_trimmed, parse_acp_backend, parse_from,
  parse_acp_backends, unwrap_command, is_structured, comma_tokens, set_parts,
}

-- A backend that can be named in a model ID and started.
pub record Valid (b : AcpBackendConfig) : Type 0 where
  pub named : b.id ≢ []
  pub no_slash : contains_char b'/' b.id ≡ false
  pub no_space : contains_any b.id (codes " \t\r\n:") ≡ false
  pub runs : b.binary ≢ []

validate_acp_id-none :
    (id : Text)
    → validate_acp_id id ≡ none
    → (id ≢ []) × (contains_char b'/' id ≡ false) × (contains_any id (codes " \t\r\n:") ≡ false)
unfolding validate_acp_id
validate_acp_id-none id h = (λ e. ground (arith, e), ground arith, ground arith)

checked-ok {ℓ} :
    {A : Type ℓ} (o : Option GoError) (r : Result A) {a : A}
    → checked o r ≡ ok a
    → (o ≡ none) × (r ≡ ok a)
checked-ok none r h = (refl, h)
checked-ok (some e) r h = cc

backend-ok :
    (id binary : Text) (args : List Text) (b : AcpBackendConfig)
    → backend id binary args ≡ ok b
    → (b.id ≡ id) × (b.binary ≢ [])
backend-ok id binary args b h = (ground arith, λ e. ground (arith, e))

Valid-of :
    (id : Text) (b : AcpBackendConfig)
    → validate_acp_id id ≡ none
    → (b.id ≡ id) × (b.binary ≢ [])
    → Valid b
Valid-of id b v h =
    let (named, no_slash, no_space) = validate_acp_id-none b.id (rw h.0 v) in
    record { named = named; no_slash = no_slash; no_space = no_space; runs = h.1 }

tokens-ok :
    (id : Text) (ws : List Text) (b : AcpBackendConfig)
    → backend_of_tokens id ws ≡ ok b
    → (b.id ≡ id) × (b.binary ≢ [])
tokens-ok id [] b h = cc
tokens-ok id (w ∷ ws) b h = backend-ok id (trim_space w) ws b h

command-ok :
    (id cmd : Text) (b : AcpBackendConfig)
    → parse_command id cmd ≡ ok b
    → (b.id ≡ id) × (b.binary ≢ [])
unfolding parse_command
command-ok id cmd b h =
    let (ws, _, e) = bind-eq-ok _ (λ tokens. backend_of_tokens id (comma_tokens cmd tokens)) h in
    tokens-ok id (comma_tokens cmd ws) b e

standard-Valid :
    (spec : Text) (o : Option (Text × Text)) (b : AcpBackendConfig)
    → parse_standard spec o ≡ ok b
    → Valid b
unfolding parse_standard
standard-Valid spec none b h = cc
standard-Valid spec (some (id, cmd)) b h =
    let (v, e) = checked-ok (validate_acp_id (trim_space id)) _ h in
    Valid-of (trim_space id) b v (command-ok (trim_space id) (unwrap_command (trim_space cmd)) b e)

structured-Valid : (spec : Text) (b : AcpBackendConfig) → parse_structured spec ≡ ok b → Valid b
unfolding parse_structured
structured-Valid spec b h =
    let (f, _, e) =
      bind-eq-ok {A = Fields} (set_parts spec (split_on b',' spec) _)
        (λ f. checked (validate_acp_id f.id) (backend f.id f.binary f.args)) h in
    let (v, k) = checked-ok (validate_acp_id f.id) (backend f.id f.binary f.args) e in
    Valid-of f.id b v (backend-ok f.id f.binary f.args b k)

trimmed-Valid : (spec : Text) (b : AcpBackendConfig) → parse_trimmed spec ≡ ok b → Valid b
unfolding parse_trimmed
trimmed-Valid [] b h = cc
trimmed-Valid (c ∷ spec) b h = elim (Bool-cases (is_structured (c ∷ spec))) [
  | inl e ↦ structured-Valid (c ∷ spec) b (rw e at h)
  | inr e ↦ standard-Valid (c ∷ spec) (cut b'=' (c ∷ spec)) b (rw e at h)
]

-- A specification that parses, in either format, names a backend that can be used: its ID is not
-- empty and holds no slash, space, tab, line break or colon, and its binary is not empty.
pub parse_acp_backend-Valid :
    (spec : Text) (b : AcpBackendConfig) → parse_acp_backend spec ≡ ok b → Valid b
unfolding parse_acp_backend
parse_acp_backend-Valid spec b h = trimmed-Valid (trim_space spec) b h

abbrev pub backend_ids : List AcpBackendConfig → List Text
backend_ids [] = []
backend_ids (b ∷ bs) = b.id ∷ backend_ids bs

-- Backends are what their specifications parse to, one for each, in order.
abbrev pub ParsedTo : List Text → List AcpBackendConfig → Type 0
ParsedTo [] [] = Unit
ParsedTo (s ∷ specs) (b ∷ bs) = (parse_acp_backend s ≡ ok b) × ParsedTo specs bs
ParsedTo _ _ = ⊥

parse_from_sound :
    (seen : List Text) (acc : List AcpBackendConfig) (specs : List Text)
    (bs : List AcpBackendConfig)
    → parse_from seen acc specs ≡ ok bs
    → (new : List AcpBackendConfig) × (bs ≡ acc ++ new)
      × ParsedTo specs new
      × Distinct (backend_ids new)
      × Apart seen (backend_ids new)
unfolding parse_from
parse_from_sound seen acc [] bs h = ([], ground (arith, append-nil acc), tt, tt, tt)
parse_from_sound seen acc (spec ∷ specs) bs h =
    let (b, p, e) = bind-eq-ok (parse_acp_backend spec) _ h in
    elim (Bool-cases (member b.id seen)) [
      | inl d ↦ absurd (refused (rw d at e))
      | inr d ↦
          let (new, split, parsed, distinct, apart) =
            parse_from_sound (b.id ∷ seen) (acc ++ (b ∷ [])) specs bs (rw d at e) in
          let (fresh, old) = Apart-cons b.id seen (backend_ids new) apart in
          (b ∷ new, split ∙ append_assoc acc (b ∷ []) new, (p, parsed), (fresh, distinct), (d, old))
    ]
  where
    refused : {e : GoError} → err e ≡ ok bs → ⊥
    refused x = cc

parse_from_complete :
    (seen : List Text) (acc : List AcpBackendConfig) (specs : List Text)
    (new : List AcpBackendConfig)
    → ParsedTo specs new
    → Distinct (backend_ids new)
    → Apart seen (backend_ids new)
    → parse_from seen acc specs ≡ ok (acc ++ new)
unfolding parse_from
parse_from_complete seen acc [] [] p d a = ap ok (sym (append-nil acc))
parse_from_complete seen acc [] (b ∷ new) p d a = absurd p
parse_from_complete seen acc (spec ∷ specs) [] p d a = absurd p
parse_from_complete seen acc (spec ∷ specs) (b ∷ new) p d a =
    rw (p.0, ◌>>=◌, a.0)
      (parse_from_complete (b.id ∷ seen) (acc ++ (b ∷ [])) specs new p.1 d.1
          (cons-Apart b.id seen (backend_ids new) d.0 a.1)
        ∙ ap ok (append_assoc acc (b ∷ []) new))

-- A list of specifications is accepted exactly when each parses and no two have one ID, and the result
-- is then the backends that they parse to, in order.
pub parse_acp_backends_iff :
    (specs : List Text) (bs : List AcpBackendConfig)
    → (parse_acp_backends specs ≡ ok bs) ↔ (ParsedTo specs bs × Distinct (backend_ids bs))
unfolding parse_acp_backends member
parse_acp_backends_iff specs bs = (
  λ h.
      let (new, same, parsed, distinct, _) = parse_from_sound [] [] specs bs h in
      subst (λ xs. ParsedTo specs xs × Distinct (backend_ids xs)) (sym same) (parsed, distinct),
  λ h. parse_from_complete [] [] specs bs h.0 h.1 (apart (backend_ids bs)),
)
  where
    apart : (xs : List Text) → Apart [] xs
    apart [] = tt
    apart (x ∷ xs) = (refl, apart xs)
