-- ===== src/Command/Roots.antt =====
-- `resolveRoots` of cmd/agentrun-openai/main.go.
use agentrun_openai.Prelude.{
  ◌≡◌, refl, Bool, true, false, not, List, [], ◌∷◌, if◌then◌else◌, arith, All, length, suc, ap,
  subst,
}
use agentrun_openai.Prelude.Text.{Text, codes}
use agentrun_openai.Types.{formatted, wrapped, Result, ok, err, ◌>>=◌, bind-eq-ok}
use agentrun_openai.Session.Store.{is_abs}
use agentrun_openai.Command.Flags.{Machine}

abbrev pub is_directory : Text → Text → Result Bool → Result Text
is_directory root resolved (err e) = err (wrapped (codes "stat allowed root %s: %w") (root ∷ []) e)
is_directory root resolved (ok false) =
    err (formatted (codes "allowed root is not a directory: %s") (root ∷ []))
is_directory root resolved (ok true) = ok resolved

abbrev pub resolve_with : Machine → Text → Result Text → Result Text
resolve_with m root (err e) = err (wrapped (codes "resolve allowed root %s: %w") (root ∷ []) e)
resolve_with m root (ok resolved) = is_directory root resolved (m.stat resolved)

unfoldable pub resolve_root : Machine → Text → Result Text
resolve_root m root =
    if not (is_abs root)
    then err (formatted (codes "allowed root must be absolute: %s") (root ∷ []))
    else resolve_with m root (m.eval root)

unfoldable pub resolve_roots : Machine → List Text → Result (List Text)
unfolding resolve_root
resolve_roots m [] = ok []
resolve_roots m (root ∷ roots) =
    let rest = resolve_roots m roots in
    resolve_root m root >>= λ resolved. rest >>= λ more. ok (resolved ∷ more)

-- A root that agents may work in: a directory, to which an absolute path resolves.
abbrev pub IsRoot : Machine → Text → Type 0
IsRoot m resolved =
    (root : Text) × (is_abs root ≡ true) × (m.eval root ≡ ok resolved) × (m.stat resolved ≡ ok true)

pub is_directory_ok :
    (root resolved found : Text) (r : Result Bool)
    → is_directory root resolved r ≡ ok found
    → (r ≡ ok true) × (resolved ≡ found)
is_directory_ok root resolved found (err e) h = ground (arith, h)
is_directory_ok root resolved found (ok false) h = ground (arith, h)
is_directory_ok root resolved found (ok true) h = (refl, ground (arith, h))

pub resolve_with_ok :
    (m : Machine) (root found : Text) (r : Result Text)
    → resolve_with m root r ≡ ok found
    → (r ≡ ok found) × (m.stat found ≡ ok true)
resolve_with_ok m root found (err e) h = ground (arith, h)
resolve_with_ok m root found (ok resolved) h =
    let (directory, same) = is_directory_ok root resolved found (m.stat resolved) h in
    (ap ok same, subst (λ p. m.stat p ≡ ok true) same directory)

pub resolve_root_ok :
    (m : Machine) (root found : Text) → resolve_root m root ≡ ok found → IsRoot m found
unfolding resolve_root
resolve_root_ok m root found h = (
  root,
  ground (arith, resolve_with_ok m root found (m.eval root)),
  ground (arith, resolve_with_ok m root found (m.eval root)),
  ground (arith, resolve_with_ok m root found (m.eval root)),
)

pub resolve_roots_ok :
    (m : Machine) (roots found : List Text)
    → resolve_roots m roots ≡ ok found
    → All (IsRoot m) found × (length found ≡ length roots)
unfolding resolve_roots
resolve_roots_ok m [] found h =
    let same : [] ≡ found = ground (arith, h) in
    subst (λ xs. All (IsRoot m) xs × (length xs ≡ 0)) same (tt, refl)
resolve_roots_ok m (root ∷ roots) found h =
    let (resolved, e, f) =
      bind-eq-ok (resolve_root m root) (λ r. resolve_roots m roots >>= λ more. ok (r ∷ more)) h in
    let (more, g, k) = bind-eq-ok (resolve_roots m roots) (λ more. ok (resolved ∷ more)) f in
    let same : resolved ∷ more ≡ found = ground (arith, k) in
    let (all, count) = resolve_roots_ok m roots more g in
    subst (λ xs. All (IsRoot m) xs × (length xs ≡ suc (length roots))) same
      ((resolve_root_ok m root resolved e, all), ap suc count)
