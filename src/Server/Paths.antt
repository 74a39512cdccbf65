-- ===== src/Server/Paths.antt =====
-- `resolveAllowedCWD` of internal/gateway/server.go. `eval` is `filepath.EvalSymlinks`, whose results
-- are clean absolute paths, and `relative` is `filepath.Rel` on such paths, by components.
use agentrun_openai.Prelude.{
  ◌≡◌, refl, ap, sym, subst, ◌∙◌, Bool, true, false, not, ◌&&◌, List, [], ◌∷◌, ◌++◌, arith,
  if◌then◌else◌,
}
use agentrun_openai.Prelude.Text.{
  Text, codes, is_empty, text_eq, text_eq_iff, text_eq_refl, member, has_prefix, split_on, join,
}
use agentrun_openai.Types.{wrapped, Result, ok, err, ◌>>=◌, bind-eq-ok}

unfoldable pub filled : List Text → List Text
filled [] = []
filled (w ∷ ws) = let rest = filled ws in if is_empty w then rest else w ∷ rest

unfoldable pub components : Text → List Text
components path = filled (split_on b'/' path)

abbrev pub dotdot : Text
dotdot = b'.' ∷ b'.' ∷ []

abbrev pub ups : List Text → List Text → List Text
ups [] ts = ts
ups (b ∷ bs) ts = dotdot ∷ ups bs ts

unfoldable pub relative : List Text → List Text → List Text
relative [] ts = ts
relative (b ∷ bs) [] = ups (b ∷ bs) []
relative (b ∷ bs) (t ∷ ts) =
    let rest = relative bs ts in if text_eq b t then rest else ups (b ∷ bs) (t ∷ ts)

abbrev pub or_dot : List Text → Text
or_dot [] = b'.' ∷ []
or_dot (w ∷ ws) = join (b'/' ∷ []) (w ∷ ws)

abbrev pub rel : Text → Text → Text
rel base target = or_dot (relative (components base) (components target))

abbrev pub is_inside : Text → Bool
is_inside r = not (text_eq r dotdot) && not (has_prefix r (dotdot ++ (b'/' ∷ [])))

unfoldable pub search_roots : (Text → Result Text) → Text → List Text → Result (Text × Bool)
search_roots eval resolved [] = ok (resolved, false)
search_roots eval resolved (root ∷ roots) =
    let rest = search_roots eval resolved roots in
    elim (eval root) [
      | err e ↦ err (wrapped (codes "resolve allowed root %s: %w") (root ∷ []) e)
      | ok r ↦ if is_inside (rel r resolved) then ok (resolved, true) else rest
    ]

unfoldable pub resolve_allowed_cwd : (Text → Result Text) → Text → List Text → Result (Text × Bool)
resolve_allowed_cwd eval cwd roots = eval cwd >>= λ resolved. search_roots eval resolved roots

-- A way that starts upwards is not inside.
ups_outside : (b : Text) (bs ts : List Text) → is_inside (or_dot (ups (b ∷ bs) ts)) ≡ false
unfolding text_eq has_prefix join
ups_outside b [] [] = refl
ups_outside b [] (t ∷ ts) = refl
ups_outside b (c ∷ bs) ts = refl

relative_inside :
    (bs ts : List Text)
    → is_inside (or_dot (relative bs ts)) ≡ true
    → (rest : List Text) × (ts ≡ bs ++ rest)
unfolding relative
relative_inside [] ts h = (ts, refl)
relative_inside (b ∷ bs) [] h = let outside = ups_outside b bs [] in cc
relative_inside (b ∷ bs) (t ∷ ts) h = go (text_eq b t) refl h (relative_inside bs ts)
  where
    go :
        (q : Bool)
        → text_eq b t ≡ q
        → is_inside (or_dot (if q then relative bs ts else ups (b ∷ bs) (t ∷ ts))) ≡ true
        → (is_inside (or_dot (relative bs ts)) ≡ true → (rest : List Text) × (ts ≡ bs ++ rest))
        → (rest : List Text) × (t ∷ ts ≡ b ∷ bs ++ rest)
    go true e h rec = let (rest, p) = rec h in let same = (text_eq_iff b t).0 e in (rest, cc)
    go false e h rec = let outside = ups_outside b bs (t ∷ ts) in cc

-- A directory is inside an allowed root: its components are the root's and more behind them.
abbrev pub Inside : (Text → Result Text) → List Text → Text → Type 0
Inside eval roots cwd =
    (root : Text) × (resolved : Text) × (member root roots ≡ true)
    × (eval root ≡ ok resolved)
    × (rest : List Text) × (components cwd ≡ components resolved ++ rest)

root_found :
    (eval : Text → Result Text) (cwd found root p : Text) (roots : List Text) (b : Bool)
    → eval root ≡ ok p
    → is_inside (rel p cwd) ≡ b
    → (if b then ok (cwd, true) else search_roots eval cwd roots) ≡ ok (found, true)
    → (search_roots eval cwd roots ≡ ok (found, true) → (found ≡ cwd) × Inside eval roots cwd)
    → (found ≡ cwd) × Inside eval (root ∷ roots) cwd
unfolding member
root_found eval cwd found root p roots true e i h rec =
    let (rest, inside) = relative_inside (components p) (components cwd) i in
    (cc, (root, p, rw (text_eq_refl root) refl, e, rest, inside))
root_found eval cwd found root p roots false e i h rec =
    let (same, (r, q, m, f, rest, inside)) = rec h in
    (same, (r, q, ground (arith, m), f, rest, inside))

search_roots-Inside :
    (eval : Text → Result Text) (cwd found : Text) (roots : List Text)
    → search_roots eval cwd roots ≡ ok (found, true)
    → (found ≡ cwd) × Inside eval roots cwd
unfolding search_roots
search_roots-Inside eval cwd found [] h = cc
search_roots-Inside eval cwd found (root ∷ roots) h =
    go (eval root) refl h (search_roots-Inside eval cwd found roots)
  where
    go :
        (r : Result Text)
        → eval root ≡ r
        → (elim r [
          | err e ↦ err (wrapped (codes "resolve allowed root %s: %w") (root ∷ []) e)
          | ok p ↦ if is_inside (rel p cwd) then ok (cwd, true) else search_roots eval cwd roots
        ])
          ≡ ok (found, true)
        → (search_roots eval cwd roots ≡ ok (found, true) → (found ≡ cwd) × Inside eval roots cwd)
        → (found ≡ cwd) × Inside eval (root ∷ roots) cwd
    go (err e) f h rec = cc
    go (ok p) f h rec = root_found eval cwd found root p roots (is_inside (rel p cwd)) f refl h rec

-- A directory that is allowed lies, with its symbolic links resolved, inside an allowed root with its
-- symbolic links resolved; and it is this resolved directory that is used.
pub resolve_allowed_cwd-Inside :
    (eval : Text → Result Text) (cwd found : Text) (roots : List Text)
    → resolve_allowed_cwd eval cwd roots ≡ ok (found, true)
    → (eval cwd ≡ ok found) × Inside eval roots found
unfolding resolve_allowed_cwd
resolve_allowed_cwd-Inside eval cwd found roots h =
    let (resolved, e, s) = bind-eq-ok (eval cwd) (λ r. search_roots eval r roots) h in
    let (same, inside) = search_roots-Inside eval resolved found roots s in
    (e ∙ ap ok (sym same), subst (Inside eval roots) (sym same) inside)
