-- ===== src/Models/Routing.antt =====
-- Which route a request gets, and what discovery keeps (internal/gateway/server.go).
use agentrun_openai.Prelude.{ℕ, ◌≡◌, sym, ap, ◌∙◌, false, [], ◌∷◌, ◌++◌, arith, none, some}
use agentrun_openai.Prelude.Text.{Text, contains_char, cut}
use agentrun_openai.Prelude.Dict.{lookup}
use agentrun_openai.Models.{
  Catalog, Engine, no_route, resolve_model, resolve_engine, resolve_route, resolve_cut, route_id,
}

cut-append : (c : ℕ) (a b : Text) → contains_char c a ≡ false → cut c (a ++ (c ∷ b)) ≡ some (a, b)
unfolding cut contains_char
cut-append c [] b h = ground arith
cut-append c (d ∷ a) b h = ground (arith, cut-append c a b)

-- A request for an engine and a model of it that the catalog does not list and that is no engine's
-- ID itself goes to that engine, with the model passed on as it was written, slashes included.
pub resolve_unlisted :
    (k : Catalog) (engine_id : Text) (c : ℕ) (model : Text) (engine : Engine)
    → contains_char b'/' engine_id ≡ false
    → lookup engine_id k.engines ≡ some engine
    → lookup (route_id engine_id (c ∷ model)) k.engines ≡ none
    → lookup (route_id engine_id (c ∷ model)) k.routes ≡ none
    → resolve_model k (route_id engine_id (c ∷ model))
      ≡ some (record no_route {
        engine = some engine;
        engine_id = engine_id;
        backend_model = c ∷ model;
      })
unfolding resolve_model
resolve_unlisted k engine_id c model engine h e n r =
    rw
      (n, resolve_engine, r, resolve_route, cut-append b'/' engine_id (c ∷ model) h, resolve_cut, e)

-- The slash of a route's ID ends the engine's ID.
pub same_engine :
    (x y a b : Text)
    → contains_char b'/' x ≡ false
    → contains_char b'/' y ≡ false
    → route_id x a ≡ route_id y b
    → x ≡ y
same_engine x y a b hx hy e =
    first (sym (cut-append b'/' x a hx) ∙ ap (cut b'/') e ∙ cut-append b'/' y b hy)
  where
    first : {p q : Text × Text} → some p ≡ some q → p.0 ≡ q.0
    first h = cc
