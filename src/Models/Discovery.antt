-- ===== src/Models/Discovery.antt =====
-- What `discoverModels` of internal/gateway/server.go does to the routes.
use agentrun_openai.Prelude.{
  ◌≡◌, ◌≢◌, refl, sym, ap, ◌∙◌, Bool, true, false, List, [], ◌∷◌, arith, if◌then◌else◌, Option,
  none, some, Bool-cases, inl, inr, All, subst,
}
use agentrun_openai.Prelude.Text.{
  Text, contains_char, text_eq, text_eq_iff, member, is_empty, trim_space,
}
use agentrun_openai.Prelude.Distinct.{Distinct}
use agentrun_openai.Prelude.Dict.{Dict, lookup, insert, lookup-insert, Unique, insert-Unique}
use mathlib.Core.Path.{ap₂}
use agentrun_openai.Models.{
  Catalog, Engine, ModelRoute, ModelInfo, Listing, no_lister, failed, listed, route_id,
  details_or_none, refresh, refresh_all, discover_models, drop_engine, add_routes,
  grouped_bracket_routes, grouped_from, group_model, ModelDetails,
}
use agentrun_openai.Models.Routes.{grouped_bracket_routes-IsRoute}
use agentrun_openai.Models.Routing.{same_engine}

abbrev first_some : Option ModelRoute → Option ModelRoute → Option ModelRoute
first_some none o = o
first_some (some r) o = some r

abbrev unless_engine : Text → Option ModelRoute → Option ModelRoute
unless_engine y none = none
unless_engine y (some r) = if text_eq r.engine_id y then none else some r

lookup-add_routes :
    (id : Text) (fresh routes : Dict ModelRoute)
    → Unique fresh
    → lookup id (add_routes fresh routes) ≡ first_some (lookup id fresh) (lookup id routes)
unfolding add_routes lookup
lookup-add_routes id [] routes u = refl
lookup-add_routes id ((j, v) ∷ fresh) routes u = ground (
  arith,
  lookup-add_routes id fresh (insert j v routes) u.1,
  lookup-insert j id v routes,
  text_eq_iff j id,
)

lookup-drop_engine :
    (y id : Text) (m : Dict ModelRoute)
    → Unique m
    → lookup id (drop_engine y m) ≡ unless_engine y (lookup id m)
unfolding drop_engine lookup
lookup-drop_engine y id [] u = refl
lookup-drop_engine y id ((j, r) ∷ m) u =
    ground (arith, lookup-drop_engine y id m u.1, text_eq_iff j id)

drop_engine-Unique : (y : Text) (m : Dict ModelRoute) → Unique m → Unique (drop_engine y m)
unfolding drop_engine
drop_engine-Unique y [] u = tt
drop_engine-Unique y ((j, r) ∷ m) u =
    ground (arith, drop_engine-Unique y m u.1, lookup-drop_engine y j m u.1)

add_routes-Unique :
    (fresh routes : Dict ModelRoute) → Unique routes → Unique (add_routes fresh routes)
unfolding add_routes
add_routes-Unique [] routes u = u
add_routes-Unique ((j, v) ∷ fresh) routes u =
    add_routes-Unique fresh (insert j v routes) (insert-Unique j v routes u)

skip-Unique :
    (b : Bool) (j : Text) (v : ModelRoute) (routes : Dict ModelRoute)
    → Unique routes
    → Unique (if b then routes else insert j v routes)
skip-Unique true j v routes u = u
skip-Unique false j v routes u = insert-Unique j v routes u

grouped_from-Unique :
    (y : Text) (engine : Option Engine) (base : ModelDetails) (ms : List ModelInfo)
    (routes : Dict ModelRoute)
    → Unique routes
    → Unique (grouped_from y engine base ms routes)
unfolding grouped_from group_model
grouped_from-Unique y engine base [] routes u = u
grouped_from-Unique y engine base (m ∷ ms) routes u =
    grouped_from-Unique y engine base ms _ (skip-Unique (is_empty (trim_space m.id)) _ _ routes u)

-- Routes stand under their engine's ID, a slash and their model, no ID of an engine has a slash, and
-- no ID stands twice.
pub record WellFormed (routes : Dict ModelRoute) : Type 0 where
  pub unique : Unique routes
  pub owned :
      (id : Text) (r : ModelRoute)
      → lookup id routes ≡ some r
      → (contains_char b'/' r.engine_id ≡ false) × (id ≡ route_id r.engine_id r.backend_model)

module _ (k : Catalog) (y : Text) (y_plain : contains_char b'/' y ≡ false) where
  abbrev fresh_of : List ModelInfo → Dict ModelRoute
  fresh_of ms =
      grouped_bracket_routes y (lookup y k.engines) (details_or_none (lookup y k.details)) ms

  fresh-Unique : (ms : List ModelInfo) → Unique (fresh_of ms)
  unfolding grouped_bracket_routes
  fresh-Unique ms = grouped_from-Unique y _ _ ms [] tt

  lookup-refresh :
      (id : Text) (ms : List ModelInfo) (routes : Dict ModelRoute)
      → WellFormed routes
      → lookup id (refresh k y (listed ms) routes)
        ≡ first_some (lookup id (fresh_of ms)) (unless_engine y (lookup id routes))
  lookup-refresh id ms routes w =
      lookup-add_routes id (fresh_of ms) (drop_engine y routes) (fresh-Unique ms)
      ∙ ap (first_some (lookup id (fresh_of ms))) (lookup-drop_engine y id routes w.unique)

  refresh-WellFormed :
      (l : Listing) (routes : Dict ModelRoute)
      → WellFormed routes
      → WellFormed (refresh k y l routes)
  refresh-WellFormed no_lister routes w = w
  refresh-WellFormed (failed e) routes w = w
  refresh-WellFormed (listed ms) routes w = record {
    unique = add_routes-Unique (fresh_of ms) _ (drop_engine-Unique y routes w.unique);
    owned = λ id r h.
        one_of id r (lookup id (fresh_of ms)) (lookup id routes) refl refl
          (sym (lookup-refresh id ms routes w) ∙ h);
  }
    where
      one_of :
          (id : Text) (r : ModelRoute) (o p : Option ModelRoute)
          → lookup id (fresh_of ms) ≡ o
          → lookup id routes ≡ p
          → first_some o (unless_engine y p) ≡ some r
          → (contains_char b'/' r.engine_id ≡ false) × (id ≡ route_id r.engine_id r.backend_model)
      one_of id r (some q) p f g h =
          let i = grouped_bracket_routes-IsRoute y _ _ ms id r (f ∙ h) in
          (rw i.owned y_plain, rw i.owned i.under)
      one_of id r none none f g h = cc
      one_of id r none (some q) f g h = w.owned id r (g ∙ ground arith)

  module _ (x b : Text) (x_plain : contains_char b'/' x ≡ false) where
    no_fresh :
        (ms : List ModelInfo) (o : Option ModelRoute)
        → x ≢ y
        → lookup (route_id x b) (fresh_of ms) ≡ o
        → o ≡ none
    no_fresh ms none n e = refl
    no_fresh ms (some r) n e =
        let i = grouped_bracket_routes-IsRoute y _ _ ms _ r e in
        absurd (n (same_engine x y b r.backend_model x_plain y_plain i.under))

    owner :
        (routes : Dict ModelRoute) (r : ModelRoute)
        → WellFormed routes
        → lookup (route_id x b) routes ≡ some r
        → r.engine_id ≡ x
    owner routes r w e =
        let (p, u) = w.owned _ r e in sym (same_engine x r.engine_id b r.backend_model x_plain p u)

    unless_other :
        (routes : Dict ModelRoute) (o : Option ModelRoute)
        → x ≢ y
        → WellFormed routes
        → lookup (route_id x b) routes ≡ o
        → unless_engine y o ≡ o
    unless_other routes none n w e = refl
    unless_other routes (some r) n w e = elim (Bool-cases (text_eq r.engine_id y)) [
      | inl s ↦ absurd (n (sym (owner routes r w e) ∙ (text_eq_iff r.engine_id y).0 s))
      | inr d ↦ rw d
    ]

    unless_own :
        (routes : Dict ModelRoute) (o : Option ModelRoute)
        → x ≡ y
        → WellFormed routes
        → lookup (route_id x b) routes ≡ o
        → unless_engine y o ≡ none
    unless_own routes none n w e = refl
    unless_own routes (some r) n w e =
        let s = (text_eq_iff r.engine_id y).1 (owner routes r w e ∙ n) in rw s

    pub refresh_other :
        (l : Listing) (routes : Dict ModelRoute)
        → x ≢ y
        → WellFormed routes
        → lookup (route_id x b) (refresh k y l routes) ≡ lookup (route_id x b) routes
    refresh_other no_lister routes n w = refl
    refresh_other (failed e) routes n w = refl
    refresh_other (listed ms) routes n w =
        lookup-refresh _ ms routes w
        ∙ ap₂ first_some (no_fresh ms _ n refl) (unless_other routes _ n w refl)

    pub refresh_own :
        (ms : List ModelInfo) (routes : Dict ModelRoute)
        → x ≡ y
        → WellFormed routes
        → lookup (route_id x b) (refresh k y (listed ms) routes)
          ≡ lookup (route_id x b) (fresh_of ms)
    refresh_own ms routes s w =
        lookup-refresh _ ms routes w
        ∙ ap (first_some _) (unless_own routes _ s w refl)
        ∙ first_none (lookup (route_id x b) (fresh_of ms))
      where
        first_none : (o : Option ModelRoute) → first_some o none ≡ o
        first_none none = refl
        first_none (some r) = refl

-- What discovery leaves under an ID: what the engine listed, or what was there if it did not list.
abbrev pub after_listing : Catalog → Text → Text → Listing → Option ModelRoute
after_listing k x b (listed ms) =
    lookup (route_id x b)
      (grouped_bracket_routes x (lookup x k.engines) (details_or_none (lookup x k.details)) ms)
after_listing k x b no_lister = lookup (route_id x b) k.routes
after_listing k x b (failed e) = lookup (route_id x b) k.routes

module _ (k : Catalog) (listing : Text → Listing) (x b : Text)
    (x_plain : contains_char b'/' x ≡ false) where
  skipped :
      (ids : List Text) (routes : Dict ModelRoute)
      → All (λ y. contains_char b'/' y ≡ false) ids
      → member x ids ≡ false
      → WellFormed routes
      → lookup (route_id x b) (refresh_all listing k ids routes) ≡ lookup (route_id x b) routes
  unfolding refresh_all member
  skipped [] routes p m w = refl
  skipped (y ∷ ids) routes p m w =
      let other = λ (e : x ≡ y). ne e in
      skipped ids _ p.1 (ground arith) (refresh-WellFormed k y p.0 (listing y) routes w)
      ∙ refresh_other k y p.0 x b x_plain (listing y) routes other w
    where
      ne : x ≡ y → ⊥
      ne e = ground (arith, (text_eq_iff y x).1 (sym e))

  own_step :
      (l : Listing) (routes : Dict ModelRoute)
      → WellFormed routes
      → lookup (route_id x b) (refresh k x l routes)
        ≡ after_listing (record k { routes = routes }) x b l
  own_step no_lister routes w = refl
  own_step (failed e) routes w = refl
  own_step (listed ms) routes w = refresh_own k x x_plain x b x_plain ms routes refl w

  after_same :
      (l : Listing) (r s : Dict ModelRoute)
      → lookup (route_id x b) r ≡ lookup (route_id x b) s
      → after_listing (record k { routes = r }) x b l
        ≡ after_listing (record k { routes = s }) x b l
  after_same no_lister r s e = e
  after_same (failed z) r s e = e
  after_same (listed ms) r s e = refl

  own_first :
      (ids : List Text) (routes : Dict ModelRoute)
      → All (λ y. contains_char b'/' y ≡ false) ids
      → member x ids ≡ false
      → WellFormed routes
      → lookup (route_id x b) (refresh_all listing k (x ∷ ids) routes)
        ≡ after_listing (record k { routes = routes }) x b (listing x)
  unfolding refresh_all
  own_first ids routes p m w =
      skipped ids _ p m (refresh-WellFormed k x x_plain (listing x) routes w)
      ∙ own_step (listing x) routes w

  reached :
      (ids : List Text) (routes : Dict ModelRoute)
      → All (λ y. contains_char b'/' y ≡ false) ids
      → Distinct ids
      → member x ids ≡ true
      → WellFormed routes
      → lookup (route_id x b) (refresh_all listing k ids routes)
        ≡ after_listing (record k { routes = routes }) x b (listing x)
  unfolding refresh_all member
  reached [] routes p d m w = cc
  reached (y ∷ ids) routes p d m w = elim (Bool-cases (text_eq y x)) [
    | inl s ↦
        let same = sym ((text_eq_iff y x).0 s) in
        subst
          (λ z.
            lookup (route_id x b) (refresh_all listing k (z ∷ ids) routes)
            ≡ after_listing (record k { routes = routes }) x b (listing x))
          same (own_first ids routes p.1 (subst (λ z. member z ids ≡ false) (sym same) d.0) w)
    | inr s ↦
        reached ids _ p.1 d.1 (ground arith) (refresh-WellFormed k y p.0 (listing y) routes w)
        ∙ after_same (listing x) _ routes (
            refresh_other k y p.0 x b x_plain (listing y) routes
              (λ e. differs (sym s ∙ (text_eq_iff y x).1 (sym e))) w)
  ]
    where
      differs : false ≡ true → ⊥
      differs e = cc

-- Discovery over engines with different IDs without slashes, from well-formed routes. For an engine
-- among them and any model, the new catalog has under their ID what the engine listed there, so that
-- what it no longer lists is gone, and the last known route if the engine cannot list or fails.
pub discover_models_exact :
    (listing : Text → Listing) (k : Catalog) (x b : Text)
    → All (λ y. contains_char b'/' y ≡ false) k.models
    → Distinct k.models
    → WellFormed k.routes
    → member x k.models ≡ true
    → contains_char b'/' x ≡ false
    → lookup (route_id x b) (discover_models listing k).routes ≡ after_listing k x b (listing x)
unfolding discover_models
discover_models_exact listing k x b p d w m x_plain =
    reached k listing x b x_plain k.models k.routes p d m w
