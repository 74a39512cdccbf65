-- ===== src/Models/Objects.antt =====
-- The list of models of internal/gateway/server.go: `handleModels`, `modelObject`, `thinkingLevelMap`
-- and the result of `discoverModels`.
use agentrun_openai.Prelude.{
  ℕ, ◌≡◌, refl, ap, ◌∙◌, List, [], ◌∷◌, ◌++◌, Option, none, some, if◌then◌else◌, arith, All,
  All-append, Bool-cases, inl, inr,
}
use agentrun_openai.Prelude.Text.{Text, text_eq, text_eq_refl}
use agentrun_openai.Prelude.Dict.{Dict, lookup, insert}
use agentrun_openai.Json.Order.{text_lt}
use agentrun_openai.Models.{
  Catalog, Engine, ModelDetails, ModelRoute, Listing, efforts, details_or_none, discover_models,
  resolve_model, resolve_engine, resolve_route,
}

pub record DiscoveredModel : Type 0 where
  pub id : Text
  pub details : ModelDetails
  pub efforts : List Text

-- The loop over the routes.
abbrev pub collected : Dict ModelRoute → List DiscoveredModel
collected [] = []
collected ((id, route) ∷ routes) =
    record { id = id; details = route.details; efforts = efforts route.effort_variants }
    ∷ collected routes

-- `sort.Slice` by ID. The IDs of a map are different, so any sort gives this list.
unfoldable pub put_model : DiscoveredModel → List DiscoveredModel → List DiscoveredModel
put_model d [] = d ∷ []
put_model d (e ∷ es) =
    let rest = put_model d es in if text_lt d.id e.id then d ∷ e ∷ es else e ∷ rest

unfoldable pub sort_models : List DiscoveredModel → List DiscoveredModel
sort_models [] = []
sort_models (d ∷ ds) = put_model d (sort_models ds)

unfoldable pub discovered : (Text → Listing) → Catalog → List DiscoveredModel
unfolding discover_models sort_models
discovered listing k = sort_models (collected (discover_models listing k).routes)

-- `thinkingLevelMap`.
unfoldable pub thinking_level_map : List Text → Dict Text
thinking_level_map [] = []
thinking_level_map (e ∷ es) = insert e e (thinking_level_map es)

-- What is listed of a model: `levels` are the efforts and their map, which stand there if there are any.
pub record ModelObject : Type 0 where
  pub id : Text
  pub name : Text
  pub context_window : ℕ
  pub max_tokens : ℕ
  pub levels : Option (List Text × Dict Text)

abbrev pub name_or : Text → Text → Text
name_or [] id = id
name_or (c ∷ s) id = c ∷ s

abbrev pub levels_of : List Text → Option (List Text × Dict Text)
levels_of [] = none
levels_of (e ∷ es) = some (e ∷ es, thinking_level_map (e ∷ es))

abbrev pub model_object : Text → ModelDetails → List Text → ModelObject
model_object id details es = record {
  id = id;
  name = name_or details.name id;
  context_window = details.context_window;
  max_tokens = details.max_tokens;
  levels = levels_of es;
}

abbrev pub engine_objects : Catalog → List Text → List ModelObject
engine_objects k [] = []
engine_objects k (id ∷ ids) =
    model_object id (details_or_none (lookup id k.details)) [] ∷ engine_objects k ids

abbrev pub discovered_objects : List DiscoveredModel → List ModelObject
discovered_objects [] = []
discovered_objects (d ∷ ds) = model_object d.id d.details d.efforts ∷ discovered_objects ds

unfoldable pub handle_models : (Text → Listing) → Catalog → List ModelObject
unfolding discovered
handle_models listing k = engine_objects k k.models ++ discovered_objects (discovered listing k)

-- A key of the routes.
abbrev pub IsKey : Dict ModelRoute → Text → Type 0
IsKey routes id = (route : ModelRoute) × (lookup id routes ≡ some route)

IsKey-cons :
    (j : Text) (r : ModelRoute) (routes : Dict ModelRoute) (id : Text)
    → IsKey routes id
    → IsKey ((j, r) ∷ routes) id
unfolding lookup
IsKey-cons j r routes id (route, h) = elim (Bool-cases (text_eq j id)) [
  | inl e ↦ (r, ground (arith, e))
  | inr e ↦ (route, ground (arith, e, h))
]

keys-more :
    (j : Text) (r : ModelRoute) (routes : Dict ModelRoute) (ds : List DiscoveredModel)
    → All (λ d. IsKey routes d.id) ds
    → All (λ d. IsKey ((j, r) ∷ routes) d.id) ds
keys-more j r routes [] a = tt
keys-more j r routes (d ∷ ds) a = (IsKey-cons j r routes d.id a.0, keys-more j r routes ds a.1)

collected-IsKey : (routes : Dict ModelRoute) → All (λ d. IsKey routes d.id) (collected routes)
collected-IsKey [] = tt
collected-IsKey ((id, r) ∷ routes) = (
  (r, unfold lookup in ground (arith, text_eq_refl id)),
  keys-more id r routes (collected routes) (collected-IsKey routes),
)

module _ (P : DiscoveredModel → Type 0) where
  put_model-All :
      (d : DiscoveredModel) (es : List DiscoveredModel) → P d → All P es → All P (put_model d es)
  unfolding put_model
  put_model-All d [] h a = (h, tt)
  put_model-All d (e ∷ es) h a = ground (arith, put_model-All d es)

  sort_models-All : (ds : List DiscoveredModel) → All P ds → All P (sort_models ds)
  unfolding sort_models
  sort_models-All [] a = tt
  sort_models-All (d ∷ ds) a = put_model-All d (sort_models ds) a.0 (sort_models-All ds a.1)

abbrev pub CanRequest : Catalog → ModelObject → Type 0
CanRequest k o = (route : ModelRoute) × (resolve_model k o.id ≡ some route)

engine_objects-CanRequest :
    (k after : Catalog) (ids : List Text)
    → after.engines ≡ k.engines
    → All (λ id. (engine : Engine) × (lookup id k.engines ≡ some engine)) ids
    → All (CanRequest after) (engine_objects k ids)
unfolding resolve_model
engine_objects-CanRequest k after [] e a = tt
engine_objects-CanRequest k after (id ∷ ids) e a = (
  (
    _,
    ap (λ engines. resolve_engine after id (lookup id engines)) e
        ∙ ap (resolve_engine after id) (a.0).1,
  ),
  engine_objects-CanRequest k after ids e a.1,
)

engine_or_route :
    (k : Catalog) (id : Text) (o : Option Engine)
    → IsKey k.routes id
    → (route : ModelRoute) × (resolve_engine k id o ≡ some route)
engine_or_route k id (some engine) h = (_, refl)
engine_or_route k id none (route, h) = (route, ap (resolve_route k id) h)

route-CanRequest :
    (k : Catalog) (id : Text)
    → IsKey k.routes id
    → (route : ModelRoute) × (resolve_model k id ≡ some route)
unfolding resolve_model
route-CanRequest k id h = engine_or_route k id (lookup id k.engines) h

discovered_objects-CanRequest :
    (k : Catalog) (ds : List DiscoveredModel)
    → All (λ d. IsKey k.routes d.id) ds
    → All (CanRequest k) (discovered_objects ds)
discovered_objects-CanRequest k [] a = tt
discovered_objects-CanRequest k (d ∷ ds) a =
    (route-CanRequest k d.id a.0, discovered_objects-CanRequest k ds a.1)

-- Each engine that is named as a model is configured. Then every model in the list that is sent can be
-- requested: in the catalog that the discovery leaves it has a route.
pub handle_models-CanRequest :
    (listing : Text → Listing) (k : Catalog)
    → All (λ id. (engine : Engine) × (lookup id k.engines ≡ some engine)) k.models
    → All (CanRequest (discover_models listing k)) (handle_models listing k)
unfolding handle_models discovered
handle_models-CanRequest listing k a =
    All-append (CanRequest (discover_models listing k)) (engine_objects k k.models)
      (discovered_objects (sort_models (collected (discover_models listing k).routes)))
      (engine_objects-CanRequest k (discover_models listing k) k.models
        (unfold discover_models in refl) a)
      (discovered_objects-CanRequest (discover_models listing k)
        (sort_models (collected (discover_models listing k).routes))
        (sort_models-All (λ d. IsKey (discover_models listing k).routes d.id)
          (collected (discover_models listing k).routes)
          (collected-IsKey (discover_models listing k).routes)))
