-- ===== src/Models.antt =====
-- The model catalog of internal/gateway/server.go: effort variants, routes, discovery and the choice
-- of a route for a request. Engines are opaque handles; what their `ListModels` answers is an argument.
pub mod Effort
pub mod Routes
pub mod Offers
pub mod Routing
pub mod Discovery
pub mod Objects
mod Tests
use agentrun_openai.Prelude.{
  ℕ, suc, Bool, true, false, not, ◌&&◌, ◌||◌, List, [], ◌∷◌, ◌++◌, map, Option, none, some,
  if◌then◌else◌, ◌==◌, ltb,
}
use agentrun_openai.Prelude.Text.{
  Text, codes, is_empty, trim_space, contains_any, contains_char, cut, cut_last, split_last,
  text_eq, member,
}
use agentrun_openai.Prelude.Dict.{Dict, lookup, insert}
use agentrun_openai.Types.{GoError, formatted, discovery_unsupported, Result, ok, err}

abbrev pub Engine : Type 0
Engine = ℕ

pub record ModelDetails : Type 0 where
  pub name : Text
  pub context_window : ℕ
  pub max_tokens : ℕ

abbrev pub no_details : ModelDetails
no_details = record { name = []; context_window = 0; max_tokens = 0 }

pub record EffortVariant : Type 0 where
  pub effort : Text
  pub model_id : Text

pub record ModelRoute : Type 0 where
  pub engine : Option Engine
  pub engine_id : Text
  pub backend_model : Text
  pub effective_ids : List Text
  pub effort_variants : List EffortVariant
  pub selected_effort : Text
  pub details : ModelDetails

abbrev pub no_route : ModelRoute
no_route = record {
  engine = none;
  engine_id = [];
  backend_model = [];
  effective_ids = [];
  effort_variants = [];
  selected_effort = [];
  details = no_details;
}

-- `agentrun.ModelInfo`.
pub record ModelInfo : Type 0 where
  pub id : Text
  pub name : Text
  pub aliases : List Text

abbrev pub brackets : Text
brackets = codes "[]"

-- `splitEffortModelID`, at the last opening bracket, on the part behind it without the last `]`.
abbrev pub effort_parts : Text → Option (Text × ℕ) → Option (Text × Text)
effort_parts base none = none
effort_parts base (some (effort, close)) =
    if not (close == b']')
      || is_empty base
      || is_empty effort
      || contains_any base brackets
      || contains_any effort brackets
      || is_empty (trim_space effort)
    then none
    else some (base, effort)

abbrev pub split_at_open : Option (Text × Text) → Option (Text × Text)
split_at_open none = none
split_at_open (some (base, tail)) = effort_parts base (split_last tail)

unfoldable pub split_effort_model_id : Text → Option (Text × Text)
split_effort_model_id id = split_at_open (cut_last b'[' id)

-- `strings.TrimSuffix`.
unfoldable pub trim_suffix : Text → Text → Text
trim_suffix [] suffix = []
trim_suffix (c ∷ s) suffix =
    let rest = c ∷ trim_suffix s suffix in if text_eq (c ∷ s) suffix then [] else rest

abbrev pub first_of_two : Text → Text → Text
first_of_two [] t = t
first_of_two (c ∷ s) t = c ∷ s

-- The name of a model in the catalog.
abbrev pub model_name : Option (Text × Text) → Text → Text → Text
model_name none base name = first_of_two (trim_space name) base
model_name (some (_, effort)) base name =
    first_of_two (trim_suffix (trim_space name) (codes " (" ++ (effort ++ codes ")"))) base

abbrev pub base_name : Text → Text → Text
base_name [] name = name
base_name (c ∷ base) name = (c ∷ base) ++ (codes " · " ++ name)

abbrev pub base_of : Option (Text × Text) → Text → Text
base_of none model_id = model_id
base_of (some (base, _)) model_id = base

abbrev pub plain_ids : Option (Text × Text) → Text → List Text → List Text
plain_ids none model_id aliases = model_id ∷ aliases
plain_ids (some _) model_id aliases = []

-- A route for a model that has no effort variants yet.
abbrev pub fresh_route :
    Text → Option Engine → ModelDetails → ModelInfo → Text → Option (Text × Text) → ModelRoute
fresh_route engine_id engine base model model_id split = record {
  engine = engine;
  engine_id = engine_id;
  backend_model = base_of split model_id;
  effective_ids = plain_ids split model_id model.aliases;
  effort_variants = [];
  selected_effort = [];
  details = record base {
    name = base_name base.name (model_name split (base_of split model_id) model.name);
  };
}

unfoldable pub add_variant : Text → Text → List EffortVariant → List EffortVariant
add_variant effort model_id [] = record { effort = effort; model_id = model_id } ∷ []
add_variant effort model_id (v ∷ vs) =
    if text_eq v.effort effort
    then record v { model_id = model_id } ∷ vs
    else v ∷ add_variant effort model_id vs

abbrev pub with_variant : Option (Text × Text) → Text → ModelRoute → ModelRoute
with_variant none model_id route = route
with_variant (some (_, effort)) model_id route = record route {
  effort_variants = add_variant effort model_id route.effort_variants;
}

abbrev pub route_or_none : Option ModelRoute → ModelRoute
route_or_none none = no_route
route_or_none (some route) = route

abbrev pub route_id : Text → Text → Text
route_id engine_id base = engine_id ++ (b'/' ∷ base)

-- One model of the catalog, at the route that stands for its base.
unfoldable pub group_into :
    Text
    → Option Engine
    → ModelDetails
    → ModelInfo
    → Text
    → Option (Text × Text)
    → ModelRoute
    → ModelRoute
group_into engine_id engine base model model_id split route = with_variant split model_id (
    if is_empty route.effort_variants
    then fresh_route engine_id engine base model model_id split
    else route)

unfoldable pub group_model :
    Text → Option Engine → ModelDetails → ModelInfo → Dict ModelRoute → Dict ModelRoute
group_model engine_id engine base model routes =
    let model_id = trim_space model.id in
    let split = split_effort_model_id model_id in
    let id = route_id engine_id (base_of split model_id) in
    if is_empty model_id
    then routes
    else insert id
        (group_into engine_id engine base model model_id split (route_or_none (lookup id routes)))
        routes

unfoldable pub grouped_from :
    Text → Option Engine → ModelDetails → List ModelInfo → Dict ModelRoute → Dict ModelRoute
grouped_from engine_id engine base [] routes = routes
grouped_from engine_id engine base (model ∷ models) routes =
    grouped_from engine_id engine base models (group_model engine_id engine base model routes)

unfoldable pub grouped_bracket_routes :
    Text → Option Engine → ModelDetails → List ModelInfo → Dict ModelRoute
grouped_bracket_routes engine_id engine base models = grouped_from engine_id engine base models []

abbrev pub efforts : List EffortVariant → List Text
efforts [] = []
efforts (v ∷ vs) = v.effort ∷ efforts vs

-- `selectReasoningEffort`: the loop over the variants, and what is around it.
unfoldable pub find_variant : Text → List EffortVariant → Option EffortVariant
find_variant effort [] = none
find_variant effort (v ∷ vs) = if text_eq v.effort effort then some v else find_variant effort vs

abbrev pub select_variant : ModelRoute → Text → Option EffortVariant → Result ModelRoute
select_variant route requested none =
    err (formatted (codes "reasoning_effort %q is not available for this model") (requested ∷ []))
select_variant route requested (some v) = ok (record route {
  effective_ids = route.backend_model ∷ v.model_id ∷ [];
  selected_effort = requested;
  backend_model = v.model_id;
})

abbrev pub select_among : ModelRoute → Text → List EffortVariant → Result ModelRoute
select_among route [] [] = ok route
select_among route (c ∷ requested) [] = err (
    formatted
      (codes "reasoning_effort %q cannot be selected: this model has no advertised effort variants")
      ((c ∷ requested) ∷ []))
select_among route [] (v ∷ vs) = select_variant route v.effort (find_variant v.effort (v ∷ vs))
select_among route (c ∷ requested) (v ∷ vs) =
    select_variant route (c ∷ requested) (find_variant (c ∷ requested) (v ∷ vs))

unfoldable pub select_reasoning_effort : ModelRoute → Text → Result ModelRoute
select_reasoning_effort route requested = select_among route requested route.effort_variants

-- What the server knows of its engines and models.
pub record Catalog : Type 0 where
  pub engines : Dict Engine
  pub details : Dict ModelDetails
  pub models : List Text
  pub routes : Dict ModelRoute

abbrev pub details_or_none : Option ModelDetails → ModelDetails
details_or_none none = no_details
details_or_none (some d) = d

abbrev pub resolve_cut : Dict Engine → Option (Text × Text) → Option ModelRoute
resolve_cut engines none = none
resolve_cut engines (some (engine_id, [])) = none
resolve_cut engines (some (engine_id, c ∷ model)) = elim (lookup engine_id engines) [
  | none ↦ none
  | some engine ↦
      some
        (record no_route { engine = some engine; engine_id = engine_id; backend_model = c ∷ model })
]

abbrev pub resolve_route : Catalog → Text → Option ModelRoute → Option ModelRoute
resolve_route k id (some route) = some route
resolve_route k id none = resolve_cut k.engines (cut b'/' id)

abbrev pub resolve_engine : Catalog → Text → Option Engine → Option ModelRoute
resolve_engine k id (some engine) = some (record no_route {
  engine = some engine;
  engine_id = id;
  details = details_or_none (lookup id k.details);
})
resolve_engine k id none = resolve_route k id (lookup id k.routes)

unfoldable pub resolve_model : Catalog → Text → Option ModelRoute
resolve_model k id = resolve_engine k id (lookup id k.engines)

-- What an engine answers: it is no `ModelLister`, it fails, or it lists its models.
pub data Listing : Type 0 where
  no_lister : Listing
  failed : GoError → Listing
  listed : List ModelInfo → Listing

unfoldable pub drop_engine : Text → Dict ModelRoute → Dict ModelRoute
drop_engine engine_id [] = []
drop_engine engine_id ((id, route) ∷ routes) =
    let rest = drop_engine engine_id routes in
    if text_eq route.engine_id engine_id then rest else (id, route) ∷ rest

unfoldable pub add_routes : Dict ModelRoute → Dict ModelRoute → Dict ModelRoute
add_routes [] routes = routes
add_routes ((id, route) ∷ fresh) routes = add_routes fresh (insert id route routes)

abbrev pub refresh : Catalog → Text → Listing → Dict ModelRoute → Dict ModelRoute
refresh k engine_id no_lister routes = routes
refresh k engine_id (failed e) routes = routes
refresh k engine_id (listed models) routes =
    add_routes
      (grouped_bracket_routes engine_id (lookup engine_id k.engines)
        (details_or_none (lookup engine_id k.details)) models)
      (drop_engine engine_id routes)

unfoldable pub refresh_all :
    (Text → Listing) → Catalog → List Text → Dict ModelRoute → Dict ModelRoute
refresh_all listing k [] routes = routes
refresh_all listing k (engine_id ∷ ids) routes =
    refresh_all listing k ids (refresh k engine_id (listing engine_id) routes)

-- The state that `discoverModels` leaves.
unfoldable pub discover_models : (Text → Listing) → Catalog → Catalog
discover_models listing k = record k { routes = refresh_all listing k k.models k.routes }
