-- ===== src/Models/Tests.antt =====
-- Catalogs of server.go as the README describes them.
use agentrun_openai.Prelude.{All, ◌≡◌, refl, true, false, List, [], ◌∷◌, some}
use agentrun_openai.Prelude.Text.{
  Text, codes, trim_space, contains_any, contains_char, cut_last, split_last, text_eq, member,
}
use agentrun_openai.Prelude.Dict.{lookup, insert}
use agentrun_openai.Types.{ok, discovery_unsupported}
use agentrun_openai.Models.{
  Engine, ModelInfo, ModelRoute, Catalog, Listing, listed, failed, no_details,
  split_effort_model_id, grouped_bracket_routes, grouped_from, group_model, group_into, add_variant,
  trim_suffix, select_reasoning_effort, discover_models,
}
use agentrun_openai.Models.Objects.{CanRequest, handle_models, handle_models-CanRequest}
use agentrun_openai.Models.Offers.{listed_effort_selectable}
use agentrun_openai.Models.Discovery.{after_listing, discover_models_exact}

abbrev model : Text → ModelInfo
model id = record { id = id; name = []; aliases = [] }

abbrev o3 : List ModelInfo
o3 = model (codes "o3[low]") ∷ model (codes " o3[high] ") ∷ model (codes "plain") ∷ []

abbrev o3_route : ModelRoute
o3_route = record {
  engine = some 1;
  engine_id = codes "codex";
  backend_model = codes "o3";
  effective_ids = [];
  effort_variants =
      record { effort = codes "low"; model_id = codes "o3[low]" }
      ∷ record { effort = codes "high"; model_id = codes "o3[high]" }
      ∷ [];
  selected_effort = [];
  details = record no_details { name = codes "o3" };
}

lookup-o3 :
    lookup (codes "codex/o3") (grouped_bracket_routes (codes "codex") (some 1) no_details o3)
    ≡ some o3_route
unfolding grouped_bracket_routes grouped_from group_model group_into add_variant trim_suffix
    split_effort_model_id cut_last split_last trim_space contains_any contains_char text_eq lookup
    insert
lookup-o3 = refl

split-high :
    split_effort_model_id (trim_space (codes " o3[high] ")) ≡ some (codes "o3", codes "high")
unfolding split_effort_model_id cut_last split_last trim_space contains_any contains_char
split-high = refl

listed_effort_selectable_example :
    (r q : ModelRoute) × (lookup
        (codes "codex/o3")
        (grouped_bracket_routes (codes "codex") (some 1) no_details o3)
      ≡ some r)
    × (select_reasoning_effort r (codes "high") ≡ ok q)
    × (split_effort_model_id q.backend_model ≡ some (codes "o3", codes "high"))
    × (q.selected_effort ≡ codes "high")
    × (q.effective_ids ≡ codes "o3" ∷ q.backend_model ∷ [])
listed_effort_selectable_example =
    listed_effort_selectable (codes "codex") (some 1) no_details (model (codes " o3[high] "))
      (model (codes "o3[low]") ∷ []) (model (codes "plain") ∷ []) (codes "o3") (codes "high")
      split-high

abbrev server : Catalog
server = record {
  engines = (codes "codex", 1) ∷ (codes "pi", 2) ∷ [];
  details = [];
  models = codes "codex" ∷ codes "pi" ∷ [];
  routes = [];
}

abbrev listing : Text → Listing
listing x = elim (text_eq x (codes "codex")) [
  | true ↦ listed o3
  | false ↦ failed discovery_unsupported
]

discover_models_exact_example :
    lookup (codes "codex/o3") (discover_models listing server).routes
    ≡ after_listing server (codes "codex") (codes "o3") (listing (codes "codex"))
unfolding lookup text_eq contains_char member
discover_models_exact_example =
    discover_models_exact listing server (codes "codex") (codes "o3") (refl, (refl, tt))
      (refl, (refl, tt)) (record { unique = tt; owned = λ id r h. cc }) refl refl

engines_known :
    All (λ id. (engine : Engine) × (lookup id server.engines ≡ some engine)) server.models
unfolding lookup text_eq
engines_known = ((1, refl), ((2, refl), tt))

handle_models-CanRequest_example :
    All (CanRequest (discover_models listing server)) (handle_models listing server)
handle_models-CanRequest_example = handle_models-CanRequest listing server engines_known
