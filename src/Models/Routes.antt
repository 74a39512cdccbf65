-- ===== src/Models/Routes.antt =====
-- What `groupedBracketRoutes` of internal/gateway/server.go makes of a backend's catalog, and the
-- selection of an effort on it.
use agentrun_openai.Prelude.{
  ℕ, ◌≡◌, ◌≢◌, refl, sym, ap, ◌∙◌, subst₂, true, false, ◌||◌, List, [], ◌∷◌, arith, if◌then◌else◌,
  Option, none, some, Bool-cases, inl, inr, ◌⊎◌, All,
}
use mathlib.Core.List.{append_cancel_left}
use agentrun_openai.Prelude.Distinct.{Distinct}
use agentrun_openai.Prelude.Text.{Text, is_empty, trim_space, text_eq, text_eq_iff, member}
use agentrun_openai.Prelude.Dict.{Dict, lookup, insert, lookup-insert}
use agentrun_openai.Models.{
  Engine, ModelDetails, ModelInfo, ModelRoute, EffortVariant, base_of, fresh_route, add_variant,
  with_variant, route_or_none, route_id, group_into, group_model, grouped_from,
  grouped_bracket_routes, efforts, split_effort_model_id,
}
use agentrun_openai.Models.Effort.{split_effort_model_id_iff}

-- A variant is an ID of the catalog that splits into the base and the effort.
abbrev pub IsFrom : Text → EffortVariant → Type 0
IsFrom base v = split_effort_model_id v.model_id ≡ some (base, v.effort)

-- A route that a backend's catalog gives, under the ID `id`.
pub record IsRoute (engine_id : Text) (engine : Option Engine) (id : Text) (r : ModelRoute)
    : Type 0 where
  pub owned : r.engine_id ≡ engine_id
  pub started_by : r.engine ≡ engine
  pub under : id ≡ route_id engine_id r.backend_model
  pub named : r.backend_model ≢ []
  pub unselected : r.selected_effort ≡ []
  pub variants : All (IsFrom r.backend_model) r.effort_variants
  pub distinct : Distinct (efforts r.effort_variants)

pub member-add_variant :
    (x e m : Text) (vs : List EffortVariant)
    → member x (efforts (add_variant e m vs)) ≡ (text_eq e x || member x (efforts vs))
unfolding add_variant member
member-add_variant x e m [] = ground (arith, text_eq_iff e x)
member-add_variant x e m (v ∷ vs) = ground (
  arith,
  text_eq_iff v.effort e,
  text_eq_iff v.effort x,
  text_eq_iff e x,
  member-add_variant x e m vs,
)

add_variant-Distinct :
    (e m : Text) (vs : List EffortVariant)
    → Distinct (efforts vs)
    → Distinct (efforts (add_variant e m vs))
unfolding add_variant
add_variant-Distinct e m [] d = (unfold member in refl, tt)
add_variant-Distinct e m (v ∷ vs) d = ground (
  arith,
  member-add_variant v.effort e m vs,
  add_variant-Distinct e m vs d.1,
  text_eq_iff v.effort e,
  text_eq_iff e v.effort,
)

add_variant-IsFrom :
    (base e m : Text) (vs : List EffortVariant)
    → split_effort_model_id m ≡ some (base, e)
    → All (IsFrom base) vs
    → All (IsFrom base) (add_variant e m vs)
unfolding add_variant
add_variant-IsFrom base e m [] s a = (s, tt)
add_variant-IsFrom base e m (v ∷ vs) s a =
    ground (arith, text_eq_iff v.effort e, add_variant-IsFrom base e m vs s a.1)

pub cons-injective : {c : ℕ} {a b : Text} → c ∷ a ≡ c ∷ b → a ≡ b
cons-injective e = cc

module _ (engine_id : Text) (engine : Option Engine) where
  fresh-IsRoute :
      (base : ModelDetails) (m : ModelInfo) (model_id : Text) (s : Option (Text × Text))
      → split_effort_model_id model_id ≡ s
      → model_id ≢ []
      → IsRoute engine_id engine
          (route_id engine_id (base_of s model_id))
          (fresh_route engine_id engine base m model_id s)
  fresh-IsRoute base m model_id none e n = record {
    owned = refl;
    started_by = refl;
    under = refl;
    named = n;
    unselected = refl;
    variants = tt;
    distinct = tt;
  }
  fresh-IsRoute base m model_id (some (b, x)) e n = record {
    owned = refl;
    started_by = refl;
    under = refl;
    named = ((split_effort_model_id_iff model_id b x).0 e).1.named;
    unselected = refl;
    variants = tt;
    distinct = tt;
  }

  with_variant-IsRoute :
      (model_id : Text) (s : Option (Text × Text)) (r : ModelRoute)
      → split_effort_model_id model_id ≡ s
      → IsRoute engine_id engine (route_id engine_id (base_of s model_id)) r
      → IsRoute engine_id engine
          (route_id engine_id (base_of s model_id))
          (with_variant s model_id r)
  with_variant-IsRoute model_id none r e v = v
  with_variant-IsRoute model_id (some (b, x)) r e v =
      let same = cons-injective (append_cancel_left engine_id _ _ v.under) in
      record {
        owned = v.owned;
        started_by = v.started_by;
        under = v.under;
        named = v.named;
        unselected = v.unselected;
        variants =
            add_variant-IsFrom r.backend_model x model_id r.effort_variants
              (e ∙ ap (λ y. some (y, x)) same) v.variants;
        distinct = add_variant-Distinct x model_id r.effort_variants v.distinct;
      }

  group_into-IsRoute :
      (base : ModelDetails) (m : ModelInfo) (model_id : Text) (s : Option (Text × Text))
      (r : ModelRoute)
      → split_effort_model_id model_id ≡ s
      → model_id ≢ []
      → (is_empty r.effort_variants ≡ true)
        ⊎ IsRoute engine_id engine (route_id engine_id (base_of s model_id)) r
      → IsRoute engine_id engine
          (route_id engine_id (base_of s model_id))
          (group_into engine_id engine base m model_id s r)
  unfolding group_into
  group_into-IsRoute base m model_id s r e n v =
      with_variant-IsRoute model_id s _ e (chosen v (Bool-cases (is_empty r.effort_variants)))
    where
      fresh : ModelRoute
      fresh = fresh_route engine_id engine base m model_id s

      Good : ModelRoute → Type 0
      Good = IsRoute engine_id engine (route_id engine_id (base_of s model_id))

      chosen :
          (is_empty r.effort_variants ≡ true) ⊎ Good r
          → (is_empty r.effort_variants ≡ true) ⊎ (is_empty r.effort_variants ≡ false)
          → Good (if is_empty r.effort_variants then fresh else r)
      chosen v (inl b) = rw b (fresh-IsRoute base m model_id s e n)
      chosen (inl a) (inr b) = absurd (clash (sym a ∙ b))
        where
          clash : true ≡ false → ⊥
          clash x = cc
      chosen (inr g) (inr b) = rw b g

  -- Every route of the map is one that the catalog gives.
  abbrev pub AllRoutes : Dict ModelRoute → Type 0
  AllRoutes routes =
      (id : Text) (r : ModelRoute) → lookup id routes ≡ some r → IsRoute engine_id engine id r

  old_or_new :
      (id : Text) (routes : Dict ModelRoute) (o : Option ModelRoute)
      → AllRoutes routes
      → lookup id routes ≡ o
      → (is_empty (route_or_none o).effort_variants ≡ true)
        ⊎ IsRoute engine_id engine id (route_or_none o)
  old_or_new id routes none all e = inl refl
  old_or_new id routes (some r) all e = inr (all id r e)

  insert-AllRoutes :
      (key : Text) (v : ModelRoute) (routes : Dict ModelRoute)
      → AllRoutes routes
      → IsRoute engine_id engine key v
      → AllRoutes (insert key v routes)
  insert-AllRoutes key v routes all good id r h = elim (Bool-cases (text_eq key id)) [
    | inl e ↦
        subst₂ (IsRoute engine_id engine) ((text_eq_iff key id).0 e)
          (ground (arith, lookup-insert key id v routes)) good
    | inr e ↦ all id r (ground (arith, lookup-insert key id v routes))
  ]

  group_model-AllRoutes :
      (base : ModelDetails) (m : ModelInfo) (routes : Dict ModelRoute)
      → AllRoutes routes
      → AllRoutes (group_model engine_id engine base m routes)
  unfolding group_model
  group_model-AllRoutes base m routes all = grouped (trim_space m.id) refl
    where
      grouped :
          (model_id : Text)
          → trim_space m.id ≡ model_id
          → AllRoutes (group_model engine_id engine base m routes)
      grouped [] e = rw (e, group_model) all
      grouped (c ∷ model_id) e =
          let s = split_effort_model_id (c ∷ model_id) in
          let key = route_id engine_id (base_of s (c ∷ model_id)) in
          rw (e, group_model)
            (insert-AllRoutes key _ routes all (
              group_into-IsRoute base m (c ∷ model_id) s (route_or_none (lookup key routes)) refl
                (λ n. cc) (old_or_new key routes (lookup key routes) all refl)))

  grouped_from-AllRoutes :
      (base : ModelDetails) (ms : List ModelInfo) (routes : Dict ModelRoute)
      → AllRoutes routes
      → AllRoutes (grouped_from engine_id engine base ms routes)
  unfolding grouped_from
  grouped_from-AllRoutes base [] routes all = all
  grouped_from-AllRoutes base (m ∷ ms) routes all =
      grouped_from-AllRoutes base ms _ (group_model-AllRoutes base m routes all)

-- Whatever a backend lists, each route of its catalog stands under the engine's ID, a slash and its
-- base, which is not empty; it belongs to the engine and selects no effort; no effort is advertised
-- twice; and the model ID of each variant splits into that base and that effort.
pub grouped_bracket_routes-IsRoute :
    (engine_id : Text) (engine : Option Engine) (base : ModelDetails) (ms : List ModelInfo)
    (id : Text) (r : ModelRoute)
    → lookup id (grouped_bracket_routes engine_id engine base ms) ≡ some r
    → IsRoute engine_id engine id r
unfolding grouped_bracket_routes lookup
grouped_bracket_routes-IsRoute engine_id engine base ms id r h =
    grouped_from-AllRoutes engine_id engine base ms [] (λ i q e. cc) id r h
