-- ===== src/Models/Offers.antt =====
-- Every effort that a backend lists is advertised and can be selected (internal/gateway/server.go).
use agentrun_openai.Prelude.{
  ◌≡◌, ◌≢◌, ◌↔◌, refl, sym, ap, subst, ◌∙◌, true, false, List, [], ◌∷◌, ◌++◌, arith, Option, none,
  some, Bool-cases, inl, inr, All,
}
use mathlib.Core.List.{append_cancel_left}
use mathlib.Core.Path.{ap₂}
use agentrun_openai.Prelude.Text.{
  Text, is_empty, trim_space, text_eq, text_eq_iff, text_eq_refl, member, cut_last,
}
use agentrun_openai.Prelude.Dict.{Dict, lookup, insert, lookup-insert}
use agentrun_openai.Types.{ok}
use agentrun_openai.Models.{
  Engine, ModelDetails, ModelInfo, ModelRoute, EffortVariant, base_of, route_or_none, route_id,
  group_into, group_model, grouped_from, grouped_bracket_routes, efforts, find_variant,
  select_variant, select_among, select_reasoning_effort, split_effort_model_id,
}
use agentrun_openai.Models.Effort.{visible-ne-nil, split_effort_model_id_iff}
use agentrun_openai.Models.Routes.{
  IsFrom, cons-injective, member-add_variant, grouped_bracket_routes-IsRoute,
}

find_variant-member :
    (e : Text) (vs : List EffortVariant)
    → member e (efforts vs) ≡ true
    → (v : EffortVariant) × (find_variant e vs ≡ some v)
unfolding find_variant member
find_variant-member e [] m = cc
find_variant-member e (v ∷ vs) m = elim (Bool-cases (text_eq v.effort e)) [
  | inl s ↦ (v, rw s)
  | inr d ↦ let (w, f) = find_variant-member e vs (ground arith) in (w, ground arith)
]

find_variant-none :
    (e : Text) (vs : List EffortVariant) → member e (efforts vs) ≡ false → find_variant e vs ≡ none
unfolding find_variant member
find_variant-none e [] m = refl
find_variant-none e (v ∷ vs) m = ground (arith, find_variant-none e vs)

find_variant-IsFrom :
    (base e : Text) (vs : List EffortVariant) (v : EffortVariant)
    → find_variant e vs ≡ some v
    → All (IsFrom base) vs
    → (v.effort ≡ e) × IsFrom base v
unfolding find_variant
find_variant-IsFrom base e [] v f a = cc
find_variant-IsFrom base e (w ∷ vs) v f a = elim (Bool-cases (text_eq w.effort e)) [
  | inl s ↦ ground (arith, text_eq_iff w.effort e)
  | inr d ↦ find_variant-IsFrom base e vs v (ground arith) a.1
]

-- The selection of an explicit effort among the variants.
among-some :
    (r : ModelRoute) (e : Text) (vs : List EffortVariant) (v : EffortVariant)
    → e ≢ []
    → find_variant e vs ≡ some v
    → select_among r e vs ≡ select_variant r e (some v)
unfolding find_variant
among-some r [] vs v n f = absurd (n refl)
among-some r (c ∷ e) [] v n f = cc
among-some r (c ∷ e) (w ∷ vs) v n f = ap (select_variant r (c ∷ e)) f

among-none :
    (r : ModelRoute) (e : Text) (vs : List EffortVariant) (q : ModelRoute)
    → e ≢ []
    → find_variant e vs ≡ none
    → select_among r e vs ≢ ok q
unfolding find_variant
among-none r [] vs q n f h = n refl
among-none r (c ∷ e) [] q n f h = cc
among-none r (c ∷ e) (w ∷ vs) q n f h = refused (sym (ap (select_variant r (c ∷ e)) f) ∙ h)
  where
    refused : select_variant r (c ∷ e) none ≡ ok q → ⊥
    refused x = cc

-- An explicit reasoning effort is accepted exactly when the route advertises it.
pub select_iff :
    (r : ModelRoute) (e : Text)
    → e ≢ []
    → ((q : ModelRoute) × (select_reasoning_effort r e ≡ ok q))
      ↔ (member e (efforts r.effort_variants) ≡ true)
unfolding select_reasoning_effort
select_iff r e n = (
  λ (q, h). elim (Bool-cases (member e (efforts r.effort_variants))) [
    | inl m ↦ m
    | inr m ↦
        absurd (among-none r e r.effort_variants q n (find_variant-none e r.effort_variants m) h)
  ],
  λ m.
      let (v, f) = find_variant-member e r.effort_variants m in
      (_, among-some r e r.effort_variants v n f),
)

-- What the catalog offers under a route's ID.
abbrev pub Offers : Text → Text → Dict ModelRoute → Type 0
Offers id e routes =
    (r : ModelRoute) × (lookup id routes ≡ some r) × (member e (efforts r.effort_variants) ≡ true)

has_variants :
    (e : Text) (vs : List EffortVariant) → member e (efforts vs) ≡ true → is_empty vs ≡ false
unfolding member
has_variants e [] m = cc
has_variants e (v ∷ vs) m = refl

module _ (engine_id : Text) (engine : Option Engine) (base : ModelDetails) where
  group_into-member :
      (m : ModelInfo) (model_id e : Text) (s : Option (Text × Text)) (r : ModelRoute)
      → member e (efforts r.effort_variants) ≡ true
      → member e (efforts (group_into engine_id engine base m model_id s r).effort_variants) ≡ true
  unfolding group_into
  group_into-member m model_id e none r h = rw (has_variants e r.effort_variants h) h
  group_into-member m model_id e (some (b, x)) r h =
      rw (has_variants e r.effort_variants h)
        (ground (arith, member-add_variant e x model_id r.effort_variants))

  group_into-offers :
      (m : ModelInfo) (model_id b e : Text) (r : ModelRoute)
      → member e
          (efforts (group_into engine_id engine base m model_id (some (b, e)) r).effort_variants)
        ≡ true
  unfolding group_into
  group_into-offers m model_id b e r = rw (member-add_variant e e model_id _, text_eq_refl e)

  insert-Offers :
      (id e key : Text) (v : ModelRoute) (routes : Dict ModelRoute)
      → Offers id e routes
      → ((r : ModelRoute)
          → lookup key routes ≡ some r
          → member e (efforts r.effort_variants) ≡ true
          → member e (efforts v.effort_variants) ≡ true)
      → Offers id e (insert key v routes)
  insert-Offers id e key v routes (r, l, h) keep = elim (Bool-cases (text_eq key id)) [
    | inl s ↦ (
      v,
      rw (lookup-insert key id v routes, s),
      keep r (ap (λ k. lookup k routes) ((text_eq_iff key id).0 s) ∙ l) h,
    )
    | inr d ↦ (r, rw (lookup-insert key id v routes, d) l, h)
  ]

  group_model-Offers :
      (id e : Text) (m : ModelInfo) (routes : Dict ModelRoute)
      → Offers id e routes
      → Offers id e (group_model engine_id engine base m routes)
  unfolding group_model
  group_model-Offers id e m routes o = grouped (trim_space m.id) refl
    where
      grouped :
          (model_id : Text)
          → trim_space m.id ≡ model_id
          → Offers id e (group_model engine_id engine base m routes)
      grouped [] t = rw (t, group_model) o
      grouped (c ∷ model_id) t =
          let s = split_effort_model_id (c ∷ model_id) in
          let key = route_id engine_id (base_of s (c ∷ model_id)) in
          rw (t, group_model)
            (insert-Offers id e key _ routes o λ r l h.
              group_into-member m (c ∷ model_id) e s (route_or_none (lookup key routes)) (
                subst (λ q. member e (efforts (route_or_none q).effort_variants) ≡ true) (sym l) h))

  group_model-Offers' :
      (b e : Text) (m : ModelInfo) (routes : Dict ModelRoute)
      → split_effort_model_id (trim_space m.id) ≡ some (b, e)
      → Offers (route_id engine_id b) e (group_model engine_id engine base m routes)
  unfolding group_model
  group_model-Offers' b e m routes s = grouped (trim_space m.id) refl s
    where
      grouped :
          (model_id : Text)
          → trim_space m.id ≡ model_id
          → split_effort_model_id model_id ≡ some (b, e)
          → Offers (route_id engine_id b) e (group_model engine_id engine base m routes)
      grouped [] t s = absurd (blank s)
        where
          blank : split_effort_model_id [] ≡ some (b, e) → ⊥
          blank = unfold split_effort_model_id cut_last in λ x. cc
      grouped (c ∷ model_id) t s =
          let key = route_id engine_id b in
          let v =
            group_into engine_id engine base m (c ∷ model_id) (some (b, e))
              (route_or_none (lookup key routes)) in
          rw (t, s, group_model)
            (
              v,
              rw (lookup-insert key key v routes, text_eq_refl key),
              group_into-offers m (c ∷ model_id) b e (route_or_none (lookup key routes)),
            )

  grouped_from-Offers :
      (id e : Text) (ms : List ModelInfo) (routes : Dict ModelRoute)
      → Offers id e routes
      → Offers id e (grouped_from engine_id engine base ms routes)
  unfolding grouped_from
  grouped_from-Offers id e [] routes o = o
  grouped_from-Offers id e (m ∷ ms) routes o =
      grouped_from-Offers id e ms _ (group_model-Offers id e m routes o)

  grouped_from-Offers' :
      (b e : Text) (m : ModelInfo) (before after : List ModelInfo) (routes : Dict ModelRoute)
      → split_effort_model_id (trim_space m.id) ≡ some (b, e)
      → Offers
          (route_id engine_id b)
          e
          (grouped_from engine_id engine base (before ++ (m ∷ after)) routes)
  unfolding grouped_from
  grouped_from-Offers' b e m [] after routes s =
      grouped_from-Offers (route_id engine_id b) e after _ (group_model-Offers' b e m routes s)
  grouped_from-Offers' b e m (x ∷ before) after routes s =
      grouped_from-Offers' b e m before after _ s

-- A backend lists a bracketed model, wherever in its catalog. Then the route of the model's base is
-- there, and selecting the model's effort on it succeeds: the request goes to a model ID that splits
-- into that base and that effort, the effort is recorded as selected, and the backend may confirm the
-- base or that ID and no other.
pub listed_effort_selectable :
    (engine_id : Text) (engine : Option Engine) (base : ModelDetails) (m : ModelInfo)
    (before after : List ModelInfo) (b e : Text)
    → split_effort_model_id (trim_space m.id) ≡ some (b, e)
    → (r q : ModelRoute) × (lookup
          (route_id engine_id b)
          (grouped_bracket_routes engine_id engine base (before ++ (m ∷ after)))
        ≡ some r)
      × (select_reasoning_effort r e ≡ ok q)
      × (split_effort_model_id q.backend_model ≡ some (b, e))
      × (q.selected_effort ≡ e)
      × (q.effective_ids ≡ b ∷ q.backend_model ∷ [])
unfolding grouped_bracket_routes select_reasoning_effort
listed_effort_selectable engine_id engine base m before after b e s =
    let (r, l, h) = grouped_from-Offers' engine_id engine base b e m before after [] s in
    let g = grouped_bracket_routes-IsRoute engine_id engine base (before ++ (m ∷ after)) _ r l in
    let is_b : r.backend_model ≡ b =
      sym (cons-injective (append_cancel_left engine_id _ _ g.under)) in
    let n = visible-ne-nil e ((split_effort_model_id_iff (trim_space m.id) b e).0 s).1.visible in
    let (v, f) = find_variant-member e r.effort_variants h in
    let (same, from) = find_variant-IsFrom r.backend_model e r.effort_variants v f g.variants in
    (
      r,
      record r {
        effective_ids = r.backend_model ∷ v.model_id ∷ [];
        selected_effort = e;
        backend_model = v.model_id;
      },
      l,
      among-some r e r.effort_variants v n f,
      from ∙ ap₂ (λ x y. some (x, y)) is_b same,
      refl,
      ap (λ x. x ∷ v.model_id ∷ []) is_b,
    )
