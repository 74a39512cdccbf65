-- ===== src/Models/Effort.antt =====
-- The effort suffix of a model ID (`splitEffortModelID` of internal/gateway/server.go).
use agentrun_openai.Prelude.{
  ℕ, ◌≡◌, ◌≢◌, ◌↔◌, refl, sym, subst, false, [], ◌∷◌, ◌++◌, arith, Option, none, some, Option-cases,
  inl, inr,
}
use agentrun_openai.Prelude.Text.{
  Text, is_empty, trim_space, contains_any, contains_char, cut_last, split_last,
}
use agentrun_openai.Models.{brackets, effort_parts, split_at_open, split_effort_model_id}

-- The last occurrence.
cut_last-none : (c : ℕ) (s : Text) → contains_char c s ≡ false → cut_last c s ≡ none
unfolding cut_last contains_char
cut_last-none c [] h = refl
cut_last-none c (d ∷ s) h = ground (arith, cut_last-none c s)

cut_last-append :
    (c : ℕ) (a b : Text) → contains_char c b ≡ false → cut_last c (a ++ (c ∷ b)) ≡ some (a, b)
unfolding cut_last
cut_last-append c [] b h = ground (arith, cut_last-none c b h)
cut_last-append c (d ∷ a) b h = ground (arith, cut_last-append c a b h)

cut_last-some : (c : ℕ) (s a b : Text) → cut_last c s ≡ some (a, b) → s ≡ a ++ (c ∷ b)
unfolding cut_last
cut_last-some c [] a b e = cc
cut_last-some c (d ∷ s) a b e = elim (Option-cases (cut_last c s)) [
  | inl h ↦ ground arith
  | inr ((x, y), h) ↦ ground (arith, cut_last-some c s x y h)
]

split_last-append : (s : Text) (c : ℕ) → split_last (s ++ (c ∷ [])) ≡ some (s, c)
unfolding split_last
split_last-append [] c = refl
split_last-append (d ∷ s) c = ground (arith, split_last-append s c)

split_last-none : (s : Text) → split_last s ≡ none → s ≡ []
unfolding split_last
split_last-none [] e = refl
split_last-none (d ∷ s) e = elim (Option-cases (split_last s)) [
  | inl h ↦ ground arith
  | inr (p, h) ↦ ground arith
]

split_last-some : (s a : Text) (c : ℕ) → split_last s ≡ some (a, c) → s ≡ a ++ (c ∷ [])
unfolding split_last
split_last-some [] a c e = cc
split_last-some (d ∷ s) a c e = elim (Option-cases (split_last s)) [
  | inl h ↦ ground (arith, split_last-none s h)
  | inr ((x, y), h) ↦ ground (arith, split_last-some s x y h)
]

-- A base and an effort that can stand in a bracketed model ID.
pub record IsVariant (base effort : Text) : Type 0 where
  pub named : base ≢ []
  pub plain_base : contains_any base brackets ≡ false
  pub plain_effort : contains_any effort brackets ≡ false
  pub visible : trim_space effort ≢ []

-- A text with no bracket has no opening one, also before a closing one.
no_open :
    (s : Text) → contains_any s brackets ≡ false → contains_char b'[' (s ++ (b']' ∷ [])) ≡ false
unfolding contains_any contains_char
no_open [] h = refl
no_open (c ∷ s) h = ground (arith, no_open s)

effort_parts-some :
    (base tail b e : Text) (o : Option (Text × ℕ))
    → split_last tail ≡ o
    → effort_parts base o ≡ some (b, e)
    → (base ≡ b) × (tail ≡ e ++ (b']' ∷ [])) × IsVariant b e
effort_parts-some base tail b e none s h = cc
effort_parts-some base tail b e (some (x, c)) s h = (
  ground arith,
  ground (arith, split_last-some tail x c s),
  record {
    named = λ n. ground (arith, n);
    plain_base = ground arith;
    plain_effort = ground arith;
    visible = λ n. ground (arith, n);
  },
)

not-is_empty : (s : Text) → s ≢ [] → is_empty s ≡ false
not-is_empty [] h = absurd (h refl)
not-is_empty (c ∷ s) h = refl

pub visible-ne-nil : (s : Text) → trim_space s ≢ [] → s ≢ []
unfolding trim_space
visible-ne-nil [] h = absurd (h refl)
visible-ne-nil (c ∷ s) h = λ e. cc

IsVariant-split :
    (base effort : Text)
    → IsVariant base effort
    → split_effort_model_id (base ++ (b'[' ∷ (effort ++ (b']' ∷ [])))) ≡ some (base, effort)
unfolding split_effort_model_id
IsVariant-split base effort v = rw (
  cut_last-append b'[' base (effort ++ (b']' ∷ [])) (no_open effort v.plain_effort),
  split_at_open,
  split_last-append effort b']',
  not-is_empty base v.named,
  not-is_empty effort (visible-ne-nil effort v.visible),
  v.plain_base,
  v.plain_effort,
  not-is_empty (trim_space effort) v.visible,
)

split-IsVariant :
    (id base effort : Text) (o : Option (Text × Text))
    → cut_last b'[' id ≡ o
    → split_at_open o ≡ some (base, effort)
    → (id ≡ base ++ (b'[' ∷ (effort ++ (b']' ∷ [])))) × IsVariant base effort
split-IsVariant id base effort none c h = cc
split-IsVariant id base effort (some (a, tail)) c h =
    let (same, ends, v) = effort_parts-some a tail base effort (split_last tail) refl h in
    (ground (arith, cut_last-some b'[' id a tail c), v)

-- A model ID is split into a base and an effort exactly when it is the base, an opening bracket, the
-- effort and a closing bracket, where the base is not empty, neither holds a bracket, and the effort
-- is not blank.
pub split_effort_model_id_iff :
    (id base effort : Text)
    → (split_effort_model_id id ≡ some (base, effort))
      ↔ ((id ≡ base ++ (b'[' ∷ (effort ++ (b']' ∷ [])))) × IsVariant base effort)
unfolding split_effort_model_id
split_effort_model_id_iff id base effort = (
  split-IsVariant id base effort (cut_last b'[' id) refl,
  λ p.
      subst (λ x. split_effort_model_id x ≡ some (base, effort)) (sym p.0)
        (IsVariant-split base effort p.1),
)
