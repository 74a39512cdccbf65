-- ===== src/Tools/Swap.antt =====
-- The order in which a request lists its tools does not count (`normalizeTools` of
-- internal/gateway/tools.go), so that a session is found again by the hash of its tools.
use mathlib.Core.List.{Permᴰ}
use agentrun_openai.Prelude.{
  ◌≡◌, refl, sym, ap, ap₂, ◌∙◌, subst, subst₂, false, ◌||◌, List, [], ◌∷◌, Option, arith,
}
use agentrun_openai.Prelude.Text.{Text, text_eq, text_eq_iff, member}
use agentrun_openai.Types.{ok, bind-eq-ok}
use agentrun_openai.Json.{Json}
use agentrun_openai.Tools.{
  FunctionTool, is_refused, normalize_tool, normalize_each, put_tool, sort_tools, Normalized,
  with_choice, normalize_tools,
}
use agentrun_openai.Tools.Order.{put_tool_comm}
use agentrun_openai.Tools.Sound.{normalize_each_step, normalize_tool_ok}

pub swap_seen :
    (names : List Text) (s t x : Text) → member x (s ∷ t ∷ names) ≡ member x (t ∷ s ∷ names)
unfolding member
swap_seen names s t x = ground arith

pub swap_refused :
    (names : List Text) (t u : FunctionTool)
    → is_refused names t ≡ false
    → is_refused (t.function.name ∷ names) u ≡ false
    → (is_refused names u ≡ false)
      × (is_refused (u.function.name ∷ names) t ≡ false)
      × (text_eq t.function.name u.function.name ≡ false)
unfolding member
swap_refused names t u h k = ground (
  arith,
  text_eq_iff t.function.name u.function.name,
  text_eq_iff u.function.name t.function.name,
)

pub sorted_alike :
    (t u : FunctionTool) (ts : List FunctionTool)
    → text_eq t.function.name u.function.name ≡ false
    → sort_tools (t ∷ u ∷ ts) ≡ sort_tools (u ∷ t ∷ ts)
unfolding sort_tools
sorted_alike t u ts h = put_tool_comm t u (sort_tools ts) h

pub sort_tools-cons :
    (t : FunctionTool) (ts us : List FunctionTool)
    → sort_tools ts ≡ sort_tools us
    → sort_tools (t ∷ ts) ≡ sort_tools (t ∷ us)
unfolding sort_tools
sort_tools-cons t ts us h = ap (put_tool t) h

module _ (decode : Text → Option Json) where
  pub normalize_each_intro :
      (names : List Text) (t u : FunctionTool) (ts rest : List FunctionTool)
      → is_refused names t ≡ false
      → normalize_tool decode t ≡ ok u
      → normalize_each decode (t.function.name ∷ names) ts ≡ ok rest
      → normalize_each decode names (t ∷ ts) ≡ ok (u ∷ rest)
  unfolding normalize_each
  normalize_each_intro names t u ts rest h e f = rw (h, e, f)

  -- Only which names have been seen counts.
  pub normalize_each_seen :
      (names others : List Text) (ts : List FunctionTool)
      → ((x : Text) → member x names ≡ member x others)
      → normalize_each decode names ts ≡ normalize_each decode others ts
  unfolding normalize_each
  normalize_each_seen names others [] h = refl
  normalize_each_seen names others (t ∷ ts) h =
      let rest =
        normalize_each_seen (t.function.name ∷ names) (t.function.name ∷ others) ts
          (λ x. unfold member in ap (λ b. text_eq t.function.name x || b) (h x)) in
      rw (h t.function.name, rest)

  -- The same tools in another order are let through too, and sorted they are the same.
  abbrev pub SameSorted : List Text → List FunctionTool → List FunctionTool → Type 0
  SameSorted names rs us =
      (ss : List FunctionTool) × (normalize_each decode names us ≡ ok ss)
      × (sort_tools rs ≡ sort_tools ss)

  pub swapped :
      (names : List Text) (t u : FunctionTool) (ts rs : List FunctionTool)
      → normalize_each decode names (t ∷ u ∷ ts) ≡ ok rs
      → SameSorted names rs (u ∷ t ∷ ts)
  swapped names t u ts rs h =
      let (t', rest, a, e, f, g) = normalize_each_step decode names t (u ∷ ts) rs h in
      let (u', more, b, i, j, k) =
        normalize_each_step decode (t.function.name ∷ names) u ts rest f in
      let name = normalize_tool_ok decode t t' e in
      let other = normalize_tool_ok decode u u' i in
      let differ = swap_refused names t u a b in
      let tail =
        normalize_each_seen (t.function.name ∷ u.function.name ∷ names)
          (u.function.name ∷ t.function.name ∷ names) ts
          (swap_seen names t.function.name u.function.name) in
      let first =
        normalize_each_intro (u.function.name ∷ names) t t' ts more differ.1 e (tail ∙ j) in
      (
        u' ∷ t' ∷ more,
        normalize_each_intro names u u' (t ∷ ts) (t' ∷ more) differ.0 i first,
        ap sort_tools (g ∙ ap (λ xs. t' ∷ xs) k)
            ∙ sorted_alike t' u' more (ap₂ text_eq name.1 other.1 ∙ differ.2),
      )

  pub permuted :
      {ts us : List FunctionTool}
      → Permᴰ ts us
      → (names : List Text) (rs : List FunctionTool) → normalize_each decode names ts ≡ ok rs
      → SameSorted names rs us
  permuted Permᴰ.nil names rs h = (rs, h, refl)
  permuted (Permᴰ.cons {a = a} {b = b} {l₁ = ts} {l₂ = us} same p) names rs h =
      let (t', rest, refused, e, f, g) = normalize_each_step decode names a ts rs h in
      let (ss, k, sorted) = permuted p (a.function.name ∷ names) rest f in
      subst (λ c. SameSorted names rs (c ∷ us)) same
        (
          t' ∷ ss,
          normalize_each_intro names a t' us ss refused e k,
          ap sort_tools g ∙ sort_tools-cons t' rest ss sorted,
        )
  permuted (Permᴰ.swap {a = a} {b = b} {l = l} first second) names rs h =
      subst₂ (λ c d. SameSorted names rs (c ∷ d ∷ l)) second first (swapped names a b l rs h)
  permuted (Permᴰ.trans p q) names rs h =
      let (ss, k, sorted) = permuted p names rs h in
      let (os, m, again) = permuted q names ss k in (os, m, sorted ∙ again)

  -- A request whose tools are those of another in some order gives the same tools, the same hash and
  -- the same policy, once the other is let through.
  pub normalize_tools_perm :
      (digest : Text → Text) {ts us : List FunctionTool}
      → Permᴰ ts us
      → (choice : Text) (result : Normalized) → normalize_tools decode digest ts choice ≡ ok result
      → normalize_tools decode digest us choice ≡ ok result
  unfolding normalize_tools
  normalize_tools_perm digest {ts} {us} p choice result h =
      let (rs, e, f) =
        bind-eq-ok (normalize_each decode [] ts)
          (λ xs. with_choice decode digest choice (sort_tools xs)) h in
      let (ss, k, sorted) = permuted p [] rs e in rw (k, sym sorted, f)
