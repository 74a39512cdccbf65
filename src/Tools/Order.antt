-- ===== src/Tools/Order.antt =====
-- The order in which `normalizeTools` of internal/gateway/tools.go puts tools: `sort.Slice` by name.
use agentrun_openai.Prelude.{◌≡◌, refl, ◌∙◌, true, false, ◌||◌, List, [], ◌∷◌, arith, All}
use agentrun_openai.Prelude.Text.{Text, text_eq, text_eq_iff, member}
use agentrun_openai.Prelude.Distinct.{Distinct}
use agentrun_openai.Json.Order.{text_lt, text_lt_trans, text_lt_total, text_lt_asymm}
use agentrun_openai.Tools.{FunctionTool, put_tool, sort_tools, names_of}

-- The names of tools that follow `t` are above its name.
abbrev pub Follow : FunctionTool → List FunctionTool → Type 0
Follow t us = All (λ u. text_lt t.function.name u.function.name ≡ true) us

abbrev pub Sorted : List FunctionTool → Type 0
Sorted [] = Unit
Sorted (t ∷ ts) = Follow t ts × Sorted ts

-- Two tools of different names may be put in their places in either order.
pub put_tool_comm :
    (t u : FunctionTool) (us : List FunctionTool)
    → text_eq t.function.name u.function.name ≡ false
    → put_tool t (put_tool u us) ≡ put_tool u (put_tool t us)
unfolding put_tool
put_tool_comm t u [] h = ground (
  arith,
  text_lt_total t.function.name u.function.name h,
  text_lt_asymm t.function.name u.function.name,
)
put_tool_comm t u (v ∷ vs) h = ground (
  arith,
  put_tool_comm t u vs h,
  text_lt_total t.function.name u.function.name h,
  text_lt_asymm t.function.name u.function.name,
  text_lt_trans t.function.name u.function.name v.function.name,
  text_lt_trans u.function.name t.function.name v.function.name,
)

pub member-put_tool :
    (x : Text) (t : FunctionTool) (us : List FunctionTool)
    → member x (names_of (put_tool t us)) ≡ (text_eq t.function.name x || member x (names_of us))
unfolding put_tool member
member-put_tool x t [] = refl
member-put_tool x t (u ∷ us) = ground (arith, member-put_tool x t us)

pub member-sort_tools :
    (x : Text) (ts : List FunctionTool)
    → member x (names_of (sort_tools ts)) ≡ member x (names_of ts)
unfolding sort_tools member
member-sort_tools x [] = refl
member-sort_tools x (t ∷ ts) =
    ground (arith, member-put_tool x t (sort_tools ts), member-sort_tools x ts)

module _ (P : FunctionTool → Type 0) where
  pub put_tool-All :
      (t : FunctionTool) (us : List FunctionTool) → P t → All P us → All P (put_tool t us)
  unfolding put_tool
  put_tool-All t [] h a = (h, tt)
  put_tool-All t (u ∷ us) h a = ground (arith, put_tool-All t us)

  pub sort_tools-All : (ts : List FunctionTool) → All P ts → All P (sort_tools ts)
  unfolding sort_tools
  sort_tools-All [] a = tt
  sort_tools-All (t ∷ ts) a = put_tool-All t (sort_tools ts) a.0 (sort_tools-All ts a.1)

pub Follow-trans :
    (t u : FunctionTool) (us : List FunctionTool)
    → text_lt t.function.name u.function.name ≡ true
    → Follow u us
    → Follow t us
Follow-trans t u [] h a = tt
Follow-trans t u (v ∷ vs) h a =
    (text_lt_trans t.function.name u.function.name v.function.name h a.0, Follow-trans t u vs h a.1)

pub put_tool-Sorted :
    (t : FunctionTool) (us : List FunctionTool)
    → member t.function.name (names_of us) ≡ false
    → Sorted us
    → Sorted (put_tool t us)
unfolding put_tool member
put_tool-Sorted t [] h s = (tt, tt)
put_tool-Sorted t (u ∷ us) h s = ground (
  arith,
  put_tool-Sorted t us,
  text_eq_iff t.function.name u.function.name,
  text_eq_iff u.function.name t.function.name,
  text_lt_total t.function.name u.function.name,
  Follow-trans t u us,
  put_tool-All (λ w. text_lt u.function.name w.function.name ≡ true) t us,
)

pub sort_tools-Sorted : (ts : List FunctionTool) → Distinct (names_of ts) → Sorted (sort_tools ts)
unfolding sort_tools
sort_tools-Sorted [] d = tt
sort_tools-Sorted (t ∷ ts) d =
    put_tool-Sorted t (sort_tools ts) (member-sort_tools t.function.name ts ∙ d.0)
      (sort_tools-Sorted ts d.1)
