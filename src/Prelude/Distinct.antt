-- ===== src/Prelude/Distinct.antt =====
-- Lists of texts in which none stands twice.
use mathlib.Core.Path.{◌≡◌, refl}
use mathlib.Core.Bool.{true, false, ◌||◌}
use mathlib.Core.List.{List, [], ◌∷◌, ◌++◌}
use native.Mathlib.Omega.{arith}
use agentrun_openai.Prelude.Lists.{All}
use agentrun_openai.Prelude.Text.{Text, text_eq_iff, member}

-- No text stands twice.
abbrev pub Distinct : List Text → Type 0
Distinct [] = Unit
Distinct (x ∷ xs) = (member x xs ≡ false) × Distinct xs

-- The texts of one list are not in another.
abbrev pub Apart : List Text → List Text → Type 0
Apart xs ys = All (λ y. member y xs ≡ false) ys

pub Apart-cons :
    (x : Text) (xs ys : List Text) → Apart (x ∷ xs) ys → (member x ys ≡ false) × Apart xs ys
unfolding member
Apart-cons x xs [] a = (refl, tt)
Apart-cons x xs (y ∷ ys) a =
    let rest = Apart-cons x xs ys a.1 in
    (ground (arith, text_eq_iff x y, text_eq_iff y x), ground arith)

pub cons-Apart :
    (x : Text) (xs ys : List Text) → member x ys ≡ false → Apart xs ys → Apart (x ∷ xs) ys
unfolding member
cons-Apart x xs [] h a = tt
cons-Apart x xs (y ∷ ys) h a = ground (arith, text_eq_iff x y, text_eq_iff y x, cons-Apart x xs ys)

pub member-append :
    (x : Text) (xs ys : List Text) → member x (xs ++ ys) ≡ (member x xs || member x ys)
unfolding member
member-append x [] ys = refl
member-append x (y ∷ xs) ys = ground (arith, member-append x xs ys)

pub Distinct-append :
    (xs ys : List Text)
    → Distinct xs
    → Distinct ys
    → ((x : Text) → member x xs ≡ true → member x ys ≡ false)
    → Distinct (xs ++ ys)
unfolding member
Distinct-append [] ys dx dy a = dy
Distinct-append (x ∷ xs) ys dx dy a = (
  ground (arith, member-append x xs ys, a x, text_eq_iff x x),
  Distinct-append xs ys dx.1 dy (λ z h. a z (ground arith)),
)
