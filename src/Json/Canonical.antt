-- ===== src/Json/Canonical.antt =====
-- The canonical form of `canonicalJSON` (internal/gateway/tools.go) forgets the order of the keys and
-- the fields that a later one replaces, and nothing else.
use mathlib.Core.Option
use agentrun_openai.Prelude.{
  ◌≡◌, refl, sym, ap, ◌∙◌, ◌↔◌, true, false, Option, none, some, if◌then◌else◌, arith,
}
use agentrun_openai.Prelude.Text.{Text, text_eq, text_eq_iff, text_eq_refl}
use agentrun_openai.Json.Order.{text_lt, text_lt_irrefl, text_lt_trans, text_lt_total}
use agentrun_openai.Json.{Json, Members, object, end, field, put_field, canonical, canonical_fields}

abbrev pub or_else : Option Json → Option Json → Option Json
or_else (some v) o = some v
or_else none o = o

-- The value that a Go map holds under a key once the fields are read into it.
unfoldable pub find : Text → Members → Option Json
find k end = none
find k (field j v fs) = or_else (find k fs) (if text_eq k j then some v else none)

-- Every key is above `k`, in the order of Go strings.
abbrev pub Above : Text → Members → Type 0
Above k end = Unit
Above k (field j v fs) = (text_lt k j ≡ true) × Above k fs

abbrev pub SortedFields : Members → Type 0
SortedFields end = Unit
SortedFields (field k v fs) = Above k fs × SortedFields fs

pub Above-trans : (i k : Text) (fs : Members) → text_lt i k ≡ true → Above k fs → Above i fs
Above-trans i k end h a = tt
Above-trans i k (field j v fs) h a = (text_lt_trans i k j h a.0, Above-trans i k fs h a.1)

pub find-Above : (k : Text) (fs : Members) → Above k fs → find k fs ≡ none
unfolding find
find-Above k end a = refl
find-Above k (field j v fs) a = ground (arith, find-Above k fs, text_lt_irrefl k, text_eq_iff k j)

-- A field put in front reads as a field before the others.
pub find-put_field :
    (i k : Text) (v : Json) (fs : Members) → find i (put_field k v fs) ≡ find i (field k v fs)
unfolding find put_field
find-put_field i k v end = refl
find-put_field i k v (field j w fs) =
    ground (arith, find-put_field i k v fs, text_eq_iff k j, text_eq_iff i j, text_eq_iff i k)

pub find-canonical_fields :
    (k : Text) (fs : Members) → find k (canonical_fields fs) ≡ Option.map canonical (find k fs)
unfolding find canonical_fields
find-canonical_fields k end = refl
find-canonical_fields k (field j v fs) =
    ground
      (arith, find-put_field k j (canonical v) (canonical_fields fs), find-canonical_fields k fs)

pub put_field-Above :
    (i k : Text) (v : Json) (fs : Members)
    → text_lt i k ≡ true
    → Above i fs
    → Above i (put_field k v fs)
unfolding put_field
put_field-Above i k v end h a = (h, tt)
put_field-Above i k v (field j w fs) h a = ground (arith, put_field-Above i k v fs)

pub put_field-SortedFields :
    (k : Text) (v : Json) (fs : Members) → SortedFields fs → SortedFields (put_field k v fs)
unfolding put_field
put_field-SortedFields k v end s = (tt, tt)
put_field-SortedFields k v (field j w fs) s = ground (
  arith,
  put_field-SortedFields k v fs,
  put_field-Above j k v fs,
  text_lt_total k j,
  Above-trans k j fs,
)

pub canonical_fields-SortedFields : (fs : Members) → SortedFields (canonical_fields fs)
unfolding canonical_fields
canonical_fields-SortedFields end = tt
canonical_fields-SortedFields (field k v fs) =
    put_field-SortedFields k (canonical v) (canonical_fields fs) (canonical_fields-SortedFields fs)

-- A key below all others of a list.
pub find-front :
    (i k : Text) (v : Json) (fs : Members)
    → text_lt i k ≡ true
    → Above k fs
    → find i (field k v fs) ≡ none
find-front i k v fs h a = find-Above i (field k v fs) (h, Above-trans i k fs h a)

pub find-head : (k : Text) (v : Json) (fs : Members) → Above k fs → find k (field k v fs) ≡ some v
unfolding find
find-head k v fs a = ground (arith, find-Above k fs a, text_eq_refl k)

pub heads_agree :
    (k j : Text) (v w : Json) (fs gs : Members)
    → Above k fs
    → Above j gs
    → ((i : Text) → find i (field k v fs) ≡ find i (field j w gs))
    → (k ≡ j) × (v ≡ w)
heads_agree k j v w fs gs a b h =
    elim (text_eq k j) as (λ e. text_eq k j ≡ e → (k ≡ j) × (v ≡ w)) [
      | true ↦ λ e.
          let same = (text_eq_iff k j).0 e in
          ground (arith, find-head k v fs a, find-head j w gs b, h k, same)
      | false ↦ λ e. ground (
        arith,
        text_lt_total k j,
        find-front k j w gs,
        find-front j k v fs,
        find-head k v fs a,
        find-head j w gs b,
        h k,
        h j,
      )
    ]
      refl

pub tails_agree :
    (k j : Text) (v w : Json) (fs gs : Members)
    → k ≡ j
    → Above k fs
    → Above j gs
    → ((i : Text) → find i (field k v fs) ≡ find i (field j w gs))
    → (i : Text) → find i fs ≡ find i gs
unfolding find
tails_agree k j v w fs gs e a b h i =
    ground (arith, h i, find-Above k fs a, find-Above j gs b, text_eq_iff i k, text_eq_iff i j)

-- A sorted list of fields is settled by what is found in it.
pub find_ext :
    (fs gs : Members)
    → SortedFields fs
    → SortedFields gs
    → ((i : Text) → find i fs ≡ find i gs)
    → fs ≡ gs
find_ext end end s t h = refl
find_ext end (field j w gs) s t h = ground (arith, h j, find-head j w gs t.0, find-Above j end tt)
find_ext (field k v fs) end s t h = ground (arith, h k, find-head k v fs s.0, find-Above k end tt)
find_ext (field k v fs) (field j w gs) s t h =
    let same = heads_agree k j v w fs gs s.0 t.0 h in
    let rest = find_ext fs gs s.1 t.1 (tails_agree k j v w fs gs same.0 s.0 t.0 h) in
    cc (same.0, same.1, rest)

abbrev pub fields_of : Json → Members
fields_of (object fs) = fs
fields_of _ = end

-- Two objects have one canonical form exactly when they have the same keys, each with values of one
-- canonical form: the order of the keys, and values that a later one replaces, do not count.
pub canonical_object_iff :
    (fs gs : Members)
    → (canonical (object fs) ≡ canonical (object gs))
      ↔ ((k : Text) → Option.map canonical (find k fs) ≡ Option.map canonical (find k gs))
canonical_object_iff fs gs = (
  λ e k.
      unfold canonical in
      sym (find-canonical_fields k fs)
      ∙ (ap (λ v. find k (fields_of v)) e ∙ find-canonical_fields k gs),
  λ h.
      unfold canonical in
      ap object (
        find_ext (canonical_fields fs) (canonical_fields gs) (canonical_fields-SortedFields fs)
          (canonical_fields-SortedFields gs)
          (λ k. find-canonical_fields k fs ∙ (h k ∙ sym (find-canonical_fields k gs)))),
)
