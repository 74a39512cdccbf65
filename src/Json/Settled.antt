-- ===== src/Json/Settled.antt =====
-- `canonicalJSON` of internal/gateway/tools.go twice is `canonicalJSON` once.
use agentrun_openai.Prelude.{◌≡◌, refl, ap, arith}
use agentrun_openai.Prelude.Text.{Text, text_eq_iff}
use agentrun_openai.Json.Order.{text_lt_irrefl, text_lt_total}
use agentrun_openai.Json.{
  Json, Items, Members, null, boolean, number, string, array, object, nil, cons, end, field,
  put_field, canonical, canonical_items, canonical_fields,
}
use agentrun_openai.Json.Canonical.{Above, Above-trans, put_field-Above}

-- Values that are their own canonical form.
mutual
  pub Settled : Json → Type 0
  Settled null = Unit
  Settled (boolean b) = Unit
  Settled (number t) = Unit
  Settled (string t) = Unit
  Settled (array xs) = SettledItems xs
  Settled (object fs) = SettledFields fs

  pub SettledItems : Items → Type 0
  SettledItems nil = Unit
  SettledItems (cons v xs) = Settled v × SettledItems xs

  pub SettledFields : Members → Type 0
  SettledFields end = Unit
  SettledFields (field k v fs) = Above k fs × Settled v × SettledFields fs

pub put_field-SettledFields :
    (k : Text) (v : Json) (fs : Members)
    → Settled v
    → SettledFields fs
    → SettledFields (put_field k v fs)
unfolding put_field Settled
put_field-SettledFields k v end h s = (tt, h, tt)
put_field-SettledFields k v (field j w fs) h s = ground (
  arith,
  put_field-SettledFields k v fs,
  put_field-Above j k v fs,
  text_lt_total k j,
  Above-trans k j fs,
)

-- Put in front of keys that are above it, a field stands first.
pub put_field-front :
    (k : Text) (v : Json) (fs : Members) → Above k fs → put_field k v fs ≡ field k v fs
unfolding put_field
put_field-front k v end a = refl
put_field-front k v (field j w fs) a = ground (arith, text_lt_irrefl k, text_eq_iff k j)

mutual
  unfolding canonical Settled

  pub canonical-Settled : (v : Json) → Settled (canonical v)
  canonical-Settled null = tt
  canonical-Settled (boolean b) = tt
  canonical-Settled (number t) = tt
  canonical-Settled (string t) = tt
  canonical-Settled (array xs) = canonical_items-Settled xs
  canonical-Settled (object fs) = canonical_fields-Settled fs

  pub canonical_items-Settled : (xs : Items) → SettledItems (canonical_items xs)
  canonical_items-Settled nil = tt
  canonical_items-Settled (cons v xs) = (canonical-Settled v, canonical_items-Settled xs)

  pub canonical_fields-Settled : (fs : Members) → SettledFields (canonical_fields fs)
  canonical_fields-Settled end = tt
  canonical_fields-Settled (field k v fs) =
      put_field-SettledFields k (canonical v) (canonical_fields fs) (canonical-Settled v)
        (canonical_fields-Settled fs)

mutual
  unfolding canonical Settled

  pub canonical-Settled_same : (v : Json) → Settled v → canonical v ≡ v
  canonical-Settled_same null s = refl
  canonical-Settled_same (boolean b) s = refl
  canonical-Settled_same (number t) s = refl
  canonical-Settled_same (string t) s = refl
  canonical-Settled_same (array xs) s = ap array (canonical_items_settled xs s)
  canonical-Settled_same (object fs) s = ap object (canonical_fields_settled fs s)

  pub canonical_items_settled : (xs : Items) → SettledItems xs → canonical_items xs ≡ xs
  canonical_items_settled nil s = refl
  canonical_items_settled (cons v xs) s =
      rw (canonical-Settled_same v s.0, canonical_items_settled xs s.1)

  pub canonical_fields_settled : (fs : Members) → SettledFields fs → canonical_fields fs ≡ fs
  canonical_fields_settled end s = refl
  canonical_fields_settled (field k v fs) s =
      rw (canonical-Settled_same v s.1, canonical_fields_settled fs s.2, put_field-front k v fs s.0)

pub canonical_idem : (v : Json) → canonical (canonical v) ≡ canonical v
canonical_idem v = canonical-Settled_same (canonical v) (canonical-Settled v)
