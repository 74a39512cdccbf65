-- ===== src/Turn/Accepts.antt =====
-- Which batches of tool results `resolve` of active_turn.go accepts.
use agentrun_openai.Prelude.{
  ◌≡◌, ◌≢◌, ◌↔◌, inl, inr, refl, sym, ◌∙◌, true, false, List, [], ◌∷◌, Option, none, some, arith,
  All, Option-cases, Bool-cases,
}
use agentrun_openai.Prelude.Text.{Text, member, text_eq, text_eq_iff, text_eq_refl}
use agentrun_openai.Prelude.Distinct.{Distinct, Apart, Apart-cons, cons-Apart}
use agentrun_openai.Prelude.Dict.{Dict, lookup, remove, Unique, lookup-remove}
use agentrun_openai.Types.{TranscriptMessage, ToolPolicy, GoError, tool, role_eq_iff}
use agentrun_openai.Turn.{
  ActiveTurn, PendingCall, resolved, panics, release, resolve, seen, unfit, Seen, seen_ids,
  first_missing, is_delivered, resolve_seen, resolve_missing, resolve_running,
}
use agentrun_openai.Turn.Answers.{
  ids, resolve-Accepted, after_one, seen_ids-member, first_missing-none,
}

-- A message answers a call that was handed to the client.
abbrev pub Answers : Dict PendingCall → TranscriptMessage → Type 0
Answers pending m = (m.role ≡ tool) × (is_delivered (lookup m.tool_call_id pending) ≡ true)

-- A batch that answers each delivered call of a running turn once, and no other.
pub record Complete (ms : List TranscriptMessage) (t : ActiveTurn) : Type 0 where
  pub running : t.cause ≡ none
  pub given : ms ≢ []
  pub answering : All (Answers t.pending) ms
  pub distinct : Distinct (ids ms)
  pub covering : (id : Text) → is_delivered (lookup id t.pending) ≡ true → member id (ids ms) ≡ true

-- What the first loop checks, with the IDs seen before.
abbrev Fit : Dict PendingCall → List Text → List TranscriptMessage → Type 0
Fit pending xs [] = Unit
Fit pending xs (m ∷ ms) =
    (m.role ≡ tool)
    × (is_delivered (lookup m.tool_call_id pending) ≡ true)
    × (member m.tool_call_id xs ≡ false)
    × Fit pending (m.tool_call_id ∷ xs) ms

seen_ids-Fit :
    (pending : Dict PendingCall) (xs ys : List Text) (ms : List TranscriptMessage)
    → seen_ids pending xs ms ≡ seen ys
    → Fit pending xs ms
unfolding seen_ids
seen_ids-Fit pending xs ys [] e = tt
seen_ids-Fit pending xs ys (m ∷ ms) e =
    ground (arith, seen_ids-Fit pending (m.tool_call_id ∷ xs) ys ms, role_eq_iff m.role tool)

Fit-seen_ids :
    (pending : Dict PendingCall) (xs : List Text) (ms : List TranscriptMessage)
    → Fit pending xs ms
    → (ys : List Text) × (seen_ids pending xs ms ≡ seen ys)
unfolding seen_ids
Fit-seen_ids pending xs [] f = (xs, refl)
Fit-seen_ids pending xs (m ∷ ms) f =
    let (ys, e) = Fit-seen_ids pending (m.tool_call_id ∷ xs) ms f.3 in
    (ys, ground (arith, role_eq_iff m.role tool))

Fit-parts :
    (pending : Dict PendingCall) (xs : List Text) (ms : List TranscriptMessage)
    → Fit pending xs ms
    → All (Answers pending) ms × Distinct (ids ms) × Apart xs (ids ms)
Fit-parts pending xs [] f = (tt, tt, tt)
Fit-parts pending xs (m ∷ ms) f =
    let (all, distinct, apart) = Fit-parts pending (m.tool_call_id ∷ xs) ms f.3 in
    let (new, old) = Apart-cons m.tool_call_id xs (ids ms) apart in
    (((f.0, f.1), all), (new, distinct), (f.2, old))

parts-Fit :
    (pending : Dict PendingCall) (xs : List Text) (ms : List TranscriptMessage)
    → All (Answers pending) ms
    → Distinct (ids ms)
    → Apart xs (ids ms)
    → Fit pending xs ms
parts-Fit pending xs [] a d p = tt
parts-Fit pending xs (m ∷ ms) a d p = (
  a.0.0,
  a.0.1,
  p.0,
  parts-Fit pending (m.tool_call_id ∷ xs) ms a.1 d.1
      (cons-Apart m.tool_call_id xs (ids ms) d.0 p.1),
)

-- With no key twice, an entry is what its key is looked up to; so if the calls that are delivered are
-- all among the IDs, the second loop finds none missing.
none-first_missing :
    (xs : List Text) (pending : Dict PendingCall)
    → Unique pending
    → ((id : Text) → is_delivered (lookup id pending) ≡ true → member id xs ≡ true)
    → first_missing xs pending ≡ none
unfolding first_missing lookup
none-first_missing xs [] u h = refl
none-first_missing xs ((j, p) ∷ m) u h =
    ground (arith, h j, text_eq_iff j j, none-first_missing xs m u.1 later)
  where
    clash : false ≡ true → ⊥
    clash c = cc

    later : (id : Text) → is_delivered (lookup id m) ≡ true → member id xs ≡ true
    later id d = elim (Bool-cases (text_eq j id)) [
      | inl e ↦ absurd (clash (rw (← (text_eq_iff j id).0 e, u.0) at d))
      | inr e ↦ h id (rw (e, lookup) d)
    ]

abbrev Delivered : Dict PendingCall → List TranscriptMessage → Type 0
Delivered pending = All (λ m. is_delivered (lookup m.tool_call_id pending) ≡ true)

Answers-Delivered :
    (pending : Dict PendingCall) (ms : List TranscriptMessage)
    → All (Answers pending) ms
    → Delivered pending ms
Answers-Delivered pending [] a = tt
Answers-Delivered pending (m ∷ ms) a = (a.0.1, Answers-Delivered pending ms a.1)

Delivered-remove :
    (x : Text) (pending : Dict PendingCall) (ms : List TranscriptMessage)
    → member x (ids ms) ≡ false
    → Delivered pending ms
    → Delivered (remove x pending) ms
unfolding member
Delivered-remove x pending [] n d = tt
Delivered-remove x pending (m ∷ ms) n d = ground (
  arith,
  lookup-remove x m.tool_call_id pending,
  text_eq_iff x m.tool_call_id,
  text_eq_iff m.tool_call_id x,
  Delivered-remove x pending ms,
)

-- The third loop meets no missing entry where the IDs are distinct and pending.
release-total :
    (ms : List TranscriptMessage) (t : ActiveTurn)
    → Delivered t.pending ms
    → Distinct (ids ms)
    → (u : ActiveTurn) × (release ms t ≡ resolved u)
unfolding release
release-total [] t a d = (t, refl)
release-total (m ∷ ms) t a d = elim (Option-cases (lookup m.tool_call_id t.pending)) [
  | inl h ↦ absurd (clash (rw h at a.0))
  | inr (p, h) ↦
      let (u, e) =
        release-total ms (after_one m t) (Delivered-remove m.tool_call_id t.pending ms d.0 a.1)
          d.1 in
      (u, rw (h, release) e)
]
  where
    clash : false ≡ true → ⊥
    clash c = cc

-- Whatever the batch and the turn, `resolve` never meets a missing entry when it releases the calls.
pub resolve-ne-panics :
    (ms : List TranscriptMessage) (policy : ToolPolicy) (t : ActiveTurn)
    → resolve ms policy t ≢ panics
unfolding resolve
resolve-ne-panics ms policy t = running t.cause
  where
    missing :
        (xs : List Text) (o : Option Text)
        → seen_ids t.pending [] ms ≡ seen xs
        → resolve_missing o ms policy t ≢ panics
    missing xs (some id) s e = cc
    missing xs none s e =
        let (a, d, p) = Fit-parts t.pending [] ms (seen_ids-Fit t.pending [] xs ms s) in
        let (u, r) =
          release-total ms (record t { policy = policy }) (Answers-Delivered t.pending ms a) d in
        cc

    found : (o : Seen) → seen_ids t.pending [] ms ≡ o → resolve_seen o ms policy t ≢ panics
    found (unfit id) s e = cc
    found (seen []) s e = cc
    found (seen (x ∷ xs)) s e = missing (x ∷ xs) (first_missing (x ∷ xs) t.pending) s e

    running : (o : Option GoError) → resolve_running o ms policy t ≢ panics
    running (some c) e = cc
    running none e = found (seen_ids t.pending [] ms) refl e

-- The first loop sees nothing only in an empty batch.
seen_ids-nil :
    (pending : Dict PendingCall) (ms : List TranscriptMessage)
    → (seen_ids pending [] ms ≡ seen []) ↔ (ms ≡ [])
unfolding seen_ids member
seen_ids-nil pending [] = (λ e. refl, λ e. refl)
seen_ids-nil pending (m ∷ ms) = (λ e. absurd (grown e), λ e. cc)
  where
    grown : seen_ids pending [] (m ∷ ms) ≡ seen [] → ⊥
    grown e = ground (
      arith,
      seen_ids-member pending [] [] (m ∷ ms) m.tool_call_id e,
      text_eq_refl m.tool_call_id,
    )

pub Complete-resolve :
    (ms : List TranscriptMessage) (policy : ToolPolicy) (t : ActiveTurn)
    → Unique t.pending
    → Complete ms t
    → (u : ActiveTurn) × (resolve ms policy t ≡ resolved u)
unfolding resolve member
Complete-resolve ms policy t u c =
    let fit = parts-Fit t.pending [] ms c.answering c.distinct (apart (ids ms)) in
    let (xs, s) = Fit-seen_ids t.pending [] ms fit in
    let f =
      none-first_missing xs t.pending u
        λ id d. seen_ids-member t.pending [] xs ms id s ∙ c.covering id d in
    let (v, r) =
      release-total ms (record t { policy = policy }) (Answers-Delivered t.pending ms c.answering)
        c.distinct in
    (v, accepted xs v s f r)
  where
    apart : (xs : List Text) → Apart [] xs
    apart [] = tt
    apart (x ∷ xs) = (refl, apart xs)

    accepted :
        (xs : List Text) (v : ActiveTurn)
        → seen_ids t.pending [] ms ≡ seen xs
        → first_missing xs t.pending ≡ none
        → release ms (record t { policy = policy }) ≡ resolved v
        → resolve ms policy t ≡ resolved v
    accepted [] v s f r = absurd (c.given ((seen_ids-nil t.pending ms).0 s))
    accepted (x ∷ xs) v s f r = ground (arith, c.running)

pub resolve-Complete :
    (ms : List TranscriptMessage) (policy : ToolPolicy) (t u : ActiveTurn)
    → resolve ms policy t ≡ resolved u
    → Complete ms t
unfolding member
resolve-Complete ms policy t u e =
    let a = resolve-Accepted ms policy t u e in
    let (all, distinct, apart) =
      Fit-parts t.pending [] ms (seen_ids-Fit t.pending [] a.found ms a.first) in
    record {
      running = a.running;
      given = λ n. a.given (seen-injective (sym a.first ∙ (seen_ids-nil t.pending ms).1 n));
      answering = all;
      distinct = distinct;
      covering = λ id d. ground (
        arith,
        seen_ids-member t.pending [] a.found ms id a.first,
        first_missing-none a.found t.pending id a.second d,
      );
    }
  where
    seen-injective : {xs ys : List Text} → seen xs ≡ seen ys → xs ≡ ys
    seen-injective x = cc

-- In a turn whose map has no key twice, `resolve` accepts a batch exactly when the turn is running and
-- the batch is not empty, every message of it has role tool and names a call that was handed to the
-- client, no call is named twice, and every call that was handed out is named.
pub resolve_accepts :
    (ms : List TranscriptMessage) (policy : ToolPolicy) (t : ActiveTurn)
    → Unique t.pending
    → ((u : ActiveTurn) × (resolve ms policy t ≡ resolved u)) ↔ Complete ms t
resolve_accepts ms policy t h =
    (λ r. resolve-Complete ms policy t r.0 r.1, Complete-resolve ms policy t h)
