-- ===== src/Turn/Answers.antt =====
-- What `resolve` of active_turn.go does with a batch that it accepts.
use agentrun_openai.Prelude.{
  ◌≡◌, ◌≢◌, refl, sym, ◌∙◌, true, false, ◌||◌, List, [], ◌∷◌, ◌++◌, Option, none, some,
  if◌then◌else◌, arith, append_assoc, append-nil, Option-cases, inl, inr, subst,
}
use agentrun_openai.Prelude.Text.{Text, member, text_eq_iff}
use agentrun_openai.Prelude.Dict.{Dict, lookup, remove, Unique, lookup-remove, remove-Unique}
use agentrun_openai.Types.{TranscriptMessage, ToolPolicy, GoError}
use agentrun_openai.Turn.{
  ActiveTurn, PendingCall, resolved, panics, release, resolve, resolve_seen, resolve_missing,
  resolve_running, seen, unfit, Seen, seen_ids, first_missing, is_delivered,
}

abbrev pub ids : List TranscriptMessage → List Text
ids [] = []
ids (m ∷ ms) = m.tool_call_id ∷ ids ms

abbrev pub answers_of : List TranscriptMessage → List (Text × Text)
answers_of [] = []
answers_of (m ∷ ms) = (m.tool_call_id, m.content) ∷ answers_of ms

-- The third loop took the calls of `ms` out of `t`, and answered each.
pub record Released (ms : List TranscriptMessage) (t u : ActiveTurn) : Type 0 where
  pub answered : u.answers ≡ t.answers ++ answers_of ms
  pub left :
      (id : Text) → lookup id u.pending ≡ (if member id (ids ms) then none else lookup id t.pending)
  pub same_policy : u.policy ≡ t.policy
  pub same_cause : u.cause ≡ t.cause
  pub same_events : u.events ≡ t.events

abbrev pub after_one : TranscriptMessage → ActiveTurn → ActiveTurn
after_one m t = record t {
  pending = remove m.tool_call_id t.pending;
  answers = t.answers ++ ((m.tool_call_id, m.content) ∷ []);
}

Released-cons :
    (m : TranscriptMessage) (ms : List TranscriptMessage) (t u : ActiveTurn)
    → Released ms (after_one m t) u
    → Released (m ∷ ms) t u
unfolding member
Released-cons m ms t u r = record {
  answered = r.answered ∙ append_assoc t.answers ((m.tool_call_id, m.content) ∷ []) (answers_of ms);
  left = λ id. ground (arith, r.left id, lookup-remove m.tool_call_id id t.pending);
  same_policy = r.same_policy;
  same_cause = r.same_cause;
  same_events = r.same_events;
}

resolved-injective : {t u : ActiveTurn} → resolved t ≡ resolved u → t ≡ u
resolved-injective e = cc

release-Released :
    (ms : List TranscriptMessage) (t u : ActiveTurn) → release ms t ≡ resolved u → Released ms t u
unfolding release member
release-Released [] t u e = subst (Released [] t) (resolved-injective e) (record {
  answered = sym (append-nil t.answers);
  left = λ id. refl;
  same_policy = refl;
  same_cause = refl;
  same_events = refl;
})
release-Released (m ∷ ms) t u e = elim (Option-cases (lookup m.tool_call_id t.pending)) [
  | inl h ↦ absurd (panicked (rw (h, release) at e))
  | inr (p, h) ↦
      Released-cons m ms t u (release-Released ms (after_one m t) u (rw (h, release) at e))
]
  where
    panicked : panics ≡ resolved u → ⊥
    panicked x = cc

release-Unique :
    (ms : List TranscriptMessage) (t u : ActiveTurn)
    → release ms t ≡ resolved u
    → Unique t.pending
    → Unique u.pending
unfolding release
release-Unique [] t u e h = subst (λ v. Unique v.pending) (resolved-injective e) h
release-Unique (m ∷ ms) t u e h = elim (Option-cases (lookup m.tool_call_id t.pending)) [
  | inl k ↦ absurd (panicked (rw (k, release) at e))
  | inr (p, k) ↦
      release-Unique ms (after_one m t) u (rw (k, release) at e)
        (remove-Unique m.tool_call_id t.pending h)
]
  where
    panicked : panics ≡ resolved u → ⊥
    panicked x = cc

-- Every delivered call of the map is among the IDs.
pub first_missing-none :
    (xs : List Text) (pending : Dict PendingCall) (id : Text)
    → first_missing xs pending ≡ none
    → is_delivered (lookup id pending) ≡ true
    → member id xs ≡ true
unfolding first_missing lookup
first_missing-none xs [] id e h = cc
first_missing-none xs ((j, p) ∷ m) id e h =
    ground (arith, first_missing-none xs m id, text_eq_iff j id)

-- The IDs that the first loop saw.
pub seen_ids-member :
    (pending : Dict PendingCall) (xs ys : List Text) (ms : List TranscriptMessage) (id : Text)
    → seen_ids pending xs ms ≡ seen ys
    → member id ys ≡ (member id xs || member id (ids ms))
unfolding seen_ids member
seen_ids-member pending xs ys [] id e = ground arith
seen_ids-member pending xs ys (m ∷ ms) id e =
    ground (arith, seen_ids-member pending (m.tool_call_id ∷ xs) ys ms id)

-- The three loops behind a batch that was accepted.
pub record Accepted (ms : List TranscriptMessage) (policy : ToolPolicy) (t u : ActiveTurn)
    : Type 0 where
  pub running : t.cause ≡ none
  pub found : List Text
  pub first : seen_ids t.pending [] ms ≡ seen found
  pub given : found ≢ []
  pub second : first_missing found t.pending ≡ none
  pub third : release ms (record t { policy = policy }) ≡ resolved u

module _ (ms : List TranscriptMessage) (policy : ToolPolicy) (t u : ActiveTurn) where
  missing-Accepted :
      (xs : List Text) (o : Option Text)
      → t.cause ≡ none
      → seen_ids t.pending [] ms ≡ seen xs
      → xs ≢ []
      → first_missing xs t.pending ≡ o
      → resolve_missing o ms policy t ≡ resolved u
      → Accepted ms policy t u
  missing-Accepted xs none c f g s e = record {
    running = c;
    found = xs;
    first = f;
    given = g;
    second = s;
    third = e;
  }
  missing-Accepted xs (some id) c f g s e = cc

  seen-Accepted :
      (o : Seen)
      → t.cause ≡ none
      → seen_ids t.pending [] ms ≡ o
      → resolve_seen o ms policy t ≡ resolved u
      → Accepted ms policy t u
  seen-Accepted (unfit id) c f e = cc
  seen-Accepted (seen []) c f e = cc
  seen-Accepted (seen (x ∷ xs)) c f e =
      missing-Accepted (x ∷ xs) (first_missing (x ∷ xs) t.pending) c f (λ h. cc) refl e

  running-Accepted :
      (o : Option GoError)
      → t.cause ≡ o
      → resolve_running o ms policy t ≡ resolved u
      → Accepted ms policy t u
  running-Accepted none c e = seen-Accepted (seen_ids t.pending [] ms) c refl e
  running-Accepted (some x) c e = cc

  pub resolve-Accepted : resolve ms policy t ≡ resolved u → Accepted ms policy t u
  unfolding resolve
  resolve-Accepted e = running-Accepted t.cause refl e

-- A batch of tool results that `resolve` accepts: each message of the batch is sent to its call, in
-- order, and nothing else is; exactly the calls of the batch leave the map, and every other call,
-- registered or not, stays as it was; the policy is the new one; and no delivered call is left
-- without an answer.
pub resolve_exact :
    (ms : List TranscriptMessage) (policy : ToolPolicy) (t u : ActiveTurn)
    → resolve ms policy t ≡ resolved u
    → (u.answers ≡ t.answers ++ answers_of ms)
      × (u.policy ≡ policy)
      × ((id : Text)
          → lookup id u.pending ≡ (if member id (ids ms) then none else lookup id t.pending))
      × ((id : Text) → is_delivered (lookup id u.pending) ≡ false)
unfolding member
resolve_exact ms policy t u e =
    let a = resolve-Accepted ms policy t u e in
    let r = release-Released ms (record t { policy = policy }) u a.third in
    (
      r.answered,
      r.same_policy,
      r.left,
      λ id. ground (
        arith,
        r.left id,
        first_missing-none a.found t.pending id a.second,
        seen_ids-member t.pending [] a.found ms id a.first,
      ),
    )

pub resolve-Unique :
    (ms : List TranscriptMessage) (policy : ToolPolicy) (t u : ActiveTurn)
    → resolve ms policy t ≡ resolved u
    → Unique t.pending
    → Unique u.pending
resolve-Unique ms policy t u e =
    release-Unique ms (record t { policy = policy }) u (resolve-Accepted ms policy t u e).third
