-- ===== src/Turn/Steps.antt =====
-- The concurrency of active_turn.go: MCP calls that register themselves, deliveries and results from
-- successive HTTP exchanges, emissions of the agent, events taken by an exchange, and cancellations, in
-- any order.
use agentrun_openai.Prelude.{
  ◌≡◌, refl, sym, ap, ◌∙◌, true, false, ◌||◌, List, [], ◌∷◌, ◌++◌, Option, none, some, arith, All,
  subst, ◌⊎◌, inl, inr, Bool-cases,
}
use agentrun_openai.Prelude.Text.{Text, member, text_eq, text_eq_iff}
use agentrun_openai.Prelude.Distinct.{Distinct, member-append, Distinct-append}
use agentrun_openai.Prelude.Dict.{
  Dict, lookup, insert, adjust, keys, Unique, lookup-insert, lookup-adjust, insert-Unique,
  adjust-Unique,
}
use agentrun_openai.Types.{TranscriptMessage, ToolPolicy, ToolCall, GoError}
use agentrun_openai.Turn.{
  ActiveTurn, PendingCall, TurnEvent, Emits, stopped, queued, registered, register, register_raw,
  is_object, resolved, resolve, deliver, cancel, mark_delivered, call_of, new_active_turn,
}
use agentrun_openai.Turn.Answers.{ids, answers_of, resolve_exact, resolve-Unique}
use agentrun_openai.Turn.Accepts.{Answers, resolve-Complete}

-- IDs are random: a new one is in use neither in the map nor among the calls answered.
pub data Step (t : ActiveTurn) : ActiveTurn → Type 0 where
  calls :
      (raw : Option Text) (id name : Text) (call : ToolCall) (u : ActiveTurn)
      → lookup id t.pending ≡ none
      → member id (keys t.answers) ≡ false
      → register raw id name t ≡ registered call u
      → Step t u
  emits : (e : TurnEvent) (r : Option GoError) (u : ActiveTurn) → Emits t e u r → Step t u
  takes :
      (e : TurnEvent) (rest : List TurnEvent)
      → t.events ≡ e ∷ rest
      → Step t (record t { events = rest })
  delivers : (id : Text) → Step t (deliver id t)
  resolves :
      (ms : List TranscriptMessage) (policy : ToolPolicy) (u : ActiveTurn)
      → resolve ms policy t ≡ resolved u
      → Step t u
  cancels : (e : GoError) → Step t (cancel e t)

pub data Reach (s : ActiveTurn) : ActiveTurn → Type 0 where
  here : Reach s s
  next : {t u : ActiveTurn} → Reach s t → Step t u → Reach s u

-- No call is answered twice, and an answered call is no longer pending.
pub record Inv (t : ActiveTurn) : Type 0 where
  pub unique : Unique t.pending
  pub once : Distinct (keys t.answers)
  pub gone : (id : Text) → member id (keys t.answers) ≡ true → lookup id t.pending ≡ none

keys-append {ℓ} : {V : Type ℓ} (m n : Dict V) → keys (m ++ n) ≡ keys m ++ keys n
keys-append [] n = refl
keys-append ((k, v) ∷ m) n = rw (keys-append m n)

keys-answers_of : (ms : List TranscriptMessage) → keys (answers_of ms) ≡ ids ms
keys-answers_of [] = refl
keys-answers_of (m ∷ ms) = rw (keys-answers_of ms)

register-lookup :
    (raw : Option Text) (id name : Text) (t u : ActiveTurn) (call : ToolCall)
    → register_raw raw id name t ≡ registered call u
    → (p : PendingCall) × (u ≡ record t { pending = insert id p t.pending })
register-lookup none id name t u call e = cc
register-lookup (some raw) id name t u call e =
    (record { call = call_of id name raw; delivered = false }, ground arith)

calls-Inv :
    (raw : Option Text) (id name : Text) (t u : ActiveTurn) (call : ToolCall)
    → lookup id t.pending ≡ none
    → member id (keys t.answers) ≡ false
    → register raw id name t ≡ registered call u
    → Inv t
    → Inv u
unfolding register
calls-Inv raw id name t u call free new e v =
    let (p, same) = register-lookup (is_object raw) id name t u call e in
    subst Inv (sym same) (record {
      unique = insert-Unique id p t.pending v.unique;
      once = v.once;
      gone = λ j h. ground (arith, v.gone j h, lookup-insert id j p t.pending, text_eq_iff id j);
    })

Answers-free :
    (pending : Dict PendingCall) (ms : List TranscriptMessage) (x : Text)
    → All (Answers pending) ms
    → lookup x pending ≡ none
    → member x (ids ms) ≡ false
unfolding member
Answers-free pending [] x a h = refl
Answers-free pending (m ∷ ms) x a h =
    ground (arith, text_eq_iff m.tool_call_id x, Answers-free pending ms x a.1 h)

keys-resolved :
    (ms : List TranscriptMessage) (policy : ToolPolicy) (t u : ActiveTurn)
    → resolve ms policy t ≡ resolved u
    → keys u.answers ≡ keys t.answers ++ ids ms
keys-resolved ms policy t u e =
    ap keys (resolve_exact ms policy t u e).0
    ∙ keys-append t.answers (answers_of ms)
    ∙ ap (λ ks. keys t.answers ++ ks) (keys-answers_of ms)

resolves-Inv :
    (ms : List TranscriptMessage) (policy : ToolPolicy) (t u : ActiveTurn)
    → resolve ms policy t ≡ resolved u
    → Inv t
    → Inv u
resolves-Inv ms policy t u e v =
    let left = (resolve_exact ms policy t u e).2 in
    let c = resolve-Complete ms policy t u e in
    let split = keys-resolved ms policy t u e in
    record {
      unique = resolve-Unique ms policy t u e v.unique;
      once = rw split (
          Distinct-append (keys t.answers) (ids ms) v.once c.distinct
            (λ x h. Answers-free t.pending ms x c.answering (v.gone x h)));
      gone = λ j h.
          ground (
            arith,
            left j,
            v.gone j,
            member-append j (keys t.answers) (ids ms),
            ap (member j) split,
          );
    }

pub Step-Inv : {t u : ActiveTurn} → Step t u → Inv t → Inv u
unfolding deliver cancel
Step-Inv {t} (calls raw id name call u free new e) v = calls-Inv raw id name t u call free new e v
Step-Inv (emits e r u (stopped c h)) v = v
Step-Inv (emits e r u (queued h)) v = record { unique = v.unique; once = v.once; gone = v.gone }
Step-Inv (takes e rest h) v = record { unique = v.unique; once = v.once; gone = v.gone }
Step-Inv {t} (delivers id) v = record {
  unique = adjust-Unique id mark_delivered t.pending v.unique;
  once = v.once;
  gone = λ j h. ground (arith, v.gone j h, lookup-adjust id j mark_delivered t.pending);
}
Step-Inv {t} (resolves ms policy u e) v = resolves-Inv ms policy t u e v
Step-Inv (cancels e) v = record { unique = v.unique; once = v.once; gone = v.gone }

Reach-Inv : {s t : ActiveTurn} → Inv s → Reach s t → Inv t
Reach-Inv v here = v
Reach-Inv v (next r st) = Step-Inv st (Reach-Inv v r)

-- In every state that a new turn can reach, by any interleaving of calls, emissions, events taken,
-- deliveries, results and cancellations, with call IDs that are new: no call has been answered twice, none that
-- was answered is still pending, and no ID stands twice in the map of pending calls.
pub answered_once :
    (cause : Option GoError) (policy : ToolPolicy) (t : ActiveTurn)
    → Reach (new_active_turn cause policy) t
    → Inv t
unfolding new_active_turn lookup
answered_once cause policy t r =
    Reach-Inv (record { unique = tt; once = tt; gone = λ id h. refl }) r

-- A call waits for its answer or has it.
abbrev pub Known : Text → ActiveTurn → Type 0
Known id t =
    ((p : PendingCall) × (lookup id t.pending ≡ some p)) ⊎ (member id (keys t.answers) ≡ true)

adjust-known :
    (id j : Text) (p : PendingCall) (m : Dict PendingCall)
    → lookup j m ≡ some p
    → (q : PendingCall) × (lookup j (adjust id mark_delivered m) ≡ some q)
adjust-known id j p m h = elim (Bool-cases (text_eq id j)) [
  | inl e ↦ (mark_delivered p, ground (arith, lookup-adjust id j mark_delivered m))
  | inr e ↦ (p, ground (arith, lookup-adjust id j mark_delivered m))
]

insert-known :
    (id j : Text) (v p : PendingCall) (m : Dict PendingCall)
    → lookup j m ≡ some p
    → (q : PendingCall) × (lookup j (insert id v m) ≡ some q)
insert-known id j v p m h = elim (Bool-cases (text_eq id j)) [
  | inl e ↦ (v, ground (arith, lookup-insert id j v m))
  | inr e ↦ (p, ground (arith, lookup-insert id j v m))
]

resolves-Known :
    (id : Text) (ms : List TranscriptMessage) (policy : ToolPolicy) (t u : ActiveTurn)
    → resolve ms policy t ≡ resolved u
    → Known id t
    → Known id u
resolves-Known id ms policy t u e k = known k (Bool-cases (member id (ids ms)))
  where
    split : member id (keys u.answers) ≡ (member id (keys t.answers) || member id (ids ms))
    split =
        ap (member id) (keys-resolved ms policy t u e) ∙ member-append id (keys t.answers) (ids ms)

    known : Known id t → (member id (ids ms) ≡ true) ⊎ (member id (ids ms) ≡ false) → Known id u
    known (inr h) b = inr (ground (arith, split))
    known (inl (p, h)) (inl b) = inr (ground (arith, split))
    known (inl (p, h)) (inr b) = inl (p, ground (arith, (resolve_exact ms policy t u e).2 id))

Step-Known : {t u : ActiveTurn} (id : Text) → Step t u → Known id t → Known id u
unfolding deliver cancel register
Step-Known {t} {u} id (calls raw new name call u' free fresh e) (inr h) =
    let (p, same) = register-lookup (is_object raw) new name t u call e in
    subst (Known id) (sym same) (inr h)
Step-Known {t} {u} id (calls raw new name call u' free fresh e) (inl (q, h)) =
    let (p, same) = register-lookup (is_object raw) new name t u call e in
    subst (Known id) (sym same) (inl (insert-known new id p q t.pending h))
Step-Known id (emits e r u (stopped c h)) k = k
Step-Known id (emits e r u (queued h)) k = k
Step-Known id (takes e rest h) k = k
Step-Known id (delivers j) (inr h) = inr h
Step-Known {t} id (delivers j) (inl (p, h)) = inl (adjust-known j id p t.pending h)
Step-Known {t} {u} id (resolves ms policy u' e) k = resolves-Known id ms policy t u e k
Step-Known id (cancels e) k = k

-- A call that is pending in some state is never lost: in every state that this one can reach, it is
-- still pending or it has been answered.
pub never_lost :
    (id : Text) (p : PendingCall) (s t : ActiveTurn)
    → lookup id s.pending ≡ some p
    → Reach s t
    → Known id t
never_lost id p s t h here = inl (p, h)
never_lost id p s t h (next {t = m} r st) = Step-Known id st (never_lost id p s m h r)
