-- ===== src/Turn/Tests.antt =====
-- A turn of active_turn.go with two calls, one of them handed to the client.
use agentrun_openai.Prelude.{
  ◌≡◌, refl, true, false, [], ◌∷◌, none, some, ◌↔◌, ◌≢◌, ◌++◌, if◌then◌else◌,
}
use agentrun_openai.Prelude.Text.{Text, codes, text_eq, member}
use agentrun_openai.Prelude.Dict.{lookup, insert, remove, adjust}
use agentrun_openai.Types.{TranscriptMessage, ToolPolicy, auto, required, tool, plain}
use agentrun_openai.Turn.{
  ActiveTurn, resolve, resolved, refused, release, seen_ids, first_missing, deliver, register,
  new_active_turn, call_of, is_delivered,
}
use agentrun_openai.Turn.Answers.{ids, answers_of, resolve_exact}
use agentrun_openai.Turn.Accepts.{Complete, resolve_accepts}
use agentrun_openai.Turn.Steps.{
  Reach, here, next, calls, delivers, resolves, Inv, Known, answered_once, never_lost,
}

abbrev any : ToolPolicy
any = record { mode = auto; name = [] }

abbrev must : ToolPolicy
must = record { mode = required; name = [] }

abbrev pending : Text → ActiveTurn → ActiveTurn
pending id t = record t {
  pending =
      insert id (record { call = call_of id (codes "look") (codes "{}"); delivered = false })
        t.pending;
}

abbrev fresh : ActiveTurn
fresh = new_active_turn none any

abbrev asked : ActiveTurn
asked = pending (codes "b") (pending (codes "a") fresh)

abbrev waiting : ActiveTurn
waiting = deliver (codes "a") asked

abbrev result : TranscriptMessage
result = record { tool_calls = []; tool_call_id = codes "a"; role = tool; content = codes "42" }

abbrev done : ActiveTurn
done = record waiting {
  pending = remove (codes "a") waiting.pending;
  answers = (codes "a", codes "42") ∷ [];
  policy = must;
}

resolve-done : resolve (result ∷ []) must waiting ≡ resolved done
unfolding resolve release seen_ids first_missing deliver adjust insert remove lookup text_eq member
    new_active_turn
resolve-done = refl

-- Refusals leave the turn to the next try.
refusals :
    (resolve [] must waiting ≡ refused (plain (codes "active turn requires tool results")))
    × (resolve (result ∷ result ∷ []) must waiting ≢ resolved done)
unfolding resolve release seen_ids first_missing deliver adjust insert remove lookup text_eq member
    new_active_turn
refusals = (refl, λ e. cc)

resolve_exact_example :
    (done.answers ≡ waiting.answers ++ answers_of (result ∷ []))
    × (done.policy ≡ must)
    × ((id : Text)
        → lookup id done.pending
          ≡ (if member id (ids (result ∷ [])) then none else lookup id waiting.pending))
    × ((id : Text) → is_delivered (lookup id done.pending) ≡ false)
resolve_exact_example = resolve_exact (result ∷ []) must waiting done resolve-done

resolve_accepts_example :
    ((u : ActiveTurn) × (resolve (result ∷ []) must waiting ≡ resolved u))
    ↔ Complete (result ∷ []) waiting
unfolding deliver adjust insert lookup text_eq new_active_turn
resolve_accepts_example = resolve_accepts (result ∷ []) must waiting (refl, (refl, tt))

asking : Reach fresh (pending (codes "a") fresh)
unfolding register lookup member new_active_turn
asking = next here (calls (some (codes "{}")) (codes "a") (codes "look") _ _ refl refl refl)

answered_once_example : Inv (deliver (codes "a") (pending (codes "a") fresh))
answered_once_example = answered_once none any _ (next asking (delivers (codes "a")))

waiting-a :
    lookup (codes "a") waiting.pending
    ≡ some (record { call = call_of (codes "a") (codes "look") (codes "{}"); delivered = true })
unfolding deliver adjust insert lookup text_eq new_active_turn
waiting-a = refl

never_lost_example : Known (codes "a") done
never_lost_example =
    never_lost (codes "a") _ waiting done waiting-a
      (next here (resolves (result ∷ []) must _ resolve-done))
