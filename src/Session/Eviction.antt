-- ===== src/Session/Eviction.antt =====
-- The janitor of internal/gateway/registry.go and the end of all sessions.
use mathlib.Core.Option
use agentrun_openai.Prelude.{
  ◌≡◌, refl, ℕ, ◌+◌, Bool, true, false, not, ◌||◌, List, [], ◌∷◌, ◌++◌, Option, append_assoc, arith,
  some, none, if◌then◌else◌, ◌==◌, ltb,
}
use agentrun_openai.Prelude.Text.{Text, text_eq}
use agentrun_openai.Prelude.Dict.{Dict, lookup}
use agentrun_openai.Types.{TranscriptMessage, canceled}
use agentrun_openai.Session.{
  SessionState, LiveTurn, Facade, Effect, cancels_turn, closes_facade, stops_process, awaits_turn,
  cancel_of, close_of, stop_of, await_of, stop, matches_history_prefix, matches_fingerprint,
  persisted_history_count,
}
use agentrun_openai.Session.Registry.{
  Registry, is_stale, is_some, evict, evict_all, eviction_effects, evict_idle,
}

pub lookup-evict_all :
    (now ttl : ℕ) (key : Text) (d : Dict SessionState)
    → lookup key (evict_all now ttl d)
      ≡ Option.map (λ s. if is_stale now ttl s then evict s else s) (lookup key d)
unfolding evict_all lookup
lookup-evict_all now ttl key [] = refl
lookup-evict_all now ttl key ((k, s) ∷ d) = ground (arith, lookup-evict_all now ttl key d)

-- A session after the janitor's round: as it was, when it is in use, was used within the time to live
-- or nothing is ever evicted.
abbrev pub is_kept : ℕ → Registry → SessionState → Bool
is_kept now r s = r.ttl == 0 || s.locked || not (ltb (s.last_access + r.ttl) now)

abbrev pub has_tools : SessionState → Bool
has_tools s = is_some s.facade || is_some s.active

abbrev pub one {ℓ} : {A : Type ℓ} → (A → Effect) → Option A → List Effect
one f none = []
one f (some a) = f a ∷ []

-- All that happens to what a session holds: its turn is cancelled, its facade closed, its process
-- stopped, and its turn awaited.
abbrev pub ending : SessionState → List Effect
ending s =
    one (λ t. cancels_turn t.serial canceled) s.active
    ++ (one (λ f. closes_facade f.serial) s.facade
        ++ (one stops_process s.process ++ one (λ t. awaits_turn t.serial) s.active))

cancels : (o : Option LiveTurn) → cancel_of o ≡ one (λ t. cancels_turn t.serial canceled) o
cancels none = refl
cancels (some t) = refl

closes : (o : Option Facade) → close_of o ≡ one (λ f. closes_facade f.serial) o
closes none = refl
closes (some f) = refl

stops : (o : Option ℕ) → stop_of o ≡ one stops_process o
stops none = refl
stops (some p) = refl

awaits : (o : Option LiveTurn) → await_of o ≡ one (λ t. awaits_turn t.serial) o
awaits none = refl
awaits (some t) = refl

pub stop-ending : (s : SessionState) → (stop s).1 ≡ ending s
unfolding stop
stop-ending s = rw (cancels s.active, closes s.facade, stops s.process, awaits s.active) refl

-- The effects of a round hold all that happens to a session that is not kept.
abbrev pub Stopped : Bool → SessionState → List Effect → Type 0
Stopped true s effects = Unit
Stopped false s effects =
    (before : List Effect) × (after : List Effect) × (effects ≡ before ++ (ending s ++ after))

eviction_stops :
    (now ttl : ℕ) (key : Text) (d : Dict SessionState) (s : SessionState)
    → lookup key d ≡ some s
    → is_stale now ttl s ≡ true
    → Stopped false s (eviction_effects now ttl d)
unfolding lookup eviction_effects
eviction_stops now ttl key [] s h stale = cc
eviction_stops now ttl key ((k, x) ∷ d) s h stale =
    go (text_eq k key) h (eviction_stops now ttl key d s)
  where
    go :
        (b : Bool)
        → (if b then some x else lookup key d) ≡ some s
        → (lookup key d ≡ some s
            → is_stale now ttl s ≡ true
            → Stopped false s (eviction_effects now ttl d))
        → Stopped false s
            ((if is_stale now ttl x then (stop x).1 else []) ++ eviction_effects now ttl d)
    go true e rec =
        let same : x ≡ s = cc in
        ([], eviction_effects now ttl d, rw (same, stale, stop-ending s) refl)
    go false e rec =
        let (before, after, f) = rec e stale in
        (
          (if is_stale now ttl x then (stop x).1 else []) ++ before,
          after,
          rw
              (
                f,
                append_assoc (if is_stale now ttl x then (stop x).1 else []) before
                    (ending s ++ after),
              )
              refl,
        )

pub evict_idle-Stopped :
    (now : ℕ) (r : Registry) (key : Text) (s : SessionState)
    → lookup key r.sessions ≡ some s
    → (b : Bool) → is_kept now r s ≡ b
    → Stopped b s (evict_idle now r).1
unfolding evict_idle
evict_idle-Stopped now r key s h true e = tt
evict_idle-Stopped now r key s h false e =
    let positive : (r.ttl == 0) ≡ false = ground (arith, e) in
    let stale : is_stale now r.ttl s ≡ true = ground (arith, e) in
    rw positive (eviction_stops now r.ttl key r.sessions s h stale)

module _ (hash : List TranscriptMessage → Text) where
  -- What the janitor leaves of a session: a session that it keeps as it was. Otherwise there is no
  -- process, facade and turn. An ordinary session goes on by its history, its directory and its native
  -- session; a session with tools recognises no messages and has no native session.
  abbrev pub Left : Bool → Bool → SessionState → SessionState → Type 0
  Left true tools s after = after ≡ s
  Left false false s after =
      (after.process ≡ none)
      × (after.resume_id ≡ s.resume_id)
      × (after.cwd ≡ s.cwd)
      × (persisted_history_count after ≡ persisted_history_count s)
      × ((ms : List TranscriptMessage)
          → matches_history_prefix hash after ms ≡ matches_history_prefix hash s ms)
  Left false true s after =
      (after.process ≡ none)
      × (after.facade ≡ none)
      × (after.active ≡ none)
      × (after.resume_id ≡ [])
      × ((ms : List TranscriptMessage) → matches_history_prefix hash after ms ≡ false)

  evicted-Left :
      (tools : Bool) (s : SessionState)
      → Left false tools s (
          if tools
          then record (stop s).0 {
            history = none;
            history_count = 0;
            history_hash = [];
            resume_id = [];
            tool_hash = [];
            process = none;
          }
          else record (stop s).0 { process = none })
  unfolding stop matches_history_prefix matches_fingerprint persisted_history_count
  evicted-Left false s = (refl, refl, refl, refl, λ ms. refl)
  evicted-Left true s = (refl, refl, refl, refl, λ ms. refl)

  pub kept-Left :
      (kept : Bool) (s : SessionState) → Left kept (has_tools s) s (if kept then s else evict s)
  kept-Left true s = refl
  kept-Left false s = evicted-Left (has_tools s) s

  lookup-evict_idle :
      (now : ℕ) (r : Registry) (key : Text) (s : SessionState)
      → lookup key r.sessions ≡ some s
      → lookup key (evict_idle now r).0.sessions ≡ some (if is_kept now r s then s else evict s)
  unfolding evict_idle
  lookup-evict_idle now r key s h = ground (arith, lookup-evict_all now r.ttl key r.sessions)

  -- The janitor finds a session. A session in use, one that was used within the time to live, and
  -- every session when nothing is ever evicted stay as they were. Any other session loses its process,
  -- facade and turn, and its turn is cancelled, its facade closed and its process stopped; without
  -- tools it keeps its native session's ID and directory and recognises the same messages as before,
  -- by as many of them; with tools it recognises no messages and has no native session's ID.
  pub evict_idle_lem :
      (now : ℕ) (r : Registry) (key : Text) (s : SessionState)
      → lookup key r.sessions ≡ some s
      → (after : SessionState) × (lookup key (evict_idle now r).0.sessions ≡ some after)
        × Left (is_kept now r s) (has_tools s) s after
        × Stopped (is_kept now r s) s (evict_idle now r).1
  evict_idle_lem now r key s h = (
    _,
    lookup-evict_idle now r key s h,
    kept-Left (is_kept now r s) s,
    evict_idle-Stopped now r key s h (is_kept now r s) refl,
  )
