-- ===== src/Server/Janitor.antt =====
-- What `janitor` of internal/gateway/server.go does to an idle session.
use agentrun_openai.Prelude.{
  pos, ◌≡◌, refl, subst, ◌∙◌, ℕ, ◌+◌, ◌≤◌, ◌<◌, suc, zero, Bool, true, false, not, ◌||◌, List, [],
  ◌∷◌, ◌++◌, arith, some, if◌then◌else◌, ltb, inl, inr, Bool-cases, append_assoc,
}
use agentrun_openai.Prelude.Text.{Text}
use agentrun_openai.Prelude.Dict.{lookup}
use agentrun_openai.Types.{TranscriptMessage}
use agentrun_openai.Session.{SessionState, Effect, stop}
use agentrun_openai.Session.Registry.{Registry, evict, evict_idle, is_some}
use agentrun_openai.Session.Eviction.{
  ending, Stopped, Left, has_tools, kept-Left, lookup-evict_all, evict_idle-Stopped,
}
use agentrun_openai.Server.Lifetime.{
  Beat, tick, stops, janitor, interval, tick_time, tick_follows, interval_bounds, second, minute,
}

-- Does the janitor, before it is told to stop, get a tick later than this time?
abbrev pub late_tick : ℕ → List Beat → Bool
late_tick end [] = false
late_tick end (stops ∷ beats) = false
late_tick end (tick now ∷ beats) = ltb end now || late_tick end beats

evict_twice : (s : SessionState) → evict (evict s) ≡ evict s
unfolding stop
evict_twice s = elim (Bool-cases (is_some s.facade || is_some s.active)) [
  | inl e ↦ rw e refl
  | inr e ↦ rw e refl
]

evict-locked : (s : SessionState) → (evict s).locked ≡ s.locked
unfolding stop
evict-locked s = ground arith

evict-last_access : (s : SessionState) → (evict s).last_access ≡ s.last_access
unfolding stop
evict-last_access s = ground arith

evict_idle-ttl : (now : ℕ) (r : Registry) → (evict_idle now r).0.ttl ≡ r.ttl
unfolding evict_idle
evict_idle-ttl now r = ground arith

lookup-round :
    (now n : ℕ) (key : Text) (s : SessionState) (r : Registry)
    → r.ttl ≡ suc n
    → lookup key r.sessions ≡ some s
    → s.locked ≡ false
    → lookup key (evict_idle now r).0.sessions
      ≡ some (if ltb (s.last_access + suc n) now then evict s else s)
unfolding evict_idle
lookup-round now n key s r positive found free =
    ground (arith, lookup-evict_all now r.ttl key r.sessions)

janitor_tick :
    (now : ℕ) (beats : List Beat) (r : Registry)
    → ((janitor (tick now ∷ beats) r).0 ≡ (janitor beats (evict_idle now r).0).0)
      × ((janitor (tick now ∷ beats) r).1
          ≡ (evict_idle now r).1 ++ (janitor beats (evict_idle now r).0).1)
unfolding janitor
janitor_tick now beats r = (refl, refl)

-- Once it is evicted, a session that nobody uses stays so.
evicted_stays :
    (n : ℕ) (key : Text) (s : SessionState) (beats : List Beat) (r : Registry)
    → r.ttl ≡ suc n
    → lookup key r.sessions ≡ some (evict s)
    → s.locked ≡ false
    → lookup key (janitor beats r).0.sessions ≡ some (evict s)
unfolding janitor
evicted_stays n key s [] r positive found free = found
evicted_stays n key s (stops ∷ beats) r positive found free = found
evicted_stays n key s (tick now ∷ beats) r positive found free = rw ((janitor_tick now beats r).0) (
    evicted_stays n key s beats (evict_idle now r).0 (evict_idle-ttl now r ∙ positive)
      (ground (
        arith,
        lookup-round now n key (evict s) r positive found (evict-locked s ∙ free),
        evict_twice s,
      ))
      free)

Stopped-behind :
    (s : SessionState) (kept : Bool) (first rest : List Effect)
    → Stopped kept s rest
    → Stopped kept s (first ++ rest)
Stopped-behind s true first rest h = tt
Stopped-behind s false first rest (before, after, e) =
    (first ++ before, after, rw (e, append_assoc first before (ending s ++ after)) refl)

Stopped-before :
    (s : SessionState) (first rest : List Effect)
    → Stopped false s first
    → Stopped false s (first ++ rest)
Stopped-before s first rest (before, after, e) = (
  before,
  after ++ rest,
  rw (e, append_assoc before (ending s ++ after) rest, append_assoc (ending s) after rest) refl,
)

-- What the janitor leaves of a session, and what happened to the session's turn, facade and process.
abbrev pub Swept : Bool → Text → SessionState → Registry × List Effect → Type 0
Swept late key s (r, effects) =
    (lookup key r.sessions ≡ some (if not late then s else evict s)) × Stopped (not late) s effects

janitor-Swept :
    (n : ℕ) (key : Text) (s : SessionState) (beats : List Beat) (r : Registry)
    → r.ttl ≡ suc n
    → lookup key r.sessions ≡ some s
    → s.locked ≡ false
    → Swept (late_tick (s.last_access + suc n) beats) key s (janitor beats r)
unfolding janitor
janitor-Swept n key s [] r positive found free = (found, tt)
janitor-Swept n key s (stops ∷ beats) r positive found free = (found, tt)
janitor-Swept n key s (tick now ∷ beats) r positive found free =
    go (ltb (s.last_access + suc n) now) refl (λ kept.
      janitor-Swept n key s beats (evict_idle now r).0 (evict_idle-ttl now r ∙ positive) kept free)
  where
    swept : Registry
    swept = (evict_idle now r).0

    go :
        (late : Bool)
        → ltb (s.last_access + suc n) now ≡ late
        → (lookup key swept.sessions ≡ some s
            → Swept (late_tick (s.last_access + suc n) beats) key s (janitor beats swept))
        → Swept
            (late || late_tick (s.last_access + suc n) beats)
            key
            s
            (janitor (tick now ∷ beats) r)
    go true e rec = (
      evicted_stays n key s beats swept (evict_idle-ttl now r ∙ positive)
          (lookup-round now n key s r positive found free ∙ rw e refl) free,
      Stopped-before s (evict_idle now r).1 (janitor beats swept).1
          (evict_idle-Stopped now r key s found false (ground (arith, e, positive, free))),
    )
    go false e rec =
        let (kept, quiet) = rec (lookup-round now n key s r positive found free ∙ rw e refl) in
        (
          kept,
          Stopped-behind s (not (late_tick (s.last_access + suc n) beats)) (evict_idle now r).1
              (janitor beats swept).1 quiet,
        )

-- The ticks of a ticker that drops none, without a `stop`.
abbrev pub ticks : ℕ → ℕ → ℕ → List Beat
ticks start i zero = []
ticks start i (suc k) = tick (start + i) ∷ ticks (start + i) i k

ticks_late :
    (k start i end : ℕ)
    → end < tick_time start i (suc k)
    → late_tick end (ticks start i (suc k)) ≡ true
unfolding tick_time
ticks_late zero start i end h = ground (arith, h)
ticks_late (suc k) start i end h =
    rw (ticks_late k (start + i) i end h) (or_true (ltb end (start + i)))
  where
    or_true : (b : Bool) → (b || true) ≡ true
    or_true true = refl
    or_true false = refl

module _ (hash : List TranscriptMessage → Text) where
  -- What a run of the janitor leaves of a session, and what happened to its turn, facade and process.
  abbrev pub SweptTo : Bool → Text → SessionState → Registry × List Effect → Type 0
  SweptTo late key s (r, effects) =
      (after : SessionState) × (lookup key r.sessions ≡ some after)
      × Left hash (not late) (has_tools s) s after
      × Stopped (not late) s effects

  swept_to :
      (late : Bool) (key : Text) (s : SessionState) (r : Registry × List Effect)
      → Swept late key s r
      → SweptTo late key s r
  swept_to late key s (r, effects) (found, stopped) =
      (_, found, kept-Left hash (not late) s, stopped)

  -- The janitor runs on any ticks with a time to live that is positive, and nobody uses a session
  -- meanwhile. If a tick that the janitor gets before it is told to stop is later than the session's
  -- time to live, the session loses its process, facade and turn, its turn is cancelled, its facade
  -- closed and its process stopped; without tools it keeps its native session's ID, directory and
  -- recognition of messages, with tools it recognises no messages and has no native session's ID. If
  -- there is no such tick, the session is as it was.
  pub janitor_evicts :
      (n : ℕ) (key : Text) (s : SessionState) (beats : List Beat) (r : Registry)
      → r.ttl ≡ suc n
      → lookup key r.sessions ≡ some s
      → s.locked ≡ false
      → SweptTo (late_tick (s.last_access + suc n) beats) key s (janitor beats r)
  janitor_evicts n key s beats r positive found free =
      swept_to (late_tick (s.last_access + suc n) beats) key s (janitor beats r)
        (janitor-Swept n key s beats r positive found free)

  -- With a time to live that is positive and a ticker that drops no tick: a session whose time to
  -- live ends no earlier than the ticker was started, and that nobody uses any more, has been evicted by the janitor, and its
  -- turn cancelled, its facade closed and its process stopped, after the tick that comes at most an
  -- interval after its time to live; the interval is at least a second and at most a minute.
  pub janitor_in_time :
      (n start : ℕ) (key : Text) (s : SessionState) (r : Registry)
      → r.ttl ≡ suc n
      → lookup key r.sessions ≡ some s
      → s.locked ≡ false
      → start ≤ s.last_access + suc n
      → (k : ℕ) × SweptTo true key s (janitor (ticks start (interval (pos (suc n))) (suc k)) r)
        × (tick_time start (interval (pos (suc n))) (suc k)
            ≤ s.last_access + suc n + interval (pos (suc n)))
        × (second ≤ interval (pos (suc n)))
        × (interval (pos (suc n)) ≤ minute)
  janitor_in_time n start key s r positive found free late =
      let (least, most) = interval_bounds (pos (suc n)) in
      let (k, after, soon) =
        tick_follows (suc (s.last_access + suc n)) start (interval (pos (suc n)))
          (s.last_access + suc n) (omega (arith, least)) late (omega arith) in
      let beats = ticks start (interval (pos (suc n))) (suc k) in
      (
        k,
        subst (λ b. SweptTo b key s (janitor beats r))
            (ticks_late k start (interval (pos (suc n))) (s.last_access + suc n) after)
            (janitor_evicts n key s beats r positive found free),
        soon,
        least,
        most,
      )
