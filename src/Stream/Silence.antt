-- ===== src/Stream/Silence.antt =====
-- How long a stream with a heartbeat can be silent (`startHeartbeat` and `beat` of stream.go).
use agentrun_openai.Prelude.{
  ℕ, ◌+◌, ◌*◌, ◌≤◌, ◌<◌, ◌≡◌, false, List, [], ◌∷◌, arith, Option, none, some, All,
}
use native.Mathlib.Nat.{le_refl}
use agentrun_openai.Prelude.Text.{Text}
use agentrun_openai.Types.{CompletionUsage}
use agentrun_openai.Stream.{
  Delta, Collector, Message, MessageType, init, write_chunk, append_text, append_reasoning,
  handle_as, handle_init, beat, reset_for_fresh_session, tick_of, millisecond, rejects_model,
}
use agentrun_openai.Stream.Run.{Event, message, heartbeat, fresh, step, run}

-- A write is never dated back.
abbrev Later : ℕ → Collector → Type 0
Later t c = t ≤ c.last_write

write_chunk-Later :
    (t now : ℕ) (d : Delta) (r : Option Text) (u : Option CompletionUsage) (c : Collector)
    → t ≤ now
    → Later t c
    → Later t (write_chunk now d r u c)
unfolding write_chunk
write_chunk-Later t now d r u c h l = ground arith

handle_as-Later :
    (k : MessageType) (t now : ℕ) (m : Message) (c : Collector)
    → t ≤ now
    → Later t c
    → Later t (handle_as k now m c).0
unfolding handle_as append_text append_reasoning write_chunk
handle_as-Later init t now m c h l = kept (rejects_model c.effective_ids m.init_model)
  where
    kept : (r : Option Text) → Later t (handle_init r m c).0
    kept none = l
    kept (some r) = l
handle_as-Later _ t now m c h l = ground arith

step-Later : (e : Event) (t now : ℕ) (c : Collector) → t ≤ now → Later t c → Later t (step e now c)
unfolding step beat reset_for_fresh_session write_chunk
step-Later (message m) t now c h l = handle_as-Later m.kind t now m c h l
step-Later (heartbeat interval) t now c h l = ground arith
step-Later fresh t now c h l = ground arith

run-Later :
    (es : List (ℕ × Event)) (t : ℕ) (c : Collector)
    → All (λ e. t ≤ e.0) es
    → Later t c
    → Later t (run es c)
unfolding run
run-Later [] t c h l = l
run-Later ((now, e) ∷ es) t c h l = run-Later es t (step e now c) h.1 (step-Later e t now c h.0 l)

beat_recent :
    (interval t : ℕ) (c : Collector)
    → c.closed ≡ false
    → 0 < interval
    → c.last_write ≤ t
    → (t < (beat interval t c).last_write + interval) × ((beat interval t c).last_write ≤ t)
unfolding beat write_chunk
beat_recent interval t c o h l = ground arith

All-le : (es : List (ℕ × Event)) (s t : ℕ) → s ≤ t → All (λ e. t ≤ e.0) es → All (λ e. s ≤ e.0) es
All-le [] s t h a = tt
All-le (e ∷ es) s t h a = (omega arith, All-le es s t h a.1)

tick_of-half : (interval : ℕ) → 2 * millisecond ≤ interval → 2 * tick_of interval ≤ interval
unfolding tick_of
tick_of-half interval h = ground arith

-- The heartbeat of an interval of two milliseconds or more ticks at `t` on an open stream last written
-- to at or before `t`, and other events come at `t` or later. Then at any time up to the next tick the
-- stream has been silent for less than one and a half intervals.
pub silence_bound :
    (interval t now : ℕ) (c : Collector) (es : List (ℕ × Event))
    → c.closed ≡ false
    → 2 * millisecond ≤ interval
    → c.last_write ≤ t
    → All (λ e. t ≤ e.0) es
    → now ≤ t + tick_of interval
    → 2 * now < 2 * (run es (beat interval t c)).last_write + 3 * interval
silence_bound interval t now c es o h l later n =
    let recent = beat_recent interval t c o (omega arith) l in
    let kept =
      run-Later es (beat interval t c).last_write (beat interval t c) (All-le es _ t recent.1 later)
        (le_refl _) in
    omega (arith, recent.0, recent.1, kept, tick_of-half interval h)
