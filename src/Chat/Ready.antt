-- ===== src/Chat/Ready.antt =====
-- The steps of `handleChat` (internal/gateway/server.go) up to the end of the turn, and the session's record.
use agentrun_openai.Prelude.{
  ◌≡◌, refl, ℕ, Bool, true, false, ◌&&◌, List, Option, none, some, if◌then◌else◌, ◌⊎◌, inl, inr,
}
use agentrun_openai.Prelude.Text.{Text, is_empty}
use agentrun_openai.Prelude.Dict.{lookup}
use agentrun_openai.Types.{TranscriptMessage, GoError, Result, ok, err}
use agentrun_openai.History.{turn_prompt}
use agentrun_openai.Stream.{Collector}
use agentrun_openai.Chat.{is_missing_native_session, World, clear_session}
use agentrun_openai.Chat.Exchange.{
  Exchange, Agent, Ended, Begun, begun, not_begun, start, launched, begin_with, begin_first,
  begin_fresh, started_as, take_turn, run_turn, rerun, rerun_fresh, is_missing, clear,
}
use agentrun_openai.Chat.Recorded.{IsStore, Recorded, Synced, delete-none, clear_session-Synced}

module _ (hash : List TranscriptMessage → Text) (show : GoError → Text) (a : Agent)
    (x : Exchange) where
  -- A session that may be started in the request's directory: there is no record that says otherwise.
  pub record Ready (w : World) : Type 0 where
    pub synced : Synced hash x.key w
    pub place : (w.state.cwd ≡ x.cwd) ⊎ (lookup x.key w.store.records ≡ none)

  pub record Running (w : World) : Type 0 where
    pub synced : Synced hash x.key w
    pub place : w.state.cwd ≡ x.cwd

  abbrev pub Launched : Result (World × ℕ) → Type 0
  Launched (err e) = Unit
  Launched (ok (v, p)) = Running v

  pub placed-Recorded :
      (p : ℕ) (w : World)
      → Recorded w.state (lookup x.key w.store.records)
      → (w.state.cwd ≡ x.cwd) ⊎ (lookup x.key w.store.records ≡ none)
      → Recorded (record w.state { process = some p; cwd = x.cwd }) (lookup x.key w.store.records)
  placed-Recorded p w r (inr e) = inl e
  placed-Recorded p w (inl e) (inl c) = inl e
  placed-Recorded p w (inr e) (inl c) = inr (rw (← c) e)

  pub launched-Running :
      (w : World) (r : Result ℕ) → Ready w → Launched (launched hash show a x w r)
  launched-Running w (err e) ready = tt
  launched-Running w (ok p) ready = record {
    synced = record {
      counted = ready.synced.counted;
      recorded = placed-Recorded p w ready.synced.recorded ready.place;
      store_ok = ready.synced.store_ok;
    };
    place = refl;
  }

  pub start-Running :
      (again resume : Bool) (prompt : Text) (w : World)
      → Ready w
      → Launched (start hash show a x again resume prompt w)
  unfolding start
  start-Running again resume prompt w ready = launched-Running w _ ready

  pub clear-Ready : (w : World) → IsStore w.store → Ready (clear hash show a x w)
  unfolding clear_session
  clear-Ready w s = record {
    synced = clear_session-Synced hash a.delete_fault x.key w s;
    place = inr (delete-none a.delete_fault x.key w.store s);
  }

  -- After the beginning: running in the request's directory, or not begun.
  abbrev pub BegunOk : Begun hash show a x → Type 0
  BegunOk (not_begun w e) = Synced hash x.key w
  BegunOk (begun w p resume prompt) = Running w

  pub started_as-Ok :
      (w : World) (resume : Bool) (prompt : Text) (r : Result (World × ℕ))
      → Synced hash x.key w
      → Launched r
      → BegunOk (started_as hash show a x w resume prompt r)
  started_as-Ok w resume prompt (err e) s l = s
  started_as-Ok w resume prompt (ok (v, p)) s l = l

  pub begin_fresh-Ok :
      (w : World) (e : GoError) (prompt : Result Text)
      → Ready w
      → BegunOk (begin_fresh hash show a x w e prompt)
  begin_fresh-Ok w e (err _) ready = ready.synced
  begin_fresh-Ok w e (ok prompt) ready =
      started_as-Ok w false prompt _ ready.synced (start-Running true false prompt w ready)

  pub begin_first-Ok :
      (w : World) (resume : Bool) (prompt : Text) (r : Result (World × ℕ))
      → Ready w
      → Launched r
      → BegunOk (begin_first hash show a x w resume prompt r)
  begin_first-Ok w resume prompt (ok (v, p)) ready l = l
  begin_first-Ok w resume prompt (err e) ready l =
      elim (resume && is_missing_native_session show e)
        as (λ b. BegunOk (
          if b
          then begin_fresh hash show a x (clear hash show a x w) e (turn_prompt x.messages)
          else not_begun w e)) [
            | true ↦
                begin_fresh-Ok (clear hash show a x w) e (turn_prompt x.messages)
                  (clear-Ready w ready.synced.store_ok)
            | false ↦ ready.synced
          ]

  -- A session that has a process is in the request's directory.
  abbrev pub Placed : Option ℕ → World → Type 0
  Placed none w = Ready w
  Placed (some p) w = Running w

  pub begin_with-Ok :
      (o : Option ℕ) (w : World) (resume : Bool) (prompt : Text)
      → Placed o w
      → BegunOk (begin_with hash show a x o w resume prompt)
  begin_with-Ok none w resume prompt ready =
      begin_first-Ok w resume prompt _ ready (start-Running false resume prompt w ready)
  begin_with-Ok (some p) w resume prompt running = running

  -- After the turn: synced, and in the request's directory when it went well.
  pub record EndedOk (t : Ended hash show a x) : Type 0 where
    pub synced : Synced hash x.key t.world
    pub place : (t.world.state.cwd ≡ x.cwd) ⊎ ((e : GoError) × (t.failed ≡ some e))

  pub rerun-Ok :
      (w : World) (c : Collector) (prompt : Text) (r : Result (World × ℕ))
      → Synced hash x.key w
      → Launched r
      → EndedOk (rerun hash show a x w c prompt r)
  rerun-Ok w c prompt (err e) s l = record { synced = s; place = inr (e, refl) }
  rerun-Ok w c prompt (ok (v, p)) s l = record { synced = l.synced; place = inl l.place }

  pub rerun_fresh-Ok :
      (w : World) (c : Collector) (prompt : Result Text)
      → Ready w
      → EndedOk (rerun_fresh hash show a x w c prompt)
  rerun_fresh-Ok w c (err e) ready = record { synced = ready.synced; place = inr (e, refl) }
  rerun_fresh-Ok w c (ok prompt) ready =
      rerun-Ok w c prompt _ ready.synced (start-Running true false prompt w ready)

  pub take_turn-Ok :
      (first resume : Bool) (p : ℕ) (prompt : Text) (w : World) (c : Collector)
      → Running w
      → EndedOk (take_turn hash show a x first resume p prompt w c)
  unfolding take_turn
  take_turn-Ok first resume p prompt w c running =
      let once = run_turn hash show a x false first p prompt w c in
      elim (resume && is_missing hash show a x once.failed && is_empty once.collector.text)
        as (λ b. EndedOk (
          if b
          then rerun_fresh hash show a x (clear hash show a x w) once.collector
              (turn_prompt x.messages)
          else once)) [
            | true ↦
                rerun_fresh-Ok (clear hash show a x w) once.collector (turn_prompt x.messages)
                  (clear-Ready w running.synced.store_ok)
            | false ↦ record { synced = running.synced; place = inl running.place }
          ]
