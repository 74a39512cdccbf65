-- ===== src/Chat/Synced.antt =====
-- The session and the saved record of it through `handleChat` (internal/gateway/server.go).
use agentrun_openai.Prelude.{
  ◌≡◌, refl, ℕ, Bool, true, false, List, [], ◌∷◌, ◌++◌, arith, Option, none, some, if◌then◌else◌,
  ◌⊎◌, inl, inr, length-append, Bool-cases,
}
use agentrun_openai.Prelude.Text.{Text, is_empty, text_eq_iff}
use agentrun_openai.Types.{assistant, TranscriptMessage, GoError, Result, ok, err}
use agentrun_openai.Session.{Effect, SessionState, cleared, stop, remember}
use agentrun_openai.Session.Store.{SessionStore, put, is_abs, is_valid}
use agentrun_openai.Session.Durable.{put-IsSound}
use agentrun_openai.Session.Registry.{saved}
use agentrun_openai.Stream.{Collector}
use agentrun_openai.Chat.{World, clear_session}
use agentrun_openai.Chat.Exchange.{
  Exchange, Agent, Ended, Begun, begun, not_begun, begin, take_turn, conclude, conclude_with, save,
  settled, handle_chat, converse, converse_with, prompt_or_refuse, prepared, resets, resumes,
  is_none, kept_resume_id, opened, clear,
}
use agentrun_openai.Chat.Recorded.{
  IsStore, Counted, Synced, put-recorded, put_unused, unresumable-none, no_path_none,
}
use agentrun_openai.Chat.Ready.{Running, BegunOk, Placed, begin_with-Ok, take_turn-Ok, clear-Ready}

module _ (hash : List TranscriptMessage → Text) (show : GoError → Text) (a : Agent) (x : Exchange)
    (hashes : (ms : List TranscriptMessage) → is_empty (hash ms) ≡ false)
    (absolute : is_abs x.cwd ≡ true) (named : is_empty x.key ≡ false) where
  abbrev answer_of : Collector → TranscriptMessage
  answer_of c = record { tool_calls = []; tool_call_id = []; role = assistant; content = c.text }

  settled-is_valid :
      (c : Collector) (s : SessionState)
      → s.cwd ≡ x.cwd
      → is_empty (settled hash show a x c s).resume_id ≡ false
      → is_valid x.key (saved (settled hash show a x c s)) ≡ true
  unfolding remember
  settled-is_valid c s e i = ground (
    arith,
    e,
    length-append x.messages (answer_of c ∷ []),
    hashes (x.messages ++ (answer_of c ∷ [])),
  )

  -- A save that is made.
  put-Synced :
      (s : SessionState) (store : SessionStore) (effects : List Effect)
      → Counted hash s.history s.history_count s.history_hash
      → IsStore store
      → is_valid x.key (saved s) ≡ true
      → Synced hash x.key (record {
        state = s;
        store = (put a.save_fault x.key (saved s) store).0;
        effects = effects;
      })
  put-Synced s store effects c (inl (p, n)) v = record {
    counted = c;
    recorded =
        inl (rw (put_unused a.save_fault x.key (saved s) store p) (no_path_none x.key store n));
    store_ok = rw (put_unused a.save_fault x.key (saved s) store p) (inl (p, n));
  }
  put-Synced s store effects c (inr sound) v = record {
    counted = c;
    recorded = inr (put-recorded a.save_fault x.key (saved s) store sound.0);
    store_ok = inr (put-IsSound a.save_fault x.key (saved s) store v sound);
  }

  save-Synced :
      (c : Collector) (w : World)
      → Running hash show a x w
      → Synced hash x.key
          (save hash show a x (record w { state = settled hash show a x c w.state }))
  unfolding save remember
  save-Synced c w running =
      elim (Bool-cases (is_empty (kept_resume_id hash show a x c.resume_id w.state.resume_id))) [
        | inl e ↦ rw e (record {
          counted = (refl, refl);
          recorded = inl (
              unresumable-none x.key w.state w.store running.synced.store_ok running.synced.recorded
                (kept_empty c.resume_id w.state.resume_id e));
          store_ok = running.synced.store_ok;
        })
        | inr e ↦ rw e (
            put-Synced _ w.store w.effects (refl, refl) running.synced.store_ok
              (settled-is_valid c w.state running.place e))
      ]
    where
      kept_empty :
          (new old : Text) → is_empty (kept_resume_id hash show a x new old) ≡ true → old ≡ []
      kept_empty [] [] e = refl
      kept_empty [] (d ∷ old) e = cc
      kept_empty (d ∷ new) old e = cc

  conclude_with-Synced :
      (o : Option GoError) (t : Ended hash show a x)
      → Synced hash x.key t.world
      → (t.world.state.cwd ≡ x.cwd) ⊎ ((e : GoError) × (o ≡ some e))
      → Synced hash x.key (conclude_with hash show a x o t).0
  conclude_with-Synced (some e) t s place = record {
    counted = tt;
    recorded = s.recorded;
    store_ok = s.store_ok;
  }
  conclude_with-Synced none t s (inl c) =
      save-Synced t.collector t.world (record { synced = s; place = c })
  conclude_with-Synced none t s (inr (e, n)) = cc

  Placed-process :
      (o : Option ℕ) (w : World)
      → Synced hash x.key w
      → w.state.cwd ≡ x.cwd
      → Placed hash show a x o w
  Placed-process none w s e = record { synced = s; place = inl e }
  Placed-process (some p) w s e = record { synced = s; place = e }

  prepared-Placed :
      (b : Bool) (w : World)
      → Synced hash x.key w
      → (b ≡ false → w.state.cwd ≡ x.cwd)
      → let v = if b then clear hash show a x w else w in Placed hash show a x v.state.process v
  unfolding clear_session cleared stop
  prepared-Placed true w s e = clear-Ready hash show a x w s.store_ok
  prepared-Placed false w s e = Placed-process w.state.process w s (e refl)

  Placed-Synced : (o : Option ℕ) (w : World) → Placed hash show a x o w → Synced hash x.key w
  Placed-Synced none w r = r.synced
  Placed-Synced (some p) w r = r.synced

  continued : (s : SessionState) → resets hash show a x s ≡ false → s.cwd ≡ x.cwd
  continued s e = ground (arith, text_eq_iff s.cwd x.cwd)

  opened-Synced :
      (first : Bool) (w : World) (p : ℕ) (resume : Bool) (prompt : Text)
      → (o : Collector × Option GoError) → Running hash show a x w
      → Synced hash x.key (converse_with hash show a x first w p resume prompt o).0
  opened-Synced first w p resume prompt (c, some e) running = running.synced
  opened-Synced first w p resume prompt (c, none) running =
      let t = take_turn hash show a x first resume p prompt w c in
      let done = take_turn-Ok hash show a x first resume p prompt w c running in
      unfold conclude in conclude_with-Synced t.failed t done.synced done.place

  converse-Synced :
      (first : Bool) (b : Begun hash show a x)
      → BegunOk hash show a x b
      → Synced hash x.key (converse hash show a x first b).0
  converse-Synced first (not_begun w e) ready = ready
  converse-Synced first (begun w p resume prompt) ready =
      opened-Synced first w p resume prompt (opened hash show a x resume) ready

  answered-Synced :
      (w : World) (resume : Bool) (prompt : Result Text)
      → Placed hash show a x w.state.process w
      → Synced hash x.key (prompt_or_refuse hash show a x w resume prompt).0
  unfolding begin
  answered-Synced w resume (err e) placed = Placed-Synced w.state.process w placed
  answered-Synced w resume (ok prompt) placed =
      converse-Synced (is_none w.state.process) _
        (begin_with-Ok hash show a x w.state.process w resume prompt placed)

  -- A request of an absolute directory, under a key, with fingerprints that are not empty. Whatever the
  -- agent and the disk do, the request keeps: the history of the running gateway has its length and
  -- fingerprint beside it; the record under the session's key, if there is one, says what the session
  -- would save; and every record of the store is valid.
  pub handle_chat-Synced :
      (w : World) → Synced hash x.key w → Synced hash x.key (handle_chat hash show a x w).0
  unfolding handle_chat
  handle_chat-Synced w s =
      let now = record w { state = record w.state { last_access = a.begins } } in
      let synced : Synced hash x.key now = record {
        counted = s.counted;
        recorded = s.recorded;
        store_ok = s.store_ok;
      } in
      answered-Synced (prepared hash show a x now) (resumes hash show a x now.state) _
        (prepared-Placed (resets hash show a x now.state) now synced (continued now.state))
