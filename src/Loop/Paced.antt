-- ===== src/Loop/Paced.antt =====
-- The incidents that the gate writes to the outbox: in which order, and how often.
use heyi_eval_v.Prelude.{
  ℕ, ◌+◌, ◌<◌, ◌≡◌, refl, sym, subst, true, false, Bool, Option, none, some, List, [], ◌∷◌, ◌++◌,
  map, All, String, arith, if_cases, option_cases, ltb,
}
use heyi_eval_v.Prelude.Int.{ℤ, sub_ℕ}
use heyi_eval_v.Run.{Run, new_run}
use heyi_eval_v.Store.{Store}
use heyi_eval_v.Queue.{pop_one}
use heyi_eval_v.Stage.{RunStatus}
use heyi_eval_v.Pipeline.{State, Event, run_pipeline}
use heyi_eval_v.Loop.{
  Notice, World, Probe, Ending, Round, Setting, LoopState, incident, heartbeat, run_event,
  orchestrator_crash, engine_down, engine_recovered, still_paused, returns, interrupted, raised,
  notify, recovered, unhealthy, engine_preflight_gate, maybe_emit_heartbeat, roll_over, count,
  started, publish, record_crash, carry_out, take_job, prepare, loop_round, loop_rounds, new_world,
}

abbrev is_incident : Notice → Bool
is_incident (incident at i) = true
is_incident _ = false

-- An outbox that began as `base`, newest line first: with `none` the engine counts as healthy after
-- it; with `some t` it is down, and the last incident was written at the time `t`.
pub data Paced (remind : ℕ) (base : List Notice) : Option ℕ → List Notice → Type 0 where
  start : Paced remind base none base
  pause :
      {l : List Notice} (at : ℕ) (d : String)
      → Paced remind base none l
      → Paced remind base (some at) (incident at (engine_down d) ∷ l)
  remember :
      {l : List Notice} (t at : ℕ) (z : ℤ) (d : String)
      → t + remind < at
      → Paced remind base (some t) l
      → Paced remind base (some at) (incident at (still_paused z d) ∷ l)
  resume :
      {l : List Notice} (t at : ℕ) (z : ℤ)
      → Paced remind base (some t) l
      → Paced remind base none (incident at (engine_recovered z) ∷ l)
  other :
      {o : Option ℕ} {l : List Notice} (n : Notice)
      → is_incident n ≡ false
      → Paced remind base o l
      → Paced remind base o (n ∷ l)

-- The time of the last incident, while the engine is down.
abbrev pub paused_since : Option ℕ → ℕ → Option ℕ
paused_since none t = none
paused_since (some s) t = some t

abbrev pub pause_of : LoopState → Option ℕ
pause_of s = paused_since s.engine_unhealthy_since s.engine_last_notify

module _ (c : Setting) (base : List Notice) where
  Good : World → Type 0
  Good w = Paced c.engine_remind_interval base (pause_of w.state) w.outbox

  recovered-Good :
      (p : Probe) (o : Option ℕ) (w : World)
      → p.accepted ≡ true
      → w.state.engine_unhealthy_since ≡ o
      → Good w
      → Good (recovered p o w)
  unfolding recovered notify Good
  recovered-Good p none w a e h = h
  recovered-Good p (some s) w a e h =
      rw a (resume w.state.engine_last_notify p.at (sub_ℕ p.at s) (rw e at h))

  unhealthy-Good :
      (p : Probe) (o : Option ℕ) (w : World)
      → p.accepted ≡ true
      → w.state.engine_unhealthy_since ≡ o
      → Good w
      → Good (unhealthy c.engine_remind_interval p o w)
  unfolding unhealthy notify Good
  unhealthy-Good p none w a e h = rw a (pause p.at p.detail (rw e at h))
  unhealthy-Good p (some s) w a e h =
      if_cases Good (ltb (w.state.engine_last_notify + c.engine_remind_interval) p.at) _ _
        (λ y.
          rw (a, e)
            (remember w.state.engine_last_notify p.at (sub_ℕ p.at s) p.detail (ground arith)
              (rw e at h)))
        (λ _. h)

  gate-Good :
      (p : Probe) (w : World)
      → c.cloud ≡ false
      → p.accepted ≡ true
      → Good w
      → Good (engine_preflight_gate c p w).1
  unfolding engine_preflight_gate Good
  gate-Good p w n a h = rw n (
      if_cases {A = (Bool × String) × World} (λ x. Good x.1) p.ok _ _
        (λ _. recovered-Good p _ w a refl h) (λ _. unhealthy-Good p _ w a refl h))

  line-Good :
      (n : Notice) (beat : ℕ) (w : World)
      → is_incident n ≡ false
      → Good w
      → Good (record w { state = record w.state { last_heartbeat = beat }; outbox = n ∷ w.outbox })
  unfolding Good
  line-Good n beat w e h = other n e h

  heartbeat-Good : (r : Round) (w : World) → Good w → Good (maybe_emit_heartbeat c r w).1
  unfolding maybe_emit_heartbeat
  heartbeat-Good r w h =
      if_cases {A = Bool × World} (λ x. Good x.1)
        (ltb r.beat_at (c.heartbeat_interval + w.state.last_heartbeat)) _ _ (λ _. h)
        (λ _.
          if_cases {A = Bool × World} (λ x. Good x.1) r.beat_accepted _ _
            (λ _. line-Good (heartbeat _ _ _ _) r.beat_at w refl h) (λ _. h))

  same_pause :
      (s t : LoopState) (w : World)
      → pause_of s ≡ pause_of t
      → Good (record w { state = s })
      → Good (record w { state = t })
  unfolding Good
  same_pause s t w e h = subst (λ o. Paced c.engine_remind_interval base o w.outbox) e h

  pause-roll_over : (d : ℕ) (s : LoopState) → pause_of (roll_over d s) ≡ pause_of s
  unfolding roll_over
  pause-roll_over d s = ground arith

  pause-count : (st : RunStatus) (s : LoopState) → pause_of (count st s) ≡ pause_of s
  unfolding count
  pause-count st s = ground arith

  publish-Good : (p : State) (w : World) → Good w → Good (publish p w)
  unfolding publish Good
  publish-Good p w h = go p.events
    where
      go :
          (l : List Event)
          → Paced c.engine_remind_interval base
              (pause_of w.state)
              (map (run_event p.run.run_id) l ++ w.outbox)
      go [] = h
      go (e ∷ rest) = other (run_event p.run.run_id e) refl (go rest)

  prepare-Good :
      (r : Round) (w : World)
      → c.cloud ≡ false
      → r.probe.accepted ≡ true
      → Good w
      → Good (prepare c r w).1
  unfolding prepare
  prepare-Good r w n a h =
      let t = record w { state = roll_over r.today w.state } in
      let g =
        same_pause w.state (roll_over r.today w.state) w (sym (pause-roll_over r.today w.state))
          h in
      if_cases {A = Bool × World} (λ x. Good x.1) c.stub_only _ _ (λ _. g)
        (λ _. gate-Good r.probe (maybe_emit_heartbeat c r t).1 n a (heartbeat-Good r t g))

  crashed-Good :
      (r : Round) (m : String) (run : Run) (w : World) → Good w → Good (record_crash r m run w)
  unfolding record_crash Good
  crashed-Good r m run w h =
      if_cases (λ l. Paced c.engine_remind_interval base (pause_of w.state) l) r.crash_accepted _ _
        (λ _. other (orchestrator_crash run.run_id m) refl h) (λ _. h)

  carry_out-Good :
      (r : Round) (fate : Ending) (run : Run) (w : World)
      → Good w
      → Good (carry_out c r fate run w).1
  unfolding carry_out
  carry_out-Good r returns run w h =
      let p = run_pipeline (record r.env { stub_only = c.stub_only }) (started run) in
      let t = publish p w in
      same_pause t.state (count p.run.status t.state) t (sym (pause-count p.run.status t.state))
        (publish-Good p w h)
  carry_out-Good r (interrupted f) run w h = publish-Good (f (started run)) w h
  carry_out-Good r (raised m f) run w h =
      let g = publish-Good (f (started run)) w h in
      crashed-Good r m (f (started run)).run (publish (f (started run)) w) g

  loop_round-Good :
      (r : Round) (w : World)
      → c.cloud ≡ false
      → r.probe.accepted ≡ true
      → Good w
      → Good (loop_round c r w).1
  unfolding loop_round take_job Good
  loop_round-Good r w n a h =
      let g = prepare-Good r w n a h in
      if_cases {A = Option ℕ × World} (λ x. Good x.1) (prepare c r w).0 _ _
        (λ _. go (pop_one (prepare c r w).1.store).0 (pop_one (prepare c r w).1.store).1 g) (λ _. g)
    where
      go :
          (item : Option (String × String)) (s : Store)
          → Good (prepare c r w).1
          → Good (take_job c r item (record (prepare c r w).1 { store = s })).1
      go none s g = g
      go (some (k, hf_id)) s g = carry_out-Good r r.fate (new_run k hf_id r.taken_at) _ g

  loop_rounds-Good :
      (rounds : List Round) (w : World)
      → c.cloud ≡ false
      → All (λ r. r.probe.accepted ≡ true) rounds
      → Good w
      → Good (loop_rounds c rounds w).1
  unfolding loop_rounds
  loop_rounds-Good [] w n a h = h
  loop_rounds-Good (r ∷ rest) w n a h =
      let g = loop_round-Good r w n a.0 h in
      option_cases {B = Option ℕ × World} (λ x. Good x.1) (loop_round c r w).0 _ _
        (loop_rounds-Good rest (loop_round c r w).1 n a.1 g) (λ _. g)

-- If the outbox takes every incident and the provider is no cloud one, the incidents of any rounds
-- follow each other so: an engine-down when the engine was healthy; then reminders, each more than the
-- interval after the incident before it; then one engine-recovered. The state tells where in this
-- order the loop is.
pub loop_rounds-Paced :
    (c : Setting) (today : ℕ) (rounds : List Round) (s : Store)
    → c.cloud ≡ false
    → All (λ r. r.probe.accepted ≡ true) rounds
    → Paced c.engine_remind_interval []
        (pause_of (loop_rounds c rounds (new_world today s)).1.state)
        (loop_rounds c rounds (new_world today s)).1.outbox
unfolding Good
loop_rounds-Paced c today rounds s n a = loop_rounds-Good c [] rounds (new_world today s) n a start
