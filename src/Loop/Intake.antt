-- ===== src/Loop/Intake.antt =====
-- What a round of the loop takes from the queue, and what it counts.
use heyi_eval_v.Prelude.{
  ℕ, ◌+◌, ◌≡◌, refl, ◌∙◌, sym, ap, true, false, Bool, ◌||◌, Option, none, some, List, [], ◌∷◌,
  String, arith, ltb, ◌==◌, if_cases, if◌then◌else◌,
}
use heyi_eval_v.Prelude.Int.{sub_ℕ}
use heyi_eval_v.Stage.{RunStatus}
use heyi_eval_v.Run.{Run, new_run}
use heyi_eval_v.Store.{Store, Line, entry, blank, broken, save_run}
use heyi_eval_v.Queue.{pop_one, pop_line}
use heyi_eval_v.Pipeline.{run_pipeline}
use heyi_eval_v.Pipeline.Own.{underway, announces-underway}
use heyi_eval_v.Pipeline.Outcome.{run_pipeline-announces}
use heyi_eval_v.Loop.{
  Incident, World, Probe, Ending, Round, Setting, returns, interrupted, raised, still_paused,
  notify, recovered, unhealthy, forget, engine_preflight_gate, maybe_emit_heartbeat, started,
  publish, record_crash, count, roll_over, carry_out, take_job, prepare, loop_round, LoopState,
}
use heyi_eval_v.Loop.Written.{queue-write_saves}

-- The runs that the counters of the day have.
abbrev pub done : LoopState → ℕ
done s = s.completed_today + s.failed_today

-- What stays when no job is taken.
record Kept (w t : World) : Type 0 where
  store : t.store ≡ w.store
  done : done t.state ≡ done w.state

notify-Kept :
    (b : Bool) (at : ℕ) (i : Incident) (s : LoopState) (w : World)
    → done s ≡ done w.state
    → Kept w (notify b at i s w)
unfolding notify
notify-Kept true at i s w h = record { store = refl; done = h }
notify-Kept false at i s w h = record { store = refl; done = refl }

recovered-Kept : (p : Probe) (o : Option ℕ) (w : World) → Kept w (recovered p o w)
unfolding recovered
recovered-Kept p none w = record { store = refl; done = refl }
recovered-Kept p (some t) w =
    let k = notify-Kept p.accepted p.at _ w.state w refl in
    record { store = k.store; done = k.done }

unhealthy-Kept : (n : ℕ) (p : Probe) (o : Option ℕ) (w : World) → Kept w (unhealthy n p o w)
unfolding unhealthy
unhealthy-Kept n p none w =
    let k =
      notify-Kept p.accepted p.at _ _
        (record w { state = record w.state { engine_unhealthy_since = some p.at } }) refl in
    record { store = k.store; done = k.done }
unhealthy-Kept n p (some t) w =
    if_cases (Kept w) (ltb (w.state.engine_last_notify + n) p.at) _ _
      (λ _.
        notify-Kept p.accepted p.at (still_paused (sub_ℕ p.at t) p.detail)
          (record w.state { engine_last_notify = p.at }) w refl)
      (λ _. record { store = refl; done = refl })

forget-Kept : (o : Option ℕ) (w : World) → Kept w (forget o w)
unfolding forget
forget-Kept none w = record { store = refl; done = refl }
forget-Kept (some t) w = record { store = refl; done = refl }

gate-Kept : (c : Setting) (p : Probe) (w : World) → Kept w (engine_preflight_gate c p w).1
unfolding engine_preflight_gate
gate-Kept c p w =
    if_cases {A = (Bool × String) × World} (λ x. Kept w x.1) c.cloud _ _ (λ _. forget-Kept _ w)
      (λ _.
        if_cases {A = (Bool × String) × World} (λ x. Kept w x.1) p.ok _ _
          (λ _. recovered-Kept p _ w) (λ _. unhealthy-Kept _ p _ w))

allowed-gate :
    (c : Setting) (p : Probe) (w : World) → (engine_preflight_gate c p w).0.0 ≡ (c.cloud || p.ok)
unfolding engine_preflight_gate
allowed-gate c p w = ground arith

heartbeat-Kept : (c : Setting) (r : Round) (w : World) → Kept w (maybe_emit_heartbeat c r w).1
unfolding maybe_emit_heartbeat
heartbeat-Kept c r w = record { store = ground arith; done = ground arith }

-- Whether a round takes a job: the engine answers, or is not asked.
abbrev pub admits : Setting → Round → Bool
admits c r = c.stub_only || c.cloud || r.probe.ok

pub record Prepared (c : Setting) (r : Round) (w : World) (b : Bool) (t : World) : Type 0 where
  pub admitted : b ≡ admits c r
  pub store : t.store ≡ w.store
  pub done : done t.state ≡ done (roll_over r.today w.state)

pub prepare-Prepared :
    (c : Setting) (r : Round) (w : World) → Prepared c r w (prepare c r w).0 (prepare c r w).1
unfolding prepare
prepare-Prepared c r w =
    let t = record w { state = roll_over r.today w.state } in
    let u = (maybe_emit_heartbeat c r t).1 in
    let g = gate-Kept c r.probe u in
    let b = heartbeat-Kept c r t in
    if_cases {A = Bool × World} (λ x. Prepared c r w x.0 x.1) c.stub_only _ _
      (λ e. record { admitted = rw e refl; store = refl; done = refl })
      (λ n. record {
        admitted = rw (n, allowed-gate c r.probe u) refl;
        store = g.store ∙ b.store;
        done = g.done ∙ b.done;
      })

abbrev pub jobs : Option (String × String) → ℕ
jobs none = 0
jobs (some x) = 1

count_closed :
    (status : RunStatus) (s : LoopState)
    → underway status ≡ false
    → done (count status s) ≡ done s + 1
unfolding count
count_closed status s h = ground arith

module _ (c : Setting) (r : Round) where
  carry_out_counts :
      (fate : Ending) (run : Run) (w : World)
      → run.abort_flag ≡ false
      → (carry_out c r fate run w).0 ≡ none
      → done (carry_out c r fate run w).1.state ≡ done w.state + 1
  unfolding carry_out publish record_crash
  carry_out_counts returns run w f h =
      let env = record r.env { stub_only = c.stub_only } in
      let (e, _, a) = run_pipeline-announces env (started run) f in
      count_closed _ w.state (announces-underway e _ a)
  carry_out_counts (interrupted g) run w f h = cc
  carry_out_counts (raised m g) run w f h = omega arith

  queue-carry_out :
      (fate : Ending) (run : Run) (w : World)
      → (carry_out c r fate run w).1.store.queue ≡ w.store.queue
  unfolding carry_out publish record_crash save_run
  queue-carry_out returns run w =
      queue-write_saves
        (run_pipeline (record r.env { stub_only = c.stub_only }) (started run)).saves w.store
  queue-carry_out (interrupted g) run w = queue-write_saves (g (started run)).saves w.store
  queue-carry_out (raised m g) run w = queue-write_saves (g (started run)).saves w.store

  take_job_counts :
      (item : Option (String × String)) (w : World)
      → (take_job c r item w).0 ≡ none
      → done (take_job c r item w).1.state ≡ done w.state + jobs item
  unfolding take_job
  take_job_counts none w h = omega arith
  take_job_counts (some (k, hf_id)) w h =
      carry_out_counts r.fate (new_run k hf_id r.taken_at) _ (unfold new_run in refl) h

  queue-take_job :
      (item : Option (String × String)) (w : World)
      → (take_job c r item w).1.store.queue ≡ w.store.queue
  unfolding take_job save_run
  queue-take_job none w = refl
  queue-take_job (some (k, hf_id)) w = queue-carry_out r.fate (new_run k hf_id r.taken_at) _

-- The lines behind the first one.
abbrev pub behind_first : List Line → List Line
behind_first [] = []
behind_first (l ∷ rest) = rest

-- 1 if the first line holds a job.
abbrev pub first_job : List Line → ℕ
first_job [] = 0
first_job (entry r h ∷ rest) = 1
first_job (blank ∷ rest) = 0
first_job (broken ∷ rest) = 0

queue-pop_one : (s : Store) → (pop_one s).1.queue ≡ behind_first s.queue
unfolding pop_one
queue-pop_one s = popped s.queue
  where
    popped : (q : List Line) → (pop_line q).1 ≡ behind_first q
    popped [] = refl
    popped (l ∷ rest) = refl

jobs-pop_one : (s : Store) → jobs (pop_one s).0 ≡ first_job s.queue
unfolding pop_one
jobs-pop_one s = popped s.queue
  where
    popped : (q : List Line) → jobs (pop_line q).0 ≡ first_job q
    popped [] = refl
    popped (entry r h ∷ rest) = refl
    popped (blank ∷ rest) = refl
    popped (broken ∷ rest) = refl

done-roll_over :
    (today : ℕ) (s : LoopState)
    → done (roll_over today s) ≡ (if today == s.today_date then done s else 0)
unfolding roll_over
done-roll_over today s = ground arith

-- What a round did to the queue and the counters, with the code that it ended with.
pub record Turn (c : Setting) (r : Round) (w : World) (code : Option ℕ) (t : World) : Type 0 where
  pub refused : admits c r ≡ false → (t.store ≡ w.store) × (code ≡ none)
  pub taken : admits c r ≡ true → t.store.queue ≡ behind_first w.store.queue
  pub counted :
      code ≡ none
      → done t.state
        ≡ (if r.today == w.state.today_date then done w.state else 0)
          + (if admits c r then first_job w.store.queue else 0)

-- A round of which the engine does not answer, when it is asked, leaves the store and the queue as they
-- are, and the loop goes on. Any other round takes the first line off the queue and no other. If the loop goes on,
-- the counters of the day, set to 0 when the date changes, grow by one if that line held a
-- job, and not otherwise.
pub loop_round-Turn :
    (c : Setting) (r : Round) (w : World) → Turn c r w (loop_round c r w).0 (loop_round c r w).1
unfolding loop_round
loop_round-Turn c r w =
    let p = prepare-Prepared c r w in
    let t = (prepare c r w).1 in
    let z = p.done ∙ done-roll_over r.today w.state in
    if_cases {A = Option ℕ × World} (λ x. Turn c r w x.0 x.1) (prepare c r w).0 _ _
      (λ e.
        let y : admits c r ≡ true = sym p.admitted ∙ e in
        let item = (pop_one t.store).0 in
        let u = record t { store = (pop_one t.store).1 } in
        let same : jobs item ≡ first_job w.store.queue =
          jobs-pop_one t.store ∙ ap (λ s. first_job s.queue) p.store in
        record {
          refused = λ h. absurd (cc (h, y));
          taken = λ _.
              queue-take_job c r item u
              ∙ queue-pop_one t.store
              ∙ ap (λ s. behind_first s.queue) p.store;
          counted = λ h. rw y (omega (arith, take_job_counts c r item u h, same, z));
        })
      (λ e.
        let n : admits c r ≡ false = sym p.admitted ∙ e in
        record {
          refused = λ _. (p.store, refl);
          taken = λ h. absurd (cc (h, n));
          counted = λ _. rw n (omega (arith, z));
        })
