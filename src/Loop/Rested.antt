-- ===== src/Loop/Rested.antt =====
-- Which runs the loop leaves pending or in progress.
use heyi_eval_v.Prelude.{
  ℕ, ◌≡◌, refl, subst, sym, true, false, Option, none, some, List, [], ◌∷◌, All, String, str_eq,
  eq_iff, ap, if_cases, ◌⊎◌, inl, inr, Bool-cases,
}
use heyi_eval_v.Run.{Run, new_run}
use heyi_eval_v.Store.{Store, get_run, save_run}
use heyi_eval_v.Store.Agreement.{get_run-save_run}
use heyi_eval_v.Queue.{pop_one}
use heyi_eval_v.Pipeline.{State, Env, run_pipeline}
use heyi_eval_v.Pipeline.Own.{Own, underway, run_pipeline-Own, announces-underway}
use heyi_eval_v.Pipeline.Outcome.{last_save-run_pipeline, run_pipeline-announces}
use heyi_eval_v.Loop.{
  World, Ending, Round, Setting, returns, interrupted, raised, started, publish, record_crash,
  write_saves, carry_out, take_job, prepare, loop_round, loop_rounds, cmd_loop, new_world,
}
use heyi_eval_v.Loop.Written.{at_rest, Rested, write_saves-Rested, get_run-write_saves_other}
use heyi_eval_v.Loop.Intake.{prepare-Prepared}
use heyi_eval_v.Loop.Started.{Startable, sweep_orphans-Rested}

-- Up to an exception, too, the pipeline works on the state file of its own run.
abbrev pub Honest : Ending → Type 0
Honest returns = Unit
Honest (interrupted f) = (k : String) (s : State) → Own k s → Own k (f s)
Honest (raised m f) = (k : String) (s : State) → Own k s → Own k (f s)

-- At most one run is not at rest, and none if the loop goes on.
pub record Left (code : Option ℕ) (s : Store) : Type 0 where
  pub rested : code ≡ none → Rested s
  pub at_most_one : (i : String) × ((k : String) → (i ≡ k) ⊎ (at_rest (get_run k s) ≡ true))

Left-none : (s : Store) → Rested s → Left none s
Left-none s h = record { rested = λ _. h; at_most_one = ("", λ k. inr (h k)) }

module _ (c : Setting) (r : Round) (s : Store) (h : Rested s) where
  started-Own : (run : Run) → Own run.run_id (started run)
  started-Own run = record { run_id = refl; saves = tt }

  interrupted-Left :
      (run : Run) (p : State)
      → Own run.run_id p
      → Left (some 130) (write_saves p.saves (save_run run s))
  interrupted-Left run p o = record {
    rested = λ e. cc;
    at_most_one = (
      run.run_id,
      λ k. elim (Bool-cases (str_eq run.run_id k)) [
        | inl e ↦ inl ((eq_iff run.run_id k).0 e)
        | inr n ↦ inr (
            rw
              (
                get_run-write_saves_other run.run_id k p.saves (save_run run s) o.saves n,
                get_run-save_run run k s,
                n,
              )
              (h k))
      ],
    );
  }

  pipeline-Rested :
      (env : Env) (run : Run)
      → run.abort_flag ≡ false
      → let p = run_pipeline env (started run) in Rested (write_saves p.saves (save_run run s))
  pipeline-Rested env run f =
      let (e, _, a) = run_pipeline-announces env (started run) f in
      write_saves-Rested run (run_pipeline env (started run)) s h
        (run_pipeline-Own env run.run_id (started run) (started-Own run))
        (last_save-run_pipeline env (started run)) (announces-underway e _ a)

  crash-Rested :
      (run closed : Run) (p : State)
      → Own run.run_id p
      → closed.run_id ≡ run.run_id
      → underway closed.status ≡ false
      → Rested (save_run closed (write_saves p.saves (save_run run s)))
  unfolding write_saves
  crash-Rested run closed p o e u =
      write_saves-Rested run (record p { run = closed; saves = closed ∷ p.saves }) s h
        (record { run_id = e; saves = (e, o.saves) }) refl u

  carry_out-Left :
      (fate : Ending) (run : Run) (w : World)
      → run.abort_flag ≡ false
      → w.store ≡ save_run run s
      → Honest fate
      → Left (carry_out c r fate run w).0 (carry_out c r fate run w).1.store
  unfolding carry_out publish record_crash
  carry_out-Left returns run w f e o =
      Left-none _ (rw e (pipeline-Rested (record r.env { stub_only = c.stub_only }) run f))
  carry_out-Left (interrupted g) run w f e o =
      rw e (interrupted-Left run (g (started run)) (o run.run_id (started run) (started-Own run)))
  carry_out-Left (raised m g) run w f e o =
      let own = o run.run_id (started run) (started-Own run) in
      Left-none _ (rw e (crash-Rested run _ (g (started run)) own own.run_id refl))

  take_job-Left :
      (item : Option (String × String)) (w : World)
      → w.store ≡ s
      → Honest r.fate
      → Left (take_job c r item w).0 (take_job c r item w).1.store
  unfolding take_job
  take_job-Left none w e o = Left-none _ (rw e h)
  take_job-Left (some (run_id, hf_id)) w e o =
      carry_out-Left r.fate (new_run run_id hf_id r.taken_at) _ (unfold new_run in refl)
        (ap (save_run (new_run run_id hf_id r.taken_at)) e) o

pop_one-Rested : (s : Store) → Rested s → Rested (pop_one s).1
unfolding pop_one get_run
pop_one-Rested s h = h

loop_round-Left :
    (c : Setting) (r : Round) (w : World)
    → Rested w.store
    → Honest r.fate
    → Left (loop_round c r w).0 (loop_round c r w).1.store
unfolding loop_round
loop_round-Left c r w h o =
    let p = prepare-Prepared c r w in
    if_cases {A = Option ℕ × World} (λ x. Left x.0 x.1.store) (prepare c r w).0 _ _
      (λ _. take_job-Left c r _ (pop_one-Rested _ (subst Rested (sym p.store) h)) _ _ refl o)
      (λ _. Left-none _ (subst Rested (sym p.store) h))

goes_on-Left :
    (code : Option ℕ) (t : World) (f : World → Option ℕ × World)
    → Left code t.store
    → (Rested t.store → Left (f t).0 (f t).1.store)
    → let x : Option ℕ × World = elim code [ none ↦ f t | some n ↦ (some n, t) ] in
      Left x.0 x.1.store
goes_on-Left none t f l k = k (l.rested refl)
goes_on-Left (some n) t f l k = l

loop_rounds-Left :
    (c : Setting) (rounds : List Round) (w : World)
    → Rested w.store
    → All (λ r. Honest r.fate) rounds
    → Left (loop_rounds c rounds w).0 (loop_rounds c rounds w).1.store
unfolding loop_rounds
loop_rounds-Left c [] w h o = Left-none _ h
loop_rounds-Left c (r ∷ rest) w h o =
    goes_on-Left (loop_round c r w).0 (loop_round c r w).1 (loop_rounds c rest)
      (loop_round-Left c r w h o.0) (λ k. loop_rounds-Left c rest _ k o.1)

-- From a store with no pending run, at most 200 rows in progress, no row of time 0, and an index in
-- agreement with the state files, the loop starts; and after any rounds at most one run is pending or
-- in progress, none if the loop was not interrupted. The pipeline that an exception leaves is asked to
-- have worked on its own run's file.
pub cmd_loop-Left :
    (c : Setting) (today now stale : ℕ) (rounds : List Round) (s : Store)
    → Startable s
    → All (λ r. Honest r.fate) rounds
    → (code : Option ℕ) × (w : World) × (cmd_loop c today now stale rounds s ≡ some (code, w))
      × Left code w.store
unfolding cmd_loop
cmd_loop-Left c today now stale rounds s h o =
    let (n, t, e, rested, q) = sweep_orphans-Rested now stale s h in
    let w = new_world today t in
    (
      (loop_rounds c rounds w).0,
      (loop_rounds c rounds w).1,
      rw (e, cmd_loop) refl,
      loop_rounds-Left c rounds w rested o,
    )
