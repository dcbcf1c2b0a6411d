-- ===== src/Pipeline/Own.antt =====
-- Which state files `run_pipeline` writes, and how it leaves its run.
use heyi_eval_v.Prelude.{
  ◌≡◌, refl, ◌∙◌, Bool, true, false, Option, none, some, List, [], ◌∷◌, All, String, if_cases,
  arith,
}
use heyi_eval_v.Stage.{StageName, StageInfo, RunStatus, stages_in_order}
use heyi_eval_v.Run.{Run, get_stage, is_failed, set_stage, needs_full_restart}
use heyi_eval_v.Pipeline.{
  State, Env, Exn, Stop, Event, Execution, graceful_skip, crash, validation_error, other_error,
  returned, raised, returns, breaks, start, marked, conclude, exec, handle, visit, run_stages,
  finish, begin, close, abandon, ensure_failed, best_effort_cleanup, reset_stages,
  execute_stage_real, execute_stage_stub, run_pipeline, reset,
}
use heyi_eval_v.Pipeline.Order.{run_stages_cases}
use heyi_eval_v.Pipeline.Visited.{visit_cases}
use heyi_eval_v.Pipeline.Outcome.{announces}

pub record Own (k : String) (s : State) : Type 0 where
  pub run_id : s.run.run_id ≡ k
  pub saves : All (λ r. r.run_id ≡ k) s.saves

module _ (env : Env) (k : String) where
  marked-Own : (x : StageName) (i : StageInfo) (s : State) → Own k s → Own k (marked x i s)
  unfolding marked set_stage
  marked-Own x i s h = record { run_id = h.run_id; saves = (h.run_id, h.saves) }

  conclude-Own :
      (x : StageName) (e : Execution) (s : State) → Own k s → Own k (conclude env x e s).1
  unfolding conclude
  conclude-Own x (raised e) s h = marked-Own x _ s h
  conclude-Own x (returned r) s h =
      if_cases {A = Option Exn × State} (λ p. Own k p.1) r.ok _ _ (λ _. marked-Own x _ s h)
        (λ _.
          if_cases {A = Option Exn × State} (λ p. Own k p.1) r.aborted _ _ (λ _. marked-Own x _ s h)
            (λ _. marked-Own x _ s h))

  exec-Own : (x : StageName) (s : State) → Own k s → Own k (exec env x s).1
  unfolding exec execute_stage_real execute_stage_stub start
  exec-Own x s h =
      if_cases {A = Option Exn × State} (λ p. Own k p.1) env.stub_only _ _
        (λ _. marked-Own x _ _ (marked-Own x _ s h)) (λ _. conclude-Own x _ _ (marked-Own x _ s h))

  close-Own :
      (status : RunStatus) (m : Option String) (s : State) → Own k s → Own k (close env status m s)
  unfolding close
  close-Own status m s h = record { run_id = h.run_id; saves = (h.run_id, h.saves) }

  cleanup-Own : (b : Bool) (s : State) → Own k s → Own k (best_effort_cleanup env b s)
  unfolding best_effort_cleanup
  cleanup-Own b s h = if_cases (Own k) b _ _ (λ _. exec-Own _ s h) (λ _. h)

  abandon-Own : (at : StageName) (m : String) (s : State) → Own k s → Own k (abandon env at m s)
  unfolding abandon
  abandon-Own at m s h =
      let c = cleanup-Own _ _ (close-Own _ _ s h) in record { run_id = c.run_id; saves = c.saves }

  ensure_failed-Own :
      (x : StageName) (m : String) (s : State) → Own k s → Own k (ensure_failed env x m s)
  unfolding ensure_failed
  ensure_failed-Own x m s h =
      if_cases (Own k) (is_failed (get_stage s.run x).status) _ _ (λ _. h) (λ _. marked-Own x _ s h)

  handle-Own : (x : StageName) (e : Option Exn) (s : State) → Own k s → Own k (handle env x e s).1
  unfolding handle
  handle-Own x none s h = h
  handle-Own x (some (graceful_skip at m)) s h = abandon-Own at m s h
  handle-Own x (some (crash (validation_error m))) s h = ensure_failed-Own x _ s h
  handle-Own x (some (crash (other_error t m))) s h = ensure_failed-Own x _ s h

  visit-Own : (x : StageName) (s : State) → Own k s → Own k (visit env x s).1
  visit-Own x s h =
      visit_cases (λ p. Own k p.1) env x s (λ _. close-Own _ _ s h) (λ _ _. h)
        (λ _ _. handle-Own x _ _ (exec-Own x s h))

  run_stages-Own :
      (stages : List StageName) (s : State) → Own k s → Own k (run_stages env stages s).1
  run_stages-Own [] s h = unfold run_stages in h
  run_stages-Own (x ∷ rest) s h =
      run_stages_cases (λ p. Own k p.1) env x rest s (λ _ _. visit-Own x s h)
        (λ _. run_stages-Own rest _ (visit-Own x s h))

  finish-Own : (o : Option Stop) (s : State) → Own k s → Own k (finish env o s)
  unfolding finish
  finish-Own none s h =
      let c = close-Own RunStatus.ok s.run.failure_reason s h in
      record { run_id = c.run_id; saves = c.saves }
  finish-Own (some returns) s h = h
  finish-Own (some (breaks at m)) s h =
      let c = close-Own RunStatus.failed (some m) _ (cleanup-Own _ s h) in
      record { run_id = c.run_id; saves = c.saves }

run_id-reset_stages :
    (stages : List StageName) (r : Run) → (reset_stages stages r).run_id ≡ r.run_id
unfolding reset_stages set_stage
run_id-reset_stages [] r = refl
run_id-reset_stages (x ∷ rest) r = run_id-reset_stages rest (set_stage x (reset (get_stage r x)) r)

begin-Own : (k : String) (s : State) → Own k s → Own k (begin s)
unfolding begin
begin-Own k s h =
    if_cases (Own k) (needs_full_restart (record s.run { status = RunStatus.in_progress })) _ _
      (λ _.
        let e = run_id-reset_stages _ _ ∙ h.run_id in
        record { run_id = e; saves = (e, (h.run_id, h.saves)) })
      (λ _. record { run_id = h.run_id; saves = (h.run_id, h.saves) })

-- Whatever the executors do, `run_pipeline` keeps the id of its run and writes no other run's file.
pub run_pipeline-Own : (env : Env) (k : String) (s : State) → Own k s → Own k (run_pipeline env s)
unfolding run_pipeline
run_pipeline-Own env k s h =
    finish-Own env k _ _ (run_stages-Own env k stages_in_order _ (begin-Own k s h))

abbrev pub underway : RunStatus → Bool
underway RunStatus.pending = true
underway RunStatus.in_progress = true
underway _ = false

-- What is announced is an end.
pub announces-underway :
    (e : Event) (status : RunStatus) → announces e status ≡ true → underway status ≡ false
announces-underway e status h = ground arith
