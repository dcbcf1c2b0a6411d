-- ===== src/Pipeline/Visited.antt =====
-- One round of the loop over the stages: what stays, and what holds when the loop goes on or stops.
use heyi_eval_v.Prelude.{
  ◌+◌, ◌≡◌, refl, Bool, true, false, Option, none, some, arith, ◌∷◌, Bool-cases, if_cases, inl, inr,
  String, ap, ◌∙◌,
}
use heyi_eval_v.Stage.{StageName, RunStatus, stage_eq, stage_eq_iff, cleanup}
use heyi_eval_v.Run.{get_stage, is_ok}
use heyi_eval_v.Pipeline.{
  abandon, cleanup_after_skip, State, Env, Exn, Stop, close, best_effort_cleanup, handle, visit,
  exec, returns, run_aborted, graceful_skip, crash, validation_error, other_error,
}
use heyi_eval_v.Pipeline.Executed.{Executed, exec-Executed, last_save}

abbrev pub Untouched : StageName → State → State → Type 0
Untouched x s t = get_stage t.run x ≡ get_stage s.run x

abbrev pub Ok : StageName → State → Type 0
Ok x s = is_ok (get_stage s.run x).status ≡ true

abbrev pub NotOk : StageName → State → Type 0
NotOk x s = is_ok (get_stage s.run x).status ≡ false

-- A stage that is OK and one that is not are two.
pub other_stage : (s : State) (x y : StageName) → NotOk x s → Ok y s → stage_eq x y ≡ false
other_stage s x y h k = ground (arith, stage_eq_iff x y)

-- The cleanup outside the loop's own rounds: `test` is what the code asks before it.
pub record Cleaned (test : Bool) (s t : State) : Type 0 where
  pub others : (x : StageName) → stage_eq cleanup x ≡ false → Untouched x s t
  pub tried :
      test ≡ true → (get_stage t.run cleanup).attempt ≡ (get_stage s.run cleanup).attempt + 1
  pub untried : test ≡ false → Untouched cleanup s t
  pub saved : last_save s.saves ≡ some s.run → last_save t.saves ≡ some t.run
  pub status : t.run.status ≡ s.run.status
  pub abort_flag : t.run.abort_flag ≡ s.run.abort_flag
  pub events : t.events ≡ s.events

pub best_effort_cleanup-Cleaned :
    (env : Env) (test : Bool) (s : State) → Cleaned test s (best_effort_cleanup env test s)
unfolding best_effort_cleanup
best_effort_cleanup-Cleaned env true s =
    let x = exec-Executed env cleanup s in
    record {
      others = x.others;
      tried = λ _. x.attempts;
      untried = λ e. cc;
      saved = λ _. x.saved;
      status = x.status;
      abort_flag = x.abort_flag;
      events = x.events;
    }
best_effort_cleanup-Cleaned env false s = record {
  others = λ _ _. refl;
  tried = λ e. cc;
  untried = λ _. refl;
  saved = λ h. h;
  status = refl;
  abort_flag = refl;
  events = refl;
}

pub record Visited (stage : StageName) (s : State) (stop : Option Stop) (t : State) : Type 0 where
  pub others :
      (x : StageName) → stage_eq stage x ≡ false → stage_eq cleanup x ≡ false → Untouched x s t
  pub keeps : (x : StageName) → Ok x s → Untouched x s t
  pub saved : last_save s.saves ≡ some s.run → last_save t.saves ≡ some t.run
  pub abort_flag : t.run.abort_flag ≡ s.run.abort_flag

-- A graceful skip leaves what `close` and the cleanup leave.
pub record Abandoned (at : StageName) (s t : State) : Type 0 where
  pub others : (x : StageName) → stage_eq cleanup x ≡ false → Untouched x s t
  pub tried :
      cleanup_after_skip at s ≡ true
      → (get_stage t.run cleanup).attempt ≡ (get_stage s.run cleanup).attempt + 1
  pub untried : cleanup_after_skip at s ≡ false → Untouched cleanup s t
  pub saved : last_save t.saves ≡ some t.run
  pub status : t.run.status ≡ RunStatus.aborted
  pub abort_flag : t.run.abort_flag ≡ s.run.abort_flag

pub abandon-Abandoned :
    (env : Env) (at : StageName) (reason : String) (s : State)
    → Abandoned at s (abandon env at reason s)
unfolding abandon
abandon-Abandoned env at reason s =
    let c = best_effort_cleanup-Cleaned env (cleanup_after_skip at s) _ in
    record {
      others = c.others;
      tried = c.tried;
      untried = c.untried;
      saved = c.saved refl;
      status = c.status;
      abort_flag = c.abort_flag;
    }

pub events-abandon :
    (env : Env) (at : StageName) (reason : String) (s : State)
    → (abandon env at reason s).events ≡ run_aborted at reason ∷ s.events
unfolding abandon
events-abandon env at reason s =
    ap (λ l. run_aborted at reason ∷ l)
      (best_effort_cleanup-Cleaned env (cleanup_after_skip at s) _).events

-- A stage that was OK is not touched by the abandonment, also if it is the cleanup.
abandon-keeps :
    (env : Env) (at : StageName) (reason : String) (s : State) (y : StageName)
    → Ok y s
    → Untouched y s (abandon env at reason s)
abandon-keeps env at reason s y h = elim (Bool-cases (stage_eq cleanup y)) [
  | inl e ↦ ground (arith, stage_eq_iff cleanup y, (abandon-Abandoned env at reason s).untried)
  | inr n ↦ (abandon-Abandoned env at reason s).others y n
]

handle-Visited :
    (env : Env) (stage : StageName) (s t : State) (e : Option Exn)
    → NotOk stage s
    → Executed stage s e t
    → Visited stage s (handle env stage e t).0 (handle env stage e t).1
handle-Visited env stage s t none h x =
    unfold handle in
    record {
      others = λ y a b. x.others y a;
      keeps = λ y a. x.others y (other_stage s stage y h a);
      saved = λ a. x.saved;
      abort_flag = x.abort_flag;
    }
handle-Visited env stage s t (some (graceful_skip at reason)) h x =
    let a = abandon-Abandoned env at reason t in
    unfold handle in
    record {
      others = λ y p q. a.others y q ∙ x.others y p;
      keeps = λ y k.
          let e = x.others y (other_stage s stage y h k) in
          abandon-keeps env at reason t y (ap (λ i. is_ok i.status) e ∙ k) ∙ e;
      saved = λ _. a.saved;
      abort_flag = a.abort_flag ∙ x.abort_flag;
    }
handle-Visited env stage s t (some (crash (validation_error m))) h x =
    unfold handle in
    record {
      others = λ y a b. ground (arith, x.others y);
      keeps = λ y a. ground (arith, x.others y, other_stage s stage y);
      saved = λ a. ground arith;
      abort_flag = ground arith;
    }
handle-Visited env stage s t (some (crash (other_error k m))) h x =
    unfold handle in
    record {
      others = λ y a b. ground (arith, x.others y);
      keeps = λ y a. ground (arith, x.others y, other_stage s stage y);
      saved = λ a. ground arith;
      abort_flag = ground arith;
    }

-- The three ways of a round.
pub visit_cases :
    (P : Option Stop × State → Type 0) (env : Env) (stage : StageName) (s : State)
    → (s.run.abort_flag ≡ true
        → P (some returns, close env RunStatus.aborted (some "abort_flag") s))
    → (s.run.abort_flag ≡ false → Ok stage s → P (none, s))
    → (s.run.abort_flag ≡ false
        → NotOk stage s
        → P (handle env stage (exec env stage s).0 (exec env stage s).1))
    → P (visit env stage s)
unfolding visit
visit_cases P env stage s flagged done run =
    if_cases P s.run.abort_flag _ _ flagged
      (λ a. if_cases P (is_ok (get_stage s.run stage).status) _ _ (done a) (run a))

pub visit-Visited :
    (env : Env) (stage : StageName) (s : State)
    → Visited stage s (visit env stage s).0 (visit env stage s).1
visit-Visited env stage s =
    visit_cases (λ r. Visited stage s r.0 r.1) env stage s
      (λ _.
        unfold close in
        record {
          others = λ _ _ _. refl;
          keeps = λ _ _. refl;
          saved = λ _. refl;
          abort_flag = refl;
        })
      (λ _ _. record {
        others = λ _ _ _. refl;
        keeps = λ _ _. refl;
        saved = λ h. h;
        abort_flag = refl;
      })
      (λ _ h. handle-Visited env stage s _ _ h (exec-Executed env stage s))

-- When the loop goes on, the stage is OK, and all but the stage is as it was.
pub record GoesOn (stage : StageName) (s t : State) : Type 0 where
  pub done : Ok stage t
  pub unflagged : s.run.abort_flag ≡ false
  pub others : (x : StageName) → stage_eq stage x ≡ false → Untouched x s t
  pub status : t.run.status ≡ s.run.status
  pub events : t.events ≡ s.events

pub visit-GoesOn :
    (env : Env) (stage : StageName) (s : State)
    → (visit env stage s).0 ≡ none
    → GoesOn stage s (visit env stage s).1
visit-GoesOn env stage s =
    visit_cases (λ r. r.0 ≡ none → GoesOn stage s r.1) env stage s (λ _ e. cc)
      (λ a k _. record {
        done = k;
        unflagged = a;
        others = λ _ _. refl;
        status = refl;
        events = refl;
      })
      (λ a k e. handled (exec env stage s).0 (exec env stage s).1 a (exec-Executed env stage s) e)
  where
    handled :
        (e : Option Exn) (t : State)
        → s.run.abort_flag ≡ false
        → Executed stage s e t
        → (handle env stage e t).0 ≡ none
        → GoesOn stage s (handle env stage e t).1
    handled none t a x h =
        unfold handle in
        record {
          done = x.outcome;
          unflagged = a;
          others = x.others;
          status = x.status;
          events = x.events;
        }
    handled (some (graceful_skip at reason)) t a x h = unfold handle in cc (h)
    handled (some (crash (validation_error m))) t a x h = unfold handle in cc (h)
    handled (some (crash (other_error k m))) t a x h = unfold handle in cc (h)
