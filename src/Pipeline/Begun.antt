-- ===== src/Pipeline/Begun.antt =====
-- The head of `run_pipeline`: what it leaves of the stages.
use heyi_eval_v.Prelude.{◌≡◌, refl, ◌∙◌, ap, true, some, List, [], ◌∷◌, arith, if_cases}
use heyi_eval_v.Stage.{StageName, RunStatus, stage_eq_iff, cleanup}
use heyi_eval_v.Run.{Run, get_stage, set_stage, is_ok, needs_full_restart}
use heyi_eval_v.Pipeline.{State, reset, reset_stages, begin, run_started}
use heyi_eval_v.Pipeline.Executed.{last_save}
use heyi_eval_v.Pipeline.Visited.{Untouched, Ok}

-- What may change of a run: its status, and the stages that are not OK, but for their attempts.
record Reset (r t : Run) : Type 0 where
  status : t.status ≡ r.status
  abort_flag : t.abort_flag ≡ r.abort_flag
  attempts : (x : StageName) → (get_stage t x).attempt ≡ (get_stage r x).attempt
  keeps : (x : StageName) → is_ok (get_stage r x).status ≡ true → get_stage t x ≡ get_stage r x
  same_ok : (x : StageName) → is_ok (get_stage t x).status ≡ is_ok (get_stage r x).status

reset_one : (x : StageName) (r : Run) → Reset r (set_stage x (reset (get_stage r x)) r)
unfolding set_stage
reset_one x r = record {
  status = refl;
  abort_flag = refl;
  attempts = λ y. ground (arith, stage_eq_iff x y);
  keeps = λ y h. ground (arith, stage_eq_iff x y);
  same_ok = λ y. ground (arith, stage_eq_iff x y);
}

reset_stages-Reset : (stages : List StageName) (r : Run) → Reset r (reset_stages stages r)
unfolding reset_stages
reset_stages-Reset [] r = record {
  status = refl;
  abort_flag = refl;
  attempts = λ _. refl;
  keeps = λ _ _. refl;
  same_ok = λ _. refl;
}
reset_stages-Reset (x ∷ rest) r =
    let a = reset_one x r in
    let b = reset_stages-Reset rest (set_stage x (reset (get_stage r x)) r) in
    record {
      status = b.status ∙ a.status;
      abort_flag = b.abort_flag ∙ a.abort_flag;
      attempts = λ y. b.attempts y ∙ a.attempts y;
      keeps = λ y h. let e = a.keeps y h in b.keeps y (ap (λ i. is_ok i.status) e ∙ h) ∙ e;
      same_ok = λ y. b.same_ok y ∙ a.same_ok y;
    }

pub record Begun (s t : State) : Type 0 where
  pub status : t.run.status ≡ RunStatus.in_progress
  pub abort_flag : t.run.abort_flag ≡ s.run.abort_flag
  pub events : t.events ≡ run_started ∷ s.events
  pub saved : last_save t.saves ≡ some t.run
  pub attempts : (x : StageName) → (get_stage t.run x).attempt ≡ (get_stage s.run x).attempt
  pub keeps : (x : StageName) → Ok x s → Untouched x s t
  pub same_ok :
      (x : StageName) → is_ok (get_stage t.run x).status ≡ is_ok (get_stage s.run x).status
  pub cleanup_kept : Untouched cleanup s t

pub begin-Begun : (s : State) → Begun s (begin s)
unfolding begin
begin-Begun s =
    if_cases (Begun s) (needs_full_restart (record s.run { status = RunStatus.in_progress })) _ _
      (λ _.
        let a = reset_stages-Reset _ (record s.run { status = RunStatus.in_progress }) in
        record {
          status = a.status;
          abort_flag = a.abort_flag;
          events = refl;
          saved = refl;
          attempts = a.attempts;
          keeps = a.keeps;
          same_ok = a.same_ok;
          cleanup_kept = unfold reset_stages set_stage in refl;
        })
      (λ _. record {
        status = refl;
        abort_flag = refl;
        events = refl;
        saved = refl;
        attempts = λ _. refl;
        keeps = λ _ _. refl;
        same_ok = λ _. refl;
        cleanup_kept = refl;
      })
