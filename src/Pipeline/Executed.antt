-- ===== src/Pipeline/Executed.antt =====
-- What the execution of one stage does to the state, whatever the executor answers.
use heyi_eval_v.Prelude.{
  ◌+◌, ◌≡◌, refl, Bool, true, false, Option, none, some, List, [], ◌∷◌, arith, String,
}
use heyi_eval_v.Stage.{StageName, stage_eq, stage_eq_iff}
use heyi_eval_v.Run.{Run, get_stage, is_ok}
use heyi_eval_v.Pipeline.{State, Env, Exn, graceful_skip, exec}

abbrev pub no_exn : Option Exn → Bool
no_exn none = true
no_exn (some e) = false

abbrev pub last_save : List Run → Option Run
last_save [] = none
last_save (r ∷ rest) = some r

pub record Executed (stage : StageName) (s : State) (e : Option Exn) (t : State) : Type 0 where
  pub others : (x : StageName) → stage_eq stage x ≡ false → get_stage t.run x ≡ get_stage s.run x
  pub outcome : is_ok (get_stage t.run stage).status ≡ no_exn e
  pub attempts : (get_stage t.run stage).attempt ≡ (get_stage s.run stage).attempt + 1
  pub status : t.run.status ≡ s.run.status
  pub abort_flag : t.run.abort_flag ≡ s.run.abort_flag
  pub events : t.events ≡ s.events
  pub saved : last_save t.saves ≡ some t.run

pub stage_eq_refl : (x : StageName) → stage_eq x x ≡ true
stage_eq_refl x = (stage_eq_iff x x).1 refl

pub exec-Executed :
    (env : Env) (stage : StageName) (s : State)
    → Executed stage s (exec env stage s).0 (exec env stage s).1
unfolding exec
exec-Executed env stage s = record {
  others = λ x ne. ground arith;
  outcome = ground (arith, stage_eq_refl stage);
  attempts = ground (arith, stage_eq_refl stage);
  status = ground arith;
  abort_flag = ground arith;
  events = ground arith;
  saved = ground arith;
}

-- A graceful skip names the stage that was executed.
pub exec-skip :
    (env : Env) (stage at : StageName) (reason : String) (s : State)
    → (exec env stage s).0 ≡ some (graceful_skip at reason)
    → at ≡ stage
unfolding exec
exec-skip env stage at reason s h = ground arith
