-- ===== src/Repair/Loop/Samples.antt =====
-- A deployment that is repaired, one that is not, and instances of the theorems about the repair.
use heyi_eval_v.Prelude.{
  ◌≡◌, refl, Bool, true, false, String, none, some, List, [], ◌∷◌, ◌==◌, if◌then◌else◌,
}
use heyi_eval_v.Prelude.Int.{pos}
use heyi_eval_v.Prelude.Codes.{Text, codes, contains}
use heyi_eval_v.Repair.{Plan, propose, args_of, vllm, sglang, int, strategy}
use heyi_eval_v.Repair.Failure.{early_exit, DeployFailure, FailureClass, classify}
use heyi_eval_v.Repair.Loop.{
  Env, Session, deployed, failed, Attempt, repair_rounds, max_iterations, deploy, serves,
  first_session, repair, apply, try_all, fresh, agent_rounds,
}

abbrev plan : Plan
plan = record {
  engine = some vllm;
  vllm_args = some (record {
    trust_remote_code = none;
    max_model_len = some (int (pos 8192));
    model_path_override = none;
    others = [];
  });
  gguf_filename_hint = none;
  others = [];
}

abbrev image : Text
image = codes "vllm/vllm-openai:v0.11.0"

abbrev failure : String → DeployFailure
failure logs = record { engine = vllm; image = image; error_kind = early_exit; logs = codes logs }

unknown_type :
    classify (failure "model type `glm_ocr` but Transformers does not recognize this")
    ≡ FailureClass.model_type_unknown
unfolding classify contains
unknown_type = refl

killed : classify (failure "worker got signal  9") ≡ FailureClass.oom
unfolding classify contains
killed = refl

-- A name with no quote behind it is no missing module.
unquoted : classify (failure "No module named 'x") ≡ FailureClass.other_early_exit
unfolding classify contains
unquoted = refl

-- The fourth attempt, on SGLang, works.
abbrev env : Env
env = record {
  try_once = λ n p i e. if n == 4 then deployed else failed early_exit (codes "boom");
  propose_repair = λ i n f p. none;
  enable_repair = true;
  agent_enabled = true;
  agent_attempts = 3;
}

abbrev hopeless : Env
hopeless = record env { try_once = λ n p i e. failed early_exit (codes "boom") }

abbrev start : Session
start = first_session plan vllm image early_exit (codes "boom")

repaired : (deploy env plan vllm image).0 ≡ serves sglang (codes "lmsysorg/sglang:v0.4.6.post1")
unfolding deploy repair repair_rounds try_all apply fresh propose strategy classify contains
    agent_rounds
repaired = refl

-- The proposals of a round are made from the plan at its head: the second attempt has lost the flag that
-- the first one added.
abbrev flags : List Attempt → List Bool
flags [] = []
flags (a ∷ rest) =
    elim (args_of a.plan).trust_remote_code [ none ↦ false | some f ↦ true ] ∷ flags rest

flag_is_lost :
    flags (repair_rounds max_iterations hopeless start).1.attempts
    ≡ false ∷ false ∷ false ∷ false ∷ true ∷ false ∷ []
unfolding repair_rounds try_all apply fresh propose strategy classify contains
flag_is_lost = refl
