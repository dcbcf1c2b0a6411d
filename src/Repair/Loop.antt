-- ===== src/Repair/Loop.antt =====
-- orchestrator/stages_py.py: execute_deploy from the first attempt on, with the repair loop and the
-- escalation to an agent. `_try_once`, which calls docker, and `propose_repair`, which asks a language
-- model, are arguments; both are told how many attempts came before.
pub mod Deploys
mod Rounds
mod Samples
use heyi_eval_v.Prelude.{
  ℕ, zero, suc, ◌+◌, Bool, true, false, not, ◌&&◌, ◌||◌, Option, none, some, List, [], ◌∷◌, ◌++◌,
  ◌==◌, if◌then◌else◌,
}
use heyi_eval_v.Prelude.Codes.{Text, codes, text_eq, lower}
use heyi_eval_v.Repair.{
  Plan, Args, Strategy, StrategyResult, add_trust_remote_code, use_gguf_file_path,
  lower_max_model_len, swap_vllm_image_latest, swap_engine_sglang, swap_engine_transformers,
  propose_attempts, args_of, vllm, sglang, transformers,
}
use heyi_eval_v.Repair.Failure.{ErrorKind, DeployFailure}

pub data Try : Type 0 where
  deployed : Try
  failed : ErrorKind → Text → Try

-- A proposal of the agent: the engine, the image and the arguments are none where they are null or
-- empty.
pub record AgentProposal : Type 0 where
  pub strategy : Text
  pub engine : Option Text
  pub image : Option Text
  pub vllm_args : Option Args

pub record Env : Type 0 where
  pub try_once : ℕ → Plan → Text → Text → Try
  -- `none` is an exception, or a proposal that is not ok
  pub propose_repair : ℕ → ℕ → DeployFailure → Plan → Option AgentProposal
  pub enable_repair : Bool
  pub agent_enabled : Bool
  pub agent_attempts : ℕ

pub data Label : Type 0 where
  initial : Label
  rule : Strategy → Label
  agent : Text → Label

-- A row of attempts_record.
pub record Attempt : Type 0 where
  pub label : Label
  pub engine : Text
  pub image : Text
  pub plan : Plan
  pub result : Try

-- The variables of the loop; the attempts are newest first.
pub record Session : Type 0 where
  pub plan : Plan
  pub engine : Text
  pub image : Text
  pub failure : DeployFailure
  pub seen : List Strategy
  pub tries : ℕ
  pub attempts : List Attempt

abbrev number : Strategy → ℕ
number add_trust_remote_code = 0
number use_gguf_file_path = 1
number lower_max_model_len = 2
number swap_vllm_image_latest = 3
number swap_engine_sglang = 4
number swap_engine_transformers = 5

abbrev pub strategy_eq : Strategy → Strategy → Bool
strategy_eq a b = number a == number b

abbrev pub member : Strategy → List Strategy → Bool
member s [] = false
member s (x ∷ rest) = strategy_eq x s || member s rest

-- `_ENGINE_IMAGES.get(engine, image)`
abbrev pub engine_image : Text → Text → Text
engine_image engine image =
    if text_eq engine vllm
    then codes "vllm/vllm-openai:v0.11.0"
    else if text_eq engine sglang
    then codes "lmsysorg/sglang:v0.4.6.post1"
    else if text_eq engine transformers
    then codes "heyi-eval/transformers-runner:v10"
    else image

-- `(cand_plan.get("engine") or engine).lower()`
abbrev pub plan_engine : Option Text → Text → Text
plan_engine none engine = lower engine
plan_engine (some []) engine = lower engine
plan_engine (some (c ∷ s)) engine = lower (c ∷ s)

abbrev pub or_image : Option Text → Text → Text
or_image none image = image
or_image (some i) image = i

-- The failure that the next round classifies; a success leaves the old one.
abbrev next_failure : Text → Text → Try → DeployFailure → DeployFailure
next_failure engine image deployed f = f
next_failure engine image (failed kind logs) f = record {
  engine = engine;
  image = image;
  error_kind = kind;
  logs = logs;
}

-- The failure that the agent is asked about next: empty logs leave the old ones.
abbrev replaced : Text → Text → Try → DeployFailure → DeployFailure
replaced engine image deployed f = f
replaced engine image (failed kind []) f = record {
  engine = engine;
  image = image;
  error_kind = kind;
  logs = f.logs;
}
replaced engine image (failed kind (c ∷ logs)) f = record {
  engine = engine;
  image = image;
  error_kind = kind;
  logs = c ∷ logs;
}

abbrev last_result : Session → Try
last_result s = elim s.attempts [ [] ↦ failed ErrorKind.early_exit [] | a ∷ rest ↦ a.result ]

abbrev given {ℓ} : {A : Type ℓ} → Option A → Option A → Option A
given none old = old
given (some a) old = some a

-- `new_args.update(prop.vllm_args)`
abbrev updated : Option Args → Plan → Plan
updated none p = p
updated (some a) p =
    let old = args_of p in
    record p {
      vllm_args = some (record {
        trust_remote_code = given a.trust_remote_code old.trust_remote_code;
        max_model_len = given a.max_model_len old.max_model_len;
        model_path_override = given a.model_path_override old.model_path_override;
        others = a.others ++ old.others;
      });
    }

abbrev with_engine : Option Text → Plan → Plan
with_engine none p = p
with_engine (some e) p = record p { engine = some e }

-- One call of `_try_once`, with its row and the update of the plan, the engine and the image.
pub attempt : Env → Label → Plan → Text → Text → Session → Session
attempt env label plan engine image s =
    let r = env.try_once s.tries plan image engine in
    record s {
      plan = plan;
      engine = engine;
      image = image;
      tries = s.tries + 1;
      attempts =
          record { label = label; engine = engine; image = image; plan = plan; result = r }
          ∷ s.attempts;
    }

-- A round of the inner loop.
pub apply : Env → StrategyResult → Session → Session
unfolding attempt
apply env p s =
    let engine = plan_engine p.new_plan.engine s.engine in
    let t =
      attempt env (rule p.name) p.new_plan engine
        (or_image p.new_image (engine_image engine s.image)) s in
    record t {
      seen = p.name ∷ s.seen;
      failure = next_failure engine t.image (last_result t) s.failure;
    }

abbrev pub works : Try → Bool
works deployed = true
works (failed kind logs) = false

abbrev pub last_works : List Attempt → Bool
last_works [] = false
last_works (a ∷ rest) = works a.result

abbrev pub succeeded : Session → Bool
succeeded s = last_works s.attempts

-- The inner loop, up to the first success.
pub try_all : Env → List StrategyResult → Session → Session
try_all env [] s = s
try_all env (p ∷ rest) s =
    let t = apply env p s in let later = try_all env rest t in if succeeded t then t else later

-- The proposals whose strategy has not been tried.
pub fresh : List Strategy → List StrategyResult → List StrategyResult
fresh seen [] = []
fresh seen (p ∷ rest) = let more = fresh seen rest in if member p.name seen then more else p ∷ more

pub data End : Type 0 where
  won nothing_left cut_off : End

-- What a round of the outer loop comes to, once its fresh proposals are known.
pub repair_with : Env → (Session → End × Session) → List StrategyResult → Session → End × Session
repair_with env next [] s = (nothing_left, s)
repair_with env next (p ∷ rest) s =
    let t = try_all env (p ∷ rest) s in if succeeded t then (won, t) else next t

-- The outer loop, with the rounds that are left of max_iterations.
pub repair_rounds : ℕ → Env → Session → End × Session
unfolding repair_with
repair_rounds zero env s = (cut_off, s)
repair_rounds (suc n) env s =
    repair_with env (repair_rounds n env) (fresh s.seen (propose_attempts s.plan s.failure)) s

abbrev pub max_iterations : ℕ
max_iterations = 8

-- The deployment of an agent's proposal.
pub ask : Env → AgentProposal → Session → Session
unfolding attempt
ask env p s =
    let plan = with_engine p.engine (updated p.vllm_args s.plan) in
    let engine = plan_engine plan.engine s.engine in
    let t =
      attempt env (agent p.strategy) plan engine (or_image p.image (engine_image engine s.image))
        s in
    record t { failure = replaced engine t.image (last_result t) s.failure }

-- `_attempt_agent_repair`: `for attempt_i in range(max_attempts)`
pub agent_rounds : ℕ → ℕ → Env → Session → Session
agent_rounds i zero env s = s
agent_rounds i (suc n) env s = elim (env.propose_repair i s.tries s.failure s.plan) [
  | none ↦ agent_rounds (i + 1) n env s
  | some p ↦
      let t = ask env p s in
      let later = agent_rounds (i + 1) n env t in if succeeded t then t else later
]

-- The rule-based repair, and the agent if that fails; the agent is shown the first failure.
pub repair : Env → Session → Session
repair env s =
    let (e, t) = repair_rounds max_iterations env s in
    if succeeded t
    then t
    else if env.agent_enabled
    then agent_rounds 0 env.agent_attempts env (record t { failure = s.failure })
    else t

-- What `execute_deploy` ends with: the engine and the image that serve, or the kind of the error that it
-- raises, which is that of the first attempt; and the rows of the repair.
pub data Outcome : Type 0 where
  serves : Text → Text → Outcome
  raises : ErrorKind → Outcome

abbrev pub repairable : ErrorKind → Bool
repairable ErrorKind.port_in_use = false
repairable _ = true

abbrev pub first_session : Plan → Text → Text → ErrorKind → Text → Session
first_session plan engine image kind logs = record {
  plan = plan;
  engine = engine;
  image = image;
  failure = record { engine = engine; image = image; error_kind = kind; logs = logs };
  seen = [];
  tries = 1;
  attempts =
      record {
        label = initial;
        engine = engine;
        image = image;
        plan = plan;
        result = failed kind logs;
      }
      ∷ [];
}

pub concluded : ErrorKind → Session → Outcome × Option Session
concluded kind t = (if succeeded t then serves t.engine t.image else raises kind, some t)

pub deploy : Env → Plan → Text → Text → Outcome × Option Session
unfolding concluded
deploy env plan engine image = elim (env.try_once 0 plan image engine) [
  | deployed ↦ (serves engine image, none)
  | failed kind logs ↦
      if env.enable_repair && repairable kind
      then concluded kind (repair env (first_session plan engine image kind logs))
      else (raises kind, none)
]
