-- ===== src/Repair.antt =====
-- orchestrator/deploy_repair.py: the strategies that change the plan of a failed deployment.
-- A text is its list of code points. Of a plan, the entries that are read or written have fields; the
-- others are carried along. The notes of a result, which are shown, are left out.
pub mod Failure
pub mod Loop
use heyi_eval_v.Prelude.{
  ℕ, ◌/◌, max, Bool, true, false, not, ◌&&◌, ◌||◌, Option, none, some, List, [], ◌∷◌, ◌++◌, leb,
  ◌==◌, if◌then◌else◌,
}
use heyi_eval_v.Prelude.Int.{ℤ, pos, negsuc}
use heyi_eval_v.Prelude.Codes.{Text, codes, text_eq}
use Failure.{DeployFailure, FailureClass, classify}

-- A value of `trust_remote_code`; a number equals True when it is 1.
pub data Flag : Type 0 where
  boolean : Bool → Flag
  number : ℤ → Flag
  text : Text → Flag
  other : Flag

-- What `int(...)` gives of a value of `max_model_len`, if it does not raise.
pub data Length : Type 0 where
  int : ℤ → Length
  unreadable : Length

pub record Args : Type 0 where
  pub trust_remote_code : Option Flag
  pub max_model_len : Option Length
  pub model_path_override : Option Text
  pub others : List (Text × Text)

pub record Plan : Type 0 where
  pub engine : Option Text
  pub vllm_args : Option Args
  pub gguf_filename_hint : Option Text
  pub others : List (Text × Text)

pub data Strategy : Type 0 where
  add_trust_remote_code use_gguf_file_path lower_max_model_len : Strategy
  swap_vllm_image_latest swap_engine_sglang swap_engine_transformers : Strategy

pub record StrategyResult : Type 0 where
  pub name : Strategy
  pub new_plan : Plan
  pub new_image : Option Text

abbrev no_args : Args
no_args = record {
  trust_remote_code = none;
  max_model_len = none;
  model_path_override = none;
  others = [];
}

-- `plan.get("vllm_args") or {}`
abbrev pub args_of : Plan → Args
args_of p = elim p.vllm_args [ none ↦ no_args | some a ↦ a ]

abbrev with_args : Args → Plan → Plan
with_args a p = record p { vllm_args = some a }

abbrev pub is_engine : Text → DeployFailure → Bool
is_engine name f = text_eq f.engine name

abbrev pub vllm : Text
vllm = codes "vllm"

abbrev pub sglang : Text
sglang = codes "sglang"

abbrev pub transformers : Text
transformers = codes "transformers"

abbrev pub accelerated : DeployFailure → Bool
accelerated f = is_engine vllm f || is_engine sglang f

-- `args.get("trust_remote_code") in (True, "true", "True")`
abbrev is_true : Flag → Bool
is_true (boolean b) = b
is_true (number (pos n)) = n == 1
is_true (number (negsuc n)) = false
is_true (text t) = text_eq t (codes "true") || text_eq t (codes "True")
is_true other = false

abbrev is_trusted : Args → Bool
is_trusted a = elim a.trust_remote_code [ none ↦ false | some f ↦ is_true f ]

abbrev needs_file : FailureClass → Bool
needs_file FailureClass.gguf_needs_file_path = true
needs_file _ = false

trust_remote_code : Plan → DeployFailure → Option Plan
trust_remote_code p f =
    let a = args_of p in
    if not (accelerated f)
    then none
    else if needs_file (classify f)
    then none
    else if is_trusted a
    then none
    else some (with_args (record a { trust_remote_code = some (boolean true) }) p)

abbrev oom_like : FailureClass → Bool
oom_like FailureClass.oom = true
oom_like FailureClass.other_early_exit = true
oom_like _ = false

-- The length that follows an old one, where there is headroom.
pub next_length : ℤ → Option ℕ
next_length (negsuc n) = none
next_length (pos n) = if leb n 1024 then none else some (max 1024 (n / 2))

shorter : Option Length → Option ℕ
unfolding next_length
shorter none = some 4096
shorter (some (int n)) = next_length n
shorter (some unreadable) = next_length (pos 8192)

shorten : Plan → DeployFailure → Option Plan
unfolding shorter
shorten p f =
    let a = args_of p in
    if not (accelerated f)
    then none
    else if not (oom_like (classify f))
    then none
    else elim (shorter a.max_model_len) [
      | none ↦ none
      | some n ↦ some (with_args (record a { max_model_len = some (int (pos n)) }) p)
    ]

abbrev pub latest_image : Text
latest_image = codes "vllm/vllm-openai:latest"

abbrev inference_class : FailureClass → Bool
inference_class FailureClass.inference_not_implemented = true
inference_class FailureClass.inference_other_5xx = true
inference_class _ = false

abbrev fixed_by_image : FailureClass → Bool
fixed_by_image FailureClass.model_type_unknown = true
fixed_by_image FailureClass.cuda_arch_mismatch = true
fixed_by_image FailureClass.missing_dep = true
fixed_by_image FailureClass.other_early_exit = true
fixed_by_image _ = false

latest_vllm : Plan → DeployFailure → Option Plan
latest_vllm p f =
    let c = classify f in
    if text_eq f.image latest_image && is_engine vllm f
    then none
    else if not (fixed_by_image c || inference_class c)
    then none
    else if fixed_by_image c && not (is_engine vllm f)
    then none
    else some (record p { engine = some vllm })

abbrev fixed_by_engine : FailureClass → Bool
fixed_by_engine FailureClass.model_type_unknown = true
fixed_by_engine FailureClass.unsupported_dtype = true
fixed_by_engine FailureClass.other_early_exit = true
fixed_by_engine c = inference_class c

to_sglang : Plan → DeployFailure → Option Plan
to_sglang p f =
    if is_engine sglang f
    then none
    else if not (fixed_by_engine (classify f))
    then none
    else some (record p { engine = some sglang })

-- `hint.lstrip('/')`
abbrev no_slash : Text → Text
no_slash [] = []
no_slash (c ∷ s) = if c == b'/' then no_slash s else c ∷ s

-- `if hint:` takes an empty name for none.
abbrev gguf_target : Option Text → Text
gguf_target none = codes "/model/*Q4_K_M*.gguf"
gguf_target (some []) = codes "/model/*Q4_K_M*.gguf"
gguf_target (some (c ∷ s)) = codes "/model/" ++ no_slash (c ∷ s)

gguf_file : Plan → DeployFailure → Option Plan
gguf_file p f =
    if not (is_engine vllm f)
    then none
    else if not (needs_file (classify f))
    then none
    else some (
        with_args
          (record (args_of p) { model_path_override = some (gguf_target p.gguf_filename_hint) }) p)

to_transformers : Plan → DeployFailure → Option Plan
to_transformers p f = if accelerated f then some (record p { engine = some transformers }) else none

-- The new plan of a strategy, if it applies.
pub strategy : Strategy → Plan → DeployFailure → Option Plan
unfolding trust_remote_code shorten latest_vllm to_sglang gguf_file to_transformers
strategy add_trust_remote_code = trust_remote_code
strategy use_gguf_file_path = gguf_file
strategy lower_max_model_len = shorten
strategy swap_vllm_image_latest = latest_vllm
strategy swap_engine_sglang = to_sglang
strategy swap_engine_transformers = to_transformers

abbrev pub image_of : Strategy → Option Text
image_of swap_vllm_image_latest = some latest_image
image_of _ = none

abbrev pub builtin_strategies : List Strategy
builtin_strategies =
    add_trust_remote_code ∷ use_gguf_file_path ∷ lower_max_model_len ∷ swap_vllm_image_latest
    ∷ swap_engine_sglang ∷ swap_engine_transformers ∷ []

-- The strategies that apply, in the order given.
pub propose : List Strategy → Plan → DeployFailure → List StrategyResult
propose [] p f = []
propose (s ∷ rest) p f =
    let more = propose rest p f in
    elim (strategy s p f) [
      | none ↦ more
      | some q ↦ record { name = s; new_plan = q; new_image = image_of s } ∷ more
    ]

abbrev pub propose_attempts : Plan → DeployFailure → List StrategyResult
propose_attempts = propose builtin_strategies
