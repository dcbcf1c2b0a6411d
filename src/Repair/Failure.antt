-- ===== src/Repair/Failure.antt =====
-- orchestrator/deploy_repair.py: the failure of a deployment and its class, read off the logs.
-- `\s` and str.lower are taken on the characters of ASCII.
use heyi_eval_v.Prelude.{
  ℕ, Bool, false, ◌&&◌, ◌||◌, Option, none, some, [], ◌∷◌, String, ◌==◌, if◌then◌else◌,
}
use heyi_eval_v.Prelude.Codes.{
  Text, codes, after, starts_with, is_some, any_place, contains, lower, is_space,
}

-- The kinds that an attempt to deploy fails with.
pub data ErrorKind : Type 0 where
  early_exit image_pull docker_api port_in_use inference_broken : ErrorKind

pub data FailureClass : Type 0 where
  image_pull port_in_use inference_not_implemented inference_other_5xx : FailureClass
  gguf_needs_file_path model_type_unknown trust_remote_code_required oom : FailureClass
  missing_dep cuda_arch_mismatch unsupported_dtype other_early_exit : FailureClass

pub record DeployFailure : Type 0 where
  pub engine : Text
  pub image : Text
  pub error_kind : ErrorKind
  pub logs : Text

abbrev has : String → Text → Bool
has needle s = contains (codes needle) s

-- `[^q]*q`, and what follows it.
until : ℕ → Text → Option Text
until q [] = none
until q (c ∷ s) = if c == q then some s else until q s

-- `[^q]+q`
quoted : ℕ → Text → Option Text
unfolding until
quoted q [] = none
quoted q (c ∷ s) = if c == q then none else until q s

abbrev then_test : Option Text → (Text → Bool) → Bool
then_test none f = false
then_test (some s) f = f s

-- r"model type `[^`]+` but [Tt]ransformers does not recognize"
type_unknown : Text → Bool
unfolding quoted any_place
type_unknown = any_place (λ t. then_test (after (codes "model type `") t) (λ u.
    then_test (quoted 96 u) (λ v.
      starts_with (codes " but Transformers does not recognize") v
      || starts_with (codes " but transformers does not recognize") v)))

drop_spaces : Text → Text
drop_spaces [] = []
drop_spaces (c ∷ s) = if is_space c then drop_spaces s else c ∷ s

-- r"signal\s*9"
signal_nine : Text → Bool
unfolding drop_spaces any_place
signal_nine =
    any_place
      (λ t. then_test (after (codes "signal") t) (λ u. starts_with (codes "9") (drop_spaces u)))

-- r"No module named '[^']+'"
no_module : Text → Bool
unfolding quoted any_place
no_module =
    any_place (λ t. then_test (after (codes "No module named '") t) (λ u. is_some (quoted 39 u)))

line : Text → Text
line [] = []
line (c ∷ s) = if c == b'\n' then [] else c ∷ line s

-- r"CUDA error.*no kernel image"
no_kernel : Text → Bool
unfolding line any_place
no_kernel =
    any_place (λ t. then_test (after (codes "CUDA error") t) (λ u. has "no kernel image" (line u)))

out_of_memory : Text → Bool
unfolding signal_nine
out_of_memory s =
    has "OutOfMemoryError" s
    || has "CUDA out of memory" s
    || signal_nine s
    || has "SIGKILL" s
    || has "return code -9" s
    || has "exit code 137" s

-- The classes that are told from the logs alone, in the order of the tests.
by_logs : Text → FailureClass
unfolding type_unknown out_of_memory no_module no_kernel
by_logs s =
    if has "For GGUF:" s && has "local path of the GGUF checkpoint" s
    then FailureClass.gguf_needs_file_path
    else if type_unknown s || has "Unrecognized configuration class" s
    then FailureClass.model_type_unknown
    else if has "trust_remote_code" s
        && (has "must be True" s || has "must pass" s || has "--trust-remote-code" s)
    then FailureClass.trust_remote_code_required
    else if out_of_memory s
    then FailureClass.oom
    else if has "ModuleNotFoundError" s || no_module s
    then FailureClass.missing_dep
    else if no_kernel s || has "compute capability" s
    then FailureClass.cuda_arch_mismatch
    else if has "Unsupported dtype" s || has "Unsupported data type" s
    then FailureClass.unsupported_dtype
    else FailureClass.other_early_exit

class_of : ErrorKind → Text → FailureClass
unfolding by_logs
class_of ErrorKind.image_pull s = FailureClass.image_pull
class_of ErrorKind.port_in_use s = FailureClass.port_in_use
class_of ErrorKind.inference_broken s =
    if has "501" s || has "NotImplementedError" s || has "not implemented" (lower s)
    then FailureClass.inference_not_implemented
    else FailureClass.inference_other_5xx
class_of ErrorKind.early_exit s = by_logs s
class_of ErrorKind.docker_api s = by_logs s

unfoldable pub classify : DeployFailure → FailureClass
unfolding class_of
classify f = class_of f.error_kind f.logs
