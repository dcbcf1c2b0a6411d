-- ===== src/Validator.antt =====
-- orchestrator/validator.py: the checks of the artifacts that a stage leaves in the run's directory.
-- A file is what reading it gives: it may be missing, or not JSON. A schema, if there is one, says whether a
-- document meets it; what docker prints comes stripped, or not at all if the call raises. Numbers are
-- whole.
pub mod Checks
pub mod Sound
pub mod Production
mod Samples
use heyi_eval_v.Prelude.{
  ℕ, zero, suc, ◌+◌, Bool, true, false, not, ◌&&◌, Option, none, some, String, str_eq, ltb,
  if◌then◌else◌,
}
use heyi_eval_v.Prelude.Codes.{codes, starts_with, contains}
use heyi_eval_v.Prelude.Int.{ℤ, pos}

mutual
  pub data Value : Type 0 where
    null : Value
    boolean : Bool → Value
    number : ℤ → Value
    text : String → Value
    array : Items → Value
    object : Fields → Value

  pub data Items : Type 0 where
    nil : Items
    cons : Value → Items → Items

  -- A dictionary, each key once.
  pub data Fields : Type 0 where
    end : Fields
    field : String → Value → Fields → Fields

pub data Violation : Type 0 where
  missing_artifact not_json schema_violation bad_prefix inspect_failed not_running : Violation
  few_results no_pass wrong_stage no_items missing_fields no_summary : Violation
  ps_failed still_there gpu_lost : Violation

-- A ValidationError, or the exception of an operation that does not suit the value.
pub data Checked {ℓ} (A : Type ℓ) : Type ℓ where
  valid : A → Checked A
  invalid : Violation → Checked A
  crashes : Checked A

infixl 5 ◌>>=◌
abbrev pub ◌>>=◌ {ℓ κ} : {A : Type ℓ} {B : Type κ} → Checked A → (A → Checked B) → Checked B
valid a >>= f = f a
invalid e >>= f = invalid e
crashes >>= f = crashes

-- `if test: raise ValidationError(...)`
abbrev pub refuse_if : Bool → Violation → Checked (Unit {0})
refuse_if true e = invalid e
refuse_if false e = valid tt

pub value_of : String → Fields → Option Value
value_of k end = none
value_of k (field x v rest) = let found = value_of k rest in if str_eq x k then some v else found

abbrev pub or_default : Option Value → Value → Value
or_default none default = default
or_default (some v) default = v

-- `payload.get(key, default)`
abbrev pub get : Value → String → Value → Checked Value
get (object fs) k default = valid (or_default (value_of k fs) default)
get _ k default = crashes

pub size : Items → ℕ
size nil = 0
size (cons v rest) = size rest + 1

abbrev pub require_file : Option (Option Value) → Checked Value
require_file none = invalid missing_artifact
require_file (some none) = invalid not_json
require_file (some (some v)) = valid v

abbrev pub validate_schema : Option (Value → Bool) → Value → Checked (Unit {0})
validate_schema none v = valid tt
validate_schema (some meets) v = refuse_if (not (meets v)) schema_violation

-- `results` when it is a list of so many items at least.
abbrev pub list_of : ℕ → Violation → Value → Checked Items
list_of n e (array vs) = if ltb (size vs) n then invalid e else valid vs
list_of n e _ = invalid e

-- `key in items`
pub is_item : String → Items → Bool
is_item k nil = false
is_item k (cons (text s) rest) = let found = is_item k rest in if str_eq s k then true else found
is_item k (cons _ rest) = is_item k rest

-- `isinstance(r["pass"], bool)`, where the key is there
abbrev pub pass_of : Option Value → Checked (Unit {0})
pass_of (some (boolean b)) = valid tt
pass_of _ = invalid no_pass

-- `"pass" not in r or not isinstance(r["pass"], bool)`: a list or a text may well have "pass" in it, but
-- has no item of that name.
pub check_pass : Value → Checked (Unit {0})
unfolding value_of is_item contains
check_pass (object fs) = pass_of (value_of "pass" fs)
check_pass (array vs) = if is_item "pass" vs then crashes else invalid no_pass
check_pass (text s) = if contains (codes "pass") (codes s) then crashes else invalid no_pass
check_pass _ = crashes

pub check_each : (Value → Checked (Unit {0})) → Items → Checked (Unit {0})
check_each f nil = valid tt
check_each f (cons v rest) = f v >>= λ _. check_each f rest

pub validate_capability : Option (Value → Bool) → ℕ → Option (Option Value) → Checked Value
unfolding check_pass check_each
validate_capability schema min_results file = do
  payload ← require_file file
  _ ← validate_schema schema payload
  found ← get payload "results" (array nil)
  results ← list_of min_results few_results found
  _ ← check_each check_pass results
  valid payload

abbrev pub has_key : String → Fields → Bool
has_key k fs = elim (value_of k fs) [ none ↦ false | some v ↦ true ]

-- `{"id", "prompt", "actual", "rationale"} - set(it.keys())` is empty
abbrev pub has_required : Fields → Bool
has_required fs =
    has_key "id" fs && has_key "prompt" fs && has_key "actual" fs && has_key "rationale" fs

pub check_item : Value → Checked (Unit {0})
unfolding value_of
check_item (object fs) = refuse_if (not (has_required fs)) missing_fields
check_item _ = crashes

-- What `if value` sees.
abbrev pub is_true : Value → Bool
is_true null = false
is_true (boolean b) = b
is_true (number (pos zero)) = false
is_true (number _) = true
is_true (text String.[]) = false
is_true (text _) = true
is_true (array nil) = false
is_true (array _) = true
is_true (object end) = false
is_true (object _) = true

pub check_summary : Bool → Value → Checked (Unit {0})
check_summary false payload = valid tt
check_summary true payload = do
  summary ← get payload "summary" null
  refuse_if (not (is_true summary)) no_summary

pub validate_showcase : Option (Value → Bool) → Bool → Option (Option Value) → Checked Value
unfolding check_item check_each check_summary
validate_showcase schema require_summary file = do
  payload ← require_file file
  _ ← validate_schema schema payload
  found ← get payload "items" (array nil)
  items ← list_of 1 no_items found
  _ ← check_each check_item items
  _ ← check_summary require_summary payload
  valid payload

abbrev pub is_text : String → Value → Bool
is_text s (text t) = str_eq t s
is_text s _ = false

pub validate_perf_bench : Option (Value → Bool) → Option (Option Value) → Checked Value
validate_perf_bench schema file = do
  payload ← require_file file
  _ ← validate_schema schema payload
  stage ← get payload "stage" null
  _ ← refuse_if (not (is_text "PERF_BENCH" stage)) wrong_stage
  valid payload

-- `container_name.startswith("e9-")`
abbrev pub named : Value → Checked String
named (text s) = if starts_with (codes "e9-") (codes s) then valid s else invalid bad_prefix
named _ = crashes

-- The status that `docker inspect` prints for a name.
abbrev pub check_live : Bool → (String → Option String) → String → Checked (Unit {0})
check_live false inspect name = valid tt
check_live true inspect name = elim (inspect name) [
  | none ↦ invalid inspect_failed
  | some status ↦ refuse_if (not (str_eq status "running")) not_running
]

pub validate_deploy :
    Option (Value → Bool) → Bool → (String → Option String) → Option (Option Value) → Checked Value
validate_deploy schema check_container_live inspect file = do
  payload ← require_file file
  _ ← validate_schema schema payload
  container ← get payload "container_name" (text "")
  name ← named container
  _ ← check_live check_container_live inspect name
  valid payload

-- The ids that `docker ps` lists for the name of the container.
pub validate_cleanup : (String → Option String) → String → Checked (Unit {0})
validate_cleanup listing container = elim (listing container) [
  | none ↦ invalid ps_failed
  | some ids ↦ refuse_if (not (str_eq ids "")) still_there
]
