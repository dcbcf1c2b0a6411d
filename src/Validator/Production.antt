-- ===== src/Validator/Production.antt =====
-- orchestrator/validator.py: assert_invariants, the look at the production engine between two stages.
-- `int` is an argument, and so is what docker and nvidia-smi print: none if the call raises, which nothing
-- catches.
mod Samples
use heyi_eval_v.Prelude.{
  Bool, true, false, not, ◌&&◌, Option, none, some, List, [], ◌∷◌, String, str_eq, any, ltb, ◌==◌,
}
use heyi_eval_v.Prelude.Codes.{Text, before_first, after_first, contains, strip}
use heyi_eval_v.Prelude.Int.{ℤ, pos, negsuc}
use heyi_eval_v.Validator.{Checked, valid, crashes, ◌>>=◌, refuse_if, not_running, gpu_lost}

abbrev pub lt : ℤ → ℤ → Bool
lt (pos m) (pos n) = ltb m n
lt (pos m) (negsuc n) = false
lt (negsuc m) (pos n) = true
lt (negsuc m) (negsuc n) = ltb n m

abbrev pub same : ℤ → ℤ → Bool
same (pos m) (pos n) = m == n
same (negsuc m) (negsuc n) = m == n
same _ _ = false

abbrev comma : Text
comma = b',' ∷ []

-- `idx_s, mem_s = line.split(",")`, which takes two parts and no more.
abbrev pub two_parts : Text → Option (Text × Text)
two_parts line = elim (before_first comma line) [
  | none ↦ none
  | some first ↦ elim (after_first comma line) [
    | none ↦ none
    | some second ↦ elim (contains comma second) [ true ↦ none | false ↦ some (first, second) ]
  ]
]

-- The place and the memory of a line; a ValueError passes the line over.
abbrev pub reading : (Text → Option ℤ) → Text → Option (ℤ × ℤ)
reading int line = elim (two_parts line) [
  | none ↦ none
  | some (idx_s, mem_s) ↦ elim (int (strip idx_s)) [
    | none ↦ none
    | some idx ↦ elim (int (strip mem_s)) [ none ↦ none | some mem ↦ some (idx, mem) ]
  ]
]

abbrev pub check_reading : List ℤ → ℤ → Option (ℤ × ℤ) → Checked (Unit {0})
check_reading gpus least none = valid tt
check_reading gpus least (some (idx, mem)) =
    refuse_if (any (same idx) gpus && lt mem least) gpu_lost

pub check_lines : (Text → Option ℤ) → List ℤ → ℤ → List Text → Checked (Unit {0})
check_lines int gpus least [] = valid tt
check_lines int gpus least (line ∷ rest) =
    check_reading gpus least (reading int line) >>= λ _. check_lines int gpus least rest

-- What a call prints.
abbrev pub printed {ℓ} : {A : Type ℓ} → Option A → Checked A
printed none = crashes
printed (some a) = valid a

-- `minimax_gpus` and `expected_minimax_gpu_min_mib`, the old names, go before the new ones.
abbrev pub renamed_to {ℓ} : {A : Type ℓ} → Option A → A → A
renamed_to none new = new
renamed_to (some old) new = old

pub assert_invariants :
    (Text → Option ℤ)
    → List ℤ
    → ℤ
    → Option (List ℤ)
    → Option ℤ
    → Option String
    → Option (List Text)
    → Checked (Unit {0})
unfolding check_lines
assert_invariants int prod_engine_gpus expected_prod_gpu_min_mib minimax_gpus
      expected_minimax_gpu_min_mib inspected listed =
    do
      status ← printed inspected
      _ ← refuse_if (not (str_eq status "running")) not_running
      lines ← printed listed
      check_lines int (renamed_to minimax_gpus prod_engine_gpus)
          (renamed_to expected_minimax_gpu_min_mib expected_prod_gpu_min_mib) lines
