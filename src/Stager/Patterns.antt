-- ===== src/Stager/Patterns.antt =====
-- orchestrator/model_stager.py: which files of a repository are downloaded, and how large they are taken
-- to be. The answer of the hub comes with the types that it has; `fnmatch` is an argument, and so is the
-- number of bytes that a text like "7B" stands for by the regular expression of the fallback.
use heyi_eval_v.Prelude.{
  ℕ, ◌+◌, ◌/◌, max, Bool, true, false, ◌||◌, Option, none, some, List, [], ◌∷◌, String, any, leb,
  ◌==◌, length, if◌then◌else◌,
}
use heyi_eval_v.Prelude.Codes.{Text, codes, text_eq, lower, ends_with, contains}

-- A sibling that is a dictionary; its "lfs" may be one with a size or without.
pub record Sibling : Type 0 where
  pub rfilename : Option String
  pub path : Option String
  pub size : Option ℕ
  pub lfs : Option (Option ℕ)

pub record HfInfo : Type 0 where
  pub used_storage : Option ℕ
  pub old_used_storage : Option ℕ
  -- the total of "safetensors", where that is a dictionary
  pub safetensors : Option (Option ℕ)
  pub library_name : Option String
  -- `none` is an entry that is no dictionary
  pub siblings : List (Option Sibling)

pub record Metadata : Type 0 where
  pub hf_info : HfInfo
  pub param_count : Option String
  pub hf_id : Option String

-- Python's `a or b` where a false value is 0 or none.
abbrev or_number : Option ℕ → Option ℕ → Option ℕ
or_number none b = b
or_number (some n) b = if n == 0 then b else some n

abbrev or_empty : Option String → String
or_empty none = ""
or_empty (some s) = s

abbrev or_name : Option String → Option String → String
or_name none b = or_empty b
or_name (some String.[]) b = or_empty b
or_name (some s) b = s

-- `isinstance(n, int) and n > 0`
abbrev positive : Option ℕ → Option ℕ
positive none = none
positive (some n) = if n == 0 then none else some n

abbrev flat : Option (Option ℕ) → Option ℕ
flat none = none
flat (some o) = o

-- `s.get("size") or s.get("lfs", {}).get("size") if isinstance(s.get("lfs"), dict) else s.get("size")`
abbrev pub sibling_size : Sibling → Option ℕ
sibling_size s = elim s.lfs [ none ↦ positive s.size | some o ↦ positive (or_number s.size o) ]

-- The download takes the files that match a pattern, or all of them.
abbrev pub allowed : (String → String → Bool) → Option (List String) → String → Bool
allowed fnmatch none name = true
allowed fnmatch (some []) name = true
allowed fnmatch (some patterns) name = any (fnmatch name) patterns

-- The sum over the siblings that count, and how many they are.
pub sum_siblings : (String → String → Bool) → Option (List String) → List (Option Sibling) → ℕ × ℕ
sum_siblings fnmatch patterns [] = (0, 0)
sum_siblings fnmatch patterns (none ∷ rest) = sum_siblings fnmatch patterns rest
sum_siblings fnmatch patterns (some s ∷ rest) =
    let later = sum_siblings fnmatch patterns rest in
    elim (sibling_size s) [
      | none ↦ later
      | some n ↦
          if allowed fnmatch patterns (or_name s.rfilename s.path)
          then (n + later.0, later.1 + 1)
          else later
    ]

-- `not allow_patterns`
abbrev whole_repo : Option (List String) → Bool
whole_repo none = true
whole_repo (some []) = true
whole_repo (some (p ∷ rest)) = false

abbrev if_whole : Option (List String) → Option ℕ → Option ℕ
if_whole patterns o = if whole_repo patterns then positive o else none

abbrev or_else_number : Option ℕ → Option ℕ → Option ℕ
or_else_number none b = b
or_else_number (some n) b = some n

abbrev if_matched : ℕ × ℕ → Option ℕ
if_matched (total, matched) = if matched == 0 then none else some total

unfoldable pub estimate_size_bytes :
    (String → String → Bool) → (Text → Option ℕ) → Metadata → Option (List String) → Option ℕ
unfolding sum_siblings
estimate_size_bytes fnmatch fp16_bytes m patterns =
    let hf = m.hf_info in
    or_else_number (if_whole patterns (or_number hf.used_storage hf.old_used_storage)) (
      or_else_number (if_whole patterns (flat hf.safetensors)) (
        or_else_number (if_matched (sum_siblings fnmatch patterns hf.siblings)) (
          or_else_number (fp16_bytes (lower (codes (or_empty m.param_count))))
            (fp16_bytes (lower (codes (or_empty m.hf_id)))))))

abbrev is_gguf_file : Option Sibling → Bool
is_gguf_file none = false
is_gguf_file (some s) = ends_with (codes ".gguf") (lower (codes (or_empty s.rfilename)))

pub gguf_count : List (Option Sibling) → ℕ
unfolding ends_with
gguf_count [] = 0
gguf_count (s ∷ rest) = (if is_gguf_file s then 1 else 0) + gguf_count rest

-- `sib and gguf_count >= max(1, len(sib) // 2)`
abbrev mostly_gguf : List (Option Sibling) → Bool
mostly_gguf sib = leb (max 1 (length sib / 2)) (gguf_count sib)

unfoldable pub looks_like_gguf_repo : String → Metadata → Bool
unfolding gguf_count ends_with contains
looks_like_gguf_repo hf_id m =
    let name = lower (codes hf_id) in
    ends_with (codes "-gguf") name
    || contains (codes "-gguf-") name
    || ends_with (codes ".gguf") name
    || text_eq (lower (codes (or_empty m.hf_info.library_name))) (codes "gguf")
    || mostly_gguf m.hf_info.siblings

abbrev pub gguf_patterns : List String
gguf_patterns = "*Q4_K_M*.gguf" ∷ "*.json" ∷ "*.md" ∷ "tokenizer*" ∷ []

unfoldable pub compute_allow_patterns : String → Metadata → Option (List String)
unfolding looks_like_gguf_repo
compute_allow_patterns hf_id m = if looks_like_gguf_repo hf_id m then some gguf_patterns else none
