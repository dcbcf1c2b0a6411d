-- ===== src/Stager.antt =====
-- orchestrator/model_stager.py: whether a directory holds the weights of a model, and what the removal of
-- a partial download frees. A directory is a tree, its entries in the order of `iterdir`; a path that
-- leads nowhere is `none`. Suffixes are compared in lower case, of ASCII.
pub mod Scan
pub mod Complete
pub mod Patterns
pub mod Staging
use heyi_eval_v.Prelude.{
  ℕ, zero, suc, ◌+◌, Bool, true, false, not, ◌&&◌, ◌||◌, Option, none, some, List, [], ◌∷◌, String,
  any, str_eq, ltb, ◌==◌, length, if◌then◌else◌,
}
use heyi_eval_v.Prelude.Codes.{Text, codes, text_eq, lower, after_last, ends_with, any_place}

mutual
  pub data Node : Type 0 where
    -- with its size in bytes
    file : ℕ → Node
    folder : Entries → Node
    -- a directory whose listing is an OSError
    sealed : Node

  pub data Entries : Type 0 where
    end : Entries
    entry : String → Node → Entries → Entries

abbrev pub weight_suffixes : List String
weight_suffixes = ".safetensors" ∷ ".bin" ∷ ".pt" ∷ ".gguf" ∷ ".npz" ∷ ".onnx" ∷ ".pth" ∷ []

abbrev pub weight_dir_suffixes : List String
weight_dir_suffixes = ".mlpackage" ∷ ".mlmodelc" ∷ ".savedmodel" ∷ []

abbrev pub manifest_names : List String
manifest_names =
    "config.json" ∷ "model_index.json" ∷ "preprocessor_config.json" ∷ "generation_config.json"
    ∷ "tokenizer_config.json" ∷ "feature_extractor_config.json" ∷ []

abbrev pub weight_filenames : List String
weight_filenames = "model.safetensors.index.json" ∷ "pytorch_model.bin.index.json" ∷ []

-- Path.suffix: the last dot and what follows it, unless the dot stands first or last.
abbrev suffix_of : ℕ → Option Text → Text
suffix_of n none = []
suffix_of n (some []) = []
suffix_of n (some (c ∷ r)) = if suc (suc (length r)) == n then [] else b'.' ∷ c ∷ r

unfoldable pub suffix : String → Text
unfolding after_last
suffix name = suffix_of (length (codes name)) (after_last (b'.' ∷ []) (codes name))

-- `entry.suffix.lower() in suffixes`
unfoldable pub has_suffix : List String → String → Bool
unfolding suffix
has_suffix suffixes name = any (λ s. text_eq (codes s) (lower (suffix name))) suffixes

abbrev hidden_text : Text → Bool
hidden_text [] = false
hidden_text (c ∷ s) = c == b'.'

-- `name.startswith(".")`
unfoldable pub is_hidden : String → Bool
is_hidden name = hidden_text (codes name)

-- What makes an entry a weight by itself.
abbrev pub is_weight : String → Node → Bool
is_weight name (file n) = has_suffix weight_suffixes name
is_weight name (folder es) = has_suffix weight_dir_suffixes name
is_weight name sealed = has_suffix weight_dir_suffixes name

abbrev pub is_file : Node → Bool
is_file (file n) = true
is_file _ = false

-- The entries of `iterdir`, unless it raises.
abbrev pub listing : Node → Option Entries
listing (folder es) = some es
listing _ = none

-- The stack of directories yet to be looked at, with their depths; its top stands first.
abbrev pub Stack : Type 0
Stack = List (Node × ℕ)

-- A directory is put on the stack if its own entries are within the depth.
abbrev pub pushed : ℕ → ℕ → Node → Stack → Stack
pushed max_depth depth (file n) stack = stack
pushed max_depth depth x stack = if ltb (depth + 1) max_depth then (x, depth + 1) ∷ stack else stack

-- The loop over the entries of one directory; `none` is `return True`.
pub scan_entries : ℕ → ℕ → Entries → Stack → Option Stack
scan_entries max_depth depth end stack = some stack
scan_entries max_depth depth (entry name x rest) stack =
    let skipped = scan_entries max_depth depth rest stack in
    let further = scan_entries max_depth depth rest (pushed max_depth depth x stack) in
    if is_hidden name then skipped else if is_weight name x then none else further

-- `while stack`, with fuel; `none` means that the fuel ran out.
pub scan_stack : ℕ → ℕ → Stack → Option Bool
unfolding scan_entries
scan_stack zero max_depth stack = none
scan_stack (suc fuel) max_depth [] = some false
scan_stack (suc fuel) max_depth ((cur, depth) ∷ stack) = elim (listing cur) [
  | none ↦ scan_stack fuel max_depth stack
  | some es ↦ elim (scan_entries max_depth depth es stack) [
    | none ↦ some true
    | some stack' ↦ scan_stack fuel max_depth stack'
  ]
]

-- The nodes of a tree.
unfoldable mutual
  pub nodes : Node → ℕ
  nodes (file n) = 1
  nodes (folder es) = suc (nodes_in es)
  nodes sealed = 1

  pub nodes_in : Entries → ℕ
  nodes_in end = 0
  nodes_in (entry name x rest) = nodes x + nodes_in rest

abbrev is_found : Option Bool → Bool
is_found none = false
is_found (some b) = b

-- Each round takes one directory off the stack, so the nodes of the tree are fuel enough.
unfoldable pub scan_for_weights : Node → ℕ → Bool
unfolding scan_stack nodes
scan_for_weights d max_depth = is_found (scan_stack (nodes d + 1) max_depth ((d, 0) ∷ []))

pub child : String → Entries → Option Node
child name end = none
child name (entry n x rest) = let later = child name rest in if str_eq n name then some x else later

abbrev pub child_of : String → Option Node → Option Node
child_of name none = none
child_of name (some (folder es)) = child name es
child_of name (some _) = none

-- d / ".cache" / "huggingface" / "download"
abbrev pub download_ledger : Node → Option Node
download_ledger d = child_of "download" (child_of "huggingface" (child_of ".cache" (some d)))

pub some_incomplete : Entries → Bool
unfolding ends_with
some_incomplete end = false
some_incomplete (entry name x rest) =
    ends_with (codes ".incomplete") (codes name) || some_incomplete rest

-- Whether a file of the ledger is half-finished; an OSError counts as none.
abbrev pub incomplete : Option Node → Bool
incomplete (some (folder es)) = some_incomplete es
incomplete _ = false

abbrev pub no_download_ledger : Node → Bool
no_download_ledger d = not (incomplete (download_ledger d))

-- Whether a visible file of the directory has one of the names.
pub has_named : List String → Entries → Bool
unfolding is_hidden
has_named names end = false
has_named names (entry name x rest) =
    (not (is_hidden name) && is_file x && any (str_eq name) names) || has_named names rest

abbrev complete : Bool → Bool → Node → Bool
complete has_weight has_manifest d = has_weight && (has_manifest || no_download_ledger d)

pub has_weight_file : Option Node → Bool
unfolding child some_incomplete has_named
has_weight_file none = false
has_weight_file (some d) = if incomplete (download_ledger d) then false else elim (listing d) [
  | none ↦ false
  | some es ↦
      complete (scan_for_weights d 3 || has_named weight_filenames es) (has_named manifest_names es)
        d
]

-- The bytes of the files under a node whose names pass the test.
unfoldable mutual
  pub bytes_under : (String → Bool) → Node → ℕ
  bytes_under counts (file n) = 0
  bytes_under counts (folder es) = bytes_in counts es
  bytes_under counts sealed = 0

  pub bytes_in : (String → Bool) → Entries → ℕ
  bytes_in counts end = 0
  bytes_in counts (entry name x rest) =
      bytes_of counts name x + bytes_under counts x + bytes_in counts rest

  pub bytes_of : (String → Bool) → String → Node → ℕ
  bytes_of counts name (file n) = if counts name then n else 0
  bytes_of counts name (folder es) = 0
  bytes_of counts name sealed = 0

-- `sum(f.stat().st_size for f in d.rglob("*") if f.is_file() and not f.name.startswith("."))`
abbrev pub bytes_on_disk : Node → ℕ
bytes_on_disk = bytes_under (λ name. not (is_hidden name))

-- What `rmtree` leaves: nothing, or what stands there after an OSError.
pub data Removal : Type 0 where
  removed : Removal
  left : Option Node → Removal

-- The bytes freed, and what is there afterwards.
pub cleanup_partial : (Node → Removal) → Option Node → ℕ × Option Node
unfolding bytes_under
cleanup_partial rmtree none = (0, none)
cleanup_partial rmtree (some d) = elim (rmtree d) [
  | removed ↦ (bytes_under (λ name. true) d, none)
  | left rest ↦ (0, rest)
]
