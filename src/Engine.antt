-- ===== src/Engine.antt =====
-- orchestrator/stages.py: the choice of an inference engine for a model, by what is known of it.
-- Texts are compared as code points, in lower case of ASCII. What `re.findall` finds in a text (numbers
-- followed by a b or a t) is an argument, with the numbers in millionths.
pub mod Runnable
pub mod Entry
pub mod Select
use heyi_eval_v.Prelude.{
  ℕ, ◌+◌, ◌*◌, max, Bool, true, false, not, ◌&&◌, ◌||◌, Option, none, some, List, [], ◌∷◌, ◌++◌,
  map, String, any, all, leb, ltb, ◌==◌, if◌then◌else◌,
}
use heyi_eval_v.Prelude.Codes.{
  Text, codes, text_eq, lower, strip, ends_with, contains, after, after_last,
}

-- Python's `t in (...)`, for a text and some literals.
abbrev pub one_of : Text → List String → Bool
one_of t names = any (λ n. text_eq (codes n) t) names

-- Path(s).name: what follows the last slash, slashes at the end aside.
abbrev drop_slash : ℕ → Text → Text
drop_slash c [] = if c == b'/' then [] else c ∷ []
drop_slash c (d ∷ s) = c ∷ d ∷ s

without_slashes : Text → Text
without_slashes [] = []
without_slashes (c ∷ s) = drop_slash c (without_slashes s)

abbrev last_part : Text → Option Text → Text
last_part s none = s
last_part s (some t) = t

unfoldable pub path_name : String → Text
unfolding without_slashes after_last
path_name s = let t = without_slashes (codes s) in last_part t (after_last (b'/' ∷ []) t)

abbrev pub some_name : (Text → Bool) → List String → Bool
some_name test siblings = any (λ s. test (lower (path_name s))) siblings

abbrev pub has_name : String → List String → Bool
has_name n siblings = some_name (text_eq (codes n)) siblings

-- Whether some name ends in one of the suffixes.
abbrev pub some_suffix : List String → List String → Bool
some_suffix suffixes siblings = some_name (λ t. any (λ x. ends_with (codes x) t) suffixes) siblings

abbrev pub is_mlpackage : String → Bool
is_mlpackage s =
    let p = lower (codes s) in contains (codes ".mlpackage/") p || ends_with (codes ".mlpackage") p

abbrev pub chatterbox : List String
chatterbox = "conds.pt" ∷ "s3gen.pt" ∷ "t3_cfg.pt" ∷ []

abbrev pub has_tokenizer : List String → Bool
has_tokenizer siblings =
    some_suffix ("tokenizer.json" ∷ "tokenizer.model" ∷ []) siblings
    || has_name "tokenizer_config.json" siblings

abbrev pub weight_suffixes : List String
weight_suffixes = ".safetensors" ∷ ".bin" ∷ ".pth" ∷ ".pt" ∷ ".ckpt" ∷ ".msgpack" ∷ []

-- The answer, by what is among the files: config.json, model_index.json, a .gguf, a .mlpackage, an .onnx, the
-- files of chatterbox, a tokenizer, a weight.
unfoldable pub answer_by_files :
    Bool → Bool → Bool → Bool → Bool → Bool → Bool → Bool → Bool × String
answer_by_files config index gguf mlpackage onnx fingerprint tokenizer weight =
    if config
    then (true, "has config.json")
    else if index
    then (true, "has model_index.json (diffusers)")
    else if gguf
    then (true, "has .gguf")
    else if mlpackage
    then (true, "has .mlpackage (CoreML)")
    else if onnx
    then (true, "has .onnx")
    else if fingerprint
    then (true, "chatterbox fingerprint")
    else if tokenizer && weight
    then (true, "has tokenizer + weight (bespoke layout)")
    else if weight
    then (false, "weight files present but no config/tokenizer/manifest")
    else (false, "no weight files in repo")

unfoldable pub is_runnable_model_repo : List String → Bool × String
unfolding answer_by_files
is_runnable_model_repo [] = (true, "no siblings list available")
is_runnable_model_repo (s ∷ rest) =
    let siblings = s ∷ rest in
    answer_by_files (has_name "config.json" siblings) (has_name "model_index.json" siblings)
      (some_suffix (".gguf" ∷ []) siblings) (any is_mlpackage siblings)
      (some_suffix (".onnx" ∷ []) siblings) (all (λ n. has_name n siblings) chatterbox)
      (has_tokenizer siblings) (some_suffix weight_suffixes siblings)

unfoldable pub pipeline_to_modalities : Text → List String
pipeline_to_modalities tag =
    let t = lower tag in
    if one_of t (
      "text-generation" ∷ "text2text-generation" ∷ "fill-mask" ∷ "question-answering"
      ∷ "summarization" ∷ "translation" ∷ [])
    then "text" ∷ []
    else if one_of t ("text-to-image" ∷ "image-to-image" ∷ "inpainting" ∷ [])
    then "image" ∷ []
    else if one_of t ("text-to-video" ∷ "image-to-video" ∷ "video-to-video" ∷ [])
    then "video" ∷ []
    else if one_of t ("automatic-speech-recognition" ∷ "audio-classification" ∷ [])
    then "audio" ∷ []
    else if one_of t ("text-to-speech" ∷ [])
    then "audio" ∷ []
    else if one_of t ("image-to-text" ∷ "image-text-to-text" ∷ "visual-question-answering" ∷ [])
    then "text" ∷ "image" ∷ []
    else if one_of t ("video-to-text" ∷ [])
    then "text" ∷ "video" ∷ []
    else if one_of t ("any-to-any" ∷ [])
    then "text" ∷ "image" ∷ "audio" ∷ []
    else []

-- `license:apache-2.0`; `none` in the list is a tag that is no text.
unfoldable pub license_from_tags : List (Option Text) → Option Text
license_from_tags [] = none
license_from_tags (none ∷ rest) = license_from_tags rest
license_from_tags (some t ∷ rest) = elim (after (codes "license:") t) [
  | none ↦ license_from_tags rest
  | some l ↦ some l
]

pub record Choice : Type 0 where
  pub engine : String
  pub image : String
  pub reason : Text
  pub fallback : Option String

abbrev pub transformers : Text → Choice
transformers reason = record {
  engine = "transformers";
  image = "heyi-eval/transformers-runner:v10";
  reason = reason;
  fallback = none;
}

abbrev pub vllm : Text → Choice
vllm reason = record {
  engine = "vllm";
  image = "vllm/vllm-openai:v0.11.0";
  reason = reason;
  fallback = some "transformers";
}

abbrev pub audio_tags : List String
audio_tags =
    "automatic-speech-recognition" ∷ "audio-classification" ∷ "text-to-speech" ∷ "text-to-audio"
    ∷ []

abbrev pub diffusion_tags : List String
diffusion_tags =
    "text-to-image" ∷ "image-to-image" ∷ "inpainting" ∷ "text-to-video" ∷ "image-to-video"
    ∷ "video-to-video" ∷ []

abbrev pub chat_tags : List String
chat_tags = "text-generation" ∷ "text2text-generation" ∷ "image-text-to-text" ∷ "any-to-any" ∷ []

-- `pt or 'unknown'`
abbrev or_unknown : Text → Text
or_unknown [] = codes "unknown"
or_unknown (c ∷ s) = c ∷ s

abbrev or_empty : Option Text → Text
or_empty none = []
or_empty (some t) = t

unfoldable pub pick_engine : Text → Text → Option Text → Choice
pick_engine modality pipeline_tag library_name =
    let pt = lower (strip pipeline_tag) in
    if one_of pt audio_tags
    then transformers (codes "audio pipeline_tag=" ++ pt)
    else if one_of pt diffusion_tags
    then transformers (codes "diffusion pipeline_tag=" ++ pt)
    else if one_of modality ("text" ∷ "code" ∷ []) || one_of pt chat_tags
    then vllm (codes "text-generation family")
    else if one_of (lower (or_empty library_name)) ("diffusers" ∷ "sentence-transformers" ∷ [])
    then transformers (codes "library=" ++ or_empty library_name)
    else if one_of modality ("audio" ∷ [])
    then transformers (codes "audio modality (pipeline_tag=" ++ (or_unknown pt ++ codes ")"))
    else vllm (
        codes "default (modality="
        ++ (modality ++ (codes ", pipeline_tag=" ++ (or_unknown pt ++ codes ")"))))

-- What `re.findall` finds: a number in millionths, and whether its unit is t.
abbrev pub Sizes : Type 0
Sizes = Text → List (ℕ × Bool)

abbrev in_billions : ℕ × Bool → ℕ
in_billions (n, t) = if t then 1000 * n else n

abbrev larger : ℕ → Option ℕ → ℕ
larger n none = n
larger n (some m) = max n m

-- The largest magnitude, in millionths of a billion.
pub largest : List (ℕ × Bool) → Option ℕ
largest [] = none
largest (x ∷ rest) = some (larger (in_billions x) (largest rest))

pub record Hint : Type 0 where
  pub max_model_len : Option ℕ
  pub tensor_parallel_size : Option ℕ

abbrev pub is_given : Option Text → Bool
is_given none = false
is_given (some []) = false
is_given (some (c ∷ s)) = true

-- 65 and 28 billion parameters
abbrev pub tiers : ℕ → ℕ
tiers b = if leb 65000000 b then 4 else if leb 28000000 b then 2 else 1

abbrev min_len : ℕ → ℕ
min_len n = if ltb n 32768 then n else 32768

abbrev model_len : Option ℕ → Option ℕ
model_len none = none
model_len (some n) = if n == 0 then none else some (min_len n)

-- The size in the parameter count, or else in the model's id.
abbrev pub size_of : Sizes → Option Text → Option Text → Option ℕ
size_of sizes param_count hf_id = elim (largest (sizes (lower (or_empty param_count)))) [
  | some b ↦ some b
  | none ↦ largest (sizes (lower (or_empty hf_id)))
]

unfoldable pub vllm_args_hint : Sizes → Option ℕ → Option Text → Option Text → Hint
unfolding largest
vllm_args_hint sizes context_length param_count hf_id = record {
  max_model_len = model_len context_length;
  tensor_parallel_size = elim (size_of sizes param_count hf_id) [
    | some b ↦ some (tiers b)
    | none ↦ if is_given param_count || is_given hf_id then some 1 else none
  ];
}
