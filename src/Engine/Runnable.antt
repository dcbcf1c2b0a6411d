-- ===== src/Engine/Runnable.antt =====
-- Which repositories are turned away.
use heyi_eval_v.Prelude.{
  ◌≡◌, refl, Bool, true, false, ◌||◌, ◌&&◌, List, [], ◌∷◌, String, any, all, arith, ◌∙◌, sym,
}
use heyi_eval_v.Engine.{
  answer_by_files, is_runnable_model_repo, has_name, some_suffix, is_mlpackage, chatterbox,
  has_tokenizer, weight_suffixes,
}

-- What the answer comes to.
answer_by_files_lem :
    (a b c d e f t w : Bool)
    → (answer_by_files a b c d e f t w).0 ≡ (a || (b || (c || (d || (e || (f || (t && w)))))))
unfolding answer_by_files
answer_by_files_lem a b c d e f t w = ground arith

abbrev Implies : Bool → Bool → Type 0
Implies a b = a ≡ true → b ≡ true

or_mono : (a b c d : Bool) → Implies a b → Implies c d → Implies (a || c) (b || d)
or_mono true b c d f g e = rw (f refl) refl
or_mono false true c d f g e = refl
or_mono false false c d f g e = g e

and_mono : (a b c d : Bool) → Implies a b → Implies c d → Implies (a && c) (b && d)
and_mono true b c d f g e = rw (f refl) (g e)
and_mono false b c d f g e = absurd (cc e)

module _ (x : String) (l : List String) where
  any-cons : (p : String → Bool) → Implies (any p l) (any p (x ∷ l))
  any-cons p e = ground arith

  suffix-cons : (ss : List String) → Implies (some_suffix ss l) (some_suffix ss (x ∷ l))
  suffix-cons ss e = ground arith

  name-cons : (n : String) → Implies (has_name n l) (has_name n (x ∷ l))
  name-cons n e = ground arith

  tokenizer-cons : Implies (has_tokenizer l) (has_tokenizer (x ∷ l))
  tokenizer-cons =
      or_mono (some_suffix ("tokenizer.json" ∷ "tokenizer.model" ∷ []) l)
        (some_suffix ("tokenizer.json" ∷ "tokenizer.model" ∷ []) (x ∷ l))
        (has_name "tokenizer_config.json" l) (has_name "tokenizer_config.json" (x ∷ l))
        (suffix-cons ("tokenizer.json" ∷ "tokenizer.model" ∷ []))
        (name-cons "tokenizer_config.json")

  fingerprint-cons :
      Implies (all (λ n. has_name n l) chatterbox) (all (λ n. has_name n (x ∷ l)) chatterbox)
  fingerprint-cons =
      and_mono (has_name "conds.pt" l) (has_name "conds.pt" (x ∷ l)) _ _ (name-cons "conds.pt") (
        and_mono (has_name "s3gen.pt" l) (has_name "s3gen.pt" (x ∷ l)) _ _ (name-cons "s3gen.pt") (
          and_mono (has_name "t3_cfg.pt" l) (has_name "t3_cfg.pt" (x ∷ l)) true true
            (name-cons "t3_cfg.pt") (λ e. e)))

-- What makes a repository runnable.
abbrev pub entry_point : List String → Bool
entry_point l =
    has_name "config.json" l
    || (has_name "model_index.json" l
        || (some_suffix (".gguf" ∷ []) l
            || (any is_mlpackage l
                || (some_suffix (".onnx" ∷ []) l
                    || (all (λ n. has_name n l) chatterbox
                        || (has_tokenizer l && some_suffix weight_suffixes l))))))

pub runnable_by :
    (s : String) (rest : List String)
    → (is_runnable_model_repo (s ∷ rest)).0 ≡ entry_point (s ∷ rest)
unfolding is_runnable_model_repo
runnable_by s rest =
    answer_by_files_lem (has_name "config.json" (s ∷ rest)) (has_name "model_index.json" (s ∷ rest))
      (some_suffix (".gguf" ∷ []) (s ∷ rest)) (any is_mlpackage (s ∷ rest))
      (some_suffix (".onnx" ∷ []) (s ∷ rest)) (all (λ n. has_name n (s ∷ rest)) chatterbox)
      (has_tokenizer (s ∷ rest)) (some_suffix weight_suffixes (s ∷ rest))

entry_point-cons : (x : String) (l : List String) → Implies (entry_point l) (entry_point (x ∷ l))
entry_point-cons x l =
    or_mono (has_name "config.json" l) (has_name "config.json" (x ∷ l)) _ _
      (name-cons x l "config.json")
      (or_mono (has_name "model_index.json" l) (has_name "model_index.json" (x ∷ l)) _ _
        (name-cons x l "model_index.json")
        (or_mono (some_suffix (".gguf" ∷ []) l) (some_suffix (".gguf" ∷ []) (x ∷ l)) _ _
          (suffix-cons x l (".gguf" ∷ []))
          (or_mono (any is_mlpackage l) (any is_mlpackage (x ∷ l)) _ _ (any-cons x l is_mlpackage) (
            or_mono (some_suffix (".onnx" ∷ []) l) (some_suffix (".onnx" ∷ []) (x ∷ l)) _ _
              (suffix-cons x l (".onnx" ∷ []))
              (or_mono (all (λ n. has_name n l) chatterbox)
                (all (λ n. has_name n (x ∷ l)) chatterbox) _ _ (fingerprint-cons x l)
                (and_mono (has_tokenizer l) (has_tokenizer (x ∷ l)) (some_suffix weight_suffixes l)
                  (some_suffix weight_suffixes (x ∷ l)) (tokenizer-cons x l)
                  (suffix-cons x l weight_suffixes)))))))

-- More files never turn a model away: what is runnable by the files listed is so with another one.
pub is_runnable_model_repo-cons :
    (x s : String) (rest : List String)
    → (is_runnable_model_repo (s ∷ rest)).0 ≡ true
    → (is_runnable_model_repo (x ∷ s ∷ rest)).0 ≡ true
is_runnable_model_repo-cons x s rest h =
    runnable_by x (s ∷ rest) ∙ entry_point-cons x (s ∷ rest) (sym (runnable_by s rest) ∙ h)
