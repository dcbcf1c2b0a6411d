-- ===== src/Engine/Entry.antt =====
-- What makes a repository runnable, and how many devices a model of a size takes, told apart from the code.
use heyi_eval_v.Prelude.{
  ℕ, ◌≤◌, ◌<◌, ◌≡◌, ◌↔◌, refl, sym, ◌∙◌, ◌⊎◌, inl, inr, Bool, true, false, ◌&&◌, ◌||◌, Option, none,
  some, List, [], ◌∷◌, String, any, all, arith, Bool-cases,
}
use heyi_eval_v.Prelude.Codes.{Text, codes, text_eq, lower, ends_with, contains}
use heyi_eval_v.Engine.{
  is_runnable_model_repo, path_name, has_name, some_suffix, is_mlpackage, chatterbox, has_tokenizer,
  weight_suffixes,
}
use heyi_eval_v.Engine.Runnable.{entry_point, runnable_by}

-- Some file of the list is such.
abbrev pub Some : (String → Type 0) → List String → Type 0
Some P [] = ⊥
Some P (x ∷ rest) = P x ⊎ Some P rest

-- The name of a file in lower case, and what it is or ends in.
abbrev pub base : String → Text
base s = lower (path_name s)

abbrev pub Called : String → String → Type 0
Called n s = text_eq (codes n) (base s) ≡ true

abbrev pub Suffixed : String → String → Type 0
Suffixed x s = ends_with (codes x) (base s) ≡ true

abbrev pub IsPackage : String → Type 0
IsPackage s =
    (contains (codes ".mlpackage/") (lower (codes s)) ≡ true)
    ⊎ (ends_with (codes ".mlpackage") (lower (codes s)) ≡ true)

abbrev pub IsWeight : String → Type 0
IsWeight s =
    Suffixed ".safetensors" s
    ⊎ Suffixed ".bin" s
    ⊎ Suffixed ".pth" s
    ⊎ Suffixed ".pt" s
    ⊎ Suffixed ".ckpt" s
    ⊎ Suffixed ".msgpack" s

abbrev pub IsTokenizer : String → Type 0
IsTokenizer s = Suffixed "tokenizer.json" s ⊎ Suffixed "tokenizer.model" s

abbrev pub HasTokenizer : List String → Type 0
HasTokenizer l = Some IsTokenizer l ⊎ Some (Called "tokenizer_config.json") l

-- The files that an inference engine can start from.
pub data Entry (l : List String) : Type 0 where
  transformers_config : Some (Called "config.json") l → Entry l
  diffusers_index : Some (Called "model_index.json") l → Entry l
  gguf : Some (Suffixed ".gguf") l → Entry l
  coreml : Some IsPackage l → Entry l
  onnx : Some (Suffixed ".onnx") l → Entry l
  chatterbox_files :
      Some (Called "conds.pt") l
      → Some (Called "s3gen.pt") l
      → Some (Called "t3_cfg.pt") l
      → Entry l
  bespoke : HasTokenizer l → Some IsWeight l → Entry l

any-Some :
    (p : String → Bool) (P : String → Type 0) (l : List String)
    → ((s : String) → p s ≡ true → P s)
    → any p l ≡ true
    → Some P l
any-Some p P [] f h = cc
any-Some p P (x ∷ rest) f h = elim (Bool-cases (p x)) [
  | inl y ↦ inl (f x y)
  | inr n ↦ inr (any-Some p P rest f (ground arith))
]

Some-any :
    (p : String → Bool) (P : String → Type 0) (l : List String)
    → ((s : String) → P s → p s ≡ true)
    → Some P l
    → any p l ≡ true
Some-any p P [] f h = absurd h
Some-any p P (x ∷ rest) f (inl h) = rw (f x h) refl
Some-any p P (x ∷ rest) f (inr h) = let e = Some-any p P rest f h in ground arith

-- The way through seven tests, one after the other.
abbrev Ways : (a b c d e f t w : Bool) → Type 0
Ways a b c d e f t w =
    (a ≡ true)
    ⊎ ((b ≡ true)
        ⊎ ((c ≡ true) ⊎ ((d ≡ true) ⊎ ((e ≡ true) ⊎ ((f ≡ true) ⊎ ((t ≡ true) × (w ≡ true)))))))

Ways-iff :
    (a b c d e f t w : Bool)
    → ((a || (b || (c || (d || (e || (f || (t && w))))))) ≡ true) ↔ Ways a b c d e f t w
Ways-iff a b c d e f t w = ((λ h. ground arith), λ h. ground arith)

weighs :
    (a b c d e f : Bool)
    → (a || (b || (c || (d || (e || (f || false)))))) ≡ true
    → (a ≡ true) ⊎ ((b ≡ true) ⊎ ((c ≡ true) ⊎ ((d ≡ true) ⊎ ((e ≡ true) ⊎ (f ≡ true)))))
weighs a b c d e f h = ground arith

called : (n : String) (l : List String) → (has_name n l ≡ true) ↔ Some (Called n) l
called n l = (any-Some _ (Called n) l (λ s e. e), Some-any _ (Called n) l (λ s e. e))

ending : (x : String) (l : List String) → (some_suffix (x ∷ []) l ≡ true) ↔ Some (Suffixed x) l
ending x l = (
  any-Some _ (Suffixed x) l (λ s e. ground arith),
  Some-any _ (Suffixed x) l (λ s e. ground arith),
)

mlpackage : (l : List String) → (any is_mlpackage l ≡ true) ↔ Some IsPackage l
mlpackage l =
    (any-Some _ IsPackage l (λ s e. ground arith), Some-any _ IsPackage l (λ s e. ground arith))

weight : (l : List String) → (some_suffix weight_suffixes l ≡ true) ↔ Some IsWeight l
weight l = (
  any-Some _ IsWeight l (λ s e. weighs _ _ _ _ _ _ e),
  Some-any _ IsWeight l (λ s e. ground arith),
)

tokens :
    (l : List String)
    → (some_suffix ("tokenizer.json" ∷ "tokenizer.model" ∷ []) l ≡ true) ↔ Some IsTokenizer l
tokens l =
    (any-Some _ IsTokenizer l (λ s e. ground arith), Some-any _ IsTokenizer l (λ s e. ground arith))

or_iff : {P Q : Type 0} (a b : Bool) → (a ≡ true) ↔ P → (b ≡ true) ↔ Q → ((a || b) ≡ true) ↔ (P ⊎ Q)
or_iff true b (f, g) (h, k) = ((λ e. inl (f refl)), λ e. refl)
or_iff false b (f, g) (h, k) =
    ((λ e. inr (h e)), λ e. elim e [ inl x ↦ absurd (let e = g x in cc e) | inr x ↦ k x ])

tokenizer : (l : List String) → (has_tokenizer l ≡ true) ↔ HasTokenizer l
tokenizer l = or_iff _ _ (tokens l) (called "tokenizer_config.json" l)

all_three :
    (l : List String)
    → has_name "conds.pt" l ≡ true
    → has_name "s3gen.pt" l ≡ true
    → has_name "t3_cfg.pt" l ≡ true
    → all (λ n. has_name n l) chatterbox ≡ true
all_three l a b c = rw (a, b, c) refl

three_all :
    (l : List String)
    → all (λ n. has_name n l) chatterbox ≡ true
    → (has_name "conds.pt" l ≡ true)
      × ((has_name "s3gen.pt" l ≡ true) × (has_name "t3_cfg.pt" l ≡ true))
three_all l h = ground arith

abbrev Tests : List String → Type 0
Tests l =
    Ways (has_name "config.json" l) (has_name "model_index.json" l) (some_suffix (".gguf" ∷ []) l)
      (any is_mlpackage l) (some_suffix (".onnx" ∷ []) l) (all (λ n. has_name n l) chatterbox)
      (has_tokenizer l) (some_suffix weight_suffixes l)

start_from : (l : List String) → Tests l → Entry l
start_from l (inl a) = transformers_config ((called "config.json" l).0 a)
start_from l (inr (inl a)) = diffusers_index ((called "model_index.json" l).0 a)
start_from l (inr (inr (inl a))) = gguf ((ending ".gguf" l).0 a)
start_from l (inr (inr (inr (inl a)))) = coreml ((mlpackage l).0 a)
start_from l (inr (inr (inr (inr (inl a))))) = onnx ((ending ".onnx" l).0 a)
start_from l (inr (inr (inr (inr (inr (inl a)))))) =
    let (x, (y, z)) = three_all l a in
    chatterbox_files ((called "conds.pt" l).0 x) ((called "s3gen.pt" l).0 y)
      ((called "t3_cfg.pt" l).0 z)
start_from l (inr (inr (inr (inr (inr (inr (a, b))))))) =
    bespoke ((tokenizer l).0 a) ((weight l).0 b)

Tests-of : (l : List String) → Entry l → Tests l
Tests-of l (transformers_config a) = inl ((called "config.json" l).1 a)
Tests-of l (diffusers_index a) = inr (inl ((called "model_index.json" l).1 a))
Tests-of l (gguf a) = inr (inr (inl ((ending ".gguf" l).1 a)))
Tests-of l (coreml a) = inr (inr (inr (inl ((mlpackage l).1 a))))
Tests-of l (onnx a) = inr (inr (inr (inr (inl ((ending ".onnx" l).1 a)))))
Tests-of l (chatterbox_files a b c) = inr (
    inr (
      inr (
        inr (
          inr (
            inl (
              all_three l ((called "conds.pt" l).1 a) ((called "s3gen.pt" l).1 b)
                ((called "t3_cfg.pt" l).1 c)))))))
Tests-of l (bespoke a b) = inr (inr (inr (inr (inr (inr ((tokenizer l).1 a, (weight l).1 b))))))

entry_point_iff : (l : List String) → (entry_point l ≡ true) ↔ Entry l
entry_point_iff l =
    let (f, g) =
      Ways-iff (has_name "config.json" l) (has_name "model_index.json" l)
        (some_suffix (".gguf" ∷ []) l) (any is_mlpackage l) (some_suffix (".onnx" ∷ []) l)
        (all (λ n. has_name n l) chatterbox) (has_tokenizer l) (some_suffix weight_suffixes l) in
    ((λ h. start_from l (f h)), λ h. g (Tests-of l h))

pub is_runnable_model_repo_iff :
    (l : List String) → ((is_runnable_model_repo l).0 ≡ true) ↔ ((l ≡ []) ⊎ Entry l)
unfolding is_runnable_model_repo
is_runnable_model_repo_iff [] = ((λ e. inl refl), λ e. refl)
is_runnable_model_repo_iff (s ∷ rest) =
    let (f, g) = entry_point_iff (s ∷ rest) in
    let e = runnable_by s rest in
    (λ h. inr (f (sym e ∙ h)), λ h. elim h [ inl x ↦ absurd (cc x) | inr x ↦ e ∙ g x ])

-- The number of devices for a model of a size in millionths of a billion parameters.
pub data Devices : Option ℕ → ℕ → Type 0 where
  unknown : Devices none 1
  small : {b : ℕ} → b < 28000000 → Devices (some b) 1
  medium : {b : ℕ} → 28000000 ≤ b → b < 65000000 → Devices (some b) 2
  large : {b : ℕ} → 65000000 ≤ b → Devices (some b) 4
