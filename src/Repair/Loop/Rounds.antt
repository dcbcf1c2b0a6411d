-- ===== src/Repair/Loop/Rounds.antt =====
-- The repair loop ends of itself: each round tries a strategy for the first time, and there are six.
use heyi_eval_v.Prelude.{ℕ, ◌+◌, ◌≡◌, ◌≢◌, Bool, false, List, [], ◌∷◌, All, if◌then◌else◌}
use heyi_eval_v.Repair.{
  Strategy, StrategyResult, add_trust_remote_code, use_gguf_file_path, lower_max_model_len,
  swap_vllm_image_latest, swap_engine_sglang, swap_engine_transformers,
}
use heyi_eval_v.Repair.Loop.{Env, Session, End, cut_off, strategy_eq, member}

abbrev one_unless : Bool → ℕ
one_unless b = if b then 0 else 1

-- How many of the strategies have not been tried.
pub unseen : List Strategy → ℕ
unseen seen =
    one_unless (member add_trust_remote_code seen)
    + one_unless (member use_gguf_file_path seen)
    + one_unless (member lower_max_model_len seen)
    + one_unless (member swap_vllm_image_latest seen)
    + one_unless (member swap_engine_sglang seen)
    + one_unless (member swap_engine_transformers seen)

-- No strategy of the list was tried before, nor stands in it twice.
abbrev pub Untried : List Strategy → List StrategyResult → Type 0
Untried seen [] = Unit
Untried seen (p ∷ rest) = (member p.name seen ≡ false) × Untried (p.name ∷ seen) rest

abbrev Different : List Strategy → Type 0
Different [] = Unit
Different (s ∷ rest) = All (λ t. strategy_eq s t ≡ false) rest × Different rest

-- Whether the two lists hold the same of these strategies.
abbrev Alike : List Strategy → List Strategy → List Strategy → Type 0
Alike seen more l = All (λ t. member t more ≡ member t seen) l

module _ (env : Env) where
  -- What a round uses up: strategies for attempts.
  abbrev Spent : Session → Session → Type 0
  Spent s t = t.tries + unseen t.seen ≡ s.tries + unseen s.seen

  -- The loop ended of itself, with no more attempts than there were untried strategies.
  abbrev pub Ended : Session → End × Session → Type 0
  Ended s (e, t) = (e ≢ cut_off) × (t.tries + unseen t.seen ≡ s.tries + unseen s.seen)
