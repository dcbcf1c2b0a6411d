-- ===== src/Tracker.antt =====
-- discover/tracker.py: the scans that find models on the hub, with the cursor between them. Times are
-- whole seconds, in place of the ISO texts that `_norm_ts` makes. What the hub answers is an argument:
-- the models in its order, and whether the answer breaks off after them.
pub mod Rounds
use heyi_eval_v.Prelude.{
  ℕ, ◌+◌, ◌-◌, ◌*◌, Bool, true, false, not, ◌&&◌, ◌||◌, Option, none, some, List, [], ◌∷◌, ◌++◌,
  map, String, str_eq, ltb, any, if◌then◌else◌,
}

pub data Reason : Type 0 where
  whitelist trending both backfill incremental : Reason

-- What `_model_to_candidate` reads of a model; absent counts are 0.
pub record Model : Type 0 where
  pub hf_id : String
  pub last_modified : Option ℕ
  pub downloads : ℕ
  pub likes : ℕ
  pub pipeline_tag : Option String
  pub private : Bool
  pub gated : Bool

pub record Candidate : Type 0 where
  pub model : Model
  pub reason : Reason

pub record TrackerConfig : Type 0 where
  pub whitelist_orgs : List String
  pub min_downloads_30d : ℕ
  pub min_likes : ℕ
  pub from_date : ℕ
  pub modality_pipeline_tags : List String
  pub min_trending_recency_days : ℕ

-- `seen` is a set, as a list; `none` is the empty text.
pub record Cursor : Type 0 where
  pub seen : List String
  pub last_run_ts : Option ℕ
  pub backfill_complete : Bool
  pub backfill_high_water : Option ℕ

pub record RoundStats : Type 0 where
  pub new_candidates : ℕ
  pub seen_skipped : ℕ
  pub excluded_old : ℕ
  pub excluded_modality : ℕ
  pub excluded_trending_threshold : ℕ
  pub api_errors : ℕ

abbrev no_stats : RoundStats
no_stats = record {
  new_candidates = 0;
  seen_skipped = 0;
  excluded_old = 0;
  excluded_modality = 0;
  excluded_trending_threshold = 0;
  api_errors = 0;
}

-- What a listing yields, and whether it raises after that.
pub record Answer : Type 0 where
  pub models : List Model
  pub fails : Bool

abbrev pub is_seen : String → List String → Bool
is_seen k seen = any (λ x. str_eq x k) seen

abbrev pub is_older : ℕ → Option ℕ → Bool
is_older cutoff none = false
is_older cutoff (some t) = ltb t cutoff

abbrev pub passes_window : Option ℕ → ℕ → Bool
passes_window t from_date = not (is_older from_date t)

abbrev in_tags : Option String → List String → Bool
in_tags none allowed = true
in_tags (some t) allowed = str_eq t "" || any (λ x. str_eq x t) allowed

pub passes_modality : Option String → List String → Bool
passes_modality t [] = true
passes_modality t (x ∷ rest) = in_tags t (x ∷ rest)

-- Why a model is passed over, or that it is taken.
pub data Judgement : Type 0 where
  seen_before too_old wrong_modality below_threshold taken : Judgement

-- The state of a scan; `new` in the order of the list.
pub record ScanState : Type 0 where
  pub new : List Candidate
  pub seen : List String
  pub stats : RoundStats
  pub finished : Bool
  pub oldest_seen : Option ℕ

pub settle : Reason → Model → Judgement → ScanState → ScanState
settle reason m seen_before s = record s {
  stats = record s.stats { seen_skipped = s.stats.seen_skipped + 1 };
}
settle reason m too_old s = record s {
  stats = record s.stats { excluded_old = s.stats.excluded_old + 1 };
}
settle reason m wrong_modality s = record s {
  stats = record s.stats { excluded_modality = s.stats.excluded_modality + 1 };
}
settle reason m below_threshold s = record s {
  stats = record s.stats { excluded_trending_threshold = s.stats.excluded_trending_threshold + 1 };
}
settle reason m taken s = record s {
  new = s.new ++ record { model = m; reason = reason } ∷ [];
  seen = m.hf_id ∷ s.seen;
  stats = record s.stats { new_candidates = s.stats.new_candidates + 1 };
}

-- The tests of a scan, in its order, behind the one for what has been seen.
pub judge : Model → List String → Judgement → Judgement
judge m seen v = if is_seen m.hf_id seen then seen_before else v

abbrev pub whitelist_verdict : TrackerConfig → Model → Judgement
whitelist_verdict c m =
    if not (passes_window m.last_modified c.from_date)
    then too_old
    else if not (passes_modality m.pipeline_tag c.modality_pipeline_tags)
    then wrong_modality
    else taken

-- `now` is the time of the round; the cutoff is 0 days before it if there is no such test.
abbrev pub stale_trend : TrackerConfig → ℕ → Model → Bool
stale_trend c now m =
    ltb 0 c.min_trending_recency_days
    && is_older (now - c.min_trending_recency_days * 86400) m.last_modified

abbrev pub trending_verdict : TrackerConfig → ℕ → Model → Judgement
trending_verdict c now m =
    if not (passes_window m.last_modified c.from_date) || stale_trend c now m
    then too_old
    else if not (passes_modality m.pipeline_tag c.modality_pipeline_tags)
    then wrong_modality
    else if ltb m.downloads c.min_downloads_30d && ltb m.likes c.min_likes
    then below_threshold
    else taken

abbrev pub open_verdict : TrackerConfig → Model → Judgement
open_verdict c m =
    if not (passes_modality m.pipeline_tag c.modality_pipeline_tags) || m.private || m.gated
    then wrong_modality
    else taken

abbrev pub backfill_verdict : TrackerConfig → Model → Judgement
backfill_verdict c m =
    if not (passes_window m.last_modified c.from_date) then too_old else open_verdict c m

abbrev pub failed : Bool → ScanState → ScanState
failed b s =
    if b then record s { stats = record s.stats { api_errors = s.stats.api_errors + 1 } } else s

abbrev pub new_scan : Cursor → ScanState
new_scan cursor = record {
  new = [];
  seen = cursor.seen;
  stats = no_stats;
  finished = false;
  oldest_seen = none;
}
