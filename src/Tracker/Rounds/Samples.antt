-- ===== src/Tracker/Rounds/Samples.antt =====
-- Two rounds over a hub of three models; the second answer breaks off.
use heyi_eval_v.Prelude.{◌≡◌, ◌||◌, refl, true, false, none, some, [], ◌∷◌, String, ℕ}
use heyi_eval_v.Tracker.{Model, TrackerConfig, Answer, is_seen, passes_modality}
use heyi_eval_v.Tracker.Rounds.{Hub, Files, auto, scan_incremental, discover_rounds}
use heyi_eval_v.Tracker.Rounds.Emitted.{Kept, discover_rounds-Kept}
use heyi_eval_v.Tracker.Rounds.Complete.{is_listed, scan_incremental_reaches}

abbrev model : String → ℕ → Model
model k t = record {
  hf_id = k;
  last_modified = some t;
  downloads = 10;
  likes = 1;
  pipeline_tag = some "text-generation";
  private = false;
  gated = false;
}

abbrev config : TrackerConfig
config = record {
  whitelist_orgs = "org" ∷ [];
  min_downloads_30d = 100000;
  min_likes = 100;
  from_date = 1000;
  modality_pipeline_tags = "text-generation" ∷ [];
  min_trending_recency_days = 0;
}

abbrev nothing : Files
nothing = record {
  candidates = [];
  cursor = record {
    seen = [];
    last_run_ts = none;
    backfill_complete = false;
    backfill_high_water = none;
  };
}

abbrev listing : Answer
listing = record {
  models = model "org/c" 3000 ∷ model "org/b" 2000 ∷ model "org/a" 900 ∷ [];
  fails = false;
}

abbrev hub : ℕ → Hub
hub now = record {
  now = now;
  orgs = λ k. listing;
  trends = listing;
  pages = listing;
  news = record { models = model "org/d" 4000 ∷ model "org/c" 3000 ∷ []; fails = true };
}

discover_rounds-Kept_example : Kept (discover_rounds config auto (hub 3500 ∷ hub 5000 ∷ []) nothing)
discover_rounds-Kept_example =
    discover_rounds-Kept config auto (hub 3500 ∷ hub 5000 ∷ []) nothing
      (record { distinct = tt; known = λ k h. h })

scan_incremental_reaches_example :
    let r =
      scan_incremental config 5000
        (record { models = model "org/c" 3000 ∷ model "org/b" 2000 ∷ []; fails = true })
        nothing.cursor in
    ((is_seen "org/b" nothing.cursor.seen || is_listed "org/b" r.0.0) ≡ true)
    × (is_seen "org/b" r.1.seen ≡ true)
unfolding passes_modality
scan_incremental_reaches_example =
    scan_incremental_reaches config 5000 nothing.cursor (model "org/c" 3000 ∷ [])
      (model "org/b" 2000) [] true (refl, tt) refl refl refl refl
