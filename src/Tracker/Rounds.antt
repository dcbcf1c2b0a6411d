-- ===== src/Tracker/Rounds.antt =====
-- discover/tracker.py: scan_round, scan_backfill and scan_incremental; discover/main.py: a round of
-- scans in its mode, with the files that it leaves.
pub mod Emitted
pub mod Complete
mod Samples
use heyi_eval_v.Prelude.{
  ℕ, Bool, true, false, not, ◌&&◌, ◌||◌, Option, none, some, List, [], ◌∷◌, ◌++◌, String, str_eq,
  ltb, if◌then◌else◌,
}
use heyi_eval_v.Tracker.{
  Reason, Model, Candidate, TrackerConfig, Cursor, RoundStats, Answer, ScanState, Judgement,
  whitelist, trending, both, backfill, incremental, too_old, settle, judge, is_seen, is_older,
  failed, new_scan, whitelist_verdict, trending_verdict, backfill_verdict, open_verdict,
}

pub scan_org : TrackerConfig → List Model → ScanState → ScanState
unfolding settle judge
scan_org c [] s = s
scan_org c (m ∷ rest) s =
    scan_org c rest (settle whitelist m (judge m s.seen (whitelist_verdict c m)) s)

-- `list_models` of each organisation; one that raises yields nothing.
pub scan_orgs : TrackerConfig → (String → Answer) → List String → ScanState → ScanState
unfolding scan_org
scan_orgs c hub [] s = s
scan_orgs c hub (org ∷ rest) s =
    scan_orgs c hub rest (if (hub org).fails then failed true s else scan_org c (hub org).models s)

-- `n.reason = "both"` at the candidates of that id that the organisations gave.
abbrev pub found_twice : Reason → Reason
found_twice whitelist = both
found_twice r = r

pub upgrade : String → List Candidate → List Candidate
upgrade k [] = []
upgrade k (n ∷ rest) =
    (if str_eq n.model.hf_id k then record n { reason = found_twice n.reason } else n)
    ∷ upgrade k rest

pub scan_trending : TrackerConfig → ℕ → List Model → ScanState → ScanState
unfolding settle judge upgrade
scan_trending c now [] s = s
scan_trending c now (m ∷ rest) s =
    let t = if is_seen m.hf_id s.seen then record s { new = upgrade m.hf_id s.new } else s in
    scan_trending c now rest (settle trending m (judge m s.seen (trending_verdict c now m)) t)

pub scan_round :
    TrackerConfig → ℕ → (String → Answer) → Answer → Cursor → (List Candidate × RoundStats) × Cursor
unfolding scan_orgs scan_trending
scan_round c now hub trends cursor =
    let s = scan_orgs c hub c.whitelist_orgs (new_scan cursor) in
    let t = if trends.fails then failed true s else scan_trending c now trends.models s in
    ((t.new, t.stats), record cursor { seen = t.seen; last_run_ts = some now })

abbrev pub oldest : Option ℕ → Option ℕ → Option ℕ
oldest none o = o
oldest (some t) none = some t
oldest (some t) (some u) = if ltb t u then some t else some u

pub drain_backfill : TrackerConfig → List Model → ScanState → ScanState
unfolding settle judge
drain_backfill c [] s = s
drain_backfill c (m ∷ rest) s =
    let t = record s { oldest_seen = oldest m.last_modified s.oldest_seen } in
    if is_older c.from_date m.last_modified
    then record (settle backfill m too_old t) { finished = true }
    else drain_backfill c rest (settle backfill m (judge m t.seen (backfill_verdict c m)) t)

abbrev pub is_empty : List Model → Bool
is_empty [] = true
is_empty (m ∷ rest) = false

abbrev pub or_else : Option ℕ → Option ℕ → Option ℕ
or_else none d = d
or_else (some t) d = some t

-- An answer that breaks off is not read to its break if the scan is finished before it.
pub scan_backfill :
    TrackerConfig → ℕ → Answer → Cursor → (List Candidate × RoundStats × Bool) × Cursor
unfolding drain_backfill
scan_backfill c now answer cursor =
    let s = drain_backfill c answer.models (new_scan cursor) in
    let t = failed (answer.fails && not s.finished) s in
    let finished = t.finished || is_empty answer.models in
    (
      (t.new, t.stats, finished),
      record cursor {
        seen = t.seen;
        last_run_ts = some now;
        backfill_complete = cursor.backfill_complete || finished;
        backfill_high_water = or_else t.oldest_seen cursor.backfill_high_water;
      },
    )

-- With `finished` for the `break`.
pub drain_incremental : TrackerConfig → ℕ → List Model → ScanState → ScanState
unfolding settle judge
drain_incremental c cutoff [] s = s
drain_incremental c cutoff (m ∷ rest) s =
    if is_older cutoff m.last_modified
    then record s { finished = true }
    else drain_incremental c cutoff rest
        (settle incremental m (judge m s.seen (open_verdict c m)) s)

abbrev pub cutoff_of : TrackerConfig → Option ℕ → ℕ
cutoff_of c none = c.from_date
cutoff_of c (some t) = t

pub scan_incremental : TrackerConfig → ℕ → Answer → Cursor → (List Candidate × RoundStats) × Cursor
unfolding drain_incremental
scan_incremental c now answer cursor =
    let s = drain_incremental c (cutoff_of c cursor.last_run_ts) answer.models (new_scan cursor) in
    let t = failed (answer.fails && not s.finished) s in
    ((t.new, t.stats), record cursor { seen = t.seen; last_run_ts = some now })

pub data Mode : Type 0 where
  curated backfill_only auto incremental_only : Mode

-- What a round meets: its time, and what the hub answers to each kind of scan.
pub record Hub : Type 0 where
  pub now : ℕ
  pub orgs : String → Answer
  pub trends : Answer
  pub pages : Answer
  pub news : Answer

-- candidates.jsonl and cursor.json
pub record Files : Type 0 where
  pub candidates : List Candidate
  pub cursor : Cursor

abbrev runs_backfill : Mode → Cursor → Bool
runs_backfill backfill_only k = true
runs_backfill auto k = not k.backfill_complete
runs_backfill _ k = false

abbrev runs_curated : Mode → Bool
runs_curated curated = true
runs_curated _ = false

-- The scan that the mode asks for; a candidate that it finds is appended to the file.
pub cmd_once : TrackerConfig → Mode → Hub → Files → Files
unfolding scan_round scan_backfill scan_incremental
cmd_once c mode hub f =
    let (x, k) = scan_round c hub.now hub.orgs hub.trends f.cursor in
    let (y, l) = scan_backfill c hub.now hub.pages f.cursor in
    let (z, m) = scan_incremental c hub.now hub.news f.cursor in
    if runs_curated mode
    then record { candidates = f.candidates ++ x.0; cursor = k }
    else if runs_backfill mode f.cursor
    then record { candidates = f.candidates ++ y.0; cursor = l }
    else record { candidates = f.candidates ++ z.0; cursor = m }

pub discover_rounds : TrackerConfig → Mode → List Hub → Files → Files
unfolding cmd_once
discover_rounds c mode [] f = f
discover_rounds c mode (hub ∷ rest) f = discover_rounds c mode rest (cmd_once c mode hub f)
