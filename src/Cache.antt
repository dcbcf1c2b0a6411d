-- ===== src/Cache.antt =====
-- orchestrator/cache_evictor.py: the classification of the cached model directories, and their
-- eviction down to a quota.
-- The listings come as lists in the order of `sorted(...iterdir())`. `hf_ids` of an entry, which is
-- shown and not read, is left out.
pub mod Order
pub mod Quota
mod Samples
use Prim.Native.Char.{code}
use heyi_eval_v.Prelude.{
  ℕ, ◌+◌, ◌-◌, Bool, true, false, not, ◌&&◌, ◌||◌, Option, none, some, List, [], ◌∷◌, ◌++◌, String,
  str_eq, ltb, leb, ◌==◌, max, any, if◌then◌else◌,
}

-- The fields that are read of a state.json; no record is a file that is missing or half-written.
pub record StateFile : Type 0 where
  pub hf_id : Option String
  pub status : Option String
  pub ended_at : Option ℕ
  pub created_at : Option ℕ

pub record RunSignal : Type 0 where
  pub hf_id : String
  pub status : Option String
  pub ended_at : ℕ

pub record Dir : Type 0 where
  pub name : String
  pub is_dir : Bool
  -- `none` is an OSError of stat
  pub mtime : Option ℕ
  pub size_bytes : ℕ

pub data CacheStatus : Type 0 where
  safe in_progress failed_only orphan : CacheStatus

pub record CacheEntry : Type 0 where
  pub name : String
  pub size_bytes : ℕ
  pub mtime : ℕ
  pub status : CacheStatus
  pub latest_run_ts : ℕ
  pub latest_run_status : Option String

pub record EvictionPlan : Type 0 where
  pub total_bytes : ℕ
  pub quota_bytes : ℕ
  pub entries : List CacheEntry
  pub evictable : List CacheEntry
  pub evicted : List CacheEntry
  pub skipped : List String
  pub bytes_freed : ℕ

-- 30 minutes, in seconds, and 200 GB
abbrev pub default_grace_s : ℕ
default_grace_s = 1800

abbrev pub default_quota_bytes : ℕ
default_quota_bytes = 214748364800

has_slash : String → Bool
has_slash String.[] = false
has_slash (String.◌∷◌ c s) = code c == b'/' || has_slash s

-- What stands behind the last slash.
unfoldable pub basename_from_hf_id : String → String
unfolding has_slash
basename_from_hf_id String.[] = ""
basename_from_hf_id (String.◌∷◌ c s) =
    let rest = basename_from_hf_id s in
    if has_slash s then rest else if code c == b'/' then s else String.◌∷◌ c s

abbrev text_or_empty : Option String → String
text_or_empty none = ""
text_or_empty (some s) = s

-- `d.get("ended_at") or d.get("created_at") or 0.0`
abbrev time_or : Option ℕ → ℕ → ℕ
time_or none d = d
time_or (some t) d = if t == 0 then d else t

unfoldable pub load_run_status : Option StateFile → RunSignal
load_run_status none = record { hf_id = ""; status = none; ended_at = 0 }
load_run_status (some f) = record {
  hf_id = text_or_empty f.hf_id;
  status = f.status;
  ended_at = time_or f.ended_at (time_or f.created_at 0);
}

-- The entry of a name in the index that `_index_runs` builds, oldest run directory first.
unfoldable pub runs_of : String → List (Option StateFile) → List RunSignal
unfolding basename_from_hf_id load_run_status
runs_of name [] = []
runs_of name (f ∷ rest) =
    let r = load_run_status f in
    let others = runs_of name rest in
    if not (str_eq r.hf_id "") && str_eq (basename_from_hf_id r.hf_id) name
    then r ∷ others
    else others

abbrev pub status_is : String → RunSignal → Bool
status_is s r = elim r.status [ none ↦ false | some t ↦ str_eq t s ]

-- max(..., default=0.0)
latest_ts : List RunSignal → ℕ
latest_ts [] = 0
latest_ts (r ∷ rest) = max r.ended_at (latest_ts rest)

status_at : ℕ → List RunSignal → Option String
status_at t [] = none
status_at t (r ∷ rest) = if r.ended_at == t then r.status else status_at t rest

-- Whether a directory may be in use: it was touched within the grace, or a run that is under way
-- names it.
abbrev pub in_use : ℕ → ℕ → ℕ → List RunSignal → Bool
in_use now grace mtime runs = ltb now (mtime + grace) || any (status_is "in_progress") runs

unfoldable pub classify : ℕ → ℕ → ℕ → List RunSignal → CacheStatus
classify now grace mtime runs =
    if in_use now grace mtime runs
    then in_progress
    else if any (status_is "ok") runs
    then safe
    else if any (λ r. status_is "failed" r || status_is "aborted" r) runs
    then failed_only
    else orphan

abbrev pub mtime_of : Dir → ℕ
mtime_of d = elim d.mtime [ none ↦ 0 | some t ↦ t ]

pub entry_of : ℕ → ℕ → List (Option StateFile) → Dir → CacheEntry
unfolding classify latest_ts status_at
entry_of now grace files d =
    let runs = runs_of d.name files in
    record {
      name = d.name;
      size_bytes = d.size_bytes;
      mtime = mtime_of d;
      status = classify now grace (mtime_of d) runs;
      latest_run_ts = latest_ts runs;
      latest_run_status = status_at (latest_ts runs) runs;
    }

abbrev hidden : String → Bool
hidden String.[] = false
hidden (String.◌∷◌ c s) = code c == b'.'

-- `d.is_dir()` and `not name.startswith(".")`
abbrev pub visible : Dir → Bool
visible d = d.is_dir && not (hidden d.name)

pub scan : ℕ → ℕ → List (Option StateFile) → List Dir → List CacheEntry
scan now grace files [] = []
scan now grace files (d ∷ rest) =
    let others = scan now grace files rest in
    if visible d then entry_of now grace files d ∷ others else others

abbrev pub sizes : List CacheEntry → ℕ
sizes [] = 0
sizes (e ∷ rest) = e.size_bytes + sizes rest

abbrev pub priority : CacheStatus → ℕ
priority orphan = 0
priority failed_only = 1
priority safe = 2
priority in_progress = 99

-- The order of the keys (priority, mtime).
abbrev pub before : CacheEntry → CacheEntry → Bool
before a b =
    ltb (priority a.status) (priority b.status)
    || (priority a.status == priority b.status && leb a.mtime b.mtime)

pub insert_entry : CacheEntry → List CacheEntry → List CacheEntry
insert_entry e [] = e ∷ []
insert_entry e (x ∷ rest) = if before e x then e ∷ x ∷ rest else x ∷ insert_entry e rest

pub sort_entries : List CacheEntry → List CacheEntry
unfolding insert_entry
sort_entries [] = []
sort_entries (e ∷ rest) = insert_entry e (sort_entries rest)

abbrev pub is_in_progress : CacheStatus → Bool
is_in_progress in_progress = true
is_in_progress _ = false

pub not_in_progress : List CacheEntry → List CacheEntry
not_in_progress [] = []
not_in_progress (e ∷ rest) =
    let others = not_in_progress rest in if is_in_progress e.status then others else e ∷ others

-- `none` in place of the listing is a cache root that is no directory or cannot be listed.
pub find_evictable : ℕ → ℕ → ℕ → List (Option StateFile) → Option (List Dir) → EvictionPlan
unfolding scan entry_of sort_entries not_in_progress
find_evictable now grace quota files none = record {
  total_bytes = 0;
  quota_bytes = quota;
  entries = [];
  evictable = [];
  evicted = [];
  skipped = [];
  bytes_freed = 0;
}
find_evictable now grace quota files (some dirs) =
    let found = scan now grace files dirs in
    record {
      total_bytes = sizes found;
      quota_bytes = quota;
      entries = found;
      evictable = sort_entries (not_in_progress found);
      evicted = [];
      skipped = [];
      bytes_freed = 0;
    }

-- What the loop has gathered: the bytes freed, the entries evicted and the names skipped.
pub record Evicted : Type 0 where
  pub freed : ℕ
  pub gone : List CacheEntry
  pub kept : List String

-- The loop of `enforce_quota`; `removes` says whether `shutil.rmtree` returns.
pub evict_all : (String → Bool) → Bool → ℕ → ℕ → List CacheEntry → Evicted
evict_all removes dry need freed [] = record { freed = freed; gone = []; kept = [] }
evict_all removes dry need freed (e ∷ rest) =
    let works = dry || removes e.name in
    let later = evict_all removes dry need (if works then freed + e.size_bytes else freed) rest in
    if leb need freed
    then record { freed = freed; gone = []; kept = [] }
    else if works
    then record later { gone = e ∷ later.gone }
    else record later { kept = e.name ∷ later.kept }

pub enforce_quota :
    (String → Bool) → Bool → ℕ → ℕ → ℕ → List (Option StateFile) → Option (List Dir) → EvictionPlan
unfolding evict_all
enforce_quota removes dry now grace quota files dirs =
    let plan = find_evictable now grace quota files dirs in
    let out = evict_all removes dry (plan.total_bytes - quota) 0 plan.evictable in
    if leb plan.total_bytes quota
    then plan
    else record plan { evicted = out.gone; skipped = out.kept; bytes_freed = out.freed }
