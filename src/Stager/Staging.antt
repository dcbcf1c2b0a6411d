-- ===== src/Stager/Staging.antt =====
-- orchestrator/model_stager.py: ensure_model_staged, with the eviction of orchestrator/cache_evictor.py
-- before a download.
-- Durations, the texts of errors and the log are left out, and `mkdir` is taken to succeed. A link to a
-- directory reads as the directory.
pub mod Settled
mod Samples
use heyi_eval_v.Prelude.{
  ℕ, zero, suc, ◌+◌, max, Bool, true, false, not, ◌&&◌, ◌||◌, Option, none, some, List, [], ◌∷◌,
  String, str_eq, any, ltb, if◌then◌else◌,
}
use heyi_eval_v.Prelude.Codes.{Text, is_some}
use heyi_eval_v.Cache.{StateFile, Dir, CacheEntry, EvictionPlan, enforce_quota, default_grace_s}
use heyi_eval_v.Stager.{
  Node, folder, Entries, end, entry, Removal, has_weight_file, bytes_on_disk, cleanup_partial,
  is_hidden,
}
use heyi_eval_v.Stager.Patterns.{Metadata, estimate_size_bytes, compute_allow_patterns}

pub data ErrorKind : Type 0 where
  disk_full oversize_inherited download_timeout download_failed incomplete_after_download :
      ErrorKind

pub record StageModelResult : Type 0 where
  pub ok : Bool
  pub skipped : Bool
  pub error_kind : Option ErrorKind
  pub bytes_on_disk : ℕ
  pub files : ℕ
  pub bytes_freed : ℕ
  pub allow_patterns : Option (List String)
  -- extra["already_staged"]
  pub already_staged : Option Bool

-- What the downloader does, if it is waited for: it returns, with a path or without, or raises a
-- TimeoutError or another exception.
pub data Fetch : Type 0 where
  path : Option String → Fetch
  times_out fails : Fetch

pub record World : Type 0 where
  -- the downloader, for the patterns: what it does, whether it is still at work after the time limit, and
  -- the target as it leaves it
  pub fetch : Option (List String) → Fetch
  pub late : Bool
  pub fetched : Option (List String) → Option Node
  -- shutil.rmtree of the target
  pub rmtree : Node → Removal
  -- the directory at a path other than the target's
  pub at : String → Option Node
  -- whether `rmdir` and `symlink_to` return
  pub rmdir : Bool
  pub symlink : Bool
  -- free bytes of the file system, after the eviction freed so many
  pub free : ℕ → ℕ
  pub fnmatch : String → String → Bool
  pub fp16_bytes : Text → Option ℕ
  -- int(estimate * headroom_factor)
  pub scale : ℕ → ℕ
  -- the cache root and the runs, as the eviction finds them
  pub now : ℕ
  pub state_files : List (Option StateFile)
  pub cache_dirs : Option (List Dir)
  pub removes : String → Bool

pub record Request : Type 0 where
  pub hf_id : String
  pub target_name : String
  pub target_path : String
  pub metadata : Metadata
  -- engine_plan
  pub oversize : Bool
  pub engine : Option String
  pub allow_patterns : Option (List String)
  pub headroom_floor_bytes : ℕ
  -- whether download_timeout_s is set and positive
  pub limited : Bool
  -- none unless both the quota and runs_root are given
  pub cache_quota_bytes : Option ℕ

-- The target directory, how often the downloader was called, and the directories evicted.
pub record Disk : Type 0 where
  pub target : Option Node
  pub downloads : ℕ
  pub evicted : List CacheEntry

abbrev pub failure : ErrorKind → StageModelResult
failure k = record {
  ok = false;
  skipped = false;
  error_kind = some k;
  bytes_on_disk = 0;
  files = 0;
  bytes_freed = 0;
  allow_patterns = none;
  already_staged = none;
}

abbrev pub graceful : ErrorKind → StageModelResult
graceful k = record (failure k) { skipped = true }

pub count_entries : Entries → ℕ
count_entries end = 0
count_entries (entry name x rest) = count_entries rest + 1

pub count_visible : Entries → ℕ
count_visible end = 0
count_visible (entry name x rest) = (if is_hidden name then 0 else 1) + count_visible rest

abbrev entries_of : Option Node → Entries
entries_of (some (folder es)) = es
entries_of _ = end

abbrev size_of : Option Node → ℕ
size_of none = 0
size_of (some d) = bytes_on_disk d

abbrev pub skipped_by_plan : Request → Bool
skipped_by_plan q = q.oversize || elim q.engine [ none ↦ false | some e ↦ str_eq e "metadata_only" ]

-- The result for a directory that is there already; hidden entries count as files here.
abbrev already : Option Node → StageModelResult
already target = record {
  ok = true;
  skipped = false;
  error_kind = none;
  bytes_on_disk = size_of target;
  files = count_entries (entries_of target);
  bytes_freed = 0;
  allow_patterns = none;
  already_staged = some true;
}

abbrev pub effective_allow : Request → Option (List String)
effective_allow q = elim q.allow_patterns [
  | none ↦ compute_allow_patterns q.hf_id q.metadata
  | some ps ↦ some ps
]

-- The target may be among the directories that are evicted.
abbrev gone_with : String → EvictionPlan → Option Node → Option Node
gone_with name plan target = if any (λ e. str_eq e.name name) plan.evicted then none else target

-- 3a. The quota; the bytes freed and the disk afterwards.
pub evict : World → Request → Disk → ℕ × Disk
evict w q s = elim q.cache_quota_bytes [
  | none ↦ (0, s)
  | some quota ↦
      let plan =
        enforce_quota w.removes false w.now default_grace_s quota w.state_files w.cache_dirs in
      (
        plan.bytes_freed,
        record s { target = gone_with q.target_name plan s.target; evicted = plan.evicted },
      )
]

-- 3b. Whether the estimate, if there is one, does not fit.
abbrev pub no_room : World → Request → ℕ → Option ℕ → Bool
no_room w q free none = false
no_room w q free (some estimate) = ltb free (max (w.scale estimate) q.headroom_floor_bytes)

-- `_run_downloader_with_timeout`
abbrev pub run_downloader : World → Request → Option (List String) → Fetch
run_downloader w q patterns = if q.limited && w.late then times_out else w.fetch patterns

-- A failed download is cleaned up.
abbrev give_up : World → ErrorKind → Option (List String) → Disk → StageModelResult × Disk
give_up w k patterns s =
    let (freed, rest) = cleanup_partial w.rmtree s.target in
    (
      record (failure k) { bytes_freed = freed; allow_patterns = patterns },
      record s { target = rest },
    )

abbrev is_empty_dir : Option Node → Bool
is_empty_dir (some (folder end)) = true
is_empty_dir _ = false

abbrev link : World → Node → Option Node → Option Node
link w populated none = if w.symlink then some populated else none
link w populated (some d) = some d

-- Where the downloader filled another directory, the target becomes a link to it: an empty target is
-- removed first, and an OSError of that leaves all as it is.
abbrev relinked : World → Node → Option Node → Option Node
relinked w populated target =
    if is_empty_dir target
    then (if w.rmdir then link w populated none else target)
    else link w populated target

abbrev elsewhere : World → Request → String → Option Node → Option Node
elsewhere w q p target =
    if not (str_eq p "") && not (str_eq p q.target_path) && has_weight_file (w.at p)
    then elim (w.at p) [ none ↦ target | some populated ↦ relinked w populated target ]
    else target

pub repoint : World → Request → Option String → Option Node → Option Node
repoint w q none target = target
repoint w q (some p) target = if has_weight_file target then target else elsewhere w q p target

-- 5. The check after the download.
pub check_weights : World → Option (List String) → Disk → StageModelResult × Disk
unfolding count_visible
check_weights w patterns s =
    if has_weight_file s.target
    then (
      record {
        ok = true;
        skipped = false;
        error_kind = none;
        bytes_on_disk = size_of s.target;
        files = count_visible (entries_of s.target);
        bytes_freed = 0;
        allow_patterns = patterns;
        already_staged = some false;
      },
      s,
    )
    else give_up w incomplete_after_download patterns s

-- 4. The download.
pub download : World → Request → Option (List String) → Disk → StageModelResult × Disk
unfolding check_weights repoint
download w q patterns s =
    let t = record s { target = w.fetched patterns; downloads = s.downloads + 1 } in
    elim (run_downloader w q patterns) [
      | times_out ↦ give_up w download_timeout patterns t
      | fails ↦ give_up w download_failed patterns t
      | path p ↦ check_weights w patterns (record t { target = repoint w q p t.target })
    ]

-- Whether the model does not fit, once the eviction has freed so many bytes.
abbrev pub lacks_room : World → Request → ℕ → Bool
lacks_room w q freed =
    no_room w q (w.free freed)
      (estimate_size_bytes w.fnmatch w.fp16_bytes q.metadata (effective_allow q))

-- From the quota on.
pub fetch_model : World → Request → Disk → StageModelResult × Disk
unfolding evict download
fetch_model w q s =
    let (freed, t) = evict w q s in
    if lacks_room w q freed then (graceful disk_full, t) else download w q (effective_allow q) t

pub ensure_model_staged : World → Request → Disk → StageModelResult × Disk
unfolding fetch_model count_entries
ensure_model_staged w q s =
    if skipped_by_plan q
    then (graceful oversize_inherited, s)
    else if has_weight_file s.target
    then (already s.target, s)
    else fetch_model w q s
