-- ===== src/Cache/Samples.antt =====
-- A cache of four directories over its quota, and instances of the theorems about eviction.
use heyi_eval_v.Prelude.{
  ◌+◌, ◌-◌, ◌≤◌, ◌≡◌, refl, ◌⊎◌, Bool, true, false, Option, none, some, List, [], ◌∷◌, String,
  str_eq, length, ◌||◌,
}
use heyi_eval_v.Cache.{
  StateFile, Dir, find_evictable, enforce_quota, sizes, runs_of, basename_from_hf_id,
}
use heyi_eval_v.Cache.Quota.{Needed, enforce_quota_frees}

abbrev files : List (Option StateFile)
files =
    some (record {
      hf_id = some "org/a";
      status = some "ok";
      ended_at = some 50;
      created_at = some 40;
    })
    ∷ none
    ∷ some (record {
      hf_id = some "org/b";
      status = some "failed";
      ended_at = none;
      created_at = some 60;
    })
    ∷ some (record {
      hf_id = some "c";
      status = some "in_progress";
      ended_at = none;
      created_at = some 70;
    })
    ∷ []

abbrev dirs : List Dir
dirs =
    record { name = "a"; is_dir = true; mtime = some 10; size_bytes = 100 }
    ∷ record { name = "b"; is_dir = true; mtime = some 20; size_bytes = 30 }
    ∷ record { name = "c"; is_dir = true; mtime = some 5; size_bytes = 500 }
    ∷ record { name = "d"; is_dir = true; mtime = none; size_bytes = 20 }
    ∷ []

abbrev removes_all : String → Bool
removes_all name = true

abbrev removes_but_b : String → Bool
removes_but_b name = str_eq name "a" || str_eq name "d"

basename : basename_from_hf_id "org/deep/model" ≡ "model"
unfolding basename_from_hf_id
basename = refl

-- The orphan goes, b cannot be removed, and a goes: 120 bytes, where 40 were to be freed.
evicted_bytes :
    (enforce_quota removes_but_b false 5000 1800 610 files (some dirs)).bytes_freed ≡ 120
unfolding enforce_quota find_evictable runs_of
evicted_bytes = refl

skipped_b : (enforce_quota removes_but_b false 5000 1800 610 files (some dirs)).skipped ≡ "b" ∷ []
unfolding enforce_quota find_evictable runs_of
skipped_b = refl

enforce_quota_frees_example :
    let plan = enforce_quota removes_but_b false 5000 1800 610 files (some dirs) in
    (plan.bytes_freed ≡ sizes plan.evicted)
    × Needed (plan.total_bytes - 610) 0 plan.evicted
    × (plan.total_bytes ≤ 610 + plan.bytes_freed
        ⊎ (length plan.evicted + length plan.skipped ≡ length plan.evictable))
enforce_quota_frees_example =
    enforce_quota_frees removes_but_b false 5000 1800 610 files (some dirs)
