-- ===== src/Backup/Samples.antt =====
-- A directory of backups, and instances of the theorems about snapshots and their pruning.
use heyi_eval_v.Prelude.{
  ℕ, ◌+◌, ◌≡◌, refl, ◌⊎◌, Bool, true, false, none, some, List, [], ◌∷◌, String, length, All, arith,
}
use heyi_eval_v.Backup.{
  Child, Root, Host, ran, take_snapshot, name_leb, list_snapshot_dirs, latest_snapshot,
  is_snapshot_name, overlaps,
}
use heyi_eval_v.Backup.State.{read_backup_state, ok, down, read_backup_state-take_snapshot}
use heyi_eval_v.Backup.Taken.{take_snapshot-latest, meta_at}
use heyi_eval_v.Backup.Retention.{prune_old_snapshots, keep_days}
use heyi_eval_v.Backup.Retention.Pruned.{Any, Outlived, Expired, Stuck, prune_old_snapshots-newest}

abbrev children : List Child
children =
    record { name = "20260102_000000"; is_dir = true; mtime = some 200000; meta_size = some 7 }
    ∷ record { name = "latest"; is_dir = true; mtime = some 200000; meta_size = some 7 }
    ∷ record { name = "20260101_000000"; is_dir = true; mtime = some 100000; meta_size = some 5 }
    ∷ record { name = "20251231_000000"; is_dir = true; mtime = none; meta_size = none }
    ∷ []

abbrev root : Root
root = record {
  children = children;
  latest = some "20260102_000000";
  last_backup = some 200000;
  failures = [];
}

abbrev host : Host
host = record {
  data_root = "srv" ∷ "data" ∷ [];
  backups_root = "srv" ∷ "backups" ∷ [];
  src_exists = true;
  run_rsync = λ link_dest. ran (record { returncode = 0; size_bytes = 9 });
  wipes_before = true;
  wipes_after = true;
  writes_meta = true;
  links_latest = true;
  writes_last = true;
}

abbrev removes_all : String → Bool
removes_all name = true

-- A path that only begins like another does not overlap it.
apart : overlaps ("srv" ∷ "data" ∷ []) ("srv" ∷ "data2" ∷ []) ≡ false
unfolding overlaps
apart = refl

link_dest : latest_snapshot "20260103_000000" children ≡ some "20260102_000000"
unfolding latest_snapshot is_snapshot_name name_leb
link_dest = refl

taken : (take_snapshot host "20260103_000000" 300000 root).1.latest ≡ some "20260103_000000"
unfolding take_snapshot
taken = refl

pruned : length (prune_old_snapshots removes_all 2000000 keep_days (some children)).removed ≡ 1
unfolding prune_old_snapshots list_snapshot_dirs is_snapshot_name name_leb
pruned = refl

take_snapshot-latest_example :
    let q = (take_snapshot host "20260103_000000" 300000 root).1 in
    (q.latest ≡ some "20260102_000000")
    ⊎ ((q.latest ≡ some "20260103_000000")
        × ((size : ℕ) × (meta_at "20260103_000000" q.children ≡ some size)))
take_snapshot-latest_example = take_snapshot-latest host "20260103_000000" 300000 root

prune_old_snapshots-newest_example :
    let r = prune_old_snapshots removes_all 2000000 keep_days (some children) in
    All (Outlived r) r.removed
    × All (λ c. Any (λ k. name_leb c.name k.name ≡ true) r.kept) (list_snapshot_dirs children)
    × All (Expired removes_all 2000000 keep_days) r.removed
    × All (Stuck removes_all) r.failed
    × (length r.removed + length r.failed + length r.kept ≡ length (list_snapshot_dirs children))
prune_old_snapshots-newest_example =
    prune_old_snapshots-newest removes_all 2000000 keep_days children

read_backup_state-take_snapshot_example :
    (read_backup_state 301000 (some (take_snapshot host "20260103_000000" 300000 root).1)).health
    ≡ ok
unfolding take_snapshot is_snapshot_name
read_backup_state-take_snapshot_example =
    read_backup_state-take_snapshot host "20260103_000000" 300000 301000 root
      (take_snapshot host "20260103_000000" 300000 root).1
      (record {
        ok = true;
        snapshot_ts = some "20260103_000000";
        size_bytes = 9;
        error_kind = none;
      })
      refl (omega arith) refl refl

shown_late : (read_backup_state 400000 (some root)).health ≡ down
unfolding read_backup_state list_snapshot_dirs is_snapshot_name name_leb
shown_late = refl
