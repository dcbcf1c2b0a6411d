-- ===== src/Backup.antt =====
-- backup/snapshot.py: a snapshot of the data directory, the pointers to the last one, and the state
-- that the panel shows. A path is the list of its parts; the name of a snapshot, which strftime
-- makes of the time, is an argument. A digit is one of ASCII.
pub mod Names
pub mod Retention
pub mod Taken
pub mod State
mod Samples
use Prim.Native.Char.{code}
use heyi_eval_v.Prelude.{
  ℕ, zero, suc, ◌+◌, Bool, true, false, not, ◌&&◌, ◌||◌, Option, none, some, List, [], ◌∷◌, String,
  str_eq, ltb, leb, ◌==◌, if◌then◌else◌, length,
}
use heyi_eval_v.Prelude.Int.{ℤ, pos, negsuc, sub_ℕ}

-- A child of backups_root; `meta_size` is the size_bytes of a backup_meta.json that can be read.
pub record Child : Type 0 where
  pub name : String
  pub is_dir : Bool
  -- `none` is an OSError of stat
  pub mtime : Option ℕ
  pub meta_size : Option ℕ

pub data ErrorKind : Type 0 where
  overlap src_missing rsync_missing rsync_crash rsync_nonzero : ErrorKind
  meta_write_failed pointer_update_failed : ErrorKind

-- backups_root: its children in the order of iterdir, the target of `latest`, the time in
-- last_backup.txt if there is one that can be read, and the events that the outbox_writer got.
pub record Root : Type 0 where
  pub children : List Child
  pub latest : Option String
  pub last_backup : Option ℕ
  pub failures : List ErrorKind

pub record RsyncOutcome : Type 0 where
  pub returncode : ℕ
  pub size_bytes : ℕ

pub data Rsync : Type 0 where
  ran : RsyncOutcome → Rsync
  file_not_found crashed : Rsync

-- What the system does: the two paths, `run_rsync` at a link_dest, whether the first and the later
-- `rmtree` leave nothing, and whether the three writes at the end succeed.
pub record Host : Type 0 where
  pub data_root : List String
  pub backups_root : List String
  pub src_exists : Bool
  pub run_rsync : Option String → Rsync
  pub wipes_before : Bool
  pub wipes_after : Bool
  pub writes_meta : Bool
  pub links_latest : Bool
  pub writes_last : Bool

pub record SnapshotResult : Type 0 where
  pub ok : Bool
  pub snapshot_ts : Option String
  pub size_bytes : ℕ
  pub error_kind : Option ErrorKind

-- What `take_snapshot` gives: a result, or the FileExistsError of mkdir.
pub data Answer : Type 0 where
  result : SnapshotResult → Answer
  file_exists : Answer

is_prefix : List String → List String → Bool
is_prefix [] b = true
is_prefix (x ∷ a) [] = false
is_prefix (x ∷ a) (y ∷ b) = str_eq x y && is_prefix a b

-- `a.relative_to(b)` returns when b is a prefix of a; equal paths are prefixes of each other.
pub overlaps : List String → List String → Bool
unfolding is_prefix
overlaps a b = is_prefix b a || is_prefix a b

is_digit : ℕ → Bool
is_digit c = leb b'0' c && leb c b'9'

-- What follows so many digits.
skip_digits : ℕ → String → Option String
unfolding is_digit
skip_digits zero s = some s
skip_digits (suc n) String.[] = none
skip_digits (suc n) (String.◌∷◌ c s) =
    let rest = skip_digits n s in if is_digit (code c) then rest else none

abbrev six_digits : String → Bool
six_digits s = elim (skip_digits 6 s) [ none ↦ false | some t ↦ str_eq t "" ]

abbrev time_part : String → Bool
time_part String.[] = false
time_part (String.◌∷◌ c s) = code c == b'_' && six_digits s

-- YYYYMMDD_HHMMSS
pub is_snapshot_name : String → Bool
unfolding skip_digits
is_snapshot_name s = elim (skip_digits 8 s) [ none ↦ false | some t ↦ time_part t ]

-- The order of Python's texts.
pub name_leb : String → String → Bool
name_leb String.[] t = true
name_leb (String.◌∷◌ c s) String.[] = false
name_leb (String.◌∷◌ c s) (String.◌∷◌ d t) =
    ltb (code c) (code d) || (code c == code d && name_leb s t)

pub insert_by_name : Child → List Child → List Child
insert_by_name c [] = c ∷ []
insert_by_name c (x ∷ rest) =
    let later = insert_by_name c rest in if name_leb c.name x.name then c ∷ x ∷ rest else x ∷ later

abbrev pub is_snapshot : Child → Bool
is_snapshot c = c.is_dir && is_snapshot_name c.name

pub list_snapshot_dirs : List Child → List Child
unfolding insert_by_name
list_snapshot_dirs [] = []
list_snapshot_dirs (c ∷ rest) =
    let others = list_snapshot_dirs rest in
    if is_snapshot c then insert_by_name c others else others

-- The children of another name.
pub without : String → List Child → List Child
without s [] = []
without s (c ∷ rest) = let others = without s rest in if str_eq c.name s then others else c ∷ others

abbrev pub last_name : List Child → Option String
last_name [] = none
last_name (c ∷ []) = some c.name
last_name (c ∷ x ∷ rest) = last_name (x ∷ rest)

-- The last snapshot of another name; that test comes before the sorting here, to the same effect.
pub latest_snapshot : String → List Child → Option String
unfolding list_snapshot_dirs without
latest_snapshot exclude l = last_name (list_snapshot_dirs (without exclude l))

pub has_child : String → List Child → Bool
has_child s [] = false
has_child s (c ∷ rest) = str_eq c.name s || has_child s rest

-- `_fail`
abbrev pub fail : ErrorKind → Option String → Root → Answer × Root
fail kind ts root = (
  result (record { ok = false; snapshot_ts = ts; size_bytes = 0; error_kind = some kind }),
  record root { failures = kind ∷ root.failures },
)

-- The new snapshot is taken away and the failure told.
wipe_and_fail : Host → ErrorKind → List Child → Root → Answer × Root
wipe_and_fail host kind others root =
    fail kind none (if host.wipes_after then record root { children = others } else root)

-- `latest` and last_backup.txt
update_pointers : Host → String → ℕ → ℕ → Root → Answer × Root
update_pointers host ts now size root =
    if host.links_latest
    then (if host.writes_last
        then (
          result
              (record { ok = true; snapshot_ts = some ts; size_bytes = size; error_kind = none }),
          record root { latest = some ts; last_backup = some now },
        )
        else fail pointer_update_failed (some ts) (record root { latest = some ts }))
    else fail pointer_update_failed (some ts) root

abbrev new_child : String → ℕ → Option ℕ → Child
new_child ts now size = record { name = ts; is_dir = true; mtime = some now; meta_size = size }

-- What follows `run_rsync` into the new directory; `others` are the children beside it.
after_rsync : Host → String → ℕ → Rsync → List Child → Root → Answer × Root
unfolding wipe_and_fail update_pointers
after_rsync host ts now file_not_found others root = wipe_and_fail host rsync_missing others root
after_rsync host ts now crashed others root = wipe_and_fail host rsync_crash others root
after_rsync host ts now (ran out) others root =
    if out.returncode == 0
    then (if host.writes_meta
        then update_pointers host ts now out.size_bytes
            (record root { children = new_child ts now (some out.size_bytes) ∷ others })
        else wipe_and_fail host meta_write_failed others root)
    else wipe_and_fail host rsync_nonzero others root

pub take_snapshot : Host → String → ℕ → Root → Answer × Root
unfolding overlaps has_child latest_snapshot after_rsync
take_snapshot host ts now root =
    let others = without ts root.children in
    if overlaps host.data_root host.backups_root
    then fail overlap none root
    else if not host.src_exists
    then fail src_missing none root
    else if has_child ts root.children && not host.wipes_before
    then (file_exists, root)
    else after_rsync host ts now (host.run_rsync (latest_snapshot ts root.children)) others
        (record root { children = new_child ts now none ∷ others })
