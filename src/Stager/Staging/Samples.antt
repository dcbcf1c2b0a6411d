-- ===== src/Stager/Staging/Samples.antt =====
-- Models that are staged, skipped and given up, and instances of the theorems about staging.
use heyi_eval_v.Prelude.{◌*◌, ◌≡◌, ◌↔◌, refl, true, false, none, some, []}
use heyi_eval_v.Prelude.Codes.{ends_with, any_place, contains}
use heyi_eval_v.Stager.{
  Node, file, folder, end, entry, removed, has_weight_file, scan_for_weights, has_suffix, is_hidden,
  cleanup_partial,
}
use heyi_eval_v.Stager.Complete.{IsComplete, has_weight_file-IsComplete}
use heyi_eval_v.Stager.Patterns.{
  Metadata, estimate_size_bytes, compute_allow_patterns, looks_like_gguf_repo, gguf_patterns,
}
use heyi_eval_v.Stager.Staging.{
  path, World, Request, Disk, failure, graceful, download_timeout, disk_full, lacks_room, evict,
  ensure_model_staged,
}
use heyi_eval_v.Stager.Staging.Settled.{
  SettledBy, ensure_model_staged-Settled, ensure_model_staged-ok,
}

abbrev snapshot : Node
snapshot = folder (
    entry "config.json" (file 3) (
      entry "audio" (folder (entry "Encoder.MLPackage" (folder (entry "w" (file 40) end)) end))
        end))

abbrev deep : Node
deep = folder (
    entry "a"
      (folder (entry "b" (folder (entry "c" (folder (entry "m.bin" (file 9) end)) end)) end)) end)

abbrev partial : Node
partial = folder (
    entry "m.safetensors" (file 70) (
      entry ".cache"
        (folder (
          entry "huggingface"
            (folder (entry "download" (folder (entry "x.incomplete" (file 5) end)) end)) end))
        end))

is_complete : has_weight_file (some snapshot) ≡ true
unfolding has_weight_file scan_for_weights has_suffix is_hidden ends_with
is_complete = refl

-- Four levels down is too deep.
too_deep : has_weight_file (some deep) ≡ false
unfolding has_weight_file scan_for_weights has_suffix is_hidden ends_with
too_deep = refl

half_finished : has_weight_file (some partial) ≡ false
unfolding has_weight_file ends_with
half_finished = refl

has_weight_file-IsComplete_example :
    (has_weight_file (some snapshot) ≡ true) ↔ IsComplete (some snapshot)
has_weight_file-IsComplete_example = has_weight_file-IsComplete (some snapshot)

abbrev metadata : Metadata
metadata = record {
  hf_info = record {
    used_storage = none;
    old_used_storage = none;
    safetensors = none;
    library_name = none;
    siblings = [];
  };
  param_count = some "7B";
  hf_id = some "org/m";
}

abbrev world : World
world = record {
  fetch = λ ps. path none;
  late = false;
  fetched = λ ps. some snapshot;
  rmtree = λ d. removed;
  at = λ p. none;
  rmdir = true;
  symlink = true;
  free = λ n. 500;
  fnmatch = λ name p. true;
  fp16_bytes = λ t. some 100;
  scale = λ n. 2 * n;
  now = 9000;
  state_files = [];
  cache_dirs = some [];
  removes = λ name. true;
}

abbrev request : Request
request = record {
  hf_id = "org/m";
  target_name = "org__m";
  target_path = "/cache/org__m";
  metadata = metadata;
  oversize = false;
  engine = some "vllm";
  allow_patterns = some [];
  headroom_floor_bytes = 300;
  limited = true;
  cache_quota_bytes = none;
}

abbrev disk : Disk
disk = record { target = none; downloads = 0; evicted = [] }

ensure_model_staged-Settled_example : SettledBy world disk (ensure_model_staged world request disk)
ensure_model_staged-Settled_example = ensure_model_staged-Settled world request disk

not_there : has_weight_file none ≡ false
unfolding has_weight_file
not_there = refl

room : lacks_room world request (evict world request disk).0 ≡ false
unfolding evict estimate_size_bytes
room = refl

ensure_model_staged-ok_example :
    ((ensure_model_staged world request disk).0.ok ≡ true)
    × ((ensure_model_staged world request disk).1.target ≡ some snapshot)
ensure_model_staged-ok_example =
    ensure_model_staged-ok world request disk none refl not_there room refl is_complete

-- A downloader that hangs is given up, and what it left is removed.
late : World
late = record world { late = true; fetched = λ ps. some partial }

hangs : ensure_model_staged late request disk ≡ (
  record (failure download_timeout) { bytes_freed = 75; allow_patterns = some [] },
  record disk { downloads = 1 },
)
unfolding late ensure_model_staged has_weight_file evict estimate_size_bytes cleanup_partial
hangs = refl

-- A download that filled another directory becomes a link to it.
abbrev linked : World
linked = record world {
  fetch = λ ps. path (some "/hub/s");
  fetched = λ ps. some (folder end);
  at = λ p. some snapshot;
}

links : (ensure_model_staged linked request disk).1.target ≡ some snapshot
unfolding ensure_model_staged has_weight_file evict estimate_size_bytes scan_for_weights has_suffix
    is_hidden ends_with
links = refl

-- 2 * 100 bytes are asked for, and 300 at least.
full :
    ensure_model_staged (record world { free = λ n. 299 }) request disk ≡ (graceful disk_full, disk)
unfolding ensure_model_staged has_weight_file evict estimate_size_bytes
full = refl

gguf : compute_allow_patterns "unsloth/Qwen-GGUF" metadata ≡ some gguf_patterns
unfolding compute_allow_patterns looks_like_gguf_repo contains ends_with any_place
gguf = refl
