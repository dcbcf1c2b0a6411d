-- ===== src/Stager/Staging/Settled.antt =====
-- What the staging of a model leaves behind.
use heyi_eval_v.Prelude.{
  ◌+◌, ◌≤◌, ◌≡◌, refl, subst, true, false, Option, none, some, List, String, arith, if_cases,
  if◌then◌else◌, ◌||◌,
}
use heyi_eval_v.Stager.{Node, Removal, removed, has_weight_file, cleanup_partial}
use heyi_eval_v.Stager.Staging.{
  ErrorKind, disk_full, oversize_inherited, download_timeout, download_failed,
  incomplete_after_download, StageModelResult, Fetch, path, times_out, fails, World, Request, Disk,
  graceful, skipped_by_plan, already, effective_allow, evict, lacks_room, run_downloader, give_up,
  repoint, check_weights, download, fetch_model, ensure_model_staged,
}

-- After a call of the downloader: the target has its weights, or it is gone if it can be removed.
record Fetched (w : World) (s : Disk) (r : StageModelResult) (t : Disk) : Type 0 where
  pub not_skipped : r.skipped ≡ false
  pub called : t.downloads ≡ s.downloads + 1
  pub staged : r.ok ≡ true → has_weight_file t.target ≡ true
  pub cleaned : r.ok ≡ false → ((d : Node) → w.rmtree d ≡ removed) → t.target ≡ none

abbrev FetchedBy : World → Disk → StageModelResult × Disk → Type 0
FetchedBy w s (r, t) = Fetched w s r t

cleanup_partial-gone :
    (rmtree : Node → Removal) (d : Option Node)
    → ((x : Node) → rmtree x ≡ removed)
    → (cleanup_partial rmtree d).1 ≡ none
unfolding cleanup_partial
cleanup_partial-gone rmtree none h = refl
cleanup_partial-gone rmtree (some x) h = ground (arith, h x)

give_up-Fetched :
    (w : World) (k : ErrorKind) (patterns : Option (List String)) (s t : Disk)
    → t.downloads ≡ s.downloads + 1
    → FetchedBy w s (give_up w k patterns t)
give_up-Fetched w k patterns s t e = record {
  not_skipped = refl;
  called = e;
  staged = λ h. absurd (cc h);
  cleaned = λ _ h. cleanup_partial-gone w.rmtree t.target h;
}

check_weights-Fetched :
    (w : World) (patterns : Option (List String)) (s t : Disk)
    → t.downloads ≡ s.downloads + 1
    → FetchedBy w s (check_weights w patterns t)
unfolding check_weights
check_weights-Fetched w patterns s t e =
    if_cases (FetchedBy w s) (has_weight_file t.target) _ _
      (λ y. record {
        not_skipped = refl;
        called = e;
        staged = λ _. y;
        cleaned = λ h. absurd (cc h);
      })
      (λ _. give_up-Fetched w incomplete_after_download patterns s t e)

download-Fetched :
    (w : World) (q : Request) (patterns : Option (List String)) (s : Disk)
    → FetchedBy w s (download w q patterns s)
unfolding download
download-Fetched w q patterns s = by_fetch (run_downloader w q patterns)
  where
    by_fetch :
        (f : Fetch)
        → FetchedBy w s (
            let t : Disk = record s { target = w.fetched patterns; downloads = s.downloads + 1 } in
            let r : StageModelResult × Disk = elim f [
              | times_out ↦ give_up w download_timeout patterns t
              | fails ↦ give_up w download_failed patterns t
              | path p ↦ check_weights w patterns (record t { target = repoint w q p t.target })
            ] in
            r)
    by_fetch times_out = give_up-Fetched w download_timeout patterns s _ refl
    by_fetch fails = give_up-Fetched w download_failed patterns s _ refl
    by_fetch (path p) = check_weights-Fetched w patterns s _ refl

-- The end of a staging: a model that is staged has its weights; a skip calls no downloader; a failure
-- comes after one call and leaves no target, if it can be removed.
pub record Settled (w : World) (s : Disk) (r : StageModelResult) (t : Disk) : Type 0 where
  pub staged : r.ok ≡ true → (r.skipped ≡ false) × (has_weight_file t.target ≡ true)
  pub skipped : r.skipped ≡ true → t.downloads ≡ s.downloads
  pub given_up :
      r.ok ≡ false
      → r.skipped ≡ false
      → (t.downloads ≡ s.downloads + 1) × (((d : Node) → w.rmtree d ≡ removed) → t.target ≡ none)
  pub once : t.downloads ≤ s.downloads + 1

abbrev pub SettledBy : World → Disk → StageModelResult × Disk → Type 0
SettledBy w s (r, t) = Settled w s r t

Fetched-Settled :
    (w : World) (s : Disk) (r : StageModelResult) (t : Disk) → Fetched w s r t → Settled w s r t
Fetched-Settled w s r t f = record {
  staged = λ h. (f.not_skipped, f.staged h);
  skipped = λ h. absurd (cc (h, f.not_skipped));
  given_up = λ h _. (f.called, f.cleaned h);
  once = omega (arith, f.called);
}

evict-downloads : (w : World) (q : Request) (s : Disk) → (evict w q s).1.downloads ≡ s.downloads
unfolding evict
evict-downloads w q s = ground arith

repoint_complete :
    (w : World) (q : Request) (p : Option String) (d : Option Node)
    → has_weight_file d ≡ true
    → repoint w q p d ≡ d
unfolding repoint
repoint_complete w q none d c = refl
repoint_complete w q (some p) d c = rw c refl

fetch_model-Settled : (w : World) (q : Request) (s : Disk) → SettledBy w s (fetch_model w q s)
unfolding fetch_model
fetch_model-Settled w q s =
    let (freed, t) = evict w q s in
    let kept : t.downloads ≡ s.downloads = evict-downloads w q s in
    let f = download-Fetched w q (effective_allow q) t in
    if_cases (SettledBy w s) (lacks_room w q freed) (graceful disk_full, t)
      (download w q (effective_allow q) t)
      (λ _. record {
        staged = λ h. absurd (cc h);
        skipped = λ _. kept;
        given_up = λ _ h. absurd (cc h);
        once = omega (arith, kept);
      })
      (λ _. Fetched-Settled w s _ _ (record {
        not_skipped = f.not_skipped;
        called = omega (arith, f.called, kept);
        staged = f.staged;
        cleaned = f.cleaned;
      }))

-- However a model is staged: if it is reported as staged, its directory has its weights; a skip calls no
-- downloader; a failure comes after one call of it, and the directory is gone if it can be removed,
-- whatever stood there before the call; and there is never more than one call.
pub ensure_model_staged-Settled :
    (w : World) (q : Request) (s : Disk) → SettledBy w s (ensure_model_staged w q s)
unfolding ensure_model_staged
ensure_model_staged-Settled w q s =
    if_cases (SettledBy w s) (skipped_by_plan q) (graceful oversize_inherited, s) _
      (λ _. record {
        staged = λ h. absurd (cc h);
        skipped = λ _. refl;
        given_up = λ _ h. absurd (cc h);
        once = omega arith;
      })
      (λ _.
        if_cases (SettledBy w s) (has_weight_file s.target) (already s.target, s)
          (fetch_model w q s)
          (λ y. record {
            staged = λ _. (refl, y);
            skipped = λ h. absurd (cc h);
            given_up = λ h. absurd (cc h);
            once = omega arith;
          })
          (λ _. fetch_model-Settled w q s))

-- A model that the engine plan marks as oversize is skipped, and one that is there already is reported
-- so: nothing is downloaded, evicted or removed.
pub ensure_model_staged_idle :
    (w : World) (q : Request) (s : Disk)
    → (skipped_by_plan q || has_weight_file s.target) ≡ true
    → ensure_model_staged w q s
      ≡ ((if skipped_by_plan q then graceful oversize_inherited else already s.target), s)
unfolding ensure_model_staged
ensure_model_staged_idle w q s h = ground arith

-- Once a model has been staged, it is staged: whatever is requested for the same directory later, by a
-- plan that does not mark it as oversize, finds it there, and changes nothing.
pub ensure_model_staged_twice :
    (w v : World) (q p : Request) (s t : Disk) (r : StageModelResult)
    → ensure_model_staged w q s ≡ (r, t)
    → r.ok ≡ true
    → skipped_by_plan p ≡ false
    → ensure_model_staged v p t ≡ (already t.target, t)
ensure_model_staged_twice w v q p s t r e o n =
    let settled : Settled w s r t = subst (SettledBy w s) e (ensure_model_staged-Settled w q s) in
    let idle = ensure_model_staged_idle v p t (rw (settled.staged o).1 (ground arith)) in
    ground (arith, idle, n)

-- A model that is not marked as oversize, is not there, and fits is staged, if the downloader returns in
-- time and leaves it complete; the target is what the downloader made of it.
pub ensure_model_staged-ok :
    (w : World) (q : Request) (s : Disk) (p : Option String)
    → skipped_by_plan q ≡ false
    → has_weight_file s.target ≡ false
    → lacks_room w q (evict w q s).0 ≡ false
    → run_downloader w q (effective_allow q) ≡ path p
    → has_weight_file (w.fetched (effective_allow q)) ≡ true
    → ((ensure_model_staged w q s).0.ok ≡ true)
      × ((ensure_model_staged w q s).1.target ≡ w.fetched (effective_allow q))
unfolding ensure_model_staged fetch_model download check_weights
ensure_model_staged-ok w q s p n a room f c =
    let kept = repoint_complete w q p (w.fetched (effective_allow q)) c in
    ground (arith, kept, f, room, n, a, c)
