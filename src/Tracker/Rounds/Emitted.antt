-- ===== src/Tracker/Rounds/Emitted.antt =====
-- Which models the rounds of scans write to candidates.jsonl.
use heyi_eval_v.Prelude.{
  ℕ, ◌≡◌, refl, sym, subst, ◌∙◌, ap, Bool, true, false, ◌||◌, List, [], ◌∷◌, ◌++◌, String, str_eq,
  eq_iff, arith, if_cases,
}
use heyi_eval_v.Tracker.{
  Reason, Model, Candidate, TrackerConfig, Answer, Judgement, ScanState, seen_before, too_old,
  wrong_modality, below_threshold, taken, backfill, incremental, whitelist, trending, is_seen,
  settle, judge, is_older, new_scan, failed, whitelist_verdict, trending_verdict, backfill_verdict,
  open_verdict,
}
use heyi_eval_v.Tracker.Rounds.{
  Mode, Hub, Files, scan_org, scan_orgs, upgrade, scan_trending, scan_round, drain_backfill,
  scan_backfill, drain_incremental, scan_incremental, cmd_once, discover_rounds, runs_curated,
  runs_backfill, oldest,
}

abbrev pub ids : List Candidate → List String
ids [] = []
ids (n ∷ rest) = n.model.hf_id ∷ ids rest

abbrev pub Distinct : List String → Type 0
Distinct [] = Unit
Distinct (k ∷ rest) = (is_seen k rest ≡ false) × Distinct rest

ids-append : (a b : List Candidate) → ids (a ++ b) ≡ ids a ++ ids b
ids-append [] b = refl
ids-append (n ∷ rest) b = ap (λ l. n.model.hf_id ∷ l) (ids-append rest b)

is_seen-snoc :
    (k x : String) (l : List String) → is_seen k (l ++ x ∷ []) ≡ (is_seen k l || str_eq x k)
is_seen-snoc k x [] = ground arith
is_seen-snoc k x (y ∷ rest) = ground (arith, is_seen-snoc k x rest)

Distinct-snoc :
    (x : String) (l : List String) → is_seen x l ≡ false → Distinct l → Distinct (l ++ x ∷ [])
Distinct-snoc x [] h d = (refl, tt)
Distinct-snoc x (y ∷ rest) h d = (
  rw (is_seen-snoc y x rest, d.0) (ground (arith, eq_iff x y, eq_iff y x)),
  Distinct-snoc x rest (ground arith) d.1,
)

-- The ids are distinct, and every one of them is in the set of what has been seen.
pub record Tracked (l seen : List String) : Type 0 where
  pub distinct : Distinct l
  pub known : (k : String) → is_seen k l ≡ true → is_seen k seen ≡ true

Tracked-snoc :
    (x : String) (l seen : List String)
    → is_seen x seen ≡ false
    → Tracked l seen
    → Tracked (l ++ x ∷ []) (x ∷ seen)
Tracked-snoc x l seen h t = record {
  distinct = Distinct-snoc x l (ground (arith, t.known x)) t.distinct;
  known = λ k e. ground (arith, is_seen-snoc k x l, t.known k);
}

-- A scan that appends to a file with the ids `base`.
record Good (base : List String) (s : ScanState) : Type 0 where
  tracked : Tracked (base ++ ids s.new) s.seen

append_assoc : (a b c : List String) → (a ++ b) ++ c ≡ a ++ (b ++ c)
append_assoc [] b c = refl
append_assoc (x ∷ a) b c = ap (λ l. x ∷ l) (append_assoc a b c)

module _ (base : List String) where
  settle-Good :
      (reason : Reason) (m : Model) (v : Judgement) (s : ScanState)
      → (v ≡ taken → is_seen m.hf_id s.seen ≡ false)
      → Good base s
      → Good base (settle reason m v s)
  unfolding settle
  settle-Good reason m seen_before s f h = record { tracked = h.tracked }
  settle-Good reason m too_old s f h = record { tracked = h.tracked }
  settle-Good reason m wrong_modality s f h = record { tracked = h.tracked }
  settle-Good reason m below_threshold s f h = record { tracked = h.tracked }
  settle-Good reason m taken s f h = record {
    tracked =
        subst (λ l. Tracked l (m.hf_id ∷ s.seen))
          (append_assoc base (ids s.new) (m.hf_id ∷ [])
            ∙ ap (λ l. base ++ l)
                (sym (ids-append s.new (record { model = m; reason = reason } ∷ []))))
          (Tracked-snoc m.hf_id (base ++ ids s.new) s.seen (f refl) h.tracked);
  }

  judged :
      (m : Model) (seen : List String) (v : Judgement)
      → judge m seen v ≡ taken
      → is_seen m.hf_id seen ≡ false
  unfolding judge
  judged m seen v h = ground arith

  visited-Good :
      (reason : Reason) (m : Model) (v : Judgement) (s : ScanState)
      → Good base s
      → Good base (settle reason m (judge m s.seen v) s)
  visited-Good reason m v s h = settle-Good reason m (judge m s.seen v) s (judged m s.seen v) h

  failed-Good : (b : Bool) (s : ScanState) → Good base s → Good base (failed b s)
  failed-Good true s h = record { tracked = h.tracked }
  failed-Good false s h = h

  scan_org-Good :
      (c : TrackerConfig) (l : List Model) (s : ScanState)
      → Good base s
      → Good base (scan_org c l s)
  unfolding scan_org
  scan_org-Good c [] s h = h
  scan_org-Good c (m ∷ rest) s h =
      scan_org-Good c rest _ (visited-Good whitelist m (whitelist_verdict c m) s h)

  scan_orgs-Good :
      (c : TrackerConfig) (hub : String → Answer) (l : List String) (s : ScanState)
      → Good base s
      → Good base (scan_orgs c hub l s)
  unfolding scan_orgs
  scan_orgs-Good c hub [] s h = h
  scan_orgs-Good c hub (org ∷ rest) s h = scan_orgs-Good c hub rest _ (
      if_cases (Good base) (hub org).fails _ _ (λ _. failed-Good true s h)
        (λ _. scan_org-Good c (hub org).models s h))

  ids-upgrade : (k : String) (l : List Candidate) → ids (upgrade k l) ≡ ids l
  unfolding upgrade
  ids-upgrade k [] = refl
  ids-upgrade k (n ∷ rest) = ground (arith, ids-upgrade k rest)

  upgraded-Good :
      (k : String) (s : ScanState) → Good base s → Good base (record s { new = upgrade k s.new })
  upgraded-Good k s h = record { tracked = rw (ids-upgrade k s.new) h.tracked }

  scan_trending-Good :
      (c : TrackerConfig) (now : ℕ) (l : List Model) (s : ScanState)
      → Good base s
      → Good base (scan_trending c now l s)
  unfolding scan_trending
  scan_trending-Good c now [] s h = h
  scan_trending-Good c now (m ∷ rest) s h =
      let v = trending_verdict c now m in
      if_cases {A = ScanState}
        (λ t. Good base (scan_trending c now rest (settle trending m (judge m s.seen v) t)))
        (is_seen m.hf_id s.seen) _ _
        (λ _. scan_trending-Good c now rest _ (
          settle-Good trending m (judge m s.seen v) (record s { new = upgrade m.hf_id s.new })
            (judged m s.seen v) (upgraded-Good m.hf_id s h)))
        (λ _. scan_trending-Good c now rest _ (visited-Good trending m v s h))

  drain_backfill-Good :
      (c : TrackerConfig) (l : List Model) (s : ScanState)
      → Good base s
      → Good base (drain_backfill c l s)
  unfolding drain_backfill
  drain_backfill-Good c [] s h = h
  drain_backfill-Good c (m ∷ rest) s h =
      let t = record s { oldest_seen = oldest m.last_modified s.oldest_seen } in
      let g : Good base t = record { tracked = h.tracked } in
      if_cases (Good base) (is_older c.from_date m.last_modified) _ _
        (λ _.
          let x = settle-Good backfill m too_old t (λ e. cc) g in record { tracked = x.tracked })
        (λ _. drain_backfill-Good c rest _ (visited-Good backfill m (backfill_verdict c m) t g))

  drain_incremental-Good :
      (c : TrackerConfig) (cutoff : ℕ) (l : List Model) (s : ScanState)
      → Good base s
      → Good base (drain_incremental c cutoff l s)
  unfolding drain_incremental
  drain_incremental-Good c cutoff [] s h = h
  drain_incremental-Good c cutoff (m ∷ rest) s h =
      if_cases (Good base) (is_older cutoff m.last_modified) _ _
        (λ _. record { tracked = h.tracked })
        (λ _.
          drain_incremental-Good c cutoff rest _
            (visited-Good incremental m (open_verdict c m) s h))

-- candidates.jsonl names no model twice, and the cursor has seen every model of it.
abbrev pub Kept : Files → Type 0
Kept f = Tracked (ids f.candidates) f.cursor.seen

Good-start : (f : Files) → Kept f → Good (ids f.candidates) (new_scan f.cursor)
Good-start f h = record { tracked = rw (append_nil (ids f.candidates)) h }
  where
    append_nil : (l : List String) → l ++ [] ≡ l
    append_nil [] = refl
    append_nil (x ∷ rest) = ap (λ l. x ∷ l) (append_nil rest)

Good-end :
    (f : Files) (s : ScanState)
    → Good (ids f.candidates) s
    → Tracked (ids (f.candidates ++ s.new)) s.seen
Good-end f s h = rw (ids-append f.candidates s.new) h.tracked

module _ (c : TrackerConfig) (hub : Hub) (f : Files) (h : Kept f) where
  round-Kept :
      let x = scan_round c hub.now hub.orgs hub.trends f.cursor in
      Tracked (ids (f.candidates ++ x.0.0)) x.1.seen
  unfolding scan_round
  round-Kept =
      let base = ids f.candidates in
      let s = scan_orgs c hub.orgs c.whitelist_orgs (new_scan f.cursor) in
      let g =
        scan_orgs-Good base c hub.orgs c.whitelist_orgs (new_scan f.cursor) (Good-start f h) in
      Good-end f _ (
        if_cases (Good base) hub.trends.fails (failed true s)
          (scan_trending c hub.now hub.trends.models s) (λ _. failed-Good base true s g)
          (λ _. scan_trending-Good base c hub.now hub.trends.models s g))

  backfill-Kept :
      let x = scan_backfill c hub.now hub.pages f.cursor in
      Tracked (ids (f.candidates ++ x.0.0)) x.1.seen
  unfolding scan_backfill
  backfill-Kept =
      let base = ids f.candidates in
      Good-end f _ (
        failed-Good base _ _
          (drain_backfill-Good base c hub.pages.models (new_scan f.cursor) (Good-start f h)))

  incremental-Kept :
      let x = scan_incremental c hub.now hub.news f.cursor in
      Tracked (ids (f.candidates ++ x.0.0)) x.1.seen
  unfolding scan_incremental
  incremental-Kept =
      let base = ids f.candidates in
      Good-end f _ (
        failed-Good base _ _
          (drain_incremental-Good base c _ hub.news.models (new_scan f.cursor) (Good-start f h)))

  cmd_once-Kept : (mode : Mode) → Kept (cmd_once c mode hub f)
  unfolding cmd_once
  cmd_once-Kept mode =
      if_cases Kept (runs_curated mode) _ _ (λ _. round-Kept)
        (λ _.
          if_cases Kept (runs_backfill mode f.cursor) _ _ (λ _. backfill-Kept)
            (λ _. incremental-Kept))

-- If candidates.jsonl names no model twice and the cursor has seen every model of it, as when both are
-- empty, so it is after any rounds of scans that run to their end, in any mode and whatever the hub answers, failures
-- included: no model is written to the file a second time.
pub discover_rounds-Kept :
    (c : TrackerConfig) (mode : Mode) (hubs : List Hub) (f : Files)
    → Kept f
    → Kept (discover_rounds c mode hubs f)
unfolding discover_rounds
discover_rounds-Kept c mode [] f h = h
discover_rounds-Kept c mode (hub ∷ rest) f h =
    discover_rounds-Kept c mode rest (cmd_once c mode hub f) (cmd_once-Kept c hub f h mode)
