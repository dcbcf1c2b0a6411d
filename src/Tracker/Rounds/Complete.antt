-- ===== src/Tracker/Rounds/Complete.antt =====
-- What the incremental scan finds of a listing that is newest first.
use heyi_eval_v.Prelude.{
  ℕ, ◌≡◌, refl, true, false, Bool, not, ◌&&◌, ◌||◌, any, str_eq, List, [], ◌∷◌, ◌++◌, All, String,
  eq_iff, arith, if_cases,
}
use heyi_eval_v.Tracker.{
  Model, Candidate, TrackerConfig, passes_modality, Cursor, Judgement, ScanState, seen_before,
  too_old, wrong_modality, below_threshold, taken, incremental, Reason, is_seen, settle, judge,
  is_older, new_scan, open_verdict,
}
use heyi_eval_v.Tracker.Rounds.{cutoff_of, drain_incremental, scan_incremental}

-- Whether a candidate has that id.
abbrev pub is_listed : String → List Candidate → Bool
is_listed k l = any (λ n. str_eq n.model.hf_id k) l

is_listed-snoc :
    (k : String) (n : Candidate) (l : List Candidate)
    → is_listed k (l ++ n ∷ []) ≡ (is_listed k l || str_eq n.model.hf_id k)
is_listed-snoc k n [] = ground arith
is_listed-snoc k n (x ∷ rest) = ground (arith, is_listed-snoc k n rest)

settle-seen :
    (k : String) (r : Reason) (m : Model) (v : Judgement) (s : ScanState)
    → is_seen k s.seen ≡ true
    → is_seen k (settle r m v s).seen ≡ true
unfolding settle
settle-seen k r m seen_before s h = h
settle-seen k r m too_old s h = h
settle-seen k r m wrong_modality s h = h
settle-seen k r m below_threshold s h = h
settle-seen k r m taken s h = ground arith

settled_seen :
    (m : Model) (v : Judgement) (s : ScanState)
    → v ≡ taken
    → is_seen m.hf_id (settle incremental m (judge m s.seen v) s).seen ≡ true
unfolding settle judge
settled_seen m v s h = ground (arith, eq_iff m.hf_id m.hf_id)

module _ (c : TrackerConfig) (cutoff : ℕ) where
  drain-seen :
      (k : String) (l : List Model) (s : ScanState)
      → is_seen k s.seen ≡ true
      → is_seen k (drain_incremental c cutoff l s).seen ≡ true
  unfolding drain_incremental
  drain-seen k [] s h = h
  drain-seen k (m ∷ rest) s h =
      if_cases {A = ScanState} (λ t. is_seen k t.seen ≡ true) (is_older cutoff m.last_modified) _ _
        (λ _. h)
        (λ _.
          drain-seen k rest _ (settle-seen k incremental m (judge m s.seen (open_verdict c m)) s h))

  drain_reaches :
      (newer : List Model) (m : Model) (rest : List Model) (s : ScanState)
      → All (λ x. is_older cutoff x.last_modified ≡ false) newer
      → is_older cutoff m.last_modified ≡ false
      → open_verdict c m ≡ taken
      → is_seen m.hf_id (drain_incremental c cutoff (newer ++ m ∷ rest) s).seen ≡ true
  unfolding drain_incremental
  drain_reaches [] m rest s a o v =
      rw o (drain-seen m.hf_id rest _ (settled_seen m (open_verdict c m) s v))
  drain_reaches (x ∷ newer) m rest s a o v = rw a.0 (drain_reaches newer m rest _ a.1 o v)

-- What has been seen is from before, or among the new candidates.
record Tied (before : List String) (s : ScanState) : Type 0 where
  from : (k : String) → is_seen k s.seen ≡ true → (is_seen k before || is_listed k s.new) ≡ true

settle-Tied :
    (before : List String) (r : Reason) (m : Model) (v : Judgement) (s : ScanState)
    → Tied before s
    → Tied before (settle r m v s)
unfolding settle
settle-Tied before r m seen_before s h = record { from = h.from }
settle-Tied before r m too_old s h = record { from = h.from }
settle-Tied before r m wrong_modality s h = record { from = h.from }
settle-Tied before r m below_threshold s h = record { from = h.from }
settle-Tied before r m taken s h = record {
  from = λ k e. ground (arith, h.from k, is_listed-snoc k (record { model = m; reason = r }) s.new);
}

drain-Tied :
    (before : List String) (c : TrackerConfig) (cutoff : ℕ) (l : List Model) (s : ScanState)
    → Tied before s
    → Tied before (drain_incremental c cutoff l s)
unfolding drain_incremental
drain-Tied before c cutoff [] s h = h
drain-Tied before c cutoff (m ∷ rest) s h =
    if_cases (Tied before) (is_older cutoff m.last_modified) _ _ (λ _. record { from = h.from })
      (λ _.
        drain-Tied before c cutoff rest _
          (settle-Tied before incremental m (judge m s.seen (open_verdict c m)) s h))

-- A model of an allowed modality that is neither private nor gated, is not older than the end of the last round, and stands in the
-- answer behind none that is: the incremental scan has its id among the new candidates, or it was seen
-- before this round; and it counts as seen from then on. So it is also if the answer breaks off behind it.
pub scan_incremental_reaches :
    (c : TrackerConfig) (now : ℕ) (cursor : Cursor) (newer : List Model) (m : Model)
    (rest : List Model) (fails : Bool)
    → All (λ x. is_older (cutoff_of c cursor.last_run_ts) x.last_modified ≡ false) newer
    → is_older (cutoff_of c cursor.last_run_ts) m.last_modified ≡ false
    → passes_modality m.pipeline_tag c.modality_pipeline_tags ≡ true
    → m.private ≡ false
    → m.gated ≡ false
    → let r =
        scan_incremental c now (record { models = newer ++ m ∷ rest; fails = fails }) cursor in
      ((is_seen m.hf_id cursor.seen || is_listed m.hf_id r.0.0) ≡ true)
      × (is_seen m.hf_id r.1.seen ≡ true)
unfolding scan_incremental
scan_incremental_reaches c now cursor newer m rest fails a o modality private gated =
    let v : open_verdict c m ≡ taken = rw (modality, private, gated) refl in
    let cutoff = cutoff_of c cursor.last_run_ts in
    let s = drain_incremental c cutoff (newer ++ m ∷ rest) (new_scan cursor) in
    let e = drain_reaches c cutoff newer m rest (new_scan cursor) a o v in
    let tied =
      drain-Tied cursor.seen c cutoff (newer ++ m ∷ rest) (new_scan cursor)
        (record { from = λ k h. ground (arith, h) }) in
    if_cases {A = ScanState}
      (λ t.
        ((is_seen m.hf_id cursor.seen || is_listed m.hf_id t.new) ≡ true)
        × (is_seen m.hf_id t.seen ≡ true))
      (fails && not s.finished) _ _ (λ _. (tied.from m.hf_id e, e)) (λ _. (tied.from m.hf_id e, e))
