-- ===== src/Stager/Complete.antt =====
-- When `_has_weight_file` takes a directory for staged.
use heyi_eval_v.Prelude.{
  ◌≡◌, ◌↔◌, ◌⊎◌, refl, inl, inr, true, false, ◌||◌, Option, none, some, arith, Bool-cases,
}
use heyi_eval_v.Stager.{
  Node, file, folder, sealed, Entries, download_ledger, incomplete, has_named, weight_filenames,
  scan_for_weights, has_weight_file,
}
use heyi_eval_v.Stager.Scan.{HasWeight, scan_for_weights-HasWeight}

-- A directory with no half-finished download, with a weight three levels deep at most or an index of
-- weights at its top.
pub record IsComplete (d : Option Node) : Type 0 where
  pub entries : Entries
  pub is_folder : d ≡ some (folder entries)
  pub finished : incomplete (download_ledger (folder entries)) ≡ false
  pub weighs : HasWeight 2 entries ⊎ (has_named weight_filenames entries ≡ true)

module _ (es : Entries) where
  unfinished :
      incomplete (download_ledger (folder es)) ≡ true → has_weight_file (some (folder es)) ≡ false
  unfolding has_weight_file
  unfinished e = rw e refl

  -- The download_ledger has been looked at before, so no manifest is asked for.
  finished :
      incomplete (download_ledger (folder es)) ≡ false
      → has_weight_file (some (folder es))
        ≡ (scan_for_weights (folder es) 3 || has_named weight_filenames es)
  unfolding has_weight_file
  finished e = ground (arith, e)

  folder-IsComplete : has_weight_file (some (folder es)) ≡ true → IsComplete (some (folder es))
  folder-IsComplete t = elim (Bool-cases (incomplete (download_ledger (folder es)))) [
    | inl e ↦ absurd (cc (t, unfinished e))
    | inr e ↦ record {
      entries = es;
      is_folder = refl;
      finished = e;
      weighs = elim (Bool-cases (scan_for_weights (folder es) 3)) [
        | inl w ↦ inl ((scan_for_weights-HasWeight es 3).0 w)
        | inr w ↦ inr (ground (arith, finished e))
      ];
    }
  ]

  weighs-true :
      HasWeight 2 es ⊎ (has_named weight_filenames es ≡ true)
      → (scan_for_weights (folder es) 3 || has_named weight_filenames es) ≡ true
  weighs-true (inl h) = rw ((scan_for_weights-HasWeight es 3).1 h) refl
  weighs-true (inr n) = ground arith

missing : has_weight_file none ≡ false
unfolding has_weight_file
missing = refl

not_folder : (d : Node) → ((es : Entries) → d ≡ folder es → ⊥) → has_weight_file (some d) ≡ false
unfolding has_weight_file
not_folder (file n) h = refl
not_folder sealed h = refl
not_folder (folder es) h = absurd (h es refl)

-- A directory is taken for staged just when it holds no half-finished download and has a weight (a file
-- or a directory with a known suffix) three levels deep at most, among names that are not hidden, or
-- an index of weights at its top. A manifest is not needed.
pub has_weight_file-IsComplete : (d : Option Node) → (has_weight_file d ≡ true) ↔ IsComplete d
has_weight_file-IsComplete d = (there d, back d)
  where
    there : (d : Option Node) → has_weight_file d ≡ true → IsComplete d
    there none t = absurd (cc (t, missing))
    there (some (folder es)) t = folder-IsComplete es t
    there (some (file n)) t = absurd (cc (t, not_folder (file n) (λ es e. cc e)))
    there (some sealed) t = absurd (cc (t, not_folder sealed (λ es e. cc e)))

    back : (d : Option Node) → IsComplete d → has_weight_file d ≡ true
    back d c = rw c.is_folder (rw (finished c.entries c.finished) (weighs-true c.entries c.weighs))
