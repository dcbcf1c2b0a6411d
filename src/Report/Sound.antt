-- ===== src/Report/Sound.antt =====
-- What a report that was read promises.
use heyi_eval_v.Prelude.{◌≡◌, ◌≢◌, ◌⊎◌, not, [], arith, if_cases, option_cases}
use heyi_eval_v.Prelude.Codes.{Text, text_eq, text_eq_iff, strip}
use heyi_eval_v.Report.{
  Decoder, Extracted, report, error, RunReport, pass, payload, parse, accept, extract_report,
  to_report_dataclass, enforce_pass_requires_feature, unwrap_markdown_codeblock,
}

-- The report is for this lane and target, and does not pass without a feature.
abbrev pub Promised : Text → Text → RunReport → Type 0
Promised lane target_id r =
    (r.lane ≡ lane)
    × (r.target_id ≡ target_id)
    × ((r.outcome ≢ pass) ⊎ (r.verdict.core_features_demonstrated ≢ []))

abbrev pub Sound : Text → Text → Extracted → Type 0
Sound lane target_id (report r) = Promised lane target_id r
Sound lane target_id (error e) = Unit

enforced-Promised :
    (lane target_id : Text) (r : RunReport)
    → r.lane ≡ lane
    → r.target_id ≡ target_id
    → Promised lane target_id (enforce_pass_requires_feature r)
unfolding enforce_pass_requires_feature
enforced-Promised lane target_id r e f = ground arith

module _ (d : Decoder) (lane target_id : Text) where
  accept-Sound :
      (fenced : Text) (o : d.Json) → Sound lane target_id (accept d lane target_id fenced o)
  unfolding accept to_report_dataclass
  accept-Sound fenced o =
      if_cases (Sound lane target_id) (not (d.is_valid o)) _ _ (λ _. tt)
        (λ _.
          if_cases (Sound lane target_id) (not (text_eq (d.read o).lane lane)) _ _ (λ _. tt)
            (λ l.
              if_cases (Sound lane target_id) (not (text_eq (d.read o).target_id target_id)) _ _
                (λ _. tt)
                (λ t.
                  enforced-Promised lane target_id (to_report_dataclass (d.read o))
                    ((text_eq_iff (d.read o).lane lane).0 (ground arith))
                    ((text_eq_iff (d.read o).target_id target_id).0 (ground arith)))))

  parse-Sound : (fenced : Text) → Sound lane target_id (parse d lane target_id fenced)
  unfolding parse
  parse-Sound fenced =
      if_cases (Sound lane target_id) (text_eq (strip fenced) []) _ _ (λ _. tt)
        (λ _.
          option_cases (Sound lane target_id) (d.loads (unwrap_markdown_codeblock fenced)) _
            (λ o. accept d lane target_id fenced o) tt (accept-Sound fenced))

  pub extract_report-Sound :
      (raw : Text) → Sound lane target_id (extract_report d lane target_id raw)
  unfolding extract_report
  extract_report-Sound raw =
      option_cases (Sound lane target_id) (payload d raw) _
        (λ fenced. parse d lane target_id fenced) tt parse-Sound
