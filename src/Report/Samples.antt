-- ===== src/Report/Samples.antt =====
-- Outputs of agents, read with a small decoder, and an instance of the theorem about fences.
use heyi_eval_v.Prelude.{◌≡◌, refl, true, Option, none, some, [], ◌∷◌, ◌++◌, if◌then◌else◌}
use heyi_eval_v.Prelude.Codes.{
  Text, codes, starts_with, contains, after_first, after_last, before_first, ends_with,
}
use heyi_eval_v.Report.{
  Decoder, ReportObject, Outcome, pass, partial, fence_open, fence_close,
  iter_balanced_json_objects, extract_report, parse, payload, salvage_report_payload, accept,
  report, error, Extracted,
}
use heyi_eval_v.Report.Fences.{extract_report-fenced}

abbrev object : Outcome → ReportObject
object outcome = record {
  schema_version = codes "1.0";
  lane = codes "project";
  target_id = codes "o/r";
  outcome = outcome;
  steps = [];
  deploys = true;
  quickstart_works = true;
  core_features_demonstrated = none;
  blockers = none;
  follow_ups = none;
}

-- It takes any text in braces for a report that passes.
abbrev decoder : Decoder
decoder = record {
  Json = Text;
  loads = λ s. if starts_with (codes "{") s then some s else none;
  is_signed = λ o. true;
  is_valid = λ o. true;
  read = λ o. object pass;
}

abbrev outcome_of : Extracted → Option Outcome
outcome_of (report r) = some r.outcome
outcome_of (error e) = none

-- A brace inside a text ends no object.
objects :
    iter_balanced_json_objects (codes "a {\"}\": {}} b {}") ≡ codes "{\"}\": {}}" ∷ codes "{}" ∷ []
unfolding iter_balanced_json_objects
objects = refl

-- An apostrophe is no quote, but a lone quote in the prose hides the object behind it.
hidden_object : iter_balanced_json_objects (codes "5\" {}") ≡ []
unfolding iter_balanced_json_objects
hidden_object = refl

unfenced :
    outcome_of (
      extract_report decoder
        (codes "project")
        (codes "o/r")
        (codes "so: {\"schema_version\": 1, \"lane\": 2, \"outcome\": 3} bye"))
    ≡ some partial
unfolding extract_report salvage_report_payload payload contains after_last before_first parse
    accept
unfenced = refl

abbrev body : Text
body = codes "\n```json\n{ }\n```\n"

extract_report-fenced_example :
    extract_report decoder (codes "project") (codes "o/r") (
      codes "draft <<<HEYI_RUN_REPORT_JSON>>>"
      ++ (fence_open ++ (body ++ (fence_close ++ codes "bye"))))
    ≡ parse decoder (codes "project") (codes "o/r") body
unfolding contains
extract_report-fenced_example =
    extract_report-fenced decoder (codes "project") (codes "o/r")
      (codes "draft <<<HEYI_RUN_REPORT_JSON>>>") body (codes "bye") refl refl

downgraded : outcome_of (parse decoder (codes "project") (codes "o/r") body) ≡ some partial
unfolding parse accept after_first ends_with
downgraded = refl
