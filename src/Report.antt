-- ===== src/Report.antt =====
-- agent_driver/report_extractor.py and agent_driver/schema.py: the report of an agent, read off its
-- output. A text is its list of code points. json.loads and jsonschema, which are not of the repository,
-- are an argument `Decoder`. The texts for the panel (detail and self_assessment_zh) are left out.
pub mod Fences
pub mod Sound
mod Samples
use heyi_eval_v.Prelude.{
  ℕ, zero, suc, ◌+◌, ◌-◌, Bool, true, false, not, ◌&&◌, ◌||◌, Option, none, some, List, [], ◌∷◌,
  ◌++◌, map, ◌==◌, if◌then◌else◌, length, take, all,
}
use heyi_eval_v.Prelude.Codes.{
  Text, codes, text_eq, starts_with, contains, before_first, after_first, after_last, strip,
  ends_with,
}

pub data Outcome : Type 0 where
  pass partial fail report_parse_error budget_exceeded timeout sandbox_dead : Outcome
  oversize no_readme needs_gpu judge_unavailable skill_clone_attempt : Outcome

pub data StepStatus : Type 0 where
  ok partial fail skip : StepStatus

-- Durations are in milliseconds.
pub record Step : Type 0 where
  pub name : Text
  pub status : StepStatus
  pub duration_s : ℕ
  pub note : Text
  pub stdout_tail : Text
  pub artifacts : List Text

pub record Verdict : Type 0 where
  pub deploys : Bool
  pub quickstart_works : Bool
  pub core_features_demonstrated : List Text
  pub blockers : List Text

pub record RunReport : Type 0 where
  pub schema_version : Text
  pub lane : Text
  pub target_id : Text
  pub outcome : Outcome
  pub steps : List Step
  pub verdict : Verdict
  pub follow_ups : List Text

-- A valid object: the entries that the schema does not require are optional.
pub record StepObject : Type 0 where
  pub name : Text
  pub status : StepStatus
  pub duration_s : Option ℕ
  pub note : Option Text
  pub stdout_tail : Option Text
  pub artifacts : Option (List Text)

pub record ReportObject : Type 0 where
  pub schema_version : Text
  pub lane : Text
  pub target_id : Text
  pub outcome : Outcome
  pub steps : List StepObject
  pub deploys : Bool
  pub quickstart_works : Bool
  pub core_features_demonstrated : Option (List Text)
  pub blockers : Option (List Text)
  pub follow_ups : Option (List Text)

pub record Decoder : Type 1 where
  pub Json : Type 0
  -- `none` is a JSONDecodeError
  pub loads : Text → Option Json
  -- a dictionary with the three signature keys
  pub is_signed : Json → Bool
  -- whether jsonschema.validate returns
  pub is_valid : Json → Bool
  -- the entries of a valid object
  pub read : Json → ReportObject

pub data ErrorKind : Type 0 where
  fence_missing fence_empty json_invalid schema_invalid lane_mismatch target_mismatch : ErrorKind

pub record ExtractError : Type 0 where
  pub kind : ErrorKind
  pub raw_excerpt : Text

pub data Extracted : Type 0 where
  report : RunReport → Extracted
  error : ExtractError → Extracted

abbrev pub fence_open : Text
fence_open = codes "<<<HEYI_RUN_REPORT_JSON>>>"

abbrev pub fence_close : Text
fence_close = codes "<<<END>>>"

pub last_fence_payload : Text → Option Text
last_fence_payload raw = elim (after_last fence_open raw) [
  | none ↦ none
  | some rest ↦ before_first fence_close rest
]

abbrev pub ticks : Text
ticks = codes "```"

-- `s[:-3]`
abbrev but_three : Text → Text
but_three s = take (length s - 3) s

unwrap_markdown_codeblock : Text → Text
unwrap_markdown_codeblock payload =
    let s = strip payload in
    if not (starts_with ticks s) then payload else elim (after_first (b'\n' ∷ []) s) [
      | none ↦ payload
      | some body ↦ if not (ends_with ticks s) then payload else strip (but_three body)
    ]

-- The variables of the loop of `_iter_balanced_json_objects`; `slice` is the text from `start` on.
pub record Scan : Type 0 where
  pub depth : ℕ
  pub in_str : Bool
  pub esc : Bool
  pub slice : Text

abbrev pub push : ℕ → Scan → Scan
push c s = record s { slice = s.slice ++ c ∷ [] }

in_string : ℕ → Scan → Scan
in_string c s =
    if s.esc
    then record (push c s) { esc = false }
    else if c == b'\\'
    then record (push c s) { esc = true }
    else if c == b'"'
    then record (push c s) { in_str = false }
    else push c s

-- A character that ends no object.
pub next : ℕ → Scan → Scan
unfolding in_string
next c s =
    if s.in_str
    then in_string c s
    else if c == b'"'
    then record (push c s) { in_str = true }
    else if c == b'{'
    then (if s.depth == 0
        then record s { depth = 1; slice = c ∷ [] }
        else record (push c s) { depth = s.depth + 1 })
    else if c == b'}'
    then record (push c s) { depth = s.depth - 1 }
    else push c s

-- Whether a character ends an object.
abbrev pub closes : ℕ → Scan → Bool
closes c s = not s.in_str && c == b'}' && s.depth == 1

pub iter_from : Scan → Text → List Text
unfolding next
iter_from s [] = []
iter_from s (c ∷ rest) =
    let later = iter_from (next c s) rest in
    if closes c s then (s.slice ++ c ∷ []) ∷ later else later

pub iter_balanced_json_objects : Text → List Text
unfolding iter_from
iter_balanced_json_objects =
    iter_from (record { depth = 0; in_str = false; esc = false; slice = [] })

abbrev signature_keys : List Text
signature_keys = codes "\"schema_version\"" ∷ codes "\"lane\"" ∷ codes "\"outcome\"" ∷ []

-- `s[-500:]`
abbrev drop : ℕ → Text → Text
drop zero s = s
drop (suc n) [] = []
drop (suc n) (c ∷ s) = drop n s

abbrev tail_of : ℕ → Text → Text
tail_of n s = drop (length s - n) s

abbrev refuse : ErrorKind → Text → Extracted
refuse kind excerpt = error (record { kind = kind; raw_excerpt = excerpt })

abbrev or_else {ℓ} : {A : Type ℓ} → A → Option A → A
or_else d none = d
or_else d (some a) = a

abbrev to_step : StepObject → Step
to_step s = record {
  name = s.name;
  status = s.status;
  duration_s = or_else 0 s.duration_s;
  note = or_else [] s.note;
  stdout_tail = or_else [] s.stdout_tail;
  artifacts = or_else [] s.artifacts;
}

to_report_dataclass : ReportObject → RunReport
to_report_dataclass o = record {
  schema_version = o.schema_version;
  lane = o.lane;
  target_id = o.target_id;
  outcome = o.outcome;
  steps = map to_step o.steps;
  verdict = record {
    deploys = o.deploys;
    quickstart_works = o.quickstart_works;
    core_features_demonstrated = or_else [] o.core_features_demonstrated;
    blockers = or_else [] o.blockers;
  };
  follow_ups = or_else [] o.follow_ups;
}

abbrev is_pass : Outcome → Bool
is_pass pass = true
is_pass _ = false

abbrev is_empty : List Text → Bool
is_empty [] = true
is_empty (t ∷ rest) = false

enforce_pass_requires_feature : RunReport → RunReport
enforce_pass_requires_feature r =
    if is_pass r.outcome && is_empty r.verdict.core_features_demonstrated
    then record r { outcome = partial }
    else r

module _ (d : Decoder) where
  open d use {Json, loads, is_signed, is_valid, read}

  abbrev is_candidate : Text → Bool
  is_candidate blob =
      all (λ k. contains k blob) signature_keys
      && elim (loads blob) [ none ↦ false | some o ↦ is_signed o ]

  last_candidate : List Text → Option Text
  last_candidate [] = none
  last_candidate (b ∷ rest) = elim (last_candidate rest) [
    | some c ↦ some c
    | none ↦ if is_candidate b then some b else none
  ]

  pub salvage_report_payload : Text → Option Text
  unfolding last_candidate iter_balanced_json_objects
  salvage_report_payload raw = last_candidate (iter_balanced_json_objects raw)

  -- What follows once the JSON has been read.
  pub accept : Text → Text → Text → Json → Extracted
  unfolding to_report_dataclass enforce_pass_requires_feature
  accept lane target_id fenced o =
      if not (is_valid o)
      then refuse schema_invalid (take 500 fenced)
      else if not (text_eq (read o).lane lane)
      then refuse lane_mismatch []
      else if not (text_eq (read o).target_id target_id)
      then refuse target_mismatch []
      else report (enforce_pass_requires_feature (to_report_dataclass (read o)))

  pub parse : Text → Text → Text → Extracted
  unfolding unwrap_markdown_codeblock
  parse lane target_id fenced =
      if text_eq (strip fenced) []
      then refuse fence_empty []
      else elim (loads (unwrap_markdown_codeblock fenced)) [
        | none ↦ refuse json_invalid (take 500 (unwrap_markdown_codeblock fenced))
        | some o ↦ accept lane target_id fenced o
      ]

  -- Without a fenced block, an unfenced report is looked for, but only if no fence was opened.
  pub payload : Text → Option Text
  unfolding last_fence_payload salvage_report_payload
  payload raw = elim (last_fence_payload raw) [
    | some fenced ↦ some fenced
    | none ↦ if contains fence_open raw then none else salvage_report_payload raw
  ]

  pub extract_report : Text → Text → Text → Extracted
  extract_report lane target_id raw = elim (payload raw) [
    | none ↦ refuse fence_missing (tail_of 500 raw)
    | some fenced ↦ parse lane target_id fenced
  ]

-- The report of a run whose agent gave none.
abbrev pub system_report : Text → Text → Outcome → RunReport
system_report lane target_id outcome = record {
  schema_version = codes "1.0";
  lane = lane;
  target_id = target_id;
  outcome = outcome;
  steps = [];
  verdict = record {
    deploys = false;
    quickstart_works = false;
    core_features_demonstrated = [];
    blockers = [];
  };
  follow_ups = [];
}

abbrev pub synthetic_parse_error_report : Text → Text → RunReport
synthetic_parse_error_report lane target_id = system_report lane target_id report_parse_error
