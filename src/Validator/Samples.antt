-- ===== src/Validator/Samples.antt =====
-- Artifacts that pass and artifacts that do not.
use heyi_eval_v.Prelude.{◌≡◌, ◌↔◌, refl, true, false, none, some, String}
use heyi_eval_v.Prelude.Codes.{contains, any_place}
use heyi_eval_v.Validator.{
  Value, text, array, object, boolean, Items, nil, cons, end, field, valid, invalid, crashes,
  few_results, no_pass, bad_prefix, not_running, no_summary, missing_fields, wrong_stage,
  still_there, value_of, size, check_pass, check_each, check_item, check_summary,
  validate_capability, validate_showcase, validate_perf_bench, validate_deploy, validate_cleanup,
}
use heyi_eval_v.Validator.Checks.{Listed, HasPass, HasRequired}
use heyi_eval_v.Validator.Sound.{Summed, artifact_passes}

abbrev results : Items → Value
results vs = object (field "results" (array vs) end)

abbrev passing : Value
passing = object (field "task" (text "chat") (field "pass" (boolean false) end))

abbrev capability : Value
capability = results (cons passing nil)

abbrev item : Value
item = object (
    field "id" (text "1")
      (field "prompt" (text "p") (field "actual" (text "a") (field "rationale" (text "r") end))))

abbrev showcase : Value → Value
showcase summary = object (field "items" (array (cons item nil)) (field "summary" summary end))

artifact_passes_example :
    ((validate_capability none 1 (some (some capability)) ≡ valid capability)
      ↔ Listed none "results" 1 HasPass (some (some capability)) capability)
    × ((validate_showcase none true (some (some capability)) ≡ valid capability) ↔ (
        Listed none "items" 1 HasRequired (some (some capability)) capability
        × Summed true capability))
artifact_passes_example = artifact_passes none 1 true (some (some capability)) capability

capability_passes : validate_capability none 1 (some (some capability)) ≡ valid capability
unfolding validate_capability check_each check_pass value_of size
capability_passes = refl

no_results : validate_capability none 1 (some (some (results nil))) ≡ invalid few_results
unfolding validate_capability value_of size
no_results = refl

-- A text among the results that has "pass" in it raises no ValidationError.
text_result :
    validate_capability none 1 (some (some (results (cons (text "passed") nil)))) ≡ crashes
unfolding validate_capability check_each check_pass value_of size contains any_place
text_result = refl

other_text : check_pass (text "failed") ≡ invalid no_pass
unfolding check_pass contains any_place
other_text = refl

showcase_passes :
    validate_showcase none true (some (some (showcase (text "fine"))))
    ≡ valid (showcase (text "fine"))
unfolding validate_showcase check_each check_item check_summary value_of size
showcase_passes = refl

empty_summary : validate_showcase none true (some (some (showcase (text "")))) ≡ invalid no_summary
unfolding validate_showcase check_each check_item check_summary value_of size
empty_summary = refl

no_rationale : check_item (object (field "id" (text "1") end)) ≡ invalid missing_fields
unfolding check_item value_of
no_rationale = refl

other_stage :
    validate_perf_bench none (some (some (object (field "stage" (text "SHOWCASE") end))))
    ≡ invalid wrong_stage
unfolding validate_perf_bench value_of
other_stage = refl

abbrev ready : String → Value
ready name = object (field "container_name" (text name) end)

foreign_container :
    validate_deploy none true (λ name. some "running") (some (some (ready "e8-m")))
    ≡ invalid bad_prefix
unfolding validate_deploy value_of
foreign_container = refl

exited :
    validate_deploy none true (λ name. some "exited") (some (some (ready "e9-m")))
    ≡ invalid not_running
unfolding validate_deploy value_of
exited = refl

left_over : validate_cleanup (λ name. some "4f1e") "e9-m" ≡ invalid still_there
unfolding validate_cleanup
left_over = refl
