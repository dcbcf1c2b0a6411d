-- ===== src/Validator/Sound.antt =====
-- Which artifacts pass.
use heyi_eval_v.Prelude.{ℕ, ◌≡◌, ◌↔◌, refl, subst, ◌∙◌, Bool, true, false, Option}
use heyi_eval_v.Validator.{
  Value, array, object, nil, Fields, valid, Violation, value_of, or_default, get, require_file,
  validate_schema, list_of, check_pass, check_each, validate_capability, check_item, is_true,
  check_summary, validate_showcase,
}
use heyi_eval_v.Validator.Checks.{
  HasPass, HasRequired, Listed, bind-valid, refuse_if-valid, validate_schema-Meets,
  require_file-there, get-object, list_of-array, check_each_iff, check_pass-HasPass,
  HasPass-check_pass, check_item-HasRequired, HasRequired-check_item, list_of-enough,
}

capability-Listed :
    (schema : Option (Value → Bool)) (n : ℕ) (file : Option (Option Value)) (v : Value)
    → validate_capability schema n file ≡ valid v
    → Listed schema "results" n HasPass file v
unfolding validate_capability
capability-Listed schema n file v e =
    let (p, read, e₁) = bind-valid {m = require_file file} e in
    let (u, meets, e₂) = bind-valid {m = validate_schema schema p} e₁ in
    let (found, got, e₃) = bind-valid {m = get p "results" (array nil)} e₂ in
    let (vs, list, e₄) = bind-valid {m = list_of n _ found} e₃ in
    let (w, each, same) = bind-valid {m = check_each check_pass vs} e₄ in
    let (fs, is_object, listed) = get-object p "results" (array nil) found got in
    let (is_array, enough) = list_of-array n _ found vs list in
    let v_is : p ≡ v = cc same in
    subst (Listed schema "results" n HasPass file) v_is (record {
      there = require_file-there file p read;
      meets = (validate_schema-Meets schema p).0 meets;
      fields = fs;
      is_object = is_object;
      items = vs;
      listed = listed ∙ is_array;
      enough = enough;
      each = λ i x k. check_pass-HasPass x ((check_each_iff check_pass vs).0 each i x k);
    })

-- What Listed gives is what the checks ask, in the code's order.
Listed-capability :
    (schema : Option (Value → Bool)) (n : ℕ) (file : Option (Option Value)) (v : Value)
    → Listed schema "results" n HasPass file v
    → validate_capability schema n file ≡ valid v
unfolding validate_capability
Listed-capability schema n file v h =
    rw
      (
        h.there,
        (validate_schema-Meets schema v).1 h.meets,
        h.is_object,
        h.listed,
        list_of-enough n Violation.few_results h.items h.enough,
        (check_each_iff check_pass h.items).1 (λ i x k. HasPass-check_pass x (h.each i x k)),
      )
      refl

-- A summary that is neither missing nor empty, where one is asked for.
abbrev pub Summed : Bool → Value → Type 0
Summed false v = Unit {0}
Summed true v =
    (fs : Fields) × (v ≡ object fs)
    × (is_true (or_default (value_of "summary" fs) Value.null) ≡ true)

check_summary-Summed : (b : Bool) (v : Value) → check_summary b v ≡ valid tt → Summed b v
unfolding check_summary
check_summary-Summed false v e = tt
check_summary-Summed true v e =
    let (x, got, ok) = bind-valid {m = get v "summary" Value.null} e in
    let (fs, is_object, k) = get-object v "summary" Value.null x got in
    (fs, is_object, rw k (refuse_if-valid (is_true x) _ ok))

Summed-check_summary : (b : Bool) (v : Value) → Summed b v → check_summary b v ≡ valid tt
unfolding check_summary
Summed-check_summary false v h = refl
Summed-check_summary true v (fs, is_object, k) = rw (is_object, k) refl

showcase-Listed :
    (schema : Option (Value → Bool)) (b : Bool) (file : Option (Option Value)) (v : Value)
    → validate_showcase schema b file ≡ valid v
    → Listed schema "items" 1 HasRequired file v × Summed b v
unfolding validate_showcase
showcase-Listed schema b file v e =
    let (p, read, e₁) = bind-valid {m = require_file file} e in
    let (u, meets, e₂) = bind-valid {m = validate_schema schema p} e₁ in
    let (found, got, e₃) = bind-valid {m = get p "items" (array nil)} e₂ in
    let (vs, list, e₄) = bind-valid {m = list_of 1 _ found} e₃ in
    let (w, each, e₅) = bind-valid {m = check_each check_item vs} e₄ in
    let (x, summed, same) = bind-valid {m = check_summary b p} e₅ in
    let (fs, is_object, listed) = get-object p "items" (array nil) found got in
    let (is_array, enough) = list_of-array 1 _ found vs list in
    let v_is : p ≡ v = cc same in
    subst (λ q. Listed schema "items" 1 HasRequired file q × Summed b q) v_is
      (
        record {
          there = require_file-there file p read;
          meets = (validate_schema-Meets schema p).0 meets;
          fields = fs;
          is_object = is_object;
          items = vs;
          listed = listed ∙ is_array;
          enough = enough;
          each = λ i y k. check_item-HasRequired y ((check_each_iff check_item vs).0 each i y k);
        },
        check_summary-Summed b p summed,
      )

Listed-showcase :
    (schema : Option (Value → Bool)) (b : Bool) (file : Option (Option Value)) (v : Value)
    → Listed schema "items" 1 HasRequired file v × Summed b v
    → validate_showcase schema b file ≡ valid v
unfolding validate_showcase
Listed-showcase schema b file v (h, s) =
    rw
      (
        h.there,
        (validate_schema-Meets schema v).1 h.meets,
        got,
        list_of-enough 1 Violation.no_items h.items h.enough,
        (check_each_iff check_item h.items).1 (λ i x k. HasRequired-check_item x (h.each i x k)),
        Summed-check_summary b v s,
      )
      refl
  where
    got : get v "items" (array nil) ≡ valid (array h.items)
    got = rw (h.is_object, h.listed) refl

-- `validate_capability` lets a file pass just when it is there with a document that meets the schema (if
-- one is given) and has a list "results" of at least `n` entries, each of them an object with a Boolean
-- "pass"; `validate_showcase` just when the document meets its schema, has a list "items" that is not
-- empty, each item an object with the four required fields, and, if it is asked for, a summary that is
-- not empty. In all other cases they raise.
pub artifact_passes :
    (schema : Option (Value → Bool)) (n : ℕ) (b : Bool) (file : Option (Option Value)) (v : Value)
    → ((validate_capability schema n file ≡ valid v) ↔ Listed schema "results" n HasPass file v)
      × ((validate_showcase schema b file ≡ valid v)
          ↔ (Listed schema "items" 1 HasRequired file v × Summed b v))
artifact_passes schema n b file v = (
  (capability-Listed schema n file v, Listed-capability schema n file v),
  (showcase-Listed schema b file v, Listed-showcase schema b file v),
)
