-- ===== src/Validator/Checks.antt =====
-- What each single check of a document lets through.
use heyi_eval_v.Prelude.{
  ℕ, zero, suc, ◌≤◌, ◌≡◌, ◌↔◌, refl, Bool, true, false, not, Option, none, some, String, arith,
}
use heyi_eval_v.Validator.{
  Value, array, object, boolean, Items, nil, cons, Fields, Checked, valid, invalid, crashes,
  Violation, ◌>>=◌, refuse_if, value_of, or_default, get, size, require_file, validate_schema,
  list_of, pass_of, check_pass, check_each, has_key, has_required, check_item,
}

pub item_at : Items → ℕ → Option Value
item_at nil i = none
item_at (cons v rest) zero = some v
item_at (cons v rest) (suc i) = item_at rest i

-- An entry of "results" with a Boolean verdict.
pub record HasPass (v : Value) : Type 0 where
  pub fields : Fields
  pub is_object : v ≡ object fields
  pub verdict : Bool
  pub has_verdict : value_of "pass" fields ≡ some (boolean verdict)

pub record HasRequired (v : Value) : Type 0 where
  pub fields : Fields
  pub is_object : v ≡ object fields
  pub has_id : has_key "id" fields ≡ true
  pub has_prompt : has_key "prompt" fields ≡ true
  pub has_actual : has_key "actual" fields ≡ true
  pub has_rationale : has_key "rationale" fields ≡ true

abbrev pub Meets : Option (Value → Bool) → Value → Type 0
Meets none v = Unit {0}
Meets (some meets) v = meets v ≡ true

-- A file with a document that meets the schema, and has a list of so many items under a key, each of them
-- as asked.
pub record Listed (schema : Option (Value → Bool)) (key : String) (n : ℕ) (P : Value → Type 0)
    (file : Option (Option Value)) (v : Value) : Type 0 where
  pub there : file ≡ some (some v)
  pub meets : Meets schema v
  pub fields : Fields
  pub is_object : v ≡ object fields
  pub items : Items
  pub listed : or_default (value_of key fields) (array nil) ≡ array items
  pub enough : n ≤ size items
  pub each : (i : ℕ) (x : Value) → item_at items i ≡ some x → P x

pub bind-valid {ℓ κ} :
    {A : Type ℓ} {B : Type κ} {m : Checked A} {f : A → Checked B} {b : B}
    → (m >>= f) ≡ valid b
    → (a : A) × (m ≡ valid a) × (f a ≡ valid b)
bind-valid {m = valid a} e = (a, refl, e)
bind-valid {m = invalid x} e = absurd (cc e)
bind-valid {m = crashes} e = absurd (cc e)

pub refuse_if-valid : (b : Bool) (e : Violation) → refuse_if (not b) e ≡ valid tt → b ≡ true
refuse_if-valid true e h = refl
refuse_if-valid false e h = absurd (cc h)

pub validate_schema-Meets :
    (schema : Option (Value → Bool)) (v : Value)
    → (validate_schema schema v ≡ valid tt) ↔ Meets schema v
validate_schema-Meets none v = ((λ _. tt), λ _. refl)
validate_schema-Meets (some meets) v = ((λ e. refuse_if-valid (meets v) _ e), λ m. rw m refl)

pub require_file-there :
    (file : Option (Option Value)) (v : Value) → require_file file ≡ valid v → file ≡ some (some v)
require_file-there none v e = absurd (cc e)
require_file-there (some none) v e = absurd (cc e)
require_file-there (some (some x)) v e = cc e

pub get-object :
    (p : Value) (k : String) (d v : Value)
    → get p k d ≡ valid v
    → (fs : Fields) × (p ≡ object fs) × (or_default (value_of k fs) d ≡ v)
get-object (object fs) k d v e = (fs, refl, cc e)
get-object Value.null k d v e = absurd (cc e)
get-object (boolean b) k d v e = absurd (cc e)
get-object (Value.number n) k d v e = absurd (cc e)
get-object (Value.text s) k d v e = absurd (cc e)
get-object (array vs) k d v e = absurd (cc e)

pub list_of-array :
    (n : ℕ) (x : Violation) (v : Value) (vs : Items)
    → list_of n x v ≡ valid vs
    → (v ≡ array vs) × (n ≤ size vs)
list_of-array n x (array ws) vs e = (ground arith, ground arith)
list_of-array n x (object fs) vs e = absurd (cc e)
list_of-array n x Value.null vs e = absurd (cc e)
list_of-array n x (boolean b) vs e = absurd (cc e)
list_of-array n x (Value.number m) vs e = absurd (cc e)
list_of-array n x (Value.text s) vs e = absurd (cc e)

pub check_each_iff :
    (f : Value → Checked (Unit {0})) (vs : Items)
    → (check_each f vs ≡ valid tt) ↔ ((i : ℕ) (x : Value) → item_at vs i ≡ some x → f x ≡ valid tt)
unfolding check_each item_at
check_each_iff f nil = ((λ _ i x e. absurd (cc e)), λ _. refl)
check_each_iff f (cons v rest) = let (there, back) = check_each_iff f rest in (each there, all back)
  where
    each :
        (check_each f rest ≡ valid tt
          → (i : ℕ) (x : Value) → item_at rest i ≡ some x
          → f x ≡ valid tt)
        → (f v >>= λ _. check_each f rest) ≡ valid tt
        → (i : ℕ) (x : Value) → item_at (cons v rest) i ≡ some x
        → f x ≡ valid tt
    each h e zero x k = let (u, first, more) = bind-valid {m = f v} e in cc (first, k)
    each h e (suc i) x k = let (u, first, more) = bind-valid {m = f v} e in h more i x k

    all :
        (((i : ℕ) (x : Value) → item_at rest i ≡ some x → f x ≡ valid tt)
          → check_each f rest ≡ valid tt)
        → ((i : ℕ) (x : Value) → item_at (cons v rest) i ≡ some x → f x ≡ valid tt)
        → (f v >>= λ _. check_each f rest) ≡ valid tt
    all h k = rw (k 0 v refl) (h (λ i x e. k (suc i) x e))

pass_of-boolean : (o : Option Value) → pass_of o ≡ valid tt → (b : Bool) × (o ≡ some (boolean b))
pass_of-boolean none e = absurd (cc e)
pass_of-boolean (some (boolean b)) e = (b, refl)
pass_of-boolean (some Value.null) e = absurd (cc e)
pass_of-boolean (some (Value.number n)) e = absurd (cc e)
pass_of-boolean (some (Value.text s)) e = absurd (cc e)
pass_of-boolean (some (array vs)) e = absurd (cc e)
pass_of-boolean (some (object fs)) e = absurd (cc e)

pub check_pass-HasPass : (v : Value) → check_pass v ≡ valid tt → HasPass v
unfolding check_pass
check_pass-HasPass (object fs) e =
    let (b, k) = pass_of-boolean (value_of "pass" fs) e in
    record { fields = fs; is_object = refl; verdict = b; has_verdict = k }
check_pass-HasPass (array vs) e = absurd (ground arith)
check_pass-HasPass (Value.text s) e = absurd (ground arith)
check_pass-HasPass Value.null e = absurd (cc e)
check_pass-HasPass (boolean b) e = absurd (cc e)
check_pass-HasPass (Value.number n) e = absurd (cc e)

pub HasPass-check_pass : (v : Value) → HasPass v → check_pass v ≡ valid tt
unfolding check_pass
HasPass-check_pass v h = rw (h.is_object, h.has_verdict) refl

pub check_item-HasRequired : (v : Value) → check_item v ≡ valid tt → HasRequired v
unfolding check_item
check_item-HasRequired (object fs) e =
    let all : has_required fs ≡ true = refuse_if-valid (has_required fs) _ e in
    record {
      fields = fs;
      is_object = refl;
      has_id = ground (arith, all);
      has_prompt = ground (arith, all);
      has_actual = ground (arith, all);
      has_rationale = ground (arith, all);
    }
check_item-HasRequired (array vs) e = absurd (cc e)
check_item-HasRequired (Value.text s) e = absurd (cc e)
check_item-HasRequired Value.null e = absurd (cc e)
check_item-HasRequired (boolean b) e = absurd (cc e)
check_item-HasRequired (Value.number n) e = absurd (cc e)

pub HasRequired-check_item : (v : Value) → HasRequired v → check_item v ≡ valid tt
unfolding check_item
HasRequired-check_item v h =
    rw (h.is_object, h.has_id, h.has_prompt, h.has_actual, h.has_rationale) refl

pub list_of-enough :
    (n : ℕ) (x : Violation) (vs : Items) → n ≤ size vs → list_of n x (array vs) ≡ valid vs
list_of-enough n x vs le = ground arith
