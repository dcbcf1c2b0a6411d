-- ===== src/Validator/Production/Samples.antt =====
-- The production engine seen between two stages, with a reader of plain decimals for `int`.
use heyi_eval_v.Prelude.{
  ℕ, ◌+◌, ◌*◌, ◌-◌, ◌≡◌, refl, ◌&&◌, Option, none, some, List, [], ◌∷◌, String, leb, if◌then◌else◌,
}
use heyi_eval_v.Prelude.Codes.{Text, codes, before_first, after_first, contains, any_place}
use heyi_eval_v.Prelude.Int.{ℤ, pos}
use heyi_eval_v.Validator.{Checked, valid, invalid, crashes, not_running, gpu_lost}
use heyi_eval_v.Validator.Production.{check_lines, assert_invariants}

abbrev digits : ℕ → Text → Option ℤ
digits n [] = some (pos n)
digits n (c ∷ s) =
    let rest = digits (n * 10 + (c - b'0')) s in if leb b'0' c && leb c b'9' then rest else none

abbrev decimal : Text → Option ℤ
decimal [] = none
decimal (c ∷ s) = digits 0 (c ∷ s)

abbrev look : String → List Text → Checked (Unit {0})
look status lines =
    assert_invariants decimal (pos 0 ∷ pos 1 ∷ []) (pos 80000) none none (some status) (some lines)

both_there : look "running" (codes "0, 90000" ∷ codes "1, 91000" ∷ codes "7, 3" ∷ []) ≡ valid tt
unfolding assert_invariants check_lines before_first after_first contains any_place
both_there = refl

one_lost : look "running" (codes "0, 90000" ∷ codes "1, 3" ∷ []) ≡ invalid gpu_lost
unfolding assert_invariants check_lines before_first after_first contains any_place
one_lost = refl

engine_down : look "exited" [] ≡ invalid not_running
unfolding assert_invariants
engine_down = refl

-- A line that does not read as two numbers is passed over, and so is a device that is not listed.
unread : look "running" (codes "1, [N/A]" ∷ codes "0,1,2" ∷ []) ≡ valid tt
unfolding assert_invariants check_lines before_first after_first contains any_place
unread = refl

old_name :
    assert_invariants decimal
      (pos 0 ∷ [])
      (pos 80000)
      (some (pos 1 ∷ []))
      (some (pos 5))
      (some "running")
      (some (codes "0, 3" ∷ codes "1, 7" ∷ []))
    ≡ valid tt
unfolding assert_invariants check_lines before_first after_first contains any_place
old_name = refl

no_answer : assert_invariants decimal [] (pos 0) none none none none ≡ crashes
unfolding assert_invariants
no_answer = refl
