-- ===== src/Prelude/Codes.antt =====
-- Texts as lists of code points, with Python's tests and searches on them.
use Prim.Native.Nat.{ℕ, ◌+◌}
use Prim.Native.Char.{code}
use Prim.Native.String.{String}
use mathlib.Core.Path.{◌≡◌}
use mathlib.Core.Logic.{◌↔◌}
use mathlib.Core.Bool.{Bool, true, false, ◌&&◌, ◌||◌}
use mathlib.Core.Option.{Option, none, some}
use mathlib.Core.List.{List, [], ◌∷◌}
use native.Mathlib.Omega.{arith}
use heyi_eval_v.Prelude.Tests.{◌==◌, leb, if◌then◌else◌}

abbrev pub Text : Type 0
Text = List ℕ

abbrev pub codes : String → Text
codes String.[] = []
codes (String.◌∷◌ c s) = code c ∷ codes s

abbrev pub text_eq : Text → Text → Bool
text_eq [] [] = true
text_eq [] (d ∷ t) = false
text_eq (c ∷ s) [] = false
text_eq (c ∷ s) (d ∷ t) = c == d && text_eq s t

pub text_eq_iff : (s t : Text) → (text_eq s t ≡ true) ↔ (s ≡ t)
text_eq_iff [] [] = ground arith
text_eq_iff [] (d ∷ t) = ground arith
text_eq_iff (c ∷ s) [] = ground arith
text_eq_iff (c ∷ s) (d ∷ t) = ground (arith, text_eq_iff s t)

-- What follows a prefix.
abbrev pub after : Text → Text → Option Text
after [] s = some s
after (c ∷ p) [] = none
after (c ∷ p) (d ∷ s) = if c == d then after p s else none

abbrev pub is_some {ℓ} : {A : Type ℓ} → Option A → Bool
is_some none = false
is_some (some a) = true

abbrev pub starts_with : Text → Text → Bool
starts_with p s = is_some (after p s)

-- Whether the rest of the text at some place passes the test, its end included.
unfoldable pub any_place : (Text → Bool) → Text → Bool
any_place f [] = f []
any_place f (c ∷ s) = f (c ∷ s) || any_place f s

-- `needle in text`
unfoldable pub contains : Text → Text → Bool
unfolding any_place
contains needle = any_place (starts_with needle)

-- str.lower and str.isspace, on the characters of ASCII.
abbrev pub lower : Text → Text
lower [] = []
lower (c ∷ s) = (if leb b'A' c && leb c b'Z' then c + 32 else c) ∷ lower s

abbrev pub is_space : ℕ → Bool
is_space c = c == 32 || (leb 9 c && leb c 13) || (leb 28 c && leb c 31)

-- str.find and str.rfind: what stands before the first occurrence, and what follows it; what follows the
-- last occurrence.
unfoldable pub before_first : Text → Text → Option Text
before_first p [] = elim (after p []) [ none ↦ none | some r ↦ some [] ]
before_first p (c ∷ s) = elim (after p (c ∷ s)) [
  | some r ↦ some []
  | none ↦ elim (before_first p s) [ none ↦ none | some t ↦ some (c ∷ t) ]
]

unfoldable pub after_first : Text → Text → Option Text
after_first p [] = after p []
after_first p (c ∷ s) = elim (after p (c ∷ s)) [ some r ↦ some r | none ↦ after_first p s ]

unfoldable pub after_last : Text → Text → Option Text
after_last p [] = after p []
after_last p (c ∷ s) = elim (after_last p s) [ some r ↦ some r | none ↦ after p (c ∷ s) ]

-- str.strip
abbrev left_strip : Text → Text
left_strip [] = []
left_strip (c ∷ s) = if is_space c then left_strip s else c ∷ s

abbrev keep_end : ℕ → Text → Text
keep_end c [] = if is_space c then [] else c ∷ []
keep_end c (d ∷ s) = c ∷ d ∷ s

abbrev right_strip : Text → Text
right_strip [] = []
right_strip (c ∷ s) = keep_end c (right_strip s)

abbrev pub strip : Text → Text
strip s = right_strip (left_strip s)

unfoldable pub ends_with : Text → Text → Bool
unfolding any_place
ends_with p = any_place (text_eq p)
