-- ===== src/Budget/Verdict.antt =====
-- What `check` says of a guard.
use heyi_eval_v.Prelude.{
  ℕ, ◌+◌, ◌<◌, ◌≡◌, refl, subst, ap, ◌∙◌, Bool, ◌↔◌, some, leb, true, false, arith,
}
use mathlib.Core.Option.{some-injective}
use heyi_eval_v.Prelude.Int.{ℤ, pos, negsuc}
use heyi_eval_v.Budget.{
  BudgetGuard, BudgetDecision, ok, exceeded_tokens, exceeded_wall_clock, check, note_tokens,
  total_tokens, is_ok,
}

-- Of a guard whose limits are positive, the verdict is OK just when both the tokens and the time are
-- below their limits.
pub check-ok :
    (now : ℕ) (g : BudgetGuard)
    → 0 < g.wall_clock_s
    → (is_ok (check now g).decision ≡ true)
      ↔ (total_tokens g < g.token_budget) × (now < g.t0 + g.wall_clock_s)
unfolding check
check-ok now g w = ((λ e. (ground arith, ground arith)), (λ h. ground arith))

abbrev is_out : BudgetDecision → Bool
is_out exceeded_tokens = true
is_out _ = false

out_iff :
    (now : ℕ) (g : BudgetGuard)
    → is_out (check now g).decision ≡ leb g.token_budget (total_tokens g)
unfolding check
out_iff now g = ground arith

is_out_eq : (d : BudgetDecision) → is_out d ≡ true → d ≡ exceeded_tokens
is_out_eq ok h = cc
is_out_eq exceeded_tokens h = refl
is_out_eq exceeded_wall_clock h = cc

-- Tokens that have run out stay so: whatever is noted later, and whenever it is checked.
pub check-note_tokens :
    (now later : ℕ) (i o : ℤ) (g h : BudgetGuard)
    → (check now g).decision ≡ exceeded_tokens
    → note_tokens i o g ≡ some h
    → (check later h).decision ≡ exceeded_tokens
unfolding note_tokens
check-note_tokens now later (pos i) (pos o) g h e n =
    subst (λ x. (check later x).decision ≡ exceeded_tokens) (some-injective noted h n)
      (is_out_eq _ (out_iff later noted ∙ ground (arith, out_iff now g, ap is_out e)))
  where
    noted : BudgetGuard
    noted = record g { input_tokens = g.input_tokens + i; output_tokens = g.output_tokens + o }
check-note_tokens now later (pos i) (negsuc o) g h e n = cc
check-note_tokens now later (negsuc i) o g h e n = cc
