-- ===== src/Budget/Samples.antt =====
-- A guard, an agent's output, and instances of the theorems about budgets.
use heyi_eval_v.Prelude.{◌≡◌, refl, List, [], ◌∷◌, some}
use heyi_eval_v.Prelude.Int.{pos}
use heyi_eval_v.Budget.{
  BudgetGuard, Step, chunk, watchdog, check, note_tokens, stream_and_track, exceeded_tokens,
  new_guard,
}
use heyi_eval_v.Budget.Verdict.{check-note_tokens}
use heyi_eval_v.Budget.Tracking.{bytes, stream_and_track-ok}

abbrev guard : BudgetGuard
guard = record {
  token_budget = 100;
  wall_clock_s = 900;
  t0 = 5;
  input_tokens = 0;
  output_tokens = 0;
}

abbrev spent : BudgetGuard
spent = record guard { output_tokens = 100 }

abbrev steps : List Step
steps = chunk 30 10 ∷ watchdog 20 ∷ chunk 0 21 ∷ chunk 9 22 ∷ []

made : new_guard (pos 100) (pos 900) 5 ≡ some guard
unfolding new_guard
made = refl

-- The watchdog finds the time over, and the chunk after it is dropped.
dropped : (stream_and_track (chunk 30 10 ∷ watchdog 905 ∷ chunk 9 906 ∷ []) 5 guard).received ≡ 30
unfolding stream_and_track
dropped = refl

check-note_tokens_example :
    (check 30 (record spent { input_tokens = 4 })).decision ≡ exceeded_tokens
unfolding check note_tokens
check-note_tokens_example =
    check-note_tokens 20 30 (pos 4) (pos 0) spent (record spent { input_tokens = 4 }) refl refl

stream_and_track-ok_example : (stream_and_track steps 5 guard).received ≡ bytes steps
unfolding stream_and_track
stream_and_track-ok_example = stream_and_track-ok steps 5 guard refl
