-- ===== src/Budget.antt =====
-- agent_driver/budget_guard.py: the budget of tokens and time; agent_driver/exec_runner.py:
-- _stream_and_track, the loop over an agent's output with the watchdog thread beside it.
-- The thread and the stream are one list of steps, in the order in which they happen; the output is known
-- by its length. `detail`, a text for the panel, is left out.
pub mod Verdict
pub mod Tracking
mod Samples
use heyi_eval_v.Prelude.{
  ℕ, zero, suc, ◌+◌, ◌/◌, max, Bool, true, false, Option, none, some, List, [], ◌∷◌, leb, ◌==◌,
  if◌then◌else◌,
}
use heyi_eval_v.Prelude.Int.{ℤ, pos, negsuc, sub_ℕ}

pub data BudgetDecision : Type 0 where
  ok exceeded_tokens exceeded_wall_clock : BudgetDecision

pub record BudgetCheck : Type 0 where
  pub decision : BudgetDecision
  pub elapsed_s : ℤ
  pub total_tokens : ℕ

pub record BudgetGuard : Type 0 where
  pub token_budget : ℕ
  pub wall_clock_s : ℕ
  pub t0 : ℕ
  pub input_tokens : ℕ
  pub output_tokens : ℕ

abbrev positive : ℤ → Option ℕ
positive (pos zero) = none
positive (pos (suc n)) = some (suc n)
positive (negsuc n) = none

-- The constructor; `none` is its ValueError.
pub new_guard : ℤ → ℤ → ℕ → Option BudgetGuard
new_guard budget wall now = elim (positive budget) [
  | none ↦ none
  | some b ↦ elim (positive wall) [
    | none ↦ none
    | some w ↦ some (record {
      token_budget = b;
      wall_clock_s = w;
      t0 = now;
      input_tokens = 0;
      output_tokens = 0;
    })
  ]
]

-- `none` is the ValueError of a negative argument.
pub note_tokens : ℤ → ℤ → BudgetGuard → Option BudgetGuard
note_tokens (pos i) (pos o) g =
    some (record g { input_tokens = g.input_tokens + i; output_tokens = g.output_tokens + o })
note_tokens (pos i) (negsuc o) g = none
note_tokens (negsuc i) o g = none

abbrev pub total_tokens : BudgetGuard → ℕ
total_tokens g = g.input_tokens + g.output_tokens

abbrev pub at_least : ℕ → ℤ → Bool
at_least n (pos a) = leb n a
at_least n (negsuc a) = false

pub check : ℕ → BudgetGuard → BudgetCheck
check now g =
    let elapsed = sub_ℕ now g.t0 in
    record {
      decision =
          if leb g.token_budget (total_tokens g)
          then exceeded_tokens
          else if at_least g.wall_clock_s elapsed
          then exceeded_wall_clock
          else ok;
      elapsed_s = elapsed;
      total_tokens = total_tokens g;
    }

abbrev pub is_ok : BudgetDecision → Bool
is_ok ok = true
is_ok _ = false

-- A chunk of so many bytes, with the time at which the guard is asked after it; or the watchdog's turn
-- at a time.
pub data Step : Type 0 where
  chunk : ℕ → ℕ → Step
  watchdog : ℕ → Step

-- The guard, the bytes received, `final` and `budget_breached_box`.
pub record Stream : Type 0 where
  pub guard : BudgetGuard
  pub received : ℕ
  pub final : BudgetCheck
  pub breached : Option BudgetCheck

-- One round of `_watchdog`, which ends at its first breach.
pub poll : ℕ → Stream → Stream
unfolding check
poll now s = elim s.breached [
  | some c ↦ s
  | none ↦
      if is_ok (check now s.guard).decision
      then s
      else record s { breached = some (check now s.guard) }
]

abbrev pub approx_tokens : ℕ → ℕ
approx_tokens n = max 1 (n / 3)

-- A chunk that is not empty, up to the check after it.
pub receive : ℕ → ℕ → Stream → Stream
unfolding check
receive n now s =
    let g = record s.guard { output_tokens = s.guard.output_tokens + approx_tokens n } in
    record s { guard = g; received = s.received + n; final = check now g }

pub track : List Step → Stream → Stream
unfolding poll receive
track [] s = s
track (watchdog t ∷ rest) s = track rest (poll t s)
track (chunk n t ∷ rest) s =
    let same = track rest s in
    let later = track rest (receive n t s) in
    elim s.breached [
      | some c ↦ record s { final = c }
      | none ↦
          if n == 0
          then same
          else if is_ok (receive n t s).final.decision
          then later
          else receive n t s
    ]

-- The check that is returned with the output.
abbrev pub verdict : Stream → BudgetCheck
verdict s = elim s.breached [
  | none ↦ s.final
  | some c ↦ if is_ok s.final.decision then c else s.final
]

pub stream_and_track : List Step → ℕ → BudgetGuard → Stream
unfolding track
stream_and_track steps now g =
    let s =
      track steps (record { guard = g; received = 0; final = check now g; breached = none }) in
    record s { final = verdict s }
