-- ===== src/Job/Tests.antt =====
-- The theorems on jobs at one slot and a lock that is lost in the third round.
use jotify.Prelude.{ℕ, zero, suc, ◌<◌, ◌≡◌, refl, arith, none, some}
use jotify.Prelude.Int.{pos}
use jotify.Errs.{err, other, returned}
use jotify.Sharding.{Dst}
use jotify.Job.{Round, Job, biz_loop, run_begin, run_attempt, table_end, locked}
use jotify.Job.Rounds.{Ends, by_refresh, goes_on, biz_loop-first_end}
use jotify.Job.Slots.{Fits, Step, Reaches, new_job, Reaches-Fits}

abbrev orders : Dst
orders = record { db_suffix = 0; table_suffix = 1; db = "jotify_0"; table = "notification_1" }

-- Begun, locked, and ended.
abbrev one_run : Job
one_run = table_end 0 (run_attempt locked (run_begin "job" orders (new_job (pos 1))))

one_run-Reaches : Reaches "job" (pos 1) one_run
unfolding new_job
one_run-Reaches =
    Reaches.next
      (Reaches.next (Reaches.next Reaches.new (Step.begins orders refl)) (Step.attempts locked))
      (Step.ends 0)

Reaches-Fits_example : Fits one_run
Reaches-Fits_example = Reaches-Fits "job" (pos 1) one_run (omega arith) one_run-Reaches

abbrev answers : ℕ → Round
answers zero = record { biz_err = some (other "no rows"); ctx_err = none; refresh = none }
answers (suc zero) = record { biz_err = some (other "no rows"); ctx_err = none; refresh = none }
answers (suc (suc i)) = record {
  biz_err = none;
  ctx_err = none;
  refresh = some (other "lock lost");
}

two_quiet : (i : ℕ) → i < 2 → Ends (answers i) none
two_quiet zero h = goes_on _
two_quiet (suc zero) h = goes_on _
two_quiet (suc (suc i)) h = absurd (omega arith)

biz_loop-first_end_example : biz_loop 5 0 answers ≡ returned (err (other "lock lost"))
biz_loop-first_end_example =
    biz_loop-first_end 2 5 answers (other "lock lost") (omega arith) two_quiet (by_refresh _ _)
