-- ===== src/Job.antt =====
-- internal/pkg/job: the semaphore of resource.go and the loops of sharding_loop_job.go. The
-- distributed lock is a parameter, what it and the business function answer arguments.
mod Tests
pub mod Slots
pub mod Rounds
use Prim.Native.String.{◌++◌}
use jotify.Prelude.{ℕ, zero, suc, ◌+◌, String, List, [], ◌∷◌, Option, none, some, if◌then◌else◌}
use jotify.Prelude.Int.{ℤ, pos, ◌+ℤ◌, ◌-ℤ◌, ltb_ℤ}
use jotify.Errs.{Error, Result, ok, err, Run, returned, running, acquire_exceed_limit}
use jotify.Sharding.{Dst}

-- The counts are `int`s; the one in use can fall below zero by releases.
pub record MaxCntResourceSemaphore : Type 0 where
  pub max_cnt : ℤ
  pub curr_cnt : ℤ

unfoldable pub new_max_cnt_resource_semaphore : ℤ → MaxCntResourceSemaphore
new_max_cnt_resource_semaphore max_cnt = record { max_cnt = max_cnt; curr_cnt = pos 0 }

unfoldable pub acquire : MaxCntResourceSemaphore → Result (Unit {0}) × MaxCntResourceSemaphore
unfolding ◌+ℤ◌
acquire s =
    if ltb_ℤ s.curr_cnt s.max_cnt
    then (ok tt, record s { curr_cnt = s.curr_cnt +ℤ pos 1 })
    else (err acquire_exceed_limit, s)

unfoldable pub release : MaxCntResourceSemaphore → Result (Unit {0}) × MaxCntResourceSemaphore
unfolding ◌-ℤ◌
release s = (ok tt, record s { curr_cnt = s.curr_cnt -ℤ pos 1 })

unfoldable pub update_max_cnt : ℤ → MaxCntResourceSemaphore → MaxCntResourceSemaphore
update_max_cnt max_cnt s = record s { max_cnt = max_cnt }

unfoldable pub generate_dlock_key : String → Dst → String
generate_dlock_key base_key d = base_key ++ ":" ++ d.db ++ ":" ++ d.table

-- What the lock answers in a round of Run: the creation and the attempt, with their errors.
pub data Attempt : Type 0 where
  not_created : Attempt
  not_locked : Attempt
  locked : Attempt

-- The semaphore, the key for which Run tries to get the lock, and those of the table loops.
pub record Job : Type 0 where
  pub semaphore : MaxCntResourceSemaphore
  pub trying : Option String
  pub loops : List String

abbrev pub acquired : String → Job → Result (Unit {0}) × MaxCntResourceSemaphore → Job
acquired key j (err e, s) = record j { semaphore = s }
acquired key j (ok _, s) = record j { semaphore = s; trying = some key }

-- The start of a round of Run: where the semaphore refuses, the round is over.
unfoldable pub run_begin : String → Dst → Job → Job
unfolding acquire generate_dlock_key
run_begin base_key d j = acquired (generate_dlock_key base_key d) j (acquire j.semaphore)

unfoldable pub attempted : Attempt → String → Job → Job
unfolding release
attempted not_created key j = record j { semaphore = (release j.semaphore).1; trying = none }
attempted not_locked key j = record j { semaphore = (release j.semaphore).1; trying = none }
attempted locked key j = record j { trying = none; loops = key ∷ j.loops }

-- The rest of the round, which starts a table loop where the lock is got.
unfoldable pub run_attempt : Attempt → Job → Job
unfolding attempted
run_attempt a j = elim (j.trying) [ none ↦ j | some key ↦ attempted a key j ]

abbrev pub without_one : ℕ → List String → Option (List String)
without_one i [] = none
without_one zero (key ∷ keys) = some keys
without_one (suc i) (key ∷ keys) = elim (without_one i keys) [
  | none ↦ none
  | some rest ↦ some (key ∷ rest)
]

-- The end of the table loop with an index: its deferred release.
unfoldable pub table_end : ℕ → Job → Job
unfolding release
table_end i j = elim (without_one i j.loops) [
  | none ↦ j
  | some rest ↦ record j { semaphore = (release j.semaphore).1; loops = rest }
]

-- One round of bizLoop: the error of the business function, which is only logged, the context's
-- error after it, and the answer of the lock's refresh.
pub record Round : Type 0 where
  pub biz_err : Option Error
  pub ctx_err : Option Error
  pub refresh : Option Error

abbrev pub after_ctx : Option Error → Option Error → Option Error
after_ctx none refresh = refresh
after_ctx (some e) refresh = some e

-- What the round returns, if it does: a branch that logs falls through to the context's error.
abbrev pub ended_by : Round → Option Error
ended_by r = elim (r.biz_err) [
  | none ↦ after_ctx r.ctx_err r.refresh
  | some logged ↦ after_ctx r.ctx_err r.refresh
]

abbrev pub biz_round : Option Error → Run (Unit {0}) → Run (Unit {0})
biz_round none again = again
biz_round (some e) again = returned (err e)

-- bizLoop from the round `k` on, for at most `rounds` rounds.
unfoldable pub biz_loop : ℕ → ℕ → (ℕ → Round) → Run (Unit {0})
biz_loop zero k answers = running
biz_loop (suc rounds) k answers = biz_round (ended_by (answers k)) (biz_loop rounds (k + 1) answers)
