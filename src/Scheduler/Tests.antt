-- ===== src/Scheduler/Tests.antt =====
-- The theorems on the scheduler at a repository that finds nothing but errors.
use Prim.Native.Nat.{ℕ, ◌*◌}
use jotify.Prelude.{suc, refl, arith, [], ltb, none, some}
use jotify.Prelude.Int.{pos}
use jotify.Errs.{err, ok, other}
use jotify.BitRing.{Float64, new_bit_ring}
use jotify.Batch.Fixed.{Adjuster, adjust}
use jotify.Scheduler.{Calls, Scheduler, loop}
use jotify.Scheduler.Sizes.{InSizes, loop-InSizes}

abbrev fractions : Float64
fractions = record {
  Carrier = ℕ × ℕ;
  of_int = λ n. (n, 1);
  div = λ a b. (a.0 * b.1, a.1 * b.0);
  gt = λ a b. ltb (b.0 * a.1) (a.0 * b.1);
}

-- The state is the clock, which every search moves on.
abbrev down : Calls Adjuster ℕ
down = record {
  find_ready = λ limit s. some (err (other "down"), suc s);
  batch_send = λ ns s. (ok [], s);
  adjust = λ a now resp_time. ((adjust a now resp_time).0, ok (adjust a now resp_time).1);
  clock = λ s. s;
  wait = λ s. s;
}

abbrev ten_to_fifty : Adjuster
ten_to_fifty = record {
  curr_size = 20;
  min_size = 10;
  max_size = 50;
  adjust_step = 5;
  last_adjust_time = none;
  min_adjust_interval = 1000;
  fast_threshold = 100;
  slow_threshold = 900;
}

abbrev started : Scheduler fractions Adjuster ℕ
started = record {
  batch_size = 20;
  batch_adjuster = ten_to_fifty;
  err_events = new_bit_ring fractions (pos 5) (pos 2) (1, 2);
  outside = 0;
}

loop-InSizes_example : InSizes fractions 10 50 (loop down fractions 4 started).1
loop-InSizes_example =
    loop-InSizes fractions down (λ a now resp_time. refl) 10 50 4 started
      (record {
        configured = record {
          ordered = omega arith;
          step_fits = omega arith;
          no_overflow = omega arith;
        };
        in_range = record { lower = omega arith; upper = omega arith };
        bounds = (refl, refl);
        size = (omega arith, omega arith);
      })
