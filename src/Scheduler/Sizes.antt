-- ===== src/Scheduler/Sizes.antt =====
-- The scheduler with the adjuster of pkg/batch/fixed: the sizes of its batches.
use jotify.Prelude.{
  ℕ, zero, suc, ◌≤◌, ◌≡◌, sym, ◌∙◌, arith, Bool, true, false, if◌then◌else◌, Option, none, some,
}
use mathlib.Core.Path.{subst}
use jotify.Errs.{Result, ok, Error, Run}
use jotify.BitRing.{Float64, BitRing, add, threshold_triggering}
use jotify.Batch.Fixed.{Adjuster, adjust}
use jotify.Batch.Fixed.Bounds.{IsConfigured, InRange, adjust-InRange}
use jotify.Scheduler.{
  Calls, Scheduler, batch_send, has_failed, new_size, rested, adjusted, round, loop,
}

module _ {S : Type 0} (f : Float64) where
  -- The size of the next batch and that of the adjuster are between `lo` and `hi`, the bounds of
  -- the adjuster.
  pub record InSizes (lo hi : ℕ) (sch : Scheduler f Adjuster S) : Type 0 where
    pub configured : IsConfigured sch.batch_adjuster
    pub in_range : InRange sch.batch_adjuster
    pub bounds : (sch.batch_adjuster.min_size ≡ lo) × (sch.batch_adjuster.max_size ≡ hi)
    pub size : (lo ≤ sch.batch_size) × (sch.batch_size ≤ hi)

adjust-bounds :
    (a : Adjuster) (now resp_time : ℕ)
    → ((adjust a now resp_time).0.min_size ≡ a.min_size)
      × ((adjust a now resp_time).0.max_size ≡ a.max_size)
      × ((adjust a now resp_time).1 ≡ (adjust a now resp_time).0.curr_size)
unfolding adjust
adjust-bounds a now resp_time = ground arith

module _ {S : Type 0} (f : Float64) (c : Calls Adjuster S)
    (is_fixed : (a : Adjuster) (now resp_time : ℕ)
      → c.adjust a now resp_time ≡ ((adjust a now resp_time).0, ok (adjust a now resp_time).1))
    (lo hi : ℕ) where
  made : ℕ → ℕ → BitRing f → S → Adjuster × Result ℕ → Scheduler f Adjuster S
  made size cnt events s x = record {
    batch_size = new_size c size x.1;
    batch_adjuster = x.0;
    err_events = events;
    outside = s;
  }

  adjusted-InSizes :
      (cnt resp_time : ℕ) (events : BitRing f) (s : S) (sch : Scheduler f Adjuster S)
      → InSizes f lo hi sch
      → InSizes f lo hi (adjusted c f cnt resp_time events s sch)
  unfolding adjusted made
  adjusted-InSizes cnt resp_time events s sch h =
      let now = c.clock s in
      let (configured, in_range) =
        adjust-InRange sch.batch_adjuster now resp_time h.configured h.in_range in
      let (low, high, same) = adjust-bounds sch.batch_adjuster now resp_time in
      subst
        (λ (x : Adjuster × Result ℕ).
          InSizes f lo hi (made sch.batch_size cnt events (rested c cnt s) x))
        (sym (is_fixed sch.batch_adjuster now resp_time))
        (record {
          configured = configured;
          in_range = in_range;
          bounds = (low ∙ h.bounds.0, high ∙ h.bounds.1);
          size = (
            omega (arith, same, low, h.bounds.0, in_range.lower),
            omega (arith, same, high, h.bounds.1, in_range.upper),
          );
        })

  round-InSizes :
      (sch : Scheduler f Adjuster S) (sent : Option ((ℕ × Option Error) × S))
      (again : Scheduler f Adjuster S → Run (Unit {0}) × Scheduler f Adjuster S)
      → InSizes f lo hi sch
      → ((next : Scheduler f Adjuster S) → InSizes f lo hi next → InSizes f lo hi (again next).1)
      → InSizes f lo hi (round c f sch sent again).1
  unfolding round
  round-InSizes sch none again h k = h
  round-InSizes sch (some (sent, s)) again h k =
      branch (threshold_triggering f (add f sch.err_events (has_failed c sent.1))) _ _
        (record {
          configured = h.configured;
          in_range = h.in_range;
          bounds = h.bounds;
          size = h.size;
        })
        (k _ (adjusted-InSizes sent.0 _ _ s sch h))
    where
      branch :
          (b : Bool) (x y : Run (Unit {0}) × Scheduler f Adjuster S)
          → InSizes f lo hi x.1
          → InSizes f lo hi y.1
          → InSizes f lo hi (if b then x else y).1
      branch true x y h k = h
      branch false x y h k = k

  -- With a fixed step adjuster that is configured, and sizes in its range at the start, every
  -- number of rounds leaves the size of the next batch between the adjuster's bounds.
  pub loop-InSizes :
      (rounds : ℕ) (sch : Scheduler f Adjuster S)
      → InSizes f lo hi sch
      → InSizes f lo hi (loop c f rounds sch).1
  unfolding loop
  loop-InSizes zero sch h = h
  loop-InSizes (suc rounds) sch h =
      round-InSizes sch (batch_send c sch.batch_size sch.outside) (λ next. loop c f rounds next) h
        (λ next. loop-InSizes rounds next)
