-- ===== src/Domain/Window.antt =====
-- The send window that a configuration gives.
use jotify.Prelude.{◌*◌, ◌≡◌, ◌≢◌, true, false, arith, refl, ◌⊎◌, inl, inr, Bool-cases}
use jotify.Prelude.Int.{pos, ◌+ℤ◌, ltb_ℤ}
use jotify.Errs.{ok}
use jotify.Domain.{send_strategy_scheduled, send_strategy_deadline}
use jotify.Domain.Time.{Time, Duration, minute, before}
use jotify.Domain.Notification.{SendStrategyConf, conf_validate, calc_time_window}
use jotify.Domain.Validate.{
  IsSchedulable, immediate, delayed, scheduled, time_window, deadline, conf_sound,
}

later : (t : Time) (d : Duration) → ltb_ℤ (pos 0) d ≡ true → before (t +ℤ d) t ≡ false
unfolding ◌+ℤ◌
later t d p = ground arith

-- A configuration that the validation accepts at one time, and whose strategy is not `scheduled`,
-- gives at another time a window that does not end before it starts, unless its deadline has passed
-- at that other time.
pub calc_time_window-ordered :
    (validated now : Time) (c : SendStrategyConf)
    → conf_validate validated c ≡ ok tt
    → c.strategy ≢ send_strategy_scheduled
    → (before ((calc_time_window now c).1) ((calc_time_window now c).0) ≡ false)
      ⊎ ((c.strategy ≡ send_strategy_deadline) × (before c.deadline now ≡ true))
unfolding calc_time_window
calc_time_window-ordered validated now c v ne = go (conf_sound validated c v)
  where
    go :
        IsSchedulable validated c
        → (before ((calc_time_window now c).1) ((calc_time_window now c).0) ≡ false)
          ⊎ ((c.strategy ≡ send_strategy_deadline) × (before c.deadline now ≡ true))
    go (immediate s) = inl (simp s (later now (pos (30 * minute)) refl))
    go (delayed s p) = inl (simp s (later now c.delay p))
    go (scheduled s p q) = elim (ne s) [ ]
    go (time_window s p q) = inl (simp (s, q))
    go (deadline s p q) = elim (Bool-cases (before c.deadline now)) [
      | inl past ↦ inr (s, past)
      | inr ahead ↦ inl (simp (s, ahead))
    ]
