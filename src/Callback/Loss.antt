-- ===== src/Callback/Loss.antt =====
-- What reaches the update of the callback logs.
use mathlib.Core.List.{Memᴰ, Sublistᴰ}
use mathlib.Core.Path.{subst}
use text.Mathlib.Text.{◌==◌}
use jotify.Prelude.{
  ◌≡◌, refl, sym, Bool, true, false, List, [], ◌∷◌, Option, none, some, if◌then◌else◌,
}
use jotify.Errs.{Error, Result, ok, err, Run, returned, panicked}
use jotify.Domain.Time.{Time}
use jotify.Retry.{
  Strategy, Strategies, Config, FixedIntervalConfig, ExponentialBackoffConfig, new_retry_strategy,
  fixed, exponential,
}
use jotify.Callback.{
  Calls, CallbackLog, CallbackConf, State, get_conf, with_strategy, retried, changed,
  send_and_set_change_fields, send_callback, next_log, kept, send_logs,
}

-- The configuration that the type of a policy names is nil.
pub data LacksConfig (cfg : Config) : Type 0 where
  no_fixed : (cfg.type == "fixed_interval") ≡ true → cfg.fixed_interval ≡ none → LacksConfig cfg
  no_exponential :
      (cfg.type == "exponential_backoff") ≡ true → cfg.exponential_backoff ≡ none → LacksConfig cfg

-- The making of a strategy returns, or panics where its configuration is nil.
data HasEnded {ℓ} {A : Type ℓ} (cfg : Config) : Run A → Type ℓ where
  with_result : (r : Result A) → HasEnded cfg (returned r)
  with_panic : LacksConfig cfg → HasEnded cfg panicked

new_retry_strategy-HasEnded :
    (lib : Strategies) (cfg : Config) → HasEnded cfg (new_retry_strategy lib cfg)
unfolding new_retry_strategy
new_retry_strategy-HasEnded lib cfg =
    either (cfg.type == "fixed_interval") refl (λ e. of_fixed cfg.fixed_interval e refl)
      (either (cfg.type == "exponential_backoff") refl
        (λ e. of_exponential cfg.exponential_backoff e refl) (HasEnded.with_result _))
  where
    either :
        (b : Bool) {t : Bool} {x y : Run Strategy}
        → t ≡ b
        → (t ≡ true → HasEnded cfg x)
        → HasEnded cfg y
        → HasEnded cfg (if b then x else y)
    either true e h k = h e
    either false e h k = k

    of_fixed :
        (o : Option FixedIntervalConfig)
        → (cfg.type == "fixed_interval") ≡ true
        → cfg.fixed_interval ≡ o
        → HasEnded cfg (fixed lib o)
    of_fixed none t e = HasEnded.with_panic (LacksConfig.no_fixed t e)
    of_fixed (some f) t e = HasEnded.with_result _

    of_exponential :
        (o : Option ExponentialBackoffConfig)
        → (cfg.type == "exponential_backoff") ≡ true
        → cfg.exponential_backoff ≡ o
        → HasEnded cfg (exponential lib o)
    of_exponential none t e = HasEnded.with_panic (LacksConfig.no_exponential t e)
    of_exponential (some f) t e = HasEnded.with_result _

-- The answer of getConf is no configuration, one without a retry policy, or one whose policy lacks
-- the configuration that its type names.
pub data HasNoStrategy : Result (Option CallbackConf) → Type 0 where
  no_conf : HasNoStrategy (ok none)
  no_policy : (conf : CallbackConf) → conf.retry_policy ≡ none → HasNoStrategy (ok (some conf))
  no_config :
      (conf : CallbackConf) (cfg : Config)
      → conf.retry_policy ≡ some cfg
      → LacksConfig cfg
      → HasNoStrategy (ok (some conf))

module _ {S : Type 0} (c : Calls S) where
  -- How sendAndSetChangeFields ends: what it returns without an error asks for an update.
  data Changes (log : CallbackLog) : Run (Bool × CallbackLog) → Type 0 where
    failed : (e : Error) → Changes log (returned (err e))
    changes : (own : CallbackLog) → Changes log (returned (ok (true, own)))
    panics :
        (st : State c)
        → HasNoStrategy (get_conf c log.notification.biz_id st).0
        → Changes log panicked

  -- The parameters are some of the logs, in their order and as they were given; or getConf, at some
  -- state, has no strategy for the business of one of them.
  pub data Collects (logs : List CallbackLog) : Run (List CallbackLog) → Type 0 where
    collects :
        {params : List CallbackLog} → Sublistᴰ params logs → Collects logs (returned (ok params))
    panics :
        (log : CallbackLog) (st : State c)
        → Memᴰ log logs
        → HasNoStrategy (get_conf c log.notification.biz_id st).0
        → Collects logs panicked

  with_strategy-Changes :
      (log : CallbackLog) (now : Time) (s : Run Strategy) (st : State c) (conf : CallbackConf)
      (cfg : Config)
      → (get_conf c log.notification.biz_id st).0 ≡ ok (some conf)
      → conf.retry_policy ≡ some cfg
      → HasEnded cfg s
      → Changes log (with_strategy c log now s)
  unfolding with_strategy
  with_strategy-Changes log now _ st conf cfg q p (HasEnded.with_result (err e)) = Changes.failed e
  with_strategy-Changes log now _ st conf cfg q p (HasEnded.with_result (ok next)) =
      Changes.changes _
  with_strategy-Changes log now _ st conf cfg q p (HasEnded.with_panic lacks) =
      Changes.panics st (subst HasNoStrategy (sym q) (HasNoStrategy.no_config conf cfg p lacks))

  retried-Changes :
      (log : CallbackLog) (st : State c) (x : Result (Option CallbackConf) × State c)
      → (get_conf c log.notification.biz_id st).0 ≡ x.0
      → Changes log (retried c log x).0
  unfolding retried
  retried-Changes log st₀ (err e, st) q = Changes.failed e
  retried-Changes log st₀ (ok none, st) q =
      Changes.panics st₀ (subst HasNoStrategy (sym q) HasNoStrategy.no_conf)
  retried-Changes log st₀ (ok (some conf), st) q = with_policy (conf.retry_policy) refl
    where
      with_policy :
          (o : Option Config)
          → conf.retry_policy ≡ o
          → Changes log (elim o [
            | none ↦ panicked
            | some cfg ↦ with_strategy c log (c.now st.1) (new_retry_strategy c.strategies cfg)
          ])
      with_policy none p =
          Changes.panics st₀ (subst HasNoStrategy (sym q) (HasNoStrategy.no_policy conf p))
      with_policy (some cfg) p =
          with_strategy-Changes log (c.now st.1) _ st₀ conf cfg q p
            (new_retry_strategy-HasEnded c.strategies cfg)

  changed-Changes :
      (log : CallbackLog) (x : Result Bool × State c) → Changes log (changed c log x).0
  unfolding changed
  changed-Changes log (err e, st) = Changes.failed e
  changed-Changes log (ok true, st) = Changes.changes _
  changed-Changes log (ok false, st) =
      retried-Changes log st (get_conf c log.notification.biz_id st) refl

  kept-Collects :
      (log : CallbackLog) (logs : List CallbackLog) (x : Run (List CallbackLog) × State c)
      → Collects logs x.0
      → Collects (log ∷ logs) (kept c true log x).0
  kept-Collects log logs (_, st) (Collects.collects sub) =
      Collects.collects (Sublistᴰ.cons-cons refl sub)
  kept-Collects log logs (_, st) (Collects.panics l t m h) = Collects.panics l t (Memᴰ.tail m) h

  skipped :
      {log : CallbackLog} {logs : List CallbackLog} {r : Run (List CallbackLog)}
      → Collects logs r
      → Collects (log ∷ logs) r
  skipped (Collects.collects sub) = Collects.collects (Sublistᴰ.cons sub)
  skipped (Collects.panics l t m h) = Collects.panics l t (Memᴰ.tail m) h

  next_log-Collects :
      (log : CallbackLog) (logs : List CallbackLog) (x : Run (Bool × CallbackLog) × State c)
      (rest : State c → Run (List CallbackLog) × State c)
      → Changes log x.0
      → ((st : State c) → Collects logs (rest st).0)
      → Collects (log ∷ logs) (next_log c log x rest).0
  next_log-Collects log logs (_, st) rest (Changes.failed e) h = skipped (h st)
  next_log-Collects log logs (_, st) rest (Changes.changes own) h =
      kept-Collects log logs (rest st) (h st)
  next_log-Collects log logs (_, st) rest (Changes.panics t none_for) h =
      Collects.panics log t (Memᴰ.head refl) none_for

  pub send_logs-Collects :
      (logs : List CallbackLog) (st : State c) → Collects logs (send_logs c logs st).0
  unfolding send_logs send_and_set_change_fields
  send_logs-Collects [] st = Collects.collects Sublistᴰ.slnil
  send_logs-Collects (log ∷ logs) st =
      next_log-Collects log logs _ _ (changed-Changes log (send_callback c log.notification st))
        (λ t. send_logs-Collects logs t)
