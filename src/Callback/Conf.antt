-- ===== src/Callback/Conf.antt =====
-- getConf and its map of configurations.
use jotify.Prelude.{ℕ, ◌≡◌, refl, ap, Option, none, some}
use jotify.Prelude.Maps.{lookup, store, lookup-store}
use jotify.Errs.{Error, Result, ok, err}
use jotify.Callback.{Calls, CallbackConf, ConfMap, State, stored, loaded, get_conf}

module _ {S : Type 0} (c : Calls S) where
  -- getConf answers the configuration from its map, in any state of the other services.
  abbrev pub Answers : ℕ → CallbackConf → ConfMap c → Type 0
  Answers b conf m = (s : S) → get_conf c b (m, s) ≡ (ok (some conf), (m, s))

  -- The answers of getConf: a configuration that was answered is in the map.
  pub data Remembers (b : ℕ) : Result (Option CallbackConf) × State c → Type 0 where
    failed : (e : Error) (st : State c) → Remembers b (err e, st)
    absent : (st : State c) → Remembers b (ok none, st)
    remembered :
        {conf : CallbackConf} {m : ConfMap c} (s : S)
        → Answers b conf m
        → Remembers b (ok (some conf), (m, s))

  of_lookup :
      (b : ℕ) (conf : CallbackConf) (m : ConfMap c) → lookup b m ≡ some conf → Answers b conf m
  unfolding get_conf
  of_lookup b conf m e s =
      ap (λ (o : Option CallbackConf). loaded c o (stored c b m (c.get_by_id b s)) (m, s)) e

  stored-Remembers :
      (b : ℕ) (m : ConfMap c) (x : Result (Option CallbackConf) × S) → Remembers b (stored c b m x)
  unfolding stored
  stored-Remembers b m (err e, s) = Remembers.failed e (m, s)
  stored-Remembers b m (ok none, s) = Remembers.absent (m, s)
  stored-Remembers b m (ok (some conf), s) =
      Remembers.remembered s (of_lookup b conf (store b conf m) (lookup-store b conf m))

  loaded-Remembers :
      (b : ℕ) (m : ConfMap c) (s : S) (o : Option CallbackConf)
      (asked : Result (Option CallbackConf) × State c)
      → lookup b m ≡ o
      → Remembers b asked
      → Remembers b (loaded c o asked (m, s))
  loaded-Remembers b m s none asked e h = h
  loaded-Remembers b m s (some conf) asked e h = Remembers.remembered s (of_lookup b conf m e)

  -- Once getConf has answered a configuration, it answers the same one for that business from then
  -- on, whatever the other services have become, and does not call the repository again.
  get_conf-Remembers : (b : ℕ) (st : State c) → Remembers b (get_conf c b st)
  unfolding get_conf
  get_conf-Remembers b (m, s) =
      loaded-Remembers b m s (lookup b m) _ refl (stored-Remembers b m (c.get_by_id b s))
