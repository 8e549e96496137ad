-- ===== src/BizConf/Tests.antt =====
-- The theorem on configurations at empty caches of one cell.
use jotify.Prelude.{
  ℕ, ◌==◌, ==_iff, ◌≡◌, ◌⊎◌, inl, refl, sym, arith, Bool, true, false, Option, none, some,
  if◌then◌else◌, [],
}
use jotify.Prelude.Int.{pos}
use jotify.Errs.{Result, ok, err, other}
use jotify.BizConf.{BizConf, Entity, Cache, get_by_id}
use jotify.BizConf.Coherence.{Coherent, IsCache, Answers, get_by_id-Answers}

abbrev Cell : Type 0
Cell = Option (ℕ × BizConf)

abbrev read : ℕ → Cell → Result BizConf
read id none = err (other "missing")
read id (some (k, conf)) = if k == id then ok conf else err (other "missing")

abbrev one_cell : Cache Cell
one_cell = record { get = read; set = λ id conf s. (ok tt, some (id, conf)) }

one_cell-IsCache : IsCache one_cell
one_cell-IsCache id j conf found s e = branch (id == j) refl e
  where
    branch :
        (b : Bool)
        → (id == j) ≡ b
        → (if b then ok conf else err (other "missing")) ≡ ok found
        → ((j ≡ id) × (found ≡ conf)) ⊎ (read j s ≡ ok found)
    branch true f g = inl (sym ((==_iff id j).0 f), ground (arith, g))
    branch false f g = ground (arith, g)

abbrev row : Entity
row = record {
  id = 7;
  owner_id = 1;
  owner_type = "person";
  channel_conf = record { val = record { channels = []; retry_policy = none }; valid = false };
  tx_notif_conf = record {
    val = record { service_name = ""; initial_delay = pos 0; retry_policy = none };
    valid = false;
  };
  rate_limit = pos 10;
  quota_conf = record { val = record { daily = none; monthly = none }; valid = false };
  callback_conf = record {
    val = record { service_name = "orders"; retry_policy = none };
    valid = true;
  };
  created_at = pos 0;
  updated_at = pos 0;
}

empty-Coherent : Coherent (λ id. ok row) one_cell none
empty-Coherent id conf e = ground (arith, e)

get_by_id-Answers_example :
    Answers one_cell one_cell
      (λ id. ok row)
      7
      (get_by_id one_cell one_cell (λ id. ok row) 7 (none, none))
get_by_id-Answers_example =
    get_by_id-Answers one_cell one_cell (λ id. ok row) one_cell-IsCache one_cell-IsCache 7 none none
      empty-Coherent empty-Coherent
