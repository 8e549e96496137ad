-- ===== src/Dao/Create/Tests.antt =====
-- BatchCreate at a concrete database, which keeps the texts that it executed and answers a number
-- of executions first with a duplicate of their first id.
use Prim.Native.Nat.{◌∣◌}
use Prim.Native.String.{◌++◌}
use jotify.Prelude.{
  ℕ, zero, suc, ◌≡◌, refl, arith, true, false, String, List, [], ◌∷◌, Option, none, some, inr, ◌+◌,
  ◌⊎◌, map,
}
use jotify.Prelude.Int.{ℤ, pos}
use jotify.Prelude.Text.{format_uint}
use jotify.Errs.{ok, Error, returned, running}
use jotify.Snowflake.{Generator}
use jotify.Repo.{Entity}
use jotify.Dao.{Gorm, Sharded, DbError, duplicated_key, db_failed}
use jotify.Dao.Create.{Inserts, batch_create, group_pointers, stamped}
use jotify.Dao.Create.Made.{Made, Unsettled, batch_create-Made}

abbrev colliding : Gorm
colliding = record {
  State = ℕ × List String;
  loaded = λ name. true;
  insert = λ d n s. (none, s);
  insert_log = λ d l s. (none, s);
  first_by_id = λ d id s. inr (db_failed "down");
  first_by_key = λ d biz_id key s. inr (db_failed "down");
  update_status = λ d id version status now s. ((none, pos 0), s);
  update_log = λ d id status now s. (none, s);
}

abbrev first_id : List ℕ → ℕ
first_id [] = 0
first_id (id ∷ ids) = id

abbrev executed : String → List ℕ → ℕ × List String → Option DbError × (ℕ × List String)
executed sql ids (zero, done) = (none, (0, sql ∷ done))
executed sql ids (suc k, done) =
    (some (duplicated_key ("Duplicate entry " ++ format_uint (first_id ids))), (k, done))

abbrev inserts : Inserts colliding
inserts = record {
  Var = ℕ;
  create_statement = λ table n. ("INSERT INTO " ++ table, n.id ∷ []);
  create_log_statement = λ table l. ("INSERT INTO " ++ table, l.notification_id ∷ []);
  exec = λ name sql ids s. executed (name ++ ": " ++ sql) ids s;
}

abbrev strategies : Sharded
strategies = record {
  sum64 = λ key. 12345;
  notif_strategy = record {
    db_prefix = "jotify";
    table_prefix = "notification";
    db_sharding = 2;
    table_sharding = 4;
  };
  cb_log_strategy = record {
    db_prefix = "jotify";
    table_prefix = "callback_log";
    db_sharding = 2;
    table_sharding = 4;
  };
}

abbrev order : String → Entity
order key = record {
  id = 0;
  biz_id = 7;
  biz_key = key;
  receivers = "[]";
  channel = "sms";
  tpl_id = 3;
  tpl_version_id = 2;
  tpl_params = "{}";
  status = "pending";
  schedule_strat = pos 1;
  schedule_end = pos 3;
  version = 0;
  created_at = pos 0;
  updated_at = pos 0;
}

abbrev orders : List Entity
orders = order "order-1" ∷ order "order-2" ∷ []

abbrev start : Generator
start = record { sequence = 0 }

abbrev two_rounds : String → List (ℤ × (ℕ → ℕ))
two_rounds name =
    (pos 1750000000000, λ i. 1750000000000) ∷ (pos 1750000000009, λ i. 1750000000009 + i) ∷ []

-- One collision: the second round makes a third and a fourth id.
batch_retried :
    (batch_create colliding inserts strategies
      (pos 1750000000000)
      false
      two_rounds
      orders
      (start, (1, []))).1
    ≡ (
      record { sequence = 4 },
      (0, "jotify_1: INSERT INTO notification_0;INSERT INTO notification_0" ∷ []),
    )
unfolding batch_create format_uint
batch_retried = refl

batch_create-Made_example :
    ((rows : List Entity) × (failed : Option Error) × ((batch_create colliding inserts strategies
          (pos 1750000000000)
          true
          two_rounds
          orders
          (start, (1, []))).0
        ≡ returned (ok (rows, failed)))
      × Made strategies (pos 1750000000000) orders rows)
    ⊎ (((batch_create colliding inserts strategies
            (pos 1750000000000)
            true
            two_rounds
            orders
            (start, (1, []))).0
          ≡ running)
        × Unsettled colliding inserts strategies
            (omega arith)
            (∣ (128, refl) ∣₁)
            (λ name. refl)
            true
            two_rounds
            (group_pointers strategies 0 (map (stamped (pos 1750000000000)) orders) [])
            ((start, map (stamped (pos 1750000000000)) orders), (1, [])))
batch_create-Made_example =
    batch_create-Made colliding inserts strategies (omega arith) (∣ (128, refl) ∣₁) (λ name. refl)
      true two_rounds (pos 1750000000000) orders start (1, []) (λ name. omega arith)
