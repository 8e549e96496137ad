-- ===== src/Snowflake/Tests.antt =====
-- Ids at a concrete time, and the theorems at them.
use jotify.Prelude.{ℕ, ◌+◌, ◌*◌, ◌^◌, ◌≡◌, ◌≢◌, refl, String, List, [], ◌∷◌, arith, get_or}
use jotify.Snowflake.{Generator, hash_key, next_id}
use jotify.Snowflake.Layout.{Request, next_ids, next_ids_distinct}

-- a stand-in for the hash
abbrev hash : String → ℕ
hash s = 5003

abbrev generator : Generator
generator = record { sequence = 4095 }

abbrev requests : List Request
requests =
    record { now = 1735689600005; biz_id = 1; biz_key = "a" }
    ∷ record { now = 1735689600005; biz_id = 1; biz_key = "a" }
    ∷ []

key : hash_key 1207 "order" ≡ "1207:order"
unfolding hash_key
key = refl

first_id : (next_id hash generator 1735689600005 1 "a").1 ≡ 5 * 2 ^ 22 + 907 * 2 ^ 12 + 4095
unfolding next_id
first_id = refl

next_ids_distinct_example :
    get_or (next_ids hash generator requests) 0 0 ≢ get_or (next_ids hash generator requests) 1 0
next_ids_distinct_example =
    next_ids_distinct hash generator requests 0 1 (omega arith) (omega arith) (omega arith)
