-- ===== src/Quota/Tests.antt =====
-- The theorems on the quotas at a concrete store.
use mathlib.Core.List.{Memᴰ}
use text.Mathlib.TextEquality.{eq_iff}
use jotify.Prelude.{◌≡◌, ap, sym, ◌∙◌, arith, String, [], ◌∷◌}
use jotify.Prelude.Int.{ℤ, pos}
use jotify.Prelude.Text.{format_uint}
use jotify.Domain.{channel_sms, channel_email}
use jotify.Quota.{QuotaParam, param_key, redis_key, batch_decr}
use jotify.Quota.Batch.{HaveDistinctKeys, none_left, another, AllOrNothing, batch_decr-AllOrNothing}
use jotify.Quota.Cells.{cells, cells-IsRedis}

abbrev sms : QuotaParam
sms = record { biz_id = 7; channel = channel_sms; quota = 1 }

abbrev mails : QuotaParam
mails = record { biz_id = 7; channel = channel_email; quota = 3 }

abbrev two_each : String → ℤ
two_each k = pos 2

different : HaveDistinctKeys (sms ∷ mails ∷ [])
unfolding redis_key format_uint
different =
    another sms (mails ∷ []) (λ q m e. ground (arith, (eq_iff _ _).1 (e ∙ sym (other_key q m))))
      (another mails [] (λ q m. elim m [ ]) none_left)
  where
    other_key : (q : QuotaParam) → Memᴰ q (mails ∷ []) → "quota:7:email" ≡ param_key q
    other_key q (Memᴰ.head e) = ap param_key (sym e)
    other_key q (Memᴰ.tail m) = elim m [ ]

batch_decr-AllOrNothing_example :
    AllOrNothing cells (sms ∷ mails ∷ []) two_each (batch_decr cells (sms ∷ mails ∷ []) two_each)
batch_decr-AllOrNothing_example =
    batch_decr-AllOrNothing cells cells-IsRedis (sms ∷ mails ∷ []) two_each different
