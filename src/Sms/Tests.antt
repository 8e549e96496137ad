-- ===== src/Sms/Tests.antt =====
-- The theorems on text messages at one template and an operator that accepts everything.
use mathlib.Core.List
use jotify.Prelude.{ℕ, ◌≡◌, refl, String, [], ◌∷◌, map, none, some, inl, replicate}
use jotify.Prelude.Int.{pos}
use jotify.Errs.{ok}
use jotify.Domain.{channel_sms}
use jotify.Domain.Notification.{Notification}
use jotify.Repo.{no_config}
use jotify.Templates.{
  Rows, ChannelTpl, ChannelTplVersion, ChannelTplProvider, get_by_id, get_version_by_version_id,
  get_by_name_and_tpl_info,
}
use jotify.Sms.{SendReq, TplRepo, SmsClient, Provider, new_provider, send}
use jotify.Sms.Sent.{Delivers, delivered, send-Delivers_sms}
use jotify.Sms.Unmade.{Fails, new_provider-Fails}
use jotify.Sms.Tencent
use jotify.Sms.Tencent.{Sdk, Response, full_phone_num, request_of, append_numbers, statuses}
use jotify.Sms.Tencent.Numbers.{request_of-doubled}

abbrev code_template : ChannelTpl
code_template = record {
  id = 3;
  owner_id = 9;
  owner_type = "person";
  name = "code";
  description = "a code";
  channel = "sms";
  biz_type = "verify_code";
  activated_version_id = 2;
  created_at = pos 0;
  updated_at = pos 0;
}

abbrev second_version : ChannelTplVersion
second_version = record {
  id = 2;
  channel_tpl_id = 3;
  name = "v2";
  signature = "jotify";
  content = "your code is {1}";
  remark = "";
  audit_id = 1;
  auditor_id = 1;
  audit_at = pos 0;
  audit_status = "approved";
  reject_reason = "";
  last_review_at = pos 0;
  created_at = pos 0;
  updated_at = pos 0;
}

abbrev tencent_row : ChannelTplProvider
tencent_row = record {
  id = 5;
  tpl_id = 3;
  tpl_version_id = 2;
  provider_id = 1;
  provider_name = "tencent";
  provider_channel = "sms";
  request_id = "";
  provider_tpl_id = "T1";
  audit_status = "approved";
  reject_reason = "";
  last_review_at = pos 0;
  created_at = pos 0;
  updated_at = pos 0;
}

abbrev rows : Rows ℕ
rows = record {
  first_tpl = λ id s. inl code_template;
  first_version = λ id s. inl second_version;
  versions_of_tpls = λ ids s. inl (second_version ∷ []);
  find_providers = λ name tpl version channel s. inl (tencent_row ∷ []);
}

-- An operator that answers one number and counts its requests.
abbrev accepting : Sdk ℕ
accepting req n = (
  ok (record {
    request_id = "r1";
    send_status_set = record { phone_number = "+8613800000000"; code = "Ok"; message = "" } ∷ [];
  }),
  1,
)

abbrev repo : TplRepo ℕ
repo = record {
  get_by_id = get_by_id rows;
  get_version_by_version_id = get_version_by_version_id rows;
}

abbrev client : SmsClient ℕ
client = Tencent.send accepting "app"

abbrev whole : Provider ℕ ℕ
whole = record {
  name = "tencent";
  client = client;
  tpl_repo = repo;
  provider_repo = some (get_by_name_and_tpl_info rows);
}

abbrev login_code : Notification
login_code = record {
  id = 12;
  biz_id = 7;
  biz_key = "login-12";
  receivers = "13800000000" ∷ [];
  channel = channel_sms;
  template = record { id = 3; version_id = 2; params = ("code", "1234") ∷ [] };
  status = "pending";
  scheduled_start = pos 0;
  scheduled_end = pos 0;
  version = 1;
  strategy_config = no_config;
}

send-Delivers_sms_example :
    (delivered login_code ≡ delivered login_code)
    × Delivers whole login_code 0 0 ((send whole login_code 0 0).1)
unfolding send get_by_id get_version_by_version_id get_by_name_and_tpl_info Tencent.send
send-Delivers_sms_example = send-Delivers_sms whole login_code 0 0 (delivered login_code) refl

new_provider-Fails_example :
    Fails repo login_code 0 0
      (send (new_provider "tencent" client repo (get_by_name_and_tpl_info rows)) login_code 0 0)
new_provider-Fails_example =
    new_provider-Fails "tencent" client repo (get_by_name_and_tpl_info rows) login_code 0 0

abbrev two_numbers : SendReq
two_numbers = record {
  phone_numbers = "13800000000" ∷ "+4915100000000" ∷ [];
  sign_name = "jotify";
  template_id = "T1";
  template_params = ("code", "1234") ∷ [];
}

request_of-doubled_example :
    ((request_of "app" two_numbers).phone_number_set
      ≡ List.◌++◌
          (replicate 2 none)
          (map (λ (p : String). some (full_phone_num p)) two_numbers.phone_numbers))
    × ((request_of "app" two_numbers).template_param_set
        ≡ List.◌++◌
            (replicate 1 none)
            (map (λ (p : String × String). some p.1) two_numbers.template_params))
request_of-doubled_example = request_of-doubled "app" two_numbers
