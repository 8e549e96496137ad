-- ===== src/Sms.antt =====
-- internal/service/provider/sms/sms_provider.go: a provider that sends a notification as a text
-- message with the active version of its template. The rows of the templates are the parameter of
-- Templates, and the client of the operator is a parameter on a state of its own.
pub mod Tencent
pub mod Sent
pub mod Unmade
mod Tests
use Prim.Native.String.{◌++◌}
use text.Mathlib.Text.{◌==◌}
use jotify.Prelude.{
  ℕ, ◌==◌ as nat_eq, Bool, ◌||◌, not, if◌then◌else◌, String, List, [], ◌∷◌, Option, none, some,
}
use jotify.Errs.{
  Result, ok, err, Error, channel_tpl_not_found, not_approved_tpl_version, not_available_provider,
  failed_to_send_notification, reject, ◌>>◌, ◌>>=◌, Run, returned, panicked, running,
}
use jotify.Domain.{SendResult, channel_sms, send_status_success}
use jotify.Domain.Notification.{Notification}
use jotify.Domain.Template.{
  ChannelTpl, ChannelTplVersion, ChannelTplProvider, activated_version, audit_status_approved,
}

-- SendReq of sms/client/types.go. A nil map of parameters is the empty one here: the requests that
-- are made of the two are alike.
pub record SendReq : Type 0 where
  pub phone_numbers : List String
  pub sign_name : String
  pub template_id : String
  pub template_params : List (String × String)

pub record SendRespStatus : Type 0 where
  pub code : String
  pub message : String

pub record SendResp : Type 0 where
  pub request_id : String
  pub phone_numbers : List (String × SendRespStatus)

-- The repositories, and the client.
pub record TplRepo (S : Type 0) : Type 0 where
  pub get_by_id : ℕ → S → Result ChannelTpl
  pub get_version_by_version_id : ℕ → S → Result ChannelTplVersion

abbrev pub ProviderRepo : Type 0 → Type 0
ProviderRepo S = String → ℕ → ℕ → String → S → Result (List ChannelTplProvider)

abbrev pub SmsClient : Type 0 → Type 0
SmsClient C = SendReq → C → Run SendResp × C

-- A provider repository that is nil is `none`.
pub record Provider (S C : Type 0) : Type 0 where
  pub name : String
  pub client : SmsClient C
  pub tpl_repo : TplRepo S
  pub provider_repo : Option (ProviderRepo S)

-- strings.EqualFold(code, "OK"); the last two have the Kelvin sign, which folds to k.
unfoldable pub equal_fold_ok : String → Bool
equal_fold_ok code =
    code == "OK" || code == "ok" || code == "Ok" || code == "oK" || code == "OK" || code == "oK"

-- The loop over the statuses, in the order in which the map gives them.
unfoldable pub check_statuses : List (String × SendRespStatus) → Result (Unit {0})
unfolding equal_fold_ok
check_statuses [] = ok tt
check_statuses ((phone, status) ∷ statuses) =
    reject (not (equal_fold_ok status.code)) failed_to_send_notification >> check_statuses statuses

abbrev pub with_providers :
    ChannelTpl → ChannelTplVersion → Result (List ChannelTplProvider) → Result ChannelTpl
with_providers tpl version (err e) = err e
with_providers tpl version (ok []) = err not_available_provider
with_providers tpl version (ok (q ∷ qs)) =
    ok (record tpl { versions = record version { providers = q ∷ qs } ∷ [] })

abbrev pub answered : {C : Type 0} → Notification → Run SendResp × C → Run SendResult × C
answered n (panicked, c) = (panicked, c)
answered n (running, c) = (running, c)
answered n (returned (err e), c) = (returned (err failed_to_send_notification), c)
answered n (returned (ok resp), c) = (
  returned (
      check_statuses resp.phone_numbers
      >> ok (record { notification_id = n.id; status = send_status_success })),
  c,
)

module _ {S C : Type 0} where
  -- NewProvider leaves the provider repository out.
  unfoldable pub new_provider : String → SmsClient C → TplRepo S → ProviderRepo S → Provider S C
  new_provider name client tpl_repo provider_repo = record {
    name = name;
    client = client;
    tpl_repo = tpl_repo;
    provider_repo = none;
  }

  -- The call of a nil repository panics.
  abbrev pub ask_providers :
      Provider S C → ChannelTpl → S → Option (ProviderRepo S) → ChannelTplVersion → Run ChannelTpl
  ask_providers p tpl s none version = panicked
  ask_providers p tpl s (some repo) version =
      returned (with_providers tpl version (repo p.name tpl.id version.id channel_sms s))

  abbrev pub on_version : Provider S C → ChannelTpl → S → Result ChannelTplVersion → Run ChannelTpl
  on_version p tpl s (err e) = returned (err e)
  on_version p tpl s (ok version) =
      if not (version.audit_status == audit_status_approved)
      then returned (err not_approved_tpl_version)
      else ask_providers p tpl s p.provider_repo version

  abbrev pub on_template : Provider S C → S → Result ChannelTpl → Run ChannelTpl
  on_template p s (err e) = returned (err e)
  on_template p s (ok tpl) =
      if nat_eq tpl.id 0
      then returned (err channel_tpl_not_found)
      else on_version p tpl s (p.tpl_repo.get_version_by_version_id tpl.activated_version_id s)

  unfoldable pub get_template : Provider S C → ℕ → S → Run ChannelTpl
  get_template p template_id s = on_template p s (p.tpl_repo.get_by_id template_id s)

  -- The first provider of the active version; an index out of range panics.
  abbrev pub send_version :
      Provider S C
      → Notification
      → C
      → ChannelTplVersion
      → List ChannelTplProvider
      → Run SendResult × C
  send_version p n c version [] = (panicked, c)
  send_version p n c version (q ∷ qs) = answered n (
      p.client
        (record {
          phone_numbers = n.receivers;
          sign_name = version.signature;
          template_id = q.provider_tpl_id;
          template_params = n.template.params;
        })
        c)

  abbrev pub on_activated :
      Provider S C → Notification → C → Option ChannelTplVersion → Run SendResult × C
  on_activated p n c none = (returned (err failed_to_send_notification), c)
  on_activated p n c (some version) = send_version p n c version version.providers

  abbrev pub send_template : Provider S C → Notification → C → Run ChannelTpl → Run SendResult × C
  send_template p n c panicked = (panicked, c)
  send_template p n c running = (running, c)
  send_template p n c (returned (err e)) = (returned (err failed_to_send_notification), c)
  send_template p n c (returned (ok tpl)) = on_activated p n c (activated_version tpl)

  unfoldable pub send : Provider S C → Notification → S → C → Run SendResult × C
  unfolding get_template activated_version check_statuses
  send p n s c = send_template p n c (get_template p n.template.id s)
