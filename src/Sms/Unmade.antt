-- ===== src/Sms/Unmade.antt =====
-- A provider as NewProvider makes it.
use text.Mathlib.Text.{◌==◌}
use jotify.Prelude.{◌==◌ as nat_eq, ◌≡◌, refl, Bool, true, false, not, if◌then◌else◌, String}
use jotify.Errs.{
  Result, ok, err, Error, failed_to_send_notification, channel_tpl_not_found,
  not_approved_tpl_version, Run, returned, panicked,
}
use jotify.Domain.{SendResult}
use jotify.Domain.Notification.{Notification}
use jotify.Domain.Template.{ChannelTpl, ChannelTplVersion, audit_status_approved}
use jotify.Sms.{
  TplRepo, ProviderRepo, SmsClient, Provider, new_provider, on_version, on_template, get_template,
  send_template, send, ask_providers,
}

module _ {S C : Type 0} where
  -- How Send ends without a repository of providers: in the failure by which it answers an error
  -- of each stage, or in a panic; the client is as it was.
  pub data Fails (tpl_repo : TplRepo S) (n : Notification) (s : S) (c : C)
      : Run SendResult × C → Type 0 where
    no_template :
        (e : Error)
        → tpl_repo.get_by_id n.template.id s ≡ err e
        → Fails tpl_repo n s c (returned (err failed_to_send_notification), c)
    empty_template :
        (tpl : ChannelTpl)
        → tpl_repo.get_by_id n.template.id s ≡ ok tpl
        → nat_eq tpl.id 0 ≡ true
        → Fails tpl_repo n s c (returned (err failed_to_send_notification), c)
    no_version :
        (tpl : ChannelTpl) (e : Error)
        → tpl_repo.get_by_id n.template.id s ≡ ok tpl
        → nat_eq tpl.id 0 ≡ false
        → tpl_repo.get_version_by_version_id tpl.activated_version_id s ≡ err e
        → Fails tpl_repo n s c (returned (err failed_to_send_notification), c)
    not_approved :
        (tpl : ChannelTpl) (version : ChannelTplVersion)
        → tpl_repo.get_by_id n.template.id s ≡ ok tpl
        → nat_eq tpl.id 0 ≡ false
        → tpl_repo.get_version_by_version_id tpl.activated_version_id s ≡ ok version
        → (version.audit_status == audit_status_approved) ≡ false
        → Fails tpl_repo n s c (returned (err failed_to_send_notification), c)
    panics :
        (tpl : ChannelTpl) (version : ChannelTplVersion)
        → tpl_repo.get_by_id n.template.id s ≡ ok tpl
        → nat_eq tpl.id 0 ≡ false
        → tpl_repo.get_version_by_version_id tpl.activated_version_id s ≡ ok version
        → (version.audit_status == audit_status_approved) ≡ true
        → Fails tpl_repo n s c (panicked, c)

  module _ (name : String) (client : SmsClient C) (tpl_repo : TplRepo S) (repo : ProviderRepo S)
      (n : Notification) (s : S) (c : C) where
    abbrev made : Provider S C
    made = new_provider name client tpl_repo repo

    version-Fails :
        (tpl : ChannelTpl) (v : Result ChannelTplVersion)
        → tpl_repo.get_by_id n.template.id s ≡ ok tpl
        → nat_eq tpl.id 0 ≡ false
        → tpl_repo.get_version_by_version_id tpl.activated_version_id s ≡ v
        → Fails tpl_repo n s c (send_template made n c (on_version made tpl s v))
    unfolding new_provider
    version-Fails tpl (err e) t known v = Fails.no_version tpl e t known v
    version-Fails tpl (ok version) t known v =
        approved (version.audit_status == audit_status_approved) refl
      where
        approved :
            (b : Bool)
            → (version.audit_status == audit_status_approved) ≡ b
            → Fails tpl_repo n s c (
                send_template made n c (
                  if not b
                  then returned (err not_approved_tpl_version)
                  else ask_providers made tpl s made.provider_repo version))
        approved true e = Fails.panics tpl version t known v e
        approved false e = Fails.not_approved tpl version t known v e

    template-Fails :
        (t : Result ChannelTpl)
        → tpl_repo.get_by_id n.template.id s ≡ t
        → Fails tpl_repo n s c (send_template made n c (on_template made s t))
    unfolding new_provider
    template-Fails (err e) t = Fails.no_template e t
    template-Fails (ok tpl) t = known (nat_eq tpl.id 0) refl
      where
        known :
            (b : Bool)
            → nat_eq tpl.id 0 ≡ b
            → Fails tpl_repo n s c (
                send_template made n c (
                  if b
                  then returned (err channel_tpl_not_found)
                  else on_version made tpl s
                      (tpl_repo.get_version_by_version_id tpl.activated_version_id s)))
        known true e = Fails.empty_template tpl t e
        known false e = version-Fails tpl _ t e refl

    -- A provider that NewProvider made never sends a message and never calls the client: Send
    -- panics exactly where the template is found and its active version is found and approved, and
    -- fails where the template is missing or has the id 0, or the version is missing or not
    -- approved.
    pub new_provider-Fails :
        Fails tpl_repo n s c (send (new_provider name client tpl_repo repo) n s c)
    unfolding send new_provider get_template
    new_provider-Fails = template-Fails (tpl_repo.get_by_id n.template.id s) refl
