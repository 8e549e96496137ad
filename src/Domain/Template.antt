-- ===== src/Domain/Template.antt =====
-- internal/domain/template.go and provider.go: channel templates with their versions and
-- providers, and what the two validations ask.
use text.Mathlib.Text.{◌==◌}
use jotify.Prelude.{
  ℕ, Bool, false, ◌||◌, not, ltb, if◌then◌else◌, String, List, [], ◌∷◌, Option, some, none,
  ◌==◌ as nat_eq,
}
use jotify.Prelude.Int.{ℤ, pos, ltb_ℤ}
use jotify.Errs.{Result, invalid_param, reject, ◌>>◌}
use jotify.Domain.{Channel, channel_validate}

abbrev pub audit_status_approved : String
audit_status_approved = "approved"

unfoldable pub owner_validate : String → Bool
owner_validate o = o == "person" || o == "organization"

unfoldable pub biz_type_validate : String → Bool
biz_type_validate b = b == "Promotion" || b == "notification" || b == "verify_code"

pub record ChannelTplProvider : Type 0 where
  pub id : ℕ
  pub tpl_id : ℕ
  pub tpl_version_id : ℕ
  pub provider_id : ℕ
  pub provider_name : String
  pub provider_channel : Channel
  pub request_id : String
  pub provider_tpl_id : String
  pub audit_status : String
  pub reject_reason : String
  pub last_review_at : ℤ
  pub create_at : ℤ
  pub update_at : ℤ

pub record ChannelTplVersion : Type 0 where
  pub id : ℕ
  pub channel_tpl_id : ℕ
  pub name : String
  pub signature : String
  pub content : String
  pub remark : String
  pub audit_id : ℕ
  pub auditor_id : ℕ
  pub audit_at : ℤ
  pub audit_status : String
  pub reject_reason : String
  pub last_review_at : ℤ
  pub create_at : ℤ
  pub update_at : ℤ
  pub providers : List ChannelTplProvider

pub record ChannelTpl : Type 0 where
  pub id : ℕ
  pub owner_id : ℕ
  pub owner_type : String
  pub name : String
  pub description : String
  pub channel : Channel
  pub biz_type : String
  pub activated_version_id : ℕ
  pub create_at : ℤ
  pub update_at : ℤ
  pub versions : List ChannelTplVersion

unfoldable pub tpl_validate : ChannelTpl → Result (Unit {0})
unfolding owner_validate channel_validate biz_type_validate
tpl_validate t = do
  reject (not (owner_validate t.owner_type)) (invalid_param "invalid owner type")
  reject (not (channel_validate t.channel)) (invalid_param "invalid channel")
  reject (not (biz_type_validate t.biz_type)) (invalid_param "invalid biz type")
  reject (nat_eq t.owner_id 0) (invalid_param "owner id should not be negative or zero")
  reject (t.name == "") (invalid_param "template name should not be empty")
  reject (t.description == "") (invalid_param "template description should not be empty")

unfoldable pub published : ChannelTpl → Bool
published t = ltb 0 t.activated_version_id

-- The loops over the versions and over the providers.
unfoldable pub find_version : ℕ → List ChannelTplVersion → Option ChannelTplVersion
find_version id [] = none
find_version id (v ∷ vs) = let rest = find_version id vs in if nat_eq v.id id then some v else rest

unfoldable pub find_provider : ℕ → List ChannelTplProvider → Option ChannelTplProvider
find_provider id [] = none
find_provider id (p ∷ ps) =
    let rest = find_provider id ps in if nat_eq p.id id then some p else rest

any_approved : List ChannelTplVersion → Bool
any_approved [] = false
any_approved (v ∷ vs) = v.audit_status == audit_status_approved || any_approved vs

unfoldable pub activated_version : ChannelTpl → Option ChannelTplVersion
unfolding find_version
activated_version t =
    if nat_eq t.activated_version_id 0 then none else find_version t.activated_version_id t.versions

unfoldable pub get_version : ChannelTpl → ℕ → Option ChannelTplVersion
unfolding find_version
get_version t version_id = find_version version_id t.versions

-- A nil slice of Go is the empty list.
unfoldable pub get_providers_by_version : ChannelTpl → ℕ → List ChannelTplProvider
unfolding get_version
get_providers_by_version t version_id = elim (get_version t version_id) [
  | none ↦ []
  | some v ↦ v.providers
]

unfoldable pub get_provider : ChannelTpl → ℕ → ℕ → Option ChannelTplProvider
unfolding get_version find_provider
get_provider t version_id provider_id = elim (get_version t version_id) [
  | none ↦ none
  | some v ↦ find_provider provider_id v.providers
]

unfoldable pub has_approved_version : ChannelTpl → Bool
unfolding any_approved
has_approved_version t = any_approved t.versions

pub record Provider : Type 0 where
  pub id : ℕ
  pub name : String
  pub channel : Channel
  pub endpoint : String
  pub region_id : String
  pub app_id : String
  pub api_key : String
  pub api_secret : String
  pub weight : ℤ
  pub qps_limit : ℤ
  pub daily_limit : ℤ
  pub callback_url : String
  pub status : String

unfoldable pub provider_validate : Provider → Result (Unit {0})
unfolding channel_validate
provider_validate p = do
  reject (not (channel_validate p.channel)) (invalid_param "invalid channel")
  reject (p.name == "") (invalid_param "provider name should not be empty")
  reject (p.endpoint == "") (invalid_param "api endpoint should not be empty")
  reject (p.api_key == "") (invalid_param "api key should not be empty")
  reject (p.api_secret == "") (invalid_param "api secret should not be empty")
  reject (not (ltb_ℤ (pos 0) p.weight)) (invalid_param "weight should not be greater than 0")
  reject (not (ltb_ℤ (pos 0) p.qps_limit)) (invalid_param "qps limit should not be greater than 0")
  reject (not (ltb_ℤ (pos 0) p.daily_limit))
      (invalid_param "daily limit should not be greater than 0")
