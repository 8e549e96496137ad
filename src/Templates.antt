-- ===== src/Templates.antt =====
-- The channel templates and their providers in the database: internal/repository/dao/template.go
-- and dao/provider.go, and internal/repository/template.go and provider.go, which translate the
-- rows. gorm is the parameter `Rows`.
use jotify.Prelude.{ℕ, String, List, [], ◌∷◌, map, ◌⊎◌, inl, inr}
use jotify.Prelude.Int.{ℤ}
use jotify.Errs.{
  Result, ok, err, Error, channel_tpl_not_found, channel_tpl_version_not_found, ◌>>=◌,
}
use jotify.Domain.Template
use jotify.Dao.{DbError, record_not_found, duplicated_key, db_failed, of_db}

pub record ChannelTpl : Type 0 where
  pub id : ℕ
  pub owner_id : ℕ
  pub owner_type : String
  pub name : String
  pub description : String
  pub channel : String
  pub biz_type : String
  pub activated_version_id : ℕ
  pub created_at : ℤ
  pub updated_at : ℤ

pub record ChannelTplVersion : Type 0 where
  pub id : ℕ
  pub channel_tpl_id : ℕ
  pub name : String
  pub signature : String
  pub content : String
  pub remark : String
  pub audit_id : ℕ
  pub auditor_id : ℕ
  pub audit_at : ℤ
  pub audit_status : String
  pub reject_reason : String
  pub last_review_at : ℤ
  pub created_at : ℤ
  pub updated_at : ℤ

pub record ChannelTplProvider : Type 0 where
  pub id : ℕ
  pub tpl_id : ℕ
  pub tpl_version_id : ℕ
  pub provider_id : ℕ
  pub provider_name : String
  pub provider_channel : String
  pub request_id : String
  pub provider_tpl_id : String
  pub audit_status : String
  pub reject_reason : String
  pub last_review_at : ℤ
  pub created_at : ℤ
  pub updated_at : ℤ

-- The queries: the first row with an id, the versions whose template is in a list, and the
-- providers by their name, template, version and channel.
pub record Rows (S : Type 0) : Type 0 where
  pub first_tpl : ℕ → S → ChannelTpl ⊎ DbError
  pub first_version : ℕ → S → ChannelTplVersion ⊎ DbError
  pub versions_of_tpls : List ℕ → S → List ChannelTplVersion ⊎ DbError
  pub find_providers : String → ℕ → ℕ → String → S → List ChannelTplProvider ⊎ DbError

-- A missing row has an error of its own.
abbrev pub first_or {ℓ} : {A : Type ℓ} → Error → A ⊎ DbError → Result A
first_or missing (inl a) = ok a
first_or missing (inr record_not_found) = err missing
first_or missing (inr (duplicated_key m)) = err (of_db (duplicated_key m))
first_or missing (inr (db_failed m)) = err (of_db (db_failed m))

abbrev pub found {ℓ} : {A : Type ℓ} → A ⊎ DbError → Result A
found (inl a) = ok a
found (inr e) = err (of_db e)

-- toDomainVersion, toDomainTemplate and toDomainChannelTplProvider
unfoldable pub to_domain_version : ChannelTplVersion → Template.ChannelTplVersion
to_domain_version e = record {
  id = e.id;
  channel_tpl_id = e.channel_tpl_id;
  name = e.name;
  signature = e.signature;
  content = e.content;
  remark = e.remark;
  audit_id = e.audit_id;
  auditor_id = e.auditor_id;
  audit_at = e.audit_at;
  audit_status = e.audit_status;
  reject_reason = e.reject_reason;
  last_review_at = e.last_review_at;
  create_at = e.created_at;
  update_at = e.updated_at;
  providers = [];
}

unfoldable pub to_domain_template : ChannelTpl → Template.ChannelTpl
to_domain_template e = record {
  id = e.id;
  owner_id = e.owner_id;
  owner_type = e.owner_type;
  name = e.name;
  description = e.description;
  channel = e.channel;
  biz_type = e.biz_type;
  activated_version_id = e.activated_version_id;
  create_at = e.created_at;
  update_at = e.updated_at;
  versions = [];
}

unfoldable pub to_domain_provider : ChannelTplProvider → Template.ChannelTplProvider
to_domain_provider e = record {
  id = e.id;
  tpl_id = e.tpl_id;
  tpl_version_id = e.tpl_version_id;
  provider_id = e.provider_id;
  provider_name = e.provider_name;
  provider_channel = e.provider_channel;
  request_id = e.request_id;
  provider_tpl_id = e.provider_tpl_id;
  audit_status = e.audit_status;
  reject_reason = e.reject_reason;
  last_review_at = e.last_review_at;
  create_at = e.created_at;
  update_at = e.updated_at;
}

module _ {S : Type 0} (rows : Rows S) where
  -- The DAO's GetById, GetVersionsById and GetVersionsByIds.
  unfoldable pub dao_get_by_id : ℕ → S → Result ChannelTpl
  dao_get_by_id id s = first_or channel_tpl_not_found (rows.first_tpl id s)

  unfoldable pub get_versions_by_id : ℕ → S → Result ChannelTplVersion
  get_versions_by_id version_id s =
      first_or channel_tpl_version_not_found (rows.first_version version_id s)

  unfoldable pub get_versions_by_ids : List ℕ → S → Result (List ChannelTplVersion)
  get_versions_by_ids [] s = ok []
  get_versions_by_ids (i ∷ ids) s = found (rows.versions_of_tpls (i ∷ ids) s)

  unfoldable pub dao_get_by_name_and_tpl_info :
      String → ℕ → ℕ → String → S → Result (List ChannelTplProvider)
  dao_get_by_name_and_tpl_info name tpl_id tpl_version_id tpl_channel s =
      found (rows.find_providers name tpl_id tpl_version_id tpl_channel s)

  -- The repositories.
  unfoldable pub get_by_id : ℕ → S → Result Template.ChannelTpl
  unfolding dao_get_by_id to_domain_template
  get_by_id id s = dao_get_by_id id s >>= λ e. ok (to_domain_template e)

  unfoldable pub get_version_by_version_id : ℕ → S → Result Template.ChannelTplVersion
  unfolding get_versions_by_id to_domain_version
  get_version_by_version_id version_id s =
      get_versions_by_id version_id s >>= λ e. ok (to_domain_version e)

  unfoldable pub get_by_name_and_tpl_info :
      String → ℕ → ℕ → String → S → Result (List Template.ChannelTplProvider)
  unfolding dao_get_by_name_and_tpl_info to_domain_provider
  get_by_name_and_tpl_info name tpl_id tpl_version_id tpl_channel s =
      dao_get_by_name_and_tpl_info name tpl_id tpl_version_id tpl_channel s >>= λ es.
      ok (map to_domain_provider es)
