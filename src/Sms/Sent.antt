-- ===== src/Sms/Sent.antt =====
-- When the provider sends a message.
use mathlib.Core.List.{Memᴰ}
use text.Mathlib.Text.{◌==◌}
use text.Mathlib.TextEquality.{eq_iff}
use jotify.Prelude.{
  ◌==◌ as nat_eq, ◌≡◌, refl, sym, ap, ◌∙◌, arith, Bool, true, false, not, if◌then◌else◌, String,
  List, [], ◌∷◌, Option, none, some,
}
use jotify.Errs.{
  Result, ok, err, failed_to_send_notification, channel_tpl_not_found, not_approved_tpl_version,
  reject, ◌>>◌, Run, returned, panicked, running,
}
use jotify.Domain.{SendResult, send_status_success, channel_sms}
use jotify.Domain.Notification.{Notification}
use jotify.Domain.Template.{
  ChannelTpl, ChannelTplVersion, ChannelTplProvider, activated_version, find_version,
  audit_status_approved,
}
use jotify.Sms.{
  SendResp, SendRespStatus, ProviderRepo, Provider, equal_fold_ok, check_statuses, with_providers,
  ask_providers, on_version, on_template, get_template, answered, on_activated, send_template, send,
}

-- Every status is OK, whatever the case of its letters.
check_statuses-all :
    (statuses : List (String × SendRespStatus))
    → check_statuses statuses ≡ ok tt
    → (phone : String) (status : SendRespStatus) → Memᴰ (phone, status) statuses
    → equal_fold_ok status.code ≡ true
unfolding check_statuses
check_statuses-all [] h phone status m = elim m [ ]
check_statuses-all ((p, t) ∷ statuses) h phone status m =
    go (equal_fold_ok t.code) refl (check_statuses-all statuses) h m
  where
    go :
        (b : Bool)
        → equal_fold_ok t.code ≡ b
        → (check_statuses statuses ≡ ok tt
            → (phone₁ : String) (status₁ : SendRespStatus) → Memᴰ (phone₁, status₁) statuses
            → equal_fold_ok status₁.code ≡ true)
        → (reject (not b) failed_to_send_notification >> check_statuses statuses) ≡ ok tt
        → Memᴰ (phone, status) ((p, t) ∷ statuses)
        → equal_fold_ok status.code ≡ true
    go false e ih f n = ground arith
    go true e ih f (Memᴰ.head same) =
        ap (λ (x : String × SendRespStatus). equal_fold_ok x.1.code) same ∙ e
    go true e ih f (Memᴰ.tail n) = ih f phone status n

run_inj : {a b : SendResult} → Path (Run SendResult) (returned (ok a)) (returned (ok b)) → a ≡ b
run_inj {a} e =
    ap (λ r. elim r [ returned q ↦ elim q [ ok x ↦ x | err y ↦ a ] | panicked ↦ a | running ↦ a ]) e

-- The result of a notification that was sent.
abbrev pub delivered : Notification → SendResult
delivered n = record { notification_id = n.id; status = send_status_success }

answered-ok :
    {C : Type 0} (n : Notification) (x : Run SendResp × C) (r : SendResult)
    → (answered n x).0 ≡ returned (ok r)
    → (resp : SendResp) × (x ≡ (returned (ok resp), (answered n x).1))
      × (check_statuses resp.phone_numbers ≡ ok tt)
      × (r ≡ delivered n)
answered-ok n (panicked, d) r h = absurd (ground arith)
answered-ok n (running, d) r h = absurd (ground arith)
answered-ok n (returned (err e), d) r h = absurd (ground arith)
answered-ok n (returned (ok resp), d) r h =
    let (checked, same) = passed (check_statuses resp.phone_numbers) h in
    (resp, refl, checked, same)
  where
    passed :
        (q : Result (Unit {0}))
        → Path (Run SendResult) (returned (q >> ok (delivered n))) (returned (ok r))
        → (q ≡ ok tt) × (r ≡ delivered n)
    passed (err e) g = ground arith
    passed (ok _) g = (refl, run_inj (sym g))

module _ {S C : Type 0} where
  -- What is known where the provider has sent a notification: the template and its active version,
  -- which is approved, the first of the version's providers, whose template the client was given,
  -- and the answer of the client, in which every status is OK, with the state that it leaves.
  pub record Delivers (p : Provider S C) (n : Notification) (s : S) (c after : C) : Type 0 where
    pub repo : ProviderRepo S
    pub tpl : ChannelTpl
    pub version : ChannelTplVersion
    pub first : ChannelTplProvider
    pub others : List ChannelTplProvider
    pub resp : SendResp
    pub with_repo : p.provider_repo ≡ some repo
    pub of_template : p.tpl_repo.get_by_id n.template.id s ≡ ok tpl
    pub of_version : p.tpl_repo.get_version_by_version_id tpl.activated_version_id s ≡ ok version
    pub is_active : version.id ≡ tpl.activated_version_id
    pub is_approved : version.audit_status ≡ audit_status_approved
    pub of_providers : repo p.name tpl.id version.id channel_sms s ≡ ok (first ∷ others)
    pub sent :
        p.client
          (record {
            phone_numbers = n.receivers;
            sign_name = version.signature;
            template_id = first.provider_tpl_id;
            template_params = n.template.params;
          })
          c
        ≡ (returned (ok resp), after)
    pub all_ok :
        (phone : String) (status : SendRespStatus)
        → Memᴰ (phone, status) resp.phone_numbers
        → equal_fold_ok status.code ≡ true

  -- The stages of Send, from the last one back.
  module _ (p : Provider S C) (n : Notification) (s : S) (c : C) where
    of_found :
        (repo : ProviderRepo S) (tpl : ChannelTpl) (version : ChannelTplVersion)
        (first : ChannelTplProvider) (others : List ChannelTplProvider) (r : SendResult)
        → p.provider_repo ≡ some repo
        → p.tpl_repo.get_by_id n.template.id s ≡ ok tpl
        → p.tpl_repo.get_version_by_version_id tpl.activated_version_id s ≡ ok version
        → version.audit_status ≡ audit_status_approved
        → repo p.name tpl.id version.id channel_sms s ≡ ok (first ∷ others)
        → (send_template p n c (
            returned (
              ok (record tpl { versions = record version { providers = first ∷ others } ∷ [] })))).0
          ≡ returned (ok r)
        → (r ≡ delivered n)
          × Delivers p n s c (
              (send_template p n c (
                returned (
                  ok (record tpl {
                    versions = record version { providers = first ∷ others } ∷ [];
                  })))).1)
    unfolding activated_version find_version
    of_found repo tpl version first others r with_repo t v approved q h =
        active (nat_eq tpl.activated_version_id 0) (nat_eq version.id tpl.activated_version_id) refl
          h
      where
        active :
            (z same : Bool)
            → nat_eq version.id tpl.activated_version_id ≡ same
            → (on_activated p n c (
                if z
                then none
                else if same
                then some (record version { providers = first ∷ others })
                else none)).0
              ≡ returned (ok r)
            → (r ≡ delivered n)
              × Delivers p n s c (
                  (on_activated p n c (
                    if z
                    then none
                    else if same
                    then some (record version { providers = first ∷ others })
                    else none)).1)
        active true same e f = absurd (ground arith)
        active false false e f = absurd (ground arith)
        active false true e f =
            let (resp, sent, checked, same_r) = answered-ok n _ r f in
            (
              same_r,
              record {
                repo = repo;
                tpl = tpl;
                version = version;
                first = first;
                others = others;
                resp = resp;
                with_repo = with_repo;
                of_template = t;
                of_version = v;
                is_active = ground arith;
                is_approved = approved;
                of_providers = q;
                sent = sent;
                all_ok = check_statuses-all resp.phone_numbers checked;
              },
            )

    of_list :
        (repo : ProviderRepo S) (tpl : ChannelTpl) (version : ChannelTplVersion)
        (q : Result (List ChannelTplProvider)) (r : SendResult)
        → p.provider_repo ≡ some repo
        → p.tpl_repo.get_by_id n.template.id s ≡ ok tpl
        → p.tpl_repo.get_version_by_version_id tpl.activated_version_id s ≡ ok version
        → version.audit_status ≡ audit_status_approved
        → repo p.name tpl.id version.id channel_sms s ≡ q
        → (send_template p n c (returned (with_providers tpl version q))).0 ≡ returned (ok r)
        → (r ≡ delivered n)
          × Delivers p n s c ((send_template p n c (returned (with_providers tpl version q))).1)
    of_list repo tpl version (err e) r with_repo t v approved f h = absurd (ground arith)
    of_list repo tpl version (ok []) r with_repo t v approved f h = absurd (ground arith)
    of_list repo tpl version (ok (x ∷ xs)) r with_repo t v approved f h =
        of_found repo tpl version x xs r with_repo t v approved f h

    of_repo :
        (o : Option (ProviderRepo S)) (tpl : ChannelTpl) (version : ChannelTplVersion)
        (r : SendResult)
        → p.provider_repo ≡ o
        → p.tpl_repo.get_by_id n.template.id s ≡ ok tpl
        → p.tpl_repo.get_version_by_version_id tpl.activated_version_id s ≡ ok version
        → version.audit_status ≡ audit_status_approved
        → (send_template p n c (ask_providers p tpl s o version)).0 ≡ returned (ok r)
        → (r ≡ delivered n)
          × Delivers p n s c ((send_template p n c (ask_providers p tpl s o version)).1)
    of_repo none tpl version r e t v approved h = absurd (ground arith)
    of_repo (some repo) tpl version r e t v approved h =
        of_list repo tpl version (repo p.name tpl.id version.id channel_sms s) r e t v approved refl
          h

    of_version :
        (v : Result ChannelTplVersion) (tpl : ChannelTpl) (r : SendResult)
        → p.tpl_repo.get_by_id n.template.id s ≡ ok tpl
        → p.tpl_repo.get_version_by_version_id tpl.activated_version_id s ≡ v
        → (send_template p n c (on_version p tpl s v)).0 ≡ returned (ok r)
        → (r ≡ delivered n) × Delivers p n s c ((send_template p n c (on_version p tpl s v)).1)
    of_version (err e) tpl r t f h = absurd (ground arith)
    of_version (ok version) tpl r t f h =
        approved (version.audit_status == audit_status_approved) refl h
      where
        approved :
            (b : Bool)
            → (version.audit_status == audit_status_approved) ≡ b
            → (send_template p n c (
                if not b
                then returned (err not_approved_tpl_version)
                else ask_providers p tpl s p.provider_repo version)).0
              ≡ returned (ok r)
            → (r ≡ delivered n)
              × Delivers p n s c (
                  (send_template p n c (
                    if not b
                    then returned (err not_approved_tpl_version)
                    else ask_providers p tpl s p.provider_repo version)).1)
        approved false e g = absurd (ground arith)
        approved true e g =
            of_repo p.provider_repo tpl version r refl t f
              ((eq_iff version.audit_status audit_status_approved).0 e) g

    of_template :
        (t : Result ChannelTpl) (r : SendResult)
        → p.tpl_repo.get_by_id n.template.id s ≡ t
        → (send_template p n c (on_template p s t)).0 ≡ returned (ok r)
        → (r ≡ delivered n) × Delivers p n s c ((send_template p n c (on_template p s t)).1)
    of_template (err e) r f h = absurd (ground arith)
    of_template (ok tpl) r f h = known (nat_eq tpl.id 0) h
      where
        known :
            (b : Bool)
            → (send_template p n c (
                if b
                then returned (err channel_tpl_not_found)
                else on_version p tpl s
                    (p.tpl_repo.get_version_by_version_id tpl.activated_version_id s))).0
              ≡ returned (ok r)
            → (r ≡ delivered n)
              × Delivers p n s c (
                  (send_template p n c (
                    if b
                    then returned (err channel_tpl_not_found)
                    else on_version p tpl s
                        (p.tpl_repo.get_version_by_version_id tpl.activated_version_id s))).1)
        known true g = absurd (ground arith)
        known false g =
            of_version (p.tpl_repo.get_version_by_version_id tpl.activated_version_id s) tpl r f
              refl g

  -- Send reports a success only where it has sent the message: the active version of the template
  -- is approved, every phone number in the client's answer has the status OK, and the client is in
  -- the state that one call leaves, made with the signature of that version, the template id of its
  -- first provider and the receivers and parameters of the notification.
  pub send-Delivers_sms :
      (p : Provider S C) (n : Notification) (s : S) (c : C) (r : SendResult)
      → (send p n s c).0 ≡ returned (ok r)
      → (r ≡ delivered n) × Delivers p n s c ((send p n s c).1)
  unfolding send get_template
  send-Delivers_sms p n s c r h =
      of_template p n s c (p.tpl_repo.get_by_id n.template.id s) r refl h
