-- ===== src/Tests/MavisTests.antt =====
-- The MAVIS routes at concrete inputs.
use tacacs_web.Prelude.{
  ◌+◌, ◌++◌, ◌∷◌, [], ◌≢◌, ◌↔◌, Option, ◌≡◌, refl, true, none, some, str, str_eq, filter, any,
  find?, ap, ◌∙◌,
}
use tacacs_web.Result.{ok}
use tacacs_web.Models.{User, AuditLog}
use tacacs_web.Audit.Actions.{tacacs_authn_succeeded, tacacs_authn_failed}
use tacacs_web.Auth.MavisAuthn.Laws.{Grants}
use tacacs_web.Db.{Db, scalar_one_or_none}
use tacacs_web.Ipaddress.{contains}
use tacacs_web.Audit.Logger.Laws.{appended}
use tacacs_web.Auth.Ldap.{returned, resolve_ldap_endpoint}
use tacacs_web.Auth.MavisAuthn.{ack, AuthOutcome, Verifier, evaluate}
use tacacs_web.Authz.Resolution.{resolve_device_for_ip}
use tacacs_web.Authz.Policy.{evaluate_for_user}
use tacacs_web.Mavis.Rpc.{
  groups_of, authorizations_on, Casing, AuthRequest, InfoRequest, Resolved, matching_users,
  authn_entry, granted, resolve_info, authz_entry, mavis_info,
}
use tacacs_web.Mavis.Rpc.Laws.{mavis_auth_lem, mavis_auth-audited, mavis_info_lem}
use tacacs_web.Mavis.Rpc.Grants.{Grant, mavis_info-Grant, resolve_info-granted}
use tacacs_web.Tests.Data.{parsers, jan, narrow, personal, profile_of, installation}

abbrev pub same_case : Casing
same_case = record { lower = λ s. s; sql_lower = λ s. s }

abbrev yes_man : Verifier
yes_man endpoint dn password = returned true

abbrev auth_of_jan : AuthRequest
auth_of_jan = record { username = str "jan"; password = str "pw"; nas_ip = none }

abbrev info_of_jan : InfoRequest
info_of_jan = record { username = str "jan"; nas_ip = str "10.0.0.5" }

only_jan : scalar_one_or_none (matching_users same_case (str "jan") installation) ≡ ok (some jan)
unfolding scalar_one_or_none matching_users filter str_eq
only_jan = refl

abbrev jan_outcome : AuthOutcome
jan_outcome =
    evaluate (some jan) (resolve_ldap_endpoint same_case.lower installation) (str "pw") yes_man

abbrev jan_audited : Db
jan_audited = appended 5 (authn_entry auth_of_jan (some jan) jan_outcome) installation

mavis_auth-audited_example :
    ((user : Option User) × (scalar_one_or_none (matching_users same_case (str "jan") installation)
        ≡ ok user)
      × ((jan_outcome.result ≡ ack)
          ↔ Grants user (resolve_ldap_endpoint same_case.lower installation) (str "pw") yes_man))
    × (entry : AuditLog) × (jan_audited ≡ record installation {
      audit_log = installation.audit_log ++ entry ∷ [];
      next_audit_id = installation.next_audit_id + 1;
    })
    × (entry.actor_username_snapshot ≡ str "jan")
    × (entry.client_ip ≡ none)
    × (jan_outcome.result ≡ ack → entry.action ≡ tacacs_authn_succeeded)
    × (jan_outcome.result ≢ ack → entry.action ≡ tacacs_authn_failed)
mavis_auth-audited_example =
    mavis_auth-audited 5 same_case yes_man auth_of_jan installation jan_audited jan_outcome
      (mavis_auth_lem 5 same_case yes_man auth_of_jan installation (some jan) only_jan)

abbrev jan_resolved : Resolved
jan_resolved = granted narrow (profile_of 1 1)

abbrev jan_informed : Db
jan_informed = appended 5 (authz_entry parsers info_of_jan (some jan) jan_resolved) installation

personal_wins :
    (evaluate_for_user jan
      (groups_of installation jan)
      1
      (authorizations_on installation 1)).winning
    ≡ some personal
unfolding evaluate_for_user groups_of authorizations_on filter any find?
personal_wins = refl

nearest : resolve_device_for_ip parsers (str "10.0.0.5") installation.devices ≡ some narrow
unfolding resolve_device_for_ip contains str_eq
nearest = refl

jan_granted : resolve_info parsers installation info_of_jan (some jan) ≡ jan_resolved
jan_granted =
    resolve_info-granted parsers installation info_of_jan jan narrow personal refl nearest
      personal_wins

jan_info :
    mavis_info parsers 5 same_case info_of_jan installation
    ≡ (ok jan_resolved.response, jan_informed)
jan_info =
    mavis_info_lem parsers 5 same_case info_of_jan installation (some jan) only_jan
    ∙ ap
        (λ (r : Resolved).
          (ok r.response, appended 5 (authz_entry parsers info_of_jan (some jan) r) installation))
        jan_granted

mavis_info-Grant_example :
    (r : Resolved) × Grant parsers installation info_of_jan (some jan) r
    × (jan_resolved.response ≡ r.response)
    × (jan_informed ≡ appended 5 (authz_entry parsers info_of_jan (some jan) r) installation)
unfolding granted
mavis_info-Grant_example =
    mavis_info-Grant parsers 5 same_case info_of_jan installation jan_informed (some jan)
      jan_resolved.response only_jan jan_info refl
