-- ===== src/Audit/Actions.antt =====
-- backend/app/audit/actions.py: the closed vocabulary of the audit log.
use tacacs_web.Prelude.{Bool, List, [], ◌∷◌, Str, str, str_eq, any}

abbrev pub local_admin_bootstrapped : Str
local_admin_bootstrapped = str "local_admin.bootstrapped"

abbrev pub local_admin_password_reset : Str
local_admin_password_reset = str "local_admin.password_reset"

abbrev pub auth_login_succeeded : Str
auth_login_succeeded = str "auth.login_succeeded"

abbrev pub auth_login_failed : Str
auth_login_failed = str "auth.login_failed"

abbrev pub auth_logout : Str
auth_logout = str "auth.logout"

abbrev pub auth_session_expired : Str
auth_session_expired = str "auth.session_expired"

abbrev pub device_created : Str
device_created = str "device.created"

abbrev pub device_updated : Str
device_updated = str "device.updated"

abbrev pub device_deleted : Str
device_deleted = str "device.deleted"

abbrev pub device_secret_rotated : Str
device_secret_rotated = str "device.secret_rotated"

abbrev pub device_previous_retired : Str
device_previous_retired = str "device.previous_secret_retired"

abbrev pub device_group_created : Str
device_group_created = str "device_group.created"

abbrev pub device_group_updated : Str
device_group_updated = str "device_group.updated"

abbrev pub device_group_deleted : Str
device_group_deleted = str "device_group.deleted"

abbrev pub privilege_profile_created : Str
privilege_profile_created = str "privilege_profile.created"

abbrev pub privilege_profile_updated : Str
privilege_profile_updated = str "privilege_profile.updated"

abbrev pub privilege_profile_deleted : Str
privilege_profile_deleted = str "privilege_profile.deleted"

abbrev pub authorization_created : Str
authorization_created = str "authorization.created"

abbrev pub authorization_deleted : Str
authorization_deleted = str "authorization.deleted"

abbrev pub setting_ldap_url_updated : Str
setting_ldap_url_updated = str "setting.ldap_url_updated"

abbrev pub setting_web_base_url_updated : Str
setting_web_base_url_updated = str "setting.web_base_url_updated"

abbrev pub tls_cert_uploaded : Str
tls_cert_uploaded = str "tls.cert_uploaded"

abbrev pub tls_pfx_uploaded : Str
tls_pfx_uploaded = str "tls.pfx_uploaded"

abbrev pub tls_cert_regenerated : Str
tls_cert_regenerated = str "tls.cert_regenerated_self_signed"

abbrev pub saml_idp_metadata_imported : Str
saml_idp_metadata_imported = str "saml.idp_metadata_imported"

abbrev pub saml_mapping_updated : Str
saml_mapping_updated = str "saml.mapping_updated"

abbrev pub saml_sp_keypair_regenerated : Str
saml_sp_keypair_regenerated = str "saml.sp_keypair_regenerated"

abbrev pub ldap_sync_config_updated : Str
ldap_sync_config_updated = str "ldap_sync.config_updated"

abbrev pub ldap_sync_test_succeeded : Str
ldap_sync_test_succeeded = str "ldap_sync.test_succeeded"

abbrev pub ldap_sync_test_failed : Str
ldap_sync_test_failed = str "ldap_sync.test_failed"

abbrev pub ldap_sync_run_succeeded : Str
ldap_sync_run_succeeded = str "ldap_sync.run_succeeded"

abbrev pub ldap_sync_run_failed : Str
ldap_sync_run_failed = str "ldap_sync.run_failed"

abbrev pub tacacs_authn_succeeded : Str
tacacs_authn_succeeded = str "tacacs.authn_succeeded"

abbrev pub tacacs_authn_failed : Str
tacacs_authn_failed = str "tacacs.authn_failed"

abbrev pub tacacs_authz_succeeded : Str
tacacs_authz_succeeded = str "tacacs.authz_succeeded"

abbrev pub tacacs_authz_failed : Str
tacacs_authz_failed = str "tacacs.authz_failed"

abbrev pub nas_config_regenerated : Str
nas_config_regenerated = str "nas_config.regenerated"

abbrev pub syslog_config_updated : Str
syslog_config_updated = str "syslog.config_updated"

abbrev pub syslog_test_succeeded : Str
syslog_test_succeeded = str "syslog.test_succeeded"

abbrev pub syslog_test_failed : Str
syslog_test_failed = str "syslog.test_failed"

abbrev pub setup_wizard_completed : Str
setup_wizard_completed = str "setup.wizard_completed"

abbrev pub setup_wizard_reopened : Str
setup_wizard_reopened = str "setup.wizard_reopened"

pub all_actions : List Str
all_actions =
    local_admin_bootstrapped ∷ local_admin_password_reset ∷ auth_login_succeeded ∷ auth_login_failed
    ∷ auth_logout ∷ auth_session_expired ∷ device_created ∷ device_updated ∷ device_deleted
    ∷ device_secret_rotated ∷ device_previous_retired ∷ device_group_created ∷ device_group_updated
    ∷ device_group_deleted ∷ privilege_profile_created ∷ privilege_profile_updated
    ∷ privilege_profile_deleted ∷ authorization_created ∷ authorization_deleted
    ∷ setting_ldap_url_updated ∷ setting_web_base_url_updated ∷ tls_cert_uploaded ∷ tls_pfx_uploaded
    ∷ tls_cert_regenerated ∷ saml_idp_metadata_imported ∷ saml_mapping_updated
    ∷ saml_sp_keypair_regenerated ∷ ldap_sync_config_updated ∷ ldap_sync_test_succeeded
    ∷ ldap_sync_test_failed ∷ ldap_sync_run_succeeded ∷ ldap_sync_run_failed
    ∷ tacacs_authn_succeeded ∷ tacacs_authn_failed ∷ tacacs_authz_succeeded ∷ tacacs_authz_failed
    ∷ nas_config_regenerated ∷ syslog_config_updated ∷ syslog_test_succeeded ∷ syslog_test_failed
    ∷ setup_wizard_completed ∷ setup_wizard_reopened ∷ []

-- `action in ALL_ACTIONS`
unfoldable pub is_action : Str → Bool
unfolding any str_eq all_actions
is_action action = any (λ a. str_eq a action) all_actions
