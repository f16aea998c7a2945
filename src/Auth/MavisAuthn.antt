-- ===== src/Auth/MavisAuthn.antt =====
-- backend/app/auth/mavis_authn.py
pub mod Laws
use tacacs_web.Prelude.{Bool, true, false, Option, none, some, Str, str, is_empty, if◌then◌else◌}
use tacacs_web.Models.{User}
use tacacs_web.Auth.Ldap.{LdapEndpoint, Verdict, returned, bind_error}

pub data AuthResult : Type 0 where
  ack nak nfd error : AuthResult

pub record AuthOutcome : Type 0 where
  pub result : AuthResult
  pub reason : Option Str

abbrev pub outcome : AuthResult → Str → AuthOutcome
outcome result reason = record { result = result; reason = some reason }

verdict_outcome : Verdict → AuthOutcome
verdict_outcome bind_error = outcome AuthResult.error (str "ldap_unreachable")
verdict_outcome (returned true) = record { result = ack; reason = none }
verdict_outcome (returned false) = outcome nak (str "wrong_password")

abbrev pub Verifier : Type 0
Verifier = LdapEndpoint → Str → Str → Verdict

check_endpoint : User → Option LdapEndpoint → Str → Verifier → AuthOutcome
unfolding verdict_outcome
check_endpoint user none password verifier = outcome AuthResult.error (str "ldap_not_configured")
check_endpoint user (some endpoint) password verifier =
    if is_empty user.distinguished_name
    then outcome AuthResult.error (str "user_has_no_dn")
    else verdict_outcome (verifier endpoint user.distinguished_name password)

unfoldable pub evaluate : Option User → Option LdapEndpoint → Str → Verifier → AuthOutcome
unfolding check_endpoint
evaluate none endpoint password verifier = outcome nfd (str "unknown_user")
evaluate (some user) endpoint password verifier =
    if user.enabled
    then check_endpoint user endpoint password verifier
    else outcome nak (str "user_disabled")
