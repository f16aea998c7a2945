-- ===== src/Tests/SessionTests.antt =====
-- backend/app/auth and backend/app/api/auth_local.py at concrete inputs.
use tacacs_web.Prelude.{
  ◌+◌, ◌<◌, ◌≡◌, refl, ◌≢◌, str_eq_iff, ◌↔◌, ◌⊎◌, true, Option, none, some, Memᴰ, arith, Str, str,
  str_eq, filter, find?, is_empty, if◌then◌else◌, [], ◌∷◌, ◌++◌,
}
use tacacs_web.Models.{WebSession, LocalAdmin, AuditLog}
use tacacs_web.Audit.Actions.{is_action, auth_login_failed}
use tacacs_web.Result.{ok, err, http, Exc, multiple_results_found, argon2_error}
use tacacs_web.Db.{Db, empty_db, scalar_one_or_none}
use tacacs_web.Ipaddress.{contains}
use tacacs_web.Auth.Ldap.{LdapEndpoint, returned, bind_error}
use tacacs_web.Auth.MavisAuthn.{AuthResult, ack, evaluate, Verifier}
use tacacs_web.Auth.MavisAuthn.Laws.{Grants, evaluate-eq-ack_iff, evaluate-eq-error_iff}
use tacacs_web.Auth.Sessions.{
  SessionContext, NewSession, Caller, create_session, session_row, revoke_session, require_session,
  session_hard_lifetime, session_sliding_lifetime,
}
use tacacs_web.Auth.Sessions.Lifetime.{History, start, login, require_session_in_time}
use tacacs_web.Auth.Sessions.Revoked.{Since, require_session-revoke}
use tacacs_web.Auth.Local.{LoginRequest, LoginResponse, login_local}
use tacacs_web.Auth.Local.Laws.{named, MayLogin, login_local-eq-ok_iff}
use tacacs_web.Auth.Local.Laws.Writes.{LoginWrites, login_local-granted, login_local-refused}
use tacacs_web.Auth.Password.{Verification, matched, mismatched, verify_password}
use tacacs_web.Audit.Logger.{append}
use tacacs_web.Tests.Data.{parsers, jan, installation}

abbrev server : LdapEndpoint
server = record { url = str "ldaps://dc"; use_tls = true; receive_timeout = 10 }

abbrev only_pw : Verifier
only_pw endpoint dn password = returned (str_eq password (str "pw"))

evaluate-eq-ack_iff_example :
    ((evaluate (some jan) (some server) (str "pw") only_pw).result ≡ ack)
    ↔ Grants (some jan) (some server) (str "pw") only_pw
evaluate-eq-ack_iff_example = evaluate-eq-ack_iff (str "pw") only_pw (some jan) (some server)

evaluate-eq-error_iff_example :
    ((evaluate (some jan) none (str "pw") only_pw).result ≡ AuthResult.error) ↔ (
      (◌≡◌ {A = Option LdapEndpoint} none none)
      ⊎ ((s : LdapEndpoint) × (none ≡ some s)
          × ((is_empty jan.distinguished_name ≡ true)
              ⊎ (only_pw s jan.distinguished_name (str "pw") ≡ bind_error))))
evaluate-eq-error_iff_example = evaluate-eq-error_iff (str "pw") only_pw jan none refl

abbrev by_root : NewSession
by_root = record {
  username = str "root";
  role = str "admin";
  auth_method = str "local";
  actor_id = some 1;
  client_ip = none;
}

abbrev logged_in : Db
logged_in = (create_session (str "t0k") 5 by_root empty_db).1

abbrev caller : Caller
caller = record { cookie_token = some (str "t0k"); client_ip = none; user_agent = none }

abbrev root_context : SessionContext
root_context = record {
  token = str "t0k";
  username = str "root";
  role = str "admin";
  auth_method = str "local";
  actor_id = some 1;
  client_ip = none;
  user_agent = none;
}

admitted : (require_session caller 9 logged_in).0 ≡ ok root_context
unfolding require_session create_session str_eq find? session_row
admitted = refl

logged_in_history : History 5 logged_in
logged_in_history = login 5 (str "t0k") by_root (start empty_db refl) (omega arith)

require_session_in_time_example :
    (row : WebSession) × Memᴰ row logged_in.web_sessions
    × (caller.cookie_token ≡ some row.token)
    × (9 < row.created_at + session_hard_lifetime)
    × (9 < row.last_seen_at + session_sliding_lifetime)
    × (root_context.username ≡ row.username_snapshot)
    × (root_context.role ≡ row.role)
require_session_in_time_example =
    require_session_in_time caller 9 root_context logged_in_history (omega arith) admitted

-- The token is revoked, and another one logs in.
abbrev again : Db
again = (create_session (str "t1k") 8 by_root (revoke_session (str "t0k") logged_in).1).1

t1k_fresh : str "t1k" ≢ str "t0k"
unfolding str_eq
t1k_fresh h = cc ((str_eq_iff (str "t1k") (str "t0k")).1 h)

again-Since : Since (str "t0k") (revoke_session (str "t0k") logged_in).1 again
again-Since = Since.login 8 (str "t1k") by_root t1k_fresh Since.here

require_session-revoke_example : (e : Exc) × (require_session caller 9 again ≡ (err e, again))
require_session-revoke_example =
    require_session-revoke (str "t0k") logged_in caller 9 again-Since refl

-- The stored text is taken for the hash of one password, and an empty request text for none.
abbrev verify : Str → Str → Verification
verify hash plain = if str_eq plain (str "pw") then matched else mismatched

abbrev attempt : Str → LoginRequest
attempt password = record {
  username = str "root";
  password = password;
  client_ip = some (str "10.0.0.5");
  user_agent = none;
}

login_local-eq-ok_iff_example :
    ((r : LoginResponse) × ((login_local parsers verify
          (str "t0k")
          5
          (attempt (str "pw"))
          installation).0
        ≡ ok r))
    ↔ ((admin : LocalAdmin) × (named (attempt (str "pw")) installation ≡ admin ∷ [])
        × MayLogin parsers verify (str "t0k") 5 (attempt (str "pw")) installation admin)
login_local-eq-ok_iff_example =
    login_local-eq-ok_iff parsers verify (str "t0k") 5 (attempt (str "pw")) installation

abbrev logged_db : Str → Db
logged_db password = (login_local parsers verify (str "t0k") 5 (attempt password) installation).1

abbrev root_response : LoginResponse
root_response = record {
  username = str "root";
  role = str "admin";
  auth_method = str "local";
  cookie = str "t0k";
}

granted_pw :
    login_local parsers verify (str "t0k") 5 (attempt (str "pw")) installation
    ≡ (ok root_response, logged_db (str "pw"))
unfolding login_local scalar_one_or_none verify_password contains str_eq filter append is_action
    session_row
granted_pw = refl

refused_no :
    login_local parsers verify (str "t0k") 5 (attempt (str "no")) installation
    ≡ (err (http 401 (str "invalid_credentials")), logged_db (str "no"))
unfolding login_local scalar_one_or_none verify_password contains str_eq filter append is_action
refused_no = refl

login_local-granted_example :
    (admin : LocalAdmin) × (named (attempt (str "pw")) installation ≡ admin ∷ [])
    × (root_response.cookie ≡ str "t0k")
    × (root_response.username ≡ admin.username)
    × LoginWrites (str "t0k") 5 (attempt (str "pw")) admin installation (logged_db (str "pw"))
login_local-granted_example =
    login_local-granted parsers verify (str "t0k") 5 (attempt (str "pw")) installation
      (logged_db (str "pw")) root_response granted_pw

login_local-refused_example :
    ((logged_db (str "no") ≡ installation)
      × ((http 401 (str "invalid_credentials") ≡ multiple_results_found)
          ⊎ (http 401 (str "invalid_credentials") ≡ argon2_error)))
    ⊎ ((http 401 (str "invalid_credentials") ≡ http 401 (str "invalid_credentials"))
        × (entry : AuditLog) × (logged_db (str "no") ≡ record installation {
          audit_log = installation.audit_log ++ entry ∷ [];
          next_audit_id = installation.next_audit_id + 1;
        })
        × (entry.action ≡ auth_login_failed)
        × (entry.actor_username_snapshot ≡ str "root"))
login_local-refused_example =
    login_local-refused parsers verify (str "t0k") 5 (attempt (str "no")) installation
      (logged_db (str "no")) (http 401 (str "invalid_credentials")) refused_no
