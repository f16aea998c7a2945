-- ===== src/Mavis/Rpc/Laws.antt =====
-- What the two routes answer, and what they write.
use tacacs_web.Prelude.{
  ◌+◌, ◌≢◌, ◌↔◌, sym, ap, subst, ◌∙◌, [], ◌∷◌, ◌++◌, ℕ, ◌≡◌, refl, Bool, true, false, Option,
  if◌then◌else◌,
}
use tacacs_web.Models.{User, AuditLog}
use tacacs_web.Result.{Result, ok, err, ok_inj}
use tacacs_web.Db.{Db, scalar_one_or_none}
use tacacs_web.Ipaddress.{Ipaddress}
use tacacs_web.Audit.Actions.{
  is_action, tacacs_authn_succeeded, tacacs_authn_failed, tacacs_authz_succeeded,
  tacacs_authz_failed,
}
use tacacs_web.Audit.Logger.{audit_row}
use tacacs_web.Audit.Logger.Laws.{appended, append-ok}
use tacacs_web.Auth.Ldap.{LdapEndpoint, resolve_ldap_endpoint}
use tacacs_web.Auth.MavisAuthn.{AuthResult, ack, nak, nfd, AuthOutcome, evaluate, Verifier}
use tacacs_web.Auth.MavisAuthn.Laws.{Grants, evaluate-eq-ack_iff}
use tacacs_web.Mavis.Rpc.{
  Casing, AuthRequest, InfoRequest, matching_users, is_ack, authn_entry, mavis_auth, resolve_info,
  authz_entry, mavis_info,
}

authn_actions :
    (b : Bool) → is_action (if b then tacacs_authn_succeeded else tacacs_authn_failed) ≡ true
unfolding is_action
authn_actions true = refl
authn_actions false = refl

authz_actions :
    (b : Bool) → is_action (if b then tacacs_authz_succeeded else tacacs_authz_failed) ≡ true
unfolding is_action
authz_actions true = refl
authz_actions false = refl

-- For a name that at most one user has, whatever its case, the answer is the verdict on that user
-- with the configured server, and one audit row is all that is written.
pub mavis_auth_lem :
    (now : ℕ) (casing : Casing) (verifier : Verifier) (req : AuthRequest) (db : Db)
    (user : Option User)
    → scalar_one_or_none (matching_users casing req.username db) ≡ ok user
    → let outcome = evaluate user (resolve_ldap_endpoint casing.lower db) req.password verifier in
      mavis_auth now casing verifier req db
      ≡ (ok outcome, appended now (authn_entry req user outcome) db)
unfolding mavis_auth
mavis_auth_lem now casing verifier req db user found =
    let outcome = evaluate user (resolve_ldap_endpoint casing.lower db) req.password verifier in
    rw found
      (rw (append-ok now (authn_entry req user outcome) db (authn_actions (is_ack outcome.result))))

is_ack-ne : (r : AuthResult) → r ≢ ack → is_ack r ≡ false
is_ack-ne ack h = absurd (h refl)
is_ack-ne nak h = refl
is_ack-ne nfd h = refl
is_ack-ne AuthResult.error h = refl

-- An answer of the authentication route acknowledges exactly a user of that name, whatever its case,
-- who is enabled, has a distinguished name, and whose password the configured server accepts. Behind
-- it nothing is written but one audit row, under the name and the address of the request: of a success
-- for an acknowledgement, of a failure for any other answer.
pub mavis_auth-audited :
    (now : ℕ) (casing : Casing) (verifier : Verifier) (req : AuthRequest) (db db' : Db)
    (outcome : AuthOutcome)
    → mavis_auth now casing verifier req db ≡ (ok outcome, db')
    → ((user : Option User) × (scalar_one_or_none (matching_users casing req.username db) ≡ ok user)
        × ((outcome.result ≡ ack)
            ↔ Grants user (resolve_ldap_endpoint casing.lower db) req.password verifier))
      × (entry : AuditLog) × (db' ≡ record db {
        audit_log = db.audit_log ++ entry ∷ [];
        next_audit_id = db.next_audit_id + 1;
      })
      × (entry.actor_username_snapshot ≡ req.username)
      × (entry.client_ip ≡ req.nas_ip)
      × (outcome.result ≡ ack → entry.action ≡ tacacs_authn_succeeded)
      × (outcome.result ≢ ack → entry.action ≡ tacacs_authn_failed)
unfolding mavis_auth appended audit_row authn_entry
mavis_auth-audited now casing verifier req db db' outcome h =
    found (scalar_one_or_none (matching_users casing req.username db)) refl
  where
    endpoint : Option LdapEndpoint
    endpoint = resolve_ldap_endpoint casing.lower db

    Audited : Type 0
    Audited =
        ((user : Option User) × (scalar_one_or_none (matching_users casing req.username db)
            ≡ ok user)
          × ((outcome.result ≡ ack) ↔ Grants user endpoint req.password verifier))
        × (entry : AuditLog) × (db' ≡ record db {
          audit_log = db.audit_log ++ entry ∷ [];
          next_audit_id = db.next_audit_id + 1;
        })
        × (entry.actor_username_snapshot ≡ req.username)
        × (entry.client_ip ≡ req.nas_ip)
        × (outcome.result ≡ ack → entry.action ≡ tacacs_authn_succeeded)
        × (outcome.result ≢ ack → entry.action ≡ tacacs_authn_failed)

    found :
        (q : Result (Option User))
        → scalar_one_or_none (matching_users casing req.username db) ≡ q
        → Audited
    found (err e) eq = absurd (cc (rw eq at h))
    found (ok user) eq =
        let all = sym (mavis_auth_lem now casing verifier req db user eq) ∙ h in
        let same : evaluate user endpoint req.password verifier ≡ outcome =
          ok_inj (ap (λ (x : Result AuthOutcome × Db). x.0) all) in
        let left : appended now (authn_entry req user outcome) db ≡ db' =
          ap (λ o. appended now (authn_entry req user o) db) (sym same)
          ∙ ap (λ (x : Result AuthOutcome × Db). x.1) all in
        (
          (
            user,
            eq,
            subst
                (λ (o : AuthOutcome). (o.result ≡ ack) ↔ Grants user endpoint req.password verifier)
                same (evaluate-eq-ack_iff req.password verifier user endpoint),
          ),
          audit_row db.next_audit_id now (authn_entry req user outcome),
          sym left,
          refl,
          refl,
          λ e. ap (λ r. if is_ack r then tacacs_authn_succeeded else tacacs_authn_failed) e,
          λ n.
              ap (λ b. if b then tacacs_authn_succeeded else tacacs_authn_failed)
                (is_ack-ne outcome.result n),
        )

-- So for the profile route: its answer is what `_resolve_info` resolves, and one audit row is all that
-- is written.
pub mavis_info_lem :
    (lib : Ipaddress) (now : ℕ) (casing : Casing) (req : InfoRequest) (db : Db) (user : Option User)
    → scalar_one_or_none (matching_users casing req.username db) ≡ ok user
    → let r = resolve_info lib db req user in
      mavis_info lib now casing req db
      ≡ (ok r.response, appended now (authz_entry lib req user r) db)
unfolding mavis_info
mavis_info_lem lib now casing req db user found =
    let r = resolve_info lib db req user in
    rw found (
      rw (append-ok now (authz_entry lib req user r) db (authz_actions (is_ack r.response.result))))
