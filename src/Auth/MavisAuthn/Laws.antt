-- ===== src/Auth/MavisAuthn/Laws.antt =====
-- When authentication is granted, and that every doubt is an error.
use tacacs_web.Prelude.{
  ◌≡◌, ◌≢◌, refl, ◌↔◌, inl, inr, true, false, ◌⊎◌, Option, none, some, [], arith, Str, is_empty,
  Bool-cases,
}
use tacacs_web.Models.{User}
use tacacs_web.Auth.Ldap.{
  LdapEndpoint, Verdict, returned, bind_error, BindReply, verify_ldap_password,
}
use tacacs_web.Auth.MavisAuthn.{
  AuthResult, ack, evaluate, Verifier, check_endpoint, verdict_outcome,
}

-- Everything that an acknowledgement has to rest on.
pub record Grants (user : Option User) (endpoint : Option LdapEndpoint) (password : Str)
    (verifier : Verifier) : Type 0 where
  pub who : User
  pub known : user ≡ some who
  pub enabled : who.enabled ≡ true
  pub server : LdapEndpoint
  pub configured : endpoint ≡ some server
  pub has_dn : is_empty who.distinguished_name ≡ false
  pub accepted : verifier server who.distinguished_name password ≡ returned true

module _ (password : Str) (verifier : Verifier) where
  verdict-ack : (v : Verdict) → (verdict_outcome v).result ≡ ack → v ≡ returned true
  unfolding verdict_outcome
  verdict-ack bind_error h = absurd (cc h)
  verdict-ack (returned true) h = refl
  verdict-ack (returned false) h = absurd (cc h)

  check_endpoint_sound :
      (user : User) (endpoint : Option LdapEndpoint)
      → user.enabled ≡ true
      → (check_endpoint user endpoint password verifier).result ≡ ack
      → Grants (some user) endpoint password verifier
  unfolding check_endpoint
  check_endpoint_sound user none on h = absurd (cc h)
  check_endpoint_sound user (some server) on h =
      elim (Bool-cases (is_empty user.distinguished_name)) [
        | inl e ↦ absurd (cc (rw e at h))
        | inr e ↦ record {
          who = user;
          known = refl;
          enabled = on;
          server = server;
          configured = refl;
          has_dn = e;
          accepted = verdict-ack (verifier server user.distinguished_name password) (rw e at h);
        }
      ]

  evaluate_sound :
      (user : Option User) (endpoint : Option LdapEndpoint)
      → (evaluate user endpoint password verifier).result ≡ ack
      → Grants user endpoint password verifier
  unfolding evaluate
  evaluate_sound none endpoint h = absurd (cc h)
  evaluate_sound (some user) endpoint h = elim (Bool-cases user.enabled) [
    | inl e ↦ check_endpoint_sound user endpoint e (simp e at h)
    | inr e ↦ absurd (cc (rw e at h))
  ]

  evaluate_complete :
      (user : User) (server : LdapEndpoint)
      → user.enabled ≡ true
      → is_empty user.distinguished_name ≡ false
      → verifier server user.distinguished_name password ≡ returned true
      → (evaluate (some user) (some server) password verifier).result ≡ ack
  unfolding evaluate check_endpoint verdict_outcome
  evaluate_complete user server e f g = ground arith

  -- Authentication is acknowledged exactly when the user is known and enabled, a server is
  -- configured, the user has a distinguished name, and the verifier accepts the password for it.
  pub evaluate-eq-ack_iff :
      (user : Option User) (endpoint : Option LdapEndpoint)
      → ((evaluate user endpoint password verifier).result ≡ ack)
        ↔ Grants user endpoint password verifier
  evaluate-eq-ack_iff user endpoint = (
    evaluate_sound user endpoint,
    λ g.
        rw (g.known, g.configured) (evaluate_complete g.who g.server g.enabled g.has_dn g.accepted),
  )

  -- For a known, enabled user the answer is an error, which leaves the decision to the daemon's
  -- local accounts, exactly when no server is configured, the user has no distinguished name, or
  -- the verifier could not decide.
  pub evaluate-eq-error_iff :
      (user : User) (endpoint : Option LdapEndpoint)
      → user.enabled ≡ true
      → ((evaluate (some user) endpoint password verifier).result ≡ AuthResult.error) ↔ (
          (endpoint ≡ none)
          ⊎ ((server : LdapEndpoint) × (endpoint ≡ some server)
              × ((is_empty user.distinguished_name ≡ true)
                  ⊎ (verifier server user.distinguished_name password ≡ bind_error))))
  unfolding evaluate check_endpoint verdict_outcome
  evaluate-eq-error_iff user none e = ground arith
  evaluate-eq-error_iff user (some server) e =
      (λ h. inr (server, refl, ground arith), λ h. ground arith)

-- With the verifier of ldap_bind.py an empty password is never acknowledged, whatever the server
-- would answer to it.
pub evaluate-empty_password :
    (bind : LdapEndpoint → Str → Str → BindReply) (user : Option User)
    (endpoint : Option LdapEndpoint)
    → (evaluate user endpoint [] (verify_ldap_password bind)).result ≢ ack
evaluate-empty_password bind user endpoint h =
    let g = (evaluate-eq-ack_iff [] (verify_ldap_password bind) user endpoint).0 h in
    refused_empty g.server g.who.distinguished_name g.accepted
  where
    refused_empty :
        (e : LdapEndpoint) (dn : Str) → verify_ldap_password bind e dn [] ≡ returned true → ⊥
    refused_empty e dn k = unfold verify_ldap_password in cc k
