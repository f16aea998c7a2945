-- ===== src/Auth/Ldap.antt =====
-- backend/app/auth/ldap_bind.py and ldap_config.py. The server's answer to a bind is a parameter.
use tacacs_web.Prelude.{
  ℕ, Bool, true, false, ◌||◌, Option, none, some, Str, str, str_eq, is_empty, strip, starts_with,
  if◌then◌else◌,
}
use tacacs_web.Db.{Db, read_setting}

pub record LdapEndpoint : Type 0 where
  pub url : Str
  pub use_tls : Bool
  pub receive_timeout : ℕ

-- What `conn.bind()` does: `LDAPException`, or its result with the description of `conn.result`
-- (empty if there is none).
pub data BindReply : Type 0 where
  ldap_exception : BindReply
  bound : BindReply
  refused : Str → BindReply

-- A call of a verifier returns, or raises `LDAPBindError`.
pub data Verdict : Type 0 where
  returned : Bool → Verdict
  bind_error : Verdict

judge : BindReply → Verdict
judge ldap_exception = bind_error
judge bound = returned true
judge (refused description) =
    if str_eq description (str "invalidCredentials") || str_eq description (str "invalidDNSyntax")
    then returned false
    else bind_error

-- The construction of `Server`, which refuses a URL that it cannot read, is taken to succeed.
unfoldable pub verify_ldap_password :
    (LdapEndpoint → Str → Str → BindReply) → LdapEndpoint → Str → Str → Verdict
unfolding judge
verify_ldap_password bind endpoint bind_dn password =
    if is_empty password then returned false else judge (bind endpoint bind_dn password)

abbrev pub setting_ldap_url : Str
setting_ldap_url = str "ldap.url"

abbrev pub default_receive_timeout : ℕ
default_receive_timeout = 10

-- `str.lower`, a table of Unicode, is a parameter.
module _ (lower : Str → Str) where
  endpoint_of : Option Str → Option LdapEndpoint
  endpoint_of none = none
  endpoint_of (some value) =
      if is_empty value
      then none
      else (let url = strip value in
          some (record {
            url = url;
            use_tls = starts_with (lower url) (str "ldaps://");
            receive_timeout = default_receive_timeout;
          }))

  unfoldable pub resolve_ldap_endpoint : Db → Option LdapEndpoint
  unfolding endpoint_of
  resolve_ldap_endpoint db = endpoint_of (read_setting db setting_ldap_url)
