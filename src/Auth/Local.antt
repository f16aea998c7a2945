-- ===== src/Auth/Local.antt =====
-- backend/app/api/auth_local.py. The request has passed the validation of its fields. A handler
-- gives its result and the committed database; the cookie that the response sets is the token.
pub mod Cidr
pub mod Laws
use tacacs_web.Prelude.{
  ℕ, Bool, true, false, not, ◌&&◌, ◌||◌, Option, none, some, List, map, Str, str, str_eq, is_empty,
  ◌==◌, filter, if◌then◌else◌,
}
use tacacs_web.Models.{LocalAdmin, WebSession}
use tacacs_web.Result.{Result, ok, err, http, or_rollback}
use tacacs_web.Db.{Db, scalar_one_or_none}
use tacacs_web.Ipaddress.{Addr, Network, Ipaddress, contains}
use tacacs_web.Audit.Actions.{auth_login_succeeded, auth_login_failed, auth_logout}
use tacacs_web.Audit.Logger.{Entry, append}
use tacacs_web.Auth.Password.{Verification, verify_password}
use tacacs_web.Auth.Sessions.{
  SessionContext, create_session, revoke_session, Caller, require_session,
}

pub record LoginRequest : Type 0 where
  pub username : Str
  pub password : Str
  pub client_ip : Option Str
  pub user_agent : Option Str

pub record LoginResponse : Type 0 where
  pub username : Str
  pub role : Str
  pub auth_method : Str
  pub cookie : Str

-- `ip_address(client_ip) in ip_network(cidr)`, where a `ValueError` is a refusal.
address_in : Option Addr → Option Network → Bool
address_in none net = false
address_in (some addr) none = false
address_in (some addr) (some net) = contains net addr

pub succeeded_entry : LocalAdmin → LoginRequest → Entry
succeeded_entry admin req = record {
  actor_username_snapshot = admin.username;
  actor_role = str "admin";
  auth_method = str "local";
  action = auth_login_succeeded;
  target_type = none;
  target_id = none;
  summary = none;
  client_ip = req.client_ip;
  user_agent = req.user_agent;
  actor_id = some admin.id;
}

-- `admin.last_login_at = ws.created_at`
pub touch_admin : LocalAdmin → ℕ → Db → Db
touch_admin admin at db = record db {
  local_admins =
      map (λ (a : LocalAdmin). if a.id == admin.id then record a { last_login_at = some at } else a)
        db.local_admins;
}

grant : Str → ℕ → LocalAdmin → LoginRequest → Db → Result LoginResponse × Db
unfolding create_session touch_admin succeeded_entry
grant token now admin req db =
    let (ws, with_session) =
      create_session token now
        (record {
          username = admin.username;
          role = str "admin";
          auth_method = str "local";
          actor_id = some admin.id;
          client_ip = req.client_ip;
        })
        db in
    or_rollback db
      (append now (succeeded_entry admin req) (touch_admin admin ws.created_at with_session))
      λ db'. (
        ok (record {
          username = admin.username;
          role = str "admin";
          auth_method = str "local";
          cookie = ws.token;
        }),
        db',
      )

module _ (lib : Ipaddress) where
  allows_from : Str → Option Str → Bool
  unfolding address_in
  allows_from cidr none = false
  allows_from cidr (some ip) =
      if is_empty ip then false else address_in (lib.ip_address ip) (lib.ip_network cidr)

  unfoldable pub cidr_allows : Option Str → Option Str → Bool
  unfolding allows_from
  cidr_allows none client_ip = true
  cidr_allows (some cidr) client_ip = if is_empty cidr then true else allows_from cidr client_ip

  unfoldable pub cidr_ok : Option LocalAdmin → LoginRequest → Bool
  unfolding cidr_allows
  cidr_ok none req = true
  cidr_ok (some admin) req = cidr_allows admin.allowed_source_cidr req.client_ip

  unfoldable pub failed_entry : Bool → LoginRequest → Entry
  failed_entry accepted req = record {
    actor_username_snapshot = req.username;
    actor_role = str "unknown";
    auth_method = str "local";
    action = auth_login_failed;
    target_type = none;
    target_id = none;
    summary = some (if not accepted then str "bad_password" else str "cidr_denied");
    client_ip = req.client_ip;
    user_agent = req.user_agent;
    actor_id = none;
  }

  refuse : ℕ → Bool → LoginRequest → Db → Result LoginResponse × Db
  unfolding failed_entry
  refuse now accepted req db =
      or_rollback db (append now (failed_entry accepted req) db)
        λ db'. (err (http 401 (str "invalid_credentials")), db')

  -- Behind the check of the password. `assert admin is not None` cannot fail: an accepted login has an
  -- admin.
  decide_login : Str → ℕ → Option LocalAdmin → Bool → LoginRequest → Db → Result LoginResponse × Db
  unfolding cidr_ok refuse grant
  decide_login token now none accepted req db = refuse now accepted req db
  decide_login token now (some admin) accepted req db =
      if not accepted || not (cidr_ok (some admin) req)
      then refuse now accepted req db
      else grant token now admin req db

  module _ (verify : Str → Str → Verification) where
    unfoldable pub accepted : Option LocalAdmin → LoginRequest → Result Bool
    unfolding verify_password
    accepted none req = ok false
    accepted (some admin) req = verify_password verify admin.password_argon2_hash req.password

    check_login : Str → ℕ → Option LocalAdmin → LoginRequest → Db → Result LoginResponse × Db
    unfolding accepted decide_login
    check_login token now admin req db =
        or_rollback db (accepted admin req)
          λ ok_password. decide_login token now admin ok_password req db

    unfoldable pub login_local : Str → ℕ → LoginRequest → Db → Result LoginResponse × Db
    unfolding check_login
    login_local token now req db =
        or_rollback db
          (scalar_one_or_none
            (filter (λ (a : LocalAdmin). str_eq a.username req.username) db.local_admins))
          λ admin. check_login token now admin req db

logout_entry : SessionContext → Entry
logout_entry ctx = record {
  actor_username_snapshot = ctx.username;
  actor_role = ctx.role;
  auth_method = ctx.auth_method;
  action = auth_logout;
  target_type = none;
  target_id = none;
  summary = none;
  client_ip = ctx.client_ip;
  user_agent = ctx.user_agent;
  actor_id = ctx.actor_id;
}

-- Behind `require_session`, which has committed its own change.
logout_as : ℕ → Result SessionContext × Db → Result (Unit {0}) × Db
unfolding logout_entry
logout_as now (err e, db) = (err e, db)
logout_as now (ok ctx, db) =
    or_rollback db (append now (logout_entry ctx) (revoke_session ctx.token db).1)
      λ db'. (ok tt, db')

unfoldable pub logout : Caller → ℕ → Db → Result (Unit {0}) × Db
unfolding logout_as
logout c now db = logout_as now (require_session c now db)
