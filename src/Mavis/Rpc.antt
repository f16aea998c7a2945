-- ===== src/Mavis/Rpc.antt =====
-- backend/app/api/internal_mavis.py. The requests have passed the validation of their fields.
-- Python's `str.lower` and the database's `lower` are parameters, and so is the LDAP verifier.
pub mod Laws
pub mod Grants
use tacacs_web.Prelude.{
  ℕ, Bool, true, false, ◌&&◌, Option, none, some, List, [], ◌∷◌, ◌++◌, Str, str, str_eq, ◌==◌, any,
  filter, find?, is_some, if◌then◌else◌,
}
use tacacs_web.Models.{
  User, AdGroup, UserAdGroup, Device, PrivilegeProfile, AuthorizationRow, Authorization,
}
use tacacs_web.Result.{Result, ok, err, or_rollback}
use tacacs_web.Db.{Db, scalar_one_or_none}
use tacacs_web.Ipaddress.{Ipaddress}
use tacacs_web.Audit.Actions.{
  tacacs_authn_succeeded, tacacs_authn_failed, tacacs_authz_succeeded, tacacs_authz_failed,
}
use tacacs_web.Audit.Logger.{Entry, append}
use tacacs_web.Auth.Ldap.{resolve_ldap_endpoint}
use tacacs_web.Auth.MavisAuthn.{AuthResult, ack, nak, nfd, AuthOutcome, evaluate, Verifier}
use tacacs_web.Authz.Resolution.{resolve_device_for_ip}
use tacacs_web.Authz.Policy.{EffectiveAuthorization, evaluate_for_user, profile}
use tacacs_web.Authz.Render.{render_tacprofile}

pub record Casing : Type 0 where
  pub lower : Str → Str
  pub sql_lower : Str → Str

pub record AuthRequest : Type 0 where
  pub username : Str
  pub password : Str
  pub nas_ip : Option Str

pub record InfoRequest : Type 0 where
  pub username : Str
  pub nas_ip : Str

pub record InfoResponse : Type 0 where
  pub result : AuthResult
  pub reason : Option Str
  pub profile : Option Str

-- The rows that the query for a user selects.
unfoldable pub matching_users : Casing → Str → Db → List User
matching_users casing username db =
    filter (λ (u : User). str_eq (casing.sql_lower u.sam_account_name) (casing.lower username))
      db.users

-- `selectinload(User.groups)`
unfoldable pub groups_of : Db → User → List AdGroup
groups_of db user =
    filter
      (λ (g : AdGroup).
        any (λ (e : UserAdGroup). (e.user_id == user.id) && (e.ad_group_id == g.id))
          db.user_ad_groups)
      db.ad_groups

attach : AuthorizationRow → Option PrivilegeProfile → List Authorization
attach row none = []
attach row (some p) = record { row = row; privilege_profile = p } ∷ []

-- The rows with their profiles. The foreign key leaves no row without one.
unfoldable pub load_authorizations :
    List PrivilegeProfile → List AuthorizationRow → List Authorization
unfolding attach
load_authorizations profiles [] = []
load_authorizations profiles (row ∷ rows) =
    attach row (find? (λ (p : PrivilegeProfile). p.id == row.privilege_profile_id) profiles)
    ++ load_authorizations profiles rows

-- The authorizations on one device group.
unfoldable pub authorizations_on : Db → ℕ → List Authorization
unfolding load_authorizations
authorizations_on db device_group_id =
    load_authorizations db.profiles
      (filter (λ (a : AuthorizationRow). a.device_group_id == device_group_id) db.authorizations)

abbrev pub is_ack : AuthResult → Bool
is_ack ack = true
is_ack _ = false

abbrev user_id : Option User → Option ℕ
user_id none = none
user_id (some u) = some u.id

unfoldable pub authn_entry : AuthRequest → Option User → AuthOutcome → Entry
authn_entry req user outcome = record {
  actor_username_snapshot = req.username;
  actor_role = str "tacacs_user";
  auth_method = str "tacacs";
  action = if is_ack outcome.result then tacacs_authn_succeeded else tacacs_authn_failed;
  target_type = some (str "nas");
  target_id = none;
  summary = if is_ack outcome.result then none else outcome.reason;
  client_ip = req.nas_ip;
  user_agent = none;
  actor_id = user_id user;
}

authenticate : ℕ → Casing → Verifier → AuthRequest → Db → Option User → Result AuthOutcome × Db
unfolding authn_entry
authenticate now casing verifier req db user =
    let outcome = evaluate user (resolve_ldap_endpoint casing.lower db) req.password verifier in
    or_rollback db (append now (authn_entry req user outcome) db) λ db'. (ok outcome, db')

-- `POST /auth`
unfoldable pub mavis_auth : ℕ → Casing → Verifier → AuthRequest → Db → Result AuthOutcome × Db
unfolding matching_users authenticate
mavis_auth now casing verifier req db =
    or_rollback db (scalar_one_or_none (matching_users casing req.username db))
      λ user. authenticate now casing verifier req db user

-- What `_resolve_info` returns.
pub record Resolved : Type 0 where
  pub response : InfoResponse
  pub audit_reason : Option Str
  pub target_id : Option ℕ
  pub audit_summary : Option Str

unfoldable pub denied : AuthResult → Str → Option ℕ → Resolved
denied result reason target_id = record {
  response = record { result = result; reason = some reason; profile = none };
  audit_reason = some reason;
  target_id = target_id;
  audit_summary = none;
}

unfoldable pub granted : Device → PrivilegeProfile → Resolved
granted device profile = record {
  response = record { result = ack; reason = none; profile = some (render_tacprofile profile) };
  audit_reason = none;
  target_id = some device.id;
  audit_summary = some (str "device=" ++ (device.name ++ (str ", profile=" ++ profile.name)));
}

resolve_profile : Device → Option PrivilegeProfile → Resolved
unfolding denied granted
resolve_profile device none = denied nak (str "no_authorization") (some device.id)
resolve_profile device (some p) = granted device p

resolve_on_device : Db → User → Option Device → Resolved
unfolding resolve_profile
resolve_on_device db user none = denied nak (str "unknown_nas") none
resolve_on_device db user (some device) = resolve_profile device (
    profile (
      evaluate_for_user user (groups_of db user) device.device_group_id
        (authorizations_on db device.device_group_id)))

module _ (lib : Ipaddress) where
  unfoldable pub resolve_info : Db → InfoRequest → Option User → Resolved
  unfolding resolve_on_device
  resolve_info db req none = denied nfd (str "unknown_user") none
  resolve_info db req (some user) =
      if user.enabled
      then resolve_on_device db user (resolve_device_for_ip lib req.nas_ip db.devices)
      else denied nak (str "user_disabled") none

  unfoldable pub authz_entry : InfoRequest → Option User → Resolved → Entry
  authz_entry req user r = record {
    actor_username_snapshot = req.username;
    actor_role = str "tacacs_user";
    auth_method = str "tacacs";
    action = if is_ack r.response.result then tacacs_authz_succeeded else tacacs_authz_failed;
    target_type = some (if is_some r.target_id then str "device" else str "nas");
    target_id = r.target_id;
    summary = if is_ack r.response.result then r.audit_summary else r.audit_reason;
    client_ip = some req.nas_ip;
    user_agent = none;
    actor_id = user_id user;
  }

  inform : ℕ → InfoRequest → Db → Option User → Result InfoResponse × Db
  unfolding resolve_info authz_entry
  inform now req db user =
      let r = resolve_info db req user in
      or_rollback db (append now (authz_entry req user r) db) λ db'. (ok r.response, db')

  -- `POST /info`
  unfoldable pub mavis_info : ℕ → Casing → InfoRequest → Db → Result InfoResponse × Db
  unfolding matching_users inform
  mavis_info now casing req db =
      or_rollback db (scalar_one_or_none (matching_users casing req.username db))
        λ user. inform now req db user
