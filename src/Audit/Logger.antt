-- ===== src/Audit/Logger.antt =====
-- backend/app/audit/logger.py. The keyword arguments of `append` are the fields of an `Entry`; the
-- time stamp, which every caller leaves to the default, is the argument `now`.
pub mod Laws
use tacacs_web.Prelude.{ℕ, ◌+◌, Option, some, List, [], ◌∷◌, ◌++◌, Str, if◌then◌else◌}
use tacacs_web.Models.{AuditLog}
use tacacs_web.Result.{Result, ok, err, value_error}
use tacacs_web.Db.{Db}
use tacacs_web.Audit.Actions.{is_action}
use tacacs_web.Auth.Sessions.{SessionContext}

pub record Entry : Type 0 where
  pub actor_username_snapshot : Str
  pub actor_role : Str
  pub auth_method : Str
  pub action : Str
  pub target_type : Option Str
  pub target_id : Option ℕ
  pub summary : Option Str
  pub client_ip : Option Str
  pub user_agent : Option Str
  pub actor_id : Option ℕ

unfoldable pub audit_row : ℕ → ℕ → Entry → AuditLog
audit_row id now e = record {
  id = id;
  ts = now;
  actor_id = e.actor_id;
  actor_username_snapshot = e.actor_username_snapshot;
  actor_role = e.actor_role;
  auth_method = e.auth_method;
  action = e.action;
  target_type = e.target_type;
  target_id = e.target_id;
  summary = e.summary;
  client_ip = e.client_ip;
  user_agent = e.user_agent;
}

-- The row joins the caller's transaction.
unfoldable pub append : ℕ → Entry → Db → Result Db
unfolding audit_row
append now e db =
    if is_action e.action
    then ok (record db {
      audit_log = db.audit_log ++ audit_row db.next_audit_id now e ∷ [];
      next_audit_id = db.next_audit_id + 1;
    })
    else err value_error

unfoldable pub crud_entry : SessionContext → Str → Str → ℕ → Option Str → Entry
crud_entry ctx action target_type target_id summary = record {
  actor_username_snapshot = ctx.username;
  actor_role = ctx.role;
  auth_method = ctx.auth_method;
  action = action;
  target_type = some target_type;
  target_id = some target_id;
  summary = summary;
  client_ip = ctx.client_ip;
  user_agent = ctx.user_agent;
  actor_id = ctx.actor_id;
}

unfoldable pub append_crud : ℕ → SessionContext → Str → Str → ℕ → Option Str → Db → Result Db
unfolding append crud_entry
append_crud now ctx action target_type target_id summary db =
    append now (crud_entry ctx action target_type target_id summary) db
