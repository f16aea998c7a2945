-- ===== src/Models/Admin.antt =====
-- backend/app/db/models/admin.py
use tacacs_web.Prelude.{ℕ, Option, Str}

pub record LocalAdmin : Type 0 where
  pub id : ℕ
  pub username : Str
  pub password_argon2_hash : Str
  pub allowed_source_cidr : Option Str
  pub created_at : ℕ
  pub last_login_at : Option ℕ

pub record WebSession : Type 0 where
  pub token : Str
  pub auth_method : Str
  pub local_admin_id : Option ℕ
  pub username_snapshot : Str
  pub role : Str
  pub created_at : ℕ
  pub last_seen_at : ℕ
  pub expires_at : ℕ
  pub hard_expires_at : ℕ
  pub client_ip : Option Str

pub record AuditLog : Type 0 where
  pub id : ℕ
  pub ts : ℕ
  pub actor_id : Option ℕ
  pub actor_username_snapshot : Str
  pub actor_role : Str
  pub auth_method : Str
  pub action : Str
  pub target_type : Option Str
  pub target_id : Option ℕ
  pub summary : Option Str
  pub client_ip : Option Str
  pub user_agent : Option Str
