-- ===== src/Models/Identity.antt =====
-- backend/app/db/models/identity.py
use tacacs_web.Prelude.{ℕ, Bool, Option, Str}

pub record User : Type 0 where
  pub id : ℕ
  pub sam_account_name : Str
  pub ad_object_guid : Option Str
  pub distinguished_name : Str
  pub upn : Option Str
  pub display_name : Option Str
  pub enabled : Bool
  pub last_seen_in_sync_at : Option ℕ
  pub created_at : ℕ
  pub updated_at : ℕ

pub record AdGroup : Type 0 where
  pub id : ℕ
  pub sid : Str
  pub distinguished_name : Str
  pub name : Option Str
  pub last_seen_in_sync_at : Option ℕ
  pub created_at : ℕ

pub record UserAdGroup : Type 0 where
  pub user_id : ℕ
  pub ad_group_id : ℕ
