-- ===== src/Models/System.antt =====
-- backend/app/db/models/system.py
use tacacs_web.Prelude.{ℕ, Str}

pub record SystemSetting : Type 0 where
  pub key : Str
  pub value : Str
  pub updated_at : ℕ

pub record SystemSecret : Type 0 where
  pub key : Str
  pub value : Str
  pub updated_at : ℕ
