-- ===== src/Auth.antt =====
-- backend/app/auth and backend/app/api/auth_local.py
pub mod Password
pub mod Ldap
pub mod MavisAuthn
pub mod Sessions
pub mod Local
