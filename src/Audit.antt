-- ===== src/Audit.antt =====
-- backend/app/audit
pub mod Actions
pub mod Logger
