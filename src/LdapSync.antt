-- ===== src/LdapSync.antt =====
-- backend/app/ldap_sync.
pub mod Records
pub mod Groups
pub mod Sync
