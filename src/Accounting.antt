-- ===== src/Accounting.antt =====
-- backend/app/accounting/ingestor.py.
pub mod Parser
pub mod Ingestor
