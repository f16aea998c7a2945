-- ===== src/Syslog.antt =====
-- backend/app/syslog/forwarder.py.
pub mod Format
pub mod Config
pub mod Wire
pub mod Forwarder
