-- ===== src/Authz.antt =====
-- backend/app/authz: device resolution, policy, profile rendering.
pub mod Resolution
pub mod Policy
pub mod Render
