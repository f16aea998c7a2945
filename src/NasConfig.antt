-- ===== src/NasConfig.antt =====
-- backend/app/nas_config
pub mod Render
pub mod Writer
