-- ===== src/Mavis.antt =====
-- The live pipeline behind the daemon: backend/app/api/internal_mavis.py and the MAVIS child of
-- docker/tac_plus-ng/mavis_child.py.
pub mod Rpc
pub mod Child
