-- ===== src/Services.antt =====
-- The services: services/*.go.
pub mod Basic
pub mod Manager
mod Examples
