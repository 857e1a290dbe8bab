-- ===== src/Client.antt =====
-- wayland-backend/src/rs/client_impl/mod.rs: the client's backend.
pub mod State
pub mod Request
pub mod Display
pub mod Dispatch
pub mod Guards
