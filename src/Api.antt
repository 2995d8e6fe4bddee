-- ===== src/Api.antt =====
-- The API server: internal/apiserver.
pub mod Route
pub mod Service
pub mod Grpc
pub mod Http
pub mod Protocols
