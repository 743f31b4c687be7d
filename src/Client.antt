-- ===== src/Client.antt =====
-- internal/client: the API for clients of the published content.
pub mod Protection
