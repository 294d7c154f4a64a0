-- ===== src/Site.antt =====
-- site/backend: the HTTP server of a verifier.
pub mod Verifier
pub mod Server
