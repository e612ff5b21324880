-- ===== src/Authorization.antt =====
-- src/auth/authorization: who may call a handler (Guard), and when (Permitted).
pub mod Guard
pub mod Permitted
