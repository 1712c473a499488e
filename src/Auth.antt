-- ===== src/Auth.antt =====
-- Signing in: frontend/src/lib/password.ts, and the form of frontend/src/hooks/useAuthForm.ts.
pub mod Password
pub mod Email
pub mod Form
pub mod Calls
pub mod Tests
