-- ===== src/Login.antt =====
-- Login by a one-time code: sendLoginOtp and verifyLoginOtp of auth/auth.service.ts.
pub mod Codes
pub mod Handlers
pub mod Laws
pub mod Guesses
pub mod Tokens
pub mod Tests
