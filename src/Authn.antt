-- ===== src/Authn.antt =====
-- Bearer-token authentication (authn/validate.go, authn/keyprovider.go, authn/errors.go).
pub mod Types
pub mod Bearer
pub mod Keys
pub mod Provider
pub mod Cache
pub mod Lookup
pub mod Token
pub mod Validate
mod Tests
