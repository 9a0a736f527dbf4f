-- ===== src/Registry.antt =====
-- Entries of a registry and their conversion to the upstream format and back (registry/types,
-- registry/converters). What the converters pass on unread, such as permissions or tool definitions,
-- is a value of a type that is a parameter; the upstream types have the fields that are used.
pub mod Types
pub mod Upstream
pub mod ToUpstream
pub mod FromUpstream
pub mod RoundTrip
pub mod EnvVars
mod Tests
