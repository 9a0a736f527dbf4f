-- ===== src/Oci.antt =====
-- OCI artifacts (oci/artifact): what is taken out of an archive, and what is pushed to a target.
pub mod Path
pub mod Tar
pub mod Target
mod Tests
