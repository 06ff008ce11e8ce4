-- ===== src/Policy.antt =====
-- src/policy: bucket policies.
pub mod Glob
pub mod Eval
pub mod Parse
mod Tests
