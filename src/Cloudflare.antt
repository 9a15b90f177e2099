-- ===== src/Cloudflare.antt =====
-- internal/cloudflare: the rules, the blocker and the detector of threats.
pub mod Threat
pub mod Rules
pub mod Blocker
mod Tests
