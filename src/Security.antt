-- ===== src/Security.antt =====
-- internal/security: the checks of commands and of paths.
pub mod Config
pub mod Regex
pub mod Path
pub mod Commands
pub mod Paths
mod Tests
