-- ===== src/Emergency.antt =====
-- internal/emergency/emergency.go: under lasting overload, end the process that uses the most.
pub mod Docker
pub mod Target
pub mod Monitor
mod Tests
