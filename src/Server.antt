-- ===== src/Server.antt =====
-- internal/server/grpc.go: the handlers that do more than forward a call.
pub mod Archives
pub mod Uploads
pub mod Proxy
pub mod Handlers
mod Tests
