-- ===== src/Grpc.antt =====
-- internal/grpc: the client of the Tetragon service, its event stream, and the reconnecting loop.
pub mod Client
pub mod Stream
pub mod Reconnect
