-- ===== src/Consumer.antt =====
-- main of cmd/consumer/main.go: how the service starts (Startup), how it ends (Shutdown), what its
-- health server answers meanwhile (Probes), and the goroutines together (Flow).
pub mod Startup
pub mod Shutdown
pub mod Probes
pub mod Flow
