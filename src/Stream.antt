-- ===== src/Stream.antt =====
-- The continuous audio stream of backend/internal/stream: Mp3 is mp3.go, Listener and Manager are
-- manager.go.
pub mod Mp3
pub mod Listener
pub mod Manager
