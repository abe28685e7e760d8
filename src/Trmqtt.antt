-- ===== src/Trmqtt.antt =====
-- backend/internal/trmqtt: the live state of a Trunk Recorder instance.
pub mod Ring
