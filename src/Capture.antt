-- ===== src/Capture.antt =====
-- capture_common.go, as far as it computes: the filter that the kernel runs on frames.
pub mod Builder
pub mod Filter
