-- ===== src/Fusion.antt =====
-- fusion.go and the helpers of utils/bytes.go that it uses: what the decoded messages say, fused.
pub mod Text
pub mod Wheel
pub mod Slots
pub mod Times
pub mod Services
