-- ===== src/LiveView.antt =====
-- The live view: src/liveview/.
pub mod Texts
pub mod Conversation
pub mod State
