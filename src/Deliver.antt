-- ===== src/Deliver.antt =====
-- The deliver flow: src/deliver/.
pub mod DeliveryGraph
pub mod Batches
pub mod Progress
pub mod Queue
pub mod Models
pub mod Engine
