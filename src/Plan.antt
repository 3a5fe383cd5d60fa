-- ===== src/Plan.antt =====
-- The plan flow: src/plan/.
pub mod Discovery
pub mod DomainMap
pub mod Backflow
