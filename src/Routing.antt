-- ===== src/Routing.antt =====
-- The stores that routing decisions consult, from durallm/routing.
pub mod Lanes
pub mod Budget
pub mod Keys
pub mod Selection
