-- ===== src/Pools.antt =====
-- durallm/pools.py: the pools of routes, with the cooldowns and the lockouts of each pool.
pub mod Manager
pub mod View
pub mod Others
pub mod Isolation
mod Oldest
pub mod Candidates
pub mod Routes
