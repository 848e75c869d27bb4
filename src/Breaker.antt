-- ===== src/Breaker.antt =====
-- durallm/breaker/: the sliding window metrics, the circuit breaker and its registry.
pub mod Metrics
pub mod State
pub mod Circuit
pub mod Calls
pub mod Registry
