-- ===== src/Tests.antt =====
-- Runs at concrete inputs, and each theorem that has hypotheses at an input that meets them.
mod Breaker
mod Ledgers
mod Routing
mod Classifier
mod Streaming
mod Continuation
mod Execution
mod Executor
mod Pools
mod Cluster
