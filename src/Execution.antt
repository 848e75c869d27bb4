-- ===== src/Execution.antt =====
-- durallm/execution: what bounds the attempts of one request.
pub mod Attempts
pub mod Deadline
pub mod Executor
