-- ===== src/Execution/Executor.antt =====
-- `GatewayExecutor.execute` of durallm/execution/executor.py.
pub mod Model
pub mod Delays
pub mod Rollover
pub mod Sizing
pub mod Admission
pub mod Response
pub mod Failure
pub mod Loop
pub mod Ensures
pub mod Spends
pub mod Closer
pub mod Ends
pub mod Kinds
pub mod Balance
pub mod Settles
pub mod Accounts
