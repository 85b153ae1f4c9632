-- ===== src/Executor.antt =====
-- cmd/token_executor.go.
pub mod Monad
pub mod Results
pub mod Pools
pub mod Liquidity
pub mod Trades
pub mod Price
pub mod Swap
pub mod Steps
pub mod Settlement
pub mod Escrow
pub mod Product
pub mod Provision
pub mod Operations
pub mod Execution
pub mod Requirements
pub mod Ordinary
pub mod Atomicity
pub mod Validated
pub mod Membership
