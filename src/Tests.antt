-- ===== src/Tests.antt =====
-- Runs on small inputs, and the theorems at inputs that meet their hypotheses.
mod Data
mod Tokens
mod Rewards
mod Pools
mod Operations
mod Trades
mod Blocks
mod Syndicates
mod Execution
mod Chain
mod Pooling
mod Delay
mod Signed
mod Timekeeping
mod Trusting
mod Plotting
