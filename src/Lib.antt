-- ===== src/Lib.antt =====
-- The node of the Shadowy chain (cmd/): its rewards, its tokens, and the pools and trades on them.
--
-- The parts and how they interact. A transaction carries token operations. `ValidateTokenOperations`
-- admits them, the token executor runs them one by one, and the token state holds the registry of
-- tokens, the balances, and the Shadow that is locked behind each token; every change of it is
-- written to a file before the call returns. Transactions wait in the mempool. The blockchain checks a
-- block against its parent and the token state, executes the operations of its transactions, stores it
-- and tells the syndicate manager who has won it. Rewards are computed from the height alone.
--
-- - Prelude and its children: shared names, Boolean tests, lists, 64-bit arithmetic, byte strings.
-- - Dict, Dict/Sum: Go's maps as association lists, and maps of amounts.
-- - Rewards: cmd/rewards.go (CalculateBlockReward, CalculateTransactionFee, GetTotalSupplyAtHeight,
--   GetRewardSchedule, ValidateReward, the next halving of GetNetworkStats). Children: Eras (what an
--   era pays), Supply, Halving.
-- - Heights: compressHeightRanges of cmd/block.go. Proofs: Ranges.
-- - Token: the records of cmd/transaction.go for tokens and their operations.
-- - Address: cmd/wallet.go (DeriveAddress, IsValidAddress, IsValidLAddress, calculateChecksum) and
--   generateLAddress of cmd/transaction.go. Children: Hex (the encoding), Derived.
-- - TokenState: cmd/token_state.go. The state is the record TokenState with the disk behind it; a
--   method is a function to an outcome and the new state. Children: Operations (TransferToken,
--   MeltToken, MintTokensTo), Queries, Reset (ResetToGenesis, loadState, NewTokenState, and the
--   mutex). Proofs: Balances (the tables of one token), Validity (the invariant), Transfer,
--   Conservation, Melt, Creation, Minting, Durability, Overflow, Supply, Success, Reach.
-- - Validation: the validators of cmd/transaction.go, by kind in Checks, Tokens, Trades and Swaps.
--   Proofs: Conflicts (the map of the seen operations), Accepted (what validation means for the
--   token state).
-- - Executor: cmd/token_executor.go. Monad (results, errors, panics, and their sequence), Results,
--   Pools (findPoolByLAddress, GetPoolReserves, executePoolSwap), Liquidity (executeTokenTransfer,
--   handleLiquidityProvision), Trades (executeTokenCreate, executeTradeOffer, executeTradeExecute,
--   executePoolCreate), Operations (executeTokenMelt, executeSyndicateJoin, executeTokenOperation),
--   Execution (ExecuteTokenOperations, rollbackOperations), Requirements
--   (ValidateTokenOperationExecution). Proofs: Ordinary, Atomicity, Validated, Membership, Price, Swap, Steps, Product, Provision, Settlement, Escrow.
-- - Syndicate: cmd/syndicate_manager.go. The manager is a record with the stats of the four syndicates
--   and the window of the last blocks. Proofs: Capacity (totals and addresses), Window, Members,
--   Leaving, Assignment.
-- - Crypto: cmd/crypto.go (key pairs, Sign, VerifySignature, FindClosestMatch). Proofs: Closest.
-- - Transaction: the records of cmd/transaction.go for transactions. Builders (the Add methods,
--   generateTokenID), Signing (Hash, SignTransaction, VerifySignedTransaction, the key of a wallet).
--   Proofs: Built, RoundTrip.
-- - Blockchain: cmd/blockchain.go. The record Blockchain holds the blocks by hash and by height, the
--   tip, the executor, and the block files. Hash (Hash, serializeHeader, calculateMerkleRoot), Checks
--   (validateBlock), Adding (AddBlock and what it calls), Removal (DeleteBlock, TrimBlocksFromHeight,
--   rebuildTokenState), Reorganization, Loading (loadBlockchain, validateAndTrimChain, NuclearReset),
--   Reading. Proofs: Merkle, Links, Stored, Ancestor, Resets.
-- - Mempool: cmd/mempool.go. The record Mempool holds the transactions, the queue and the indices;
--   Operations has the methods, Validators cmd/mempool_validators.go and IsValid of
--   cmd/transaction.go. Proofs: Inputs, Verdict, Sizes, Eviction, Invariant, Limits.
-- - Vdf: cmd/vdf.go (the solver and the verifier of the delay function). Children: Numbers (the bytes
--   of a number), Powers. Proofs: Soundness.
-- - Timelord: cmd/timelord.go. The record Timelord holds the jobs by reference; Jobs has the
--   actions of a worker and the cleanup, Steps the ways in which all of them follow each other. Proofs:
--   Counters, Capacity, Claims, Endings, Timeouts, Difficulty.
-- - TokenTrust: cmd/token_trust.go. Proofs: Levels, Summary.
-- - Plots: cmd/plotformat.go and the codec of cmd/farm.go. Proofs: RoundTrip.
-- - Tests: runs on small inputs, and the theorems at inputs that meet their hypotheses.
--
-- Numbers. A uint64 is a number below 2 ^ 64, and every sum, difference and product of the source
-- keeps its wrap-around. The loop of GetTotalSupplyAtHeight runs on fuel, height / 210000 + 2 rounds,
-- since each round ends an era; heights are at least two eras below 2 ^ 64. An int64 is its bit
-- pattern. A string is its bytes.
--
-- Time, disk and randomness. What clock and disk do at each save is part of the state; the clock of
-- the validators and of a swap is an argument, and the readings within one call are taken as one.
-- A failed write leaves the file as it was or broken.
--
-- Hashes. Keccak-256 and SHAKE-256 are parameters, of which it is assumed that they return bytes, as
-- many as they are asked for.
--
-- Other packages. The JSON of a transaction, of a signed one and of the token state, SHA-256,
-- SHA3-256, SHAKE-128, ML-DSA-87 and the binary heap are parameters; of ML-DSA-87 it is assumed that
-- keys and signatures have their sizes, and that a signature is verified by the key of its seed. A
-- number of math/big is a number: none of them is negative.
--
-- Loops. That of the Merkle root runs on fuel, one round for each hash, and a theorem says that it
-- ends; the loop of an eviction takes one entry of the queue in each round.
--
-- Maps. A `range` loop visits an association list in its order, or in an order that is an argument.
-- A log line that slices a string panics where the string is too short, and so do the definitions.
--
-- Not modelled: other log lines and error texts; floats (inflation rate, formatted amounts), except
-- percentages as pairs, priorities by their order, and the difficulty and the mean time of the
-- timelord, whose factors are parameters; clocks that are only compared with each other
-- (IsStuckInSync); the creation of a genesis block and the statistics of the chain; consensus,
-- the making of plots, wallets' files, and all servers and clients.
pub mod Prelude
pub mod Dict
pub mod Rewards
pub mod Heights
pub mod Token
pub mod Address
pub mod TokenState
pub mod Validation
pub mod Syndicate
pub mod Executor
pub mod Crypto
pub mod Transaction
pub mod Blockchain
pub mod Mempool
pub mod Vdf
pub mod Timelord
pub mod TokenTrust
pub mod Plots
pub mod Tests
