-- ===== src/TokenState.antt =====
-- cmd/token_state.go: the registry of tokens, the balances, the Shadow locked behind each token,
-- and the file to which every change is written. The methods hold the state's mutex from their
-- first line to their last, so a call is one step from a state to a state; where a method takes
-- the mutex again, `Mutex` says what happens. The log lines are left out.
-- Values are copied: a snapshot shares nothing with the state. The file keeps the snapshot whose JSON
-- was written; what `json.Unmarshal` makes of that JSON is a parameter.
pub mod Operations
pub mod Queries
pub mod Reset
pub mod Balances
pub mod Validity
pub mod Transfer
pub mod Conservation
pub mod Melt
pub mod Creation
pub mod Minting
pub mod Durability
pub mod Overflow
pub mod Supply
pub mod Reach
pub mod Success
use shadowyapparatus.Prelude.{
  ℕ, suc, Option, none, some, [], Bytes, Bool, true, false, ◌==◌, if◌then◌else◌, mul64,
}
use shadowyapparatus.Dict.{Dict, lookup, insert, erase, bytes_key}
use shadowyapparatus.Dict.Sum.{amount}
use shadowyapparatus.Token.{TokenMetadata}

pub record TokenStateSnapshot : Type 0 where
  pub tokens : Dict Bytes TokenMetadata
  pub balances : Dict Bytes (Dict Bytes ℕ)
  pub locked_shadow : Dict Bytes ℕ
  pub timestamp : ℕ
  pub block_height : ℕ

-- token_state.json: not there, not readable as JSON, or the JSON of a snapshot.
pub data File : Type 0 where
  absent garbled : File
  holds : TokenStateSnapshot → File

-- How a write ends: done, refused with the old file intact, or broken off halfway.
pub data Write : Type 0 where
  written refused torn : Write

pub record Moment : Type 0 where
  pub now : ℕ
  pub write : Write

-- The file, what clock and disk will do at each save to come, and what `json.Unmarshal` makes of the
-- JSON that `json.MarshalIndent` makes of a snapshot; none is an error.
pub record Disk : Type 0 where
  pub file : File
  pub moments : ℕ → Moment
  pub reread : TokenStateSnapshot → Option TokenStateSnapshot

pub record TokenState : Type 0 where
  pub tokens : Dict Bytes TokenMetadata
  pub balances : Dict Bytes (Dict Bytes ℕ)
  pub locked_shadow : Dict Bytes ℕ
  pub disk : Disk

pub data Error : Type 0 where
  already_exists nil_metadata zero_supply zero_lock_amount no_such_token : Error
  insufficient : (have need : ℕ) → Error
  save_failed : Error

-- `panicked` is a write to a nil map.
pub data Outcome (A : Type 0) : Type 0 where
  ok : A → Outcome A
  err : Error → Outcome A
  panicked : Outcome A

-- createSnapshotUnsafe
unfoldable pub create_snapshot : ℕ → TokenState → TokenStateSnapshot
create_snapshot height s = record {
  tokens = s.tokens;
  balances = s.balances;
  locked_shadow = s.locked_shadow;
  timestamp = (s.disk.moments 0).now;
  block_height = height;
}

abbrev file_after : Write → TokenStateSnapshot → File → File
file_after Write.written snapshot file = holds snapshot
file_after Write.refused snapshot file = file
file_after Write.torn snapshot file = garbled

abbrev pub is_written : Write → Bool
is_written Write.written = true
is_written Write.refused = false
is_written Write.torn = false

-- saveStateWithSnapshot: whether the write succeeded, and the state with the disk as it then is.
unfoldable pub save_state_with_snapshot : TokenStateSnapshot → TokenState → Bool × TokenState
save_state_with_snapshot snapshot s =
    let w = (s.disk.moments 0).write in
    (
      is_written w,
      record s {
        disk = record {
          file = file_after w snapshot s.disk.file;
          moments = λ n. s.disk.moments (suc n);
          reread = s.disk.reread;
        };
      },
    )

-- Snapshot and save, as every method that changes the state ends.
unfoldable pub save : TokenState → Bool × TokenState
unfolding create_snapshot save_state_with_snapshot
save s = save_state_with_snapshot (create_snapshot 0 s) s

-- A balance, as `ts.balances[tokenID][address]` reads it: 0 if either key is missing.
abbrev pub balances_of : Option (Dict Bytes ℕ) → Dict Bytes ℕ
balances_of none = []
balances_of (some m) = m

unfoldable pub balance : Bytes → Bytes → TokenState → ℕ
balance id address s = amount address (balances_of (lookup id s.balances))

-- The state with a new token.
unfoldable pub registered : Bytes → TokenMetadata → TokenState → TokenState
unfolding mul64
registered id m s = record s {
  tokens = insert id m s.tokens;
  balances = insert id (insert m.creator m.total_supply []) s.balances;
  locked_shadow = insert id (mul64 m.total_supply m.lock_amount) s.locked_shadow;
}

-- The rollback of `CreateToken`.
unfoldable pub unregistered : Bytes → TokenState → TokenState
unregistered id s = record s {
  tokens = erase id s.tokens;
  balances = erase id s.balances;
  locked_shadow = erase id s.locked_shadow;
}

unfoldable pub create_token :
    Bytes → Option TokenMetadata → TokenState → Outcome (Unit {0}) × TokenState
create_token id metadata s = elim (lookup id s.tokens) [
  | some _ ↦ (err already_exists, s)
  | none ↦ elim metadata [
    | none ↦ (err nil_metadata, s)
    | some m ↦
        if m.total_supply == 0
        then (err zero_supply, s)
        else if m.lock_amount == 0
        then (err zero_lock_amount, s)
        else (let (saved, s') = save (registered id m s) in
            if saved then (ok tt, s') else (err save_failed, unregistered id s'))
  ]
]
