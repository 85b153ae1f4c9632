-- ===== src/TokenState/Reset.antt =====
-- Loading, and the methods of cmd/token_state.go that take the mutex while it may be held:
-- `GetSnapshot`, `saveState` and `ResetToGenesis`. Go's RWMutex is not reentrant: `RLock` waits for
-- a writer to leave, also for one in the same call, and `Lock` waits for everybody.
use shadowyapparatus.Prelude.{ℕ, Bool, false, Option, none, some, [], if◌then◌else◌}
use shadowyapparatus.TokenState.{
  TokenState, TokenStateSnapshot, absent, garbled, holds, Disk, create_snapshot,
  save_state_with_snapshot,
}

pub data Mutex : Type 0 where
  free : Mutex
  reading : ℕ → Mutex
  writing : Mutex

-- `blocked` is a call that waits for good, since nobody else can release the mutex.
pub data Call (A : Type 0) : Type 0 where
  returns : A → Call A
  blocked : Call A

unfoldable pub get_snapshot : ℕ → Mutex → TokenState → Call TokenStateSnapshot
unfolding create_snapshot
get_snapshot height free s = returns (create_snapshot height s)
get_snapshot height (reading n) s = returns (create_snapshot height s)
get_snapshot height writing s = blocked

-- saveState: whether the write succeeded, and the state after it.
unfoldable pub save_state : Mutex → TokenState → Call (Bool × TokenState)
unfolding get_snapshot save_state_with_snapshot
save_state m s = elim (get_snapshot 0 m s) [
  | blocked ↦ blocked
  | returns snapshot ↦ returns (save_state_with_snapshot snapshot s)
]

-- Empty tables, and the directory removed or, where `os.RemoveAll` fails, left as it is.
unfoldable pub cleared : Bool → TokenState → TokenState
cleared removed s = record {
  tokens = [];
  balances = [];
  locked_shadow = [];
  disk = record {
    file = if removed then absent else s.disk.file;
    moments = s.disk.moments;
    reread = s.disk.reread;
  };
}

-- ResetToGenesis from where it has the mutex, with what `os.RemoveAll` and `os.MkdirAll` answer.
unfoldable pub reset_to_genesis : Bool → Bool → TokenState → Call (Bool × TokenState)
unfolding cleared save_state
reset_to_genesis removed mkdir s =
    if mkdir then save_state writing (cleared removed s) else returns (false, cleared removed s)

-- loadState: `none` is an error, which leaves the state as it was. JSON's null maps become empty.
unfoldable pub load_state : TokenState → Option TokenState
load_state s = elim s.disk.file [
  | absent ↦ some s
  | garbled ↦ none
  | holds written ↦ elim (s.disk.reread written) [
    | none ↦ none
    | some snapshot ↦ some (record s {
      tokens = snapshot.tokens;
      balances = snapshot.balances;
      locked_shadow = snapshot.locked_shadow;
    })
  ]
]

-- NewTokenState on a directory that exists: a file that cannot be loaded is passed over.
unfoldable pub new_token_state : Disk → TokenState
unfolding load_state
new_token_state disk =
    let fresh : TokenState = record {
      tokens = [];
      balances = [];
      locked_shadow = [];
      disk = disk;
    } in
    elim (load_state fresh) [ none ↦ fresh | some s ↦ s ]
