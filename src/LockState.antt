-- ===== src/LockState.antt =====
-- The daemon's lock states: crates/daemon/src/domain/lock_state.rs.
use veila.Prelude.{Bool, true, false}
use Prim.Native.String.{String}

pub data LockState : Type 0 where
  unlocked locking locked unlocking : LockState

abbrev pub is_active : LockState → Bool
is_active unlocked = false
is_active locking = true
is_active locked = true
is_active unlocking = true

-- `Display`
unfoldable pub to_string : LockState → String
to_string unlocked = "unlocked"
to_string locking = "locking"
to_string locked = "locked"
to_string unlocking = "unlocking"
