-- ===== src/Commands/Locks.antt =====
-- The table of device locks, `_device_lock` (backend/src/homeflow/commands/service.py).
pub mod Frame
pub mod Exclusion
use homeflow.Base.{ℕ, ◌+◌, true, false, none, some, length, leb}
use homeflow.Base.Dict.{Dict, lookup, insert, move_to_end, pop_first}
use homeflow.Errors.{ok}
use homeflow.Gateway.{Gateway, Call}

abbrev pub max_device_locks : ℕ
max_device_locks = 256

-- The lock that a device has after `_device_lock`, and the table.
add_lock : ℕ → Gateway → ℕ × Gateway
add_lock device_id g =
    let room : Dict ℕ = elim (leb max_device_locks (length g.locks)) [
      | true ↦ pop_first g.locks
      | false ↦ g.locks
    ] in
    (
      g.next_lock,
      record g {
        locks = move_to_end device_id (insert device_id g.next_lock room);
        next_lock = g.next_lock + 1;
      },
    )

unfoldable pub device_lock : ℕ → Gateway → ℕ × Gateway
unfolding add_lock
device_lock device_id g = elim (lookup device_id g.locks) [
  | none ↦ add_lock device_id g
  | some lock ↦ (lock, record g { locks = move_to_end device_id g.locks })
]

abbrev pub acquire_lock : ℕ → Call (Unit {0})
acquire_lock device_id g = (ok tt, (device_lock device_id g).1)
