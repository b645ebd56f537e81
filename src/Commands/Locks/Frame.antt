-- ===== src/Commands/Locks/Frame.antt =====
-- What `_device_lock` leaves alone (backend/src/homeflow/commands/service.py).
use homeflow.Base.{ℕ, ◌≡◌, arith}
use homeflow.Commands.Locks.{device_lock}
use homeflow.Gateway.{Gateway}

-- The table of locks apart, the gateway is as it was.
pub device_lock_frame :
    (i : ℕ) (g : Gateway)
    → (device_lock i g).1
      ≡ record g { locks = (device_lock i g).1.locks; next_lock = (device_lock i g).1.next_lock }
unfolding device_lock
device_lock_frame i g = ground arith
