-- ===== src/Commands/Locks/Exclusion.antt =====
-- Which lock a device gets, and when it changes (backend/src/homeflow/commands/service.py).
use homeflow.Base.{
  ℕ, ◌+◌, ◌≤◌, ◌<◌, ◌≡◌, ◌≢◌, subst, ◌∙◌, List, [], ◌∷◌, some, none, arith, length, Option-cases,
  inl, inr,
}
use homeflow.Base.Dict.{
  Dict, lookup, insert, move_to_end, IsDict, insert-IsDict, move_to_end-IsDict, lookup-insert,
  lookup-move_to_end, length-insert, length-move_to_end,
}
use homeflow.Commands.Locks.{device_lock, max_device_locks}
use homeflow.Gateway.{Gateway}

module _ (g : Gateway) (unique : IsDict g.locks) where
  -- A device that has a lock gets that lock.
  device_lock_hit : (d l : ℕ) → lookup d g.locks ≡ some l → (device_lock d g).0 ≡ l
  unfolding device_lock
  device_lock_hit d l h = ground arith

  -- While the table has room, every device keeps its lock, and the table grows by one at most.
  device_lock_keeps :
      (d j l : ℕ)
      → length g.locks < max_device_locks
      → lookup j g.locks ≡ some l
      → (lookup j (device_lock d g).1.locks ≡ some l)
        × (length (device_lock d g).1.locks ≤ length g.locks + 1)
        × IsDict (device_lock d g).1.locks
  unfolding device_lock
  device_lock_keeps d j l room h = elim (Option-cases (lookup d g.locks)) [
    | inl e ↦
        let new = insert d g.next_lock g.locks in
        let u = insert-IsDict d g.next_lock g.locks unique in
        ground (
          arith,
          lookup-move_to_end j d new u,
          lookup-insert j d g.next_lock g.locks,
          length-move_to_end d new,
          length-insert d g.next_lock g.locks,
          move_to_end-IsDict d new u,
        )
    | inr (m, e) ↦ ground (
      arith,
      lookup-move_to_end j d g.locks unique,
      length-move_to_end d g.locks,
      move_to_end-IsDict d g.locks unique,
    )
  ]

-- The calls of `_device_lock` for a sequence of devices.
abbrev pub lock_all : List ℕ → Gateway → Gateway
lock_all [] g = g
lock_all (d ∷ ds) g = lock_all ds (device_lock d g).1

-- A device that has a lock is given the same lock again after any calls of `_device_lock` for other
-- devices, if the locks in the table and these calls together are at most 256.
device_lock_stable :
    (g : Gateway) (d l : ℕ) (others : List ℕ)
    → IsDict g.locks
    → lookup d g.locks ≡ some l
    → length g.locks + length others ≤ max_device_locks
    → (device_lock d (lock_all others g)).0 ≡ l
device_lock_stable g d l [] u h room = device_lock_hit g u d l h
device_lock_stable g d l (j ∷ others) u h room =
    let (kept, grown, unique) = device_lock_keeps g u j d l (omega arith) h in
    device_lock_stable (device_lock j g).1 d l others unique kept (omega arith)

-- When the table is full, a call for a device that has no lock evicts the first entry, and nothing
-- is asked about who holds its lock: the next call for the evicted device gives a different lock, if
-- the old one was made before (its number is below the next one).
pub device_lock_evicts :
    (g : Gateway) (old l new : ℕ) (rest : Dict ℕ)
    → g.locks ≡ (old, l) ∷ rest
    → IsDict g.locks
    → max_device_locks ≤ length g.locks
    → lookup new g.locks ≡ none
    → l < g.next_lock
    → (device_lock old (device_lock new g).1).0 ≢ l
unfolding device_lock
device_lock_evicts g old l new rest e u full fresh young =
    let table = insert new g.next_lock rest in
    let u' : IsDict ((old, l) ∷ rest) = subst IsDict e u in
    let gone : lookup old (move_to_end new table) ≡ none =
      lookup-move_to_end old new table (insert-IsDict new g.next_lock rest u'.1)
      ∙ ground (arith, lookup-insert old new g.next_lock rest) in
    ground arith
