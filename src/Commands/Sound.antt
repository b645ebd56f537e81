-- ===== src/Commands/Sound.antt =====
-- The invariant of the gateway's state under the command pipeline
-- (backend/src/homeflow/commands/service.py), and that the bookkeeping keeps it.
use homeflow.Base.{
  ℕ, ◌≤◌, ◌≡◌, refl, subst, Option, none, some, String, arith, length, sym, inl, inr, Option-cases,
}
use homeflow.Base.Dict.{
  Dict, lookup, insert, move_to_end, IsDict, insert-IsDict, move_to_end-IsDict, trim-IsDict,
  length-trim, lookup-move_to_end-insert,
}
use homeflow.Commands.Execution.{Attempt}
use homeflow.Commands.Models.{Command, CommandStatus, with_status}
use homeflow.Commands.Records.{max_tracked_commands, store, finish}
use homeflow.Commands.Records.Frame.{finish_lem}
use homeflow.Devices.Models.{Device, StateSource}
use homeflow.Devices.Registry.{Identity, id_for_ref, updated}
use homeflow.Devices.Registry.Consistent.{IsConsistent, replace-IsConsistent}
use homeflow.Devices.Service.{ingest}
use homeflow.Devices.Service.Frame.{observed, ingest_lem, ingest_unknown}
use homeflow.Errors.{Result, ok}
use homeflow.Gateway.{Gateway}
use homeflow.Integrations.{ProviderDeviceRef, ProviderState}

-- A bounded store of commands, and a registry whose maps agree.
pub record IsSound (u : Identity) (g : Gateway) : Type 0 where
  pub registry : IsConsistent u g.registry
  pub commands : IsDict g.commands
  pub bounded : length g.commands ≤ max_tracked_commands

-- What other tasks do while a submission waits keeps the invariant.
pub record Keeps (u : Identity) (a : Attempt) : Type 0 where
  pub locked_out : (g : Gateway) → IsSound u g → IsSound u (a.while_locked_out g)
  pub executing : (g : Gateway) → IsSound u g → IsSound u (a.while_executing g)
  pub reading : (g : Gateway) → IsSound u g → IsSound u (a.while_reading g)

pub store-IsDict : (c : Command) (d : Dict Command) → IsDict d → IsDict (store c d)
store-IsDict c d h =
    trim-IsDict max_tracked_commands (move_to_end c.id (insert c.id c d))
      (move_to_end-IsDict c.id (insert c.id c d) (insert-IsDict c.id c d h))

pub length-store : (c : Command) (d : Dict Command) → length (store c d) ≤ max_tracked_commands
length-store c d = length-trim max_tracked_commands (move_to_end c.id (insert c.id c d))

pub lookup-store :
    (i : ℕ) (c : Command) (d : Dict Command) → c.id ≡ i → IsDict d → lookup i (store c d) ≡ some c
lookup-store i c d e h =
    subst (λ j. lookup j (store c d) ≡ some c) e
      (lookup-move_to_end-insert max_tracked_commands c.id c d (omega arith) h)

-- What a change of status leaves, and what it sets.
pub with_status-id :
    (c : Command) (status : CommandStatus) (at : ℕ) (code : Option String)
    → (with_status c status at code).id ≡ c.id
unfolding with_status
with_status-id c status at code = ground arith

pub with_status-status :
    (c : Command) (status : CommandStatus) (at : ℕ) (code : Option String)
    → (with_status c status at code).status ≡ status
unfolding with_status
with_status-status c status at code = ground arith

pub with_status-action :
    (c : Command) (status : CommandStatus) (at : ℕ) (code : Option String)
    → (with_status c status at code).action ≡ c.action
unfolding with_status
with_status-action c status at code = ground arith

pub with_status-code :
    (c : Command) (status : CommandStatus) (at : ℕ) (code : Option String)
    → (with_status c status at code).failure_code ≡ code
unfolding with_status
with_status-code c status at code = ground arith

-- The invariant reads the registry and the commands alone.
pub same-IsSound :
    (u : Identity) (g h : Gateway)
    → h.registry ≡ g.registry
    → h.commands ≡ g.commands
    → IsSound u g
    → IsSound u h
same-IsSound u g h r c s = record {
  registry = subst (IsConsistent u) (sym r) s.registry;
  commands = subst IsDict (sym c) s.commands;
  bounded = rw c s.bounded;
}

-- How a command ended: its status and its failure code.
abbrev pub Ending : Type 0
Ending = CommandStatus × Option String

-- A call that ends with a finished command, which the store holds.
pub record Concluded (u : Identity) (id : ℕ) (o : Ending) (r : Result Command × Gateway)
    : Type 0 where
  pub command : Command
  pub returned : r.0 ≡ ok command
  pub same_id : command.id ≡ id
  pub status : command.status ≡ o.0
  pub failure_code : command.failure_code ≡ o.1
  pub held : lookup id r.1.commands ≡ some command
  pub sound : IsSound u r.1

module _ (u : Identity) (g : Gateway) (s : IsSound u g) where
  pub remember-IsSound : (c : Command) → IsSound u (record g { commands = store c g.commands })
  remember-IsSound c = record {
    registry = s.registry;
    commands = store-IsDict c g.commands s.commands;
    bounded = length-store c g.commands;
  }

  pub finish-Concluded :
      (c : Command) (status : CommandStatus) (code : Option String)
      → Concluded u c.id (status, code) (finish c status code g)
  finish-Concluded c status code =
      let e = with_status-id c status g.clock code in
      rw (finish_lem c status code g) (record {
        command = with_status c status g.clock code;
        returned = refl;
        same_id = e;
        status = with_status-status c status g.clock code;
        failure_code = with_status-code c status g.clock code;
        held = lookup-store c.id (with_status c status g.clock code) g.commands e s.commands;
        sound = record {
          registry = s.registry;
          commands = store-IsDict (with_status c status g.clock code) g.commands s.commands;
          bounded = length-store (with_status c status g.clock code) g.commands;
        };
      })

  -- An observation returns, and keeps the invariant.
  pub ingest-IsSound :
      (ref : ProviderDeviceRef) (seen : ProviderState) (source : StateSource) (c : Option String)
      → (d : Option Device) × ((ingest ref seen source c g).0 ≡ ok d)
        × IsSound u (ingest ref seen source c g).1
        × ((ingest ref seen source c g).1 ≡ record g {
          registry = (ingest ref seen source c g).1.registry;
          published = (ingest ref seen source c g).1.published;
        })
  unfolding updated
  ingest-IsSound ref seen source c = elim (Option-cases (id_for_ref g.registry ref)) [
    | inl e ↦ rw (ingest_unknown ref seen source c g e) (none, refl, s, refl)
    | inr (i, e) ↦
        let (before, there, _) = s.registry.known ref i e in
        let (handle, found) = s.registry.handled i before there in
        rw (ingest_lem ref seen source c g i before e there) (
          some (observed g.clock before seen source),
          refl,
          record {
            registry =
                replace-IsConsistent u g.registry s.registry i (observed g.clock before seen source)
                  (s.registry.ids i before there) handle found;
            commands = s.commands;
            bounded = s.bounded;
          },
          refl,
        )
  ]
