-- ===== src/Gateway.antt =====
-- The state that the gateway's services share. One event loop runs every task, so between two
-- awaits a task runs alone; the clock stands still there. The calls of `EventBus.publish` and of
-- `AuditSink.record`, and the calls that reach a provider, are kept in the order they are made.
use homeflow.Base.{ℕ, Bool, List, [], ◌∷◌, ◌++◌}
use homeflow.Base.Dict.{Dict}
use homeflow.Audit.{AuditEntry}
use homeflow.Commands.Models.{Coercion, Command}
use homeflow.Devices.Registry.{DeviceRegistry, Identity}
use homeflow.Errors.{Method, modify}
use homeflow.Events.Models.{DomainEvent}
use homeflow.Integrations.{ProviderCommand, ProviderDeviceRef}
use homeflow.Schedules.Models.{Schedule}

pub record Gateway : Type 0 where
  -- `Clock.now()`
  pub clock : ℕ
  pub registry : DeviceRegistry
  -- `CommandService._commands`
  pub commands : Dict Command
  -- `CommandService._locks`: which lock a device has; a new lock takes the next number.
  pub locks : Dict ℕ
  pub next_lock : ℕ
  -- `ScheduleService._schedules`
  pub schedules : Dict Schedule
  pub published : List DomainEvent
  pub recorded : List AuditEntry
  pub writes : List (ProviderDeviceRef × ProviderCommand)
  pub reads : List ProviderDeviceRef

-- What the gateway is built with, and what libraries do for it.
pub record Wiring : Type 0 where
  pub identity : Identity
  pub coercion : Coercion
  -- `provider in self._providers`
  pub has_provider : ℕ → Bool

abbrev pub Call : Type 0 → Type 0
Call = Method Gateway

-- `self._bus.publish(event)`
abbrev pub publish : DomainEvent → Call (Unit {0})
publish e = modify (λ g. record g { published = g.published ++ e ∷ [] })

-- `self._audit.record(entry)`
abbrev pub record_entry : AuditEntry → Call (Unit {0})
record_entry e = modify (λ g. record g { recorded = g.recorded ++ e ∷ [] })
