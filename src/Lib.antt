-- ===== src/Lib.antt =====
-- Verification of the HomeFlow gateway (backend/src/homeflow).
--
-- HomeFlow is a gateway between the clients of a household and the adapters of its device
-- providers. A client asks `CommandService.submit` to act on a device; the pipeline validates the
-- request against the policy table, asks the provider once, and records the outcome. What a provider
-- reports comes in through `DeviceService.ingest`, which merges it into the registry and publishes
-- what has changed on the event bus. Timers are commands that the gateway submits later by itself.
-- A WebSocket client logs in with a ticket, a rate limiter bounds what a client may ask, and the
-- AirJet adapter speaks a framed protocol with its controller.
--
-- Base: names that all files share, Boolean tests, lists, integers, and Python's dict (Base/Dict).
-- Capabilities, Errors, Auth, Audit, Integrations, Events/Models, Commands/Models, Devices/Models,
--   Schedules/Models: the data of backend/src/homeflow/{capabilities/models, errors, auth/models,
--   audit/log, integrations/base, events/models, commands/models, devices/models,
--   schedules/models}.py, with the constructors and fields of the source.
-- Errors: also the monad of a method: it returns or raises, and what it has written stays written.
-- Gateway: the state that the services share, and what the gateway is wired with.
-- Devices/Registry: devices/registry.py (DeviceRegistry). Registry/Consistent: its invariant.
-- Devices/Service: devices/service.py (bootstrap, ingest, _with_derived, _publish_transitions).
--   Service/Observed: what ingest promises, apart from the code.
-- Commands/Policy, Commands/Reconcile: commands/policy.py and commands/reconcile.py.
-- Commands/Records, Commands/Locks, Commands/Execution, Commands/Service: commands/service.py
--   (_create, _finish, _remember, _publish, _audit_denied; _device_lock; _execute and _reconcile;
--   get, submit, _validate, _check_constraints).
-- Commands/Sound: the invariant of the state under the pipeline. Execution/Outcome, Execution/Trace,
--   Service/Admission, Service/Submit, Service/Safety: how a submission ends and what it leaves.
-- Schedules/Hours, Schedules/Store, Schedules/Service: schedules/service.py (_validate_hours; the
--   store, _settle, _remember, _due; create, cancel, fire and one turn of run).
--   Service/Pipeline: the command pipeline as the submitter of the timers.
-- Events/Bus: events/bus.py (Subscription, EventBus).
-- Auth/Tickets: auth/tickets.py (TicketStore). Auth/Registry: auth/registry.py (authenticate).
-- Audit/Log: audit/log.py (InMemoryAuditLog). RateLimit: ratelimit.py (RateLimiter).
-- Bestway/Protocol: integrations/bestway/protocol.py (frames, varints, FrameReader, fields).
-- Bestway/Datapoints: integrations/bestway/datapoints.py (decode, encode_control, the layouts);
--   Datapoints/Units: conversions; Datapoints/Release: the validators, and container.py
--   (build_bestway_profile).
-- Integrations/Flow: integrations/base/errors.py, and chains of calls that return or raise.
-- Bestway/Client: integrations/bestway/client.py (BestwayClient). Client/Quiet: what it writes.
-- Bestway/Provider: integrations/bestway/provider.py (BestwayProvider); Provider/Execution: execute;
--   Provider/Polling: subscribe. Provider/WriteOnce, Provider/Confirmed, Provider/Outage: what they do.
-- HomeAssistant/Entities, HomeAssistant/States: integrations/home_assistant/entities.py.
-- HomeAssistant/Matching, HomeAssistant/Provider, HomeAssistant/Execution:
--   integrations/home_assistant/provider.py (HomeAssistantProvider).
-- Events/Stream: api/v1/ws.py (_send, _forward).
-- Demo/Simulation, Demo/Household: integrations/demo/provider.py (DemoProvider).
-- Weather: integrations/weather/provider.py (OpenMeteoProvider), over a script of answers.
-- Settings: config/settings.py (_fail_closed), auth/registry.py (build_client_registry) and
--   container.py (build_providers).
-- Tests: a sample household, and every theorem applied to it.
--
-- How the code is read. Identifiers, names of providers and keys of the limiter are numbers, since
-- they are only compared. A moment is a number of microseconds, a temperature an integer number of
-- thousandths of a degree, a number of hours one of thousand-millionths, and a token of the limiter
-- sixty million parts, so that arithmetic is exact where the source uses floats. A byte is a number
-- below 256.
-- One event loop runs every task, so between two awaits a task runs alone and the clock stands
-- still. What other tasks do while a submission waits is a function on the state that `Attempt`
-- holds; how the provider answers is a value of it. Theorems ask of these functions that they keep
-- the invariant, and where it matters that they write nothing.
-- What the network does to an adapter is a script in its state: whether the next connections and
-- writes succeed, what the next reads give, how the next calls are answered. Past its end a read
-- waits until the deadline and a call is not answered.
-- What libraries do is a parameter: pydantic's coercion of JSON values, the hash behind tickets and
-- identifiers, the random identifiers and tickets, `float` of a text, and the numbers that stand for
-- entity ids.
-- Recursion on fuel stands in three places: `evict` (as many rounds as timers), `drain` (as many as
-- bytes in the buffer), and the four bytes that a varint may have, which are the source's own bound.
-- The loops over attempts, chunks and frames are structural recursion.
-- Not modelled: the HTTP API and the reader of a stream, the client programs, the connection to Home
-- Assistant, the parsing of settings, logging, and, but for the weather adapter, the sleeps between
-- two turns of a loop or two attempts.
pub mod Base
pub mod Capabilities
pub mod Errors
pub mod Auth
pub mod Audit
pub mod Devices
pub mod Events
pub mod Integrations
pub mod Gateway
pub mod RateLimit
pub mod Bestway
pub mod HomeAssistant
pub mod Demo
pub mod Weather
pub mod Settings
pub mod Commands
pub mod Schedules
pub mod Tests
