-- ===== src/Commands/Records/Frame.antt =====
-- What `_finish` does, as one equation (backend/src/homeflow/commands/service.py).
use mathlib.Core.List.{append-nil}
use homeflow.Base.{◌≡◌, refl, Option, none, some, List, [], ◌∷◌, ◌++◌, String, ℕ}
use homeflow.Commands.Models.{Command, CommandStatus, with_status}
use homeflow.Commands.Records.{store, finish, completed_entry, completion_event, command_event}
use homeflow.Errors.{ok}
use homeflow.Events.Models.{DomainEvent, EventType}
use homeflow.Gateway.{Gateway}

-- The events of a completion: one, or none where the table has no entry.
abbrev pub completion_events : Option EventType → Command → ℕ → List DomainEvent
completion_events none c now = []
completion_events (some t) c now = command_event t c now ∷ []

abbrev pub after_finish : Command → CommandStatus → Option String → Gateway → Gateway
after_finish c status code g =
    let finished = with_status c status g.clock code in
    record g {
      commands = store finished g.commands;
      recorded = g.recorded ++ completed_entry finished status code g.clock ∷ [];
      published = g.published ++ completion_events (completion_event status) finished g.clock;
    }

pub finish_lem :
    (c : Command) (status : CommandStatus) (code : Option String) (g : Gateway)
    → finish c status code g
      ≡ (ok (with_status c status g.clock code), after_finish c status code g)
unfolding finish
finish_lem c CommandStatus.succeeded code g = refl
finish_lem c CommandStatus.failed code g = refl
finish_lem c CommandStatus.unknown code g = refl
finish_lem c _ code g = rw (append-nil g.published)
