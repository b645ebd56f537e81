-- ===== src/Tests/Parts.antt =====
-- Runs of the theorems on the parts at the edges: lock table, frames, tickets, limits and queues.
use homeflow.Base.{
  ℕ, zero, suc, ◌+◌, ◌*◌, ◌≤◌, ◌≡◌, ◌≢◌, refl, Bool, true, false, some, none, List, [], ◌∷◌, ◌++◌,
  arith, length,
}
use homeflow.Base.Dict.{Dict, IsDict, lookup}
use homeflow.Auth.Tickets.{TicketStore, issue, redeem, max_outstanding, ticket_ttl}
use homeflow.Auth.Tickets.SingleUse.{issue_bounded, redeem-issue, redeem_once}
use homeflow.Audit.{AuditEntry, Context}
use homeflow.Auth.Registry.{RegisteredClient, principal, authenticate}
use homeflow.Auth.Registry.Credentials.{Holds, authenticate_sound}
use homeflow.Bestway.Datapoints.{
  Datapoint, Datapoint-discrete, DatapointProfile, Value, airjet_19byte_profile, encode_control,
  may_write,
}
use homeflow.Bestway.Datapoints.Gate.{IsOneChange, encode_control_gated}
use homeflow.Bestway.Protocol.{
  Frame,
  encode,
  encode_varint,
  decode_frame,
  feed,
  Parse.{done, refused},
}
use homeflow.Bestway.Protocol.RoundTrip.{IsSendable, decode_frame-encode, decode_frame-encode_long}
use homeflow.Bestway.Protocol.Reader.{stream, feed-stream}
use homeflow.Commands.Locks.{device_lock}
use homeflow.Commands.Locks.Exclusion.{device_lock_evicts}
use homeflow.Errors.{Error, ok, err}
use homeflow.Events.Bus.{EventBus, Subscription, close}
use homeflow.Events.Stream.{Peer, Writer, forward}
use homeflow.Events.Stream.Closing.{ending, turns, close_ends}
use homeflow.Events.Bus.Lag.{offers, offers_keep_newest}
use homeflow.Events.Models.{DomainEvent, EventType, Payload}
use homeflow.Gateway.{Gateway}
use homeflow.RateLimit.{allow, RateLimiter, new_limiter, token}
use homeflow.RateLimit.Budget.{run, Spares, run_bounded}
use homeflow.Tests.{gateway, user}

abbrev fill : ℕ → Dict ℕ
fill zero = []
fill (suc n) = (n, n) ∷ fill n

fill_above : (k n : ℕ) → n ≤ k → lookup k (fill n) ≡ none
fill_above k zero h = refl
fill_above k (suc n) h = ground (arith, fill_above k n)

fill-IsDict : (n : ℕ) → IsDict (fill n)
fill-IsDict zero = tt
fill-IsDict (suc n) = (fill_above n n (omega arith), fill-IsDict n)

length-fill : (n : ℕ) → length (fill n) ≡ n
length-fill zero = refl
length-fill (suc n) = omega (arith, length-fill n)

abbrev crowded : Gateway
crowded = record gateway { locks = fill 256; next_lock = 256 }

device_lock_evicts_example : (device_lock 255 (device_lock 300 crowded).1).0 ≢ 255
device_lock_evicts_example =
    device_lock_evicts crowded 255 255 300 (fill 255) refl (fill-IsDict 256)
      (omega (arith, length-fill 256)) (fill_above 300 256 (omega arith)) (omega arith)

abbrev control : Frame
control = record { command = 147; payload = 1 ∷ 200 ∷ []; flag = 0 }

control-IsSendable : IsSendable control
control-IsSendable = (omega arith, omega arith, omega arith)

decode_frame-encode_example :
    (bytes : List ℕ) × (encode control ≡ some bytes)
    × (decode_frame (bytes ++ 0 ∷ []) ≡ done (control, length bytes))
decode_frame-encode_example = decode_frame-encode control (0 ∷ []) control-IsSendable (omega arith)

abbrev zeros : ℕ → List ℕ
zeros zero = []
zeros (suc n) = 0 ∷ zeros n

length-zeros : (n : ℕ) → length (zeros n) ≡ n
length-zeros zero = refl
length-zeros (suc n) = omega (arith, length-zeros n)

abbrev bulky : Frame
bulky = record { command = 147; payload = zeros 2046; flag = 0 }

decode_frame-encode_long_example :
    (bytes : List ℕ) × (encode bulky ≡ some bytes) × (decode_frame (bytes ++ []) ≡ refused)
decode_frame-encode_long_example =
    decode_frame-encode_long bulky [] (omega (arith, length-zeros 2046), omega arith, omega arith)
      (omega (arith, length-zeros 2046))

two_frames : length (stream (control ∷ control ∷ [])) ≤ 8192
unfolding encode encode_varint
two_frames = omega arith

feed-stream_example :
    feed [] (stream (control ∷ control ∷ [])) ≡ (some (control ∷ control ∷ []), [])
feed-stream_example =
    feed-stream (control ∷ control ∷ [])
      ((control-IsSendable, omega arith), ((control-IsSendable, omega arith), tt)) two_frames

abbrev no_tickets : TicketStore
no_tickets = record { ttl = ticket_ttl; tickets = [] }

abbrev digest : List ℕ → ℕ
digest [] = 0
digest (c ∷ cs) = suc c

redeem-issue_example :
    (redeem digest (some (8 ∷ 9 ∷ [])) 2000 (issue digest (8 ∷ 9 ∷ []) user 1000 no_tickets).1).0
    ≡ ok user
redeem-issue_example = redeem-issue digest 8 (9 ∷ []) user 1000 2000 no_tickets tt

issue_bounded_example :
    IsDict (issue digest (8 ∷ 9 ∷ []) user 1000 no_tickets).1.tickets
    × (length (issue digest (8 ∷ 9 ∷ []) user 1000 no_tickets).1.tickets ≤ max_outstanding)
issue_bounded_example = issue_bounded digest (8 ∷ 9 ∷ []) user 1000 no_tickets tt (omega arith)

redeem_once_example :
    (redeem digest
      (some (8 ∷ 9 ∷ []))
      3000
      (redeem digest
        (some (8 ∷ 9 ∷ []))
        2000
        (issue digest (8 ∷ 9 ∷ []) user 1000 no_tickets).1).1).0
    ≡ err Error.unauthenticated
redeem_once_example =
    redeem_once digest (some (8 ∷ 9 ∷ [])) 2000 3000
      (issue digest (8 ∷ 9 ∷ []) user 1000 no_tickets).1 user
      (issue_bounded digest (8 ∷ 9 ∷ []) user 1000 no_tickets tt (omega arith)).0
      (redeem-issue digest 8 (9 ∷ []) user 1000 2000 no_tickets tt)

abbrev limiter : RateLimiter
limiter = new_limiter 60 none 1024

others_spare : Spares 1 ((2, 1000) ∷ (1, 2000) ∷ []) (allow 1 1000 limiter).1
unfolding allow
others_spare = (refl, (refl, tt))

-- The other key has its own bucket, which does not evict that of the first.
run_bounded_example :
    (run 1 ((1, 1000) ∷ (2, 1000) ∷ (1, 2000) ∷ []) limiter).0 * token ≤ limiter.burst + 1000 * 60
run_bounded_example =
    run_bounded 1 1000 ((2, 1000) ∷ (1, 2000) ∷ []) limiter refl (omega arith, (omega arith, tt))
      others_spare

abbrev event : ℕ → DomainEvent
event n = record {
  type = EventType.device_state_changed;
  occurred_at = n;
  device_id = some 7;
  command_id = none;
  correlation_id = none;
  payload = Payload.empty;
}

abbrev narrow : Subscription
narrow = record { maxsize = 2; queue = []; is_lagged = false; is_closed = false }

offers_keep_newest_example :
    ((offers (event 1 ∷ event 2 ∷ event 3 ∷ []) narrow).queue
      ≡ some (event 2) ∷ some (event 3) ∷ [])
    × ((offers (event 1 ∷ event 2 ∷ event 3 ∷ []) narrow).is_lagged ≡ true)
offers_keep_newest_example =
    offers_keep_newest (event 1 ∷ event 2 ∷ event 3 ∷ []) narrow refl (omega arith) (omega arith)

abbrev unlocked_profile : DatapointProfile
unlocked_profile = record airjet_19byte_profile { trusted = true; writable = Datapoint.heater ∷ [] }

abbrev status : List ℕ
status = 3 ∷ 65 ∷ 30 ∷ zeros 16

heater_on :
    encode_control unlocked_profile Datapoint.heater (Value.flag true) status
    ≡ some (2, 67 ∷ 30 ∷ zeros 12)
unfolding encode_control may_write Datapoint-discrete
heater_on = refl

encode_control_gated_example :
    (may_write unlocked_profile Datapoint.heater ≡ true)
    × IsOneChange unlocked_profile Datapoint.heater (Value.flag true) status (67 ∷ 30 ∷ zeros 12)
encode_control_gated_example =
    encode_control_gated unlocked_profile Datapoint.heater (Value.flag true) status 2
      (67 ∷ 30 ∷ zeros 12) heater_on

abbrev resident : RegisteredClient
resident = record {
  client_id = 2;
  user_id = 1;
  display_name = "Ada";
  token_sha256 = 9;
  revoked = false;
}

abbrev secret : List ℕ
secret = 8 ∷ []

resident_let_in : authenticate digest (resident ∷ []) (some secret) ≡ ok (principal resident)
unfolding authenticate
resident_let_in = refl

authenticate_sound_example :
    (c : RegisteredClient) × (secret ≢ [])
    × Holds 9 (resident ∷ []) c
    × (principal resident ≡ principal c)
authenticate_sound_example =
    authenticate_sound digest (resident ∷ []) (some secret) (principal resident) resident_let_in

abbrev entry : ℕ → AuditEntry
entry n = record {
  occurred_at = n;
  event = "command.requested";
  actor_user_id = none;
  actor_client_id = none;
  device_id = none;
  command_id = none;
  action = none;
  risk_class = none;
  outcome = none;
  correlation_id = none;
  context = Context.empty;
}

-- A queue of two that is full when its reader closes it.
abbrev stalled : EventBus
stalled = record {
  queue_size = 2;
  subscribers = 0 ∷ [];
  objects = (0, record narrow { queue = some (event 1) ∷ some (event 2) ∷ [] }) ∷ [];
  next = 1;
}

close_ends_example :
    (s' : Subscription) × (lookup 0 (close 0 stalled).objects ≡ some s')
    × ((forward (turns (event 1 ∷ event 2 ∷ []) 3) s').0
        ≡ ending true false (event 1 ∷ event 2 ∷ []) 2)
    × ((peers later : List Peer) (still : Bool)
        → (forward (peers ++ (false, still) ∷ later) s').0.1 ≡ Writer.finished)
close_ends_example =
    close_ends 0 (record narrow { queue = some (event 1) ∷ some (event 2) ∷ [] }) stalled
      (event 1 ∷ event 2 ∷ []) 2 refl refl refl
