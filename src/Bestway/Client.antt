-- ===== src/Bestway/Client.antt =====
-- The connection to the controller (backend/src/homeflow/integrations/bestway/client.py). What the
-- network does is a script that the client's state holds: whether the next connections and writes
-- succeed, and what the next reads give. A read past the script waits until the deadline. The
-- deadline of a request runs while a frame is awaited; the peer's stream is closed with its writer.
pub mod Quiet
use homeflow.Base.{
  ℕ, zero, suc, ◌+◌, ◌%◌, Bool, true, false, not, ◌||◌, Option, none, some, List, [], ◌∷◌, ◌++◌,
  ◌==◌, if◌then◌else◌,
}
use homeflow.Bestway.Protocol.{Frame, encode, feed}
use homeflow.Integrations.Flow.{Failure, Outcome, returned, failed, Flow, returns, ◌>>=◌, or_fail}
use homeflow.Bestway.Protocol.Fields.{
  encode_length_prefixed, decode_length_prefixed, build_control_payload,
}

-- What `reader.read` gives: bytes (none of them when the peer has closed), or an `OSError`.
pub data Read : Type 0 where
  chunk : List ℕ → Read
  os_error : Read

pub record Client : Type 0 where
  pub is_connected : Bool
  pub buffer : List ℕ
  pub pending : List Frame
  pub passcode : List ℕ
  pub sequence : ℕ
  -- The frames written to the socket, and what the network does next.
  pub sent : List Frame
  pub connects : List Bool
  pub drains : List Bool
  pub reads : List Read

abbrev pub Talk : Type 0 → Type 0
Talk A = Flow Client A

abbrev pub request : ℕ → List ℕ → Frame
request command payload = record { command = command; payload = payload; flag = 0 }

-- `close`
unfoldable pub close : Client → Client
close c = record c { is_connected = false; passcode = [] }

-- The end of `_send`: the frame is written, and the drain may fail.
abbrev pub drain_sent : List Bool → Client → Outcome (Unit {0}) × Client
drain_sent [] c = (returned tt, c)
drain_sent (true ∷ ds) c = (returned tt, record c { drains = ds })
drain_sent (false ∷ ds) c = (failed Failure.unavailable, record c { drains = ds })

abbrev pub write_frame : Option (List ℕ) → Frame → Talk (Unit {0})
write_frame none f c = (failed Failure.protocol_error, c)
write_frame (some bytes) f c = drain_sent c.drains (record c { sent = c.sent ++ f ∷ [] })

-- `_send`
unfoldable pub send : Frame → Talk (Unit {0})
send f c = if c.is_connected then write_frame (encode f) f c else (failed Failure.unavailable, c)

abbrev pub heartbeat_request : ℕ
heartbeat_request = 21

abbrev pub heartbeat_response : ℕ
heartbeat_response = 22

-- An unsolicited frame: a heartbeat is answered, anything else is passed over.
unfoldable pub unsolicited : Frame → Talk (Unit {0})
unsolicited f =
    if f.command == heartbeat_request then send (request heartbeat_response []) else returns tt

-- The loop of `_exchange` on top of the one of `_next_frame`: the frames that are pending, then what
-- is read. The frames and the reads that are left stay with the client.
unfoldable pub await_frame : ℕ → List Read → List Frame → Talk (List ℕ)
await_frame wanted reads (f ∷ fs) c =
    let (o, c') = unsolicited f (record c { pending = fs; reads = reads }) in
    let rest = await_frame wanted reads fs c' in
    if f.command == wanted
    then (returned f.payload, record c { pending = fs; reads = reads })
    else elim o [ returned _ ↦ rest | failed e ↦ (failed e, c') ]
await_frame wanted [] [] c = (failed Failure.timed_out, record c { pending = []; reads = [] })
await_frame wanted (Read.os_error ∷ reads) [] c =
    (failed Failure.unavailable, record c { pending = []; reads = reads })
await_frame wanted (Read.chunk [] ∷ reads) [] c =
    (failed Failure.unavailable, record c { pending = []; reads = reads })
await_frame wanted (Read.chunk (b ∷ bs) ∷ reads) [] c =
    let (frames, left) = feed c.buffer (b ∷ bs) in
    elim frames [
      | none ↦ (failed Failure.misbehaved, record c { pending = []; reads = reads; buffer = left })
      | some fs ↦ await_frame wanted reads fs (record c { buffer = left })
    ]

-- `except TimeoutError` of `_exchange`.
abbrev pub in_time : {A : Type 0} → Outcome A × Client → Outcome A × Client
in_time (failed Failure.timed_out, c) = (failed Failure.unavailable, c)
in_time (o, c) = (o, c)

-- What `_exchange` awaits after it has sent the request.
unfoldable pub await_answer : ℕ → Talk (List ℕ)
await_answer wanted c = in_time (await_frame wanted c.reads c.pending c)

-- `_exchange`
unfoldable pub exchange : Frame → ℕ → Talk (List ℕ)
exchange f wanted = send f >>= λ _. await_answer wanted

-- The login of `connect` with the passcode that the controller gave.
unfoldable pub enter : List ℕ → Talk (Unit {0})
enter passcode c =
    (or_fail (encode_length_prefixed passcode) Failure.protocol_error >>= λ field.
    exchange (request 8 field) 9 >>= λ _. returns tt)
      (record c { passcode = passcode })

unfoldable pub login : Talk (Unit {0})
login = exchange (request 6 []) 7 >>= λ answer.
    or_fail (decode_length_prefixed answer) Failure.protocol_error >>= enter

-- `except Exception: await self.close(); raise`
abbrev pub close_on_failure : {A : Type 0} → Outcome A × Client → Outcome A × Client
close_on_failure (returned a, c) = (returned a, c)
close_on_failure (failed e, c) = (failed e, close c)

abbrev pub connect_with : List Bool → Talk (Unit {0})
connect_with [] c = (failed Failure.unavailable, c)
connect_with (false ∷ cs) c = (failed Failure.unavailable, record c { connects = cs })
connect_with (true ∷ cs) c =
    close_on_failure
      (login (record c { connects = cs; is_connected = true; buffer = []; pending = [] }))

unfoldable pub connect : Talk (Unit {0})
connect c = connect_with c.connects (close c)

unfoldable pub read_status : Talk (List ℕ)
read_status = exchange (request 144 (2 ∷ [])) 145

abbrev pub control_request : ℕ
control_request = 147

unfoldable pub send_control : ℕ → List ℕ → Talk (Unit {0})
send_control attr_flags attr_vals c =
    let c' = record c { sequence = (c.sequence + 1) % 4294967296 } in
    (or_fail (build_control_payload c'.sequence attr_flags attr_vals) Failure.protocol_error
        >>= λ payload. send (request control_request payload))
      c'
