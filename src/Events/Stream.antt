-- ===== src/Events/Stream.antt =====
-- The WebSocket stream of one client (backend/src/homeflow/api/v1/ws.py). The writer sends what its
-- subscription yields, the reader watches what the client sends. A turn of the writer is one wait of
-- its loop; whether the peer is still there is a choice of the environment at every send.
pub mod Closing
use homeflow.Base.{
  ℕ, Bool, true, false, not, ◌||◌, ◌&&◌, Option, none, some, List, [], ◌∷◌, ◌++◌, ltb, ◌==◌,
  if◌then◌else◌,
}
use homeflow.Events.Bus.{Subscription, Next, anext, take_lagged}
use homeflow.Events.Models.{DomainEvent}

pub data Sent : Type 0 where
  ping resync_required : Sent
  frame : DomainEvent → Sent

pub data Writer : Type 0 where
  running finished : Writer

-- Whether the peer is there at the first and the second send of a turn.
abbrev pub Peer : Type 0
Peer = Bool × Bool

-- `_send`: what arrives at the peer, and whether the writer goes on.
abbrev pub deliver : Bool → Sent → List Sent × Writer
deliver true m = (m ∷ [], Writer.running)
deliver false m = ([], Writer.finished)

abbrev pub deliver_event : Bool → Peer → DomainEvent → List Sent × Writer
deliver_event false (here, _) e = deliver here (Sent.frame e)
deliver_event true (false, _) e = ([], Writer.finished)
deliver_event true (true, false) e = (Sent.resync_required ∷ [], Writer.finished)
deliver_event true (true, true) e = (Sent.resync_required ∷ Sent.frame e ∷ [], Writer.running)

-- One turn of `_forward`. A wait that does not end before the heartbeat sends a ping.
abbrev pub conclude : Peer → Next × Subscription → (List Sent × Writer) × Subscription
conclude peer (Next.waits, s) = (deliver peer.0 Sent.ping, s)
conclude peer (Next.stops, s) = (([], Writer.finished), s)
conclude peer (Next.yields e, s) =
    let (lagged, s') = take_lagged s in (deliver_event lagged peer e, s')

unfoldable pub turn : Peer → Subscription → (List Sent × Writer) × Subscription
turn peer s = conclude peer (anext s)

abbrev pub go_on :
    (Subscription → (List Sent × Writer) × Subscription)
    → (List Sent × Writer) × Subscription
    → (List Sent × Writer) × Subscription
go_on again ((out, Writer.finished), s) = ((out, Writer.finished), s)
go_on again ((out, Writer.running), s) = let ((rest, w), s') = again s in ((out ++ rest, w), s')

-- `_forward` for as many turns as there are peers.
unfoldable pub forward : List Peer → Subscription → (List Sent × Writer) × Subscription
forward [] s = (([], Writer.running), s)
forward (peer ∷ peers) s = go_on (forward peers) (turn peer s)
