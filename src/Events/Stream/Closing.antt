-- ===== src/Events/Stream/Closing.antt =====
-- How the writer ends when the reader has closed the subscription.
use homeflow.Base.{
  ℕ, zero, suc, ◌≡◌, refl, ap, sym, subst, Bool, true, false, Option, none, some, List, [], ◌∷◌,
  ◌++◌, map, if◌then◌else◌, arith,
}
use homeflow.Base.Dict.{lookup, insert, lookup-insert}
use homeflow.Events.Bus.{
  EventBus, Subscription, Next, anext, is_full, put, on_object, unsubscribe, close_open, close,
}
use homeflow.Events.Models.{DomainEvent}
use homeflow.Events.Stream.{Sent, Writer, Peer, conclude, turn, go_on, forward}

-- A peer that stays.
abbrev pub here : ℕ → List Peer
here zero = []
here (suc n) = (true, true) ∷ here n

-- A turn for each queued event, and `n` more.
abbrev pub turns : List DomainEvent → ℕ → List Peer
turns [] n = here n
turns (e ∷ es) n = (true, true) ∷ turns es n

abbrev pub pings : ℕ → List Sent
pings zero = []
pings (suc n) = Sent.ping ∷ pings n

-- What the peer gets for a queue of events: the note that some were dropped comes first.
abbrev pub frames : Bool → List DomainEvent → List Sent
frames lagged [] = []
frames false (e ∷ es) = Sent.frame e ∷ frames false es
frames true (e ∷ es) = Sent.resync_required ∷ Sent.frame e ∷ frames false es

abbrev closing : Subscription → Subscription
closing s = put none (record s { is_closed = true })

changed :
    (f : Subscription → Subscription) (i : ℕ) (s : Subscription) (b : EventBus)
    → lookup i b.objects ≡ some s
    → lookup i (on_object f i b).objects ≡ some (f s)
changed f i s b h =
    let e : lookup i (insert i (f s) b.objects) ≡ some (f s) =
      ground (arith, lookup-insert i i (f s) b.objects) in
    subst
      (λ o.
        lookup i
          (elim o as (λ _. EventBus) [
            | none ↦ b
            | some t ↦ record b { objects = insert i (f t) b.objects }
          ]).objects
        ≡ some (f s))
      (sym h) e

stored :
    (i : ℕ) (s : Subscription) (b : EventBus)
    → lookup i b.objects ≡ some s
    → s.is_closed ≡ false
    → lookup i (close i b).objects ≡ some (closing s)
stored i s b h o =
    let b' = on_object (λ t. record t { is_closed = true }) i b in
    let e =
      changed (put none) i (record s { is_closed = true }) (unsubscribe i b')
        (changed (λ t. record t { is_closed = true }) i s b h) in
    subst
      (λ c.
        lookup i (elim c as (λ _. EventBus) [ none ↦ b | some t ↦ close_open i t b ]).objects
        ≡ some (closing s))
      (sym h)
      (subst
        (λ x.
          lookup i (if x then b else on_object (put none) i (unsubscribe i b')).objects
          ≡ some (closing s))
        (sym o) e)

module _ (maxsize : ℕ) (is_closed : Bool) where
  abbrev object : List (Option DomainEvent) → Bool → Subscription
  object queue lagged = record {
    maxsize = maxsize;
    queue = queue;
    is_lagged = lagged;
    is_closed = is_closed;
  }

  idle :
      (n : ℕ) (lagged : Bool) → (forward (here n) (object [] lagged)).0 ≡ (pings n, Writer.running)
  unfolding forward turn
  idle zero lagged = refl
  idle (suc n) lagged = ap (λ (x : List Sent × Writer). (Sent.ping ∷ x.0, x.1)) (idle n lagged)

  drain_open :
      (es : List DomainEvent) (n : ℕ) (lagged : Bool)
      → (forward (turns es n) (object (map some es) lagged)).0
        ≡ (frames lagged es ++ pings n, Writer.running)
  unfolding forward turn
  drain_open [] n lagged = idle n lagged
  drain_open (e ∷ es) n false =
      ap (λ (x : List Sent × Writer). (Sent.frame e ∷ x.0, x.1)) (drain_open es n false)
  drain_open (e ∷ es) n true =
      ap (λ (x : List Sent × Writer). (Sent.resync_required ∷ Sent.frame e ∷ x.0, x.1))
        (drain_open es n false)

  drain_marked :
      (es : List DomainEvent) (n : ℕ) (lagged : Bool)
      → (forward (turns es (suc n)) (object (map some es ++ none ∷ []) lagged)).0
        ≡ (frames lagged es, Writer.finished)
  unfolding forward turn
  drain_marked [] n lagged = refl
  drain_marked (e ∷ es) n false =
      ap (λ (x : List Sent × Writer). (Sent.frame e ∷ x.0, x.1)) (drain_marked es n false)
  drain_marked (e ∷ es) n true =
      ap (λ (x : List Sent × Writer). (Sent.resync_required ∷ Sent.frame e ∷ x.0, x.1))
        (drain_marked es n false)

-- What the writer does with a subscription that is closed with these events in its queue, when the
-- peer stays for a turn for each of them and `n` more and at least one.
abbrev pub ending : Bool → Bool → List DomainEvent → ℕ → List Sent × Writer
ending true lagged es n = (frames lagged es ++ pings (suc n), Writer.running)
ending false lagged es n = (frames lagged es, Writer.finished)

drained :
    (s : Subscription) (es : List DomainEvent) (n : ℕ)
    → s.queue ≡ map some es
    → (forward (turns es (suc n)) (closing s)).0 ≡ ending (is_full s) s.is_lagged es n
drained s es n q = go (is_full s)
  where
    full : List (Option DomainEvent) → Subscription
    full queue = object s.maxsize true queue s.is_lagged

    go :
        (b : Bool)
        → (forward (turns es (suc n)) (if b then full s.queue else full (s.queue ++ none ∷ []))).0
          ≡ ending b s.is_lagged es n
    go true = rw q (drain_open s.maxsize true es (suc n) s.is_lagged)
    go false = rw q (drain_marked s.maxsize true es n s.is_lagged)

gone_turn :
    (still : Bool) (r : Next × Subscription) → (conclude (false, still) r).0.1 ≡ Writer.finished
gone_turn still (Next.waits, s) = refl
gone_turn still (Next.stops, s) = refl
gone_turn still (Next.yields e, s) = ground arith

stops_there :
    (again : Subscription → (List Sent × Writer) × Subscription)
    (r : (List Sent × Writer) × Subscription)
    → r.0.1 ≡ Writer.finished
    → (go_on again r).0.1 ≡ Writer.finished
stops_there again ((out, w), s) h = ground arith

stops_later :
    (again : Subscription → (List Sent × Writer) × Subscription)
    (r : (List Sent × Writer) × Subscription)
    → ((s : Subscription) → (again s).0.1 ≡ Writer.finished)
    → (go_on again r).0.1 ≡ Writer.finished
stops_later again ((out, Writer.finished), s) h = refl
stops_later again ((out, Writer.running), s) h = h s

-- At a peer that is gone at the first send of some turn the writer ends there at the latest, whatever
-- its subscription holds.
gone_ends :
    (peers later : List Peer) (still : Bool) (s : Subscription)
    → (forward (peers ++ (false, still) ∷ later) s).0.1 ≡ Writer.finished
unfolding forward turn
gone_ends [] later still s =
    stops_there (forward later) (turn (false, still) s) (gone_turn still (anext s))
gone_ends (peer ∷ peers) later still s =
    stops_later (forward (peers ++ (false, still) ∷ later)) (turn peer s)
      (gone_ends peers later still)

-- An open subscription whose queue holds events alone is closed. While the peer stays: with room in
-- the queue the writer sends the events in order, the note of a loss before the first, and then ends;
-- with a full queue the mark that should end it is dropped, and after the same frames it sends a ping
-- in every further turn. A peer that is gone at the first send of some turn ends it in either case.
pub close_ends :
    (i : ℕ) (s : Subscription) (b : EventBus) (es : List DomainEvent) (n : ℕ)
    → lookup i b.objects ≡ some s
    → s.is_closed ≡ false
    → s.queue ≡ map some es
    → (s' : Subscription) × (lookup i (close i b).objects ≡ some s')
      × ((forward (turns es (suc n)) s').0 ≡ ending (is_full s) s.is_lagged es n)
      × ((peers later : List Peer) (still : Bool)
          → (forward (peers ++ (false, still) ∷ later) s').0.1 ≡ Writer.finished)
close_ends i s b es n h o q = (
  closing s,
  stored i s b h o,
  drained s es n q,
  λ peers later still. gone_ends peers later still (closing s),
)
