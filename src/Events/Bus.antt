-- ===== src/Events/Bus.antt =====
-- Publish and subscribe (backend/src/homeflow/events/bus.py). A queue is the list of what stands in
-- it, oldest first; `none` is the mark that ends the iteration. A subscription is an object of its
-- own, so the bus keeps the subscriptions by a number each, and `_subscribers` is a list of numbers.
pub mod Lag
use homeflow.Base.{
  ℕ, suc, ◌+◌, Bool, true, false, ◌&&◌, ◌||◌, not, Option, none, some, List, [], ◌∷◌, ◌++◌, ltb,
  leb, ◌==◌, if◌then◌else◌, length,
}
use homeflow.Base.Dict.{Dict, lookup, insert}
use homeflow.Events.Models.{DomainEvent}

pub record Subscription : Type 0 where
  pub maxsize : ℕ
  pub queue : List (Option DomainEvent)
  pub is_lagged : Bool
  pub is_closed : Bool

pub record EventBus : Type 0 where
  pub queue_size : ℕ
  pub subscribers : List ℕ
  pub objects : Dict Subscription
  pub next : ℕ

-- `asyncio.Queue.full`: a queue without a positive bound is never full.
abbrev pub is_full : Subscription → Bool
is_full s = ltb 0 s.maxsize && leb s.maxsize (length s.queue)

-- `put_nowait` and `get_nowait`, their exceptions suppressed.
abbrev pub put : Option DomainEvent → Subscription → Subscription
put e s = if is_full s then s else record s { queue = s.queue ++ e ∷ [] }

abbrev pub drop_oldest : Subscription → Subscription
drop_oldest s = elim s.queue [ [] ↦ s | _ ∷ rest ↦ record s { queue = rest } ]

abbrev pub take_lagged : Subscription → Bool × Subscription
take_lagged s = (s.is_lagged, record s { is_lagged = false })

abbrev pub offer : DomainEvent → Subscription → Subscription
offer e s =
    if s.is_closed
    then s
    else if is_full s
    then put (some e) (drop_oldest (record s { is_lagged = true }))
    else put (some e) s

-- What `__anext__` gives: it waits on an empty queue, and the mark ends the iteration.
pub data Next : Type 0 where
  waits stops : Next
  yields : DomainEvent → Next

abbrev pub anext : Subscription → Next × Subscription
anext s = elim s.queue [
  | [] ↦ (Next.waits, s)
  | none ∷ rest ↦ (Next.stops, record s { queue = rest })
  | some e ∷ rest ↦ (Next.yields e, record s { queue = rest })
]

-- `list.remove`: the first of its kind; its absence is suppressed.
abbrev pub remove : ℕ → List ℕ → List ℕ
remove i [] = []
remove i (j ∷ js) = if i == j then js else j ∷ remove i js

abbrev pub subscribe : EventBus → ℕ × EventBus
subscribe b =
    let s : Subscription = record {
      maxsize = b.queue_size;
      queue = [];
      is_lagged = false;
      is_closed = false;
    } in
    (
      b.next,
      record b {
        subscribers = b.subscribers ++ b.next ∷ [];
        objects = insert b.next s b.objects;
        next = suc b.next;
      },
    )

abbrev pub unsubscribe : ℕ → EventBus → EventBus
unsubscribe i b = record b { subscribers = remove i b.subscribers }

-- A method of the subscription with a number.
abbrev pub on_object : (Subscription → Subscription) → ℕ → EventBus → EventBus
on_object f i b = elim (lookup i b.objects) [
  | none ↦ b
  | some s ↦ record b { objects = insert i (f s) b.objects }
]

abbrev pub close_open : ℕ → Subscription → EventBus → EventBus
close_open i s b =
    if s.is_closed
    then b
    else on_object (put none) i (unsubscribe i (on_object (λ o. record o { is_closed = true }) i b))

abbrev pub close : ℕ → EventBus → EventBus
close i b = elim (lookup i b.objects) [ none ↦ b | some s ↦ close_open i s b ]

abbrev pub offer_all : List ℕ → DomainEvent → EventBus → EventBus
offer_all [] e b = b
offer_all (i ∷ is) e b = offer_all is e (on_object (offer e) i b)

abbrev pub publish : DomainEvent → EventBus → EventBus
publish e b = offer_all b.subscribers e b
