-- ===== src/Schedules/Service/Firing.antt =====
-- What firing a timer promises (backend/src/homeflow/schedules/service.py).
use homeflow.Base.{
  ℕ, ◌≡◌, ◌≢◌, ◌↔◌, refl, ap, subst, ◌∙◌, Bool, true, false, Option, none, some, List, [], ◌∷◌,
  String, ◌==◌, arith, ◌⊎◌, inl, inr, Bool-cases, keep, leb, if◌then◌else◌,
}
use homeflow.Auth.{Principal}
use homeflow.Base.Dict.{Dict, lookup, IsDict, lookup-insert}
use homeflow.Commands.Models.{Command, CommandStatus}
use homeflow.Errors.{Result, ok, err, Result-cases, problem_type}
use homeflow.Gateway.{Gateway}
use homeflow.Schedules.Models.{Schedule, ScheduleStatus, is_armed, settled}
use homeflow.Schedules.Store.{values, armed, due, settle}
use homeflow.Schedules.Service.{
  Submitter, is_timed, on_parameters, principal_of, fired_status, fire, fire_safely, fire_all,
  pair_up, tick,
}
use homeflow.Schedules.Service.Invariant.{IsSound, In, AllTimed, insert_settled-IsSound}
use homeflow.Schedules.Service.Arming.{SubmitsSoundly, AllTimed-keep, AllTimed-values}

-- How a timer ends, by what the command pipeline made of its one command.
abbrev pub timer_status : Result Command → ScheduleStatus
timer_status (ok c) = fired_status c.status
timer_status (err e) = ScheduleStatus.failed

abbrev error_code : Option String → Option String
error_code none = some "internal_error"
error_code (some code) = some code

abbrev pub timer_code : Result Command → Option String
timer_code (ok c) = c.failure_code
timer_code (err e) = error_code (problem_type e)

abbrev pub timer_command : Result Command → Option ℕ
timer_command (ok c) = some c.id
timer_command (err e) = none

abbrev pub fired : Schedule → Result Command → Schedule
fired s r = settled s (timer_status r) (timer_code r) (timer_command r)

-- What the answer to its request makes of a timer.
abbrev pub Ends : Result Command → ScheduleStatus → Type 0
Ends (err e) status = status ≡ ScheduleStatus.failed
Ends (ok c) status =
    ((c.status ≡ CommandStatus.succeeded) ↔ (status ≡ ScheduleStatus.completed))
    × ((c.status ≡ CommandStatus.unknown) ↔ (status ≡ ScheduleStatus.unknown))
    × (c.status ≢ CommandStatus.succeeded
        → c.status ≢ CommandStatus.unknown
        → status ≡ ScheduleStatus.failed)

fired_status_lem : (c : Command) → Ends (ok c) (fired_status c.status)
fired_status_lem c = ground arith

fired-Ends : (s : Schedule) (r : Result Command) → Ends r (fired s r).status
unfolding settled
fired-Ends s (ok c) = fired_status_lem c
fired-Ends s (err e) = refl

pub lookup-settle :
    (s : Schedule) (status : ScheduleStatus) (code : Option String) (command : Option ℕ)
    (actor : Option Principal) (g : Gateway) (j : ℕ)
    → lookup j (settle s status code command actor g).1.schedules
      ≡ (if j == s.id then some (settled s status code command) else lookup j g.schedules)
unfolding settle settled
lookup-settle s status code command actor g j =
    lookup-insert j s.id (settled s status code command) g.schedules

pub settle-IsSound :
    (s : Schedule) (status : ScheduleStatus) (code : Option String) (command : Option ℕ)
    (actor : Option Principal) (g : Gateway)
    → IsSound g.schedules
    → is_armed status ≡ false
    → is_timed s.action ≡ true
    → IsSound (settle s status code command actor g).1.schedules
unfolding settle settled
settle-IsSound s status code command actor g v off timed =
    insert_settled-IsSound g.schedules (settled s status code command) v off timed

module _ (submit : Submitter) (s : Schedule) (g : Gateway) where
  -- The one request of the timer, and the gateway after it.
  abbrev pub answer : Result Command × Gateway
  answer = submit (principal_of s) s.device_id s.action (on_parameters s.desired) s.correlation_id g

  fire_safely_lem :
      fire_safely submit s g
      ≡ (settle s
          (timer_status answer.0)
          (timer_code answer.0)
          (timer_command answer.0)
          none
          answer.1).1
  unfolding fire_safely fire settle
  fire_safely_lem = elim (Result-cases answer.0) [
    | inl (c, e) ↦ ground arith
    | inr (x, e) ↦ ground arith
  ]

  pub lookup-fire_safely :
      (j : ℕ)
      → lookup j (fire_safely submit s g).schedules
        ≡ (if j == s.id then some (fired s answer.0) else lookup j answer.1.schedules)
  lookup-fire_safely j = rw fire_safely_lem (
      lookup-settle s (timer_status answer.0) (timer_code answer.0) (timer_command answer.0) none
        answer.1 j)

  -- A timer that fires makes one request, with its own switch position, and is settled by the
  -- answer: COMPLETED for a command that succeeded, UNKNOWN for one whose outcome is unknown, and
  -- FAILED for any other command and for any exception. Every other timer is as the request left it.
  pub fire_safely_settles :
      (j : ℕ)
      → (lookup j (fire_safely submit s g).schedules
          ≡ (if j == s.id then some (fired s answer.0) else lookup j answer.1.schedules))
        × Ends answer.0 (fired s answer.0).status
  fire_safely_settles j = (lookup-fire_safely j, fired-Ends s answer.0)

fired-settled : (s : Schedule) (r : Result Command) → is_armed (fired s r).status ≡ false
unfolding settled
fired-settled s (ok c) = ground arith
fired-settled s (err e) = refl

timer_status-settled : (r : Result Command) → is_armed (timer_status r) ≡ false
timer_status-settled (ok c) = ground arith
timer_status-settled (err e) = refl

fire_safely-IsSound :
    (submit : Submitter) (s : Schedule) (g : Gateway)
    → SubmitsSoundly submit
    → is_timed s.action ≡ true
    → IsSound g.schedules
    → IsSound (fire_safely submit s g).schedules
fire_safely-IsSound submit s g submits timed v =
    let r = answer submit s g in
    rw (fire_safely_lem submit s g) (
      settle-IsSound s (timer_status r.0) (timer_code r.0) (timer_command r.0) none r.1
        (submits (principal_of s) s.device_id s.action (on_parameters s.desired) s.correlation_id g
          v)
        (timer_status-settled r.0) timed)

fire_all-IsSound :
    (submits : ℕ → Submitter) (l : List Schedule) (g : Gateway)
    → ((i : ℕ) → SubmitsSoundly (submits i))
    → AllTimed l
    → IsSound g.schedules
    → IsSound (fire_all (pair_up submits l) g).schedules
unfolding fire_all
fire_all-IsSound submits [] g sound timed v = v
fire_all-IsSound submits (s ∷ l) g sound timed v =
    fire_all-IsSound submits l (fire_safely (submits s.id) s g) sound timed.1
      (fire_safely-IsSound (submits s.id) s g (sound s.id) timed.0 v)

-- Where every submitter keeps the invariant of the timers, one turn of the loop keeps it: timers stand
-- under their identifiers, switch timed functions, and at most one of a function is armed.
pub tick-IsSound :
    (submits : ℕ → Submitter) (g : Gateway)
    → ((i : ℕ) → SubmitsSoundly (submits i))
    → IsSound g.schedules
    → IsSound (tick submits g).schedules
unfolding tick due armed
tick-IsSound submits g sound v =
    fire_all-IsSound submits (due g.clock g.schedules) g sound
      (AllTimed-keep (λ s. leb s.due_at g.clock)
        (keep (λ s. is_armed s.status) (values g.schedules))
        (AllTimed-keep (λ s. is_armed s.status) (values g.schedules)
          (AllTimed-values g.schedules v.unique v.timed)))
      v

In-keep-elim :
    (p : Schedule → Bool) (s : Schedule) (l : List Schedule)
    → In s (keep p l)
    → In s l × (p s ≡ true)
In-keep-elim p s [] h = absurd h
In-keep-elim p s (t ∷ l) h = elim (Bool-cases (p t)) [
  | inr e ↦ ground (arith, In-keep-elim p s l)
  | inl e ↦
      split e (subst (λ b. In s (if b then t ∷ keep p l else keep p l)) e h) (In-keep-elim p s l)
]
  where
    split :
        p t ≡ true
        → (s ≡ t) ⊎ In s (keep p l)
        → (In s (keep p l) → In s l × (p s ≡ true))
        → In s (t ∷ l) × (p s ≡ true)
    split e (inl q) rest = (inl q, ap p q ∙ e)
    split e (inr r) rest = (inr (rest r).0, (rest r).1)

In-values-lookup :
    (d : Dict Schedule) (s : Schedule)
    → IsDict d
    → ((i : ℕ) (t : Schedule) → lookup i d ≡ some t → t.id ≡ i)
    → In s (values d)
    → lookup s.id d ≡ some s
In-values-lookup [] s u keyed h = absurd h
In-values-lookup ((k, t) ∷ d) s u keyed (inl e) =
    let first : lookup k ((k, t) ∷ d) ≡ some t = ground arith in
    ground (arith, keyed k t first, ap (λ (x : Schedule). x.id) e)
In-values-lookup ((k, t) ∷ d) s u keyed (inr h) =
    let keyed' : (i : ℕ) (r : Schedule) → lookup i d ≡ some r → r.id ≡ i =
      λ i r f. keyed i r (ground arith) in
    ground (arith, In-values-lookup d s u.1 keyed' h)

-- Where the submitter keeps the invariant of the timers, no timer that is due after a timed function's
-- timer has fired, at any moment, has the identifier of the fired one.
pub fired_once :
    (submit : Submitter) (s : Schedule) (g : Gateway) (now : ℕ) (t : Schedule)
    → SubmitsSoundly submit
    → is_timed s.action ≡ true
    → IsSound g.schedules
    → In t (due now (fire_safely submit s g).schedules)
    → t.id ≢ s.id
unfolding due armed
fired_once submit s g now t submits timed v h =
    let d = (fire_safely submit s g).schedules in
    let sound = fire_safely-IsSound submit s g submits timed v in
    let (h1, _) =
      In-keep-elim (λ x. leb x.due_at now) t (keep (λ x. is_armed x.status) (values d)) h in
    let (h2, on) = In-keep-elim (λ x. is_armed x.status) t (values d) h1 in
    let there = In-values-lookup d t sound.unique sound.keyed h2 in
    ground (arith, lookup-fire_safely submit s g t.id, fired-settled s (answer submit s g).0)

fired-ne-cancelled :
    (s : Schedule) (r : Result Command) → (fired s r).status ≢ ScheduleStatus.cancelled
unfolding settled
fired-ne-cancelled s (ok c) = ground arith
fired-ne-cancelled s (err e) = λ q. cc

-- If the store says, after the first timer of a turn has fired, that the second one is cancelled, the
-- second one is fired in that turn all the same: it ends as the answer to its request says, and its
-- status is not that of a cancelled timer any more.
pub cancelled_still_fires :
    (first second : Submitter) (s t u : Schedule) (g : Gateway)
    → lookup t.id (fire_safely first s g).schedules ≡ some u
    → u.status ≡ ScheduleStatus.cancelled
    → let r = answer second t (fire_safely first s g) in
      (lookup t.id (fire_all ((first, s) ∷ (second, t) ∷ []) g).schedules ≡ some (fired t r.0))
      × ((fired t r.0).status ≢ ScheduleStatus.cancelled)
unfolding fire_all
cancelled_still_fires first second s t u g stored gone = (
  ground (arith, lookup-fire_safely second t (fire_safely first s g) t.id),
  fired-ne-cancelled t (answer second t (fire_safely first s g)).0,
)
