-- ===== src/Schedules/Service/Arming.antt =====
-- What `create` promises (backend/src/homeflow/schedules/service.py).
use homeflow.Base.{
  ℕ, ◌+◌, ◌∙◌, ◌≡◌, refl, sym, ap, subst, Bool, true, false, Option, some, List, [], ◌∷◌, String,
  ◌==◌, arith, ◌⊎◌, inl, inr, Bool-cases, Option-cases, keep,
}
use homeflow.Base.Int.{ℤ}
use homeflow.Base.Dict.{Dict, lookup, insert, IsDict, lookup-insert}
use homeflow.Auth.{Principal}
use homeflow.Commands.Models.{Action, CommandParams, RawParameters}
use homeflow.Commands.Policy.{classify, required_capability_for}
use homeflow.Commands.Service.{is_high}
use homeflow.Devices.Models.{Device, supports}
use homeflow.Devices.Registry.{require}
use homeflow.Errors.{Error, Result, ok, err, Result-cases}
use homeflow.Gateway.{Gateway}
use homeflow.Schedules.Hours.{validate_hours}
use homeflow.Schedules.Models.{Schedule, ScheduleKind, is_armed}
use homeflow.Schedules.Store.{values, armed, insert_due, sort_due, for_device, remember, settle}
use homeflow.Schedules.Store.Eviction.{remember-Keeps}
use homeflow.Schedules.Service.{
  Submitter, is_timed, is_delayed_start, deny_if, check, start_now, new_schedule, supersede,
  supersede_one, same_action, arm, create, on_parameters,
}
use homeflow.Schedules.Service.Invariant.{
  IsSound, AllTimed, Rival, In-for_device, supersede_all, insert_armed-IsSound, Keeps-IsSound,
}

pub AllTimed-values :
    (d : Dict Schedule)
    → IsDict d
    → ((i : ℕ) (s : Schedule) → lookup i d ≡ some s → is_timed s.action ≡ true)
    → AllTimed (values d)
AllTimed-values [] u h = tt
AllTimed-values ((k, t) ∷ d) u h =
    (h k t (ground arith), AllTimed-values d u.1 (λ i s e. h i s (ground arith)))

pub AllTimed-keep : (p : Schedule → Bool) (l : List Schedule) → AllTimed l → AllTimed (keep p l)
AllTimed-keep p [] h = tt
AllTimed-keep p (s ∷ l) h = ground (arith, AllTimed-keep p l h.1)

AllTimed-insert_due :
    (s : Schedule) (l : List Schedule)
    → is_timed s.action ≡ true
    → AllTimed l
    → AllTimed (insert_due s l)
AllTimed-insert_due s [] t h = (t, tt)
AllTimed-insert_due s (r ∷ l) t h = ground (arith, AllTimed-insert_due s l t h.1)

AllTimed-sort_due : (l : List Schedule) → AllTimed l → AllTimed (sort_due l)
AllTimed-sort_due [] h = tt
AllTimed-sort_due (s ∷ l) h = AllTimed-insert_due s (sort_due l) h.0 (AllTimed-sort_due l h.1)

pub AllTimed-for_device : (dev : ℕ) (d : Dict Schedule) → IsSound d → AllTimed (for_device dev d)
unfolding for_device armed
AllTimed-for_device dev d v =
    AllTimed-sort_due (keep (λ s. s.device_id == dev) (keep (λ s. is_armed s.status) (values d))) (
      AllTimed-keep (λ s. s.device_id == dev) (keep (λ s. is_armed s.status) (values d))
        (AllTimed-keep (λ s. is_armed s.status) (values d) (AllTimed-values d v.unique v.timed)))

-- A timer that was just armed: it is stored, and no other timer of its function is armed.
pub record IsArmedAlone (s : Schedule) (d : Dict Schedule) : Type 0 where
  pub sound : IsSound d
  pub stored : lookup s.id d ≡ some s
  pub alone : (i : ℕ) (t : Schedule) → lookup i d ≡ some t → Rival s.device_id s.action t → i ≡ s.id

pub arm-IsArmedAlone :
    (s : Schedule) (g : Gateway)
    → IsSound g.schedules
    → is_armed s.status ≡ true
    → is_timed s.action ≡ true
    → IsArmedAlone s (arm s g).1.schedules
unfolding arm
arm-IsArmedAlone s g v on timed =
    let list = for_device s.device_id g.schedules in
    let (clear, none_left) =
      supersede_all s.device_id s.action list g v (AllTimed-for_device s.device_id g.schedules v)
        (λ i t h r. In-for_device g.schedules i s.device_id t h r.0 r.1) in
    let d = (supersede s.action list g).schedules in
    let (kept, _) = remember-Keeps s d clear.unique in
    let full = insert_armed-IsSound d s clear timed none_left in
    let sound = Keeps-IsSound (insert s.id s d) (remember s d) kept full in
    let stored = kept.armed s.id s on (ground (arith, lookup-insert s.id s.id s d)) in
    record {
      sound = sound;
      stored = stored;
      alone = λ i t h r. sound.single i s.id t s h stored r.0 on r.1 r.2;
    }

-- What `create` asks for before it does anything.
pub record IsSchedulable (max_hours : ℕ) (d : Device) (action : Action) (kind : ScheduleKind)
    (hours : ℤ) (delay : ℕ) : Type 0 where
  pub timed : is_timed action ≡ true
  pub in_bounds : validate_hours max_hours hours ≡ some delay
  pub capable :
      supports d (required_capability_for action (CommandParams.on_off (is_delayed_start kind)))
      ≡ true

timed-released :
    (action : Action) (p : CommandParams)
    → is_timed action ≡ true
    → is_high (classify action p) ≡ false
unfolding classify
timed-released action p h = ground arith

module _ (max_hours : ℕ) (principal : Principal) (i : ℕ) (action : Action) (kind : ScheduleKind)
    (hours : ℤ) (correlation_id : String) (g : Gateway) where
  -- The guards pass and change nothing, or refuse and change the audit trail alone.
  pub check_cases :
      ((delay : ℕ) × (d : Device) × (check max_hours principal i action kind hours correlation_id g
          ≡ (ok delay, g))
        × (require g.registry i ≡ ok d)
        × IsSchedulable max_hours d action kind hours delay)
      ⊎ ((e : Error) × (h : Gateway) × (check max_hours principal i action kind hours correlation_id
              g
            ≡ (err e, h))
          × (h ≡ record g { recorded = h.recorded }))
  unfolding check
  check_cases = elim (Result-cases (require g.registry i)) [
    | inr (e, q) ↦ inr (e, g, ground arith, refl)
    | inl (d, q) ↦ elim (Bool-cases (is_timed action)) [
      | inr b ↦ inr (
        Error.capability_not_supported,
        (deny_if true principal i action correlation_id "not_schedulable"
            Error.capability_not_supported g).1,
        ground arith,
        refl,
      )
      | inl b ↦ elim (Option-cases (validate_hours max_hours hours)) [
        | inl v ↦ inr (Error.parameter_out_of_range, g, ground arith, refl)
        | inr (delay, v) ↦
            elim (Bool-cases (
              supports d
                (required_capability_for action (CommandParams.on_off (is_delayed_start kind))))) [
                  | inr c ↦ inr (
                    Error.capability_not_supported,
                    (deny_if true principal i action correlation_id "capability_not_supported"
                        Error.capability_not_supported g).1,
                    ground arith,
                    refl,
                  )
                  | inl c ↦ inl (
                    delay,
                    d,
                    ground (
                      arith,
                      timed-released action (CommandParams.on_off (is_delayed_start kind)) b,
                    ),
                    q,
                    record { timed = b; in_bounds = v; capable = c },
                  )
                ]
      ]
    ]
  ]

supersede_one-clock :
    (b : Bool) (s : Schedule) (g : Gateway) → (supersede_one b s g).clock ≡ g.clock
unfolding settle
supersede_one-clock true s g = refl
supersede_one-clock false s g = refl

supersede-clock :
    (action : Action) (l : List Schedule) (g : Gateway) → (supersede action l g).clock ≡ g.clock
unfolding supersede
supersede-clock action [] g = refl
supersede-clock action (s ∷ l) g =
    supersede-clock action l (supersede_one (same_action s.action action) s g)
    ∙ supersede_one-clock (same_action s.action action) s g

arm-clock : (s : Schedule) (g : Gateway) → (arm s g).1.clock ≡ g.clock
unfolding arm
arm-clock s g = supersede-clock s.action (for_device s.device_id g.schedules) g

supersede_one-commands :
    (b : Bool) (s : Schedule) (g : Gateway) → (supersede_one b s g).commands ≡ g.commands
unfolding settle
supersede_one-commands true s g = refl
supersede_one-commands false s g = refl

supersede-commands :
    (action : Action) (l : List Schedule) (g : Gateway)
    → (supersede action l g).commands ≡ g.commands
unfolding supersede
supersede-commands action [] g = refl
supersede-commands action (s ∷ l) g =
    supersede-commands action l (supersede_one (same_action s.action action) s g)
    ∙ supersede_one-commands (same_action s.action action) s g

pub arm-commands : (s : Schedule) (g : Gateway) → (arm s g).1.commands ≡ g.commands
unfolding arm
arm-commands s g = supersede-commands s.action (for_device s.device_id g.schedules) g

-- What a call of `create` returns, and the store then.
abbrev pub Created : ℕ → ℕ → ℕ → Action → ScheduleKind → ℤ → Result Schedule × Gateway → Type 0
Created max_hours new_id i action kind hours (err e, g) = IsSound g.schedules
Created max_hours new_id i action kind hours (ok s, g) =
    (s.id ≡ new_id)
    × (s.device_id ≡ i)
    × (s.action ≡ action)
    × (is_timed action ≡ true)
    × (s.desired ≡ is_delayed_start kind)
    × (s.kind ≡ kind)
    × (is_armed s.status ≡ true)
    × (s.created_at ≡ g.clock)
    × ((delay : ℕ) × (validate_hours max_hours hours ≡ some delay) × (s.due_at ≡ g.clock + delay))
    × IsArmedAlone s g.schedules

-- How `create` goes on after its guards, and after the switch-on.
module _ (submit : Submitter) (max_hours new_id : ℕ) (p : Principal) (i : ℕ) (action : Action)
    (kind : ScheduleKind) (hours : ℤ) (c : String) (g : Gateway) where
  pub create_refused :
      (e : Error) (h : Gateway)
      → check max_hours p i action kind hours c g ≡ (err e, h)
      → create submit max_hours new_id p i action kind hours c g ≡ (err e, h)
  unfolding create
  create_refused e h q = ground arith

  pub create_not_started :
      (delay : ℕ) (e : Error)
      → check max_hours p i action kind hours c g ≡ (ok delay, g)
      → (start_now submit kind p i action c g).0 ≡ err e
      → create submit max_hours new_id p i action kind hours c g
        ≡ (err e, (start_now submit kind p i action c g).1)
  unfolding create
  create_not_started delay e q r = ground arith

  pub create_arms :
      (delay : ℕ) (command_id : Option ℕ)
      → check max_hours p i action kind hours c g ≡ (ok delay, g)
      → (start_now submit kind p i action c g).0 ≡ ok command_id
      → let h = (start_now submit kind p i action c g).1 in
        create submit max_hours new_id p i action kind hours c g
        ≡ arm (new_schedule new_id p i action kind delay c command_id h.clock) h
  unfolding create
  create_arms delay command_id q r = ground arith

-- A submitter that keeps the invariant of the timers, whatever it is asked, and whatever other tasks
-- do while it waits.
abbrev pub SubmitsSoundly : Submitter → Type 0
SubmitsSoundly submit =
    (p : Principal) (i : ℕ) (action : Action) (raw : RawParameters) (c : String) (g : Gateway)
    → IsSound g.schedules
    → IsSound (submit p i action raw c g).1.schedules

module _ (submit : Submitter) (submits : SubmitsSoundly submit) where
  start_now-IsSound :
      (kind : ScheduleKind) (p : Principal) (i : ℕ) (action : Action) (c : String) (g : Gateway)
      → IsSound g.schedules
      → IsSound (start_now submit kind p i action c g).1.schedules
  unfolding start_now
  start_now-IsSound ScheduleKind.delayed_start p i action c g v = v
  start_now-IsSound ScheduleKind.run_for p i action c g v =
      let state : (submit p i action (on_parameters true) c g).1.schedules
          ≡ (start_now submit ScheduleKind.run_for p i action c g).1.schedules =
        ground arith in
      subst IsSound state (submits p i action (on_parameters true) c g v)

  module _ (max_hours new_id : ℕ) (p : Principal) (i : ℕ) (action : Action) (kind : ScheduleKind)
      (hours : ℤ) (c : String) (g : Gateway) where
    created :
        (delay : ℕ) (command_id : Option ℕ) (h : Gateway)
        → IsSound h.schedules
        → is_timed action ≡ true
        → validate_hours max_hours hours ≡ some delay
        → Created max_hours new_id i action kind hours
            (arm (new_schedule new_id p i action kind delay c command_id h.clock) h)
    unfolding arm new_schedule
    created delay command_id h v timed bounds =
        let s = new_schedule new_id p i action kind delay c command_id h.clock in
        (
          refl,
          refl,
          refl,
          timed,
          refl,
          refl,
          refl,
          sym (arm-clock s h),
          (delay, bounds, rw (arm-clock s h) refl),
          arm-IsArmedAlone s h v refl timed,
        )

    -- Where the submitter keeps the invariant of the timers, so does `create`. If it returns, the timer
    -- is armed, of the kind asked for, and switches a timed function of the device, off for RUN_FOR and
    -- on for DELAYED_START. It was made at the time at which `create` returns and falls due the accepted
    -- delay after it. It is stored, and it is the only armed timer of its function.
    pub create-Created :
        IsSound g.schedules
        → Created max_hours new_id i action kind hours
            (create submit max_hours new_id p i action kind hours c g)
    create-Created v = elim (check_cases max_hours p i action kind hours c g) [
      | inr (e, h, q, same) ↦
          rw (create_refused submit max_hours new_id p i action kind hours c g e h q)
            (subst IsSound (ap (λ (x : Gateway). x.schedules) (sym same)) v)
      | inl (delay, d, q, there, asked) ↦
          let h = (start_now submit kind p i action c g).1 in
          let u = start_now-IsSound kind p i action c g v in
          elim (Result-cases (start_now submit kind p i action c g).0) [
            | inr (e, r) ↦
                rw
                  (create_not_started submit max_hours new_id p i action kind hours c g delay e q r)
                  u
            | inl (command_id, r) ↦
                rw
                  (create_arms submit max_hours new_id p i action kind hours c g delay command_id q
                    r)
                  (created delay command_id h u asked.timed asked.in_bounds)
          ]
    ]
