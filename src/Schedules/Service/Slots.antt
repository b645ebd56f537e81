-- ===== src/Schedules/Service/Slots.antt =====
-- The timers as a map from a function of a device to its armed timer.
use homeflow.Base.{
  ℕ, ◌≡◌, ◌≢◌, refl, sym, ap, ◌∙◌, subst, Bool, true, false, none, some, List, [], ◌∷◌, ◌==◌, arith,
  ◌⊎◌, ◌↔◌, inl, inr, Bool-cases, keep,
}
use homeflow.Base.Dict.{Dict, lookup, insert, IsDict, lookup-insert}
use homeflow.Commands.Models.{Action, Action-discrete}
use homeflow.Gateway.{Gateway}
use homeflow.Schedules.Models.{Schedule, ScheduleStatus, is_armed, settled}
use homeflow.Schedules.Store.{values, armed, insert_due, sort_due, for_device, settle, remember}
use homeflow.Schedules.Store.Eviction.{Keeps, remember-Keeps}
use homeflow.Schedules.Service.{is_timed, same_action, supersede, supersede_one, arm}
use homeflow.Schedules.Service.Arming.{arm-IsArmedAlone, AllTimed-for_device}
use homeflow.Schedules.Service.Invariant.{IsSound, Rival, In-for_device, supersede_all}

-- The armed timer of a function.
abbrev pub Fills : Dict Schedule → ℕ → Action → Schedule → Type 0
Fills d dev action t = (lookup t.id d ≡ some t) × Rival dev action t

abbrev pub IsSlot : Schedule → ℕ → Action → Type 0
IsSlot s dev action = (s.device_id ≡ dev) × (s.action ≡ action)

-- The map with one function's timer replaced.
abbrev pub Updated : Schedule → (ℕ → Action → Schedule → Type 0) → ℕ → Action → Schedule → Type 0
Updated s fills dev action t =
    ((t ≡ s) × IsSlot s dev action) ⊎ ((¬ IsSlot s dev action) × fills dev action t)

abbrev All : (Schedule → Type 0) → List Schedule → Type 0
All P [] = Unit
All P (s ∷ l) = P s × All P l

module _ (P : Schedule → Type 0) where
  All-insert_due : (s : Schedule) (l : List Schedule) → P s → All P l → All P (insert_due s l)
  All-insert_due s [] t h = (t, tt)
  All-insert_due s (r ∷ l) t h = ground (arith, All-insert_due s l t h.1)

  All-sort_due : (l : List Schedule) → All P l → All P (sort_due l)
  All-sort_due [] h = tt
  All-sort_due (s ∷ l) h = All-insert_due s (sort_due l) h.0 (All-sort_due l h.1)

  All-keep :
      (Q : Schedule → Type 0) (p : Schedule → Bool) (l : List Schedule)
      → ((s : Schedule) → Q s → p s ≡ true → P s)
      → All Q l
      → All P (keep p l)
  All-keep Q p [] f h = tt
  All-keep Q p (s ∷ l) f h = elim (Bool-cases (p s)) [
    | inl e ↦ rw e (f s h.0 e, All-keep Q p l f h.1)
    | inr e ↦ rw e (All-keep Q p l f h.1)
  ]

  All-map :
      (Q : Schedule → Type 0) (l : List Schedule) → ((s : Schedule) → Q s → P s) → All Q l → All P l
  All-map Q [] f h = tt
  All-map Q (s ∷ l) f h = (f s h.0, All-map Q l f h.1)

  All-values :
      (d : Dict Schedule)
      → IsDict d
      → ((i : ℕ) (s : Schedule) → lookup i d ≡ some s → P s)
      → All P (values d)
  All-values [] u h = tt
  All-values ((k, t) ∷ d) u h =
      (h k t (ground arith), All-values d u.1 (λ i s e. h i s (ground arith)))

-- A timer of the device that is stored.
abbrev Stored : ℕ → Dict Schedule → Schedule → Type 0
Stored dev d r = (lookup r.id d ≡ some r) × (r.device_id ≡ dev)

for_device-Stored :
    (dev : ℕ) (d : Dict Schedule) → IsSound d → All (Stored dev d) (for_device dev d)
unfolding for_device armed
for_device-Stored dev d v =
    let In : Schedule → Type 0 = λ r. lookup r.id d ≡ some r in
    let active = keep (λ s. is_armed s.status) (values d) in
    All-sort_due (Stored dev d) (keep (λ s. s.device_id == dev) active) (
      All-keep (Stored dev d) In (λ s. s.device_id == dev) active (λ s h e. (h, ground arith))
        (All-keep In In (λ s. is_armed s.status) (values d) (λ s h e. h)
          (All-values In d v.unique
            (λ i s h. subst (λ j. lookup j d ≡ some s) (sym (v.keyed i s h)) h))))

-- Superseding arms nothing.
supersede_part :
    (action : Action) (l : List Schedule) (g : Gateway) (i : ℕ) (t : Schedule)
    → lookup i (supersede action l g).schedules ≡ some t
    → is_armed t.status ≡ true
    → lookup i g.schedules ≡ some t
unfolding supersede settle settled
supersede_part action [] g i t h a = h
supersede_part action (s ∷ l) g i t h a =
    step (same_action s.action action)
      (supersede_part action l (supersede_one (same_action s.action action) s g) i t h a)
  where
    step :
        (b : Bool)
        → lookup i (supersede_one b s g).schedules ≡ some t
        → lookup i g.schedules ≡ some t
    step true e =
        let done = settled s ScheduleStatus.superseded none none in
        ground (arith, lookup-insert i s.id done g.schedules)
    step false e = e

-- It leaves the timers of other functions.
supersede_other :
    (action : Action) (l : List Schedule) (g : Gateway) (i : ℕ) (t : Schedule)
    → All (λ s. same_action s.action action ≡ true → s.id ≢ i) l
    → lookup i g.schedules ≡ some t
    → lookup i (supersede action l g).schedules ≡ some t
unfolding supersede settle settled
supersede_other action [] g i t n h = h
supersede_other action (s ∷ l) g i t n h =
    supersede_other action l (supersede_one (same_action s.action action) s g) i t n.1
      (step (same_action s.action action) n.0)
  where
    step : (b : Bool) → (b ≡ true → s.id ≢ i) → lookup i (supersede_one b s g).schedules ≡ some t
    step true other =
        let done = settled s ScheduleStatus.superseded none none in
        let ne = other refl in ground (arith, lookup-insert i s.id done g.schedules)
    step false other = h

same_action-eq : (a b : Action) → same_action a b ≡ true → a ≡ b
same_action-eq a b =
    elim (Action-discrete a b) as (λ d. (elim d [ yes _ ↦ true | no _ ↦ false ]) ≡ true → a ≡ b) [
      | yes e ↦ λ _. e
      | no _ ↦ λ h. cc
    ]

module _ (s : Schedule) (g : Gateway) (v : IsSound g.schedules) (on : is_armed s.status ≡ true)
    (timed : is_timed s.action ≡ true) (fresh : lookup s.id g.schedules ≡ none) where
  abbrev list : List Schedule
  list = for_device s.device_id g.schedules

  abbrev cleared : Dict Schedule
  cleared = (supersede s.action list g).schedules

  others :
      (t : Schedule)
      → lookup t.id g.schedules ≡ some t
      → ¬ IsSlot s t.device_id t.action
      → All (λ r. same_action r.action s.action ≡ true → r.id ≢ t.id) list
  others t h out =
      All-map (λ r. same_action r.action s.action ≡ true → r.id ≢ t.id)
        (Stored s.device_id g.schedules) list
        (λ r q same e.
          let a = same_action-eq r.action s.action same in
          let p : some r ≡ some t = sym q.0 ∙ ap (λ i. lookup i g.schedules) e ∙ h in
          let w : r ≡ t = cc in
          out (
            sym q.1 ∙ ap (λ (x : Schedule). x.device_id) w,
            sym a ∙ ap (λ (x : Schedule). x.action) w,
          ))
        (for_device-Stored s.device_id g.schedules v)

  kept : Keeps (insert s.id s cleared) (remember s cleared)
  kept =
      let (clear, _) =
        supersede_all s.device_id s.action list g v (AllTimed-for_device s.device_id g.schedules v)
          (λ i t h r. In-for_device g.schedules i s.device_id t h r.0 r.1) in
      (remember-Keeps s cleared clear.unique).0

  filled_before :
      (dev : ℕ) (action : Action) (t : Schedule)
      → Fills (arm s g).1.schedules dev action t
      → Updated s (Fills g.schedules) dev action t
  unfolding arm
  filled_before dev action t (h, r) =
      let p : lookup t.id (insert s.id s cleared) ≡ some t = kept.part t.id t h in
      elim (Bool-cases (t.id == s.id)) [
        | inl e ↦
            let q : some s ≡ some t = ground (arith, lookup-insert t.id s.id s cleared, p) in
            let w : s ≡ t = cc in
            inl (
              sym w,
              (ap (λ (x : Schedule). x.device_id) w ∙ r.1, ap (λ (x : Schedule). x.action) w ∙ r.2),
            )
        | inr e ↦
            let q : lookup t.id cleared ≡ some t =
              ground (arith, lookup-insert t.id s.id s cleared, p) in
            inr (
              λ slot.
                  let same : t.id ≡ s.id =
                    (arm-IsArmedAlone s g v on timed).alone t.id t h
                      (r.0, r.1 ∙ sym slot.0, r.2 ∙ sym slot.1) in
                  ground arith,
              (supersede_part s.action list g t.id t q r.0, r),
            )
      ]

  filled_after :
      (dev : ℕ) (action : Action) (t : Schedule)
      → Updated s (Fills g.schedules) dev action t
      → Fills (arm s g).1.schedules dev action t
  unfolding arm
  filled_after dev action t (inl (e, slot)) =
      subst (Fills (arm s g).1.schedules dev action) (sym e)
        ((arm-IsArmedAlone s g v on timed).stored, (on, slot.0, slot.1))
  filled_after dev action t (inr (out, (h, r))) =
      let far : ¬ IsSlot s t.device_id t.action = λ slot. out (slot.0 ∙ r.1, slot.1 ∙ r.2) in
      let q : lookup t.id cleared ≡ some t =
        supersede_other s.action list g t.id t (others t h far) h in
      let p : lookup t.id (insert s.id s cleared) ≡ some t =
        ground (arith, lookup-insert t.id s.id s cleared, q, fresh) in
      (kept.armed t.id t r.0 p, r)

  -- Where the timers satisfy the invariant and a new one of a timed function comes in under a new
  -- identifier, its function is filled by it and by no other timer afterwards, and every other function
  -- of every device by the timer that filled it before, if there was one. So superseding, storing and
  -- evicting implement the update of a map from functions to armed timers.
  pub arm-Refines :
      (dev : ℕ) (action : Action) (t : Schedule)
      → Fills (arm s g).1.schedules dev action t ↔ Updated s (Fills g.schedules) dev action t
  arm-Refines dev action t = (filled_before dev action t, filled_after dev action t)
