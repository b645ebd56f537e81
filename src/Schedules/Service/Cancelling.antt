-- ===== src/Schedules/Service/Cancelling.antt =====
-- What cancelling a timer promises (backend/src/homeflow/schedules/service.py).
use homeflow.Base.{ℕ, ◌≡◌, refl, true, false, none, some, arith, inl, inr, Bool-cases, Option-cases}
use homeflow.Auth.{Principal}
use homeflow.Base.Dict.{lookup}
use homeflow.Errors.{Error, ok, err}
use homeflow.Gateway.{Gateway}
use homeflow.Schedules.Models.{Schedule, ScheduleStatus, is_armed, settled}
use homeflow.Schedules.Store.{get, settle}
use homeflow.Schedules.Service.{cancel}
use homeflow.Schedules.Service.Invariant.{IsSound}
use homeflow.Schedules.Service.Firing.{lookup-settle, settle-IsSound}

module _ (p : Principal) (i : ℕ) (g : Gateway) where
  cancel_missing : lookup i g.schedules ≡ none → cancel p i g ≡ (err Error.schedule_not_found, g)
  unfolding cancel get
  cancel_missing h = ground arith

  cancel_settled :
      (s : Schedule)
      → lookup i g.schedules ≡ some s
      → is_armed s.status ≡ false
      → cancel p i g ≡ (ok s, g)
  unfolding cancel get
  cancel_settled s h off = ground arith

  cancel_armed :
      (s : Schedule)
      → lookup i g.schedules ≡ some s
      → is_armed s.status ≡ true
      → cancel p i g ≡ settle s ScheduleStatus.cancelled none none (some p) g
  unfolding cancel get
  cancel_armed s h on = ground arith

  -- `cancel` keeps the invariant of the timers. If it returns a timer, that timer is stored under the
  -- identifier and is not armed; if it raises, the state is what it was.
  pub cancel-IsSound :
      IsSound g.schedules
      → IsSound (cancel p i g).1.schedules
        × ((s : Schedule)
            → (cancel p i g).0 ≡ ok s
            → (lookup i (cancel p i g).1.schedules ≡ some s) × (is_armed s.status ≡ false))
        × ((e : Error) → (cancel p i g).0 ≡ err e → (cancel p i g).1 ≡ g)
  unfolding settled settle
  cancel-IsSound v = elim (Option-cases (lookup i g.schedules)) [
    | inl none_there ↦ rw (cancel_missing none_there) (v, (λ s h. cc), (λ e h. refl))
    | inr (t, there) ↦ elim (Bool-cases (is_armed t.status)) [
      | inr off ↦ rw (cancel_settled t there off) (v, (λ s h. ground arith), (λ e h. refl))
      | inl on ↦
          let key = v.keyed i t there in
          let kept =
            settle-IsSound t ScheduleStatus.cancelled none none (some p) g v refl
              (v.timed i t there) in
          let found = lookup-settle t ScheduleStatus.cancelled none none (some p) g i in
          rw (cancel_armed t there on) (kept, (λ s h. ground arith), (λ e h. cc))
    ]
  ]
