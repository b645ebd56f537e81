-- ===== src/Schedules/Service/Invariant.antt =====
-- The invariant of the timers (backend/src/homeflow/schedules/service.py).
use homeflow.Base.{
  ℕ, ◌≡◌, refl, sym, ap, ◌∙◌, Bool, true, false, none, some, List, [], ◌∷◌, ◌==◌, arith, ◌⊎◌, inl,
  inr, Bool-cases, keep,
}
use homeflow.Base.Dict.{Dict, lookup, insert, IsDict, insert-IsDict, lookup-insert}
use homeflow.Commands.Models.{Action, Action-discrete}
use homeflow.Gateway.{Gateway}
use homeflow.Schedules.Models.{Schedule, ScheduleStatus, is_armed, settled}
use homeflow.Schedules.Store.{values, armed, insert_due, sort_due, for_device, settle}
use homeflow.Schedules.Store.Eviction.{Keeps}
use homeflow.Schedules.Service.{is_timed, same_action, supersede, supersede_one}

-- Every timer is stored under its identifier and switches a timed function, and of the timers of one
-- function at most one is armed.
pub record IsSound (d : Dict Schedule) : Type 0 where
  pub unique : IsDict d
  pub keyed : (i : ℕ) (s : Schedule) → lookup i d ≡ some s → s.id ≡ i
  pub timed : (i : ℕ) (s : Schedule) → lookup i d ≡ some s → is_timed s.action ≡ true
  pub single :
      (i j : ℕ) (s t : Schedule)
      → lookup i d ≡ some s
      → lookup j d ≡ some t
      → is_armed s.status ≡ true
      → is_armed t.status ≡ true
      → s.device_id ≡ t.device_id
      → s.action ≡ t.action
      → i ≡ j

-- To store a timer that is not armed keeps the invariant.
pub insert_settled-IsSound :
    (d : Dict Schedule) (s : Schedule)
    → IsSound d
    → is_armed s.status ≡ false
    → is_timed s.action ≡ true
    → IsSound (insert s.id s d)
insert_settled-IsSound d s v off timed = record {
  unique = insert-IsDict s.id s d v.unique;
  keyed = λ i t h. ground (arith, lookup-insert i s.id s d, v.keyed i t);
  timed = λ i t h. ground (arith, lookup-insert i s.id s d, v.timed i t);
  single = λ i j t r hi hj ai aj e f.
      ground (arith, lookup-insert i s.id s d, lookup-insert j s.id s d, v.single i j t r);
}

-- The timers of one function that are armed.
abbrev pub Rival : ℕ → Action → Schedule → Type 0
Rival device_id action s =
    (is_armed s.status ≡ true) × (s.device_id ≡ device_id) × (s.action ≡ action)

-- To store an armed timer keeps the invariant where no other timer of its function is armed.
pub insert_armed-IsSound :
    (d : Dict Schedule) (s : Schedule)
    → IsSound d
    → is_timed s.action ≡ true
    → ((i : ℕ) (t : Schedule) → lookup i d ≡ some t → ¬ Rival s.device_id s.action t)
    → IsSound (insert s.id s d)
insert_armed-IsSound d s v timed alone = record {
  unique = insert-IsDict s.id s d v.unique;
  keyed = λ i t h. ground (arith, lookup-insert i s.id s d, v.keyed i t);
  timed = λ i t h. ground (arith, lookup-insert i s.id s d, v.timed i t);
  single = λ i j t r hi hj ai aj e f. ground (
    arith,
    lookup-insert i s.id s d,
    lookup-insert j s.id s d,
    v.single i j t r,
    λ (p : lookup i d ≡ some t) (q : Rival s.device_id s.action t). alone i t p q,
    λ (p : lookup j d ≡ some r) (q : Rival s.device_id s.action r). alone j r p q,
  );
}

-- A part of a sound store is sound.
pub Keeps-IsSound : (d e : Dict Schedule) → Keeps d e → IsSound d → IsSound e
Keeps-IsSound d e k v = record {
  unique = k.unique;
  keyed = λ i s h. v.keyed i s (k.part i s h);
  timed = λ i s h. v.timed i s (k.part i s h);
  single = λ i j s t hi hj. v.single i j s t (k.part i s hi) (k.part j t hj);
}

abbrev pub In : Schedule → List Schedule → Type 0
In s [] = ⊥
In s (t ∷ l) = (s ≡ t) ⊎ In s l

In-values : (d : Dict Schedule) (i : ℕ) (s : Schedule) → lookup i d ≡ some s → In s (values d)
In-values [] i s h = cc
In-values ((k, t) ∷ d) i s h = elim (Bool-cases (i == k)) [
  | inl e ↦ inl (ground arith)
  | inr e ↦ inr (In-values d i s (ground arith))
]

In-keep :
    (p : Schedule → Bool) (s : Schedule) (l : List Schedule) → p s ≡ true → In s l → In s (keep p l)
In-keep p s [] a h = h
In-keep p s (t ∷ l) a (inl e) = let q : p t ≡ true = sym (ap p e) ∙ a in ground arith
In-keep p s (t ∷ l) a (inr h) = ground (arith, In-keep p s l a h)

In-insert_due : (s t : Schedule) (l : List Schedule) → (s ≡ t) ⊎ In s l → In s (insert_due t l)
In-insert_due s t [] h = h
In-insert_due s t (r ∷ l) h = ground (arith, In-insert_due s t l)

In-sort_due : (s : Schedule) (l : List Schedule) → In s l → In s (sort_due l)
In-sort_due s [] h = h
In-sort_due s (t ∷ l) (inl e) = In-insert_due s t (sort_due l) (inl e)
In-sort_due s (t ∷ l) (inr h) = In-insert_due s t (sort_due l) (inr (In-sort_due s l h))

-- `for_device` has every armed timer of the device.
pub In-for_device :
    (d : Dict Schedule) (i dev : ℕ) (s : Schedule)
    → lookup i d ≡ some s
    → is_armed s.status ≡ true
    → s.device_id ≡ dev
    → In s (for_device dev d)
unfolding for_device armed
In-for_device d i dev s h a e =
    In-sort_due s (keep (λ t. t.device_id == dev) (keep (λ t. is_armed t.status) (values d))) (
      In-keep (λ t. t.device_id == dev) s (keep (λ t. is_armed t.status) (values d)) (ground arith)
        (In-keep (λ t. is_armed t.status) s (values d) a (In-values d i s h)))

-- Every rival that is stored stands in the list.
abbrev pub Listed : ℕ → Action → List Schedule → Dict Schedule → Type 0
Listed dev action l d = (i : ℕ) (s : Schedule) → lookup i d ≡ some s → Rival dev action s → In s l

abbrev pub AllTimed : List Schedule → Type 0
AllTimed [] = Unit
AllTimed (s ∷ l) = (is_timed s.action ≡ true) × AllTimed l

same_action_refl : (a : Action) → same_action a a ≡ true
same_action_refl a =
    elim (Action-discrete a a) as (λ d. elim d [ yes _ ↦ true | no _ ↦ false ] ≡ true) [
      | yes _ ↦ refl
      | no n ↦ absurd (n refl)
    ]

module _ (dev : ℕ) (action : Action) where
  -- One turn of the loop: the invariant holds, and the rest of the list has the rivals left.
  supersede_step :
      (b : Bool) (s : Schedule) (l : List Schedule) (g : Gateway)
      → same_action s.action action ≡ b
      → IsSound g.schedules
      → is_timed s.action ≡ true
      → Listed dev action (s ∷ l) g.schedules
      → IsSound (supersede_one b s g).schedules
        × Listed dev action l (supersede_one b s g).schedules
  unfolding settle settled
  supersede_step true s l g same v timed listed =
      let done = settled s ScheduleStatus.superseded none none in
      (
        insert_settled-IsSound g.schedules done v refl timed,
        λ i t h r. ground (arith, lookup-insert i s.id done g.schedules, listed i t, v.keyed i t),
      )
  supersede_step false s l g other v timed listed =
      (v, λ i t h r. ground (arith, listed i t h r, same_action_refl s.action))

  -- After the loop no timer of the function is armed.
  pub supersede_all :
      (l : List Schedule) (g : Gateway)
      → IsSound g.schedules
      → AllTimed l
      → Listed dev action l g.schedules
      → IsSound (supersede action l g).schedules
        × ((i : ℕ) (s : Schedule)
            → lookup i (supersede action l g).schedules ≡ some s
            → ¬ Rival dev action s)
  unfolding supersede
  supersede_all [] g v timed listed = (v, listed)
  supersede_all (s ∷ l) g v timed listed =
      let (v', listed') =
        supersede_step (same_action s.action action) s l g refl v timed.0 listed in
      supersede_all l (supersede_one (same_action s.action action) s g) v' timed.1 listed'
