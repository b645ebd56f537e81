-- ===== src/Schedules/Store/Eviction.antt =====
-- What `_remember` evicts (backend/src/homeflow/schedules/service.py).
use homeflow.Base.{
  ℕ, zero, suc, ◌≤◌, ◌≡◌, true, none, some, [], ◌∷◌, length, ltb, arith, ◌⊎◌, inl, inr, Bool-cases,
  Option-cases,
}
use homeflow.Base.Dict.{Dict, lookup, insert, IsDict, insert-IsDict}
use homeflow.Schedules.Models.{Schedule, is_armed}
use homeflow.Schedules.Store.{max_tracked, drop_settled, evict, remember}

-- Every timer is armed.
abbrev pub AllArmed : Dict Schedule → Type 0
AllArmed [] = Unit
AllArmed ((k, s) ∷ d) = (is_armed s.status ≡ true) × AllArmed d

drop_settled-AllArmed : (d : Dict Schedule) → drop_settled d ≡ none → AllArmed d
unfolding drop_settled
drop_settled-AllArmed [] h = tt
drop_settled-AllArmed ((k, s) ∷ d) h = ground (arith, drop_settled-AllArmed d)

-- One round deletes one timer, which was not armed, and no other.
pub drop_settled-length :
    (d d' : Dict Schedule) → drop_settled d ≡ some d' → suc (length d') ≡ length d
unfolding drop_settled
drop_settled-length [] d' h = cc
drop_settled-length ((k, s) ∷ d) d' h = elim (Option-cases (drop_settled d)) [
  | inl e ↦ ground arith
  | inr (r, e) ↦ ground (arith, drop_settled-length d r e)
]

drop_settled-lookup :
    (d d' : Dict Schedule) (i : ℕ) (s : Schedule)
    → IsDict d
    → drop_settled d ≡ some d'
    → lookup i d' ≡ some s
    → lookup i d ≡ some s
unfolding drop_settled
drop_settled-lookup [] d' i s u h f = cc
drop_settled-lookup ((k, t) ∷ d) d' i s u h f = elim (Option-cases (drop_settled d)) [
  | inl e ↦ ground arith
  | inr (r, e) ↦ ground (arith, drop_settled-lookup d r i s u.1 e)
]

drop_settled-armed :
    (d d' : Dict Schedule) (i : ℕ) (s : Schedule)
    → drop_settled d ≡ some d'
    → is_armed s.status ≡ true
    → lookup i d ≡ some s
    → lookup i d' ≡ some s
unfolding drop_settled
drop_settled-armed [] d' i s h a f = cc
drop_settled-armed ((k, t) ∷ d) d' i s h a f = elim (Option-cases (drop_settled d)) [
  | inl e ↦ ground arith
  | inr (r, e) ↦ ground (arith, drop_settled-armed d r i s e a)
]

drop_settled-none :
    (d d' : Dict Schedule) (i : ℕ)
    → drop_settled d ≡ some d'
    → lookup i d ≡ none
    → lookup i d' ≡ none
unfolding drop_settled
drop_settled-none [] d' i h f = cc
drop_settled-none ((k, t) ∷ d) d' i h f = elim (Option-cases (drop_settled d)) [
  | inl e ↦ ground arith
  | inr (r, e) ↦ ground (arith, drop_settled-none d r i e)
]

drop_settled-IsDict : (d d' : Dict Schedule) → drop_settled d ≡ some d' → IsDict d → IsDict d'
unfolding drop_settled
drop_settled-IsDict [] d' h u = cc
drop_settled-IsDict ((k, t) ∷ d) d' h u = elim (Option-cases (drop_settled d)) [
  | inl e ↦ ground arith
  | inr (r, e) ↦ ground (arith, drop_settled-none d r k e u.0, drop_settled-IsDict d r e u.1)
]

-- What eviction makes of a store: a part of it that has every armed timer.
pub record Keeps (d e : Dict Schedule) : Type 0 where
  pub part : (i : ℕ) (s : Schedule) → lookup i e ≡ some s → lookup i d ≡ some s
  pub armed :
      (i : ℕ) (s : Schedule) → is_armed s.status ≡ true → lookup i d ≡ some s → lookup i e ≡ some s
  pub unique : IsDict e

Keeps-refl : (d : Dict Schedule) → IsDict d → Keeps d d
Keeps-refl d u = record { part = λ i s h. h; armed = λ i s a h. h; unique = u }

pub evict-Keeps : (fuel : ℕ) (d : Dict Schedule) → IsDict d → Keeps d (evict fuel d)
unfolding evict
evict-Keeps zero d u = Keeps-refl d u
evict-Keeps (suc fuel) d u = elim (Bool-cases (ltb max_tracked (length d))) [
  | inr small ↦ rw (small, evict) (Keeps-refl d u)
  | inl big ↦ elim (Option-cases (drop_settled d)) [
    | inl e ↦ rw (big, e, evict) (Keeps-refl d u)
    | inr (d', e) ↦
        let k = evict-Keeps fuel d' (drop_settled-IsDict d d' e u) in
        rw (big, e, evict)
          (record {
            part = λ i s h. drop_settled-lookup d d' i s u e (k.part i s h);
            armed = λ i s a h. k.armed i s a (drop_settled-armed d d' i s e a h);
            unique = k.unique;
          })
  ]
]

-- With a round for each timer the loop ends: by its test, or because all timers are armed.
evict_ends :
    (fuel : ℕ) (d : Dict Schedule)
    → length d ≤ fuel
    → (length (evict fuel d) ≤ max_tracked) ⊎ AllArmed (evict fuel d)
unfolding evict
evict_ends zero d h = inl (omega arith)
evict_ends (suc fuel) d h = elim (Bool-cases (ltb max_tracked (length d))) [
  | inr small ↦ rw (small, evict) (inl (ground arith))
  | inl big ↦ elim (Option-cases (drop_settled d)) [
    | inl e ↦ rw (big, e, evict) (inr (drop_settled-AllArmed d e))
    | inr (d', e) ↦
        rw (big, e, evict) (evict_ends fuel d' (omega (arith, drop_settled-length d d' e)))
  ]
]

-- In a store where no key stands twice: after `_remember` the new timer is stored if it is armed, every armed timer with another
-- identifier is still there, nothing else has come in, and the store holds at most 200 timers
-- unless all that it holds are armed.
pub remember-Keeps :
    (s : Schedule) (d : Dict Schedule)
    → IsDict d
    → Keeps (insert s.id s d) (remember s d)
      × ((length (remember s d) ≤ max_tracked) ⊎ AllArmed (remember s d))
unfolding remember
remember-Keeps s d u = (
  evict-Keeps (length (insert s.id s d)) (insert s.id s d) (insert-IsDict s.id s d u),
  evict_ends (length (insert s.id s d)) (insert s.id s d) (omega arith),
)
