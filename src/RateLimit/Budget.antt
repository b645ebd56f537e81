-- ===== src/RateLimit/Budget.antt =====
-- What a key can spend.
use homeflow.Base.{
  ℕ, suc, ◌+◌, ◌-◌, ◌*◌, ◌≤◌, ◌≡◌, ◌≢◌, refl, ◌∙◌, sym, Bool, true, false, ◌&&◌, none, some, List,
  [], ◌∷◌, arith, leb, ap, subst, if◌then◌else◌, length, ◌==◌, ==_iff, Option, Option-cases, inl,
  inr, Bool-cases, ℕ_discrete,
}
use homeflow.Base.Dict.{
  Dict, lookup, insert, erase, pop_first, move_to_end, lookup-insert, lookup-append_ne,
  lookup-erase_ne,
}
use homeflow.RateLimit.{Bucket, RateLimiter, token, bucket_for, refill, take_token, allow}

-- A call of `allow`: the key, and the time.
abbrev pub Request : Type 0
Request = ℕ × ℕ

-- One call after another: how many are allowed to a key, and what is left.
abbrev pub run : ℕ → List Request → RateLimiter → ℕ × RateLimiter
run key [] l = (0, l)
run key ((j, now) ∷ calls) l =
    let (allowed, l') = allow j now l in
    let (n, l'') = run key calls l' in ((if (j == key) && allowed then suc n else n), l'')

-- Times that do not go back, from a time on, and the last of them.
abbrev pub IsForward : ℕ → List Request → Type 0
IsForward from [] = Unit
IsForward from ((_, now) ∷ calls) = (from ≤ now) × IsForward now calls

abbrev pub last_of : ℕ → List Request → ℕ
last_of from [] = from
last_of from ((_, now) ∷ calls) = last_of now calls

abbrev pub is_oldest : ℕ → Dict Bucket → Bool
is_oldest key [] = false
is_oldest key ((k, _) ∷ _) = k == key

abbrev pub is_none : Option Bucket → Bool
is_none none = true
is_none (some _) = false

-- A call for `j` evicts the bucket of `key`: `j` has none, the table is full, and that of `key` is
-- the oldest.
abbrev pub evicts : ℕ → ℕ → RateLimiter → Bool
evicts key j l =
    is_none (lookup j l.buckets) && (leb l.max_keys (length l.buckets) && is_oldest key l.buckets)

-- No call evicts the bucket of the key.
abbrev pub Spares : ℕ → List Request → RateLimiter → Type 0
Spares key [] l = Unit
Spares key ((j, now) ∷ calls) l = (evicts key j l ≡ false) × Spares key calls (allow j now l).1

lookup-pop_first :
    (key : ℕ) (d : Dict Bucket) → is_oldest key d ≡ false → lookup key (pop_first d) ≡ lookup key d
lookup-pop_first key [] h = refl
lookup-pop_first key ((k, b) ∷ d) h = ground (arith, h)

lookup-move_to_end_ne :
    (key j : ℕ) (d : Dict Bucket) → key ≢ j → lookup key (move_to_end j d) ≡ lookup key d
lookup-move_to_end_ne key j d ne = elim (Option-cases (lookup j d)) [
  | inl e ↦ rw (e, move_to_end) refl
  | inr (v, e) ↦
      rw (e, move_to_end) (lookup-append_ne key j v (erase j d) ne ∙ lookup-erase_ne key j d ne)
]

lookup-insert_ne :
    (key j : ℕ) (v : Bucket) (d : Dict Bucket) → key ≢ j → lookup key (insert j v d) ≡ lookup key d
lookup-insert_ne key j v d ne = ground (arith, lookup-insert key j v d)

-- A full table drops a bucket that is not that of the key.
lookup-room :
    (key j : ℕ) (l : RateLimiter)
    → lookup j l.buckets ≡ none
    → evicts key j l ≡ false
    → lookup key (if leb l.max_keys (length l.buckets) then pop_first l.buckets else l.buckets)
      ≡ lookup key l.buckets
lookup-room key j l e spared = elim (Bool-cases (leb l.max_keys (length l.buckets))) [
  | inl full ↦ rw full (
      lookup-pop_first key l.buckets (
        subst (λ b. (b && is_oldest key l.buckets) ≡ false) full
          (subst
            (λ o.
              (is_none o && (leb l.max_keys (length l.buckets) && is_oldest key l.buckets)) ≡ false)
            e spared)))
  | inr room ↦ rw room refl
]

lookup-bucket_for :
    (key j now : ℕ) (l : RateLimiter)
    → key ≢ j
    → evicts key j l ≡ false
    → lookup key (bucket_for l now j (lookup j l.buckets)).1 ≡ lookup key l.buckets
lookup-bucket_for key j now l ne spared = elim (Option-cases (lookup j l.buckets)) [
  | inl e ↦ rw e (lookup-room key j l e spared)
  | inr (c, e) ↦
      subst (λ o. lookup key (bucket_for l now j o).1 ≡ lookup key l.buckets) (sym e)
        (lookup-move_to_end_ne key j l.buckets ne)
]

-- What a call for another key leaves.
allow_other :
    (key j now : ℕ) (l : RateLimiter)
    → key ≢ j
    → evicts key j l ≡ false
    → (lookup key (allow j now l).1.buckets ≡ lookup key l.buckets)
      × ((allow j now l).1.rate_per_minute ≡ l.rate_per_minute)
unfolding allow
allow_other key j now l ne spared = (
  lookup-insert_ne key j (take_token (bucket_for l now j (lookup j l.buckets)).0).1
        (bucket_for l now j (lookup j l.buckets)).1 ne
      ∙ lookup-bucket_for key j now l ne spared,
  refl,
)

-- The bucket that a call leaves to its key.
allow_known :
    (key now : ℕ) (l : RateLimiter) (b : Bucket)
    → lookup key l.buckets ≡ some b
    → ((allow key now l).0 ≡ (take_token (refill l now b)).0)
      × (lookup key (allow key now l).1.buckets ≡ some (take_token (refill l now b)).1)
      × ((allow key now l).1.rate_per_minute ≡ l.rate_per_minute)
      × ((allow key now l).1.burst ≡ l.burst)
unfolding allow
allow_known key now l b h =
    let kept : lookup key (insert key b' (move_to_end key l.buckets)) ≡ some b' =
      ground (arith, lookup-insert key key b' (move_to_end key l.buckets)) in
    rw h (refl, kept, refl, refl)
  where
    b' : Bucket
    b' = (take_token (refill l now b)).1

spend :
    (l : RateLimiter) (now : ℕ) (b : Bucket)
    → b.updated_at ≤ now
    → (if (take_token (refill l now b)).0 then token else 0)
        + (take_token (refill l now b)).1.tokens
      ≤ b.tokens + (now - b.updated_at) * l.rate_per_minute
spend l now b h = ground arith

stamp : (l : RateLimiter) (now : ℕ) (b : Bucket) → (take_token (refill l now b)).1.updated_at ≡ now
stamp l now b = ground arith

last_of_le : (from : ℕ) (calls : List Request) → IsForward from calls → from ≤ last_of from calls
last_of_le from [] h = omega arith
last_of_le from ((_, now) ∷ calls) h = omega (arith, last_of_le now calls h.1, h.0)

times_sum : (a b r : ℕ) → a * r + b * r ≡ (b + a) * r
times_sum a b r = grind arith

flow_sum : (u n l r : ℕ) → u ≤ n → n ≤ l → (l - n) * r + (n - u) * r ≡ (l - u) * r
flow_sum u n l r h k =
    let e : n - u + (l - n) ≡ l - u = omega arith in times_sum (l - n) (n - u) r ∙ ap (λ d. d * r) e

counted :
    (same allowed : Bool) (n : ℕ)
    → same ≡ true
    → (if same && allowed then suc n else n) * token ≡ (if allowed then token else 0) + n * token
counted same allowed n h = ground arith

uncounted :
    (same allowed : Bool) (n : ℕ) → same ≡ false → (if same && allowed then suc n else n) ≡ n
uncounted same allowed n h = ground arith

-- What the allowed calls for a key have spent, and what its bucket holds in the end, come from what
-- it held at first, at a time, and from what has flowed in since, at the configured rate.
abbrev Spent : ℕ → List Request → RateLimiter → ℕ → ℕ → ℕ → Type 0
Spent key calls l tokens at from =
    (b' : Bucket) × (lookup key (run key calls l).1.buckets ≡ some b')
    × ((run key calls l).0 * token + b'.tokens
        ≤ tokens + (last_of from calls - at) * l.rate_per_minute)

-- A first call for the key, which leaves the bucket `next`, and the others after it.
Spent-own :
    (key now : ℕ) (calls : List Request) (l : RateLimiter) (next : Bucket) (start : ℕ)
    → (if (allow key now l).0 then token else 0) + next.tokens ≤ start
    → (allow key now l).1.rate_per_minute ≡ l.rate_per_minute
    → Spent key calls (allow key now l).1 next.tokens now now
    → Spent key ((key, now) ∷ calls) l start now now
Spent-own key now calls l next start s rate (b', e, le) =
    let c =
      counted (key == key) (allow key now l).0 (run key calls (allow key now l).1).0
        ((==_iff key key).1 refl) in
    let le' =
      subst
        (λ r.
          (run key calls (allow key now l).1).0 * token + b'.tokens
          ≤ next.tokens + (last_of now calls - now) * r)
        rate le in
    (b', e, omega (arith, le', c, s))

differ : (key j : ℕ) → key ≢ j → (j == key) ≡ false
differ key j ne = ground arith

-- A call for another key.
Spent-other :
    (key j now : ℕ) (calls : List Request) (l : RateLimiter) (tokens at : ℕ)
    → key ≢ j
    → (allow j now l).1.rate_per_minute ≡ l.rate_per_minute
    → Spent key calls (allow j now l).1 tokens at now
    → Spent key ((j, now) ∷ calls) l tokens at now
Spent-other key j now calls l tokens at ne rate (b', e, le) =
    let c =
      uncounted (j == key) (allow j now l).0 (run key calls (allow j now l).1).0
        (differ key j ne) in
    let le' =
      subst
        (λ r.
          (run key calls (allow j now l).1).0 * token + b'.tokens
          ≤ tokens + (last_of now calls - at) * r)
        rate le in
    (b', e, rw c le')

-- A call for a key that has a bucket, and the others after it.
Spent-known :
    (key now : ℕ) (calls : List Request) (l : RateLimiter) (b : Bucket)
    → lookup key l.buckets ≡ some b
    → b.updated_at ≤ now
    → IsForward now calls
    → Spent key calls (allow key now l).1 (take_token (refill l now b)).1.tokens now now
    → Spent key ((key, now) ∷ calls) l b.tokens b.updated_at now
Spent-known key now calls l b h old f rest =
    let (answer, kept, rate, burst) = allow_known key now l b h in
    let next = (take_token (refill l now b)).1 in
    let start = b.tokens + (now - b.updated_at) * l.rate_per_minute in
    let s : (if (allow key now l).0 then token else 0) + next.tokens ≤ start =
      subst (λ a. (if a then token else 0) + next.tokens ≤ start) (sym answer)
        (spend l now b old) in
    let (b', e, le) = Spent-own key now calls l next start s rate rest in
    let sum =
      flow_sum b.updated_at now (last_of now calls) l.rate_per_minute old
        (last_of_le now calls f) in
    (b', e, omega (arith, le, sum))

-- A key that has a bucket, which no call evicts.
run_spends :
    (key from : ℕ) (calls : List Request) (l : RateLimiter) (b : Bucket)
    → lookup key l.buckets ≡ some b
    → b.updated_at ≤ from
    → IsForward from calls
    → Spares key calls l
    → Spent key calls l b.tokens b.updated_at from
run_spends key from [] l b h old f spared = (b, h, omega arith)
run_spends key from ((j, now) ∷ calls) l b h old f spared = elim (ℕ_discrete j key) [
  | yes same ↦
      let next = (take_token (refill l now b)).1 in
      let st = stamp l now b in
      let kept = (allow_known key now l b h).1 in
      subst
        (λ i.
          Spares key calls (allow i now l).1
          → Spent key ((i, now) ∷ calls) l b.tokens b.updated_at now)
        (sym same)
        (λ later. Spent-known key now calls l b h (omega (arith, old, f.0)) f.1 (
          subst (λ at. Spent key calls (allow key now l).1 next.tokens at now) st
            (run_spends key now calls (allow key now l).1 next kept (omega (arith, st)) f.1 later)))
        spared.1
  | no differs ↦
      let (kept, rate) = allow_other key j now l (λ e. differs (sym e)) spared.0 in
      Spent-other key j now calls l b.tokens b.updated_at (λ e. differs (sym e)) rate
        (run_spends key now calls (allow j now l).1 b (kept ∙ h) (omega (arith, old, f.0)) f.1
          spared.1)
]

-- The bucket of a key that comes anew.
abbrev pub full_bucket : RateLimiter → ℕ → Bucket
full_bucket l now = record { tokens = l.burst; updated_at = now }

allow_unknown :
    (key now : ℕ) (l : RateLimiter)
    → lookup key l.buckets ≡ none
    → ((allow key now l).0 ≡ (take_token (full_bucket l now)).0)
      × (lookup key (allow key now l).1.buckets ≡ some (take_token (full_bucket l now)).1)
      × ((allow key now l).1.rate_per_minute ≡ l.rate_per_minute)
unfolding allow
allow_unknown key now l h =
    let room = if leb l.max_keys (length l.buckets) then pop_first l.buckets else l.buckets in
    let b = (take_token (full_bucket l now)).1 in
    let kept : lookup key (insert key b room) ≡ some b =
      ground (arith, lookup-insert key key b room) in
    rw h (refl, kept, refl)

spend_first :
    (b : Bucket)
    → ((if (take_token b).0 then token else 0) + (take_token b).1.tokens ≤ b.tokens)
      × ((take_token b).1.updated_at ≡ b.updated_at)
spend_first b = ground arith

-- For a key that has no bucket yet, over a call for it and any calls for it and for other keys after
-- it, whose times do not go back, and none of which evicts the bucket of the key: no more calls for
-- the key are allowed than the burst and what flows in, at the configured rate, from the first call
-- to the last.
pub run_bounded :
    (key now : ℕ) (calls : List Request) (l : RateLimiter)
    → lookup key l.buckets ≡ none
    → IsForward now calls
    → Spares key calls (allow key now l).1
    → (run key ((key, now) ∷ calls) l).0 * token
      ≤ l.burst + (last_of now calls - now) * l.rate_per_minute
run_bounded key now calls l h f spared =
    let (answer, kept, rate) = allow_unknown key now l h in
    let (s, st) = spend_first (full_bucket l now) in
    let next = (take_token (full_bucket l now)).1 in
    let s' = subst (λ a. (if a then token else 0) + next.tokens ≤ l.burst) (sym answer) s in
    let rest =
      subst (λ at. Spent key calls (allow key now l).1 next.tokens at now) st
        (run_spends key now calls (allow key now l).1 next kept (omega (arith, st)) f spared) in
    let (b', e, le) = Spent-own key now calls l next l.burst s' rate rest in omega (arith, le)
