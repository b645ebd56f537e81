-- ===== src/Settings/Production.antt =====
-- What an accepted configuration may do.
use homeflow.Base.{
  ℕ, ◌≡◌, refl, ap, Bool, true, false, not, ◌&&◌, ◌||◌, Option, none, some, List, [], ◌∷◌, ◌++◌,
  String, arith, Option-cases, inl, inr,
}
use homeflow.Auth.Registry.{authenticate}
use homeflow.Errors.{Error, err}
use homeflow.HomeAssistant.Entities.{is_one_of, is_some}
use homeflow.Settings.{
  Environment, Settings, Refusal, is_production, is_any, has_unreleasable, first_of, guards,
  fail_closed, effective_id_salt, client_for, build_client_registry, Built, built_if, is_filled,
  is_secret, bestway_part, home_assistant_part, weather_part, build_providers,
}

-- A provider that an operator may have let write: the demo only by itself, a layout that was verified
-- where something is released, and domains that may be released.
abbrev pub is_safe : Built → Bool
is_safe Built.demo = false
is_safe Built.weather = true
is_safe (Built.bestway verified writable) = not (is_any writable) || verified
is_safe (Built.home_assistant domains) = not (has_unreleasable domains)

abbrev pub all_safe : List Built → Bool
all_safe [] = true
all_safe (b ∷ bs) = is_safe b && all_safe bs

-- What an accepted configuration satisfies of the guards that matter here.
record IsAccepted (s : Settings) : Type 0 where
  no_demo : (is_production s.env && s.demo_mode) ≡ false
  no_token : (is_production s.env && is_some s.dev_client_token) ≡ false
  no_wildcard : (is_production s.env && is_one_of "*" s.allowed_hosts) ≡ false
  releasable : has_unreleasable s.home_assistant_write_enabled ≡ false
  verified : (is_any s.bestway_write_enabled && not s.bestway_trust_profile) ≡ false
  salted : (not s.demo_mode && not (is_some s.id_salt)) ≡ false

abbrev AllFalse : List (Bool × Refusal) → Type 0
AllFalse [] = Unit
AllFalse ((b, r) ∷ l) = (b ≡ false) × AllFalse l

no_refusal : (l : List (Bool × Refusal)) → first_of l ≡ none → AllFalse l
no_refusal [] h = tt
no_refusal ((true, r) ∷ l) h = cc
no_refusal ((false, r) ∷ l) h = (refl, no_refusal l h)

fail_closed-IsAccepted : (s : Settings) → fail_closed s ≡ none → IsAccepted s
unfolding fail_closed
fail_closed-IsAccepted s h =
    let (a, (b, (c, (_, (_, (d, (_, (_, (e, (_, (f, _))))))))))) = no_refusal (guards s) h in
    record { no_demo = a; no_token = b; no_wildcard = c; releasable = d; verified = e; salted = f }

all_safe-append :
    (xs ys : List Built) → all_safe xs ≡ true → all_safe ys ≡ true → all_safe (xs ++ ys) ≡ true
all_safe-append [] ys h k = k
all_safe-append (x ∷ xs) ys h k = ground (arith, all_safe-append xs ys)

built_if-safe : (b : Bool) (x : Built) → is_safe x ≡ true → all_safe (built_if b x) ≡ true
built_if-safe true x h = rw h refl
built_if-safe false x h = refl

verified-safe : (a b : Bool) → (a && not b) ≡ false → (not a || b) ≡ true
verified-safe a b h = ground arith

real-safe :
    (s : Settings)
    → IsAccepted s
    → all_safe (bestway_part s ++ (home_assistant_part s ++ weather_part s)) ≡ true
real-safe s a =
    all_safe-append (bestway_part s) (home_assistant_part s ++ weather_part s)
      (built_if-safe (s.bestway_enabled && is_filled s.bestway_host)
        (Built.bestway s.bestway_trust_profile s.bestway_write_enabled)
        (verified-safe (is_any s.bestway_write_enabled) s.bestway_trust_profile a.verified))
      (all_safe-append (home_assistant_part s) (weather_part s)
        (built_if-safe
          (s.home_assistant_enabled
            && (is_filled s.home_assistant_base_url && is_secret s.home_assistant_token))
          (Built.home_assistant s.home_assistant_write_enabled) (ap not a.releasable))
        (built_if-safe
          (s.weather_enabled && (is_some s.weather_latitude && is_some s.weather_longitude))
          Built.weather refl))

salt_given :
    (s : Settings)
    → (not s.demo_mode && not (is_some s.id_salt)) ≡ false
    → s.demo_mode ≡ false
    → s.id_salt ≡ some (effective_id_salt s)
unfolding effective_id_salt
salt_given s h d = elim (Option-cases s.id_salt) [
  | inl e ↦ (let no : true ≡ false = ground (arith, h, d, e) in cc)
  | inr (salt, e) ↦ rw (e, effective_id_salt) refl
]

no_client :
    (sha256 : List ℕ → ℕ) (derive_uuid : String → String → ℕ) (s : Settings) (t : Option (List ℕ))
    → is_some t ≡ false
    → client_for sha256 derive_uuid s t ≡ []
no_client sha256 derive_uuid s none h = refl
no_client sha256 derive_uuid s (some t) h = cc

-- A production configuration that is accepted serves no synthetic device, answers on no wildcard host,
-- derives identifiers from a salt of its own, builds only safe adapters, and registers no client, so that
-- every credential is rejected, whatever the hash.
pub production_closed :
    (sha256 : List ℕ → ℕ) (derive_uuid : String → String → ℕ) (s : Settings)
    (token : Option (List ℕ))
    → fail_closed s ≡ none
    → s.env ≡ Environment.production
    → (all_safe (build_providers s) ≡ true)
      × (is_one_of "*" s.allowed_hosts ≡ false)
      × (s.id_salt ≡ some (effective_id_salt s))
      × (authenticate sha256 (build_client_registry sha256 derive_uuid s) token
          ≡ err Error.unauthenticated)
unfolding build_providers build_client_registry authenticate
production_closed sha256 derive_uuid s token accepted prod =
    let a = fail_closed-IsAccepted s accepted in
    let live : is_production s.env ≡ true = ap is_production prod in
    let off : s.demo_mode ≡ false = ground (arith, a.no_demo) in
    let empty : is_some s.dev_client_token ≡ false = ground (arith, a.no_token) in
    let host : is_one_of "*" s.allowed_hosts ≡ false = ground (arith, a.no_wildcard) in
    let clients : build_client_registry sha256 derive_uuid s ≡ [] =
      no_client sha256 derive_uuid s s.dev_client_token empty in
    (
      rw (off, build_providers) (real-safe s a),
      host,
      salt_given s a.salted off,
      ap (λ l. authenticate sha256 l token) clients,
    )
