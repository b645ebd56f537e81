-- ===== src/Settings.antt =====
-- The configuration and what it builds (backend/src/homeflow/config/settings.py, container.py and
-- auth/registry.py). The parsing of the environment and the bounds of single fields are pydantic's. A
-- secret is the list of its characters, a coordinate counts thousandths of a degree.
pub mod Production
use homeflow.Base.{
  ℕ, Bool, true, false, not, ◌&&◌, ◌||◌, Option, none, some, List, [], ◌∷◌, ◌++◌, String,
  if◌then◌else◌,
}
use homeflow.Base.Int.{ℤ}
use homeflow.Base.Text.{same_text}
use homeflow.Auth.Registry.{RegisteredClient}
use homeflow.HomeAssistant.Entities.{is_one_of, is_some, releasable_domains}

pub data Environment : Type 0 where
  development test production : Environment

-- The fields of `Settings` that decide whether it is accepted and what is built.
pub record Settings : Type 0 where
  pub env : Environment
  pub demo_mode : Bool
  pub allowed_hosts : List String
  pub id_salt : Option String
  pub dev_client_token : Option (List ℕ)
  pub home_assistant_enabled : Bool
  pub home_assistant_base_url : Option String
  pub home_assistant_token : Option (List ℕ)
  pub home_assistant_write_enabled : List String
  pub weather_enabled : Bool
  pub weather_latitude : Option ℤ
  pub weather_longitude : Option ℤ
  pub bestway_enabled : Bool
  pub bestway_host : Option String
  pub bestway_trust_profile : Bool
  pub bestway_write_enabled : List String

-- The reasons for which `_fail_closed` raises, in its order.
pub data Refusal : Type 0 where
  demo_in_production token_in_production wildcard_host : Refusal
  weather_without_position home_assistant_without_connection unreleasable_domain : Refusal
  demo_with_home_assistant bestway_without_host released_unverified demo_with_bestway : Refusal
  missing_salt : Refusal

abbrev pub is_production : Environment → Bool
is_production Environment.production = true
is_production _ = false

-- The truth of an optional text and of an optional secret.
abbrev pub is_filled : Option String → Bool
is_filled none = false
is_filled (some s) = not (same_text s "")

abbrev pub is_secret : Option (List ℕ) → Bool
is_secret none = false
is_secret (some []) = false
is_secret (some (c ∷ cs)) = true

abbrev pub is_any {ℓ} : {A : Type ℓ} → List A → Bool
is_any [] = false
is_any (x ∷ xs) = true

-- `set(self.home_assistant_write_enabled) - RELEASABLE_DOMAINS` has members.
abbrev pub has_unreleasable : List String → Bool
has_unreleasable [] = false
has_unreleasable (d ∷ ds) = not (is_one_of d releasable_domains) || has_unreleasable ds

abbrev pub first_of : List (Bool × Refusal) → Option Refusal
first_of [] = none
first_of ((true, r) ∷ guards) = some r
first_of ((false, r) ∷ guards) = first_of guards

abbrev pub guards : Settings → List (Bool × Refusal)
guards s =
    (is_production s.env && s.demo_mode, Refusal.demo_in_production)
    ∷ (is_production s.env && is_some s.dev_client_token, Refusal.token_in_production)
    ∷ (is_production s.env && is_one_of "*" s.allowed_hosts, Refusal.wildcard_host)
    ∷ (
      s.weather_enabled && (not (is_some s.weather_latitude) || not (is_some s.weather_longitude)),
      Refusal.weather_without_position,
    )
    ∷ (
      s.home_assistant_enabled
          && not (is_filled s.home_assistant_base_url && is_secret s.home_assistant_token),
      Refusal.home_assistant_without_connection,
    )
    ∷ (has_unreleasable s.home_assistant_write_enabled, Refusal.unreleasable_domain)
    ∷ (s.home_assistant_enabled && s.demo_mode, Refusal.demo_with_home_assistant)
    ∷ (s.bestway_enabled && not (is_filled s.bestway_host), Refusal.bestway_without_host)
    ∷ (is_any s.bestway_write_enabled && not s.bestway_trust_profile, Refusal.released_unverified)
    ∷ (s.bestway_enabled && s.demo_mode, Refusal.demo_with_bestway)
    ∷ (not s.demo_mode && not (is_some s.id_salt), Refusal.missing_salt)
    ∷ []

-- `_fail_closed`; the settings are accepted where there is no refusal.
unfoldable pub fail_closed : Settings → Option Refusal
fail_closed s = first_of (guards s)

-- `effective_id_salt`
abbrev pub demo_id_salt : String
demo_id_salt = "homeflow-demo-mode-public-salt"

unfoldable pub effective_id_salt : Settings → String
effective_id_salt s = elim s.id_salt [ none ↦ demo_id_salt | some salt ↦ salt ]

-- `build_client_registry`, with `derive_uuid` of a salt and a kind for the development client.
abbrev pub client_for :
    (List ℕ → ℕ) → (String → String → ℕ) → Settings → Option (List ℕ) → List RegisteredClient
client_for sha256 derive_uuid s none = []
client_for sha256 derive_uuid s (some token) =
    if is_production s.env
    then []
    else record {
      client_id = derive_uuid (effective_id_salt s) "client";
      user_id = derive_uuid (effective_id_salt s) "user";
      display_name = "Development client";
      token_sha256 = sha256 token;
      revoked = false;
    }
      ∷ []

unfoldable pub build_client_registry :
    (List ℕ → ℕ) → (String → String → ℕ) → Settings → List RegisteredClient
build_client_registry sha256 derive_uuid s = client_for sha256 derive_uuid s s.dev_client_token

-- `build_providers`: the providers in order, with what is released for writing.
pub data Built : Type 0 where
  demo weather : Built
  bestway : Bool → List String → Built
  home_assistant : List String → Built

abbrev pub built_if : Bool → Built → List Built
built_if true b = b ∷ []
built_if false b = []

abbrev pub bestway_part : Settings → List Built
bestway_part s =
    built_if (s.bestway_enabled && is_filled s.bestway_host)
      (Built.bestway s.bestway_trust_profile s.bestway_write_enabled)

abbrev pub home_assistant_part : Settings → List Built
home_assistant_part s =
    built_if
      (s.home_assistant_enabled
        && (is_filled s.home_assistant_base_url && is_secret s.home_assistant_token))
      (Built.home_assistant s.home_assistant_write_enabled)

abbrev pub weather_part : Settings → List Built
weather_part s =
    built_if (s.weather_enabled && (is_some s.weather_latitude && is_some s.weather_longitude))
      Built.weather

unfoldable pub build_providers : Settings → List Built
build_providers s =
    if s.demo_mode
    then Built.demo ∷ []
    else bestway_part s ++ (home_assistant_part s ++ weather_part s)
