-- ===== src/Auth/Registry.antt =====
-- Credential verification (backend/src/homeflow/auth/registry.py). The hash is a parameter, and a
-- text the list of its characters.
pub mod Credentials
use homeflow.Base.{
  ℕ, Bool, true, false, not, ◌&&◌, Option, none, some, List, [], ◌∷◌, String, ◌==◌, if◌then◌else◌,
}
use homeflow.Auth.{Principal}
use homeflow.Auth.Tickets.{or_empty}
use homeflow.Errors.{Error, Result, ok, err}

pub record RegisteredClient : Type 0 where
  pub client_id : ℕ
  pub user_id : ℕ
  pub display_name : String
  pub token_sha256 : ℕ
  pub revoked : Bool

-- `RegisteredClient.principal`
abbrev pub principal : RegisteredClient → Principal
principal c = record { user_id = c.user_id; client_id = c.client_id; display_name = c.display_name }

-- The loop of `authenticate`: every client is compared, and the last match stays.
abbrev pub find_client :
    ℕ → List RegisteredClient → Option RegisteredClient → Option RegisteredClient
find_client digest [] match = match
find_client digest (c ∷ clients) match =
    find_client digest clients
      (if (digest == c.token_sha256) && not c.revoked then some c else match)

abbrev pub admit_match : Option RegisteredClient → List ℕ → Result Principal
admit_match none token = err Error.unauthenticated
admit_match (some c) [] = err Error.unauthenticated
admit_match (some c) (x ∷ token) = ok (principal c)

-- `ClientRegistry.authenticate`
unfoldable pub authenticate :
    (List ℕ → ℕ) → List RegisteredClient → Option (List ℕ) → Result Principal
authenticate sha256 clients presented_token =
    admit_match (find_client (sha256 (or_empty presented_token)) clients none)
      (or_empty presented_token)
