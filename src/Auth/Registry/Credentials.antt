-- ===== src/Auth/Registry/Credentials.antt =====
-- Who is let in.
use homeflow.Base.{
  ℕ, ◌≡◌, ◌≢◌, refl, false, not, ◌&&◌, Option, none, some, List, [], ◌∷◌, ◌==◌, arith, ◌⊎◌, inl,
  inr, Bool-cases,
}
use homeflow.Auth.{Principal}
use homeflow.Auth.Tickets.{or_empty}
use homeflow.Auth.Registry.{RegisteredClient, principal, find_client, admit_match, authenticate}
use homeflow.Errors.{ok}

-- A client of the list whose credential has the digest, and that has not been revoked.
abbrev pub Holds : ℕ → List RegisteredClient → RegisteredClient → Type 0
Holds digest [] c = ⊥
Holds digest (x ∷ clients) c =
    ((c ≡ x) × (digest ≡ x.token_sha256) × (x.revoked ≡ false)) ⊎ Holds digest clients c

find_client_lem :
    (digest : ℕ) (clients : List RegisteredClient) (m : Option RegisteredClient)
    (c : RegisteredClient)
    → find_client digest clients m ≡ some c
    → (m ≡ some c) ⊎ Holds digest clients c
find_client_lem digest [] m c h = inl h
find_client_lem digest (x ∷ clients) m c h =
    elim (Bool-cases ((digest == x.token_sha256) && not x.revoked)) [
      | inl e ↦ ground (arith, find_client_lem digest clients (some x) c)
      | inr e ↦ ground (arith, find_client_lem digest clients m c)
    ]

-- A credential is accepted only if it is not empty and its digest is that of a client which has not
-- been revoked; the principal is that client's.
pub authenticate_sound :
    (sha256 : List ℕ → ℕ) (clients : List RegisteredClient) (token : Option (List ℕ))
    (p : Principal)
    → authenticate sha256 clients token ≡ ok p
    → (c : RegisteredClient) × (or_empty token ≢ [])
      × Holds (sha256 (or_empty token)) clients c
      × (p ≡ principal c)
unfolding authenticate
authenticate_sound sha256 clients token p h =
    go (find_client (sha256 (or_empty token)) clients none) (or_empty token) refl h
  where
    go :
        (m : Option RegisteredClient) (t : List ℕ)
        → find_client (sha256 (or_empty token)) clients none ≡ m
        → admit_match m t ≡ ok p
        → (c : RegisteredClient) × (t ≢ [])
          × Holds (sha256 (or_empty token)) clients c
          × (p ≡ principal c)
    go none t e q = cc
    go (some c) [] e q = cc
    go (some c) (x ∷ t) e q = (
      c,
      (λ z. cc),
      (elim (find_client_lem (sha256 (or_empty token)) clients none c e) [
        | inl z ↦ cc
        | inr z ↦ z
      ]),
      ground arith,
    )
