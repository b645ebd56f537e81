-- ===== src/HomeAssistant/Execution/Gate.antt =====
-- What Home Assistant is asked to do (backend/src/homeflow/integrations/home_assistant/provider.py).
use homeflow.Base.{
  ℕ, zero, suc, ◌≡◌, refl, ◌∙◌, subst, Bool, true, false, ◌&&◌, Option, none, some, List, [], ◌∷◌,
  ◌++◌, String, ◌==◌, if◌then◌else◌, ◌⊎◌, inl, inr, Bool-cases, Option-cases,
}
use homeflow.Base.Dict.{lookup}
use homeflow.Base.Text.{same_text, same_text-eq}
use homeflow.Capabilities.{DeviceKind}
use homeflow.Devices.Models.{DeviceState}
use homeflow.HomeAssistant.Entities.{EntityId, HaEntity, is_one_of, availability}
use homeflow.HomeAssistant.Matching.{matches}
use homeflow.HomeAssistant.States.{normalise}
use homeflow.HomeAssistant.Provider.{
  Call, HaAdapter, HaSetup, ServiceCall, Work, is_released, entity_of, kind_or_sensor, snapshot,
  take_service, call_service, take_state, read_state, call_for,
}
use homeflow.HomeAssistant.Execution.{
  check_match, look, confirm, judge, read_back, is_entity, applied, verdict, settle, among,
  call_and_judge, command_entity, execute,
}
use homeflow.Integrations.{ProviderCommand, ProviderDeviceRef}
use homeflow.Integrations.Flow.{
  Failure, Outcome, returned, failed, returns, continue_with, ◌>>=◌, or_fail,
}

-- A step that calls no service and keeps the entities that are known.
abbrev Silent : {A : Type 0} → Work A → Type 0
Silent m = (p : HaAdapter) → ((m p).1.calls ≡ p.calls) × ((m p).1.kinds ≡ p.kinds)

bind-Silent :
    {A B : Type 0} (m : Work A) (f : A → Work B)
    → Silent m
    → ((a : A) → Silent (f a))
    → Silent (m >>= f)
bind-Silent {A = A} {B = B} m f q r p = go (m p) (q p)
  where
    go :
        (x : Outcome A × HaAdapter)
        → (x.1.calls ≡ p.calls) × (x.1.kinds ≡ p.kinds)
        → ((continue_with f x).1.calls ≡ p.calls) × ((continue_with f x).1.kinds ≡ p.kinds)
    go (returned a, d) (e, k) = let (e', k') = r a d in (e' ∙ e, k' ∙ k)
    go (failed e, d) h = h

or_fail-Silent : {A : Type 0} (o : Option A) (e : Failure) → Silent (or_fail o e)
or_fail-Silent none e p = (refl, refl)
or_fail-Silent (some a) e p = (refl, refl)

snapshot-Silent : (s : HaSetup) (entity : HaEntity) → Silent (snapshot s entity)
unfolding snapshot
snapshot-Silent s entity p =
    let o =
      normalise s.read_float entity (kind_or_sensor (lookup (s.code entity.entity_id) p.kinds)) in
    bind-Silent (or_fail o Failure.validation_error)
      (λ state.
        returns
          (record { state = state; availability = availability entity; observed_at = p.clock }))
      (or_fail-Silent o Failure.validation_error) (λ state q. (refl, refl)) p

if-Silent :
    {A : Type 0} (b : Bool) (m n : Work A) → Silent m → Silent n → Silent (if b then m else n)
if-Silent true m n h k = h
if-Silent false m n h k = k

read_state-Silent : Silent read_state
read_state-Silent p = go p.state_replies
  where
    go :
        (os : List (Outcome HaEntity))
        → ((take_state os p).1.calls ≡ p.calls) × ((take_state os p).1.kinds ≡ p.kinds)
    go [] = (refl, refl)
    go (o ∷ os) = (refl, refl)

look-Silent :
    (s : HaSetup) (kind : DeviceKind) (expected : DeviceState)
    (again : Option HaEntity → Work (Option HaEntity)) (latest : Option HaEntity) (p : HaAdapter)
    (x : Outcome HaEntity × HaAdapter)
    → ((o : Option HaEntity) → Silent (again o))
    → (x.1.calls ≡ p.calls) × (x.1.kinds ≡ p.kinds)
    → ((look s kind expected again latest x).1.calls ≡ p.calls)
      × ((look s kind expected again latest x).1.kinds ≡ p.kinds)
look-Silent s kind expected again latest p (returned entity, q) r (e, k) =
    let (e', k') =
      bind-Silent (check_match s entity kind expected)
        (λ met. if met then returns (some entity) else again (some entity))
        (or_fail-Silent (matches s.read_float entity kind expected) Failure.validation_error)
        (λ met.
          if-Silent met (returns (some entity)) (again (some entity)) (λ q'. (refl, refl))
            (r (some entity)))
        q in
    (e' ∙ e, k' ∙ k)
look-Silent s kind expected again latest p (failed Failure.unavailable, q) r (e, k) =
    let (e', k') = r latest q in (e' ∙ e, k' ∙ k)
look-Silent s kind expected again latest p (failed Failure.misbehaved, q) r (e, k) =
    let (e', k') = r latest q in (e' ∙ e, k' ∙ k)
look-Silent s kind expected again latest p (failed Failure.protocol_error, q) r h = h
look-Silent s kind expected again latest p (failed Failure.rejected, q) r h = h
look-Silent s kind expected again latest p (failed Failure.validation_error, q) r h = h
look-Silent s kind expected again latest p (failed Failure.timed_out, q) r h = h

confirm-Silent :
    (s : HaSetup) (kind : DeviceKind) (expected : DeviceState) (attempts : ℕ)
    (latest : Option HaEntity)
    → Silent (confirm s kind expected attempts latest)
unfolding confirm
confirm-Silent s kind expected zero latest p = (refl, refl)
confirm-Silent s kind expected (suc attempts) latest p =
    look-Silent s kind expected (confirm s kind expected attempts) latest p (read_state p)
      (confirm-Silent s kind expected attempts) (read_state-Silent p)

judge-Silent :
    (s : HaSetup) (kind : DeviceKind) (expected : DeviceState) (o : Option HaEntity)
    → Silent (judge s kind expected o)
judge-Silent s kind expected none p = (refl, refl)
judge-Silent s kind expected (some observed) p =
    bind-Silent (snapshot s observed) _ (snapshot-Silent s observed)
      (λ state.
        bind-Silent (check_match s observed kind expected) (λ met. returns (verdict state met))
          (or_fail-Silent (matches s.read_float observed kind expected) Failure.validation_error)
          (λ met q. (refl, refl)))
      p

among-Silent :
    (s : HaSetup) (id : EntityId) (kind : DeviceKind) (expected : DeviceState)
    (changed : List HaEntity)
    → Silent (among s id kind expected changed)
unfolding among read_back
among-Silent s id kind expected [] =
    bind-Silent (confirm s kind expected s.confirm_attempts none) (judge s kind expected)
      (confirm-Silent s kind expected s.confirm_attempts none) (judge-Silent s kind expected)
among-Silent s id kind expected (entity ∷ changed) =
    let rest = among s id kind expected changed in
    let quiet = among-Silent s id kind expected changed in
    if-Silent (is_entity s id entity) (check_match s entity kind expected >>= settle s entity rest)
      rest
      (bind-Silent (check_match s entity kind expected) (settle s entity rest)
        (or_fail-Silent (matches s.read_float entity kind expected) Failure.validation_error)
        (λ met.
          if-Silent met (snapshot s entity >>= λ state. returns (applied state)) rest
            (bind-Silent (snapshot s entity) (λ state. returns (applied state))
              (snapshot-Silent s entity) (λ state q. (refl, refl)))
            quiet))
      quiet

-- A service call for an entity that the adapter has advertised, in a domain that is released and is
-- not the one of the locks.
pub record IsAsked (s : HaSetup) (ref : ProviderDeviceRef) (command : ProviderCommand)
    (p q : HaAdapter) : Type 0 where
  pub id : EntityId
  pub kind : DeviceKind
  pub call : Call
  pub known : lookup ref.provider_device_id p.kinds ≡ some (id, kind)
  pub released : is_released s id.domain ≡ true
  pub is_no_lock : same_text id.domain "lock" ≡ false
  pub translated : call_for command.action command.params ≡ some call
  pub called :
      q.calls
      ≡ p.calls
        ++ record {
          domain = id.domain;
          service = call.service;
          entity_id = id;
          content = call.content;
        }
          ∷ []

and_false : (b : Bool) → (b && false) ≡ true → true ≡ false
and_false true h = cc
and_false false h = cc

released-is_no_lock :
    (s : HaSetup) (domain : String) → is_released s domain ≡ true → same_text domain "lock" ≡ false
released-is_no_lock s domain r = elim (Bool-cases (same_text domain "lock")) [
  | inr e ↦ e
  | inl e ↦
      let r' = subst (λ d. is_released s d ≡ true) (same_text-eq domain "lock" e) r in
      e ∙ and_false (is_one_of "lock" s.released_domains) r'
]

take_service-Silent : (os : List (Outcome (List HaEntity))) → Silent (take_service os)
take_service-Silent [] p = (refl, refl)
take_service-Silent (o ∷ os) p = (refl, refl)

call_and_judge-calls :
    (s : HaSetup) (id : EntityId) (kind : DeviceKind) (call : Call) (p : HaAdapter)
    → (call_and_judge s id kind call p).1.calls
      ≡ p.calls
        ++ record {
          domain = id.domain;
          service = call.service;
          entity_id = id;
          content = call.content;
        }
          ∷ []
unfolding call_and_judge call_service
call_and_judge-calls s id kind call p =
    let c : ServiceCall = record {
      domain = id.domain;
      service = call.service;
      entity_id = id;
      content = call.content;
    } in
    (bind-Silent (take_service p.service_replies) (among s id kind call.expected)
      (take_service-Silent p.service_replies) (among-Silent s id kind call.expected)
      (record p { calls = p.calls ++ c ∷ [] })).0

-- A command asks Home Assistant for one service call at most, whatever it answers and however often
-- the entity is read back. It is the call that the command stands for, for the entity of the device,
-- which was advertised; the domain is released by the operator and is not the one of the locks.
pub execute-IsGated :
    (s : HaSetup) (ref : ProviderDeviceRef) (command : ProviderCommand) (p : HaAdapter)
    → ((execute s ref command p).1.calls ≡ p.calls)
      ⊎ IsAsked s ref command p (execute s ref command p).1
unfolding execute entity_of command_entity
execute-IsGated s ref command p = elim (Bool-cases (ref.provider == s.provider_name)) [
  | inr e ↦ inl (rw e refl)
  | inl e ↦ elim (Option-cases (lookup ref.provider_device_id p.kinds)) [
    | inl l ↦ inl (rw (e, l) refl)
    | inr ((id, kind), l) ↦ elim (Bool-cases (is_released s id.domain)) [
      | inr r ↦ inl (rw (e, l, r) refl)
      | inl r ↦ elim (Option-cases (call_for command.action command.params)) [
        | inl c ↦ inl (rw (e, l, r, c) refl)
        | inr (call, c) ↦ inr (record {
          id = id;
          kind = kind;
          call = call;
          known = l;
          released = r;
          is_no_lock = released-is_no_lock s id.domain r;
          translated = c;
          called = rw (e, l, r, c) (call_and_judge-calls s id kind call p);
        })
      ]
    ]
  ]
]
