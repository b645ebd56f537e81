-- ===== src/Devices/Registry.antt =====
-- The map between HomeFlow devices and provider handles (backend/src/homeflow/devices/registry.py).
pub mod Consistent
use homeflow.Base.{ℕ, Bool, Option, none, some, List, [], ◌∷◌, String, if◌then◌else◌, ◌==◌, ◌&&◌}
use homeflow.Base.Dict.{Dict, lookup, insert}
use homeflow.Devices.Models.{Availability, Device, DeviceState, StateSource, merged_with, is_online}
use homeflow.Errors.{Error, Result, ok, err}
use homeflow.Integrations.{ProviderDevice, ProviderDeviceRef, ProviderState}

-- `device_uuid` and `room_uuid` under the deployment's salt: keyed hashes.
pub record Identity : Type 0 where
  pub device_uuid : ℕ → ℕ → ℕ
  pub room_uuid : String → ℕ

pub record DeviceRegistry : Type 0 where
  pub devices : Dict Device
  pub refs : Dict ProviderDeviceRef
  pub id_by_ref : List (ProviderDeviceRef × ℕ)

-- Equality of `ref.key`.
abbrev pub same_key : ProviderDeviceRef → ProviderDeviceRef → Bool
same_key a b = (a.provider == b.provider) && (a.provider_device_id == b.provider_device_id)

abbrev pub lookup_ref : ProviderDeviceRef → List (ProviderDeviceRef × ℕ) → Option ℕ
lookup_ref r [] = none
lookup_ref r ((r', i) ∷ m) = if same_key r r' then some i else lookup_ref r m

abbrev pub insert_ref :
    ProviderDeviceRef → ℕ → List (ProviderDeviceRef × ℕ) → List (ProviderDeviceRef × ℕ)
insert_ref r i [] = (r, i) ∷ []
insert_ref r i ((r', j) ∷ m) = if same_key r r' then (r', i) ∷ m else (r', j) ∷ insert_ref r i m

unfoldable pub init : DeviceRegistry
init = record { devices = []; refs = []; id_by_ref = [] }

-- `room_uuid(salt, room_name) if room_name else None`: an empty name counts as none.
abbrev room_id_of : Identity → Option String → Option ℕ
room_id_of i none = none
room_id_of i (some String.[]) = none
room_id_of i (some (String.◌∷◌ c s)) = some (i.room_uuid (String.◌∷◌ c s))

unfoldable pub device_of : Identity → ProviderDevice → ProviderState → Device
device_of i pd s = record {
  id = i.device_uuid pd.ref.provider pd.ref.provider_device_id;
  display_name = pd.suggested_name;
  kind = pd.kind;
  room_id = room_id_of i pd.room_hint;
  room_name = pd.room_hint;
  capabilities = pd.capabilities;
  availability = s.availability;
  state = s.state;
  constraints = pd.constraints;
  state_observed_at = s.observed_at;
  last_seen_at = s.observed_at;
  state_source = StateSource.provider_snapshot;
}

unfoldable pub register :
    Identity → DeviceRegistry → ProviderDevice → ProviderState → Device × DeviceRegistry
unfolding device_of
register i r pd s =
    let device = device_of i pd s in
    (
      device,
      record r {
        devices = insert device.id device r.devices;
        refs = insert device.id pd.ref r.refs;
        id_by_ref = insert_ref pd.ref device.id r.id_by_ref;
      },
    )

abbrev pub or_missing {ℓ} : {A : Type ℓ} → Option A → Result A
or_missing none = err Error.device_not_found
or_missing (some a) = ok a

unfoldable pub require : DeviceRegistry → ℕ → Result Device
require r device_id = or_missing (lookup device_id r.devices)

unfoldable pub ref_for : DeviceRegistry → ℕ → Result ProviderDeviceRef
ref_for r device_id = or_missing (lookup device_id r.refs)

unfoldable pub id_for_ref : DeviceRegistry → ProviderDeviceRef → Option ℕ
id_for_ref r ref = lookup_ref ref r.id_by_ref

unfoldable pub updated : Device → DeviceState → Availability → ℕ → StateSource → Device
updated current state availability observed_at source = record current {
  state = merged_with current.state state;
  availability = availability;
  state_observed_at = if is_online availability then observed_at else current.state_observed_at;
  last_seen_at = if is_online availability then observed_at else current.last_seen_at;
  state_source = source;
}

unfoldable pub apply :
    DeviceRegistry
    → ℕ
    → DeviceState
    → Availability
    → ℕ
    → StateSource
    → Result Device × DeviceRegistry
unfolding require
apply r device_id state availability observed_at source = elim (require r device_id) [
  | err e ↦ (err e, r)
  | ok current ↦
      let device = updated current state availability observed_at source in
      (ok device, record r { devices = insert device_id device r.devices })
]
