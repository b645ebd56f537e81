-- ===== src/Devices/Registry/Consistent.antt =====
-- The three maps of the registry agree (backend/src/homeflow/devices/registry.py).
use homeflow.Base.{
  ℕ, ◌≡◌, refl, true, some, List, [], ◌∷◌, arith, ◌==◌, if◌then◌else◌, inl, inr, Bool-cases,
  Option-cases,
}
use homeflow.Base.Dict.{lookup, insert, lookup-insert}
use homeflow.Devices.Models.{Availability, Device, DeviceState, StateSource}
use homeflow.Devices.Registry.{
  DeviceRegistry, Identity, same_key, lookup_ref, insert_ref, init, register, require, id_for_ref,
  updated, apply,
}
use homeflow.Integrations.{ProviderDevice, ProviderDeviceRef, ProviderState}

-- The identifier that `register` derives for a handle.
abbrev pub uuid_of : Identity → ProviderDeviceRef → ℕ
uuid_of u ref = u.device_uuid ref.provider ref.provider_device_id

pub record IsConsistent (u : Identity) (r : DeviceRegistry) : Type 0 where
  pub ids : (i : ℕ) (d : Device) → lookup i r.devices ≡ some d → d.id ≡ i
  pub handled :
      (i : ℕ) (d : Device)
      → lookup i r.devices ≡ some d
      → (ref : ProviderDeviceRef) × (lookup i r.refs ≡ some ref)
  pub routed :
      (i : ℕ) (ref : ProviderDeviceRef)
      → lookup i r.refs ≡ some ref
      → (id_for_ref r ref ≡ some i) × (i ≡ uuid_of u ref)
  pub known :
      (ref : ProviderDeviceRef) (i : ℕ)
      → id_for_ref r ref ≡ some i
      → (d : Device) × (lookup i r.devices ≡ some d) × (i ≡ uuid_of u ref)

same_key-eq : (a b : ProviderDeviceRef) → same_key a b ≡ true → a ≡ b
same_key-eq a b h = ground arith

lookup_ref-insert_ref :
    (a b : ProviderDeviceRef) (i : ℕ) (m : List (ProviderDeviceRef × ℕ))
    → lookup_ref a (insert_ref b i m) ≡ (if same_key a b then some i else lookup_ref a m)
lookup_ref-insert_ref a b i [] = refl
lookup_ref-insert_ref a b i ((c, j) ∷ m) = ground (arith, lookup_ref-insert_ref a b i m)

-- A device that is present stays present.
present-insert :
    (i j : ℕ) (new : Device) {d : Device} (m : List (ℕ × Device))
    → lookup i m ≡ some d
    → (d' : Device) × (lookup i (insert j new m) ≡ some d')
present-insert i j new {d} m h = elim (Bool-cases (i == j)) [
  | inl e ↦ (new, ground (arith, lookup-insert i j new m))
  | inr e ↦ (d, ground (arith, lookup-insert i j new m))
]

-- The empty registry is consistent.
pub init-IsConsistent : (u : Identity) → IsConsistent u init
unfolding init id_for_ref
init-IsConsistent u = record {
  ids = λ i d h. cc;
  handled = λ i d h. cc;
  routed = λ i ref h. cc;
  known = λ ref i h. cc;
}

module _ (u : Identity) (r : DeviceRegistry) (c : IsConsistent u r) where
  module _ (pd : ProviderDevice) (s : ProviderState) where
    register-ids : (i : ℕ) (d : Device) → lookup i (register u r pd s).1.devices ≡ some d → d.id ≡ i
    unfolding register
    register-ids i d h =
        ground (
          arith,
          lookup-insert i (register u r pd s).0.id (register u r pd s).0 r.devices,
          c.ids i d,
        )

    register-handled :
        (i : ℕ) (d : Device)
        → lookup i (register u r pd s).1.devices ≡ some d
        → (ref : ProviderDeviceRef) × (lookup i (register u r pd s).1.refs ≡ some ref)
    unfolding register
    register-handled i d h =
        let new = (register u r pd s).0 in
        elim (Bool-cases (i == new.id)) [
          | inl e ↦ (pd.ref, ground (arith, lookup-insert i new.id pd.ref r.refs))
          | inr e ↦
              let old : lookup i r.devices ≡ some d =
                ground (arith, lookup-insert i new.id new r.devices) in
              let (ref, found) = c.handled i d old in
              (ref, ground (arith, lookup-insert i new.id pd.ref r.refs))
        ]

    register-routed :
        (i : ℕ) (ref : ProviderDeviceRef)
        → lookup i (register u r pd s).1.refs ≡ some ref
        → (id_for_ref (register u r pd s).1 ref ≡ some i) × (i ≡ uuid_of u ref)
    unfolding register id_for_ref
    register-routed i ref h = ground (
      arith,
      lookup-insert i (uuid_of u pd.ref) pd.ref r.refs,
      lookup_ref-insert_ref ref pd.ref (uuid_of u pd.ref) r.id_by_ref,
      c.routed i ref,
      same_key-eq ref pd.ref,
    )

    register-known :
        (ref : ProviderDeviceRef) (i : ℕ)
        → id_for_ref (register u r pd s).1 ref ≡ some i
        → (d : Device) × (lookup i (register u r pd s).1.devices ≡ some d) × (i ≡ uuid_of u ref)
    unfolding register id_for_ref
    register-known ref i h =
        let new = (register u r pd s).0 in
        elim (Bool-cases (same_key ref pd.ref)) [
          | inl e ↦ (
            new,
            ground (
              arith,
              lookup_ref-insert_ref ref pd.ref (uuid_of u pd.ref) r.id_by_ref,
              lookup-insert i new.id new r.devices,
            ),
            ground (arith, lookup_ref-insert_ref ref pd.ref (uuid_of u pd.ref) r.id_by_ref),
          )
          | inr e ↦
              let old : id_for_ref r ref ≡ some i =
                ground (arith, lookup_ref-insert_ref ref pd.ref (uuid_of u pd.ref) r.id_by_ref) in
              let (d, found, same) = c.known ref i old in
              let (d', found') = present-insert i new.id new r.devices found in (d', found', same)
        ]

    -- Registering a device, new or again, keeps a consistent registry consistent: every device is
    -- stored under its identifier and has a handle, every handle leads back to its device, and both
    -- ways agree with the derived identifier.
    pub register-IsConsistent : IsConsistent u (register u r pd s).1
    register-IsConsistent = record {
      ids = register-ids;
      handled = register-handled;
      routed = register-routed;
      known = register-known;
    }

  -- To replace a device by one with its identifier keeps the maps in agreement.
  pub replace-IsConsistent :
      (i : ℕ) (new : Device)
      → new.id ≡ i
      → (ref : ProviderDeviceRef) → lookup i r.refs ≡ some ref
      → IsConsistent u (record r { devices = insert i new r.devices })
  unfolding id_for_ref
  replace-IsConsistent i new e ref found = record {
    ids = λ j d h. ground (arith, lookup-insert j i new r.devices, c.ids j d);
    handled = λ j d h. elim (Bool-cases (j == i)) [
      | inl q ↦ (ref, ground arith)
      | inr q ↦ c.handled j d (ground (arith, lookup-insert j i new r.devices))
    ];
    routed = c.routed;
    known = λ ref' j h.
        let (d, there, same) = c.known ref' j h in
        let (d', there') = present-insert j i new r.devices there in (d', there', same);
  }

  -- `apply` on a known device keeps the maps in agreement.
  pub apply-IsConsistent :
      (i : ℕ) (s : DeviceState) (a : Availability) (at : ℕ) (source : StateSource)
      → IsConsistent u (apply r i s a at source).1
  unfolding apply require updated
  apply-IsConsistent i s a at source = elim (Option-cases (lookup i r.devices)) [
    | inl e ↦ rw (e, apply, require) c
    | inr (d, e) ↦
        rw (e, apply, require)
          (replace-IsConsistent i (updated d s a at source) (c.ids i d e) (c.handled i d e).0
            (c.handled i d e).1)
  ]
