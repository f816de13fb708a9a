-- ===== src/Registry/Store.antt =====
-- shared/RadioProtocol/src/RegistryPersistence.cpp: DualSlotRegistryStore, over the slots' driver of
-- GatewayStorage.h, which has the same operations. A load takes the newer registry as DualSlotStore
-- takes the newer value; a save reads back the generation alone.
pub mod Save
use radio_sensors.Prelude.{
  ℕ, ◌+◌, ◌%◌, ◌^◌, ◌<◌, ◌≡◌, Bool, true, false, not, List, [], ◌∷◌, ◌++◌, Option, none, some, leb,
  ◌==◌, if◌then◌else◌, and_then, take, length, All, IsByte, IsU32, byte_at, get_or, arith,
}
use radio_sensors.Prelude.Result.{Result, ok, err, ◌>>=◌, ◌>>◌, check}
use radio_sensors.Wire.{read_u32_le}
use radio_sensors.Gateway.Store.{Codec, SlotStorage, Members, slot_value, newest_of}
use radio_sensors.Registry.{NodeRegistry, new_registry}
use radio_sensors.Registry.Snapshot.{
  SnapshotError, encode_registry_snapshot, decode_registry_snapshot, max_registry_snapshot_size,
}

-- The value of a status that is Ok.
abbrev pub value_of {ℓ} : {E : Type 0} {A : Type ℓ} → Result E A → Option A
value_of (ok a) = some a
value_of (err e) = none

-- What the store writes of a registry; `buffer_` holds nothing else that is written.
unfoldable pub encoded : NodeRegistry → ℕ → Option (List ℕ)
encoded registry generation =
    elim (encode_registry_snapshot registry generation (some []) max_registry_snapshot_size) [
      | ok sent ↦ some (take sent.1 sent.0)
      | err e ↦ none
    ]

-- What the store finds in the bytes of a slot, read into a new registry.
unfoldable pub decoded : List ℕ → Option (NodeRegistry × ℕ)
decoded bytes = value_of (decode_registry_snapshot (some bytes) (length bytes) new_registry)

pub data RegistryLoadStatus : Type 0 where
  loaded empty : RegistryLoadStatus

-- `activeSlot_` is `none` for -1.
pub record RegistryStore : Type 0 where
  pub generation : ℕ
  pub active_slot : Option ℕ

abbrev pub next_generation : RegistryStore → ℕ
next_generation st = (st.generation + 1) % 2 ^ 32

abbrev pub target_slot : RegistryStore → ℕ
target_slot st = elim st.active_slot [ none ↦ 0 | some slot ↦ if slot == 0 then 1 else 0 ]

module _ (S : SlotStorage) where
  unfoldable pub load_registry : S.State → RegistryStore × NodeRegistry × RegistryLoadStatus
  load_registry s =
      let newest =
        newest_of new_registry (and_then (S.read s 0) decoded) (and_then (S.read s 1) decoded) in
      (
        record { generation = newest.generation; active_slot = newest.active_slot },
        newest.current,
        if newest.is_loaded then loaded else empty,
      )

  unfoldable pub save_registry :
      RegistryStore → S.State → NodeRegistry → RegistryStore × S.State × Bool
  save_registry st s registry = elim (encoded registry (next_generation st)) [
    | none ↦ (st, s, false)
    | some bytes ↦
        let written = S.write s (target_slot st) bytes in
        if not written.1
        then (st, written.0, false)
        else elim (and_then (S.read written.0 (target_slot st)) decoded) [
          | none ↦ (st, written.0, false)
          | some found ↦ if not (found.1 == next_generation st) then (st, written.0, false) else (
            record { generation = next_generation st; active_slot = some (target_slot st) },
            written.0,
            true,
          )
        ]
  ]
