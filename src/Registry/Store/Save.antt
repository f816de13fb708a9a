-- ===== src/Registry/Store/Save.antt =====
-- A registry that is saved is loaded.
use mathlib.Core.Path.{subst}
use radio_sensors.Prelude.{
  ℕ, zero, suc, ◌+◌, ◌*◌, ◌<◌, ◌≤◌, ◌≡◌, refl, sym, ap, ◌∙◌, true, false, List, [], ◌∷◌, ◌++◌, some,
  leb, if◌then◌else◌, and_then, take, drop, length, length-append, All, IsByte, IsU32, byte_at,
  arith,
}
use radio_sensors.Prelude.Result.{Result, ok, err, ◌>>=◌}
use radio_sensors.Wire.{store, read_u32_le, write_u32_le}
use radio_sensors.Gateway.Snapshot.{crc32}
use radio_sensors.Gateway.Snapshot.RoundTrip.{sealed, take-append_all}
use radio_sensors.Gateway.Store.{Codec, SlotStorage, Members, load}
use radio_sensors.Gateway.Store.Save.{load-next, target_slot-other}
use radio_sensors.Registry.{NodeRegistry, new_registry}
use radio_sensors.Registry.Invariant.{IsRegistry}
use radio_sensors.Registry.Snapshot.{
  encode_registry_snapshot, restored_from, decode_registry_snapshot, max_registry_snapshot_size,
  nodes_bytes, registry_bytes,
}
use radio_sensors.Registry.Snapshot.RoundTrip.{
  IsStored, length-nodes_bytes, decode-sealed_registry, live_le,
}
use radio_sensors.Registry.Store.{
  encoded, decoded, value_of, RegistryStore, loaded, empty, load_registry, save_registry,
  next_generation, target_slot,
}

byte_at-IsByte : (bytes : List ℕ) (i : ℕ) → All IsByte bytes → byte_at bytes i < 256
byte_at-IsByte [] i v = omega arith
byte_at-IsByte (b ∷ bs) zero v = v.0
byte_at-IsByte (b ∷ bs) (suc i) v = byte_at-IsByte bs i v.1

pub read_u32_le-IsU32 : (bytes : List ℕ) (i : ℕ) → All IsByte bytes → IsU32 (read_u32_le bytes i)
read_u32_le-IsU32 bytes i v = omega (
  arith,
  byte_at-IsByte bytes i v,
  byte_at-IsByte bytes (i + 1) v,
  byte_at-IsByte bytes (i + 2) v,
  byte_at-IsByte bytes (i + 3) v,
)

-- What a computation that succeeds went through.
module _ {E A B : Type 0} where
  pub then-ok :
      (m : Result E A) (f : A → Result E B) (b : B)
      → (m >>= f) ≡ ok b
      → (a : A) × (m ≡ ok a) × (f a ≡ ok b)
  then-ok (ok a) f b h = (a, refl, h)
  then-ok (err e) f b h = absurd (ground (arith, h))

module _ {E A : Type 0} where
  pub value_ok : (r : Result E A) {a : A} → value_of r ≡ some a → r ≡ ok a
  value_ok (ok x) h = ground (arith, h)
  value_ok (err e) h = absurd (ground (arith, h))

decode_registry_snapshot-generation :
    (bytes : List ℕ) (size : ℕ) (old r : NodeRegistry) (g : ℕ)
    → decode_registry_snapshot (some bytes) size old ≡ ok (r, g)
    → g ≡ read_u32_le bytes 6
unfolding decode_registry_snapshot
decode_registry_snapshot-generation bytes size old r g h =
    let (restored, e, last) =
      then-ok (restored_from bytes size old) (λ x. ok (x, read_u32_le bytes 6)) (r, g) h in
    ground (arith, last)

decoded-IsU32 :
    (bytes : List ℕ) (r : NodeRegistry) (g : ℕ)
    → All IsByte bytes
    → decoded bytes ≡ some (r, g)
    → IsU32 g
unfolding decoded
decoded-IsU32 bytes r g v h =
    subst IsU32
      (sym
        (decode_registry_snapshot-generation bytes (length bytes) new_registry r g (value_ok _ h)))
      (read_u32_le-IsU32 bytes 6 v)

never : (u v : NodeRegistry) → false ≡ true → u ≡ v
never u v h = absurd (ground (arith, h))

-- The codec with which the store is a DualSlotStore; it takes no two registries for equal.
abbrev registry_codec : Codec NodeRegistry
registry_codec = record {
  encode = encoded;
  decode = decoded;
  equal = λ u v. false;
  default_value = new_registry;
  equal→eq = λ u v h. never u v h;
  decode-IsU32 = decoded-IsU32;
}

drop_nil : (n : ℕ) → drop {A = ℕ} n [] ≡ []
drop_nil zero = refl
drop_nil (suc n) = refl

append_nil : (xs : List ℕ) → xs ++ [] ≡ xs
append_nil [] = refl
append_nil (x ∷ xs) = ap (λ l. x ∷ l) (append_nil xs)

store_nil : (xs : List ℕ) → store xs [] ≡ xs
store_nil xs = ap (λ l. xs ++ l) (drop_nil (length xs)) ∙ append_nil xs

module _ (r : NodeRegistry) (g : ℕ) (v : IsRegistry r) (w : All IsStored r.live) where
  abbrev image : List ℕ
  image = sealed (registry_bytes r g)

  length-image : 12 + length r.live * 72 + 4 ≡ length image
  length-image = omega (
    arith,
    length-append (nodes_bytes r.live) (write_u32_le (crc32 (registry_bytes r g))),
    length-nodes_bytes r.live,
  )

  encoded-image : encoded r g ≡ some image
  unfolding encoded encode_registry_snapshot
  encoded-image =
      rw (encoded, encode_registry_snapshot, fits (length r.live) (live_le r g [] v w))
        (ap some (
          ap (λ (n : ℕ). take n (store image [])) length-image
          ∙ take-append_all image (drop (length image) [])))
    where
      fits : (n : ℕ) → n ≤ 64 → leb (12 + n * 72 + 4) max_registry_snapshot_size ≡ true
      fits n k = ground (arith, k)

  decoded-image : IsU32 g → decoded image ≡ some (r, g)
  unfolding decoded
  decoded-image b =
      ap (λ l. value_of (decode_registry_snapshot (some l) (length image) new_registry))
        (sym (store_nil image))
      ∙ ap (λ (n : ℕ). value_of (decode_registry_snapshot (some (store image [])) n new_registry))
          (sym length-image)
      ∙ ap value_of (decode-sealed_registry r g [] v w new_registry b)

module _ (S : SlotStorage) where
  module _ (s : S.State) (r : NodeRegistry) where
    abbrev before : RegistryStore
    before = (load_registry S s).0

    abbrev snapshot : List ℕ
    snapshot = sealed (registry_bytes r (next_generation before))

    abbrev after : S.State
    after = (S.write s (target_slot before) snapshot).0

    abbrev members_after : RegistryStore
    members_after = record {
      generation = next_generation before;
      active_slot = some (target_slot before);
    }

    next_IsU32 : IsU32 (next_generation before)
    next_IsU32 = omega arith

    found_again :
        IsRegistry r
        → All IsStored r.live
        → S.read after (target_slot before) ≡ some snapshot
        → and_then (S.read after (target_slot before)) decoded ≡ some (r, next_generation before)
    found_again v w back =
        ap (λ b. and_then b decoded) back ∙ decoded-image r (next_generation before) v w next_IsU32

    saved :
        IsRegistry r
        → All IsStored r.live
        → (S.write s (target_slot before) snapshot).1 ≡ true
        → S.read after (target_slot before) ≡ some snapshot
        → save_registry S before s r ≡ (members_after, after, true)
    unfolding save_registry
    saved v w done back =
        ground (arith, encoded-image r (next_generation before) v w, done, found_again v w back)

    loaded_after :
        and_then (S.read after (target_slot before)) decoded ≡ some (r, next_generation before)
        → load_registry S after ≡ (members_after, r, loaded)
    unfolding load_registry load
    loaded_after found =
        ap
          (λ (m : Members NodeRegistry). (
            record { generation = m.generation; active_slot = m.active_slot },
            m.current,
            if m.is_loaded then loaded else empty,
          ))
          (load-next registry_codec S s after r
            (S.read-write_other s _ _ snapshot (target_slot-other registry_codec S s)) found)

  -- If the storage accepts the snapshot of a well-formed registry, with words in range, and reads
  -- it back, a save through what a load left succeeds, and a load after it finds the registry,
  -- with the members of the save.
  pub save_registry_complete :
      (s : S.State) (r : NodeRegistry)
      → IsRegistry r
      → All IsStored r.live
      → (S.write s
          (target_slot (load_registry S s).0)
          (sealed (registry_bytes r (next_generation (load_registry S s).0)))).1
        ≡ true
      → S.read
          (S.write s
            (target_slot (load_registry S s).0)
            (sealed (registry_bytes r (next_generation (load_registry S s).0)))).0
          (target_slot (load_registry S s).0)
        ≡ some (sealed (registry_bytes r (next_generation (load_registry S s).0)))
      → ((save_registry S (load_registry S s).0 s r).2 ≡ true)
        × (load_registry S (save_registry S (load_registry S s).0 s r).1
            ≡ ((save_registry S (load_registry S s).0 s r).0, r, loaded))
  save_registry_complete s r v w done back =
      let e = saved s r v w done back in
      (
        ap (λ x. x.2) e,
        ap (λ x. load_registry S x.1) e
            ∙ loaded_after s r (found_again s r v w back)
            ∙ sym (ap (λ x. (x.0, r, loaded)) e),
      )
