-- ===== src/Registry/Snapshot/RoundTrip.antt =====
-- A registry is read back from its snapshot as it was written.
use mathlib.Core.Path.{subst}
use radio_sensors.Prelude.{
  ℕ, zero, suc, ◌+◌, ◌-◌, ◌*◌, ◌%◌, ◌≤◌, ◌≡◌, refl, sym, ap, ◌∙◌, true, Bool, List, [], ◌∷◌, ◌++◌,
  some, arith, length, take, drop, All, IsU16, IsU32, leb, ◌==◌, ==_iff,
}
use radio_sensors.Prelude.Result.{Result, ok, ◌>>=◌, ◌>>◌, check}
use radio_sensors.Wire.{store, write_u32_le, read_u32_le}
use radio_sensors.Gateway.Snapshot.{crc32}
use radio_sensors.Gateway.Snapshot.RoundTrip.{
  sealed, crc-sealed, take-sealed, generation_read, append_assoc, passes, take-append_all,
}
use radio_sensors.Registry.{NodeRecord, NodeRegistry, blank, blanks, max_nodes}
use radio_sensors.Registry.Name.{valid_display_name}
use radio_sensors.Registry.Updates.{restore, stored_name}
use radio_sensors.Registry.Table.{Pairwise}
use radio_sensors.Registry.Invariant.{Apart, IsRecord, IsRegistry}
use radio_sensors.Registry.Invariant.Restore.{restore_iff_records, restore-accepted}
use radio_sensors.Registry.Snapshot.{
  SnapshotError, node_bytes, nodes_bytes, node_of, read_nodes, registry_bytes,
  encode_registry_snapshot, restored_from, decode_registry_snapshot, max_registry_snapshot_size,
}

-- The widths of a record's fields that take more than a byte.
pub record IsStored (r : NodeRecord) : Type 0 where
  pub profile_u16 : IsU16 r.profile_id
  pub nonce_u32 : IsU32 r.request_nonce

node_of-node_bytes :
    (r : NodeRecord) (rest : List ℕ) → IsStored r → node_of (node_bytes r ++ rest) ≡ r
node_of-node_bytes r rest w =
    ground (arith, w.profile_u16, generation_read r.request_nonce w.nonce_u32)

name_size : (r : NodeRecord) → IsRecord r → leb r.display_name_length 48 ≡ true
name_size r v = size (valid_display_name (some (stored_name r)) r.display_name_length) refl
  where
    size :
        (b : Bool)
        → valid_display_name (some (stored_name r)) r.display_name_length ≡ b
        → leb r.display_name_length 48 ≡ true
    size b e = unfold valid_display_name in ground (arith, v.named)

read_nodes-nodes_bytes :
    (rs : List NodeRecord) (rest : List ℕ)
    → All IsRecord rs
    → All IsStored rs
    → read_nodes (length rs) (nodes_bytes rs ++ rest) ≡ ok rs
unfolding read_nodes nodes_bytes
read_nodes-nodes_bytes [] rest v w = refl
read_nodes-nodes_bytes (r ∷ rs) rest v w =
    passes _ _ _ (name_size r v.0)
    ∙ rw (read_nodes-nodes_bytes rs rest v.1 w.1)
        (ap (λ x. ok (x ∷ rs)) (node_of-node_bytes r (nodes_bytes rs ++ rest) w.0))

pub length-nodes_bytes : (rs : List NodeRecord) → length (nodes_bytes rs) ≡ length rs * 72
unfolding nodes_bytes
length-nodes_bytes [] = refl
length-nodes_bytes (r ∷ rs) = omega (arith, length-nodes_bytes rs)

-- A spare part that is blank is made of blanks.
blank_spare→blanks :
    (n : ℕ) (rs : List NodeRecord) → All (λ s. s ≡ blank) rs → length rs ≡ n → rs ≡ blanks n
blank_spare→blanks zero [] v e = refl
blank_spare→blanks zero (r ∷ rs) v e = absurd (omega arith)
blank_spare→blanks (suc n) [] v e = absurd (omega arith)
blank_spare→blanks (suc n) (r ∷ rs) v e =
    ap (λ s. s ∷ rs) v.0 ∙ ap (λ l. blank ∷ l) (blank_spare→blanks n rs v.1 (omega arith))

IsRegistry→blanks :
    (r : NodeRegistry)
    → IsRegistry r
    → r ≡ record { live = r.live; spare = blanks (max_nodes - length r.live) }
IsRegistry→blanks r v =
    ap (λ s. record r { spare = s })
      (blank_spare→blanks (max_nodes - length r.live) r.spare v.blank_spare
        (omega (arith, v.sized)))

-- The array that a decoder restores from.
restore_live :
    (old : NodeRegistry) (r : NodeRegistry)
    → IsRegistry r
    → restore old (some (r.live ++ blanks (max_nodes - length r.live))) (length r.live) ≡ (r, true)
restore_live old r v =
    let records = r.live ++ blanks (max_nodes - length r.live) in
    let taken = take-append_all r.live (blanks (max_nodes - length r.live)) in
    let accepted = (restore_iff_records old records (length r.live)).1 (
      omega (arith, v.sized),
      subst (All IsRecord) (sym taken) v.records,
      subst (Pairwise Apart) (sym taken) v.distinct,
    ) in
    restore-accepted old records (length r.live) accepted
    ∙ ap (λ l. (record { live = l; spare = blanks (max_nodes - length r.live) }, true)) taken
    ∙ ap (λ s. (s, true)) (sym (IsRegistry→blanks r v))

module _ (r : NodeRegistry) (generation : ℕ) (buffer : List ℕ) (v : IsRegistry r)
    (w : All IsStored r.live) where
  abbrev front : List ℕ
  front = registry_bytes r generation

  abbrev written : List ℕ
  written = store (sealed front) buffer

  -- What decoding does behind the version, for a count of records.
  abbrev rest_of : NodeRegistry → List ℕ → ℕ → ℕ → Result SnapshotError NodeRegistry
  rest_of old bytes size count = do
    check (leb count 64) SnapshotError.invalid_record_count
    check (size == 12 + count * 72 + 4) SnapshotError.invalid_size
    check (read_u32_le bytes (size - 4) == crc32 (take (size - 4) bytes)) SnapshotError.crc_mismatch
    records ← read_nodes count (drop 12 bytes)
    let restored = restore old (some (records ++ blanks (64 - count))) count
    check restored.1 SnapshotError.invalid_registry
    ok restored.0

  pub live_le : length r.live ≤ 64
  live_le = omega (arith, v.sized)

  pub size_front : 12 + length r.live * 72 + 4 - 4 ≡ length front
  size_front = omega (arith, length-nodes_bytes r.live)

  nodes_read : read_nodes (length r.live) (drop 12 written) ≡ ok r.live
  nodes_read =
      ap (read_nodes (length r.live)) (
        append_assoc (nodes_bytes r.live) (write_u32_le (crc32 front))
          (drop (length (sealed front)) buffer))
      ∙ read_nodes-nodes_bytes r.live _ v.records w

  restored_from-sealed :
      (old : NodeRegistry) → restored_from written (12 + length r.live * 72 + 4) old ≡ ok r
  unfolding restored_from
  restored_from-sealed old =
      let size = 12 + length r.live * 72 + 4 in
      passes _ _ _ (large (length r.live * 72))
      ∙ passes SnapshotError.invalid_magic true _ refl
      ∙ passes SnapshotError.unsupported_version true _ refl
      ∙ ap (rest_of old written size) (small (length r.live) live_le)
      ∙ passes _ _ _ (le_test (length r.live) live_le)
      ∙ passes _ _ _ ((==_iff size size).1 refl)
      ∙ passes _ _ _ (
          (==_iff _ _).1 (
            crc-sealed front buffer (size - 4) size_front
            ∙ sym (ap crc32 (take-sealed front buffer (size - 4) size_front))))
      ∙ rw (nodes_read, restore_live old r v) refl
    where
      large : (n : ℕ) → leb 16 (12 + n + 4) ≡ true
      large n = ground arith

      small : (n : ℕ) → n ≤ 64 → n % 256 ≡ n
      small n h = omega arith

      le_test : (n : ℕ) → n ≤ 64 → leb n 64 ≡ true
      le_test n h = ground (arith, h)

  pub decode-sealed_registry :
      (old : NodeRegistry)
      → IsU32 generation
      → decode_registry_snapshot (some written) (12 + length r.live * 72 + 4) old
        ≡ ok (r, generation)
  unfolding decode_registry_snapshot
  decode-sealed_registry old g =
      rw (restored_from-sealed old) (ap (λ (n : ℕ). ok (r, n)) (generation_read generation g))

-- Into any buffer of the largest snapshot's size or more, a well-formed registry, with words in
-- range, is encoded, and what stands there is decoded to it, with the generation, whatever the
-- registry is that it is read into.
pub decode-encode_registry_snapshot :
    (r old : NodeRegistry) (generation : ℕ) (buffer : List ℕ) (capacity : ℕ)
    → IsRegistry r
    → All IsStored r.live
    → IsU32 generation
    → max_registry_snapshot_size ≤ capacity
    → (encode_registry_snapshot r generation (some buffer) capacity >>= λ sent.
        decode_registry_snapshot (some sent.0) sent.1 old)
      ≡ ok (r, generation)
unfolding encode_registry_snapshot
decode-encode_registry_snapshot r old generation buffer capacity v w g h =
    rw (fits (length r.live) (live_le r generation buffer v w))
      (decode-sealed_registry r generation buffer v w old g)
  where
    fits : (n : ℕ) → n ≤ 64 → leb (12 + n * 72 + 4) capacity ≡ true
    fits n k = ground (arith, k, h)
