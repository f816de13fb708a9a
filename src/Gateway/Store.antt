-- ===== src/Gateway/Store.antt =====
-- shared/RadioProtocol/include/GatewayStorage.h: DualSlotStore, which keeps a model in two slots of
-- a storage. The template's parameters are a record `Codec`; the slots' driver, an abstract class in
-- the source, is a record `SlotStorage` with the two properties that the store relies on.
pub mod Newest
pub mod Save
pub mod Secrets
use radio_sensors.Prelude.{
  ℕ, ◌+◌, ◌%◌, ◌^◌, ◌<◌, ◌≡◌, ◌≢◌, Bool, true, false, not, ◌&&◌, ◌||◌, List, Option, none, some,
  ltb, ◌==◌, if◌then◌else◌, and_then, sub32, All, IsByte, IsU32,
}

-- Encode, Decode, Equal and DefaultValue, `none` for a status that is not Ok.
pub record Codec (Model : Type 0) : Type 0 where
  pub encode : Model → ℕ → Option (List ℕ)
  pub decode : List ℕ → Option (Model × ℕ)
  pub equal : Model → Model → Bool
  pub default_value : Model
  pub equal→eq : (u v : Model) → equal u v ≡ true → u ≡ v
  pub decode-IsU32 :
      (bytes : List ℕ) (v : Model) (g : ℕ) → All IsByte bytes → decode bytes ≡ some (v, g) → IsU32 g

-- `read` gives the bytes of a slot, `none` if it fails; `write` says whether it succeeded. A write
-- leaves the other slot as it was, and what is read are bytes.
pub record SlotStorage : Type 1 where
  pub State : Type 0
  pub exists : State → ℕ → Bool
  pub read : State → ℕ → Option (List ℕ)
  pub write : State → ℕ → List ℕ → State × Bool
  pub read-write_other :
      (s : State) (i j : ℕ) (bytes : List ℕ) → j ≢ i → read (write s i bytes).0 j ≡ read s j
  pub read-IsByte : (s : State) (i : ℕ) (bytes : List ℕ) → read s i ≡ some bytes → All IsByte bytes

pub data LoadStatus : Type 0 where
  loaded empty corrupt : LoadStatus

-- The members of the store; `active_slot` is `none` for -1.
pub record Members (Model : Type 0) : Type 0 where
  pub current : Model
  pub generation : ℕ
  pub active_slot : Option ℕ
  pub is_loaded : Bool

-- static_cast<int32_t>(candidate - newest) > 0
unfoldable pub is_newer : ℕ → ℕ → Bool
is_newer candidate newest =
    let difference = sub32 candidate newest in ltb 0 difference && ltb difference (2 ^ 31)

module _ {Model : Type 0} where
  abbrev pub holding : ℕ → Model × ℕ → Members Model
  holding slot found = record {
    current = found.0;
    generation = found.1;
    active_slot = some slot;
    is_loaded = true;
  }

  -- One round of the loop of `load`: the newest value so far, and what the slot holds.
  unfoldable pub take_newer :
      Option (Members Model) → ℕ → Option (Model × ℕ) → Option (Members Model)
  unfolding is_newer
  take_newer best slot none = best
  take_newer none slot (some found) = some (holding slot found)
  take_newer (some best) slot (some found) =
      if is_newer found.1 best.generation then some (holding slot found) else some best

  -- The members after `load`, from what both slots hold.
  unfoldable pub newest_of : Model → Option (Model × ℕ) → Option (Model × ℕ) → Members Model
  unfolding take_newer
  newest_of default_value first second = elim (take_newer (take_newer none 0 first) 1 second) [
    | some best ↦ best
    | none ↦ record {
      current = default_value;
      generation = 0;
      active_slot = none;
      is_loaded = false;
    }
  ]

  abbrev pub next_generation : Members Model → ℕ
  next_generation st = (st.generation + 1) % 2 ^ 32

  abbrev pub target_slot : Members Model → ℕ
  target_slot st = elim st.active_slot [ none ↦ 0 | some slot ↦ if slot == 0 then 1 else 0 ]

module _ {Model : Type 0} (C : Codec Model) (S : SlotStorage) where
  -- What a slot holds, if it can be read and decoded.
  abbrev pub slot_value : S.State → ℕ → Option (Model × ℕ)
  slot_value s slot = and_then (S.read s slot) C.decode

  -- `load`: the members after it, whose `current` is the value, and the status.
  unfoldable pub load : S.State → Members Model × LoadStatus
  load s =
      let members = newest_of C.default_value (slot_value s 0) (slot_value s 1) in
      (
        members,
        if members.is_loaded
            then loaded
            else if S.exists s 0 || S.exists s 1
            then corrupt
            else empty,
      )

  -- `save` behind a successful write, which is read back.
  unfoldable pub verify : Members Model → S.State → Model → Members Model × S.State × Bool
  verify st s v = elim (slot_value s (target_slot st)) [
    | none ↦ (st, s, false)
    | some found ↦
        if not (found.1 == next_generation st) || not (C.equal found.0 v)
        then (st, s, false)
        else (holding (target_slot st) (v, next_generation st), s, true)
  ]

  unfoldable pub save : Members Model → S.State → Model → Members Model × S.State × Bool
  unfolding verify
  save st s v =
      if st.is_loaded && C.equal st.current v
      then (st, s, true)
      else elim (C.encode v (next_generation st)) [
        | none ↦ (st, s, false)
        | some bytes ↦
            let written = S.write s (target_slot st) bytes in
            if not written.1 then (st, written.0, false) else verify st written.0 v
      ]
