-- ===== src/Eeprom.antt =====
-- node/lib/NodeCore/include: the node's EEPROM, NodeStorage.h and CounterStorage.h. This file has
-- what the stores share: the checksum, the integer codecs, blocks of storage, and the choice
-- between two slots.
-- The template parameter Storage is the EEPROM driver, whose code is not in the repository: a
-- record of its operations and of what they promise. A member function that writes gives the list
-- of its writes in their order, so that an interruption between two of them can be stated.

pub mod Checksum
pub mod Slots
pub mod Choice
pub mod Commit
pub mod Config
pub mod SetCount
pub mod Counter
pub mod Journal
use radio_sensors.Prelude.{
  ℕ, zero, suc, ◌+◌, ◌*◌, ◌/◌, ◌%◌, ◌^◌, ◌<◌, bit_xor, bit_and, ◌≡◌, ◌≢◌, Bool, true, false, ◌&&◌,
  List, [], ◌∷◌, ◌++◌, Option, none, some, ltb, ◌==◌, if◌then◌else◌, sub8,
}

-- EEPROM.read and EEPROM.update: a cell holds a byte, and keeps the last one written to it.
pub record Storage : Type 1 where
  pub State : Type 0
  pub read : State → ℕ → ℕ
  pub update : State → ℕ → ℕ → State
  pub read_byte : (s : State) (a : ℕ) → read s a < 256
  pub read-update : (s : State) (a v : ℕ) → v < 256 → read (update s a v) a ≡ v
  pub read-update_other : (s : State) (a v b : ℕ) → b ≢ a → read (update s a v) b ≡ read s b

-- One round of the inner loop of `crc16Ccitt`, and the loop.
abbrev pub crc_bit : ℕ → ℕ
crc_bit crc =
    if bit_and crc 0x8000 == 0 then crc * 2 % 2 ^ 16 else bit_xor (crc * 2) 0x1021 % 2 ^ 16

abbrev pub crc_bits : ℕ → ℕ → ℕ
crc_bits zero crc = crc
crc_bits (suc n) crc = crc_bits n (crc_bit crc)

-- The loop over the bytes, and `crc16Ccitt`.
unfoldable pub crc_from : ℕ → List ℕ → ℕ
crc_from crc [] = crc
crc_from crc (b ∷ bs) = crc_from (crc_bits 8 (bit_xor crc (b * 2 ^ 8 % 2 ^ 16))) bs

unfoldable pub crc16_ccitt : List ℕ → ℕ
unfolding crc_from
crc16_ccitt bytes = crc_from 0xffff bytes

-- A candidate generation is newer when it is ahead by less than half of the cycle: the difference,
-- as an int8_t, is positive.
unfoldable pub generation_is_newer : ℕ → ℕ → Bool
generation_is_newer candidate current =
    let difference = sub8 candidate current in ltb 0 difference && ltb difference 128

-- The members of a store with two slots.
pub record StoreState : Type 0 where
  pub initialized : Bool
  pub has_value : Bool
  pub current_slot : ℕ
  pub current_generation : ℕ

abbrev pub new_store : StoreState
new_store = record {
  initialized = false;
  has_value = false;
  current_slot = 1;
  current_generation = 0;
}

abbrev pub holding : ℕ → ℕ → StoreState
holding slot generation = record {
  initialized = true;
  has_value = true;
  current_slot = slot;
  current_generation = generation;
}

-- `load` behind the decoding of both slots: the members and the value that it finds.
unfoldable pub choose_slot : {A : Type 0} → (A → ℕ) → Option A → Option A → StoreState × Option A
unfolding generation_is_newer
choose_slot generation none none = (record new_store { initialized = true }, none)
choose_slot generation (some a) none = (holding 0 (generation a), some a)
choose_slot generation none (some b) = (holding 1 (generation b), some b)
choose_slot generation (some a) (some b) =
    if generation_is_newer (generation a) (generation b)
    then (holding 0 (generation a), some a)
    else (holding 1 (generation b), some b)

-- The generation of the next value, and its slot.
unfoldable pub next_generation : StoreState → ℕ
next_generation st = if st.has_value then (st.current_generation + 1) % 256 else 0

unfoldable pub next_slot : StoreState → ℕ
next_slot st = bit_xor st.current_slot 1

-- What `save` does: the writes in their order, the members after them, and the value.
pub record Saved (A : Type 0) : Type 0 where
  pub writes : List (ℕ × ℕ)
  pub state : StoreState
  pub value : A

-- The loop that writes bytes from an address on.
unfoldable pub writes_from : ℕ → List ℕ → List (ℕ × ℕ)
writes_from address [] = []
writes_from address (b ∷ bs) = (address, b) ∷ writes_from (address + 1) bs

-- The writes of a save: the slot's first byte is cleared first and written last.
unfoldable pub commit : ℕ → List (ℕ × ℕ) → ℕ → List (ℕ × ℕ)
commit address middle b = (address, 0) ∷ (middle ++ ((address, b) ∷ []))

module _ (E : Storage) where
  abbrev pub perform : List (ℕ × ℕ) → E.State → E.State
  perform [] s = s
  perform (w ∷ ws) s = perform ws (E.update s w.0 w.1)

  -- readBlock
  abbrev pub read_block : E.State → ℕ → ℕ → List ℕ
  read_block s address zero = []
  read_block s address (suc n) = E.read s address ∷ read_block s (address + 1) n
