-- ===== src/Eeprom/Checksum.antt =====
-- The checksum is a uint16_t.
use radio_sensors.Prelude.{ℕ, zero, suc, ◌<◌, List, [], ◌∷◌, arith, IsU16}
use radio_sensors.Eeprom.{crc_bit, crc_bits, crc_from, crc16_ccitt}

pub crc_bits-IsU16 : (n crc : ℕ) → IsU16 crc → IsU16 (crc_bits n crc)
crc_bits-IsU16 zero crc h = h
crc_bits-IsU16 (suc n) crc h = crc_bits-IsU16 n (crc_bit crc) (ground arith)

-- The last of eight rounds wraps, whatever came before.
pub crc_bits-wrapped : (n crc : ℕ) → IsU16 (crc_bits (suc n) crc)
crc_bits-wrapped n crc = crc_bits-IsU16 n (crc_bit crc) (ground arith)

pub crc_from-IsU16 : (bs : List ℕ) (crc : ℕ) → IsU16 crc → IsU16 (crc_from crc bs)
unfolding crc_from
crc_from-IsU16 [] crc h = h
crc_from-IsU16 (b ∷ bs) crc h = crc_from-IsU16 bs _ (crc_bits-wrapped 7 _)

pub crc16_ccitt-IsU16 : (bs : List ℕ) → crc16_ccitt bs < 65536
unfolding crc16_ccitt
crc16_ccitt-IsU16 bs = crc_from-IsU16 bs 0xffff (omega arith)
