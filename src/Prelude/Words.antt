-- ===== src/Prelude/Words.antt =====
-- Machine words as native numbers, and arrays of a fixed size. A word is wrapped by `%`.
use Prim.Native.Nat.{ℕ, zero, suc, ◌+◌, ◌-◌, ◌%◌, ◌^◌, ◌<◌}
use mathlib.Core.Bool.{Bool, true, ◌&&◌}
use mathlib.Core.List.{List, [], ◌∷◌}
use radio_sensors.Prelude.Tests.{◌==◌}
use radio_sensors.Prelude.Lists.{get_or}

-- uint8_t, uint16_t, uint32_t
abbrev pub IsByte : ℕ → Type 0
IsByte b = b < 256

abbrev pub IsU16 : ℕ → Type 0
IsU16 n = n < 2 ^ 16

abbrev pub IsU32 : ℕ → Type 0
IsU32 n = n < 2 ^ 32

-- static_cast<uint8_t>(a - b), static_cast<uint32_t>(a - b)
abbrev pub sub8 : ℕ → ℕ → ℕ
sub8 a b = (a + 2 ^ 8 - b) % 2 ^ 8

abbrev pub sub32 : ℕ → ℕ → ℕ
sub32 a b = (a + 2 ^ 32 - b) % 2 ^ 32

-- uint8_t name[n]
abbrev pub Bytes : ℕ → Type 0
Bytes zero = Unit {0}
Bytes (suc n) = ℕ × Bytes n

abbrev pub AllBytes : (n : ℕ) → Bytes n → Type 0
AllBytes zero u = Unit {0}
AllBytes (suc n) u = IsByte u.0 × AllBytes n u.1

abbrev pub zeros : (n : ℕ) → Bytes n
zeros zero = tt
zeros (suc n) = (0, zeros n)

abbrev pub to_list : (n : ℕ) → Bytes n → List ℕ
to_list zero u = []
to_list (suc n) u = u.0 ∷ to_list n u.1

-- The comparing loop over two arrays.
abbrev pub same_bytes : (n : ℕ) → Bytes n → Bytes n → Bool
same_bytes zero u v = true
same_bytes (suc n) u v = (u.0 == v.0) && same_bytes n u.1 v.1

-- `buffer[i]`; a read past the end, which the callers' size tests exclude, gives 0.
abbrev pub byte_at : List ℕ → ℕ → ℕ
byte_at buffer i = get_or buffer i 0

-- The loop that copies `buffer[i]` … `buffer[i + n - 1]` into an array.
abbrev pub read_bytes : (n : ℕ) → List ℕ → ℕ → Bytes n
read_bytes zero buffer i = tt
read_bytes (suc n) buffer i = (byte_at buffer i, read_bytes n buffer (i + 1))
