-- ===== src/Wire/Header.antt =====
-- The header byte.
use radio_sensors.Prelude.{ℕ, ◌+◌, ◌%◌, ◌-◌, ◌≡◌, refl, ◌<◌, ◌≤◌, List, ◌∷◌, some, arith, IsByte}
use radio_sensors.Prelude.Bits.{bit_and-high_three, bit_and-low_five, eq_by_table, holds_below}
use radio_sensors.Prelude.Result.{ok}
use radio_sensors.Wire.{FrameKind, FrameView, encode_header, decode_frame, kind_of}

-- The header that is written for a kind is read back as that kind, and the payload is the rest of the buffer.
pub decode_frame-encode_header :
    (kind : FrameKind) (rest : List ℕ) (size : ℕ)
    → 1 ≤ size
    → decode_frame (some (encode_header kind ∷ rest)) size
      ≡ ok (record { kind = kind; payload = rest; payload_size = size - 1 })
unfolding decode_frame
decode_frame-encode_header FrameKind.telemetry rest size h = ground arith
decode_frame-encode_header _ rest size h = ground arith

header_of_code : (raw : ℕ) → raw < 10 → encode_header (kind_of raw) ≡ 64 + raw
unfolding holds_below
header_of_code = eq_by_table (λ raw. encode_header (kind_of raw)) (λ raw. 64 + raw) 10 refl

-- A frame that is accepted begins with the header that is written for its kind.
pub decode_frame_header :
    (h : ℕ) (rest : List ℕ) (size : ℕ) (v : FrameView)
    → IsByte h
    → decode_frame (some (h ∷ rest)) size ≡ ok v
    → encode_header v.kind ≡ h
unfolding decode_frame
decode_frame_header h rest size v b e =
    ground (arith, header_of_code (h % 32), bit_and-high_three h, bit_and-low_five h)
