-- ===== src/Wire/JoinRequest/RoundTrip.antt =====
-- A join request is read back as it was written, and the reading is canonical.
use radio_sensors.Prelude.{ℕ, ◌≡◌, ◌≢◌, ◌≤◌, List, some, arith, Bytes, to_list, AllBytes}
use radio_sensors.Prelude.Bits.{bit_and-high_three, bit_and-low_five}
use radio_sensors.Prelude.Result.{ok, ◌>>=◌}
use radio_sensors.Power.{max_radio_power_level}
use radio_sensors.Wire.JoinRequest.{
  JoinRequest, IsRequest, encode_join_request, decode_join_request, join_request_size,
  unassigned_profile_id,
}

-- Into any buffer of the frame's size or more, a valid request is encoded, and what stands there
-- is decoded to the request.
pub decode-encode_join_request :
    (r : JoinRequest) (buffer : List ℕ) (capacity : ℕ)
    → IsRequest r
    → join_request_size ≤ capacity
    → (encode_join_request r (some buffer) capacity >>= λ written.
        decode_join_request (some written) join_request_size)
      ≡ ok r
unfolding encode_join_request decode_join_request
decode-encode_join_request r buffer capacity v h = ground arith

-- A frame of bytes that is decoded to a request is the one that the request is encoded to, and
-- the request is valid.
pub encode-decode_join_request :
    (frame : Bytes join_request_size) (r : JoinRequest)
    → AllBytes join_request_size frame
    → decode_join_request (some (to_list join_request_size frame)) join_request_size ≡ ok r
    → (encode_join_request r (some (to_list join_request_size frame)) join_request_size
        ≡ ok (to_list join_request_size frame))
      × (r.profile_id ≢ unassigned_profile_id)
      × (r.max_power_level ≤ max_radio_power_level)
unfolding encode_join_request decode_join_request
encode-decode_join_request frame r b e =
    ground (arith, bit_and-high_three frame.0, bit_and-low_five frame.0)
