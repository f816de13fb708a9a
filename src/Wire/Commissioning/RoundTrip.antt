-- ===== src/Wire/Commissioning/RoundTrip.antt =====
-- The frames of the join exchange are read back as they were written.
use radio_sensors.Prelude.{ℕ, ◌≡◌, ◌≤◌, List, some, arith, Bytes, to_list, AllBytes, IsU32}
use radio_sensors.Prelude.Bits.{bit_and-high_three, bit_and-low_five}
use radio_sensors.Prelude.Result.{ok, err, ◌>>=◌}
use radio_sensors.Wire.Commissioning.{
  JoinAccept, JoinConfirm, IsAccept, encode_join_accept, decode_join_accept, join_accept_size,
  encode_join_confirm, decode_join_confirm, join_confirm_size, encode_join_complete,
  decode_join_complete, join_complete_size, wrong_frame_kind,
}

-- Into any buffer of the frame's size or more, a valid join accept is encoded, and what stands
-- there is decoded to it.
pub decode-encode_join_accept :
    (v : JoinAccept) (buffer : List ℕ) (capacity : ℕ)
    → IsAccept v
    → join_accept_size ≤ capacity
    → (encode_join_accept v (some buffer) capacity >>= λ written.
        decode_join_accept (some written) join_accept_size)
      ≡ ok v
unfolding encode_join_accept decode_join_accept
decode-encode_join_accept v buffer capacity a h = ground arith

-- A frame of bytes that is decoded to a join accept is the one that it is encoded to, and its node
-- IDs are valid.
pub encode-decode_join_accept :
    (frame : Bytes join_accept_size) (v : JoinAccept)
    → AllBytes join_accept_size frame
    → decode_join_accept (some (to_list join_accept_size frame)) join_accept_size ≡ ok v
    → (encode_join_accept v (some (to_list join_accept_size frame)) join_accept_size
        ≡ ok (to_list join_accept_size frame))
      × IsAccept v
unfolding encode_join_accept decode_join_accept
encode-decode_join_accept frame v b e =
    ground (arith, bit_and-high_three frame.0, bit_and-low_five frame.0)

-- A join confirm is read back from its frame as it was written, a join complete from its own, and
-- neither is taken for the other.
pub decode-encode_join_confirm :
    (v : JoinConfirm) (buffer : List ℕ) (capacity : ℕ)
    → IsU32 v.request_nonce
    → join_confirm_size ≤ capacity
    → ((encode_join_confirm v (some buffer) capacity >>= λ written.
          decode_join_confirm (some written) join_confirm_size)
        ≡ ok v)
      × ((encode_join_complete v (some buffer) capacity >>= λ written.
            decode_join_complete (some written) join_complete_size)
          ≡ ok v)
      × ((encode_join_confirm v (some buffer) capacity >>= λ written.
            decode_join_complete (some written) join_complete_size)
          ≡ err wrong_frame_kind)
      × ((encode_join_complete v (some buffer) capacity >>= λ written.
            decode_join_confirm (some written) join_confirm_size)
          ≡ err wrong_frame_kind)
unfolding encode_join_confirm decode_join_confirm encode_join_complete decode_join_complete
decode-encode_join_confirm v buffer capacity a h = ground arith
