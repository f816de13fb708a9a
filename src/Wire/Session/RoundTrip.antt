-- ===== src/Wire/Session/RoundTrip.antt =====
-- The frames of a command session are read back as they were written.
use radio_sensors.Prelude.{
  ℕ, zero, suc, ◌≡◌, ◌≢◌, ◌≤◌, List, some, none, arith, refl, if◌then◌else◌, ltb, ◌==◌, ◌||◌, Bytes,
  IsU16, IsU32,
}
use mathlib.Core.Option
use radio_sensors.Prelude.Result.{ok, err, ◌>>=◌}
use radio_sensors.Wire.Session

-- The first `count` bytes of one array and the others of a second.
abbrev pub first_of_both : (n : ℕ) → ℕ → Bytes n → Bytes n → Bytes n
first_of_both zero count u v = tt
first_of_both (suc n) zero u v = v
first_of_both (suc n) (suc count) u v = (u.0, first_of_both n count u.1 v.1)

-- The fields that a command frame can carry.
pub record IsCommand (c : Session.Command) : Type 0 where
  pub nonce_u32 : IsU32 c.session_nonce
  pub id_u16 : IsU16 c.command_id
  pub id_given : c.command_id ≢ 0
  pub size_le : c.argument_size ≤ Session.max_command_argument_size

module _ (c old : Session.Command) (buffer : List ℕ) (capacity : ℕ) (v : IsCommand c)
    (h : Session.command_frame_size c ≤ capacity) where
  decode-encode_command_at :
      (n : ℕ)
      → c.argument_size ≡ n
      → (Session.encode_command c (some buffer) capacity >>= λ written.
          Session.decode_command (some written) (Session.command_frame_size c) old)
        ≡ ok (record c { arguments = first_of_both 8 n c.arguments old.arguments })
  unfolding Session.encode_command Session.decode_command
  decode-encode_command_at (suc (suc (suc (suc (suc (suc (suc (suc (suc n))))))))) e =
      absurd (omega (arith, v.size_le))
  decode-encode_command_at n e = rw e (ground arith)

-- Into a buffer that is large enough a command is encoded that has an ID, eight argument bytes at
-- most and words in range, and what stands there is decoded to it; the arguments beyond its size are
-- those that the caller's structure held.
pub decode-encode_command :
    (c old : Session.Command) (buffer : List ℕ) (capacity : ℕ)
    → IsCommand c
    → Session.command_frame_size c ≤ capacity
    → (Session.encode_command c (some buffer) capacity >>= λ written.
        Session.decode_command (some written) (Session.command_frame_size c) old)
      ≡ ok (record c { arguments = first_of_both 8 c.argument_size c.arguments old.arguments })
decode-encode_command c old buffer capacity v h =
    decode-encode_command_at c old buffer capacity v h c.argument_size refl

-- The fields that a result frame can carry.
pub record IsResult (r : Session.CommandResult) : Type 0 where
  pub nonce_u32 : IsU32 r.session_nonce
  pub id_u16 : IsU16 r.command_id
  pub id_given : r.command_id ≢ 0
  pub size_le : r.data_size ≤ Session.max_command_result_data_size

status_of_code : (s : Session.CommandStatus) → Session.status_of (Session.status_code s) ≡ s
status_of_code Session.CommandStatus.applied = refl
status_of_code _ = refl

module _ (r old : Session.CommandResult) (buffer : List ℕ) (capacity : ℕ) (v : IsResult r)
    (h : Session.command_result_frame_size r ≤ capacity) where
  decode-encode_result_at :
      (n : ℕ)
      → r.data_size ≡ n
      → (Session.encode_command_result r (some buffer) capacity >>= λ written.
          Session.decode_command_result (some written) (Session.command_result_frame_size r) old)
        ≡ ok (record r { data_bytes = first_of_both 8 n r.data_bytes old.data_bytes })
  unfolding Session.encode_command_result Session.decode_command_result
  decode-encode_result_at (suc (suc (suc (suc (suc (suc (suc (suc (suc n))))))))) e =
      absurd (omega (arith, v.size_le))
  decode-encode_result_at n e = rw e (ground (arith, status_of_code r.status))

-- Into a buffer that is large enough the result of a command is encoded that has an ID, eight bytes
-- at most and words in range, and what stands there is decoded to it, status included, but for the
-- bytes beyond its size, which are those that the caller's structure held.
pub decode-encode_command_result :
    (r old : Session.CommandResult) (buffer : List ℕ) (capacity : ℕ)
    → IsResult r
    → Session.command_result_frame_size r ≤ capacity
    → (Session.encode_command_result r (some buffer) capacity >>= λ written.
        Session.decode_command_result (some written) (Session.command_result_frame_size r) old)
      ≡ ok (record r { data_bytes = first_of_both 8 r.data_size r.data_bytes old.data_bytes })
decode-encode_command_result r old buffer capacity v h =
    decode-encode_result_at r old buffer capacity v h r.data_size refl

-- The two frames that carry only a session nonce are read back, each by its own decoder alone.
pub decode-encode_command_ready :
    (nonce : ℕ) (buffer : List ℕ) (capacity : ℕ)
    → IsU32 nonce
    → Session.command_ready_size ≤ capacity
    → ((Session.encode_command_ready nonce (some buffer) capacity >>= λ written.
          Session.decode_command_ready (some written) 5)
        ≡ ok nonce)
      × ((Session.encode_no_command nonce (some buffer) capacity >>= λ written.
            Session.decode_no_command (some written) 5)
          ≡ ok nonce)
      × ((Session.encode_command_ready nonce (some buffer) capacity >>= λ written.
            Session.decode_no_command (some written) 5)
          ≡ err Session.wrong_frame_kind)
      × ((Session.encode_no_command nonce (some buffer) capacity >>= λ written.
            Session.decode_command_ready (some written) 5)
          ≡ err Session.wrong_frame_kind)
unfolding Session.encode_command_ready Session.encode_no_command Session.decode_command_ready
    Session.decode_no_command
decode-encode_command_ready nonce buffer capacity v h = ground arith

-- A node's identity is encoded and decoded to itself exactly when it has a profile and its power
-- level is within range, and is refused otherwise.
pub decode-encode_node_info :
    (i : Session.NodeInfo) (buffer : List ℕ) (capacity : ℕ)
    → IsU16 i.profile_id
    → Session.read_info_result_size ≤ capacity
    → Option.bind
        (Session.encode_node_info i (some buffer) capacity)
        (λ written. Session.decode_node_info (some written) 6)
      ≡ (if i.profile_id == 0 || ltb 31 i.max_power_level then none else some i)
unfolding Session.encode_node_info Session.decode_node_info Option.bind
decode-encode_node_info i buffer capacity v h = ground arith
