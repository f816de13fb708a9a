-- ===== src/Examples/Wire.antt =====
-- The frames of the radio protocol at concrete values.
use mathlib.Core.Option
use radio_sensors.Prelude.{◌≡◌, ◌≤◌, ◌≢◌, refl, [], ◌∷◌, some, arith, Bytes, to_list, zeros}
use radio_sensors.Prelude.Result.{ok, err, ◌>>=◌}
use radio_sensors.Wire.{FrameKind, decode_frame, encode_header}
use radio_sensors.Wire.Header.{decode_frame-encode_header}
use radio_sensors.Wire.JoinRequest.{
  JoinRequest, encode_join_request, decode_join_request, IsRequest, DeviceUid,
}
use radio_sensors.Wire.JoinRequest.RoundTrip.{
  decode-encode_join_request, encode-decode_join_request,
}
use radio_sensors.Wire.Commissioning.{
  JoinAccept, JoinConfirm, IsAccept, encode_join_accept, decode_join_accept, encode_join_confirm,
  decode_join_confirm, encode_join_complete, decode_join_complete, wrong_frame_kind,
}
use radio_sensors.Wire.Commissioning.RoundTrip.{
  decode-encode_join_accept, encode-decode_join_accept, decode-encode_join_confirm,
}
use radio_sensors.Wire.Session
use radio_sensors.Wire.Session.RoundTrip.{
  decode-encode_command, decode-encode_command_result, decode-encode_node_info,
}

abbrev some_uid : DeviceUid
some_uid = (1, (2, (3, (4, (5, (6, (7, (8, (9, (10, tt))))))))))

abbrev some_request : JoinRequest
some_request = record {
  device_uid = some_uid;
  profile_id = 0x0302;
  firmware = record { major = 2; minor = 1; patch = 0 };
  request_nonce = 0xdeadbeef;
  max_power_level = 31;
}

abbrev some_frame : Bytes 21
some_frame = (
  0x41,
  (
    1,
    (
      2,
      (
        3,
        (
          4,
          (
            5,
            (
              6,
              (
                7,
                (8, (9, (10, (2, (3, (2, (1, (0, (0xef, (0xbe, (0xad, (0xde, (31, tt))))))))))))),
              ),
            ),
          ),
        ),
      ),
    ),
  ),
)

decode_some_frame : decode_join_request (some (to_list 21 some_frame)) 21 ≡ ok some_request
unfolding decode_join_request
decode_some_frame = refl

some_request-IsRequest : IsRequest some_request
some_request-IsRequest = omega arith

decode_frame-encode_header_test :
    decode_frame (some (encode_header FrameKind.join_accept ∷ 7 ∷ [])) 2
    ≡ ok (record { kind = FrameKind.join_accept; payload = 7 ∷ []; payload_size = 1 })
decode_frame-encode_header_test =
    decode_frame-encode_header FrameKind.join_accept (7 ∷ []) 2 (omega arith)

decode-encode_join_request_example :
    (encode_join_request some_request (some []) 21 >>= λ written.
    decode_join_request (some written) 21)
    ≡ ok some_request
decode-encode_join_request_example =
    decode-encode_join_request some_request [] 21 some_request-IsRequest (omega arith)

encode-decode_join_request_example :
    (encode_join_request some_request (some (to_list 21 some_frame)) 21
      ≡ ok (to_list 21 some_frame))
    × (some_request.profile_id ≢ 0)
    × (31 ≤ 31)
encode-decode_join_request_example =
    encode-decode_join_request some_frame some_request (omega arith) decode_some_frame

abbrev some_accept : JoinAccept
some_accept = record {
  device_uid = some_uid;
  request_nonce = 77;
  assigned_node_id = 5;
  gateway_node_id = 100;
  network_id = 42;
  installation_key = zeros 16;
}

some_accept-IsAccept : IsAccept some_accept
some_accept-IsAccept = omega arith

decode-encode_join_accept_example :
    (encode_join_accept some_accept (some []) 40 >>= λ written.
    decode_join_accept (some written) 34)
    ≡ ok some_accept
decode-encode_join_accept_example =
    decode-encode_join_accept some_accept [] 40 some_accept-IsAccept (omega arith)

abbrev accept_frame : Bytes 34
accept_frame = (
  0x42,
  (
    1,
    (2, (3, (4, (5, (6, (7, (8, (9, (10, (77, (0, (0, (0, (5, (100, (42, zeros 16)))))))))))))))),
  ),
)

decode_accept_frame : decode_join_accept (some (to_list 34 accept_frame)) 34 ≡ ok some_accept
unfolding decode_join_accept
decode_accept_frame = refl

canonical_reply_test :
    (encode_join_accept some_accept (some (to_list 34 accept_frame)) 34
      ≡ ok (to_list 34 accept_frame))
    × IsAccept some_accept
canonical_reply_test =
    encode-decode_join_accept accept_frame some_accept (omega arith) decode_accept_frame

abbrev some_confirm : JoinConfirm
some_confirm = record { device_uid = some_uid; request_nonce = 77 }

decode-encode_join_confirm_test :
    ((encode_join_confirm some_confirm (some []) 15 >>= λ written.
    decode_join_confirm (some written) 15)
      ≡ ok some_confirm)
    × ((encode_join_complete some_confirm (some []) 15 >>= λ written.
          decode_join_complete (some written) 15)
        ≡ ok some_confirm)
    × ((encode_join_confirm some_confirm (some []) 15 >>= λ written.
          decode_join_complete (some written) 15)
        ≡ err wrong_frame_kind)
    × ((encode_join_complete some_confirm (some []) 15 >>= λ written.
          decode_join_confirm (some written) 15)
        ≡ err wrong_frame_kind)
decode-encode_join_confirm_test =
    decode-encode_join_confirm some_confirm [] 15 (omega arith) (omega arith)

abbrev some_command : Session.Command
some_command = record {
  session_nonce = 9;
  command_id = 3;
  type = 1;
  argument_size = 4;
  arguments = (16, (39, zeros 6));
}

abbrev old_command : Session.Command
old_command = record {
  session_nonce = 0;
  command_id = 0;
  type = 0;
  argument_size = 0;
  arguments = (1, (1, (1, (1, (1, zeros 3)))));
}

decode-encode_command_example :
    (Session.encode_command some_command (some []) 16 >>= λ written.
    Session.decode_command (some written) 12 old_command)
    ≡ ok (record some_command { arguments = (16, (39, (0, (0, (1, zeros 3))))) })
decode-encode_command_example =
    decode-encode_command some_command old_command [] 16 (omega arith) (omega arith)

abbrev some_result : Session.CommandResult
some_result = record {
  session_nonce = 9;
  command_id = 3;
  status = Session.CommandStatus.storage_failure;
  data_size = 0;
  data_bytes = zeros 8;
}

decode-encode_command_result_example :
    (Session.encode_command_result some_result (some []) 16 >>= λ written.
    Session.decode_command_result (some written) 8 some_result)
    ≡ ok some_result
decode-encode_command_result_example =
    decode-encode_command_result some_result some_result [] 16 (omega arith) (omega arith)

decode-encode_node_info_test :
    Option.bind
      (Session.encode_node_info
        (record {
          profile_id = 6;
          firmware = record { major = 1; minor = 2; patch = 3 };
          max_power_level = 31;
        })
        (some [])
        6)
      (λ written. Session.decode_node_info (some written) 6)
    ≡ some (record {
      profile_id = 6;
      firmware = record { major = 1; minor = 2; patch = 3 };
      max_power_level = 31;
    })
decode-encode_node_info_test =
    decode-encode_node_info
      (record {
        profile_id = 6;
        firmware = record { major = 1; minor = 2; patch = 3 };
        max_power_level = 31;
      })
      [] 6 (omega arith) (omega arith)
