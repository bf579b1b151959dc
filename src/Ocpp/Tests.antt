-- ===== src/Ocpp/Tests.antt =====
-- Each theorem on OCPP frames at an input that meets its hypotheses.
use ev_charge_platform.Prelude.{ℕ, ◌≡◌, ◌≤◌, refl, String, true, Option, some, inr, arith}
use ev_charge_platform.Ocpp.{
  object_of, parse_call, parse_message, units, parse_items, parse_decoded, Json, Items, Fields,
  OcppFrame, OcppProtocolError, OcppErrorCode, call_result, call_error, valid_unique_id,
  parse_ocpp_frame, serialize_ocpp_frame,
}
use ev_charge_platform.Ocpp.Exchange.{
  IsWellFormed, answers-IsWellFormed, parse_ocpp_frame-serialize_ocpp_frame,
  parse_ocpp_frame-IsWellFormed,
}

abbrev heartbeat : OcppFrame
heartbeat = OcppFrame.call "m1" "Heartbeat" Fields.done

-- A toy decoder that knows one text.
abbrev decode_one : String → Option Json
decode_one s = some (
    Json.array (
      Items.item (Json.number 2) (
        Items.item (Json.text "m1")
          (Items.item (Json.text "Heartbeat") (Items.item (Json.object Fields.done) Items.end)))))

abbrev encode_one : Json → String
encode_one j = "[2,\"m1\",\"Heartbeat\",{}]"

abbrev bytes : String → ℕ
bytes s = 24

parsed :
    parse_ocpp_frame decode_one encode_one bytes "[2,\"m1\",\"Heartbeat\",{}]" 65536 ≡ inr heartbeat
unfolding parse_ocpp_frame parse_decoded parse_items valid_unique_id units parse_message parse_call
    object_of
parsed = refl

parse_ocpp_frame-IsWellFormed_example : IsWellFormed heartbeat × (24 ≤ 65536)
parse_ocpp_frame-IsWellFormed_example =
    parse_ocpp_frame-IsWellFormed decode_one encode_one bytes "[2,\"m1\",\"Heartbeat\",{}]" 65536
      parsed

valid_m1 : valid_unique_id "m1" ≡ true
unfolding valid_unique_id units
valid_m1 = refl

abbrev refused : OcppProtocolError
refused = record { error_code = OcppErrorCode.not_supported; message = "no"; details = Fields.done }

answers-IsWellFormed_example :
    IsWellFormed (call_result "m1" Fields.done) × IsWellFormed (call_error "m1" refused)
answers-IsWellFormed_example = answers-IsWellFormed "m1" Fields.done refused valid_m1

heartbeat-IsWellFormed : IsWellFormed heartbeat
unfolding valid_unique_id units
heartbeat-IsWellFormed = (refl, refl)

parse_ocpp_frame-serialize_ocpp_frame_example :
    parse_ocpp_frame decode_one encode_one bytes
      (serialize_ocpp_frame decode_one encode_one bytes heartbeat)
      65536
    ≡ inr heartbeat
parse_ocpp_frame-serialize_ocpp_frame_example =
    parse_ocpp_frame-serialize_ocpp_frame decode_one encode_one bytes heartbeat 65536 refl
      heartbeat-IsWellFormed (omega arith)
