-- ===== src/Ocpp/Frame.antt =====
-- ocpp16-frame.ts. `JSON.parse`, `JSON.stringify` and `Buffer.byteLength` are parameters.
use Prim.Native.Char.{Char, code}
use ev_charge_platform.Prelude.{
  ℕ, zero, suc, ◌+◌, ◌-◌, nat_eq, ltb, leb, String, Bool, ◌&&◌, Option, none, some, ◌⊎◌, inl, inr,
  if◌then◌else◌,
}

-- A value of JSON; a number that is no natural number stands as its text.
mutual
  pub data Json : Type 0 where
    null : Json
    boolean : Bool → Json
    number : ℕ → Json
    other_number : String → Json
    text : String → Json
    array : Items → Json
    object : Fields → Json

  pub data Items : Type 0 where
    end : Items
    item : Json → Items → Items

  pub data Fields : Type 0 where
    done : Fields
    field : String → Json → Fields → Fields

pub data OcppErrorCode : Type 0 where
  not_implemented not_supported internal_error protocol_error security_error formation_violation
        property_constraint_violation occurrence_constraint_violation type_constraint_violation
        generic_error :
      OcppErrorCode

abbrev pub code_name : OcppErrorCode → String
code_name OcppErrorCode.not_implemented = "NotImplemented"
code_name OcppErrorCode.not_supported = "NotSupported"
code_name OcppErrorCode.internal_error = "InternalError"
code_name OcppErrorCode.protocol_error = "ProtocolError"
code_name OcppErrorCode.security_error = "SecurityError"
code_name OcppErrorCode.formation_violation = "FormationViolation"
code_name OcppErrorCode.property_constraint_violation = "PropertyConstraintViolation"
code_name OcppErrorCode.occurrence_constraint_violation = "OccurrenceConstraintViolation"
code_name OcppErrorCode.type_constraint_violation = "TypeConstraintViolation"
code_name OcppErrorCode.generic_error = "GenericError"

pub record OcppProtocolError : Type 0 where
  pub error_code : OcppErrorCode
  pub message : String
  pub details : Fields

pub data OcppFrame : Type 0 where
  call : (unique_id action : String) (payload : Fields) → OcppFrame
  call_result_frame : (unique_id : String) (payload : Fields) → OcppFrame
  call_error_frame :
      (unique_id error_code error_description : String) (error_details : Fields) → OcppFrame

-- `text.length`: a character beyond the first plane counts twice.
abbrev pub units_of : Char → ℕ
units_of c = if leb 65536 (code c) then 2 else 1

unfoldable pub units : String → ℕ
units String.[] = 0
units (String.◌∷◌ c s) = units_of c + units s

-- `text.slice(0, n)`; a character that counts twice is left out where only half of it fits.
unfoldable pub slice_units : ℕ → String → String
slice_units n String.[] = String.[]
slice_units n (String.◌∷◌ c s) =
    let rest = slice_units (n - units_of c) s in
    if leb (units_of c) n then String.◌∷◌ c rest else String.[]

abbrev pub items_length : Items → ℕ
items_length Items.end = 0
items_length (Items.item x xs) = suc (items_length xs)

-- `decoded[n]`
abbrev pub get_item : Items → ℕ → Option Json
get_item Items.end n = none
get_item (Items.item x xs) zero = some x
get_item (Items.item x xs) (suc n) = get_item xs n

-- `isObject`, with the object.
unfoldable pub object_of : Option Json → Option Fields
object_of (some (Json.object fields)) = some fields
object_of _ = none

abbrev pub text_of : Option Json → Option String
text_of (some (Json.text s)) = some s
text_of _ = none

unfoldable pub valid_unique_id : String → Bool
valid_unique_id s = ltb 0 (units s) && leb (units s) 64

abbrev pub violation : String → OcppProtocolError
violation message = record {
  error_code = OcppErrorCode.formation_violation;
  message = message;
  details = Fields.done;
}

unfoldable pub parse_call : String → Items → OcppProtocolError ⊎ OcppFrame
parse_call unique_id items = elim (text_of (get_item items 2)) [
  | none ↦ inl (violation "Invalid CALL frame.")
  | some action ↦ elim (object_of (get_item items 3)) [
    | none ↦ inl (violation "Invalid CALL frame.")
    | some payload ↦
        if nat_eq (items_length items) 4 && ltb 0 (units action) && leb (units action) 64
        then inr (OcppFrame.call unique_id action payload)
        else inl (violation "Invalid CALL frame.")
  ]
]

unfoldable pub parse_call_result : String → Items → OcppProtocolError ⊎ OcppFrame
parse_call_result unique_id items = elim (object_of (get_item items 2)) [
  | none ↦ inl (violation "Invalid CALLRESULT frame.")
  | some payload ↦
      if nat_eq (items_length items) 3
      then inr (OcppFrame.call_result_frame unique_id payload)
      else inl (violation "Invalid CALLRESULT frame.")
]

unfoldable pub parse_call_error : String → Items → OcppProtocolError ⊎ OcppFrame
parse_call_error unique_id items = elim (text_of (get_item items 2)) [
  | none ↦ inl (violation "Invalid CALLERROR frame.")
  | some code ↦ elim (text_of (get_item items 3)) [
    | none ↦ inl (violation "Invalid CALLERROR frame.")
    | some description ↦ elim (object_of (get_item items 4)) [
      | none ↦ inl (violation "Invalid CALLERROR frame.")
      | some details ↦
          if nat_eq (items_length items) 5 && leb (units description) 512
          then inr (OcppFrame.call_error_frame unique_id code description details)
          else inl (violation "Invalid CALLERROR frame.")
    ]
  ]
]

-- The branches on `messageTypeId`.
unfoldable pub parse_message : Option Json → String → Items → OcppProtocolError ⊎ OcppFrame
parse_message (some (Json.number n)) unique_id items =
    if nat_eq n 2
    then parse_call unique_id items
    else if nat_eq n 3
    then parse_call_result unique_id items
    else if nat_eq n 4
    then parse_call_error unique_id items
    else inl (violation "Unknown message type.")
parse_message _ unique_id items = inl (violation "Unknown message type.")

unfoldable pub parse_items : Items → OcppProtocolError ⊎ OcppFrame
parse_items items = elim (text_of (get_item items 1)) [
  | none ↦ inl (violation "Invalid uniqueId.")
  | some unique_id ↦
      if valid_unique_id unique_id
      then parse_message (get_item items 0) unique_id items
      else inl (violation "Invalid uniqueId.")
]

unfoldable pub parse_decoded : Option Json → OcppProtocolError ⊎ OcppFrame
parse_decoded none = inl (violation "Frame is not valid JSON.")
parse_decoded (some (Json.array items)) = parse_items items
parse_decoded (some _) = inl (violation "Frame must be a JSON array.")

abbrev pub frame_items : OcppFrame → Items
frame_items (OcppFrame.call unique_id action payload) = Items.item (Json.number 2) (
    Items.item (Json.text unique_id)
      (Items.item (Json.text action) (Items.item (Json.object payload) Items.end)))
frame_items (OcppFrame.call_result_frame unique_id payload) =
    Items.item (Json.number 3)
      (Items.item (Json.text unique_id) (Items.item (Json.object payload) Items.end))
frame_items (OcppFrame.call_error_frame unique_id code description details) =
    Items.item (Json.number 4) (
      Items.item (Json.text unique_id) (
        Items.item (Json.text code)
          (Items.item (Json.text description) (Items.item (Json.object details) Items.end))))

unfoldable pub call_result : String → Fields → OcppFrame
call_result unique_id payload = OcppFrame.call_result_frame unique_id payload

unfoldable pub call_error : String → OcppProtocolError → OcppFrame
unfolding slice_units
call_error unique_id error =
    OcppFrame.call_error_frame unique_id (code_name error.error_code)
      (slice_units 512 error.message) error.details

module _ (decode : String → Option Json) (encode : Json → String) (byte_length : String → ℕ) where
  unfoldable pub parse_ocpp_frame : String → ℕ → OcppProtocolError ⊎ OcppFrame
  parse_ocpp_frame raw maximum_payload_bytes =
      if ltb maximum_payload_bytes (byte_length raw)
      then inl (violation "Frame exceeds payload limit.")
      else parse_decoded (decode raw)

  unfoldable pub serialize_ocpp_frame : OcppFrame → String
  serialize_ocpp_frame frame = encode (Json.array (frame_items frame))
