-- ===== src/Ocpp/Exchange.antt =====
-- What is sent as a frame is read as that frame, and only well-formed frames are read.
use Prim.Native.String.{String as Text}
use ev_charge_platform.Prelude.{
  ℕ, ◌+◌, ◌-◌, ◌≤◌, ◌≡◌, ltb, leb, String, true, false, Option, none, some, ◌⊎◌, inl, inr, arith,
  Bool-cases, Option-cases,
}
use ev_charge_platform.Ocpp.{
  Json, Items, Fields, OcppProtocolError, OcppFrame, units, units_of, slice_units, get_item,
  object_of, text_of, valid_unique_id, parse_call, parse_call_result, parse_call_error,
  parse_message, parse_items, parse_decoded, frame_items, call_error, call_result, parse_ocpp_frame,
  serialize_ocpp_frame,
}

-- The limits that the parser sets to the texts of a frame.
abbrev pub IsWellFormed : OcppFrame → Type 0
IsWellFormed (OcppFrame.call unique_id action payload) =
    (valid_unique_id unique_id ≡ true) × (valid_unique_id action ≡ true)
IsWellFormed (OcppFrame.call_result_frame unique_id payload) = valid_unique_id unique_id ≡ true
IsWellFormed (OcppFrame.call_error_frame unique_id code description details) =
    (valid_unique_id unique_id ≡ true) × (units description ≤ 512)

parse_items-frame_items : (f : OcppFrame) → IsWellFormed f → parse_items (frame_items f) ≡ inr f
unfolding parse_items parse_message parse_call parse_call_result parse_call_error valid_unique_id
    object_of
parse_items-frame_items (OcppFrame.call unique_id action payload) h = ground (arith, h)
parse_items-frame_items (OcppFrame.call_result_frame unique_id payload) h = ground (arith, h)
parse_items-frame_items (OcppFrame.call_error_frame unique_id code description details) h =
    ground (arith, h)

fits : (a n u : ℕ) → leb a n ≡ true → u ≤ n - a → a + u ≤ n
fits a n u h g = ground arith

slice_units-bound : (n : ℕ) (s : String) → units (slice_units n s) ≤ n
unfolding units slice_units
slice_units-bound n Text.[] = omega arith
slice_units-bound n (Text.◌∷◌ c s) = elim (Bool-cases (leb (units_of c) n)) [
  | inl h ↦ rw h (
      fits (units_of c) n (units (slice_units (n - units_of c) s)) h
        (slice_units-bound (n - units_of c) s))
  | inr h ↦ rw h (omega arith)
]

-- The answers that the central system makes under a valid identifier are well formed, whatever the
-- message of the error.
pub answers-IsWellFormed :
    (unique_id : String) (payload : Fields) (error : OcppProtocolError)
    → valid_unique_id unique_id ≡ true
    → IsWellFormed (call_result unique_id payload) × IsWellFormed (call_error unique_id error)
unfolding call_result call_error
answers-IsWellFormed unique_id payload error h = (h, (h, slice_units-bound 512 error.message))

parse_call-shape :
    (unique_id : String) (items : Items) {f : OcppFrame}
    → parse_call unique_id items ≡ inr f
    → (action : String) × (payload : Fields) × (f ≡ OcppFrame.call unique_id action payload)
      × (valid_unique_id action ≡ true)
unfolding parse_call valid_unique_id
parse_call-shape unique_id items h = ground arith

parse_call_result-shape :
    (unique_id : String) (items : Items) {f : OcppFrame}
    → parse_call_result unique_id items ≡ inr f
    → (payload : Fields) × (f ≡ OcppFrame.call_result_frame unique_id payload)
unfolding parse_call_result
parse_call_result-shape unique_id items h = ground arith

parse_call_error-shape :
    (unique_id : String) (items : Items) {f : OcppFrame}
    → parse_call_error unique_id items ≡ inr f
    → (code description : String) × (details : Fields) × (f
        ≡ OcppFrame.call_error_frame unique_id code description details)
      × (units description ≤ 512)
unfolding parse_call_error
parse_call_error-shape unique_id items h = ground arith

parse_message-cases :
    (type : Option Json) (unique_id : String) (items : Items) {f : OcppFrame}
    → parse_message type unique_id items ≡ inr f
    → (parse_call unique_id items ≡ inr f)
      ⊎ ((parse_call_result unique_id items ≡ inr f) ⊎ (parse_call_error unique_id items ≡ inr f))
unfolding parse_message
parse_message-cases type unique_id items h = ground arith

parse_message-IsWellFormed :
    (type : Option Json) (unique_id : String) (items : Items) {f : OcppFrame}
    → valid_unique_id unique_id ≡ true
    → parse_message type unique_id items ≡ inr f
    → IsWellFormed f
parse_message-IsWellFormed type unique_id items v h =
    elim (parse_message-cases type unique_id items h) [
      | inl g ↦ let (_, _, e, w) = parse_call-shape unique_id items g in rw e (v, w)
      | inr (inl g) ↦ let (_, e) = parse_call_result-shape unique_id items g in rw e v
      | inr (inr g) ↦ let (_, _, _, e, w) = parse_call_error-shape unique_id items g in rw e (v, w)
    ]

parse_items-message :
    (items : Items) {f : OcppFrame}
    → parse_items items ≡ inr f
    → (unique_id : String) × (valid_unique_id unique_id ≡ true)
      × (parse_message (get_item items 0) unique_id items ≡ inr f)
unfolding parse_items
parse_items-message items h = elim (Option-cases (text_of (get_item items 1))) [
  | inl e ↦ ground (arith, e)
  | inr (unique_id, e) ↦ elim (Bool-cases (valid_unique_id unique_id)) [
    | inl v ↦ (unique_id, v, rw (parse_items, e, v) at h)
    | inr v ↦ ground (arith, e, v)
  ]
]

parse_decoded-message :
    (j : Option Json) {f : OcppFrame}
    → parse_decoded j ≡ inr f
    → (items : Items) × (unique_id : String) × (valid_unique_id unique_id ≡ true)
      × (parse_message (get_item items 0) unique_id items ≡ inr f)
unfolding parse_decoded
parse_decoded-message none h = cc
parse_decoded-message (some (Json.array items)) h =
    let (unique_id, v, m) = parse_items-message items h in (items, unique_id, v, m)
parse_decoded-message (some Json.null) h = cc
parse_decoded-message (some (Json.boolean b)) h = cc
parse_decoded-message (some (Json.number n)) h = cc
parse_decoded-message (some (Json.other_number s)) h = cc
parse_decoded-message (some (Json.text s)) h = cc
parse_decoded-message (some (Json.object fields)) h = cc

not_over : {a b : ℕ} → a ≤ b → ltb b a ≡ false
not_over h = ground arith

module _ (decode : String → Option Json) (encode : Json → String) (byte_length : String → ℕ) where
  -- A well-formed frame that is serialized within the limit of bytes is parsed as that frame, if
  -- decoding takes back the encoding of it.
  pub parse_ocpp_frame-serialize_ocpp_frame :
      (f : OcppFrame) (maximum : ℕ)
      → decode (encode (Json.array (frame_items f))) ≡ some (Json.array (frame_items f))
      → IsWellFormed f
      → byte_length (serialize_ocpp_frame decode encode byte_length f) ≤ maximum
      → parse_ocpp_frame decode encode byte_length
          (serialize_ocpp_frame decode encode byte_length f)
          maximum
        ≡ inr f
  unfolding parse_ocpp_frame serialize_ocpp_frame parse_decoded
  parse_ocpp_frame-serialize_ocpp_frame f maximum back w within =
      rw (not_over within, back) (parse_items-frame_items f w)

  parse_ocpp_frame-within :
      (raw : String) (maximum : ℕ) {f : OcppFrame}
      → parse_ocpp_frame decode encode byte_length raw maximum ≡ inr f
      → (byte_length raw ≤ maximum) × (parse_decoded (decode raw) ≡ inr f)
  unfolding parse_ocpp_frame
  parse_ocpp_frame-within raw maximum h = ground arith

  -- Every frame that the parser returns is well formed and came within the limit of bytes.
  pub parse_ocpp_frame-IsWellFormed :
      (raw : String) (maximum : ℕ) {f : OcppFrame}
      → parse_ocpp_frame decode encode byte_length raw maximum ≡ inr f
      → IsWellFormed f × (byte_length raw ≤ maximum)
  parse_ocpp_frame-IsWellFormed raw maximum h =
      let (within, g) = parse_ocpp_frame-within raw maximum h in
      let (items, unique_id, v, m) = parse_decoded-message (decode raw) g in
      (parse_message-IsWellFormed (get_item items 0) unique_id items v m, within)
