-- ===== src/Errors.antt =====
-- src/error.rs: the errors that requests are answered with.
use light_livechat.Base.{ℕ, String, ◌⊎◌, [], ◌∷◌}
use light_livechat.Base.Texts.{joined}

pub data LightError : Type 0 where
  not_authenticated invalid_token already_identified : LightError
  room_not_found room_full already_in_room not_in_room room_name_required : LightError
  invalid_opcode invalid_payload missing_pid : LightError
  sdp_parse_error dtls_handshake_failed srtp_error : LightError
  internal : (message : String) → LightError

unfoldable pub error_code : LightError → ℕ
error_code not_authenticated = 1001
error_code invalid_token = 1002
error_code already_identified = 1003
error_code room_not_found = 2001
error_code room_full = 2002
error_code already_in_room = 2003
error_code not_in_room = 2004
error_code room_name_required = 2005
error_code invalid_opcode = 3001
error_code invalid_payload = 3002
error_code missing_pid = 3003
error_code sdp_parse_error = 4001
error_code dtls_handshake_failed = 4002
error_code srtp_error = 4003
error_code (internal _) = 9001

-- `inl` is `Err`, `inr` is `Ok`.
abbrev pub LightResult {ℓ} : Type ℓ → Type ℓ
LightResult A = LightError ⊎ A

-- `Display`, which the attributes of the package thiserror ask for.
abbrev pub error_text : LightError → String
error_text not_authenticated = "[1001] not authenticated"
error_text invalid_token = "[1002] invalid token"
error_text already_identified = "[1003] already identified"
error_text room_not_found = "[2001] room not found"
error_text room_full = "[2002] room full"
error_text already_in_room = "[2003] already in room"
error_text not_in_room = "[2004] not in room"
error_text room_name_required = "[2005] room name required"
error_text invalid_opcode = "[3001] invalid opcode"
error_text invalid_payload = "[3002] invalid payload"
error_text missing_pid = "[3003] missing pid"
error_text sdp_parse_error = "[4001] sdp parse error"
error_text dtls_handshake_failed = "[4002] dtls handshake failed"
error_text srtp_error = "[4003] srtp error"
error_text (internal message) = joined ("[9001] internal error: " ∷ message ∷ [])
