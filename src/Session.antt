-- ===== src/Session.antt =====
-- mtproto/session.go: the session that a client keeps for later runs. JSON and base64 are
-- parameters, and so is the clock.
pub mod RoundTrip
use mt_pro_go.Prelude.{
  ℕ, List, [], ◌++◌, Bool, true, not, Option, none, some, length, take, drop, if◌then◌else◌, ◌==◌,
  Result, ok, err, msg, msg_num, ◌>>=◌,
}
use mt_pro_go.Prelude.Int.{ℤ, pos, eq_ℤ, leb_ℤ}
use mt_pro_go.Prelude.Text.{str, str_eq}
use mt_pro_go.Invoke.State.{EncryptedState, new_encrypted_state}

pub record Session : Type 0 where
  pub version : ℤ
  pub kind : List ℕ
  pub dc_id : ℤ
  pub address : List ℕ
  pub auth_key : List ℕ
  pub auth_key_id : ℕ
  pub server_salt : ℤ
  pub session_id : ℤ
  pub time_offset : ℤ
  pub created_at : ℤ
  pub updated_at : ℤ

unfoldable pub valid : Session → Result (Unit {0})
valid s =
    if leb_ℤ s.dc_id (pos 0)
    then err (msg "mtproto: session dc id is required")
    else if str_eq s.address []
    then err (msg "mtproto: session dc address is required")
    else if not (length s.auth_key == 256)
    then err (msg_num "mtproto: session auth key must be 256 bytes, got %d" (length s.auth_key))
    else if s.auth_key_id == 0
    then err (msg "mtproto: session auth key id is required")
    else ok tt

-- `if s.Version == 0 { s.Version = sessionVersion }`.
abbrev pub or_value : ℤ → ℤ → ℤ
or_value old value = if eq_ℤ old (pos 0) then value else old

-- The session that is written at the second `now`.
unfoldable pub stamped : ℤ → Session → Session
stamped now s = record s {
  version = or_value s.version (pos 1);
  created_at = or_value s.created_at now;
  updated_at = now;
}

-- `json.Marshal` and `json.Unmarshal`, `EncodeToString` and `DecodeString` of
-- `base64.RawURLEncoding`, `strings.TrimSpace`.
pub record Codec : Type 0 where
  pub marshal : Session → Result (List ℕ)
  pub unmarshal : List ℕ → Result Session
  pub encode_base64 : List ℕ → List ℕ
  pub decode_base64 : List ℕ → Result (List ℕ)
  pub trim_space : List ℕ → List ℕ

abbrev pub string_session_prefix : List ℕ
string_session_prefix = str "MPG1:"

module _ (codec : Codec) where
  unfoldable pub marshal_binary : ℤ → Session → Result (List ℕ)
  marshal_binary now s = valid s >>= λ _. codec.marshal (stamped now s)

  unfoldable pub parse_session : List ℕ → Result Session
  parse_session b =
      let parsed = codec.unmarshal b >>= λ s.
      let s' = record s { version = or_value s.version (pos 1) } in valid s' >>= λ _. ok s' in
      if length b == 0 then err (msg "mtproto: empty session data") else parsed

  unfoldable pub encode_string : ℤ → Session → Result (List ℕ)
  encode_string now s =
      marshal_binary now s >>= λ b. ok (string_session_prefix ++ codec.encode_base64 b)

  unfoldable pub parse_string_session : List ℕ → Result Session
  parse_string_session value =
      let v = codec.trim_space value in
      let n = length string_session_prefix in
      let rest = if str_eq (take n v) string_session_prefix then drop n v else v in
      codec.decode_base64 rest >>= λ b. parse_session b

-- `ExportSession`, for a client that is connected.
unfoldable pub export_session : ℤ → List ℕ → ℤ → List ℕ → EncryptedState → Session
export_session now kind dc_id address state = record {
  version = pos 1;
  kind = kind;
  dc_id = dc_id;
  address = address;
  auth_key = state.auth_key;
  auth_key_id = state.auth_key_id;
  server_salt = state.server_salt;
  session_id = state.session_id;
  time_offset = state.time_offset;
  created_at = now;
  updated_at = now;
}

-- `newEncryptedStateFromSession`, with a new session id.
unfoldable pub new_encrypted_state_from_session : ℤ → Session → EncryptedState
new_encrypted_state_from_session random_id s =
    new_encrypted_state s.auth_key s.auth_key_id s.server_salt s.time_offset random_id
