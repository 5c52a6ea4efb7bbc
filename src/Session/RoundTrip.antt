-- ===== src/Session/RoundTrip.antt =====
-- mtproto/session.go: a session that is written to a string and read from it again.

use mt_pro_go.Prelude.{
  ℕ, ◌<◌, ◌≡◌, ◌≢◌, refl, arith, true, false, List, ◌++◌, All, length, take, ◌==◌, ok,
}
use mt_pro_go.Prelude.Int.{ℤ, pos, eq_ℤ, eq_ℤ_iff}
use mt_pro_go.Prelude.Word.{IsByte, IsU64, IsI64}
use mt_pro_go.Prelude.Text.{str_eq, str_eq_refl}
use mt_pro_go.Session.{
  Session, valid, stamped, Codec, string_session_prefix, marshal_binary, parse_session,
  encode_string, parse_string_session,
}

abbrev pub IsAscii : ℕ → Type 0
IsAscii c = c < 128

-- The sessions that JSON can carry: text of ASCII characters, a key of bytes, and numbers that
-- their Go types hold.
pub record IsJson (s : Session) : Type 0 where
  pub kind_ascii : All IsAscii s.kind
  pub address_ascii : All IsAscii s.address
  pub key_bytes : All IsByte s.auth_key
  pub key_id : IsU64 s.auth_key_id
  pub integers :
      IsI64 s.version
      × IsI64 s.dc_id
      × IsI64 s.server_salt
      × IsI64 s.session_id
      × IsI64 s.time_offset
      × IsI64 s.created_at
      × IsI64 s.updated_at

-- What is relied on: JSON writes such a session and reads it back, base64 reads what it has
-- written, and the text of a session has no white space around it.
pub record IsCodec (codec : Codec) : Type 0 where
  pub written :
      (s : Session)
      → IsJson s
      → (b : List ℕ) × (codec.marshal s ≡ ok b)
        × ((length b == 0) ≡ false)
        × (codec.unmarshal b ≡ ok s)
  pub decoded : (b : List ℕ) → codec.decode_base64 (codec.encode_base64 b) ≡ ok b
  pub trimmed :
      (b : List ℕ)
      → codec.trim_space (string_session_prefix ++ codec.encode_base64 b)
        ≡ string_session_prefix ++ codec.encode_base64 b

parse_session-marshal :
    (codec : Codec) (s : Session) (b : List ℕ)
    → codec.unmarshal b ≡ ok s
    → (length b == 0) ≡ false
    → (eq_ℤ s.version (pos 0)) ≡ false
    → valid s ≡ ok tt
    → parse_session codec b ≡ ok s
unfolding parse_session
parse_session-marshal codec s b e long version good = rw (long, e, version, good) refl

-- A session that is written at the second `later` is what it was, but for the time of its update.
stamped-IsJson :
    (later : ℤ) (s : Session) → IsJson s → IsI64 later → IsJson (record s { updated_at = later })
stamped-IsJson later s h hl =
    let i = h.integers in
    record {
      kind_ascii = h.kind_ascii;
      address_ascii = h.address_ascii;
      key_bytes = h.key_bytes;
      key_id = h.key_id;
      integers = (i.0, i.1, i.2, i.3, i.4, i.5, hl);
    }

stamped_lem :
    (later : ℤ) (s : Session)
    → s.version ≢ pos 0
    → s.created_at ≢ pos 0
    → stamped later s ≡ record s { updated_at = later }
unfolding stamped
stamped_lem later s hv hc =
    let v : eq_ℤ s.version (pos 0) ≡ false = ground (arith, eq_ℤ_iff s.version (pos 0)) in
    let c : eq_ℤ s.created_at (pos 0) ≡ false = ground (arith, eq_ℤ_iff s.created_at (pos 0)) in
    rw (v, c) refl

-- A valid session that JSON can carry is read back from the string that is made of it at the
-- second `later`: with every field as it was, but for `updated_at`, which is `later`. It has a
-- version and a time of its creation.
pub parse_string_session-encode_string :
    (codec : Codec) (later : ℤ) (s : Session)
    → IsCodec codec
    → IsJson s
    → IsI64 later
    → valid s ≡ ok tt
    → s.version ≢ pos 0
    → s.created_at ≢ pos 0
    → (text : List ℕ) × (encode_string codec later s ≡ ok text)
      × (parse_string_session codec text ≡ ok (record s { updated_at = later }))
unfolding encode_string marshal_binary parse_string_session
parse_string_session-encode_string codec later s laws json hl good hv hc =
    let s' = record s { updated_at = later } in
    let (b, written, long, read) = laws.written s' (stamped-IsJson later s json hl) in
    let text = string_session_prefix ++ codec.encode_base64 b in
    let front : str_eq (take 5 text) string_session_prefix ≡ true =
      str_eq_refl string_session_prefix in
    let version : eq_ℤ s.version (pos 0) ≡ false = ground (arith, eq_ℤ_iff s.version (pos 0)) in
    let good' : valid s' ≡ ok tt = unfold valid in good in
    (
      text,
      rw (good, stamped_lem later s hv hc, written) refl,
      rw (laws.trimmed b, front, laws.decoded b)
          (parse_session-marshal codec s' b read long version good'),
    )
