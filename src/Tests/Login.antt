-- ===== src/Tests/Login.antt =====
-- Sessions that are kept and requests for a code at concrete inputs.
use mt_pro_go.Prelude.{
  ℕ, suc, zero, ◌≡◌, refl, arith, List, [], ◌∷◌, ◌++◌, take, drop, length, replicate,
  take-length_append, drop-length_append, Option, none, some, Error, msg, rpc_error, Result, ok,
  err,
}
use mt_pro_go.Prelude.Int.{ℤ, pos, pos_part, neg_part, sub_ℕ, eq_ℤ}
use mt_pro_go.Prelude.Text.{str, str_eq}
use mt_pro_go.Invoke.State.{EncryptedState, new_encrypted_state}
use mt_pro_go.Session.{Session, Codec, valid, export_session, encode_string, parse_string_session}
use mt_pro_go.Tests.Auth.{is_bytes, is_bytes-All}
use mt_pro_go.Session.RoundTrip.{IsCodec, IsJson, parse_string_session-encode_string}
use mt_pro_go.Account.SentCode.{SentCodeResult}
use mt_pro_go.Account.Migrate.{
  DcOption, dc_options_by_id, auth_send_code_on_dc, auth_send_code_on_dc_loops, SendsOn,
}

-- A codec for the examples: two numbers for an integer, and lists behind their lengths.
abbrev two : ℤ → List ℕ → List ℕ
two z rest = pos_part z ∷ neg_part z ∷ rest

two_lem : (z : ℤ) → sub_ℕ (pos_part z) (neg_part z) ≡ z
two_lem z = ground arith

abbrev written : Session → List ℕ
written s = two s.version (
    two s.dc_id (
      two s.server_salt (
        two s.session_id (
          two s.time_offset (
            two s.created_at (
              two s.updated_at (
                s.auth_key_id
                ∷ length s.kind
                ∷ length s.address
                ∷ (s.kind ++ (s.address ++ s.auth_key)))))))))

read : List ℕ → Result Session
read (a ∷ a' ∷ b ∷ b' ∷ c ∷ c' ∷ d ∷ d' ∷ e ∷ e' ∷ f ∷ f' ∷ g ∷ g' ∷ id ∷ k ∷ l ∷ rest) =
    ok (record {
      version = sub_ℕ a a';
      kind = take k rest;
      dc_id = sub_ℕ b b';
      address = take l (drop k rest);
      auth_key = drop l (drop k rest);
      auth_key_id = id;
      server_salt = sub_ℕ c c';
      session_id = sub_ℕ d d';
      time_offset = sub_ℕ e e';
      created_at = sub_ℕ f f';
      updated_at = sub_ℕ g g';
    })
read other = err (msg "json")

read_back : (s : Session) → read (written s) ≡ ok s
unfolding read
read_back s =
    rw
      (
        two_lem s.version,
        two_lem s.dc_id,
        two_lem s.server_salt,
        two_lem s.session_id,
        two_lem s.time_offset,
        two_lem s.created_at,
        two_lem s.updated_at,
        take-length_append s.kind (s.address ++ s.auth_key),
        drop-length_append s.kind (s.address ++ s.auth_key),
        take-length_append s.address s.auth_key,
        drop-length_append s.address s.auth_key,
      )
      refl

abbrev codec : Codec
codec = record {
  marshal = λ s. ok (written s);
  unmarshal = read;
  encode_base64 = λ b. b;
  decode_base64 = λ b. ok b;
  trim_space = λ b. b;
}

codec-IsCodec : IsCodec codec
codec-IsCodec = record {
  written = λ s _. (written s, refl, ground arith, read_back s);
  decoded = λ b. refl;
  trimmed = λ b. refl;
}

abbrev state : EncryptedState
state = new_encrypted_state (replicate 256 1) 5 (pos 6) (pos 7) (pos 8)

abbrev exported : Session
exported = export_session (pos 9) (str "bot") (pos 2) (str "dc") state

exported-IsJson : IsJson exported
unfolding export_session
exported-IsJson = record {
  kind_ascii = (omega arith, (omega arith, (omega arith, tt)));
  address_ascii = (omega arith, (omega arith, tt));
  key_bytes = is_bytes-All (replicate 256 1) (unfold is_bytes in refl);
  key_id = omega arith;
  integers = (
    (omega arith, omega arith),
    (omega arith, omega arith),
    (omega arith, omega arith),
    (omega arith, omega arith),
    (omega arith, omega arith),
    (omega arith, omega arith),
    (omega arith, omega arith),
  );
}

parse_string_session-encode_string_example :
    (text : List ℕ) × (encode_string codec (pos 10) exported ≡ ok text)
    × (parse_string_session codec text ≡ ok (record exported { updated_at = pos 10 }))
unfolding valid export_session str_eq
parse_string_session-encode_string_example =
    parse_string_session-encode_string codec (pos 10) exported codec-IsCodec exported-IsJson
      (omega arith, omega arith) refl (λ e. absurd (cc e)) (λ e. absurd (cc e))

-- Two data centers, of which each sends on to the other.
abbrev dc : ℕ → DcOption
dc n = record { id = pos n; address = [] }

abbrev dcs : List DcOption
dcs = dc 1 ∷ dc 2 ∷ []

abbrev dial : DcOption → Result ℤ
dial o = ok o.id

-- The code of the error is the number of the other one.
abbrev send : ℤ → Result SentCodeResult
send (pos (suc zero)) = err (rpc_error (pos 2) [])
send other = err (rpc_error (pos 1) [])

abbrev target : Error → Option ℤ
target (rpc_error code text) = some code
target other = none

first-SendsOn : SendsOn dcs dial send target (pos 1) (pos 2)
first-SendsOn =
    unfold eq_ℤ dc_options_by_id in
    record {
      other = refl;
      option = dc 1;
      options = [];
      listed = refl;
      client = pos 1;
      reached = refl;
      error = rpc_error (pos 2) [];
      refused = refl;
      target = refl;
    }

second-SendsOn : SendsOn dcs dial send target (pos 2) (pos 1)
second-SendsOn =
    unfold eq_ℤ dc_options_by_id in
    record {
      other = refl;
      option = dc 2;
      options = [];
      listed = refl;
      client = pos 2;
      reached = refl;
      error = rpc_error (pos 1) [];
      refused = refl;
      target = refl;
    }

auth_send_code_on_dc_loops_example : auth_send_code_on_dc dcs dial send target 9 (pos 1) ≡ none
auth_send_code_on_dc_loops_example =
    auth_send_code_on_dc_loops dcs dial send target 9 (pos 1) (pos 2) first-SendsOn second-SendsOn
