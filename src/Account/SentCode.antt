-- ===== src/Account/SentCode.antt =====
-- mtproto/account.go, `parseSentCodeResult` and `skipSentCodeType`.
use mt_pro_go.Prelude.{ℕ, List, [], ◌||◌, if◌then◌else◌, ◌==◌, Result, msg_num}
use mt_pro_go.Prelude.Int.{ℤ, pos}
use mt_pro_go.Prelude.Word.{to_int32, has_bit}
use mt_pro_go.Tl.Constructors.{
  constructor_auth_sent_code, constructor_auth_sent_code_success,
  constructor_auth_sent_code_payment_required, constructor_sent_code_type_app,
  constructor_sent_code_type_sms, constructor_sent_code_type_call,
  constructor_sent_code_type_flash_call, constructor_sent_code_type_missed_call,
  constructor_sent_code_type_email_code, constructor_sent_code_type_set_up_email_req,
  constructor_sent_code_type_fragment_sms, constructor_sent_code_type_firebase_sms,
  constructor_sent_code_type_sms_word, constructor_sent_code_type_sms_phrase,
}
use mt_pro_go.Tl.Reader.{
  Parse, ◌>>=◌, ◌>>◌, pure, fail, value, new_reader, int, long, bytes, string,
}
use mt_pro_go.Difference.TextMessage.{skip_if}

-- Without the phone number, the body and the message, which are only carried along.
pub record SentCodeResult : Type 0 where
  pub phone_code_hash : List ℕ
  pub constructor_id : ℕ
  pub code_type_constructor : ℕ
  pub timeout : ℤ

abbrev pub bare_result : ℕ → SentCodeResult
bare_result constructor = record {
  phone_code_hash = [];
  constructor_id = constructor;
  code_type_constructor = 0;
  timeout = pos 0;
}

unfoldable pub skip_email_code : Parse (Unit {0})
skip_email_code = do
  flags ← int
  _ ← string
  _ ← int
  _ ← skip_if (has_bit flags 3) int
  skip_if (has_bit flags 4) int

unfoldable pub skip_firebase_sms : Parse (Unit {0})
skip_firebase_sms = do
  flags ← int
  _ ← skip_if (has_bit flags 0) bytes
  _ ← skip_if (has_bit flags 2) (long >> bytes)
  _ ← skip_if (has_bit flags 1) (string >> int)
  _ ← int
  pure tt

unfoldable pub skip_sent_code_type : ℕ → Parse (Unit {0})
skip_sent_code_type c =
    if c == constructor_sent_code_type_app
      || c == constructor_sent_code_type_sms
      || c == constructor_sent_code_type_call
    then int >> pure tt
    else if c == constructor_sent_code_type_flash_call
    then string >> pure tt
    else if c == constructor_sent_code_type_missed_call
        || c == constructor_sent_code_type_fragment_sms
    then string >> int >> pure tt
    else if c == constructor_sent_code_type_email_code
    then skip_email_code
    else if c == constructor_sent_code_type_set_up_email_req
    then int >> pure tt
    else if c == constructor_sent_code_type_firebase_sms
    then skip_firebase_sms
    else if c == constructor_sent_code_type_sms_word || c == constructor_sent_code_type_sms_phrase
    then (int >>= λ flags. skip_if (has_bit flags 0) string)
    else fail (msg_num "mtproto: unsupported sent code type 0x%08x" c)

unfoldable pub read_timeout : ℕ → Parse ℤ
read_timeout flags = if has_bit flags 2 then (int >>= λ t. pure (to_int32 t)) else pure (pos 0)

unfoldable pub sent_code : ℕ → Parse SentCodeResult
sent_code constructor = do
  flags ← int
  code_type ← int
  _ ← skip_sent_code_type code_type
  hash ← string
  _ ← skip_if (has_bit flags 1) int
  timeout ← read_timeout flags
  pure (record {
    phone_code_hash = hash;
    constructor_id = constructor;
    code_type_constructor = code_type;
    timeout = timeout;
  })

unfoldable pub payment_required : ℕ → Parse SentCodeResult
payment_required constructor = do
  _ ← string
  hash ← string
  pure (record (bare_result constructor) { phone_code_hash = hash })

unfoldable pub sent_code_case : ℕ → Parse SentCodeResult
sent_code_case constructor =
    if constructor == constructor_auth_sent_code
    then sent_code constructor
    else if constructor == constructor_auth_sent_code_success
    then pure (bare_result constructor)
    else if constructor == constructor_auth_sent_code_payment_required
    then payment_required constructor
    else fail (msg_num "mtproto: expected auth.SentCode, got 0x%08x" constructor)

unfoldable pub parse_sent_code_result : List ℕ → Result SentCodeResult
parse_sent_code_result body = value ((int >>= sent_code_case) (new_reader body))
