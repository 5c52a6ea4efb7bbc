-- ===== src/Password/Parse.antt =====
-- mtproto/password.go: `parseAccountPassword` and `makeAuthCheckPasswordQuery`.
use mt_pro_go.Prelude.{ℕ, Bool, true, false, List, [], if◌then◌else◌, ◌==◌, ◌||◌, Result, msg_num}
use mt_pro_go.Prelude.Int.{ℤ, pos}
use mt_pro_go.Prelude.Word.{to_int32, to_int64, of_int64, has_bit}
use mt_pro_go.Tl.Constructors.{
  constructor_account_password,
  constructor_password_kdf_algo_sha256_sha256_pbkdf2_hmacsha512_iter100000_sha256_mod_pow,
  constructor_password_kdf_algo_unknown, constructor_input_check_password_srp,
  constructor_auth_check_password,
}
use mt_pro_go.Tl.Reader.{
  Parse, ◌>>=◌, ◌>>◌, pure, fail, value, new_reader, int, long, bytes, string,
}
use mt_pro_go.Tl.Writer.{put_int, put_long, put_bytes}
use mt_pro_go.Password.{PasswordKdfAlgo, bare_algo, AccountPassword, SrpProof}

abbrev pub srp_algo : ℕ
srp_algo = constructor_password_kdf_algo_sha256_sha256_pbkdf2_hmacsha512_iter100000_sha256_mod_pow

unfoldable pub algo_fields : Parse PasswordKdfAlgo
algo_fields = do
  salt1 ← bytes
  salt2 ← bytes
  g ← int
  p ← bytes
  pure (record { constructor' = srp_algo; salt1 = salt1; salt2 = salt2; g = to_int32 g; p = p })

unfoldable pub algo_case : ℕ → Parse PasswordKdfAlgo
algo_case constructor =
    if constructor == constructor_password_kdf_algo_unknown
    then pure (bare_algo constructor)
    else if constructor == srp_algo
    then algo_fields
    else fail (msg_num "unsupported password KDF algorithm 0x%08x" constructor)

unfoldable pub parse_password_kdf_algo : Parse PasswordKdfAlgo
parse_password_kdf_algo = int >>= algo_case

unfoldable pub secure_case : ℕ → Parse (Unit {0})
secure_case constructor =
    if constructor == 0x004a8537
    then pure tt
    else if constructor == 0xbbf2dda0 || constructor == 0x86471d92
    then bytes >> pure tt
    else fail (msg_num "unsupported secure password KDF algorithm 0x%08x" constructor)

unfoldable pub skip_secure_password_kdf_algo : Parse (Unit {0})
skip_secure_password_kdf_algo = int >>= secure_case

-- A field that is there only with its flag.
unfoldable pub optional : {A : Type 0} → Bool → Parse A → A → Parse A
optional true p default = p
optional false p default = pure default

-- `CurrentAlgo`, `SRPB` and `SRPID`.
unfoldable pub srp_fields : Parse (PasswordKdfAlgo × List ℕ × ℤ)
srp_fields = do
  algo ← parse_password_kdf_algo
  srp_b ← bytes
  srp_id ← long
  pure (algo, srp_b, to_int64 srp_id)

abbrev pub no_srp : PasswordKdfAlgo × List ℕ × ℤ
no_srp = (bare_algo 0, [], pos 0)

unfoldable pub check_account_password : ℕ → Parse (Unit {0})
check_account_password constructor =
    if constructor == constructor_account_password
    then pure tt
    else fail (msg_num "mtproto: expected account.password, got 0x%08x" constructor)

-- Everything behind the flags.
unfoldable pub account_fields : ℕ → Parse AccountPassword
account_fields flags = do
  srp ← optional (has_bit flags 2) srp_fields no_srp
  hint ← optional (has_bit flags 3) string []
  _ ← optional (has_bit flags 4) string []
  _ ← parse_password_kdf_algo
  _ ← skip_secure_password_kdf_algo
  _ ← bytes
  _ ← optional (has_bit flags 5) int 0
  _ ← optional (has_bit flags 6) string []
  pure (record {
    flags = flags;
    has_recovery = has_bit flags 0;
    has_password = has_bit flags 2;
    hint = hint;
    srp_id = srp.2;
    srp_b = srp.1;
    current_algo = srp.0;
  })

unfoldable pub account_password : Parse AccountPassword
account_password = do
  constructor ← int
  _ ← check_account_password constructor
  flags ← int
  account_fields flags

unfoldable pub parse_account_password : List ℕ → Result AccountPassword
parse_account_password body = value (account_password (new_reader body))

unfoldable pub make_auth_check_password_query : SrpProof → List ℕ
make_auth_check_password_query proof = put_bytes proof.m1 (
    put_bytes proof.a (
      put_long (of_int64 proof.srp_id) (
        put_int constructor_input_check_password_srp (put_int constructor_auth_check_password []))))
