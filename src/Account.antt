-- ===== src/Account.antt =====
-- mtproto/account.go and mtproto/client.go: the queries of a login, in the wrapping that a new
-- connection needs, the answer to a request for a code, and the search for the data center.
pub mod SentCode
pub mod Migrate
use mt_pro_go.Prelude.{ℕ, List, [], if◌then◌else◌}
use mt_pro_go.Prelude.Int.{ℤ, pos, leb_ℤ}
use mt_pro_go.Prelude.Text.{str}
use mt_pro_go.Prelude.Word.{of_int32}
use mt_pro_go.Tl.Constructors.{
  constructor_auth_send_code, constructor_auth_sign_in, constructor_code_settings,
  constructor_init_connection, constructor_invoke_with_layer,
  constructor_auth_import_bot_authorization, constructor_help_get_config,
}
use mt_pro_go.Tl.Writer.{put_int, put_string, put_raw}

abbrev pub default_api_layer : ℕ
default_api_layer = 214

abbrev pub app_version : List ℕ
app_version = str "v14.0.0-dev"

unfoldable pub init_connection : ℤ → List ℕ → List ℕ → List ℕ
init_connection api_id version query = put_raw query (
    put_string (str "en") (
      put_string [] (
        put_string (str "en") (
          put_string version (
            put_string (str "Go") (
              put_string (str "MtProGo") (
                put_int (of_int32 api_id)
                  (put_int 0 (put_int constructor_init_connection [])))))))))

unfoldable pub wrap_with_layer_and_init_connection : ℤ → List ℕ → List ℕ → List ℕ
wrap_with_layer_and_init_connection api_id version query =
    put_raw (init_connection api_id version query)
      (put_int default_api_layer (put_int constructor_invoke_with_layer []))

unfoldable pub make_help_get_config_query : ℤ → List ℕ
make_help_get_config_query api_id =
    let help = put_int constructor_help_get_config [] in
    if leb_ℤ api_id (pos 0)
    then help
    else wrap_with_layer_and_init_connection api_id app_version help

unfoldable pub make_import_bot_authorization_query : ℤ → List ℕ → List ℕ → List ℕ
make_import_bot_authorization_query api_id api_hash bot_token =
    wrap_with_layer_and_init_connection api_id app_version (
      put_string bot_token (
        put_string api_hash (
          put_int (of_int32 api_id)
            (put_int 0 (put_int constructor_auth_import_bot_authorization [])))))

unfoldable pub make_auth_send_code_query : ℤ → List ℕ → List ℕ → List ℕ
make_auth_send_code_query api_id api_hash phone_number =
    wrap_with_layer_and_init_connection api_id app_version (
      put_int 0 (
        put_int constructor_code_settings (
          put_string api_hash (
            put_int (of_int32 api_id)
              (put_string phone_number (put_int constructor_auth_send_code []))))))

unfoldable pub make_auth_sign_in_query : ℤ → List ℕ → List ℕ → List ℕ → List ℕ
make_auth_sign_in_query api_id phone_number phone_code_hash phone_code =
    wrap_with_layer_and_init_connection api_id app_version (
      put_string phone_code (
        put_string phone_code_hash
          (put_string phone_number (put_int 1 (put_int constructor_auth_sign_in [])))))
