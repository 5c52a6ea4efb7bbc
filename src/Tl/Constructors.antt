-- ===== src/Tl/Constructors.antt =====
-- The TL constructor numbers of mtproto/*.go that the other modules use.
use mt_pro_go.Prelude.{ℕ}

abbrev pub constructor_auth_send_code : ℕ
constructor_auth_send_code = 0xa677244f

abbrev pub constructor_auth_sign_in : ℕ
constructor_auth_sign_in = 0x8d52a951

abbrev pub constructor_code_settings : ℕ
constructor_code_settings = 0xad253d78

abbrev pub constructor_auth_sent_code : ℕ
constructor_auth_sent_code = 0x5e002502

abbrev pub constructor_auth_sent_code_success : ℕ
constructor_auth_sent_code_success = 0x2390fe44

abbrev pub constructor_auth_sent_code_payment_required : ℕ
constructor_auth_sent_code_payment_required = 0xd7a2fcf9

abbrev pub constructor_sent_code_type_app : ℕ
constructor_sent_code_type_app = 0x3dbb5986

abbrev pub constructor_sent_code_type_sms : ℕ
constructor_sent_code_type_sms = 0xc000bba2

abbrev pub constructor_sent_code_type_call : ℕ
constructor_sent_code_type_call = 0x5353e5a7

abbrev pub constructor_sent_code_type_flash_call : ℕ
constructor_sent_code_type_flash_call = 0xab03c6d9

abbrev pub constructor_sent_code_type_missed_call : ℕ
constructor_sent_code_type_missed_call = 0x82006484

abbrev pub constructor_sent_code_type_email_code : ℕ
constructor_sent_code_type_email_code = 0xf450f59b

abbrev pub constructor_sent_code_type_set_up_email_req : ℕ
constructor_sent_code_type_set_up_email_req = 0xa5491dea

abbrev pub constructor_sent_code_type_fragment_sms : ℕ
constructor_sent_code_type_fragment_sms = 0xd9565c39

abbrev pub constructor_sent_code_type_firebase_sms : ℕ
constructor_sent_code_type_firebase_sms = 0x009fd736

abbrev pub constructor_sent_code_type_sms_word : ℕ
constructor_sent_code_type_sms_word = 0xa416ac81

abbrev pub constructor_sent_code_type_sms_phrase : ℕ
constructor_sent_code_type_sms_phrase = 0xb37794af

abbrev pub constructor_auth_import_bot_authorization : ℕ
constructor_auth_import_bot_authorization = 0x67a3ff2c

abbrev pub constructor_messages_send_message : ℕ
constructor_messages_send_message = 0xfe05dc9a

abbrev pub constructor_messages_edit_message : ℕ
constructor_messages_edit_message = 0xdfd14005

abbrev pub constructor_messages_delete_messages : ℕ
constructor_messages_delete_messages = 0xe58e95d2

abbrev pub constructor_input_peer_self : ℕ
constructor_input_peer_self = 0x7da07ec9

abbrev pub constructor_input_peer_chat : ℕ
constructor_input_peer_chat = 0x35a95cb9

abbrev pub constructor_input_peer_user : ℕ
constructor_input_peer_user = 0xdde8a54c

abbrev pub constructor_input_peer_channel : ℕ
constructor_input_peer_channel = 0x27bcbbfc

abbrev pub constructor_updates_get_difference : ℕ
constructor_updates_get_difference = 0x19c2f763

abbrev pub constructor_difference_empty : ℕ
constructor_difference_empty = 0x5d75a138

abbrev pub constructor_difference : ℕ
constructor_difference = 0x00f49ca0

abbrev pub constructor_difference_slice : ℕ
constructor_difference_slice = 0xa8fb1981

abbrev pub constructor_difference_too_long : ℕ
constructor_difference_too_long = 0x4afe8f6d

abbrev pub constructor_message_empty : ℕ
constructor_message_empty = 0x90a6ca84

abbrev pub constructor_message : ℕ
constructor_message = 0x9815cec8

abbrev pub constructor_peer_user : ℕ
constructor_peer_user = 0x59511722

abbrev pub constructor_peer_chat : ℕ
constructor_peer_chat = 0x36c6019a

abbrev pub constructor_peer_channel : ℕ
constructor_peer_channel = 0xa2a5371e

abbrev pub constructor_message_entity_bot_command : ℕ
constructor_message_entity_bot_command = 0x6cef8ac7

abbrev pub constructor_update_new_message : ℕ
constructor_update_new_message = 0x1f2b0afd

abbrev pub constructor_update_new_channel_message : ℕ
constructor_update_new_channel_message = 0x62ba04d9

abbrev pub constructor_users_get_users : ℕ
constructor_users_get_users = 0x0d91a548

abbrev pub constructor_contacts_resolve_user : ℕ
constructor_contacts_resolve_user = 0x725afbbc

abbrev pub constructor_contacts_resolved_peer : ℕ
constructor_contacts_resolved_peer = 0x7f077ad9

abbrev pub constructor_input_user_self : ℕ
constructor_input_user_self = 0xf7c1b13f

abbrev pub constructor_input_user : ℕ
constructor_input_user = 0xf21158c6

abbrev pub constructor_input_reply_to_message : ℕ
constructor_input_reply_to_message = 0x869fbe10

abbrev pub constructor_messages_forward : ℕ
constructor_messages_forward = 0x978928ca

abbrev pub constructor_messages_get_history : ℕ
constructor_messages_get_history = 0x4423e6c5

abbrev pub constructor_channels_delete : ℕ
constructor_channels_delete = 0x84c1fd4e

abbrev pub constructor_input_channel : ℕ
constructor_input_channel = 0xf35aec28

abbrev pub constructor_rpc_result : ℕ
constructor_rpc_result = 0xf35c6d01

abbrev pub constructor_rpc_error : ℕ
constructor_rpc_error = 0x2144ca19

abbrev pub constructor_msg_container : ℕ
constructor_msg_container = 0x73f1f8dc

abbrev pub constructor_bad_msg_notification : ℕ
constructor_bad_msg_notification = 0xa7eff811

abbrev pub constructor_bad_server_salt : ℕ
constructor_bad_server_salt = 0xedab447b

abbrev pub constructor_new_session_created : ℕ
constructor_new_session_created = 0x9ec20908

abbrev pub constructor_gzip_packed : ℕ
constructor_gzip_packed = 0x3072cfa1

abbrev pub constructor_help_get_config : ℕ
constructor_help_get_config = 0xc4f9186b

abbrev pub constructor_invoke_with_layer : ℕ
constructor_invoke_with_layer = 0xda9b0d0d

abbrev pub constructor_init_connection : ℕ
constructor_init_connection = 0xc1cd5ea9

abbrev pub constructor_bool_false : ℕ
constructor_bool_false = 0xbc799737

abbrev pub constructor_bool_true : ℕ
constructor_bool_true = 0x997275b5

abbrev pub constructor_upload_save_file_part : ℕ
constructor_upload_save_file_part = 0xb304a621

abbrev pub constructor_upload_save_big_file_part : ℕ
constructor_upload_save_big_file_part = 0xde7b673d

abbrev pub constructor_upload_get_file : ℕ
constructor_upload_get_file = 0xbe5335be

abbrev pub constructor_upload_file : ℕ
constructor_upload_file = 0x096a18d5

abbrev pub constructor_upload_file_cdn_redirect : ℕ
constructor_upload_file_cdn_redirect = 0xf18cda44

abbrev pub constructor_input_file : ℕ
constructor_input_file = 0xf52ff27f

abbrev pub constructor_input_file_big : ℕ
constructor_input_file_big = 0xfa4f0bb5

abbrev pub constructor_input_media_uploaded_photo : ℕ
constructor_input_media_uploaded_photo = 0x1e287d04

abbrev pub constructor_input_media_uploaded_document : ℕ
constructor_input_media_uploaded_document = 0x037c9330

abbrev pub constructor_document_attribute_filename : ℕ
constructor_document_attribute_filename = 0x15590068

abbrev pub constructor_messages_send_media : ℕ
constructor_messages_send_media = 0xac55d9c1

abbrev pub constructor_input_document_file_location : ℕ
constructor_input_document_file_location = 0xbad07584

abbrev pub constructor_input_photo_file_location : ℕ
constructor_input_photo_file_location = 0x40181ffe

abbrev pub constructor_account_password : ℕ
constructor_account_password = 0x957b50fb

abbrev pub constructor_password_kdf_algo_sha256_sha256_pbkdf2_hmacsha512_iter100000_sha256_mod_pow :
    ℕ
constructor_password_kdf_algo_sha256_sha256_pbkdf2_hmacsha512_iter100000_sha256_mod_pow = 0x3a912d4a

abbrev pub constructor_password_kdf_algo_unknown : ℕ
constructor_password_kdf_algo_unknown = 0xd45ab096

abbrev pub constructor_input_check_password_srp : ℕ
constructor_input_check_password_srp = 0xd27ff082

abbrev pub constructor_auth_check_password : ℕ
constructor_auth_check_password = 0xd18b4d16

abbrev pub constructor_user : ℕ
constructor_user = 0x020b1422

abbrev pub constructor_user_empty : ℕ
constructor_user_empty = 0xd3bc4b7a

abbrev pub constructor_chat : ℕ
constructor_chat = 0x41cbf256

abbrev pub constructor_chat_forbidden : ℕ
constructor_chat_forbidden = 0x6592a1a7

abbrev pub constructor_channel : ℕ
constructor_channel = 0xfe685355

abbrev pub constructor_channel_legacy : ℕ
constructor_channel_legacy = 0x7482147e

abbrev pub constructor_channel_forbidden : ℕ
constructor_channel_forbidden = 0x17d493d5

abbrev pub constructor_updates_state : ℕ
constructor_updates_state = 0xa56c2a3e

abbrev pub constructor_req_pq_multi : ℕ
constructor_req_pq_multi = 0xbe7e8ef1

abbrev pub constructor_res_pq : ℕ
constructor_res_pq = 0x05162463

abbrev pub constructor_vector : ℕ
constructor_vector = 0x1cb5c415

abbrev pub constructor_pq_inner_data_dc : ℕ
constructor_pq_inner_data_dc = 0xa9f55f95

abbrev pub constructor_req_dh_params : ℕ
constructor_req_dh_params = 0xd712e4be

abbrev pub constructor_server_dh_params_ok : ℕ
constructor_server_dh_params_ok = 0xd0e8075c

abbrev pub constructor_server_dh_params_bad : ℕ
constructor_server_dh_params_bad = 0x79cb045d

abbrev pub constructor_server_dh_inner_data : ℕ
constructor_server_dh_inner_data = 0xb5890dba

abbrev pub constructor_set_client_dh_params : ℕ
constructor_set_client_dh_params = 0xf5045f1f

abbrev pub constructor_client_dh_inner_data : ℕ
constructor_client_dh_inner_data = 0x6643b654

abbrev pub constructor_dh_gen_ok : ℕ
constructor_dh_gen_ok = 0x3bcbf734

abbrev pub constructor_dh_gen_retry : ℕ
constructor_dh_gen_retry = 0x46dc1fb9

abbrev pub constructor_dh_gen_fail : ℕ
constructor_dh_gen_fail = 0xa69dae02
