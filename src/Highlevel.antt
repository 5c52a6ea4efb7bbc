-- ===== src/Highlevel.antt =====
-- mtproto/highlevel.go: the requests with options, the resolution of user names and the users that
-- a response mentions. The random ids are parameters.
pub mod Users
pub mod Resolve
use mt_pro_go.Prelude.{
  ℕ, ◌+◌, ◌^◌, List, [], ◌∷◌, Bool, ◌||◌, if◌then◌else◌, length, Result, ok, err, msg, ◌>>=◌,
}
use mt_pro_go.Prelude.Int.{ℤ, pos, eq_ℤ, ltb_ℤ}
use mt_pro_go.Prelude.Text.{str, str_eq}
use mt_pro_go.Prelude.Word.{of_int64, of_int32}
use mt_pro_go.Tl.Constructors.{
  constructor_input_user_self, constructor_input_user, constructor_users_get_users,
  constructor_vector, constructor_contacts_resolve_user, constructor_messages_send_message,
  constructor_messages_edit_message, constructor_messages_forward, constructor_channels_delete,
  constructor_input_channel, constructor_messages_get_history, constructor_input_reply_to_message,
}
use mt_pro_go.Tl.Writer.{Write, put_int, put_long, put_string}
use mt_pro_go.Peers.{PeerRef}
use mt_pro_go.InputPeer.{InputPeer, encode, put_ids}
use mt_pro_go.Media.Encode.{flag}

pub record SendOptions : Type 0 where
  pub reply_to_message_id : ℤ
  pub silent : Bool
  pub no_webpage : Bool
  pub background : Bool

pub record ForwardOptions : Type 0 where
  pub silent : Bool
  pub drop_author : Bool
  pub drop_media_captions : Bool

pub record InputUser : Type 0 where
  pub kind : List ℕ
  pub id : ℤ
  pub access_hash : ℤ

unfoldable pub encode_user : InputUser → List ℕ → Result (List ℕ)
encode_user u b =
    if str_eq u.kind (str "self")
    then ok (put_int constructor_input_user_self b)
    else if str_eq u.kind (str "user")
    then (if eq_ℤ u.id (pos 0) || eq_ℤ u.access_hash (pos 0)
        then err (msg "inputUser requires user id and access hash")
        else ok (
            put_long (of_int64 u.access_hash)
              (put_long (of_int64 u.id) (put_int constructor_input_user b))))
    else err (msg "unknown input user kind")

-- An error of a user is passed over, and nothing is written for it.
unfoldable pub put_users : List InputUser → Write
put_users [] b = b
put_users (u ∷ us) b = put_users us (elim (encode_user u b) [ ok b' ↦ b' | err _ ↦ b ])

unfoldable pub make_users_get_users_query : List InputUser → List ℕ
make_users_get_users_query users =
    put_users users
      (put_int (length users) (put_int constructor_vector (put_int constructor_users_get_users [])))

unfoldable pub make_contacts_resolve_username_query : List ℕ → List ℕ
make_contacts_resolve_username_query username =
    put_string username (put_int 0 (put_int constructor_contacts_resolve_user []))

unfoldable pub make_messages_send_message_query_with_options :
    ℤ → InputPeer → List ℕ → SendOptions → Result (List ℕ)
make_messages_send_message_query_with_options random_id peer text opts =
    let replies = ltb_ℤ (pos 0) opts.reply_to_message_id in
    let flags =
      flag replies 0 + flag opts.no_webpage 1 + flag opts.silent 5 + flag opts.background 6 in
    encode peer (put_int flags (put_int constructor_messages_send_message [])) >>= λ b.
    let b' =
      if replies
      then put_int (of_int32 opts.reply_to_message_id)
          (put_int 0 (put_int constructor_input_reply_to_message b))
      else b in
    ok (put_long (of_int64 random_id) (put_string text b'))

unfoldable pub make_messages_edit_message_query_with_options :
    InputPeer → ℤ → List ℕ → Bool → Result (List ℕ)
make_messages_edit_message_query_with_options peer message_id text no_webpage =
    encode peer
      (put_int (2 ^ 11 + flag no_webpage 1) (put_int constructor_messages_edit_message []))
    >>= λ b. ok (put_string text (put_int (of_int32 message_id) b))

-- One random id for each message.
unfoldable pub put_longs : List ℤ → Write
put_longs [] b = b
put_longs (v ∷ vs) b = put_longs vs (put_long (of_int64 v) b)

unfoldable pub make_messages_forward_messages_query :
    List ℤ → InputPeer → InputPeer → List ℤ → ForwardOptions → Result (List ℕ)
make_messages_forward_messages_query random_ids from to ids opts =
    let flags = flag opts.silent 5 + flag opts.drop_author 11 + flag opts.drop_media_captions 12 in
    encode from (put_int flags (put_int constructor_messages_forward [])) >>= λ b.
    let with_ids = put_ids ids (put_int (length ids) (put_int constructor_vector b)) in
    encode to (put_longs random_ids (put_int (length ids) (put_int constructor_vector with_ids)))

unfoldable pub make_channels_delete_messages_query : PeerRef → List ℤ → Result (List ℕ)
make_channels_delete_messages_query channel ids =
    if eq_ℤ channel.id (pos 0) || eq_ℤ channel.access_hash (pos 0)
    then err (msg "mtproto: channel %d is missing access data")
    else ok (
        put_ids ids (
          put_int (length ids) (
            put_int constructor_vector (
              put_long (of_int64 channel.access_hash) (
                put_long (of_int64 channel.id)
                  (put_int constructor_input_channel (put_int constructor_channels_delete [])))))))

unfoldable pub make_messages_get_history_query : InputPeer → ℤ → Result (List ℕ)
make_messages_get_history_query peer limit =
    encode peer (put_int constructor_messages_get_history []) >>= λ b. ok (
      put_long 0
        (put_int 0 (put_int 0 (put_int (of_int32 limit) (put_int 0 (put_int 0 (put_int 0 b)))))))
