-- ===== src/InputPeer.antt =====
-- mtproto/client.go: `InputPeer` and its encoding, the queries that carry one, and, from
-- mtproto/peers.go, the input peer of a peer reference.
use mt_pro_go.Prelude.{
  ℕ, ◌^◌, ◌≡◌, refl, arith, Bool, false, ◌||◌, List, [], ◌∷◌, Option, none, some, if◌then◌else◌,
  length, Result, ok, err, msg, and_then, inl, inr, ◌⊎◌,
}
use mt_pro_go.Prelude.Int.{ℤ, pos, eq_ℤ}
use mt_pro_go.Prelude.Text.{str, str_eq}
use mt_pro_go.Prelude.Word.{of_int32, of_int64}
use mt_pro_go.Peers.{PeerRef}
use mt_pro_go.Tl.Constructors.{
  constructor_input_peer_self, constructor_input_peer_chat, constructor_input_peer_user,
  constructor_input_peer_channel, constructor_messages_send_message,
  constructor_messages_edit_message, constructor_messages_delete_messages, constructor_vector,
}
use mt_pro_go.Tl.Writer.{Write, ◌>>◌, put_int, put_long, put_string}

pub record InputPeer : Type 0 where
  pub kind : List ℕ
  pub id : ℤ
  pub access_hash : ℤ

abbrev pub input_peer_self : InputPeer
input_peer_self = record { kind = str "self"; id = pos 0; access_hash = pos 0 }

abbrev pub input_peer_chat : ℤ → InputPeer
input_peer_chat chat_id = record { kind = str "chat"; id = chat_id; access_hash = pos 0 }

abbrev pub input_peer_user : ℤ → ℤ → InputPeer
input_peer_user user_id access_hash = record {
  kind = str "user";
  id = user_id;
  access_hash = access_hash;
}

abbrev pub input_peer_channel : ℤ → ℤ → InputPeer
input_peer_channel channel_id access_hash = record {
  kind = str "channel";
  id = channel_id;
  access_hash = access_hash;
}

-- The buffer after `encode`, or its error.
unfoldable pub encode : InputPeer → List ℕ → Result (List ℕ)
encode p b =
    if str_eq p.kind (str "self")
    then ok (put_int constructor_input_peer_self b)
    else if str_eq p.kind (str "chat")
    then (if eq_ℤ p.id (pos 0)
        then err (msg "inputPeerChat requires chat id")
        else ok ((put_int constructor_input_peer_chat >> put_long (of_int64 p.id)) b))
    else if str_eq p.kind (str "user")
    then (if eq_ℤ p.id (pos 0) || eq_ℤ p.access_hash (pos 0)
        then err (msg "inputPeerUser requires user id and access hash")
        else ok (
            (put_int constructor_input_peer_user
                >> put_long (of_int64 p.id)
                >> put_long (of_int64 p.access_hash))
              b))
    else if str_eq p.kind (str "channel")
    then (if eq_ℤ p.id (pos 0) || eq_ℤ p.access_hash (pos 0)
        then err (msg "inputPeerChannel requires channel id and access hash")
        else ok (
            (put_int constructor_input_peer_channel
                >> put_long (of_int64 p.id)
                >> put_long (of_int64 p.access_hash))
              b))
    else err (msg "unknown input peer kind")

-- `PeerRef.InputPeer`.
unfoldable pub input_peer : PeerRef → Option InputPeer
input_peer p =
    if str_eq p.kind (str "user") || str_eq p.kind (str "private")
    then (if eq_ℤ p.id (pos 0) || eq_ℤ p.access_hash (pos 0)
        then none
        else some (input_peer_user p.id p.access_hash))
    else if str_eq p.kind (str "chat") || str_eq p.kind (str "group")
    then (if eq_ℤ p.id (pos 0) then none else some (input_peer_chat p.id))
    else if str_eq p.kind (str "channel") || str_eq p.kind (str "supergroup")
    then (if eq_ℤ p.id (pos 0) || eq_ℤ p.access_hash (pos 0)
        then none
        else some (input_peer_channel p.id p.access_hash))
    else none

-- `random_id` is what `randomInt64` returns.
unfoldable pub make_messages_send_message_query : ℤ → InputPeer → List ℕ → Result (List ℕ)
make_messages_send_message_query random_id peer text =
    and_then (encode peer ((put_int constructor_messages_send_message >> put_int 0) []))
      (λ b. ok ((put_string text >> put_long (of_int64 random_id)) b))

unfoldable pub make_messages_edit_message_query : InputPeer → ℤ → List ℕ → Result (List ℕ)
make_messages_edit_message_query peer message_id text =
    and_then (encode peer ((put_int constructor_messages_edit_message >> put_int (2 ^ 11)) []))
      (λ b. ok ((put_int (of_int32 message_id) >> put_string text) b))

-- The loop over the ids.
unfoldable pub put_ids : List ℤ → Write
put_ids [] b = b
put_ids (id ∷ ids) b = put_ids ids (put_int (of_int32 id) b)

unfoldable pub make_messages_delete_messages_query : Bool → List ℤ → List ℕ
make_messages_delete_messages_query revoke ids =
    (put_int constructor_messages_delete_messages
        >> put_int (if revoke then 1 else 0)
        >> put_int constructor_vector
        >> put_int (length ids)
        >> put_ids ids)
      []

encode_user :
    (id hash : ℤ) (b : List ℕ)
    → eq_ℤ id (pos 0) ≡ false
    → eq_ℤ hash (pos 0) ≡ false
    → (out : List ℕ) × (encode (input_peer_user id hash) b ≡ ok out)
unfolding encode str_eq
encode_user id hash b hi hh = rw (hi, hh) (_, refl)

encode_chat :
    (id : ℤ) (b : List ℕ)
    → eq_ℤ id (pos 0) ≡ false
    → (out : List ℕ) × (encode (input_peer_chat id) b ≡ ok out)
unfolding encode str_eq
encode_chat id b hi = rw hi (_, refl)

encode_channel :
    (id hash : ℤ) (b : List ℕ)
    → eq_ℤ id (pos 0) ≡ false
    → eq_ℤ hash (pos 0) ≡ false
    → (out : List ℕ) × (encode (input_peer_channel id hash) b ≡ ok out)
unfolding encode str_eq
encode_channel id hash b hi hh = rw (hi, hh) (_, refl)

-- The three forms that an input peer of a reference has.
input_peer-forms :
    (p : PeerRef) (q : InputPeer)
    → input_peer p ≡ some q
    → (eq_ℤ p.id (pos 0) ≡ false)
      × ((q ≡ input_peer_chat p.id)
          ⊎ ((eq_ℤ p.access_hash (pos 0) ≡ false)
              × ((q ≡ input_peer_user p.id p.access_hash)
                  ⊎ (q ≡ input_peer_channel p.id p.access_hash))))
unfolding input_peer
input_peer-forms p q h = ground arith

input_peer-encode :
    (p : PeerRef) (q : InputPeer) (b : List ℕ)
    → input_peer p ≡ some q
    → (out : List ℕ) × (encode q b ≡ ok out)
input_peer-encode p q b h =
    let (hi, form) = input_peer-forms p q h in
    elim form [
      | inl chat ↦ rw chat (encode_chat p.id b hi)
      | inr (hh, inl user) ↦ rw user (encode_user p.id p.access_hash b hi hh)
      | inr (hh, inr channel) ↦ rw channel (encode_channel p.id p.access_hash b hi hh)
    ]

-- A peer reference gives an input peer only if it can be encoded: the query that sends a message
-- to that peer is then made without an error, whatever the text.
pub make_messages_send_message_query-input_peer :
    (p : PeerRef) (q : InputPeer) (random_id : ℤ) (text : List ℕ)
    → input_peer p ≡ some q
    → (query : List ℕ) × (make_messages_send_message_query random_id q text ≡ ok query)
unfolding make_messages_send_message_query
make_messages_send_message_query-input_peer p q random_id text h =
    let (out, e) =
      input_peer-encode p q ((put_int constructor_messages_send_message >> put_int 0) []) h in
    rw e (_, refl)
