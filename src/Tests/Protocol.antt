-- ===== src/Tests/Protocol.antt =====
-- The protocol layer at concrete inputs.
use mt_pro_go.Prelude.{
  ℕ, ◌%◌, ◌^◌, ◌≡◌, ◌≢◌, ◌↔◌, refl, arith, false, length-replicate, List, [], ◌∷◌, ◌++◌, Any, some,
  length, replicate, ok,
}
use mt_pro_go.Prelude.Int.{pos, negsuc, eq_ℤ}
use mt_pro_go.Prelude.Text.{str, str_eq}
use mt_pro_go.Tl.Writer.{put_bytes, put_padding}
use mt_pro_go.Tl.Reader.{bytes, value, new_reader}
use mt_pro_go.Tl.RoundTrip.{bytes-put_bytes}
use mt_pro_go.Tl.TooLong.{bytes-put_bytes_too_long}
use mt_pro_go.Prelude.Word.{le_bytes}
use mt_pro_go.Abridged.{Conn, write, abridged_init, abridged_write}
use mt_pro_go.Abridged.RoundTrip.{
  frame, IsPacket, read_packets, write_packets, read_packets-write_packets, through, through_iff,
}
use mt_pro_go.State.{parse_updates_state, state_bytes, parse_updates_state-bytes}
use mt_pro_go.Peers.{PeerRef, peer_ref, user_access_hash}
use mt_pro_go.Peers.Scanned.{IsHashOf, user_access_hash_sound}
use mt_pro_go.Difference.TextMessage.{parse_text_message}
use mt_pro_go.Tl.Constructors.{constructor_vector}
use mt_pro_go.Difference.Vectors.{parse_update_vector}
use mt_pro_go.Difference.VectorRoundTrip.{
  Update, updates_bytes, message_of, parse_update_vector-encode,
}
use mt_pro_go.Difference.RoundTrip.{encode_test_message, parse_text_message-encode}
use mt_pro_go.Unencrypted.{
  build_unencrypted_message, parse_unencrypted_message, parse_unencrypted_message-build,
}
use mt_pro_go.InputPeer.{
  input_peer, input_peer_channel, make_messages_send_message_query,
  make_messages_send_message_query-input_peer,
}
use mt_pro_go.State.Scan.{scan_updates_state}
use mt_pro_go.State.Found.{scan_updates_state-bytes}

-- "hi" behind one byte: a header, two bytes and one zero.
put_bytes_hi : put_bytes (104 ∷ 105 ∷ []) (7 ∷ []) ≡ 7 ∷ 2 ∷ 104 ∷ 105 ∷ 0 ∷ []
unfolding put_bytes put_padding
put_bytes_hi = refl

bytes-put_bytes_example :
    bytes (record { buf = put_bytes (104 ∷ 105 ∷ []) (7 ∷ []) ++ (9 ∷ []); off = 1 })
    ≡ ok (
      104 ∷ 105 ∷ [],
      record {
        buf = put_bytes (104 ∷ 105 ∷ []) (7 ∷ []) ++ (9 ∷ []);
        off = length (put_bytes (104 ∷ 105 ∷ []) (7 ∷ []));
      },
    )
bytes-put_bytes_example = bytes-put_bytes (7 ∷ []) (104 ∷ 105 ∷ []) (9 ∷ []) (omega arith)

-- 16 MiB of zeros.
unfoldable long_text : List ℕ
long_text = replicate (2 ^ 24) 0

length-long_text : length long_text ≡ 2 ^ 24
unfolding long_text
length-long_text = length-replicate {A = ℕ} (2 ^ 24) 0

bytes-put_bytes_too_long_example :
    value (bytes (new_reader (put_bytes long_text [] ++ []))) ≢ ok long_text
bytes-put_bytes_too_long_example =
    bytes-put_bytes_too_long long_text [] (omega (arith, length-long_text))

abbrev idle : Conn
idle = record { incoming = []; sent = 0xef ∷ []; broken = false }

abbrev two_words : List ℕ
two_words = 1 ∷ 2 ∷ 3 ∷ 4 ∷ 5 ∷ 6 ∷ 7 ∷ 8 ∷ []

abbrev waiting_conn : Conn
waiting_conn = record { incoming = frame two_words ++ (9 ∷ []); sent = []; broken = false }

abbrev far_end : Conn
far_end = record { incoming = (frame two_words ++ []) ++ (9 ∷ []); sent = []; broken = false }

through_iff_example :
    (through two_words (9 ∷ []) idle far_end ≡ ok (two_words, record far_end { incoming = 9 ∷ [] }))
    ↔ IsPacket two_words
through_iff_example = through_iff two_words (9 ∷ []) idle far_end refl

abbrev fresh_conn : Conn
fresh_conn = record { incoming = []; sent = []; broken = false }

-- The connection after `abridged_init`.
abbrev opened_conn : Conn
opened_conn = record { incoming = []; sent = 0xef ∷ []; broken = false }

opened : abridged_init fresh_conn ≡ ok opened_conn
unfolding abridged_init write
opened = refl

abbrev written_conn : Conn
written_conn = record { incoming = []; sent = 0xef ∷ (frame two_words ++ []); broken = false }

wrote_two_words : write_packets (two_words ∷ []) opened_conn ≡ ok written_conn
unfolding write_packets abridged_write write frame
wrote_two_words = refl

read_packets-write_packets_example : read_packets 1 far_end ≡ ok (two_words ∷ [])
read_packets-write_packets_example =
    read_packets-write_packets (two_words ∷ []) (9 ∷ []) opened_conn far_end written_conn
      ((omega arith, refl, omega arith), tt) wrote_two_words refl refl

abbrev update : Update
update = record {
  in_channel = false;
  id = pos 7;
  from_id = pos 42;
  chat_id = negsuc 4;
  text = str "/start";
  pts = 3;
  pts_count = 1;
}

parse_update_vector-encode_example :
    value (
      parse_update_vector (
        new_reader
          (le_bytes 4 constructor_vector ++ (le_bytes 4 1 ++ (updates_bytes (update ∷ []) ++ [])))))
    ≡ ok (message_of update ∷ [])
parse_update_vector-encode_example =
    parse_update_vector-encode (update ∷ []) []
      (
        record {
          id_fits = (omega arith, omega arith);
          from_fits = (omega arith, omega arith);
          chat_fits = (omega arith, omega arith);
          text_fits = omega arith;
          pts_fits = omega arith;
          count_fits = omega arith;
        },
        tt,
      )
      (omega arith)

parse_updates_state-bytes_example :
    parse_updates_state (state_bytes (pos 5) (pos 0) (pos 100) (negsuc 0) (pos 2) ++ (1 ∷ []))
    ≡ ok (record {
      pts = pos 5;
      qts = pos 0;
      date = pos 100;
      seq = negsuc 0;
      unread_count = pos 2;
      raw = state_bytes (pos 5) (pos 0) (pos 100) (negsuc 0) (pos 2) ++ (1 ∷ []);
    })
parse_updates_state-bytes_example =
    parse_updates_state-bytes (pos 5) (pos 0) (pos 100) (negsuc 0) (pos 2) (1 ∷ []) (omega arith)
      (omega arith) (omega arith) (omega arith) (omega arith)

parse_text_message-encode_example :
    value (
      parse_text_message
        (new_reader (encode_test_message (pos 7) (pos 42) (negsuc 4) (str "/start") ++ [])))
    ≡ ok (
        some (record {
          id = pos 7;
          chat_id = negsuc 4;
          from_id = pos 42;
          chat_kind = str "user";
          from_kind = str "user";
          date = pos 123;
          text = str "/start";
          raw = [];
        }))
parse_text_message-encode_example =
    parse_text_message-encode (pos 7) (pos 42) (negsuc 4) (str "/start") [] (omega arith)
      (omega arith) (omega arith) (omega arith)

abbrev known_peers : List PeerRef
known_peers = peer_ref (pos 3) (pos 0) (str "user") ∷ peer_ref (pos 3) (pos 77) (str "user") ∷ []

found_hash : user_access_hash known_peers (pos 3) ≡ some (pos 77)
unfolding user_access_hash
found_hash = unfold eq_ℤ str_eq in refl

user_access_hash_sound_example :
    Any (IsHashOf (pos 3) (pos 77)) known_peers × (pos 77 ≢ pos 0) × (pos 3 ≢ pos 0)
user_access_hash_sound_example = user_access_hash_sound known_peers (pos 3) (pos 77) found_hash

parse_unencrypted_message-build_example :
    (parse_unencrypted_message (build_unencrypted_message (pos 4) (1 ∷ 2 ∷ 3 ∷ []))
      ≡ ok (1 ∷ 2 ∷ 3 ∷ []))
    × (length (build_unencrypted_message (pos 4) (1 ∷ 2 ∷ 3 ∷ [])) % 4 ≡ 0)
parse_unencrypted_message-build_example =
    parse_unencrypted_message-build (pos 4) (1 ∷ 2 ∷ 3 ∷ []) (omega arith)

abbrev channel_ref : PeerRef
channel_ref = peer_ref (pos 3) (pos 77) (str "supergroup")

channel_input : input_peer channel_ref ≡ some (input_peer_channel (pos 3) (pos 77))
unfolding input_peer eq_ℤ str_eq
channel_input = refl

make_messages_send_message_query-input_peer_example :
    (query : List ℕ) × (make_messages_send_message_query
        (pos 9)
        (input_peer_channel (pos 3) (pos 77))
        (str "hi")
      ≡ ok query)
make_messages_send_message_query-input_peer_example =
    make_messages_send_message_query-input_peer channel_ref (input_peer_channel (pos 3) (pos 77))
      (pos 9) (str "hi") channel_input

scan_updates_state-bytes_example :
    scan_updates_state
      ((1 ∷ 2 ∷ 3 ∷ 4 ∷ []) ++ state_bytes (pos 5) (pos 0) (pos 100) (negsuc 0) (pos 2))
    ≡ some (record {
      pts = pos 5;
      qts = pos 0;
      date = pos 100;
      seq = negsuc 0;
      unread_count = pos 2;
      raw = state_bytes (pos 5) (pos 0) (pos 100) (negsuc 0) (pos 2);
    })
scan_updates_state-bytes_example =
    scan_updates_state-bytes (1 ∷ 2 ∷ 3 ∷ 4 ∷ []) (pos 5) (pos 0) (pos 100) (negsuc 0) (pos 2)
      (omega arith) (omega arith) (omega arith) (omega arith) (omega arith)
