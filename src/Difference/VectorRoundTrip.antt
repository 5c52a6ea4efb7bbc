-- ===== src/Difference/VectorRoundTrip.antt =====
-- mtproto/difference.go, `parseUpdateVector`: the updates of a vector are read back.

use mt_pro_go.Prelude.{
  ℕ, ◌-◌, ◌+◌, ◌^◌, ◌<◌, ◌≡◌, refl, ap, ◌∙◌, arith, Bool, true, false, List, [], ◌∷◌, ◌++◌, All,
  append_assoc, append-nil, map, some, length, ok, take-length_append,
}
use mt_pro_go.Prelude.Int.{ℤ}
use mt_pro_go.Prelude.Word.{le_bytes, IsI32, IsI64, IsU32}
use mt_pro_go.Tl.Constructors.{
  constructor_vector, constructor_update_new_message, constructor_update_new_channel_message,
}
use mt_pro_go.Tl.Reader.{Parse, value, new_reader}
use mt_pro_go.Tl.Reads.{Reads, Reads-bind, Reads-int, Reads-pure, Reads-whole}
use mt_pro_go.Difference.Entities.{expect_vector}
use mt_pro_go.Difference.TextMessage.{TextMessage}
use mt_pro_go.Difference.Vectors.{
  with_raw, keep, parse_update, known_or_end, parse_updates, parse_update_vector,
}
use mt_pro_go.Difference.RoundTrip.{encode_test_message, sent_message, Reads-encoded}

-- An update with a new message, of a channel or not.
pub record Update : Type 0 where
  pub in_channel : Bool
  pub id : ℤ
  pub from_id : ℤ
  pub chat_id : ℤ
  pub text : List ℕ
  pub pts : ℕ
  pub pts_count : ℕ

pub record IsUpdate (u : Update) : Type 0 where
  pub id_fits : IsI32 u.id
  pub from_fits : IsI64 u.from_id
  pub chat_fits : IsI64 u.chat_id
  pub text_fits : length u.text < 2 ^ 24
  pub pts_fits : IsU32 u.pts
  pub count_fits : IsU32 u.pts_count

abbrev pub constructor_of : Bool → ℕ
constructor_of true = constructor_update_new_channel_message
constructor_of false = constructor_update_new_message

-- The bytes behind the constructor: the message, `pts` and `pts_count`.
abbrev pub update_body : Update → List ℕ
update_body u =
    encode_test_message u.id u.from_id u.chat_id u.text
    ++ (le_bytes 4 u.pts ++ (le_bytes 4 u.pts_count ++ []))

abbrev pub updates_bytes : List Update → List ℕ
updates_bytes [] = []
updates_bytes (u ∷ us) =
    le_bytes 4 (constructor_of u.in_channel) ++ (update_body u ++ (updates_bytes us ++ []))

-- The message of an update, with the bytes that it was read from.
abbrev pub message_of : Update → TextMessage
message_of u = record (sent_message u.id u.from_id u.chat_id u.text) { raw = update_body u }

-- The bytes that a parse has read are kept as they stand in the buffer.
Reads-with_raw :
    {A : Type 0} (p : Parse A) (bs : List ℕ) (a : A) → Reads p bs a → Reads (with_raw p) bs (a, bs)
unfolding with_raw
Reads-with_raw p bs a h = record {
  at = λ r rest v e.
      let size : r.off + length bs - r.off ≡ length bs = omega arith in
      rw (h.at r rest v e, size, e, take-length_append bs rest) refl;
}

Reads-update :
    (u : Update)
    → IsUpdate u
    → Reads parse_update (update_body u) (some (sent_message u.id u.from_id u.chat_id u.text))
Reads-update u h =
    Reads-bind _ _
      (Reads-encoded u.id u.from_id u.chat_id u.text h.id_fits h.from_fits h.chat_fits h.text_fits)
      (Reads-bind _ _ (Reads-int u.pts h.pts_fits)
        (Reads-bind _ _ (Reads-int u.pts_count h.count_fits) (Reads-pure _)))

constructor_of-IsU32 : (b : Bool) → IsU32 (constructor_of b)
constructor_of-IsU32 true = omega arith
constructor_of-IsU32 false = omega arith

known : (b : Bool) (p : Parse (List TextMessage)) → known_or_end (constructor_of b) p ≡ p
known true p = refl
known false p = refl

Reads-updates :
    (us : List Update)
    → All IsUpdate us
    → Reads (parse_updates (length us)) (updates_bytes us) (map message_of us)
unfolding parse_updates keep
Reads-updates [] h = Reads-pure []
Reads-updates (u ∷ us) (hu, hus) =
    Reads-bind _ _ (Reads-int (constructor_of u.in_channel) (constructor_of-IsU32 u.in_channel)) (
      rw (known u.in_channel _) (
        Reads-bind _ _ (Reads-with_raw _ _ _ (Reads-update u hu))
          (Reads-bind _ _ (Reads-updates us hus) (Reads-pure _))))

-- A vector of updates with new messages, as `encodeTestMessage` writes these, is read back in its
-- order, whatever follows it: every message with its fields and with the bytes from its first to
-- the last one of `pts_count`.
pub parse_update_vector-encode :
    (us : List Update) (rest : List ℕ)
    → All IsUpdate us
    → IsU32 (length us)
    → value (
        parse_update_vector (
          new_reader (
            le_bytes 4 constructor_vector
            ++ (le_bytes 4 (length us) ++ (updates_bytes us ++ rest)))))
      ≡ ok (map message_of us)
unfolding parse_update_vector expect_vector
parse_update_vector-encode us rest h small =
    ap (λ b. value (parse_update_vector (new_reader b))) grouped
    ∙ Reads-whole rest (
        Reads-bind _ _
          (Reads-bind _ _
            (Reads-bind _ _ (Reads-int constructor_vector (omega arith)) (Reads-pure tt))
            (Reads-int (length us) small))
          (Reads-updates us h))
  where
    grouped :
        le_bytes 4 constructor_vector ++ (le_bytes 4 (length us) ++ (updates_bytes us ++ rest))
        ≡ (((le_bytes 4 constructor_vector ++ []) ++ le_bytes 4 (length us)) ++ updates_bytes us)
          ++ rest
    grouped = simp (append_assoc, append-nil)
