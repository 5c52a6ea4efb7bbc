-- ===== src/Difference/Entities.antt =====
-- mtproto/difference.go, `skipMessageEntities` and `skipRawVector`.
use mt_pro_go.Prelude.{
  ℕ, zero, suc, Bool, false, List, [], ◌∷◌, ◌||◌, ◌==◌, if◌then◌else◌, msg_num, String,
}
use mt_pro_go.Tl.Constructors.{constructor_vector, constructor_message_entity_bot_command}
use mt_pro_go.Tl.Reader.{Parse, ◌>>=◌, ◌>>◌, pure, fail, int, long, string}

-- The entities that are an offset and a length.
abbrev plain_entities : List ℕ
plain_entities =
    0xbb92ba95 ∷ 0xfa04579d ∷ 0x6f635b0d ∷ constructor_message_entity_bot_command ∷ 0x6ed02538
    ∷ 0x64e475c2 ∷ 0xbd610bc9 ∷ 0x826f8b60 ∷ 0x28a20571 ∷ 0x9b69e34b ∷ 0x4c4e743f ∷ 0x9c4e7e8b
    ∷ 0xbf0693d4 ∷ 0x761e6af4 ∷ 0x32ca960f ∷ []

-- A `case` with several values.
unfoldable pub is_among : ℕ → List ℕ → Bool
is_among n [] = false
is_among n (k ∷ ks) = n == k || is_among n ks

unfoldable pub skip_entity : ℕ → Parse (Unit {0})
skip_entity constructor =
    if is_among constructor plain_entities
    then (int >> int >> pure tt)
    else if constructor == 0x73924be0
    then (int >> int >> string >> pure tt)
    else if constructor == 0x76a6d327
    then (int >> int >> string >> pure tt)
    else if constructor == 0x352dca58
    then (int >> int >> long >> pure tt)
    else if constructor == 0xc8cf05f8
    then (int >> int >> long >> pure tt)
    else if constructor == 0x20df5d0
    then (int >> int >> int >> pure tt)
    else fail (msg_num "mtproto: unsupported MessageEntity constructor 0x%08x" constructor)

-- The loop over `count` entities.
unfoldable pub skip_entities : ℕ → Parse (Unit {0})
skip_entities zero = pure tt
skip_entities (suc count) = int >>= skip_entity >> skip_entities count

-- The check of a vector's constructor; each caller has its own error text.
unfoldable pub expect_vector : String → ℕ → Parse (Unit {0})
expect_vector text vector =
    if vector == constructor_vector then pure tt else fail (msg_num text vector)

unfoldable pub skip_message_entities : Parse (Unit {0})
skip_message_entities =
    int >>= expect_vector "mtproto: expected entities vector, got 0x%08x" >> int >>= skip_entities

-- The loop returns an error in its first round.
unfoldable pub reject_objects : ℕ → Parse (Unit {0})
reject_objects zero = pure tt
reject_objects (suc count) = fail (
    msg_num "mtproto: raw vector with %d objects is not supported by the tiny V12 parser"
      (suc count))

unfoldable pub skip_raw_vector : Parse (Unit {0})
skip_raw_vector =
    int >>= expect_vector "mtproto: expected vector, got 0x%08x" >> int >>= reject_objects
