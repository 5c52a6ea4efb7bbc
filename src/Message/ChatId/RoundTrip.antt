-- ===== src/Message/ChatId/RoundTrip.antt =====
-- Dialog ids keep the raw id and the kind of the chat.
use mt_pro_go.Prelude.{
  ℕ, suc, ◌+◌, ◌-◌, ◌^◌, ◌<◌, ◌≡◌, refl, ◌∙◌, arith, List, Bool, ◌||◌, ◌&&◌, if◌then◌else◌, inl,
  inr, Bool-cases, not, zero,
}
use mt_pro_go.Prelude.Int.{ℤ, pos, negsuc, eq_ℤ, ◌≤ℤ◌}
use mt_pro_go.Prelude.Word.{IsI64}
use mt_pro_go.Prelude.Text.{str, str_eq}
use mt_pro_go.Message.ChatId.{normalize_chat_id, raw_chat_id, looks_like_channel_chat_id}

-- Whether the chat type is that of a basic group, of a supergroup or channel, or another.
abbrev pub group : List ℕ → Bool
group t = str_eq t (str "group")

abbrev pub channel : List ℕ → Bool
channel t = str_eq t (str "supergroup") || str_eq t (str "channel")

-- What a positive raw id becomes.
normalize_positive :
    (raw : ℕ) (t : List ℕ)
    → raw < 2 ^ 63 - 1000000000001
    → normalize_chat_id (pos (suc raw)) t ≡ (
        if group t
        then negsuc raw
        else if channel t
        then negsuc (raw + 1000000000000)
        else pos (suc raw))
unfolding normalize_chat_id eq_ℤ
normalize_positive raw t h = ground arith

normalize_negative : (raw : ℕ) (t : List ℕ) → normalize_chat_id (negsuc raw) t ≡ negsuc raw
unfolding normalize_chat_id eq_ℤ
normalize_negative raw t = ground arith

-- A raw id from 1 to 10^12 - 1 comes back from its dialog id, whatever the chat type.
pub raw_chat_id-normalize_chat_id :
    (raw : ℕ) (t : List ℕ)
    → 0 < raw
    → raw < 1000000000000
    → raw_chat_id (normalize_chat_id (pos raw) t) ≡ pos raw
unfolding raw_chat_id
raw_chat_id-normalize_chat_id (suc raw) t h small =
    rw (normalize_positive raw t (omega arith)) (elim (Bool-cases (group t)) [
      | inl g ↦ rw g (ground arith)
      | inr g ↦ elim (Bool-cases (channel t)) [
        | inl c ↦ rw (g, c) (ground arith)
        | inr c ↦ rw (g, c) (ground arith)
      ]
    ])
raw_chat_id-normalize_chat_id zero t h small = absurd (omega arith)

-- Two raw ids from 1 to 10^12 - 1 with chat types of one dialog id are the same id, of one class
-- of chats: both basic groups, both supergroups or channels, or neither.
pub normalize_chat_id-injective :
    (a b : ℕ) (s t : List ℕ)
    → 0 < a
    → a < 1000000000000
    → 0 < b
    → b < 1000000000000
    → normalize_chat_id (pos a) s ≡ normalize_chat_id (pos b) t
    → (a ≡ b) × (group s ≡ group t) × ((not (group s) && channel s) ≡ (not (group t) && channel t))
normalize_chat_id-injective (suc a) (suc b) s t ha a_small hb b_small e =
    ground (arith, normalize_positive a s, normalize_positive b t)
normalize_chat_id-injective zero b s t ha a_small hb b_small e = absurd (omega arith)
normalize_chat_id-injective a zero s t ha a_small hb b_small e = absurd (omega arith)

-- A dialog id of a raw id from 1 to 10^12 - 1 has the -100… form exactly for supergroups and channels.
pub looks_like_channel-normalize :
    (raw : ℕ) (t : List ℕ)
    → 0 < raw
    → raw < 1000000000000
    → looks_like_channel_chat_id (normalize_chat_id (pos raw) t) ≡ (not (group t) && channel t)
unfolding looks_like_channel_chat_id
looks_like_channel-normalize (suc raw) t h small =
    rw (normalize_positive raw t (omega arith)) (ground arith)
looks_like_channel-normalize zero t h small = absurd (omega arith)

-- Normalizing a dialog id again changes nothing, for every raw id that is not within 10^12 of the
-- largest int64.
pub normalize_chat_id_idempotent :
    (raw : ℤ) (t : List ℕ)
    → IsI64 raw
    → raw ≤ℤ pos (2 ^ 63 - 1 - 1000000000000)
    → normalize_chat_id (normalize_chat_id raw t) t ≡ normalize_chat_id raw t
normalize_chat_id_idempotent (negsuc raw) t h small =
    rw (normalize_negative raw t) (normalize_negative raw t)
normalize_chat_id_idempotent (pos zero) t h small = unfold normalize_chat_id eq_ℤ in refl
normalize_chat_id_idempotent (pos (suc raw)) t h small =
    let e = normalize_positive raw t (omega arith) in
    elim (Bool-cases (group t)) [
      | inl g ↦ rw (e, g) (normalize_negative raw t)
      | inr g ↦ elim (Bool-cases (channel t)) [
        | inl c ↦ rw (e, g, c) (normalize_negative (raw + 1000000000000) t)
        | inr c ↦ rw (e, g, c) (e ∙ rw (g, c) refl)
      ]
    ]
