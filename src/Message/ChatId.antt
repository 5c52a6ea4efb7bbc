-- ===== src/Message/ChatId.antt =====
-- updates/message.go: raw peer ids to dialog ids and back. Every `int64` operation wraps.
pub mod RoundTrip
use mt_pro_go.Prelude.{ℕ, List, Bool, ◌^◌, ◌||◌, if◌then◌else◌, true, false}
use mt_pro_go.Prelude.Int.{ℤ, pos, negsuc, neg, ◌-ℤ◌, eq_ℤ, ltb_ℤ, leb_ℤ}
use mt_pro_go.Prelude.Word.{wrap64}
use mt_pro_go.Prelude.Text.{str, str_eq}

abbrev pub channel_dialog_id_offset : ℕ
channel_dialog_id_offset = 1000000000000

-- `-channelDialogIDOffset`.
abbrev pub channel_top : ℤ
channel_top = negsuc 999999999999

unfoldable pub normalize_chat_id : ℤ → List ℕ → ℤ
normalize_chat_id raw_id chat_type =
    if eq_ℤ raw_id (pos 0)
    then pos 0
    else if str_eq chat_type (str "group")
    then (if ltb_ℤ raw_id (pos 0) then raw_id else wrap64 (neg raw_id))
    else if str_eq chat_type (str "supergroup") || str_eq chat_type (str "channel")
    then (if leb_ℤ raw_id channel_top
        then raw_id
        else if ltb_ℤ raw_id (pos 0)
        then raw_id
        else wrap64 (channel_top -ℤ raw_id))
    else raw_id

unfoldable pub raw_chat_id : ℤ → ℤ
raw_chat_id chat_id =
    if leb_ℤ chat_id channel_top
    then wrap64 (wrap64 (neg chat_id) -ℤ pos channel_dialog_id_offset)
    else if ltb_ℤ chat_id (pos 0)
    then wrap64 (neg chat_id)
    else chat_id

unfoldable pub looks_like_channel_chat_id : ℤ → Bool
looks_like_channel_chat_id chat_id = leb_ℤ chat_id channel_top
