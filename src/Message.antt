-- ===== src/Message.antt =====
-- updates/message.go: the normalized message that handlers see, and the dialog ids of Telegram.
pub mod ChatId
use mt_pro_go.Prelude.{ℕ, List, Option, none, some, Error, msg, Result, ok, err, ◌∷◌, []}
use mt_pro_go.Prelude.Int.{ℤ}
use mt_pro_go.Prelude.Text.{str}

abbrev pub chat_private : List ℕ
chat_private = str "private"

abbrev pub chat_group : List ℕ
chat_group = str "group"

abbrev pub chat_supergroup : List ℕ
chat_supergroup = str "supergroup"

abbrev pub chat_channel : List ℕ
chat_channel = str "channel"

-- `Date` and `Raw` are only carried along and are left out. The three interfaces are the functions
-- that they hold: what they do outside is an error or its absence.
pub record Message : Type 0 where
  pub id : ℤ
  pub chat_id : ℤ
  pub raw_chat_id : ℤ
  pub from_id : ℤ
  pub chat_type : List ℕ
  pub text : List ℕ
  pub reply_sender : Option (ℤ → ℤ → List ℕ → Result (Unit {0}))
  pub editor : Option (ℤ → ℤ → List ℕ → Result (Unit {0}))
  pub deleter : Option (ℤ → List ℤ → Result (Unit {0}))

-- `ErrNoReplySender` of updates/errors.go.
abbrev pub err_no_reply_sender : Error
err_no_reply_sender = msg "message has no reply sender"

unfoldable pub reply : Message → List ℕ → Result (Unit {0})
reply m text = elim m.reply_sender [
  | none ↦ err err_no_reply_sender
  | some send ↦ send m.chat_id m.id text
]

unfoldable pub edit : Message → List ℕ → Result (Unit {0})
edit m text = elim m.editor [
  | none ↦ err err_no_reply_sender
  | some change ↦ change m.chat_id m.id text
]

unfoldable pub delete : Message → Result (Unit {0})
delete m = elim m.deleter [
  | none ↦ err err_no_reply_sender
  | some remove ↦ remove m.chat_id (m.id ∷ [])
]
