-- ===== src/Filters.antt =====
-- filters/filters.go: tests on a message, which is `none` for a nil pointer. `Command` and `Regex`,
-- which rest on Unicode tables and on `regexp`, are not modelled.
pub mod Combine
use mt_pro_go.Prelude.{
  ℕ, List, [], ◌∷◌, Bool, true, false, not, ◌||◌, ◌&&◌, Option, none, some, length, ◌==◌,
  if◌then◌else◌,
}
use mt_pro_go.Prelude.Int.{ℤ, eq_ℤ}
use mt_pro_go.Prelude.Text.{str, str_eq}
use mt_pro_go.Message.{Message, chat_private, chat_group, chat_supergroup, chat_channel}

-- A test `m != nil && …`.
abbrev pub on_message : (Message → Bool) → Option Message → Bool
on_message test none = false
on_message test (some m) = test m

unfoldable pub all : Option Message → Bool
all m = true

unfoldable pub text : Option Message → Bool
text = on_message (λ m. not (str_eq m.text []))

unfoldable pub private : Option Message → Bool
private = on_message (λ m. str_eq m.chat_type chat_private)

unfoldable pub group : Option Message → Bool
group = on_message (λ m. str_eq m.chat_type chat_group || str_eq m.chat_type chat_supergroup)

unfoldable pub supergroup : Option Message → Bool
supergroup = on_message (λ m. str_eq m.chat_type chat_supergroup)

unfoldable pub channel : Option Message → Bool
channel = on_message (λ m. str_eq m.chat_type chat_channel || str_eq m.chat_type chat_supergroup)

unfoldable pub chat_type : List ℕ → Option Message → Bool
chat_type kind = on_message (λ m. str_eq m.chat_type kind)

unfoldable pub chat_id : ℤ → Option Message → Bool
chat_id id = on_message (λ m. eq_ℤ m.chat_id id)

unfoldable pub from_id : ℤ → Option Message → Bool
from_id id = on_message (λ m. eq_ℤ m.from_id id)

abbrev pub Filter : Type 0
Filter = Option Message → Bool

-- A filter of the list that is `nil` is passed over.
unfoldable pub filter_and : List (Option Filter) → Filter
filter_and [] m = true
filter_and (none ∷ fs) m = filter_and fs m
filter_and (some f ∷ fs) m = if not (f m) then false else filter_and fs m

unfoldable pub filter_or : List (Option Filter) → Filter
filter_or [] m = false
filter_or (none ∷ fs) m = filter_or fs m
filter_or (some f ∷ fs) m = if f m then true else filter_or fs m
