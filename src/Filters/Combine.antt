-- ===== src/Filters/Combine.antt =====
-- `And` and `Or` as "all" and "some", and the classes of chats.
use mt_pro_go.Prelude.{
  List, [], ◌∷◌, true, false, ◌&&◌, Option, none, some, ◌≡◌, ◌↔◌, ◌⊎◌, inl, inr, refl, arith,
  Bool-cases,
}
use mt_pro_go.Prelude.Text.{str_eq_iff}
use mt_pro_go.Message.{Message, chat_private, chat_group, chat_supergroup, chat_channel}
use mt_pro_go.Filters.{Filter, private, group, supergroup, channel, filter_and, filter_or}

-- The filters that are there all accept the message.
abbrev pub AllAccept : List (Option Filter) → Option Message → Type 0
AllAccept [] m = Unit
AllAccept (none ∷ fs) m = AllAccept fs m
AllAccept (some f ∷ fs) m = (f m ≡ true) × AllAccept fs m

abbrev pub SomeAccepts : List (Option Filter) → Option Message → Type 0
SomeAccepts [] m = ⊥
SomeAccepts (none ∷ fs) m = SomeAccepts fs m
SomeAccepts (some f ∷ fs) m = (f m ≡ true) ⊎ SomeAccepts fs m

and-all : (fs : List (Option Filter)) (m : Option Message) → filter_and fs m ≡ true → AllAccept fs m
unfolding filter_and
and-all [] m h = tt
and-all (none ∷ fs) m h = and-all fs m h
and-all (some f ∷ fs) m h = (ground arith, and-all fs m (ground arith))

all-and : (fs : List (Option Filter)) (m : Option Message) → AllAccept fs m → filter_and fs m ≡ true
unfolding filter_and
all-and [] m h = refl
all-and (none ∷ fs) m h = all-and fs m h
all-and (some f ∷ fs) m h = rw h.0 (all-and fs m h.1)

-- `And` accepts a message exactly if each of its filters does that is not nil.
pub filter_and_iff :
    (fs : List (Option Filter)) (m : Option Message) → (filter_and fs m ≡ true) ↔ AllAccept fs m
filter_and_iff fs m = (and-all fs m, all-and fs m)

or-some :
    (fs : List (Option Filter)) (m : Option Message) → filter_or fs m ≡ true → SomeAccepts fs m
unfolding filter_or
or-some [] m h = cc
or-some (none ∷ fs) m h = or-some fs m h
or-some (some f ∷ fs) m h = elim (Bool-cases (f m)) [
  | inl accepts ↦ inl accepts
  | inr rejects ↦ inr (or-some fs m (rw rejects at h))
]

some-or :
    (fs : List (Option Filter)) (m : Option Message) → SomeAccepts fs m → filter_or fs m ≡ true
unfolding filter_or
some-or [] m h = absurd h
some-or (none ∷ fs) m h = some-or fs m h
some-or (some f ∷ fs) m (inl h) = rw h refl
some-or (some f ∷ fs) m (inr h) = ground (arith, some-or fs m h)

-- `Or` accepts a message exactly if one of its filters does that is not nil.
pub filter_or_iff :
    (fs : List (Option Filter)) (m : Option Message) → (filter_or fs m ≡ true) ↔ SomeAccepts fs m
filter_or_iff fs m = (or-some fs m, some-or fs m)

-- No message is both of a private chat and of a group or channel; one that both `Group` and
-- `Channel` accept is a supergroup's.
pub chat_classes :
    (m : Option Message)
    → ((private m && group m) ≡ false)
      × ((private m && channel m) ≡ false)
      × ((group m && channel m) ≡ supergroup m)
unfolding private group supergroup channel
chat_classes none = (refl, refl, refl)
chat_classes (some m) =
    let private_iff = str_eq_iff m.chat_type chat_private in
    let group_iff = str_eq_iff m.chat_type chat_group in
    let supergroup_iff = str_eq_iff m.chat_type chat_supergroup in
    let channel_iff = str_eq_iff m.chat_type chat_channel in
    (
      ground (arith, private_iff, group_iff, supergroup_iff, channel_iff),
      ground (arith, private_iff, group_iff, supergroup_iff, channel_iff),
      ground (arith, private_iff, group_iff, supergroup_iff, channel_iff),
    )
