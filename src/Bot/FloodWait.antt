-- ===== src/Bot/FloodWait.antt =====
-- mtproto/invoke.go, `FloodWaitDuration` and `MigrationDCID`, and mtproto_bot.go,
-- `handleFloodWait` and `withFloodWait`. `strconv.Atoi` and the trimming of white space are
-- parameters; so is what cancels a wait.
use mt_pro_go.Prelude.{
  ℕ, ◌*◌, List, [], ◌∷◌, Bool, true, false, ◌||◌, not, Option, none, some, if◌then◌else◌, length,
  drop, take, Error, rpc_error, msg, msg_num, bad_server_salt, bad_message,
}
use mt_pro_go.Prelude.Int.{ℤ, pos, pos_part, ltb_ℤ}
use mt_pro_go.Prelude.Word.{wrap64}
use mt_pro_go.Prelude.Text.{str, str_eq}
use mt_pro_go.Invoke.Rpc.{clean_rpc_error_message}
use mt_pro_go.Bot.Backoff.{second}

-- The message of an `RPCError`.
abbrev pub rpc_message : Error → Option (List ℕ)
rpc_message (msg t) = none
rpc_message (msg_num t n) = none
rpc_message (rpc_error code m) = some m
rpc_message (bad_server_salt i s c n) = none
rpc_message (bad_message i s c) = none

-- `strings.HasPrefix`, then what stands behind the prefix.
unfoldable pub behind : List ℕ → List ℕ → Option (List ℕ)
behind prefix s =
    if str_eq (take (length prefix) s) prefix then some (drop (length prefix) s) else none

-- The options that decide about a wait.
pub record WaitOptions : Type 0 where
  pub auto_flood_wait : Bool
  pub max_flood_wait : ℤ

module _ (trim_space : List ℕ → List ℕ) (atoi : List ℕ → Option ℤ) where
  -- The number behind the prefix, in a message that has been cleaned.
  abbrev number_of : Option (List ℕ) → Option ℤ
  number_of none = none
  number_of (some rest) = atoi rest

  unfoldable pub number_behind : List ℕ → List ℕ → Option ℤ
  number_behind prefix s = number_of (behind prefix s)

  -- A number of seconds as a duration; one below zero is refused.
  abbrev duration_of : Option ℤ → Option ℤ
  duration_of none = none
  duration_of (some seconds) =
      if ltb_ℤ seconds (pos 0) then none else some (wrap64 (pos (pos_part seconds * second)))

  abbrev flood_wait_of : Option (List ℕ) → Option ℤ
  flood_wait_of none = none
  flood_wait_of (some m) =
      duration_of (number_behind (str "FLOOD_WAIT_") (clean_rpc_error_message trim_space m))

  unfoldable pub flood_wait_duration : Error → Option ℤ
  flood_wait_duration e = flood_wait_of (rpc_message e)

  unfoldable pub is_flood_wait : Error → Bool
  is_flood_wait e = elim (flood_wait_duration e) [ none ↦ false | some _ ↦ true ]

  -- The loop over the prefixes.
  unfoldable pub migration_from : List (List ℕ) → List ℕ → Option ℤ
  migration_from [] m = none
  migration_from (prefix ∷ prefixes) m = elim (number_behind prefix m) [
    | none ↦ migration_from prefixes m
    | some n ↦ let rest = migration_from prefixes m in if ltb_ℤ (pos 0) n then some n else rest
  ]

  unfoldable pub migration_dc_id : Error → Option ℤ
  migration_dc_id e = elim (rpc_message e) [
    | none ↦ none
    | some m ↦
        migration_from
          (str "USER_MIGRATE_"
            ∷ str "PHONE_MIGRATE_"
            ∷ str "NETWORK_MIGRATE_"
            ∷ str "FILE_MIGRATE_"
            ∷ [])
          (clean_rpc_error_message trim_space m)
  ]

  -- The wait that an error asks for, when it is to be waited for.
  abbrev allowed_of : WaitOptions → Option ℤ → Option ℤ
  allowed_of opts none = none
  allowed_of opts (some wait) =
      if not opts.auto_flood_wait || ltb_ℤ opts.max_flood_wait wait then none else some wait

  unfoldable pub wait_for : WaitOptions → Error → Option ℤ
  wait_for opts e = allowed_of opts (flood_wait_duration e)

  -- Whether the poll goes on at once; a wait that is cancelled answers the same.
  abbrev pub handle_flood_wait : WaitOptions → Error → Bool
  handle_flood_wait opts e = elim (wait_for opts e) [ none ↦ false | some _ ↦ true ]
