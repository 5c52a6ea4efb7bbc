-- ===== src/Account/Migrate.antt =====
-- mtproto/account.go, `AuthSendCodeDefault` and `authSendCodeOnDC`: a request for a code goes where
-- the servers send it. Opening a connection and the request over it are parameters.
use mt_pro_go.Prelude.{
  ℕ, zero, suc, ◌≡◌, refl, ◌∙◌, false, List, [], ◌∷◌, Option, none, some, if◌then◌else◌, Error,
  Result, ok, err, msg,
}
use mt_pro_go.Prelude.Int.{ℤ, eq_ℤ}
use mt_pro_go.Account.SentCode.{SentCodeResult}

pub record DcOption : Type 0 where
  pub id : ℤ
  pub address : List ℕ

unfoldable pub dc_options_by_id : ℤ → List DcOption → List DcOption
dc_options_by_id dc_id [] = []
dc_options_by_id dc_id (dc ∷ dcs) =
    let rest = dc_options_by_id dc_id dcs in if eq_ℤ dc.id dc_id then dc ∷ rest else rest

abbrev pub Sent : Type 0 → Type 0
Sent C = Result (C × SentCodeResult)

module _ {C : Type 0} (default_dc_options : List DcOption) (dial : DcOption → Result C)
    (send : C → Result SentCodeResult) (migration_dc_id : Error → Option ℤ) where
  -- Behind an error of the request: another data center, or the next address of this one.
  abbrev pub after_failure :
      ℤ → Option ℤ → Option (Sent C) → (ℤ → Option (Sent C)) → Option (Sent C)
  after_failure dc_id none rest again = rest
  after_failure dc_id (some next) rest again =
      let moved = again next in if eq_ℤ next dc_id then rest else moved

  abbrev pub after_send :
      ℤ
      → C
      → Result SentCodeResult
      → (Error → Option (Sent C))
      → (ℤ → Option (Sent C))
      → Option (Sent C)
  after_send dc_id client (ok r) rest again = some (ok (client, r))
  after_send dc_id client (err e) rest again =
      after_failure dc_id (migration_dc_id e) (rest e) again

  abbrev pub after_dial :
      ℤ → Result C → (Error → Option (Sent C)) → (ℤ → Option (Sent C)) → Option (Sent C)
  after_dial dc_id (err e) rest again = rest e
  after_dial dc_id (ok client) rest again = after_send dc_id client (send client) rest again

  -- The loop over the addresses, with the last error.
  unfoldable pub try_options : ℤ → (ℤ → Option (Sent C)) → List DcOption → Error → Option (Sent C)
  try_options dc_id again [] last = some (err last)
  try_options dc_id again (dc ∷ dcs) last =
      after_dial dc_id (dial dc) (try_options dc_id again dcs) again

  abbrev pub on_options : ℤ → (ℤ → Option (Sent C)) → List DcOption → Option (Sent C)
  on_options dc_id again [] =
      some (err (msg "mtproto: no default address configured for migrated DC %d"))
  on_options dc_id again (dc ∷ dcs) =
      try_options dc_id again (dc ∷ dcs) (msg "mtproto: failed to connect to migrated DC %d")

  -- With fuel for the data centers that it is sent to; `none` is that the fuel is used up.
  unfoldable pub auth_send_code_on_dc : ℕ → ℤ → Option (Sent C)
  auth_send_code_on_dc zero dc_id = none
  auth_send_code_on_dc (suc fuel) dc_id =
      on_options dc_id (auth_send_code_on_dc fuel) (dc_options_by_id dc_id default_dc_options)

  -- `first` is the client of `DialEncryptedDefault`.
  unfoldable pub auth_send_code_default : ℕ → Result C → Option (Sent C)
  auth_send_code_default fuel (err e) = some (err e)
  auth_send_code_default fuel (ok client) = elim (send client) [
    | ok r ↦ some (ok (client, r))
    | err e ↦ elim (migration_dc_id e) [
      | none ↦ some (err e)
      | some dc_id ↦ auth_send_code_on_dc fuel dc_id
    ]
  ]

  -- A data center that can be reached, and whose server sends the request on to another.
  pub record SendsOn (a b : ℤ) : Type 0 where
    pub other : eq_ℤ b a ≡ false
    pub option : DcOption
    pub options : List DcOption
    pub listed : dc_options_by_id a default_dc_options ≡ option ∷ options
    pub client : C
    pub reached : dial option ≡ ok client
    pub error : Error
    pub refused : send client ≡ err error
    pub target : migration_dc_id error ≡ some b

  sent_on :
      (fuel : ℕ) (a b : ℤ)
      → SendsOn a b
      → auth_send_code_on_dc (suc fuel) a ≡ auth_send_code_on_dc fuel b
  unfolding auth_send_code_on_dc try_options
  sent_on fuel a b h = rw (h.listed, h.reached, h.refused, h.target, h.other) refl

  -- Two data centers that send the request to each other keep it for ever: no number of moves is
  -- enough.
  pub auth_send_code_on_dc_loops :
      (fuel : ℕ) (a b : ℤ) → SendsOn a b → SendsOn b a → auth_send_code_on_dc fuel a ≡ none
  auth_send_code_on_dc_loops zero a b there back = unfold auth_send_code_on_dc in refl
  auth_send_code_on_dc_loops (suc fuel) a b there back =
      sent_on fuel a b there ∙ auth_send_code_on_dc_loops fuel b a back there
