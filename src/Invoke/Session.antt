-- ===== src/Invoke/Session.antt =====
-- mtproto/invoke.go, `handleMessage`: what a message can change in the session.
use mt_pro_go.Prelude.{
  ℕ, zero, suc, ◌≡◌, refl, ap, ◌∙◌, Bool, true, false, Bool-cases, inl, inr, List, ltb, ◌==◌,
  if◌then◌else◌, length, Result, ok, err,
}
use mt_pro_go.Prelude.Int.{ℤ}
use mt_pro_go.Tl.Reader.{Reader, int, long, new_reader, ◌>>◌}
use mt_pro_go.Tl.Constructors.{
  constructor_msg_container, constructor_rpc_result, constructor_new_session_created,
  constructor_bad_server_salt, constructor_bad_msg_notification,
}
use mt_pro_go.Invoke.State.{EncryptedState}
use mt_pro_go.Invoke.Handle.{
  EncryptedMessage, Outcome, answered, waiting, failed, Handler, parsed, align, child_message,
  unless_waiting, handle_children, by_constructor, handled_with, handle_message, handle_rpc_result,
  handle_new_session_created, handle_bad_server_salt, handle_bad_msg_notification,
}

-- The session with another salt.
abbrev pub with_salt : ℤ → EncryptedState → EncryptedState
with_salt salt s = record s { server_salt = salt }

-- A step that leaves everything in the session but the salt alone.
unfoldable pub KeepsAllButSalt : (EncryptedState → EncryptedState × Outcome) → Type 0
KeepsAllButSalt f = (s : EncryptedState) → with_salt s.server_salt (f s).0 ≡ s

parsed-Keeps :
    {A : Type 0} (p : Result (A × Reader))
    (f : A → Reader → EncryptedState → EncryptedState × Outcome)
    → ((a : A) (r : Reader) → KeepsAllButSalt (f a r))
    → KeepsAllButSalt (parsed p f)
unfolding KeepsAllButSalt
parsed-Keeps (ok (a, r)) f h s = h a r s
parsed-Keeps (err e) f h s = refl

unless_waiting-Keeps :
    (p : EncryptedState × Outcome) (rest : EncryptedState → EncryptedState × Outcome)
    (s : EncryptedState)
    → with_salt s.server_salt p.0 ≡ s
    → KeepsAllButSalt rest
    → with_salt s.server_salt (unless_waiting p rest).0 ≡ s
unfolding KeepsAllButSalt
unless_waiting-Keeps (s', answered res) rest s h k = h
unless_waiting-Keeps (s', waiting) rest s h k = ap (with_salt s.server_salt) (k s') ∙ h
unless_waiting-Keeps (s', failed e) rest s h k = h

handle_children-Keeps :
    (handle : Handler) (m : EncryptedMessage) (count : ℕ) (r : Reader)
    → ((m : EncryptedMessage) → KeepsAllButSalt (handle m))
    → KeepsAllButSalt (handle_children handle m count r)
unfolding handle_children KeepsAllButSalt
handle_children-Keeps handle m zero r h s = refl
handle_children-Keeps handle m (suc count) r h s =
    parsed-Keeps (child_message m r) _
      (λ child r' s'.
        unless_waiting-Keeps (handle child s') _ s' (h child s')
          (handle_children-Keeps handle m count (align 3 r') h))
      s

module _ (trim_space : List ℕ → List ℕ) (gunzip : List ℕ → Result (List ℕ)) (id : ℤ) where
  answers-Keep :
      (m : EncryptedMessage) (r : Reader)
      → KeepsAllButSalt (handle_rpc_result trim_space gunzip id m r)
        × KeepsAllButSalt (handle_new_session_created trim_space gunzip id r)
        × KeepsAllButSalt (handle_bad_server_salt trim_space gunzip id r)
        × KeepsAllButSalt (handle_bad_msg_notification trim_space gunzip id r)
  unfolding handle_rpc_result handle_new_session_created handle_bad_server_salt
      handle_bad_msg_notification KeepsAllButSalt
  answers-Keep m r = (
    parsed-Keeps (long r) _ (λ v r₁ s. refl),
    parsed-Keeps ((long >> long >> long) r) _ (λ v r₁ s. refl),
    parsed-Keeps (long r) _ (λ v₁ r₁.
        parsed-Keeps (int r₁) _
          (λ v₂ r₂. parsed-Keeps (int r₂) _ (λ v₃ r₃. parsed-Keeps (long r₃) _ (λ v₄ r₄ s. refl)))),
    parsed-Keeps (long r) _
        (λ v₁ r₁. parsed-Keeps (int r₁) _ (λ v₂ r₂. parsed-Keeps (int r₂) _ (λ v₃ r₃ s. refl))),
  )

  Keeps-if :
      (b : Bool) (f g : EncryptedState → EncryptedState × Outcome)
      → KeepsAllButSalt f
      → KeepsAllButSalt g
      → KeepsAllButSalt (λ s. if b then f s else g s)
  Keeps-if true f g hf hg = hf
  Keeps-if false f g hf hg = hg

  nothing-Keeps : KeepsAllButSalt (λ s. (s, waiting))
  unfolding KeepsAllButSalt
  nothing-Keeps s = refl

  by_constructor-Keeps :
      (handle : Handler) (m : EncryptedMessage) (constructor : ℕ) (r : Reader)
      → ((m : EncryptedMessage) → KeepsAllButSalt (handle m))
      → KeepsAllButSalt (by_constructor trim_space gunzip id handle m constructor r)
  unfolding by_constructor
  by_constructor-Keeps handle m constructor r h =
      let (h₁, h₂, h₃, h₄) = answers-Keep m r in
      Keeps-if (constructor == constructor_msg_container) _ _
        (parsed-Keeps (int r) _ (λ count r'. handle_children-Keeps handle m count r' h))
        (Keeps-if (constructor == constructor_rpc_result) _ _ h₁ (
          Keeps-if (constructor == constructor_new_session_created) _ _ h₂ (
            Keeps-if (constructor == constructor_bad_server_salt) _ _ h₃
              (Keeps-if (constructor == constructor_bad_msg_notification) _ _ h₄ nothing-Keeps))))

  pub handle_message-KeepsAllButSalt :
      (fuel : ℕ) (m : EncryptedMessage)
      → KeepsAllButSalt (handle_message trim_space gunzip id fuel m)
  unfolding handle_message handled_with KeepsAllButSalt
  handle_message-KeepsAllButSalt zero m s = refl
  handle_message-KeepsAllButSalt (suc fuel) m s = elim (Bool-cases (ltb (length m.body) 4)) [
    | inl short ↦ rw short refl
    | inr long_enough ↦ rw long_enough (
        parsed-Keeps (int (new_reader m.body)) _
          (λ constructor r.
            by_constructor-Keeps (handle_message trim_space gunzip id fuel) m constructor r
              (λ child. handle_message-KeepsAllButSalt fuel child))
          s)
  ]

  -- Whatever arrives, a message changes nothing in the session but the server salt: not the key,
  -- the session id, the clock offset, the sequence number or the last message id.
  pub handle_message_changes_only_salt :
      (fuel : ℕ) (m : EncryptedMessage) (s : EncryptedState)
      → with_salt s.server_salt (handle_message trim_space gunzip id fuel m s).0 ≡ s
  handle_message_changes_only_salt fuel m s =
      unfold KeepsAllButSalt in handle_message-KeepsAllButSalt fuel m s
