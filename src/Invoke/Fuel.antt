-- ===== src/Invoke/Fuel.antt =====
-- mtproto/invoke.go, `handleMessage`: containers nest less deep than the message is long.
use mathlib.Core.Path.{subst}
use mt_pro_go.Prelude.{
  String, ℕ, zero, suc, ◌+◌, ◌-◌, ◌<◌, ◌≡◌, refl, sym, ap, ◌∙◌, arith, List, ltb, ◌==◌, length,
  Result, ok, err, and_then-eq-ok, Bool-cases, inl, inr,
}
use mt_pro_go.Prelude.Int.{ℤ}
use mt_pro_go.Tl.Reader.{Reader, ◌>>=◌, pure, new_reader, int, long, raw, next}
use mt_pro_go.Prelude.Word.{le_value}
use mt_pro_go.Tl.RoundTrip.{next-length}
use mt_pro_go.Tl.Constructors.{constructor_msg_container}
use mt_pro_go.Invoke.State.{EncryptedState}
use mt_pro_go.Invoke.Handle.{
  EncryptedMessage, Outcome, answered, waiting, failed, Handler, parsed, align, child_message,
  unless_waiting, handle_children, by_constructor, handled_with, handle_message,
}

word_moves :
    (n : ℕ) (text : String) (r r' : Reader) (v : ℕ)
    → (next n text >>= λ b. pure (le_value b)) r ≡ ok (v, r')
    → (r'.buf ≡ r.buf) × (r'.off ≡ r.off + n)
unfolding ◌>>=◌ pure
word_moves n text r r' v e =
    let ((b, r₁), e₁, e₂) = and_then-eq-ok (next n text r) (λ p. ok (le_value p.0, p.1)) e in
    let (size, same, moved, within) = next-length n text r r₁ b e₁ in
    let last : r₁ ≡ r' = cc in subst (λ t. (t.buf ≡ r.buf) × (t.off ≡ r.off + n)) last (same, moved)

ok_injective : {A : Type 0} (x y : A) → ok x ≡ ok y → x ≡ y
ok_injective x y e = cc

-- A child's body is shorter than the buffer that it stands in.
child_shorter :
    (m : EncryptedMessage) (r r' : Reader) (child : EncryptedMessage)
    → child_message m r ≡ ok (child, r')
    → (length child.body < length r.buf) × (r'.buf ≡ r.buf)
unfolding child_message ◌>>=◌ pure int long raw
child_shorter m r r' child e =
    let ((v₁, r₁), e₁, f₁) = and_then-eq-ok (long r) _ e in
    let ((v₂, r₂), e₂, f₂) = and_then-eq-ok (int r₁) _ f₁ in
    let ((v₃, r₃), e₃, f₃) = and_then-eq-ok (int r₂) _ f₂ in
    let ((v₄, r₄), e₄, f₄) = and_then-eq-ok (raw v₃ r₃) _ f₃ in
    let (b₁, o₁) = word_moves 8 _ r r₁ v₁ e₁ in
    let (b₂, o₂) = word_moves 4 _ r₁ r₂ v₂ e₂ in
    let (b₃, o₃) = word_moves 4 _ r₂ r₃ v₃ e₃ in
    let (size, b₄, o₄, within) = next-length v₃ _ r₃ r₄ v₄ e₄ in
    let last : r₄ ≡ r' = ap (λ q. q.1) (ok_injective _ _ f₄) in
    let body : v₄ ≡ child.body = ap (λ q. q.0.body) (ok_injective _ _ f₄) in
    let whole : r₃.buf ≡ r.buf = b₃ ∙ b₂ ∙ b₁ in
    let lengths : length r₃.buf ≡ length r.buf = ap length whole in
    let bodies : length v₄ ≡ length child.body = ap length body in
    (omega arith, sym (ap (λ t. t.buf) last) ∙ b₄ ∙ whole)

align-buf : (rounds : ℕ) (r : Reader) → (align rounds r).buf ≡ r.buf
unfolding align
align-buf zero r = refl
align-buf (suc rounds) r = ground (arith, align-buf rounds (record r { off = r.off + 1 }))

unless_waiting_agree :
    (p : EncryptedState × Outcome) (f g : EncryptedState → EncryptedState × Outcome)
    → ((s : EncryptedState) → f s ≡ g s)
    → unless_waiting p f ≡ unless_waiting p g
unless_waiting_agree (s, answered res) f g h = refl
unless_waiting_agree (s, waiting) f g h = h s
unless_waiting_agree (s, failed e) f g h = refl

parsed_agree :
    {A : Type 0} (p : Result (A × Reader))
    (f g : A → Reader → EncryptedState → EncryptedState × Outcome) (s : EncryptedState)
    → ((a : A) (r : Reader) → p ≡ ok (a, r) → f a r s ≡ g a r s)
    → parsed p f s ≡ parsed p g s
parsed_agree (ok (a, r)) f g s h = h a r refl
parsed_agree (err e) f g s h = refl

-- Two handlers that agree on every message shorter than the container do the same for it.
handle_children_agree :
    (f g : Handler) (m : EncryptedMessage) (count : ℕ) (size : ℕ) (r : Reader) (s : EncryptedState)
    → length r.buf ≡ size
    → ((child : EncryptedMessage) (s : EncryptedState)
        → length child.body < size
        → f child s ≡ g child s)
    → handle_children f m count r s ≡ handle_children g m count r s
unfolding handle_children
handle_children_agree f g m zero size r s h agree = refl
handle_children_agree f g m (suc count) size r s h agree =
    parsed_agree (child_message m r) _ _ s (λ child r' read.
      let (shorter, same) = child_shorter m r r' child read in
      let buf : length (align 3 r').buf ≡ size = ap length (align-buf 3 r' ∙ same) ∙ h in
      ap (λ p. unless_waiting p (handle_children f m count (align 3 r')))
        (agree child s (omega arith))
      ∙ unless_waiting_agree (g child s) _ _
          (λ s'. handle_children_agree f g m count size (align 3 r') s' buf agree))

int-buf : (r r' : Reader) (v : ℕ) → int r ≡ ok (v, r') → r'.buf ≡ r.buf
unfolding int
int-buf r r' v e = (word_moves 4 _ r r' v e).0

module _ (trim_space : List ℕ → List ℕ) (gunzip : List ℕ → Result (List ℕ)) (id : ℤ) where
  by_constructor_agree :
      (f g : Handler) (m : EncryptedMessage) (constructor : ℕ) (r : Reader) (s : EncryptedState)
      → ((child : EncryptedMessage) (s : EncryptedState)
          → length child.body < length r.buf
          → f child s ≡ g child s)
      → by_constructor trim_space gunzip id f m constructor r s
        ≡ by_constructor trim_space gunzip id g m constructor r s
  unfolding by_constructor
  by_constructor_agree f g m constructor r s agree =
      elim (Bool-cases (constructor == constructor_msg_container)) [
        | inl container ↦ rw container (
            parsed_agree (int r) _ _ s (λ count r' read.
              handle_children_agree f g m count (length r.buf) r' s
                (ap length (int-buf r r' count read)) agree))
        | inr other ↦ rw other refl
      ]

  handle_message-unfolds :
      (fuel : ℕ) (m : EncryptedMessage) (s : EncryptedState)
      → handle_message trim_space gunzip id (suc fuel) m s
        ≡ handled_with trim_space gunzip id (handle_message trim_space gunzip id fuel) m s
  unfolding handle_message handled_with
  handle_message-unfolds fuel m s = refl

  -- Handlers that agree on the shorter messages have the same body.
  handled_with_agree :
      (f g : Handler) (m : EncryptedMessage) (s : EncryptedState)
      → ((child : EncryptedMessage) (s : EncryptedState)
          → length child.body < length m.body
          → f child s ≡ g child s)
      → handled_with trim_space gunzip id f m s ≡ handled_with trim_space gunzip id g m s
  unfolding handled_with
  handled_with_agree f g m s agree = elim (Bool-cases (ltb (length m.body) 4)) [
    | inl short ↦ rw short refl
    | inr long_enough ↦ rw long_enough (
        parsed_agree (int (new_reader m.body)) _ _ s (λ constructor r read.
          let same = ap length (int-buf (new_reader m.body) r constructor read) in
          by_constructor_agree _ _ m constructor r s
            (λ child s' shorter. agree child s' (omega arith))))
  ]

  handle_message_follows :
      (g : Handler)
      → ((m : EncryptedMessage) (s : EncryptedState)
          → g m s ≡ handled_with trim_space gunzip id g m s)
      → (fuel : ℕ) (m : EncryptedMessage) (s : EncryptedState) → length m.body < fuel
      → g m s ≡ handle_message trim_space gunzip id fuel m s
  handle_message_follows g recursive zero m s h = absurd (omega arith)
  handle_message_follows g recursive (suc fuel) m s h =
      recursive m s
      ∙ handled_with_agree g (handle_message trim_space gunzip id fuel) m s
          (λ child s' shorter. handle_message_follows g recursive fuel child s' (omega arith))
      ∙ sym (handle_message-unfolds fuel m s)

  handle_message_enough :
      (fuel more : ℕ) (m : EncryptedMessage) (s : EncryptedState)
      → length m.body < fuel
      → handle_message trim_space gunzip id (fuel + more) m s
        ≡ handle_message trim_space gunzip id fuel m s
  handle_message_enough zero more m s h = absurd (omega arith)
  handle_message_enough (suc fuel) more m s h =
      let one_more : suc fuel + more ≡ suc (fuel + more) = omega arith in
      ap (λ k. handle_message trim_space gunzip id k m s) one_more
      ∙ handle_message-unfolds (fuel + more) m s
      ∙ handled_with_agree _ _ m s
          (λ child s' shorter. handle_message_enough fuel more child s' (omega arith))
      ∙ sym (handle_message-unfolds fuel m s)

  -- `handleMessage`, with a unit of fuel for each byte of the message and one more.
  abbrev pub handle_whole : Handler
  handle_whole m s = handle_message trim_space gunzip id (suc (length m.body)) m s

  -- With this fuel it calls itself for the messages of a container as if there was no bound.
  pub handle_whole_recursive :
      (m : EncryptedMessage) (s : EncryptedState)
      → handle_whole m s ≡ handled_with trim_space gunzip id handle_whole m s
  handle_whole_recursive m s =
      handle_message-unfolds (length m.body) m s
      ∙ handled_with_agree _ _ m s (λ child s' shorter.
        let gap : suc (length child.body) + (length m.body - suc (length child.body))
            ≡ length m.body =
          omega arith in
        ap (λ k. handle_message trim_space gunzip id k child s') (sym gap)
        ∙ handle_message_enough (suc (length child.body)) _ child s' (omega arith))

  -- The recursion of handleMessage ends: every function that is the body of handleMessage with
  -- calls of itself for the messages of a container does what the model does with a unit of fuel
  -- for each byte of the message and one more.
  pub handle_message_unique :
      (g : Handler) (m : EncryptedMessage) (s : EncryptedState)
      → ((m : EncryptedMessage) (s : EncryptedState)
          → g m s ≡ handled_with trim_space gunzip id g m s)
      → g m s ≡ handle_message trim_space gunzip id (suc (length m.body)) m s
  handle_message_unique g m s recursive =
      handle_message_follows g recursive (suc (length m.body)) m s (omega arith)
