-- ===== src/Tests/Session.antt =====
-- Cryptography and the encrypted session at concrete inputs.
use mt_pro_go.Prelude.{
  map, ap, suc, zero, ◌∙◌, ℕ, ◌+◌, ◌%◌, ◌≤◌, ◌≡◌, refl, arith, false, List, [], ◌∷◌, ◌++◌, All,
  length, replicate, Result, ok, and_then,
}
use mt_pro_go.Prelude.Int.{pos, ◌<ℤ◌}
use mt_pro_go.Prelude.Word.{of_int64, le_bytes, IsByte}
use mt_pro_go.Prelude.Text.{str}
use mt_pro_go.Abridged.{Conn}
use mt_pro_go.Crypto.Ige.{Cipher, aes_ige_encrypt, aes_ige_decrypt}
use mt_pro_go.Crypto.IgeInverse.{IsBlockCipher, aes_ige_decrypt-encrypt}
use mt_pro_go.Invoke.State.{
  EncryptedState, new_encrypted_state, next_msg_id, next_msg_id_increases, IsMsgId,
}
use mt_pro_go.Invoke.Rpc.{InvokeResult}
use mt_pro_go.Invoke.Handle.{EncryptedMessage, handle_message}
use mt_pro_go.Invoke.Session.{with_salt, handle_message_changes_only_salt}
use mt_pro_go.Tl.Constructors.{constructor_msg_container}
use mt_pro_go.Invoke.Fuel.{handle_whole, handle_whole_recursive, handle_message_unique}
use mt_pro_go.Invoke.Loop.{invoke, return}
use mt_pro_go.Invoke.Answer.{Answers, invoke-Answers}

abbrev idle : Conn
idle = record { incoming = []; sent = 0xef ∷ []; broken = false }

abbrev one_two : List ℕ
one_two = 1 ∷ 2 ∷ []

abbrev one_three : List ℕ
one_three = 1 ∷ 3 ∷ []

-- A block cipher for the examples: it leaves a block of bytes as it is, and makes zeros of others.
abbrev byte_of : ℕ → ℕ
byte_of x = x % 256

abbrev pub plain_cipher : Cipher
plain_cipher = record { encrypt = map byte_of; decrypt = λ b. b }

pub plain_cipher-IsBlockCipher : IsBlockCipher plain_cipher
plain_cipher-IsBlockCipher = record {
  size = λ b h. length-bytes b ∙ h;
  in_bytes = λ b h. bytes-IsByte b;
  inverse = λ b h v. same b v;
}
  where
    length-bytes : (b : List ℕ) → length (map byte_of b) ≡ length b
    length-bytes [] = refl
    length-bytes (x ∷ b) = ap suc (length-bytes b)

    bytes-IsByte : (b : List ℕ) → All IsByte (map byte_of b)
    bytes-IsByte [] = tt
    bytes-IsByte (x ∷ b) = (omega arith, bytes-IsByte b)

    same : (b : List ℕ) → All IsByte b → map byte_of b ≡ b
    same [] v = refl
    same (x ∷ b) v = let e : x % 256 ≡ x = omega (arith, v.0) in rw (e, same b v.1) refl

pub zeros-IsByte : (n : ℕ) → All IsByte (replicate n 0)
zeros-IsByte zero = tt
zeros-IsByte (suc n) = (omega arith, zeros-IsByte n)

aes_ige_decrypt-encrypt_example :
    and_then
      (aes_ige_encrypt (λ _. ok plain_cipher) (replicate 32 0) (str "key") (replicate 32 0))
      (λ ciphertext. aes_ige_decrypt (λ _. ok plain_cipher) ciphertext (str "key") (replicate 32 0))
    ≡ ok (replicate 32 0)
aes_ige_decrypt-encrypt_example =
    aes_ige_decrypt-encrypt (λ _. ok plain_cipher) plain_cipher (replicate 32 0) (str "key")
      (replicate 32 0) refl plain_cipher-IsBlockCipher refl refl (zeros-IsByte 32) (zeros-IsByte 32)

abbrev session : EncryptedState
session = new_encrypted_state (replicate 256 0) 0 (pos 1) (pos 0) (pos 2)

next_msg_id_increases_example :
    (pos 0 <ℤ (next_msg_id (λ _. 0) session).0)
    × (of_int64 (next_msg_id (λ _. 0) session).0 % 4 ≡ 0)
    × ((next_msg_id (λ _. 0) session).1.last_msg_id ≡ (next_msg_id (λ _. 0) session).0)
next_msg_id_increases_example = next_msg_id_increases (λ _. 0) session first
  where
    first : IsMsgId (pos 0)
    first = unfold IsMsgId in (omega arith, omega arith, refl)

-- `new_session_created` with the salt 9.
abbrev new_session : EncryptedMessage
new_session = record {
  salt = pos 1;
  session_id = pos 2;
  msg_id = pos 4;
  seq_no = pos 1;
  body = (8 ∷ 9 ∷ 0xc2 ∷ 0x9e ∷ []) ++ (replicate 16 0 ++ (9 ∷ replicate 7 0));
}

abbrev id_bytes : List ℕ → List ℕ
id_bytes b = b

handle_message_changes_only_salt_example :
    with_salt (pos 1) (handle_message id_bytes ok (pos 8) 5 new_session session).0 ≡ session
handle_message_changes_only_salt_example =
    handle_message_changes_only_salt id_bytes ok (pos 8) 5 new_session session

-- A container with one message, which is `new_session`'s body.
abbrev container : EncryptedMessage
container = record {
  salt = new_session.salt;
  session_id = new_session.session_id;
  msg_id = pos 6;
  seq_no = pos 1;
  body =
      le_bytes 4 constructor_msg_container
      ++ (le_bytes 4 1
          ++ (le_bytes 8 5
              ++ (le_bytes 4 1 ++ (le_bytes 4 (length new_session.body) ++ new_session.body))));
}

handle_message_unique_example :
    handle_whole id_bytes ok (pos 8) container session
    ≡ handle_message id_bytes ok (pos 8) (suc (length container.body)) container session
handle_message_unique_example =
    handle_message_unique id_bytes ok (pos 8) (handle_whole id_bytes ok (pos 8)) container session
      (handle_whole_recursive id_bytes ok (pos 8))

abbrev hash_zero : List ℕ → List ℕ
hash_zero _ = replicate 32 0

abbrev invoked : EncryptedState × Conn × Result InvokeResult
invoked =
    invoke hash_zero (λ _. ok plain_cipher) (λ n. ok (replicate n 0)) id_bytes ok (λ _ _. 0)
      (replicate 4 0) idle session

invoke-Answers_example :
    (0 ≤ invoked.0.seq) × (invoked.0.seq ≤ 0 + 3) × Answers invoked.0.last_msg_id (return invoked.2)
invoke-Answers_example =
    invoke-Answers hash_zero (λ _. ok plain_cipher) (λ n. ok (replicate n 0)) id_bytes ok (λ _ _. 0)
      (replicate 4 0) idle session (omega arith)
