-- ===== src/Auth/Agreement.antt =====
-- mtproto/auth.go: the key that the client computes is the one that the server computes.
use native.Mathlib.Nat.{mod-lt}
use mt_pro_go.Prelude.{ℕ, ◌^◌, ◌<◌, ◌≡◌, ap, ◌∙◌, sym, arith, List, All, length}
use mt_pro_go.Prelude.Int.{ℤ, pos}
use mt_pro_go.Prelude.Word.{IsByte}
use mt_pro_go.Crypto.Big.{set_bytes, set_bytes-lt, pad_big_int_bytes, pad_big_int_bytes_lem}
use mt_pro_go.Crypto.Modular.{mod_exp, mod_exp_exchange}
use mt_pro_go.Auth.{ServerDhInnerData}
use mt_pro_go.Auth.ClientDh.{client_gb, client_auth_key}

-- What a server with the secret exponent `a` sends, and its key for the `g_b` that it gets.
abbrev pub server_side : ℕ → ℕ → List ℕ → ℤ → ServerDhInnerData
server_side g a dh_prime server_time = record {
  g = pos g;
  dh_prime = dh_prime;
  ga = pad_big_int_bytes (mod_exp g a (set_bytes dh_prime)) (length dh_prime);
  server_time = server_time;
}

abbrev pub server_auth_key : ℕ → List ℕ → List ℕ → List ℕ
server_auth_key a dh_prime gb =
    pad_big_int_bytes (mod_exp (set_bytes gb) a (set_bytes dh_prime)) (length dh_prime)

-- Against a server that raises the generator to a secret exponent modulo a positive prime number's
-- bytes, the client's authorization key is the server's, and has as many bytes as the modulus.
pub client_auth_key_agrees :
    (g a : ℕ) (dh_prime b : List ℕ) (server_time : ℤ)
    → All IsByte dh_prime
    → 0 < set_bytes dh_prime
    → (client_auth_key (server_side g a dh_prime server_time) b
        ≡ server_auth_key a dh_prime (client_gb (server_side g a dh_prime server_time) b))
      × (length (client_auth_key (server_side g a dh_prime server_time) b) ≡ length dh_prime)
unfolding client_auth_key client_gb
client_auth_key_agrees g a dh_prime b server_time in_bytes positive =
    let n = length dh_prime in
    let m = set_bytes dh_prime in
    let top : m < 256 ^ n = set_bytes-lt dh_prime in_bytes in
    let fits : (x y : ℕ) → mod_exp x y m < 256 ^ n = λ x y. below x y m n positive top in
    let back_a = (pad_big_int_bytes_lem (mod_exp g a m) n (fits g a)).1 in
    let back_b = (pad_big_int_bytes_lem (mod_exp g (set_bytes b) m) n (fits g (set_bytes b))).1 in
    (
      ap (λ k. pad_big_int_bytes (mod_exp k (set_bytes b) m) n) back_a
          ∙ ap (λ k. pad_big_int_bytes k n) (mod_exp_exchange g a (set_bytes b) m)
          ∙ sym (ap (λ k. pad_big_int_bytes (mod_exp k a m) n) back_b),
      (pad_big_int_bytes_lem _ n (fits _ (set_bytes b))).0,
    )
  where
    below : (x y m n : ℕ) → 0 < m → m < 256 ^ n → mod_exp x y m < 256 ^ n
    below x y m n h top = let small = mod-lt (x ^ y) h in omega arith
