-- ===== src/Password/Agreement.antt =====
-- mtproto/password.go: the proof is the one that the server expects.
use native.Mathlib.Nat.{mod-lt, mod-mod, mod-add-mod, add-mod_right}
use mt_pro_go.Prelude.{
  ℕ, ◌+◌, ◌-◌, ◌*◌, ◌%◌, ◌^◌, ◌<◌, ◌≡◌, sym, ap, ◌∙◌, arith, List, length, ◌==◌, false, ok,
}
use mt_pro_go.Prelude.Int.{pos_part}
use mt_pro_go.Crypto.Big.{set_bytes, pad_big_int_bytes}
use mt_pro_go.Crypto.Modular.{mod_exp, mod-pow-mod, mod-mul-mod, mul-mod-mod, pow-add, pow-mul}
use mt_pro_go.Password.{AccountPassword, SrpProof}
use mt_pro_go.Password.Proof.{srp_t, srp_s, srp_k, srp_u, srp_m1, proof_for}

-- The server's side, with the verifier `v` and the secret exponent `b`.
abbrev pub server_b : ℕ → ℕ → ℕ → ℕ → ℕ → ℕ
server_b p g k v b = (k * v + mod_exp g b p) % p

abbrev pub server_s : ℕ → ℕ → ℕ → ℕ → ℕ → ℕ
server_s p v u b ga = mod_exp (ga * mod_exp v u p) b p

-- The proof with the server's `M1`: its secret is that of the verifier and its own exponent.
abbrev pub server_proof : (List ℕ → List ℕ) → AccountPassword → ℕ → ℕ → ℕ → SrpProof
server_proof sha256 params x a b =
    let algo = params.current_algo in
    let p = set_bytes algo.p in
    let g = pos_part algo.g in
    let ga = mod_exp g a p in
    let gb = set_bytes params.srp_b in
    let u = srp_u sha256 ga gb (length algo.p) in
    record {
      srp_id = params.srp_id;
      a = pad_big_int_bytes ga (length algo.p);
      m1 = srp_m1 sha256 algo p g ga gb (server_s p (mod_exp g x p) u b ga);
    }

-- Taking away what was added, modulo `p`.
sub_mod_add : (n y p : ℕ) → 0 < p → ((n + y) % p + (p - n % p)) % p ≡ y % p
sub_mod_add n y p h =
    let small : n % p < p = mod-lt n h in
    mod-add-mod (n + y) p (p - n % p)
    ∙ ap (λ k. k % p) swap
    ∙ sym (mod-add-mod n p (y + (p - n % p)))
    ∙ ap (λ k. k % p) (omega (arith, small))
    ∙ add-mod_right y p
  where
    swap : n + y + (p - n % p) ≡ n + (y + (p - n % p))
    swap = omega arith

-- The client is left with the server's public number without the verifier.
srp_t_lem :
    (p g k x b : ℕ) → 0 < p → srp_t p g (server_b p g k (mod_exp g x p) b) k x ≡ mod_exp g b p
unfolding srp_t
srp_t_lem p g k x b h = sub_mod_add (k * mod_exp g x p) (mod_exp g b p) p h ∙ mod-mod (g ^ b) p

-- Both sides compute the same secret.
srp_s_agrees :
    (p g k x u a b : ℕ)
    → 0 < p
    → srp_s p g (server_b p g k (mod_exp g x p) b) k x u a
      ≡ server_s p (mod_exp g x p) u b (mod_exp g a p)
unfolding srp_s
srp_s_agrees p g k x u a b h =
    ap (λ t. mod_exp t (u * x + a) p) (srp_t_lem p g k x b h)
    ∙ mod-pow-mod (g ^ b) (u * x + a) p
    ∙ ap (λ e. e % p) powers
    ∙ sym (mod-pow-mod (g ^ a * (g ^ x) ^ u) b p)
    ∙ server
  where
    powers : (g ^ b) ^ (u * x + a) ≡ (g ^ a * (g ^ x) ^ u) ^ b
    powers =
        pow-mul g b (u * x + a)
        ∙ ap (λ e. g ^ e) swap
        ∙ sym (pow-mul g (a + x * u) b)
        ∙ ap (λ e. e ^ b) (pow-add g a (x * u) ∙ ap (λ e. g ^ a * e) (sym (pow-mul g x u)))
      where
        swap : b * (u * x + a) ≡ (a + x * u) * b
        swap = grind arith

    server : ((g ^ a * (g ^ x) ^ u) % p) ^ b % p ≡ server_s p (mod_exp g x p) u b (mod_exp g a p)
    server = ap (λ e. e ^ b % p) (sym inner) ∙ mod-pow-mod (g ^ a % p * ((g ^ x % p) ^ u % p)) b p
      where
        inner : g ^ a % p * ((g ^ x % p) ^ u % p) % p ≡ g ^ a * (g ^ x) ^ u % p
        inner =
            ap (λ e. g ^ a % p * e % p) (mod-pow-mod (g ^ x) u p)
            ∙ mul-mod-mod (g ^ a % p) ((g ^ x) ^ u) p
            ∙ mod-mul-mod (g ^ a) ((g ^ x) ^ u) p

-- Against a server that keeps the verifier of the same password hash `x` and sends the number of
-- its secret exponent, no number that the client checks being zero, the client makes a proof, and
-- `M1` in it is the value that the server computes from `A`.
pub proof_for_agrees :
    (sha256 : List ℕ → List ℕ) (params : AccountPassword) (x a b : ℕ)
    → 0 < set_bytes params.current_algo.p
    → set_bytes params.srp_b
      ≡ server_b
          (set_bytes params.current_algo.p)
          (pos_part params.current_algo.g)
          (srp_k sha256
            (set_bytes params.current_algo.p)
            (pos_part params.current_algo.g)
            (length params.current_algo.p))
          (mod_exp (pos_part params.current_algo.g) x (set_bytes params.current_algo.p))
          b
    → 0 < mod_exp (pos_part params.current_algo.g) a (set_bytes params.current_algo.p)
    → 0 < mod_exp (pos_part params.current_algo.g) b (set_bytes params.current_algo.p)
    → 0
      < srp_u sha256
          (mod_exp (pos_part params.current_algo.g) a (set_bytes params.current_algo.p))
          (set_bytes params.srp_b)
          (length params.current_algo.p)
    → proof_for sha256 params x a ≡ ok (server_proof sha256 params x a b)
unfolding proof_for
proof_for_agrees sha256 params x a b hp hb ha hgb hu =
    let algo = params.current_algo in
    let p = set_bytes algo.p in
    let g = pos_part algo.g in
    let n = length algo.p in
    let gb = set_bytes params.srp_b in
    let k = srp_k sha256 p g n in
    let ga = mod_exp g a p in
    let u = srp_u sha256 ga gb n in
    let positive_a : (ga == 0) ≡ false = ground arith in
    let positive_u : (u == 0) ≡ false = ground arith in
    let t : srp_t p g gb k x ≡ mod_exp g b p =
      ap (λ e. srp_t p g e k x) hb ∙ srp_t_lem p g k x b hp in
    let positive_t : (srp_t p g gb k x == 0) ≡ false = ground arith in
    let s : srp_s p g gb k x u a ≡ server_s p (mod_exp g x p) u b ga =
      ap (λ e. srp_s p g e k x u a) hb ∙ srp_s_agrees p g k x u a b hp in
    rw (positive_a, positive_u, positive_t)
      (ap
        (λ e. ok (record {
          srp_id = params.srp_id;
          a = pad_big_int_bytes ga n;
          m1 = srp_m1 sha256 algo p g ga gb e;
        }))
        s)
