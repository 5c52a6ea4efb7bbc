-- ===== src/Password/Proof.antt =====
-- mtproto/password.go, `BuildSRPProof`.
use mt_pro_go.Prelude.{
  ℕ, ◌+◌, ◌-◌, ◌*◌, ◌%◌, ◌||◌, List, ◌++◌, not, Option, none, some, leb, ◌==◌, if◌then◌else◌,
  length, Result, ok, err, msg, msg_num, and_then,
}
use mt_pro_go.Prelude.Int.{pos, pos_part, ltb_ℤ}
use mt_pro_go.Crypto.Bytes.{xor_bytes}
use mt_pro_go.Crypto.Big.{set_bytes, pad_big_int_bytes}
use mt_pro_go.Crypto.Modular.{mod_exp}
use mt_pro_go.Password.{PasswordKdfAlgo, AccountPassword, SrpProof}
use mt_pro_go.Password.Parse.{srp_algo}
use mt_pro_go.Password.Hash.{password_hash_ph2}
use mt_pro_go.Password.Random.{Draws, random_big_int_less_than}

-- `t`: `gb - kv` modulo `p`, for a `kv` below `p`. `Mod` of math/big is never negative.
unfoldable pub srp_t : ℕ → ℕ → ℕ → ℕ → ℕ → ℕ
srp_t p g gb k x = let kv = k * mod_exp g x p % p in (gb + (p - kv)) % p

-- `s`: the secret that both sides compute.
unfoldable pub srp_s : ℕ → ℕ → ℕ → ℕ → ℕ → ℕ → ℕ → ℕ
srp_s p g gb k x u a = mod_exp (srp_t p g gb k x) (u * x + a) p

module _ (sha256 : List ℕ → List ℕ) where
  unfoldable pub srp_k : ℕ → ℕ → ℕ → ℕ
  srp_k p g pad_size =
      set_bytes (sha256 (pad_big_int_bytes p pad_size ++ pad_big_int_bytes g pad_size))

  unfoldable pub srp_u : ℕ → ℕ → ℕ → ℕ
  srp_u ga gb pad_size =
      set_bytes (sha256 (pad_big_int_bytes ga pad_size ++ pad_big_int_bytes gb pad_size))

  -- `m1`, for the numbers of the exchange and the secret `s`.
  unfoldable pub srp_m1 : PasswordKdfAlgo → ℕ → ℕ → ℕ → ℕ → ℕ → List ℕ
  srp_m1 algo p g ga gb s =
      let pad = λ (n : ℕ). pad_big_int_bytes n (length algo.p) in
      sha256 (
        xor_bytes (sha256 (pad p)) (sha256 (pad g))
        ++ (sha256 algo.salt1 ++ (sha256 algo.salt2 ++ (pad ga ++ (pad gb ++ sha256 (pad s))))))

  -- The part behind the random `a`, for the number `x` of the password's hash.
  unfoldable pub proof_for : AccountPassword → ℕ → ℕ → Result SrpProof
  proof_for params x a =
      let algo = params.current_algo in
      let p = set_bytes algo.p in
      let g = pos_part algo.g in
      let gb = set_bytes params.srp_b in
      let pad_size = length algo.p in
      let k = srp_k p g pad_size in
      let ga = mod_exp g a p in
      let u = srp_u ga gb pad_size in
      if ga == 0
      then err (msg "invalid generated SRP A parameter")
      else if u == 0
      then err (msg "invalid SRP u parameter")
      else if srp_t p g gb k x == 0
      then err (msg "invalid SRP t parameter")
      else ok (record {
        srp_id = params.srp_id;
        a = pad_big_int_bytes ga pad_size;
        m1 = srp_m1 algo p g ga gb (srp_s p g gb k x u a);
      })

-- The first checks, up to the range of `B`.
unfoldable pub check_srp : AccountPassword → Result (Unit {0})
check_srp params =
    let algo = params.current_algo in
    let p = set_bytes algo.p in
    let gb = set_bytes params.srp_b in
    if not params.has_password
    then err (msg "account does not have a 2FA password")
    else if not (algo.constructor' == srp_algo)
    then err (msg_num "unsupported password KDF algorithm 0x%08x" algo.constructor')
    else if length algo.p == 0 || length params.srp_b == 0
    then err (msg "missing SRP parameters")
    else if ltb_ℤ algo.g (pos 2) || ltb_ℤ (pos 7) algo.g
    then err (msg "unsupported SRP generator g=%d")
    else if p == 0 || gb == 0 || leb p gb
    then err (msg "invalid SRP p or B parameter")
    else ok tt

-- With fuel for the draws of `a`; `none` is that it is used up.
unfoldable pub build_srp_proof :
    (List ℕ → List ℕ)
    → (List ℕ → List ℕ → List ℕ)
    → ℕ
    → Draws
    → AccountPassword
    → List ℕ
    → Option (Result SrpProof)
build_srp_proof sha256 hmac_sha512 fuel draws params password =
    let algo = params.current_algo in
    let x = set_bytes (password_hash_ph2 sha256 hmac_sha512 password algo.salt1 algo.salt2) in
    elim (check_srp params) [
      | err e ↦ some (err e)
      | ok _ ↦ elim (random_big_int_less_than fuel draws (set_bytes algo.p)) [
        | none ↦ none
        | some drawn ↦ some (and_then drawn (proof_for sha256 params x))
      ]
    ]
