-- ===== src/Password.antt =====
-- mtproto/password.go: the login with a password, by the SRP protocol. SHA-256, HMAC with SHA-512
-- and the random bytes are parameters.
pub mod Parse
pub mod Hash
pub mod Random
pub mod Proof
pub mod Agreement
use mt_pro_go.Prelude.{ℕ, List, [], Bool}
use mt_pro_go.Prelude.Int.{ℤ, pos}

pub record PasswordKdfAlgo : Type 0 where
  pub constructor' : ℕ
  pub salt1 : List ℕ
  pub salt2 : List ℕ
  pub g : ℤ
  pub p : List ℕ

-- `PasswordKDFAlgo{Constructor: constructor}`.
abbrev pub bare_algo : ℕ → PasswordKdfAlgo
bare_algo constructor = record {
  constructor' = constructor;
  salt1 = [];
  salt2 = [];
  g = pos 0;
  p = [];
}

-- Without `Raw`.
pub record AccountPassword : Type 0 where
  pub flags : ℕ
  pub has_recovery : Bool
  pub has_password : Bool
  pub hint : List ℕ
  pub srp_id : ℤ
  pub srp_b : List ℕ
  pub current_algo : PasswordKdfAlgo

pub record SrpProof : Type 0 where
  pub srp_id : ℤ
  pub a : List ℕ
  pub m1 : List ℕ
