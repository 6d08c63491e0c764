-- ===== src/Credentials/Fixtures.antt =====
-- Cryptography, a clock and a token provider for the tests: a cipher that puts a tag in front.
use edgeclaw.Prelude.{
  ℕ, zero, suc, ◌+◌, String, ◌≡◌, refl, none, some, [], ◌∷◌, ◌++◌, length, drop, arith,
}
use edgeclaw.Prelude.Int.{pos}
use edgeclaw.Types.{Result, ok, err}
use edgeclaw.Credentials.Crypto.{Bytes, Primitives, refresh_failed}
use edgeclaw.Credentials.Crypto.RoundTrip.{Documented}
use edgeclaw.Credentials.{Outside, TokenResponse}

abbrev pub zeros : ℕ → Bytes
zeros zero = []
zeros (suc n) = 0 ∷ zeros n

zeros-length : (n : ℕ) → length (zeros n) ≡ n
zeros-length zero = refl
zeros-length (suc n) = omega (arith, zeros-length n)

abbrev pub prim : Primitives ℕ
prim = record {
  hkdf = λ master_key salt info. ok salt;
  seal = λ key nonce plaintext. ok (zeros 16 ++ plaintext);
  unseal = λ key nonce ciphertext. ok (drop 16 ciphertext);
  random = λ n w. (zeros n, suc w);
}

pub prim-Documented : Documented prim
prim-Documented = record {
  random = λ n w. zeros-length n;
  seal_length = λ key nonce plaintext ciphertext e. sealed_length plaintext ciphertext e;
  unseal_seal = λ key nonce plaintext ciphertext e. unsealed plaintext ciphertext e;
}
  where
    sealed_length :
        (p c : Bytes)
        → ◌≡◌ {A = Result Bytes String} (ok (zeros 16 ++ p)) (ok c)
        → length c ≡ length p + 16
    sealed_length p c e = let q : zeros 16 ++ p ≡ c = cc in rw (← q) (omega arith)

    unsealed :
        (p c : Bytes)
        → ◌≡◌ {A = Result Bytes String} (ok (zeros 16 ++ p)) (ok c)
        → ◌≡◌ {A = Result Bytes String} (ok (drop 16 c)) (ok p)
    unsealed p c e = let q : zeros 16 ++ p ≡ c = cc in rw (← q) refl

abbrev pub token : TokenResponse
token = record { access_token = 110 ∷ []; refresh_token = none; expires_in = some (pos 3600) }

abbrev pub out : Outside ℕ
out = record {
  prim = prim;
  clock = λ w. pos 1000;
  write_metadata = λ m. err "unsupported";
  read_metadata = λ b. err "unsupported";
  refresh_token = λ provider rt w. (ok token, w);
  mint_token = λ key email uri scopes w. (err (refresh_failed "unsupported"), w);
}
