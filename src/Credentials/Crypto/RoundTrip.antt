-- ===== src/Credentials/Crypto/RoundTrip.antt =====
-- What is encrypted is decrypted again.
use edgeclaw.Prelude.{
  String, ℕ, zero, suc, ◌+◌, ◌≡◌, refl, ap, [], ◌∷◌, ◌++◌, length, length-append, take, drop, arith,
}
use edgeclaw.Types.{Result, ok, err}
use edgeclaw.Credentials.Crypto.{Bytes, CredentialStoreError, Primitives, encrypt, decrypt}

take_append : (n : ℕ) (a b : Bytes) → length a ≡ n → take n (a ++ b) ≡ a
take_append zero [] b h = refl
take_append zero (x ∷ a) b h = absurd (omega arith)
take_append (suc n) [] b h = absurd (omega arith)
take_append (suc n) (x ∷ a) b h = ap (◌∷◌ x) (take_append n a b (omega arith))

drop_append : (n : ℕ) (a b : Bytes) → length a ≡ n → drop n (a ++ b) ≡ b
drop_append zero [] b h = refl
drop_append zero (x ∷ a) b h = absurd (omega arith)
drop_append (suc n) [] b h = absurd (omega arith)
drop_append (suc n) (x ∷ a) b h = drop_append n a b (omega arith)

-- What the libraries document: as many random bytes as asked for, and an authenticated cipher that adds a
-- tag of 16 bytes and undoes itself under the same key and nonce.
pub record Documented {W : Type 0} (prim : Primitives W) : Type 0 where
  pub random : (n : ℕ) (w : W) → length (prim.random n w).0 ≡ n
  pub seal_length :
      (key nonce plaintext ciphertext : Bytes)
      → prim.seal key nonce plaintext ≡ ok ciphertext
      → length ciphertext ≡ length plaintext + 16
  pub unseal_seal :
      (key nonce plaintext ciphertext : Bytes)
      → prim.seal key nonce plaintext ≡ ok ciphertext
      → prim.unseal key nonce ciphertext ≡ ok plaintext

module _ {W : Type 0} (prim : Primitives W) (documented : Documented prim) where
  -- A blob that opens to a text, where there is one.
  abbrev pub Opens : Bytes → Bytes → Result Bytes CredentialStoreError × W → Type 0
  Opens key plaintext (ok blob, w) = decrypt prim key blob ≡ ok plaintext
  Opens key plaintext (err e, w) = Unit {0}

  framed :
      (key nonce plaintext ciphertext : Bytes)
      → length nonce ≡ 12
      → prim.seal key nonce plaintext ≡ ok ciphertext
      → decrypt prim key (nonce ++ ciphertext) ≡ ok plaintext
  unfolding decrypt
  framed key nonce plaintext ciphertext n e =
      rw
        (
          take_append 12 nonce ciphertext n,
          drop_append 12 nonce ciphertext n,
          documented.unseal_seal key nonce plaintext ciphertext e,
        )
        (ground (
          arith,
          length-append nonce ciphertext,
          documented.seal_length key nonce plaintext ciphertext e,
        ))

  -- If the cipher is as documented, whatever `encrypt` returns, `decrypt` opens to the plaintext under the same key.
  pub encrypt-Opens :
      (key plaintext : Bytes) (w : W) → Opens key plaintext (encrypt prim key plaintext w)
  unfolding encrypt
  encrypt-Opens key plaintext w = go (prim.seal key (prim.random 12 w).0 plaintext) refl
    where
      go :
          (r : Result Bytes String)
          → prim.seal key (prim.random 12 w).0 plaintext ≡ r
          → Opens key plaintext (encrypt prim key plaintext w)
      go (err x) e = rw (e, encrypt) tt
      go (ok ciphertext) e =
          rw (e, encrypt)
            (framed key (prim.random 12 w).0 plaintext ciphertext (documented.random 12 w) e)
