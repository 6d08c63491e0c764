-- ===== src/Credentials/Crypto.antt =====
-- crates/credential-store/src/crypto.rs, and UTF-8. A byte is a number, and a Rust string is the list of
-- its bytes, which `from_utf8` checks.
pub mod RoundTrip
use edgeclaw.Prelude.{
  ℕ, zero, suc, ◌+◌, ◌-◌, String, Bool, true, false, ◌&&◌, List, [], ◌∷◌, ◌++◌, length, take, drop,
  ltb, leb, ◌==◌, if◌then◌else◌,
}
use edgeclaw.Prelude.Text.{◌<>◌}
use edgeclaw.Types.{Result, ok, err, map_err}

abbrev pub Bytes : Type 0
Bytes = List ℕ

-- error.rs; an error of sqlx is its text.
pub data CredentialStoreError : Type 0 where
  key_derivation encryption decryption : String → CredentialStoreError
  refresh_failed credential_invalid service_account_error : String → CredentialStoreError
  database : String → CredentialStoreError
  not_found invalid_master_key : CredentialStoreError

-- ring's HKDF-SHA256 to 32 bytes, the AES-256-GCM of aes_gcm, and the random bytes of rand; a failure is
-- its text.
pub record Primitives (W : Type 0) : Type 0 where
  pub hkdf : (master_key salt : Bytes) → (info : String) → Result Bytes String
  pub seal : (key nonce plaintext : Bytes) → Result Bytes String
  pub unseal : (key nonce ciphertext : Bytes) → Result Bytes String
  pub random : ℕ → W → Bytes × W

-- `?` on a fallible action.
abbrev pub then_run :
    {A B E W : Type 0} → Result A E × W → (A → W → Result B E × W) → Result B E × W
then_run (ok a, w) f = f a w
then_run (err e, w) f = (err e, w)

-- The continuation bytes that are still to come, the next one between two bounds.
unfoldable pub utf8_from : (missing low high : ℕ) → Bytes → Bool
utf8_from zero low high [] = true
utf8_from (suc n) low high [] = false
utf8_from (suc n) low high (b ∷ bs) =
    let rest = utf8_from n 0x80 0xBF bs in leb low b && leb b high && rest
utf8_from zero low high (b ∷ bs) = elim (ltb b 0x80) [
  | true ↦ utf8_from 0 0x80 0xBF bs
  | false ↦ elim (leb 0xC2 b && leb b 0xDF) [
    | true ↦ utf8_from 1 0x80 0xBF bs
    | false ↦ elim (leb 0xE0 b && leb b 0xEF) [
      | true ↦ utf8_from 2 (if b == 0xE0 then 0xA0 else 0x80) (if b == 0xED then 0x9F else 0xBF) bs
      | false ↦ elim (leb 0xF0 b && leb b 0xF4) [
        | true ↦
            utf8_from 3 (if b == 0xF0 then 0x90 else 0x80) (if b == 0xF4 then 0x8F else 0xBF) bs
        | false ↦ false
      ]
    ]
  ]
]

unfoldable pub utf8 : Bytes → Bool
unfolding utf8_from
utf8 = utf8_from 0 0x80 0xBF

-- `String::from_utf8`; the text of its error is left out.
unfoldable pub from_utf8 : Bytes → Result Bytes CredentialStoreError
unfolding utf8
from_utf8 bytes = if utf8 bytes then ok bytes else err (decryption "invalid utf-8")

module _ {W : Type 0} (prim : Primitives W) where
  unfoldable pub derive_key : Bytes → Bytes → String → Result Bytes CredentialStoreError
  derive_key master_key salt provider =
      map_err key_derivation (prim.hkdf master_key salt ("edgeclaw-token-v1:" <> provider))

  unfoldable pub encrypt : Bytes → Bytes → W → Result Bytes CredentialStoreError × W
  encrypt key plaintext w =
      let (nonce, w') = prim.random 12 w in
      elim (prim.seal key nonce plaintext) [
        | err e ↦ (err (encryption e), w')
        | ok ciphertext ↦ (ok (nonce ++ ciphertext), w')
      ]

  unfoldable pub decrypt : Bytes → Bytes → Result Bytes CredentialStoreError
  decrypt key blob =
      if ltb (length blob) (12 + 16)
      then err (decryption "ciphertext too short")
      else map_err decryption (prim.unseal key (take 12 blob) (drop 12 blob))

  unfoldable pub generate_salt : W → Bytes × W
  generate_salt w = prim.random 32 w
