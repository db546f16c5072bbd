-- ===== src/Crypto.antt =====
-- src/crypto/cipher.py over the AES-GCM of the cryptography package, which is a parameter.
pub mod Pki
use vpn_app_ai.Prelude.{
  ◌+◌, ◌≤◌, ◌≡◌, Option, none, some, [], ◌++◌, length, take, drop, take-append, drop-append,
  length-append, ltb, le→ltb, nat_beq, not, if◌then◌else◌, arith,
}
use vpn_app_ai.Prelude.Result.{Result, ok, raise, value_error, crypto_error}
use vpn_app_ai.Bytes.{Bytes}

-- `AESGCM(key).encrypt(nonce, data, aad)` and `.decrypt(nonce, data, aad)`; the latter's none is
-- the exception InvalidTag.
pub record Aead : Type 0 where
  pub seal : Bytes → Bytes → Bytes → Bytes → Bytes
  pub unseal : Bytes → Bytes → Bytes → Bytes → Option Bytes

-- What the package documents: a sealed text is its input and a tag of 16 bytes, and is opened by the
-- same key, nonce and associated data.
pub record AeadLaws (aead : Aead) : Type 0 where
  pub unseal-seal :
      (key nonce plain aad : Bytes)
      → aead.unseal key nonce (aead.seal key nonce plain aad) aad ≡ some plain
  pub length-seal :
      (key nonce plain aad : Bytes) → length (aead.seal key nonce plain aad) ≡ length plain + 16

-- `self._cipher = AESGCM(key)`
pub record Cipher : Type 0 where
  pub key : Bytes

unfoldable pub new_cipher : Bytes → Result Cipher
new_cipher key =
    if not (nat_beq (length key) 32) then raise value_error else ok (record { key = key })

-- `aad or b""`
unfoldable pub or_empty : Option Bytes → Bytes
or_empty none = []
or_empty (some b) = b

-- InvalidTag
unfoldable pub or_invalid_tag : Option Bytes → Result Bytes
or_invalid_tag none = raise crypto_error
or_invalid_tag (some plain) = ok plain

module _ (aead : Aead) where
  -- `nonce` is what `os.urandom(12)` returns.
  unfoldable pub encrypt : Cipher → Bytes → Bytes → Option Bytes → Bytes
  unfolding or_empty
  encrypt c nonce plaintext aad = nonce ++ aead.seal c.key nonce plaintext (or_empty aad)

  unfoldable pub decrypt : Cipher → Bytes → Option Bytes → Result Bytes
  unfolding or_empty or_invalid_tag
  decrypt c sealed aad =
      if ltb (length sealed) 12
      then raise value_error
      else or_invalid_tag (aead.unseal c.key (take 12 sealed) (drop 12 sealed) (or_empty aad))

module _ (aead : Aead) (laws : AeadLaws aead) where
  pub length-encrypt :
      (c : Cipher) (nonce plain : Bytes) (aad : Option Bytes)
      → length nonce ≡ 12
      → length (encrypt aead c nonce plain aad) ≡ length plain + 28
  unfolding encrypt
  length-encrypt c nonce plain aad e = omega (
    arith,
    length-append nonce (aead.seal c.key nonce plain (or_empty aad)),
    laws.length-seal c.key nonce plain (or_empty aad),
  )

  -- `decrypt` gives back what `encrypt` was given, under the same key and associated data.
  pub decrypt-encrypt :
      (c : Cipher) (nonce plain : Bytes) (aad : Option Bytes)
      → length nonce ≡ 12
      → decrypt aead c (encrypt aead c nonce plain aad) aad ≡ ok plain
  unfolding decrypt encrypt
  decrypt-encrypt c nonce plain aad e =
      let long : 12 ≤ length (nonce ++ aead.seal c.key nonce plain (or_empty aad)) =
        omega (arith, length-append nonce (aead.seal c.key nonce plain (or_empty aad))) in
      rw (
        le→ltb (length (nonce ++ aead.seal c.key nonce plain (or_empty aad))) 12 long,
        take-append 12 nonce (aead.seal c.key nonce plain (or_empty aad)) e,
        drop-append 12 nonce (aead.seal c.key nonce plain (or_empty aad)) e,
        laws.unseal-seal c.key nonce plain (or_empty aad),
      )
