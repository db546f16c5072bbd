-- ===== src/Crypto/Pki.antt =====
-- The X25519, HKDF, X.509 and signature functions of the cryptography package, as a parameter, and
-- what src/crypto/key_exchange.py and src/crypto/certificates.py make of them.
use vpn_app_ai.Prelude.{ℕ, Bool, false, Option, none, some, List, [], ◌∷◌}
use vpn_app_ai.Prelude.Result.{Exception, Result, ok, raise, value_error, os_error, ◌>>=◌}
use vpn_app_ai.Bytes.{Bytes}

-- A text is the list of its code points.
abbrev pub Text : Type 0
Text = List ℕ

pub data KeyKind : Type 0 where
  elliptic_curve rsa other_kind : KeyKind

-- An operation that is none raises. The file system is what `read_bytes` finds.
pub record Pki : Type 1 where
  pub PrivateKey : Type 0
  pub PublicKey : Type 0
  pub Certificate : Type 0
  pub SigningKey : Type 0
  -- X25519 and HKDF-SHA256
  pub public_key : PrivateKey → PublicKey
  pub public_bytes : PublicKey → Bytes
  pub from_public_bytes : Bytes → Option PublicKey
  pub exchange : PrivateKey → PublicKey → Option Bytes
  pub hkdf : ℕ → Bytes → Bytes → Bytes → Bytes
  -- files and PEM
  pub read_bytes : Text → Option Bytes
  pub load_pem_certificate : Bytes → Option Certificate
  pub load_pem_private_key : Bytes → Option SigningKey
  -- certificates: the kind of the subject's key, what the issuer signed and the signature
  pub certificate_kind : Certificate → KeyKind
  pub tbs_bytes : Certificate → Bytes
  pub signature : Certificate → Bytes
  pub signature_hash : Certificate → ℕ
  -- `public_key().verify(signature, data, …)` returns, with a hash named by a number
  pub verifies : Certificate → KeyKind → ℕ → Bytes → Bytes → Bool
  pub signing_kind : SigningKey → KeyKind
  pub sign : SigningKey → KeyKind → Bytes → Bytes

abbrev pub sha256 : ℕ
sha256 = 256

-- `b"pyvpn-data-channel"`
abbrev pub data_channel_info : Bytes
data_channel_info =
    0x70 ∷ 0x79 ∷ 0x76 ∷ 0x70 ∷ 0x6e ∷ 0x2d ∷ 0x64 ∷ 0x61 ∷ 0x74 ∷ 0x61 ∷ 0x2d ∷ 0x63 ∷ 0x68 ∷ 0x61
    ∷ 0x6e ∷ 0x6e ∷ 0x65 ∷ 0x6c ∷ []

abbrev pub or_raise {ℓ} : {A : Type ℓ} → Exception → Option A → Result A
or_raise x none = raise x
or_raise x (some a) = ok a

module _ (k : Pki) where
  open k use {
    PrivateKey, PublicKey, Certificate, SigningKey, exchange, hkdf, read_bytes,
    load_pem_certificate, load_pem_private_key, certificate_kind, tbs_bytes, signature,
    signature_hash, verifies, from_public_bytes,
  }

  -- `derive_shared_key` with its default info and length.
  unfoldable pub derive_shared_key : PrivateKey → PublicKey → Bytes → Result Bytes
  derive_shared_key private_key peer_public_key salt = do
    shared ← or_raise value_error (exchange private_key peer_public_key)
    ok (hkdf 32 salt data_channel_info shared)

  unfoldable pub public_key_from_bytes : Bytes → Result PublicKey
  public_key_from_bytes b = or_raise value_error (from_public_bytes b)

  unfoldable pub load_certificate : Text → Result Certificate
  load_certificate path = do
    pem ← or_raise os_error (read_bytes path)
    or_raise value_error (load_pem_certificate pem)

  unfoldable pub load_private_key : Text → Result SigningKey
  load_private_key path = do
    pem ← or_raise os_error (read_bytes path)
    or_raise value_error (load_pem_private_key pem)

  -- By the kind of the CA's key; a signature that does not verify raises, and is caught.
  unfoldable pub verify_by_kind : KeyKind → Certificate → Certificate → Bool
  verify_by_kind rsa cert ca =
      verifies ca rsa (signature_hash cert) (signature cert) (tbs_bytes cert)
  verify_by_kind elliptic_curve cert ca =
      verifies ca elliptic_curve (signature_hash cert) (signature cert) (tbs_bytes cert)
  verify_by_kind other_kind cert ca = false

  unfoldable pub verify_certificate : Certificate → Certificate → Bool
  verify_certificate cert ca = verify_by_kind (certificate_kind ca) cert ca
