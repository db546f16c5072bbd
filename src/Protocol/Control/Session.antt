-- ===== src/Protocol/Control/Session.antt =====
-- `Session` of src/protocol/control.py, and the steps that the handlers share.
use vpn_app_ai.Prelude.{
  ℕ, ◌-◌, Bool, true, false, not, ◌&&◌, ◌||◌, Option, none, some, List, [], ◌∷◌, ◌++◌, ltb, nat_beq,
  if◌then◌else◌,
}
use vpn_app_ai.Prelude.Result.{Result, ok, os_error, value_error, ◌>>=◌, Outcome, returns, raises}
use vpn_app_ai.Bytes.{Bytes}
use vpn_app_ai.Crypto.{Cipher, new_cipher}
use vpn_app_ai.Crypto.Pki.{
  Pki, Text, KeyKind, elliptic_curve, rsa, other_kind, sha256, or_raise, load_certificate,
  derive_shared_key, public_key_from_bytes, load_private_key, verify_certificate,
}

pub data HandshakeState : Type 0 where
  idle reset_sent reset_rcvd hello_sent established error : HandshakeState

-- Times are in milliseconds.
pub record Session (k : Pki) : Type 0 where
  pub session_id : Bytes
  pub peer_session_id : Option Bytes
  pub state : HandshakeState
  pub is_server : Bool
  pub cipher : Option Cipher
  pub peer_cert : Option k.Certificate
  pub private_eph : k.PrivateKey
  pub public_eph : k.PublicKey
  pub peer_pub_eph : Option Bytes
  pub local_cert_path : Option Text
  pub local_key_path : Option Text
  pub ca_path : Option Text
  pub local_cert_bytes : Option Bytes
  pub last_rx : ℕ
  pub last_tx : ℕ
  pub created_at : ℕ
  pub assigned_ip : Option Text

-- The truth value of a text or a byte string that may be None: None and the empty one are false.
abbrev pub is_true : Option (List ℕ) → Bool
is_true none = false
is_true (some []) = false
is_true (some (c ∷ cs)) = true

-- `x or b""`
abbrev pub or_empty : Option Bytes → Bytes
or_empty none = []
or_empty (some b) = b

abbrev pub is_established_state : HandshakeState → Bool
is_established_state established = true
is_established_state _ = false

abbrev pub is_idle_state : HandshakeState → Bool
is_idle_state idle = true
is_idle_state _ = false

-- `a < b` on byte strings.
unfoldable pub bytes_lt : Bytes → Bytes → Bool
bytes_lt [] [] = false
bytes_lt [] (b ∷ bs) = true
bytes_lt (a ∷ as') [] = false
bytes_lt (a ∷ as') (b ∷ bs) = ltb a b || (nat_beq a b && bytes_lt as' bs)

module _ (k : Pki) where
  -- `urandom` is what `os.urandom(8)` returns, `eph` the generated key, `now` the time.
  unfoldable pub new_session : Bool → Bytes → k.PrivateKey → ℕ → Session k
  new_session is_server urandom eph now = record {
    session_id = urandom;
    peer_session_id = none;
    state = idle;
    is_server = is_server;
    cipher = none;
    peer_cert = none;
    private_eph = eph;
    public_eph = k.public_key eph;
    peer_pub_eph = none;
    local_cert_path = none;
    local_key_path = none;
    ca_path = none;
    local_cert_bytes = none;
    last_rx = now;
    last_tx = 0;
    created_at = now;
    assigned_ip = none;
  }

  -- `configure`: opening a certificate that is not there raises, behind the assignments.
  unfoldable pub configure : Text → Text → Text → Session k → Outcome (Session k) (Unit {0})
  configure ca cert key s =
      let named = record s {
        ca_path = some ca;
        local_cert_path = some cert;
        local_key_path = some key;
      } in
      if is_true (some cert)
      then elim (k.read_bytes cert) [
        | none ↦ raises os_error named
        | some b ↦ returns tt (record named { local_cert_bytes = some b })
      ]
      else returns tt named

  unfoldable pub is_established : Session k → Bool
  is_established s = is_established_state s.state

  unfoldable pub is_expired : Session k → ℕ → ℕ → Bool
  is_expired s timeout now =
      not (is_established_state s.state || is_idle_state s.state)
      && ltb timeout (now - s.created_at)

  -- By the kind of the key.
  unfoldable pub sign_by_kind : KeyKind → k.SigningKey → Bytes → Bytes
  sign_by_kind elliptic_curve key b = k.sign key elliptic_curve b
  sign_by_kind rsa key b = k.sign key rsa b
  sign_by_kind other_kind key b = []

  -- `_sign`; no path gives the empty signature.
  unfoldable pub sign_with : Option Text → Bytes → Result Bytes
  sign_with none b = ok []
  sign_with (some []) b = ok []
  sign_with (some (c ∷ cs)) b = do
    key ← load_private_key k (c ∷ cs)
    ok (sign_by_kind (k.signing_kind key) key b)

  unfoldable pub verify_by_kind : KeyKind → k.Certificate → Bytes → Bytes → Bool
  verify_by_kind elliptic_curve cert b sig = k.verifies cert elliptic_curve sha256 sig b
  verify_by_kind rsa cert b sig = k.verifies cert rsa sha256 sig b
  verify_by_kind other_kind cert b sig = false

  -- `_verify`
  unfoldable pub verify_signature : k.Certificate → Bytes → Bytes → Bool
  verify_signature cert b sig = verify_by_kind (k.certificate_kind cert) cert b sig

  -- `_verify_peer_cert`, of the CA's path and the peer's certificate.
  unfoldable pub verify_peer : Option Text → Option k.Certificate → Result Bool
  verify_peer none cert = ok true
  verify_peer (some []) cert = ok true
  verify_peer (some (c ∷ cs)) none = ok false
  verify_peer (some (c ∷ cs)) (some cert) = do
    ca ← load_certificate k (c ∷ cs)
    ok (verify_certificate k cert ca)

  unfoldable pub verify_peer_cert : Session k → Result Bool
  verify_peer_cert s = verify_peer s.ca_path s.peer_cert

  -- `load_pem_x509_certificate(cert_data) if cert_data else None`
  unfoldable pub load_peer_cert : Bytes → Result (Option k.Certificate)
  load_peer_cert [] = ok none
  load_peer_cert (b ∷ bs) = do
    cert ← or_raise value_error (k.load_pem_certificate (b ∷ bs))
    ok (some cert)

  -- `session.peer_cert is not None and not _verify(...)` fails.
  unfoldable pub signature_passes : Option k.Certificate → Bytes → Bytes → Bool
  signature_passes none b sig = true
  signature_passes (some cert) b sig = verify_signature cert b sig

  -- `_handshake_salt`
  unfoldable pub salt_of : Bytes → Bytes → Bytes
  salt_of a b = if bytes_lt a b then a ++ b else b ++ a

  unfoldable pub handshake_salt : Session k → Bytes
  handshake_salt s = salt_of s.session_id (or_empty s.peer_session_id)

  -- The session's cipher, from the bytes of the peer's public key.
  unfoldable pub derive_cipher : Bytes → Session k → Result Cipher
  derive_cipher pub_bytes s = do
    peer_pub ← public_key_from_bytes k pub_bytes
    shared ← derive_shared_key k s.private_eph peer_pub (handshake_salt s)
    new_cipher shared
