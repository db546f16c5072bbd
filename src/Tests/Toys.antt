-- ===== src/Tests/Toys.antt =====
-- Concrete functions in place of the cryptography package, which keep its laws, and small inputs.
use vpn_app_ai.Prelude.{
  false, ℕ, ◌+◌, ◌*◌, ◌≡◌, refl, Bool, none, some, [], ◌∷◌, ◌++◌, length, take, drop, take-append,
  drop-append, length-append, list_beq, list_beq_iff, nat_eq, if◌then◌else◌, arith,
}
use vpn_app_ai.Bytes.{Bytes, big_endian, from_bytes}
use vpn_app_ai.Bytes.Codec.{length-big_endian}
use vpn_app_ai.Crypto.{Aead, AeadLaws}
use vpn_app_ai.Crypto.Pki.{Pki, elliptic_curve}
use vpn_app_ai.Config.{Config, udp}
use vpn_app_ai.Protocol.Data.Channel.{Packages}
use vpn_app_ai.Protocol.Data.Delivery.{Lz4Laws}
use vpn_app_ai.Protocol.Control.Session.{Session, reset_rcvd}

-- A tag of 16 bytes in front of the text.
unfoldable pub tag : Bytes → Bytes → Bytes → Bytes
tag key nonce aad = big_endian 16 (from_bytes (key ++ (nonce ++ aad)))

abbrev pub toy_aead : Aead
toy_aead = record {
  seal = λ key nonce plain aad. tag key nonce aad ++ plain;
  unseal = λ key nonce sealed aad.
      if list_beq (take 16 sealed) (tag key nonce aad) then some (drop 16 sealed) else none;
}

length-tag : (key nonce aad : Bytes) → length (tag key nonce aad) ≡ 16
unfolding tag
length-tag key nonce aad = length-big_endian 16 (from_bytes (key ++ (nonce ++ aad)))

pub toy_aead-AeadLaws : AeadLaws toy_aead
toy_aead-AeadLaws = record {
  unseal-seal = λ key nonce plain aad. rw (
    take-append 16 (tag key nonce aad) plain (length-tag key nonce aad),
    drop-append 16 (tag key nonce aad) plain (length-tag key nonce aad),
    (list_beq_iff (tag key nonce aad) (tag key nonce aad)).1 refl,
  );
  length-seal = λ key nonce plain aad.
      omega (arith, length-append (tag key nonce aad) plain, length-tag key nonce aad);
}

abbrev pub toy_packages : Packages
toy_packages = record { aead = toy_aead; lz4 = none }

pub toy_packages-Lz4Laws : Lz4Laws toy_packages.lz4
toy_packages-Lz4Laws = record { decompress-compress = λ l e b. cc }

-- Keys are numbers, a signature is the signed text, and the file of a name holds the name.
abbrev pub toy_pki : Pki
toy_pki = record {
  PrivateKey = ℕ;
  PublicKey = ℕ;
  Certificate = Bytes;
  SigningKey = Bytes;
  public_key = λ key. key + 1;
  public_bytes = big_endian 32;
  from_public_bytes = λ b. some (from_bytes b);
  exchange = λ a b. some (big_endian 32 (a * b));
  hkdf = λ n salt info shared. shared;
  read_bytes = λ path. some path;
  load_pem_certificate = λ b. some b;
  load_pem_private_key = λ b. some b;
  certificate_kind = λ cert. elliptic_curve;
  tbs_bytes = λ cert. cert;
  signature = λ cert. cert;
  signature_hash = λ cert. 256;
  verifies = λ cert kind hash sig b. list_beq sig b;
  signing_kind = λ key. elliptic_curve;
  sign = λ key kind b. b;
}

abbrev pub eight : Bytes
eight = 1 ∷ 2 ∷ 3 ∷ 4 ∷ 5 ∷ 6 ∷ 7 ∷ 8 ∷ []

-- A session with a CA behind the reset.
abbrev pub toy_session : Bool → Session toy_pki
toy_session is_server = record {
  session_id = eight;
  peer_session_id = some (8 ∷ 7 ∷ 6 ∷ 5 ∷ 4 ∷ 3 ∷ 2 ∷ 1 ∷ []);
  state = reset_rcvd;
  is_server = is_server;
  cipher = none;
  peer_cert = none;
  private_eph = 5;
  public_eph = 6;
  peer_pub_eph = none;
  local_cert_path = some (10 ∷ []);
  local_key_path = some (11 ∷ []);
  ca_path = some (12 ∷ []);
  local_cert_bytes = some (10 ∷ []);
  last_rx = 0;
  last_tx = 0;
  created_at = 0;
  assigned_ip = none;
}

abbrev pub options : Config
options = record {
  dev = [];
  proto = udp;
  port = 1194;
  remote = none;
  ifconfig = none;
  server = none;
  ifconfig_pool = none;
  ca = none;
  cert = none;
  key = none;
  cipher = [];
  compress = false;
  keepalive_interval = 10;
  keepalive_timeout = 60;
  verb = 0;
  redirect_gateway = false;
  status_file = none;
  user = none;
}
