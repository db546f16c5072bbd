-- ===== src/Tests/Agreements.antt =====
-- Two sessions that have exchanged ids and public keys.
use native.Mathlib.Nat.{mul_comm}
use vpn_app_ai.Prelude.{ℕ, ◌*◌, ◌≡◌, refl, ap, false, true, Option, none, some, [], ◌∷◌}
use vpn_app_ai.Prelude.Result.{ok}
use vpn_app_ai.Bytes.{Bytes, big_endian, from_bytes, from_bytes_onto}
use vpn_app_ai.Crypto.{Cipher, new_cipher}
use vpn_app_ai.Crypto.Pki.{Pki, derive_shared_key, public_key_from_bytes}
use vpn_app_ai.Protocol.Replay.{new_window}
use vpn_app_ai.Protocol.Data.Channel.{DataChannel, derive_session_id, new_channel}
use vpn_app_ai.Protocol.Data.Delivery.{ArePaired}
use vpn_app_ai.Protocol.Control.Session.{
  Session, new_session, bytes_lt, salt_of, handshake_salt, derive_cipher,
}
use vpn_app_ai.Protocol.Control.Agreement.{ExchangeLaws, AreCrossed, new_channel-ArePaired}
use vpn_app_ai.Tests.Toys.{toy_pki, toy_packages, eight}

-- A key is a number, which is its own public key and is sent as it is.
abbrev one_number : Bytes → Option ℕ
one_number (n ∷ []) = some n
one_number _ = none

abbrev pub product_pki : Pki
product_pki = record {
  PrivateKey = ℕ;
  PublicKey = ℕ;
  Certificate = Bytes;
  SigningKey = Bytes;
  public_key = λ key. key;
  public_bytes = λ key. key ∷ [];
  from_public_bytes = one_number;
  exchange = λ a b. some (big_endian 32 (a * b));
  hkdf = λ n salt info shared. big_endian n (from_bytes shared);
  read_bytes = toy_pki.read_bytes;
  load_pem_certificate = toy_pki.load_pem_certificate;
  load_pem_private_key = toy_pki.load_pem_private_key;
  certificate_kind = toy_pki.certificate_kind;
  tbs_bytes = toy_pki.tbs_bytes;
  signature = toy_pki.signature;
  signature_hash = toy_pki.signature_hash;
  verifies = toy_pki.verifies;
  signing_kind = toy_pki.signing_kind;
  sign = toy_pki.sign;
}

pub product_pki-ExchangeLaws : ExchangeLaws product_pki
product_pki-ExchangeLaws = record {
  from_bytes = λ key. refl;
  symmetric = λ a b. ap (λ (n : ℕ). some (big_endian 32 n)) (mul_comm a b);
}

abbrev pub nines : Bytes
nines = 9 ∷ 9 ∷ 9 ∷ 9 ∷ 9 ∷ 9 ∷ 9 ∷ 9 ∷ []

abbrev client_side : Session product_pki
client_side = record (new_session product_pki false eight 5 0) { peer_session_id = some nines }

abbrev server_side : Session product_pki
server_side = record (new_session product_pki true nines 7 0) { peer_session_id = some eight }

sides-AreCrossed : AreCrossed product_pki client_side server_side
unfolding new_session
sides-AreCrossed = record { a_public = refl; b_public = refl; a_knows = refl; b_knows = refl }

abbrev key : Cipher
key = record { key = big_endian 32 35 }

client-derives : derive_cipher product_pki (7 ∷ []) client_side ≡ ok key
unfolding derive_cipher public_key_from_bytes derive_shared_key handshake_salt salt_of bytes_lt
    new_session new_cipher big_endian from_bytes from_bytes_onto
client-derives = refl

server-derives : derive_cipher product_pki (5 ∷ []) server_side ≡ ok key
unfolding derive_cipher public_key_from_bytes derive_shared_key handshake_salt salt_of bytes_lt
    new_session new_cipher big_endian from_bytes from_bytes_onto
server-derives = refl

-- The channel of both.
abbrev channel : DataChannel
channel = record {
  shared_id = derive_session_id eight nines;
  cipher = some key;
  packet_counter = 0;
  compressing = false;
  fragments = [];
  replay = record { window_size = 64; highest = none; seen = 0 };
}

client-opens : new_channel toy_packages eight nines (some key) false 64 ≡ ok channel
unfolding new_channel new_window
client-opens = refl

server-opens : new_channel toy_packages nines eight (some key) true 64 ≡ ok channel
unfolding new_channel new_window derive_session_id
server-opens = refl

new_channel-ArePaired_example : ArePaired channel channel
unfolding new_session
new_channel-ArePaired_example =
    new_channel-ArePaired product_pki product_pki-ExchangeLaws toy_packages client_side server_side
      key key false true 64 64 channel channel sides-AreCrossed client-derives server-derives
      client-opens server-opens
