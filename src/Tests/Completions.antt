-- ===== src/Tests/Completions.antt =====
-- A handshake between two ends with certificates, run to its end.
use vpn_app_ai.Prelude.{refl, false, true, some, [], ◌∷◌, arith}
use vpn_app_ai.Prelude.Tests.{list_beq}
use vpn_app_ai.Bytes.{big_endian, from_bytes}
use vpn_app_ai.Bytes.Codec.{length-big_endian}
use vpn_app_ai.Crypto.Pki
use vpn_app_ai.Crypto.Pki.{load_certificate, load_private_key, verify_certificate}
use vpn_app_ai.Protocol.Control.Session
use vpn_app_ai.Protocol.Control.Session.{
  Session, new_session, sign_with, sign_by_kind, verify_signature, verify_peer, load_peer_cert,
  signature_passes,
}
use vpn_app_ai.Protocol.Control.Hellos.{Accepts}
use vpn_app_ai.Protocol.Control.Completion.{KeyLaws, IsCompleted, handshake-IsCompleted}
use vpn_app_ai.Tests.Toys.{eight}
use vpn_app_ai.Tests.Agreements.{product_pki, product_pki-ExchangeLaws, nines}

product_pki-KeyLaws : KeyLaws product_pki
product_pki-KeyLaws = record {
  exchange = product_pki-ExchangeLaws;
  public_fits = λ key. omega arith;
  length-hkdf = λ salt info shared. length-big_endian 32 (from_bytes shared);
}

abbrev client_end : Session product_pki
client_end = record (new_session product_pki false eight 5 0) {
  ca_path = some (12 ∷ []);
  local_key_path = some (11 ∷ []);
  local_cert_bytes = some (10 ∷ []);
}

abbrev server_end : Session product_pki
server_end = record (new_session product_pki true nines 7 0) {
  ca_path = some (13 ∷ []);
  local_key_path = some (14 ∷ []);
  local_cert_bytes = some (15 ∷ []);
}

server-Accepts : Accepts product_pki server_end client_end (5 ∷ 7 ∷ [])
unfolding new_session load_peer_cert verify_peer load_certificate verify_certificate
    Pki.verify_by_kind sign_with load_private_key sign_by_kind signature_passes verify_signature
    Session.verify_by_kind list_beq
server-Accepts = record {
  cert = some (10 ∷ []);
  sig = 5 ∷ 7 ∷ [];
  cert_fits = omega arith;
  loads = refl;
  trusted = refl;
  signs = refl;
  sig_fits = omega arith;
  passes = refl;
}

client-Accepts : Accepts product_pki client_end server_end (5 ∷ 7 ∷ [])
unfolding new_session load_peer_cert verify_peer load_certificate verify_certificate
    Pki.verify_by_kind sign_with load_private_key sign_by_kind signature_passes verify_signature
    Session.verify_by_kind list_beq
client-Accepts = record {
  cert = some (15 ∷ []);
  sig = 5 ∷ 7 ∷ [];
  cert_fits = omega arith;
  loads = refl;
  trusted = refl;
  signs = refl;
  sig_fits = omega arith;
  passes = refl;
}

handshake-IsCompleted_example : IsCompleted product_pki client_end server_end 100
unfolding new_session
handshake-IsCompleted_example =
    handshake-IsCompleted product_pki client_end server_end 100 (big_endian 32 35)
      product_pki-KeyLaws (record { bytes = omega arith; eight = refl })
      (record { bytes = omega arith; eight = refl }) refl refl refl server-Accepts client-Accepts
