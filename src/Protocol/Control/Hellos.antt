-- ===== src/Protocol/Control/Hellos.antt =====
-- The two hellos of a handshake, at ends that take what the other shows.
use vpn_app_ai.Prelude.{ℕ, ◌+◌, ◌^◌, ◌<◌, ◌≡◌, true, Option, some, [], ◌∷◌, ◌++◌, length, arith}
use vpn_app_ai.Prelude.Result.{ok, returns}
use vpn_app_ai.Bytes.{Bytes, unpack, from_bytes}
use vpn_app_ai.Crypto.{Cipher}
use vpn_app_ai.Crypto.Pki.{Pki}
use vpn_app_ai.Protocol.Messages.{control, server_hello, client_finished, message_value}
use vpn_app_ai.Protocol.Packet.{decode_packet}
use vpn_app_ai.Protocol.Control.Hello.{
  slice, field_bytes, pack_field_lem, pack_cert_and_pubkey, unpack_hello,
}
use vpn_app_ai.Protocol.Control.Session.{
  Session, hello_sent, established, or_empty, sign_with, verify_peer_cert, verify_peer,
  load_peer_cert, signature_passes, derive_cipher,
}
use vpn_app_ai.Protocol.Control.Server.{
  or_error, send_server_hello, judge_client_hello, answer_client_hello, server_handle_client_hello,
}
use vpn_app_ai.Protocol.Control.Client.{
  send_finished, judge_server_hello, check_server_hello, client_handle_server_hello,
}
use vpn_app_ai.Protocol.Control.Resets.{IsId, encode_handshake_message_lem}

module _ (k : Pki) where
  -- What one end shows, the other end takes: without certificates and CA this holds of itself, and
  -- with them it is that the chain and the signature over `signed` are good.
  pub record Accepts (receiver sender : Session k) (signed : Bytes) : Type 0 where
    pub cert : Option k.Certificate
    pub sig : Bytes
    pub cert_fits : length (or_empty sender.local_cert_bytes) < 2 ^ 16
    pub loads : load_peer_cert k (or_empty sender.local_cert_bytes) ≡ ok cert
    pub trusted : verify_peer k receiver.ca_path cert ≡ ok true
    pub signs : sign_with k sender.local_key_path signed ≡ ok sig
    pub sig_fits : length sig < 2 ^ 16
    pub passes : signature_passes k cert signed sig ≡ true

  -- CLIENT_HELLO at a server that comes to a key.
  pub server_handle_client_hello_lem :
      (b : Session k) (inner cert_data pub_data sig hello : Bytes) (n : ℕ)
      (cert : Option k.Certificate) (c : Cipher)
      → IsId b.session_id
      → unpack_hello inner 0 ≡ ok (cert_data, pub_data, n)
      → load_peer_cert k cert_data ≡ ok cert
      → verify_peer k b.ca_path cert ≡ ok true
      → derive_cipher k pub_data (record b { peer_pub_eph = some pub_data; peer_cert = cert })
        ≡ ok c
      → sign_with k b.local_key_path (pub_data ++ k.public_bytes b.public_eph) ≡ ok sig
      → length sig < 2 ^ 16
      → pack_cert_and_pubkey (or_empty b.local_cert_bytes) (k.public_bytes b.public_eph) ≡ ok hello
      → (answer : Bytes) × (server_handle_client_hello k inner b
          ≡ returns (answer ∷ []) (record b {
            peer_pub_eph = some pub_data;
            peer_cert = cert;
            cipher = some c;
            state = hello_sent;
          }))
        × (decode_packet answer
            ≡ ok (
              control,
              from_bytes b.session_id,
              message_value server_hello ∷ hello ++ field_bytes sig,
            ))
  unfolding server_handle_client_hello or_error answer_client_hello judge_client_hello
      send_server_hello verify_peer_cert
  server_handle_client_hello_lem b inner cert_data pub_data sig hello n cert c h u l v d s fits p =
      let (answer, w, e) =
        encode_handshake_message_lem server_hello b.session_id (hello ++ field_bytes sig) h in
      (answer, ground (arith, u, l, v, d, s, p, pack_field_lem sig fits, w), e)

  -- SERVER_HELLO at a client that comes to a key.
  pub client_handle_server_hello_lem :
      (a : Session k) (inner cert_data pub_data sig sig' : Bytes) (n : ℕ)
      (cert : Option k.Certificate) (c : Cipher)
      → IsId a.session_id
      → unpack_hello inner 0 ≡ ok (cert_data, pub_data, n)
      → unpack 2 (slice inner n 2) ≡ ok (length sig)
      → slice inner (n + 2) (length sig) ≡ sig
      → load_peer_cert k cert_data ≡ ok cert
      → verify_peer k a.ca_path cert ≡ ok true
      → derive_cipher k pub_data (record a { peer_pub_eph = some pub_data; peer_cert = cert })
        ≡ ok c
      → signature_passes k cert (k.public_bytes a.public_eph ++ pub_data) sig ≡ true
      → sign_with k a.local_key_path (k.public_bytes a.public_eph ++ pub_data) ≡ ok sig'
      → length sig' < 2 ^ 16
      → (answer : Bytes) × (client_handle_server_hello k inner a
          ≡ returns (answer ∷ []) (record a {
            peer_pub_eph = some pub_data;
            peer_cert = cert;
            cipher = some c;
            state = established;
          }))
        × (decode_packet answer
            ≡ ok (
              control,
              from_bytes a.session_id,
              message_value client_finished ∷ field_bytes sig',
            ))
  unfolding client_handle_server_hello or_error check_server_hello judge_server_hello send_finished
      verify_peer_cert
  client_handle_server_hello_lem a inner cert_data pub_data sig sig' n cert c h u m q l v d ps s
        fits =
      let (answer, w, e) =
        encode_handshake_message_lem client_finished a.session_id (field_bytes sig') h in
      (answer, ground (arith, u, m, q, l, v, d, ps, s, pack_field_lem sig' fits, w), e)
