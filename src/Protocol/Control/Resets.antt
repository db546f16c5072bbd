-- ===== src/Protocol/Control/Resets.antt =====
-- The packets that open a handshake, and what their receivers make of them.
use vpn_app_ai.Prelude.{ℕ, ◌^◌, ◌<◌, ◌≡◌, refl, sym, ap, ◌∙◌, some, [], ◌∷◌, length, arith}
use vpn_app_ai.Prelude.Result.{ok, returns}
use vpn_app_ai.Bytes.{Bytes, IsBytes, pack, big_endian, from_bytes}
use vpn_app_ai.Bytes.Codec.{pack_fits, from_bytes-lt, big_endian-from_bytes}
use vpn_app_ai.Crypto.Pki.{Pki}
use vpn_app_ai.Protocol.Messages.{
  Opcode, hard_reset_client, hard_reset_server, control, opcode_value, MessageType, client_hello,
  message_value,
}
use vpn_app_ai.Protocol.Packet.{encode_packet, decode_packet, encode_handshake_message}
use vpn_app_ai.Protocol.Packet.Codec.{encode_packet_lem, decode-encode}
use vpn_app_ai.Protocol.Control.Hello.{pack_cert_and_pubkey}
use vpn_app_ai.Protocol.Control.Session.{Session, reset_sent, reset_rcvd, or_empty}
use vpn_app_ai.Protocol.Control.Server.{server_handle_reset}
use vpn_app_ai.Protocol.Control.Client.{client_start_handshake, client_handle_reset_ack}

-- A session id is eight bytes.
pub record IsId (id : Bytes) : Type 0 where
  pub bytes : IsBytes id
  pub eight : length id ≡ 8

id_fits : (id : Bytes) → IsId id → from_bytes id < 2 ^ 64
id_fits id h = from_bytes-lt 8 id h.bytes h.eight

pack_id : (id : Bytes) → IsId id → pack 8 (from_bytes id) ≡ ok id
pack_id id h =
    pack_fits 8 (from_bytes id) (id_fits id h)
    ∙ ap ok (big_endian-from_bytes 8 id h.bytes (sym h.eight))

pack_type : (t : MessageType) → pack 1 (message_value t) ≡ ok (message_value t ∷ [])
unfolding pack message_value big_endian
pack_type client_hello = refl
pack_type _ = refl

-- A packet of this session, and what its receiver reads.
written :
    (o : Opcode) (id payload : Bytes)
    → IsId id
    → (wire : Bytes) × (encode_packet o (from_bytes id) payload ≡ ok wire)
      × (decode_packet wire ≡ ok (o, from_bytes id, payload))
written o id payload h =
    let e = encode_packet_lem o (from_bytes id) payload (id_fits id h) in
    let d = decode-encode o (from_bytes id) payload (id_fits id h) in (_, e, rw e at d)

-- A handshake message, and what its receiver reads in it.
pub encode_handshake_message_lem :
    (t : MessageType) (id payload : Bytes)
    → IsId id
    → (wire : Bytes) × (encode_handshake_message t (from_bytes id) payload ≡ ok wire)
      × (decode_packet wire ≡ ok (control, from_bytes id, message_value t ∷ payload))
unfolding encode_handshake_message
encode_handshake_message_lem t id payload h =
    let (wire, e, d) = written control id (message_value t ∷ payload) h in
    (wire, rw (pack_type t) e, d)

module _ (k : Pki) where
  pub client_start_handshake_lem :
      (a : Session k)
      → IsId a.session_id
      → (wire : Bytes) × (client_start_handshake k a
          ≡ returns (wire ∷ []) (record a { state = reset_sent }))
        × (decode_packet wire ≡ ok (hard_reset_client, from_bytes a.session_id, []))
  unfolding client_start_handshake
  client_start_handshake_lem a h =
      let (wire, e, d) = written hard_reset_client a.session_id [] h in (wire, ground (arith, e), d)

  pub server_handle_reset_lem :
      (b : Session k) (id wire : Bytes) (now : ℕ)
      → IsId b.session_id
      → IsId id
      → decode_packet wire ≡ ok (hard_reset_client, from_bytes id, [])
      → (answer : Bytes) × (server_handle_reset k wire now b
          ≡ returns
              (answer ∷ [])
              (record b { peer_session_id = some id; state = reset_rcvd; last_rx = now }))
        × (decode_packet answer ≡ ok (hard_reset_server, from_bytes b.session_id, []))
  unfolding server_handle_reset opcode_value
  server_handle_reset_lem b id wire now hb h e =
      let (answer, w, d) = written hard_reset_server b.session_id [] hb in
      (answer, ground (arith, e, pack_id id h, w), d)

  pub client_handle_reset_ack_lem :
      (a : Session k) (id wire hello : Bytes)
      → IsId a.session_id
      → IsId id
      → decode_packet wire ≡ ok (hard_reset_server, from_bytes id, [])
      → pack_cert_and_pubkey (or_empty a.local_cert_bytes) (k.public_bytes a.public_eph) ≡ ok hello
      → (answer : Bytes) × (client_handle_reset_ack k wire a
          ≡ returns (answer ∷ []) (record a { peer_session_id = some id; state = reset_rcvd }))
        × (decode_packet answer
            ≡ ok (control, from_bytes a.session_id, message_value client_hello ∷ hello))
  unfolding client_handle_reset_ack opcode_value
  client_handle_reset_ack_lem a id wire hello ha h e p =
      let (answer, w, d) = encode_handshake_message_lem client_hello a.session_id hello ha in
      (answer, ground (arith, e, pack_id id h, p, w), d)
