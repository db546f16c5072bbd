-- ===== src/Protocol/Control/Client.antt =====
-- The client's handlers of src/protocol/control.py.
use vpn_app_ai.Prelude.{◌+◌, not, some, List, [], ◌∷◌, ◌++◌, if◌then◌else◌}
use vpn_app_ai.Prelude.Exec.{Exec, ◌>>=◌, ◌>>◌, pure, modify, gets, calls}
use vpn_app_ai.Bytes.{Bytes, pack, unpack, from_bytes}
use vpn_app_ai.Crypto.Pki.{Pki}
use vpn_app_ai.Protocol.Messages.{
  hard_reset_client, hard_reset_server, client_hello, client_finished,
}
use vpn_app_ai.Protocol.Packet.{encode_packet, decode_packet, encode_handshake_message}
use vpn_app_ai.Protocol.Control.Hello.{pack_field, pack_cert_and_pubkey, unpack_hello, slice}
use vpn_app_ai.Protocol.Control.Session.{
  Session, reset_sent, reset_rcvd, established, or_empty, sign_with, verify_peer_cert,
  load_peer_cert, signature_passes, derive_cipher,
}
use vpn_app_ai.Protocol.Control.Server.{is_opcode, or_error, fail}

module _ (k : Pki) where
  unfoldable pub client_start_handshake : Exec (Session k) (List Bytes)
  client_start_handshake = do
    modify (λ s. record s { state = reset_sent })
    packet ← calls (λ s. encode_packet hard_reset_client (from_bytes s.session_id) [])
    pure (packet ∷ [])

  unfoldable pub client_handle_reset_ack : Bytes → Exec (Session k) (List Bytes)
  client_handle_reset_ack raw = do
    (opcode, sid, _) ← calls (λ _. decode_packet raw)
    if not (is_opcode opcode hard_reset_server) then pure [] else do
      peer ← calls (λ _. pack 8 sid)
      modify (λ s. record s { peer_session_id = some peer; state = reset_rcvd })
      inner ←
          calls
            (λ s. pack_cert_and_pubkey (or_empty s.local_cert_bytes) (k.public_bytes s.public_eph))
      packet ← calls (λ s. encode_handshake_message client_hello (from_bytes s.session_id) inner)
      pure (packet ∷ [])

  -- The end of the try block: the finishing packet, from an established session.
  unfoldable pub send_finished : Bytes → Exec (Session k) (List Bytes)
  send_finished signed = do
    finish_sig ← calls (λ s. sign_with k s.local_key_path signed)
    inner ← calls (λ _. pack_field finish_sig)
    packet ← calls (λ s. encode_handshake_message client_finished (from_bytes s.session_id) inner)
    pure (packet ∷ [])

  -- The try block from `_verify_peer_cert` on, for the public key and the signature received.
  unfoldable pub judge_server_hello : Bytes → Bytes → Exec (Session k) (List Bytes)
  judge_server_hello pub_data sig = do
    trusted ← calls (λ s. verify_peer_cert k s)
    if not trusted then fail k else do
      c ← calls (λ s. derive_cipher k pub_data s)
      modify (λ s. record s { cipher = some c })
      signed ← gets (λ s. k.public_bytes s.public_eph ++ pub_data)
      passes ← gets (λ s. signature_passes k s.peer_cert signed sig)
      if not passes
          then fail k
          else do modify (λ s. record s { state = established }); send_finished signed

  -- The try block of `client_handle_server_hello`.
  unfoldable pub check_server_hello : Bytes → Exec (Session k) (List Bytes)
  check_server_hello payload = do
    (cert_data, pub_data, offset) ← calls (λ _. unpack_hello payload 0)
    modify (λ s. record s { peer_pub_eph = some pub_data })
    sig_len ← calls (λ _. unpack 2 (slice payload offset 2))
    cert ← calls (λ _. load_peer_cert k cert_data)
    modify (λ s. record s { peer_cert = cert })
    judge_server_hello pub_data (slice payload (offset + 2) sig_len)

  unfoldable pub client_handle_server_hello : Bytes → Exec (Session k) (List Bytes)
  client_handle_server_hello payload s = or_error k (check_server_hello payload s)
