-- ===== src/Protocol/Control/Server.antt =====
-- The server's handlers of src/protocol/control.py.
use vpn_app_ai.Prelude.{ℕ, Bool, not, some, List, [], ◌∷◌, ◌++◌, take, nat_beq, if◌then◌else◌}
use vpn_app_ai.Prelude.Result.{Outcome, returns, raises}
use vpn_app_ai.Prelude.Exec.{Exec, ◌>>=◌, ◌>>◌, pure, modify, gets, calls}
use vpn_app_ai.Bytes.{Bytes, pack, unpack, from_bytes}
use vpn_app_ai.Crypto.Pki.{Pki}
use vpn_app_ai.Protocol.Messages.{
  Opcode, hard_reset_client, hard_reset_server, opcode_value, server_hello,
}
use vpn_app_ai.Protocol.Packet.{encode_packet, decode_packet, encode_handshake_message}
use vpn_app_ai.Protocol.Control.Hello.{pack_field, pack_cert_and_pubkey, unpack_hello, slice}
use vpn_app_ai.Protocol.Control.Session.{
  Session, reset_rcvd, hello_sent, established, error, or_empty, sign_with, verify_peer_cert,
  load_peer_cert, signature_passes, derive_cipher,
}

-- Members of an IntEnum are equal when their values are.
abbrev pub is_opcode : Opcode → Opcode → Bool
is_opcode a b = nat_beq (opcode_value a) (opcode_value b)

module _ (k : Pki) where
  -- `except Exception`: the error state, and no packet.
  unfoldable pub or_error : Outcome (Session k) (List Bytes) → Outcome (Session k) (List Bytes)
  or_error (returns packets s) = returns packets s
  or_error (raises x s) = returns [] (record s { state = error })

  -- `session.state = HandshakeState.ERROR; return []`
  abbrev pub fail : Exec (Session k) (List Bytes)
  fail = do modify (λ s. record s { state = error }); pure []

  unfoldable pub server_handle_reset : Bytes → ℕ → Exec (Session k) (List Bytes)
  server_handle_reset raw now = do
    (opcode, sid, _) ← calls (λ _. decode_packet raw)
    if not (is_opcode opcode hard_reset_client) then pure [] else do
      peer ← calls (λ _. pack 8 sid)
      modify (λ s. record s { peer_session_id = some peer; state = reset_rcvd; last_rx = now })
      packet ← calls (λ s. encode_packet hard_reset_server (from_bytes s.session_id) [])
      pure (packet ∷ [])

  -- The end of the try block: the answer, from a session with its key.
  unfoldable pub send_server_hello : Bytes → Exec (Session k) (List Bytes)
  send_server_hello pub_data = do
    my_pub ← gets (λ s. k.public_bytes s.public_eph)
    sig ← calls (λ s. sign_with k s.local_key_path (pub_data ++ my_pub))
    hello ← calls (λ s. pack_cert_and_pubkey (or_empty s.local_cert_bytes) my_pub)
    sig_field ← calls (λ _. pack_field sig)
    packet ←
        calls (λ s.
          encode_handshake_message server_hello (from_bytes s.session_id) (hello ++ sig_field))
    modify (λ s. record s { state = hello_sent })
    pure (packet ∷ [])

  -- The try block from `_verify_peer_cert` on.
  unfoldable pub judge_client_hello : Bytes → Exec (Session k) (List Bytes)
  judge_client_hello pub_data = do
    trusted ← calls (λ s. verify_peer_cert k s)
    if not trusted then fail else do
      c ← calls (λ s. derive_cipher k pub_data s)
      modify (λ s. record s { cipher = some c })
      send_server_hello pub_data

  -- The try block of `server_handle_client_hello`.
  unfoldable pub answer_client_hello : Bytes → Exec (Session k) (List Bytes)
  answer_client_hello payload = do
    (cert_data, pub_data, _) ← calls (λ _. unpack_hello payload 0)
    modify (λ s. record s { peer_pub_eph = some pub_data })
    cert ← calls (λ _. load_peer_cert k cert_data)
    modify (λ s. record s { peer_cert = cert })
    judge_client_hello pub_data

  unfoldable pub server_handle_client_hello : Bytes → Exec (Session k) (List Bytes)
  server_handle_client_hello payload s = or_error (answer_client_hello payload s)

  -- The try block of `server_handle_client_finished`.
  unfoldable pub check_client_finished : Bytes → Exec (Session k) (List Bytes)
  check_client_finished payload = do
    sig_len ← calls (λ _. unpack 2 (take 2 payload))
    my_pub ← gets (λ s. k.public_bytes s.public_eph)
    passes ← gets (λ s.
        signature_passes k s.peer_cert (or_empty s.peer_pub_eph ++ my_pub)
          (slice payload 2 sig_len))
    if not passes then fail else do modify (λ s. record s { state = established }); pure []

  unfoldable pub server_handle_client_finished : Bytes → Exec (Session k) (List Bytes)
  server_handle_client_finished payload s = or_error (check_client_finished payload s)
