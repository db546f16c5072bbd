-- ===== src/Tests/Handshakes.antt =====
-- The handshake's handlers on sessions with a CA.
use vpn_app_ai.Prelude.{◌≡◌, ◌≢◌, refl, true, false, some, List, [], ◌∷◌, ◌++◌, arith}
use vpn_app_ai.Prelude.Tests.{list_beq}
use vpn_app_ai.Prelude.Result.{Outcome, returns, raises, state}
use vpn_app_ai.Bytes.{Bytes, big_endian, pack, unpack, from_bytes, from_bytes_onto}
use vpn_app_ai.Crypto.{new_cipher}
use vpn_app_ai.Crypto.Pki
use vpn_app_ai.Crypto.Pki.{
  Pki, Text, derive_shared_key, public_key_from_bytes, load_certificate, load_private_key,
  verify_by_kind, verify_certificate,
}
use vpn_app_ai.Protocol.Messages.{opcode_value, message_value}
use vpn_app_ai.Protocol.Packet.{encode_packet, encode_handshake_message}
use vpn_app_ai.Protocol.Control.Hello.{
  slice, pack_field, pack_cert_and_pubkey, unpack_field, unpack_hello,
}
use vpn_app_ai.Protocol.Control.Session
use vpn_app_ai.Protocol.Control.Session.{
  Session, HandshakeState, established, error, hello_sent, sign_with, sign_by_kind,
  verify_signature, verify_peer, verify_peer_cert, load_peer_cert, signature_passes, salt_of,
  handshake_salt, bytes_lt, derive_cipher,
}
use vpn_app_ai.Protocol.Control.Server.{
  or_error, send_server_hello, judge_client_hello, answer_client_hello, server_handle_client_hello,
  server_handle_client_finished,
}
use vpn_app_ai.Protocol.Control.Client.{
  send_finished, judge_server_hello, check_server_hello, client_handle_server_hello,
}
use vpn_app_ai.Protocol.Control.Auth.{IsTrusted, IsAuthenticated, client-IsAuthenticated}
use vpn_app_ai.Protocol.Control.Finished.{finished_without_hello, server-IsTrusted}
use vpn_app_ai.Tests.Toys.{toy_pki, toy_session}

abbrev packets_of : Outcome (Session toy_pki) (List Bytes) → List Bytes
packets_of (returns ps s) = ps
packets_of (raises x s) = []

-- A certificate of one byte and the bytes of the key 7.
abbrev hello : Bytes
hello = 0 ∷ 1 ∷ 9 ∷ 0 ∷ 32 ∷ big_endian 32 7

abbrev answered : Outcome (Session toy_pki) (List Bytes)
answered = server_handle_client_hello toy_pki hello (toy_session true)

answered-returns :
    (answered ≡ returns (packets_of answered) (state answered))
    × ((state answered).state ≡ hello_sent)
unfolding server_handle_client_hello or_error answer_client_hello judge_client_hello
    send_server_hello big_endian pack unpack from_bytes from_bytes_onto slice pack_field
    pack_cert_and_pubkey unpack_field unpack_hello new_cipher derive_shared_key
    public_key_from_bytes load_certificate load_private_key Pki.verify_by_kind verify_certificate
    sign_with sign_by_kind verify_peer verify_peer_cert load_peer_cert signature_passes salt_of
    handshake_salt bytes_lt derive_cipher encode_packet encode_handshake_message opcode_value
    message_value list_beq
answered-returns = (refl, refl)

answered-ne : (state answered).state ≢ error
answered-ne e = cc (answered-returns.1, e)

server-IsTrusted_example :
    (cert : Bytes) × ((state answered).peer_cert ≡ some cert) × IsTrusted toy_pki (12 ∷ []) cert
server-IsTrusted_example =
    server-IsTrusted toy_pki 12 [] hello (toy_session true) (state answered) (packets_of answered)
      refl answered-returns.0 answered-ne

-- The server's certificate, its key 7, and a signature over both keys.
abbrev server_hello : Bytes
server_hello = hello ++ (0 ∷ 64 ∷ big_endian 32 6 ++ big_endian 32 7)

abbrev checked : Outcome (Session toy_pki) (List Bytes)
checked = client_handle_server_hello toy_pki server_hello (toy_session false)

checked-returns :
    (checked ≡ returns (packets_of checked) (state checked)) × ((state checked).state ≡ established)
unfolding client_handle_server_hello or_error check_server_hello judge_server_hello send_finished
    big_endian pack unpack from_bytes from_bytes_onto slice pack_field unpack_field unpack_hello
    new_cipher derive_shared_key public_key_from_bytes load_certificate load_private_key
    Pki.verify_by_kind verify_certificate sign_with sign_by_kind verify_signature
    Session.verify_by_kind verify_peer verify_peer_cert load_peer_cert signature_passes salt_of
    handshake_salt bytes_lt derive_cipher encode_packet encode_handshake_message opcode_value
    message_value list_beq
checked-returns = (refl, refl)

checked-ne : (state checked).state ≢ error
checked-ne e = cc (checked-returns.1, e)

client-IsAuthenticated_example :
    IsAuthenticated toy_pki (toy_session false) (state checked) (12 ∷ [])
client-IsAuthenticated_example =
    client-IsAuthenticated toy_pki 12 [] server_hello (toy_session false) (state checked)
      (packets_of checked) refl checked-returns.0 checked-ne

abbrev two : Bytes
two = 0 ∷ 0 ∷ []

finished_without_hello_example :
    server_handle_client_finished toy_pki two (toy_session true)
    ≡ returns [] (record (toy_session true) { state = established })
finished_without_hello_example =
    finished_without_hello toy_pki two (toy_session true) refl (omega arith)
