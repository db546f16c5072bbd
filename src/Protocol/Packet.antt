-- ===== src/Protocol/Packet.antt =====
-- src/protocol/packet.py: a packet is one byte of opcode, eight bytes of session id and a payload.
pub mod Codec
use vpn_app_ai.Prelude.{ℕ, ◌+◌, List, [], ◌∷◌, ◌++◌, length, take, drop, ltb, if◌then◌else◌}
use vpn_app_ai.Prelude.Result.{Result, ok, raise, value_error, ◌>>=◌}
use vpn_app_ai.Bytes.{Bytes, pack, unpack}
use vpn_app_ai.Protocol.Messages.{
  Opcode, control, ack, opcode_value, opcode_of, MessageType, message_value,
}

abbrev pub header_size : ℕ
header_size = 9

unfoldable pub encode_packet : Opcode → ℕ → Bytes → Result Bytes
unfolding opcode_value pack
encode_packet opcode session_id payload = do
  o ← pack 1 (opcode_value opcode)
  s ← pack 8 session_id
  ok ((o ++ s) ++ payload)

unfoldable pub decode_packet : Bytes → Result (Opcode × ℕ × Bytes)
decode_packet packet = if ltb (length packet) header_size then raise value_error else do
  o ← unpack 1 (take 1 (take header_size packet))
  session_id ← unpack 8 (drop 1 (take header_size packet))
  opcode ← opcode_of o
  ok (opcode, session_id, drop header_size packet)

-- The fields "!I" of a list of packet ids.
unfoldable pub pack_ids : List ℕ → Result Bytes
pack_ids [] = ok []
pack_ids (i ∷ is) = do x ← pack 4 i; xs ← pack_ids is; ok (x ++ xs)

unfoldable pub encode_ack : ℕ → List ℕ → Result Bytes
unfolding pack_ids
encode_ack session_id packet_ids = do
  n ← pack 2 (length packet_ids)
  ids ← pack_ids packet_ids
  encode_packet ack session_id (n ++ ids)

unfoldable pub encode_handshake_message : MessageType → ℕ → Bytes → Result Bytes
unfolding message_value pack
encode_handshake_message msg_type session_id payload = do
  t ← pack 1 (message_value msg_type)
  encode_packet control session_id (t ++ payload)
