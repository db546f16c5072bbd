-- ===== src/Protocol/Messages.antt =====
-- src/protocol/messages.py: the opcodes of a packet and the types of a control message, with the
-- values of the two `IntEnum`s.
use vpn_app_ai.Prelude.{ℕ, zero, suc}
use vpn_app_ai.Prelude.Result.{Result, ok, raise, value_error}

pub data Opcode : Type 0 where
  hard_reset_client hard_reset_server control ack data_packet : Opcode

unfoldable pub opcode_value : Opcode → ℕ
opcode_value hard_reset_client = 1
opcode_value hard_reset_server = 2
opcode_value control = 3
opcode_value ack = 4
opcode_value data_packet = 5

-- `Opcode(n)`, which raises ValueError for a number that no opcode has.
unfoldable pub opcode_of : ℕ → Result Opcode
opcode_of (suc zero) = ok hard_reset_client
opcode_of (suc (suc zero)) = ok hard_reset_server
opcode_of (suc (suc (suc zero))) = ok control
opcode_of (suc (suc (suc (suc zero)))) = ok ack
opcode_of (suc (suc (suc (suc (suc zero))))) = ok data_packet
opcode_of _ = raise value_error

pub data MessageType : Type 0 where
  client_hello server_hello client_finished keepalive shutdown ip_assign : MessageType

unfoldable pub message_value : MessageType → ℕ
message_value client_hello = 1
message_value server_hello = 2
message_value client_finished = 3
message_value keepalive = 4
message_value shutdown = 5
message_value ip_assign = 6

-- `MessageType(n)`
unfoldable pub message_of : ℕ → Result MessageType
message_of (suc zero) = ok client_hello
message_of (suc (suc zero)) = ok server_hello
message_of (suc (suc (suc zero))) = ok client_finished
message_of (suc (suc (suc (suc zero)))) = ok keepalive
message_of (suc (suc (suc (suc (suc zero))))) = ok shutdown
message_of (suc (suc (suc (suc (suc (suc zero)))))) = ok ip_assign
message_of _ = raise value_error

-- Seconds.
abbrev pub handshake_timeout : ℕ
handshake_timeout = 30
