-- ===== src/Tests/Clients.antt =====
-- A client that has sent nothing yet, and one with a channel.
use vpn_app_ai.Prelude.{◌≡◌, refl, true, false, Option, none, some, [], ◌∷◌, ◌++◌}
use vpn_app_ai.Prelude.Tests.{list_beq}
use vpn_app_ai.Prelude.Result.{ok, returns, state}
use vpn_app_ai.Bytes.{Bytes, big_endian, unpack, from_bytes, from_bytes_onto}
use vpn_app_ai.Crypto
use vpn_app_ai.Crypto.{Cipher, or_empty, or_invalid_tag}
use vpn_app_ai.Crypto.Pki.{Text}
use vpn_app_ai.Privileges.{System}
use vpn_app_ai.Protocol.Messages.{
  control, data_packet, opcode_value, opcode_of, ip_assign, message_value,
}
use vpn_app_ai.Protocol.Packet.{decode_packet}
use vpn_app_ai.Protocol.Replay.{ReplayWindow, check, check_id}
use vpn_app_ai.Protocol.Data.Channel.{DataChannel}
use vpn_app_ai.Protocol.Data.Decrypt.{
  decrypt, decrypt_payload, accept_packet, open_with, unwrap, decompress, deliver,
}
use vpn_app_ai.Protocol.Control.Session.{idle}
use vpn_app_ai.Client.State.{VpnClient}
use vpn_app_ai.Client.Handle.{handle_udp_data}
use vpn_app_ai.Client.Assignment.{Accepts, ip_assign-Accepts}
use vpn_app_ai.Tests.Toys.{toy_pki, toy_packages, toy_aead, toy_session, options, eight, tag}

abbrev pub system : System
system = record {
  euid = 1000;
  getpwnam = λ name. none;
  getgrnam = λ name. none;
  clears_groups = false;
  allows_setgid = λ gid. false;
  allows_setuid = λ uid. false;
}

-- ASCII texts.
abbrev pub decode : Bytes → Option Text
decode b = some b

abbrev pub client : VpnClient toy_pki
client = record {
  config = options;
  has_transport = true;
  has_tcp_writer = false;
  session = record (toy_session false) { state = idle };
  channel = none;
  handshake_done = false;
  assigned_ip = none;
  routes_added = [];
  last_seen = 0;
  connected = false;
  status = none;
  effects = [];
}

-- "6.6.6.6"
abbrev ip : Text
ip = b'6' ∷ b'.' ∷ b'6' ∷ b'.' ∷ b'6' ∷ b'.' ∷ b'6' ∷ []

abbrev assignment : Bytes
assignment = eight ++ (message_value ip_assign ∷ ip)

assignment-decodes :
    decode_packet (opcode_value control ∷ assignment)
    ≡ ok (control, from_bytes eight, message_value ip_assign ∷ ip)
unfolding decode_packet unpack from_bytes from_bytes_onto opcode_of opcode_value
assignment-decodes = refl

ip_assign-Accepts_example : Accepts toy_packages toy_pki system decode ip client (
    state (
      handle_udp_data toy_packages toy_pki system decode
        (opcode_value control ∷ assignment)
        7
        client))
ip_assign-Accepts_example =
    ip_assign-Accepts toy_packages toy_pki system decode assignment ip ip (from_bytes eight) 7
      client assignment-decodes refl

abbrev key : Cipher
key = record { key = eight }

abbrev window : ReplayWindow
window = record { window_size = 64; highest = none; seen = 0 }

abbrev channel : DataChannel
channel = record {
  shared_id = eight;
  cipher = some key;
  packet_counter = 0;
  compressing = false;
  fragments = [];
  replay = window;
}

-- The channel behind the packet with counter 1.
abbrev moved : DataChannel
moved = record channel { replay = record window { highest = some 1; seen = 1 } }

abbrev plain : Bytes
plain = 0 ∷ 0 ∷ 20 ∷ []

-- The packet with counter 1 that carries 69 and these bytes.
abbrev rest : Bytes
rest =
    eight
    ++ (0
        ∷ 0
        ∷ 0
        ∷ 1
        ∷ Crypto.encrypt toy_aead key (1 ∷ 2 ∷ 3 ∷ 4 ∷ eight) (0 ∷ 69 ∷ plain)
            (some (eight ++ (0 ∷ 0 ∷ 0 ∷ 1 ∷ []))))

rest-opens :
    decrypt toy_packages channel (opcode_value data_packet ∷ rest) 7
    ≡ returns (some (69 ∷ plain)) moved
unfolding decrypt decode_packet decrypt_payload accept_packet check check_id open_with
    Crypto.decrypt Crypto.encrypt unwrap decompress deliver unpack from_bytes from_bytes_onto
    opcode_of opcode_value big_endian tag or_empty or_invalid_tag list_beq
rest-opens = refl

abbrev pub ready : VpnClient toy_pki
ready = record client { channel = some channel }
