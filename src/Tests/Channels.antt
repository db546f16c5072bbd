-- ===== src/Tests/Channels.antt =====
-- A channel at both ends of a session.
use vpn_app_ai.Prelude.{
  ℕ, ◌≤◌, ◌<◌, ◌^◌, ◌++◌, take, length, ◌≡◌, refl, true, false, none, some, [], ◌∷◌, arith, List,
}
use vpn_app_ai.Prelude.Int.{pos}
use vpn_app_ai.Prelude.Result.{key_error, crypto_error, ok, raise, returns, state, result}
use vpn_app_ai.Bytes.{Bytes, pack, big_endian, unpack, from_bytes, from_bytes_onto}
use vpn_app_ai.Prelude.Tests.{list_beq}
use vpn_app_ai.Prelude.Dict.{lookup, insert}
use vpn_app_ai.Protocol.Messages.{opcode_value, opcode_of}
use vpn_app_ai.Protocol.Packet.{encode_packet, decode_packet}
use vpn_app_ai.Crypto
use vpn_app_ai.Crypto.{Cipher, or_empty, or_invalid_tag}
use vpn_app_ai.Protocol.Replay.{ReplayWindow, check, check_id}
use vpn_app_ai.Protocol.Data.Channel.{DataChannel}
use vpn_app_ai.Protocol.Data.Encrypt.{encrypt}
use vpn_app_ai.Protocol.Data.Decrypt.{
  decrypt, decrypt_payload, accept_packet, open_with, unwrap, decompress, deliver, deliver_fragment,
  reassemble, group_or_new, join,
}
use vpn_app_ai.Protocol.Data.Delivery.{IsUsable, ArePaired, sealed_wire, aad_of}
use vpn_app_ai.Protocol.Data.RoundTrip.{decrypt-encrypt_packet}
use vpn_app_ai.Protocol.Data.Once.{decrypt_all, decrypt_twice, decrypt-key_error}
use vpn_app_ai.Protocol.Data.Forgery.{data_of, forged_packet_shuts_out}
use vpn_app_ai.Tests.Toys.{
  toy_aead, toy_packages, toy_aead-AeadLaws, toy_packages-Lz4Laws, eight, tag,
}

abbrev pub key : Cipher
key = record { key = eight }

abbrev window : ReplayWindow
window = record { window_size = 64; highest = none; seen = 0 }

abbrev pub channel : DataChannel
channel = record {
  shared_id = eight;
  cipher = some key;
  packet_counter = 0;
  compressing = false;
  fragments = [];
  replay = window;
}

abbrev pub nonces : ℕ → Bytes
nonces n = 1 ∷ 2 ∷ 3 ∷ 4 ∷ eight

pub channel-IsUsable : IsUsable toy_packages channel key
unfolding from_bytes from_bytes_onto
channel-IsUsable = record { has_cipher = refl; id_fits = omega arith; can_compress = λ e. cc }

-- The first bytes of an IPv4 packet.
abbrev plain : Bytes
plain = 69 ∷ 0 ∷ 0 ∷ 20 ∷ []

decrypt-encrypt_packet_example :
    (wire : Bytes) × (encrypt toy_packages channel plain nonces
      ≡ returns (wire ∷ []) (record channel { packet_counter = 1 }))
    × ((r : DataChannel) (now : ℕ)
        → ArePaired channel r
        → (check r.replay (pos 1)).0 ≡ true
        → decrypt toy_packages r wire now
          ≡ returns (some plain) (record r { replay = (check r.replay (pos 1)).1 }))
decrypt-encrypt_packet_example =
    decrypt-encrypt_packet toy_packages channel key plain nonces toy_aead-AeadLaws
      toy_packages-Lz4Laws channel-IsUsable (omega arith) refl (omega arith) (omega arith)

-- The packet with counter 1 that carries this inner text, sealed as a peer seals it.
abbrev packet_of : Bytes → Bytes
packet_of inner = sealed_wire toy_packages channel key 1 (nonces 1) inner

-- Two other packets that arrive between the two times.
abbrev between : List (Bytes × ℕ)
between =
    (sealed_wire toy_packages channel key 2 (nonces 2) (0 ∷ plain), 12)
    ∷ (sealed_wire toy_packages channel key 3 (nonces 3) (0 ∷ plain), 13)
    ∷ []

decrypt_twice_example :
    result (
      decrypt toy_packages
        (decrypt_all toy_packages
          (state (decrypt toy_packages channel (packet_of (0 ∷ plain)) 10))
          between)
        (packet_of (0 ∷ plain))
        20)
    ≡ ok none
decrypt_twice_example =
    decrypt_twice toy_packages channel [] (packet_of (0 ∷ plain)) between 10 20 refl

-- A fragment with index 3 of a total of 1.
abbrev stray : Bytes
stray = 0 ∷ 0x80 ∷ 1 ∷ 3 ∷ 9 ∷ []

stray-raises : result (decrypt toy_packages channel (packet_of stray) 10) ≡ raise key_error
unfolding decrypt decode_packet decrypt_payload accept_packet check check_id open_with
    Crypto.decrypt Crypto.encrypt unwrap decompress deliver deliver_fragment reassemble group_or_new
    join lookup insert unpack from_bytes from_bytes_onto opcode_of opcode_value big_endian tag
    or_empty or_invalid_tag list_beq
stray-raises = refl

decrypt-key_error_example : key_error ≡ key_error
decrypt-key_error_example =
    decrypt-key_error toy_packages channel (packet_of stray) 10 key_error stray-raises

-- A channel that has received the packet with counter 0.
abbrev used_channel : DataChannel
used_channel = record channel { replay = record { window_size = 64; highest = some 0; seen = 1 } }

-- A sealed part that is too short for its tag, and the packets around it.
abbrev junk : Bytes
junk = take 29 (eight ++ (eight ++ (eight ++ eight)))

abbrev forged : Bytes
forged = 5 ∷ eight ++ (0 ∷ 0 ∷ 0 ∷ 100 ∷ junk)

abbrev genuine_part : Bytes
genuine_part = Crypto.encrypt toy_aead key (nonces 1) (0 ∷ plain) (some (aad_of channel 1))

abbrev genuine : Bytes
genuine = 5 ∷ eight ++ (0 ∷ 0 ∷ 0 ∷ 1 ∷ genuine_part)

forged-is_data : data_of (from_bytes eight) 100 junk ≡ ok forged
unfolding encode_packet pack big_endian opcode_value from_bytes from_bytes_onto
forged-is_data = refl

genuine-is_data : data_of (from_bytes eight) 1 genuine_part ≡ ok genuine
unfolding encode_packet pack big_endian opcode_value from_bytes from_bytes_onto
genuine-is_data = refl

junk-shut : open_with toy_packages (some key) junk (eight ++ big_endian 4 100) ≡ raise crypto_error
unfolding open_with Crypto.decrypt or_empty or_invalid_tag tag list_beq big_endian from_bytes
    from_bytes_onto
junk-shut = refl

id-fits : from_bytes eight < 2 ^ 64
unfolding from_bytes from_bytes_onto
id-fits = omega arith

sealed-long : 29 ≤ length genuine_part
unfolding Crypto.encrypt tag big_endian
sealed-long = omega arith

forged_packet_shuts_out_example :
    let hit = decrypt toy_packages used_channel forged 10 in
    (result hit ≡ ok none) × (result (decrypt toy_packages (state hit) genuine 20) ≡ ok none)
forged_packet_shuts_out_example =
    forged_packet_shuts_out toy_packages used_channel 0 100 1 (from_bytes eight) (from_bytes eight)
      junk genuine_part forged genuine 10 20 crypto_error refl (omega arith) (omega arith)
      (omega arith) (id-fits, id-fits) (omega arith) (omega arith, sealed-long) forged-is_data
      genuine-is_data junk-shut
