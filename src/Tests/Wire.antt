-- ===== src/Tests/Wire.antt =====
-- Packets, frames, fields and the replay window at concrete inputs.
use vpn_app_ai.Prelude.{◌≡◌, refl, true, false, none, List, [], ◌∷◌, ◌++◌, length, arith}
use vpn_app_ai.Prelude.Int.{ℤ, pos, negsuc}
use vpn_app_ai.Prelude.Result.{ok, raise, value_error, ◌>>=◌}
use vpn_app_ai.Bytes.{Bytes, pack, big_endian, unpack, from_bytes, from_bytes_onto}
use vpn_app_ai.Crypto.{Cipher}
use vpn_app_ai.Protocol.Messages.{control, ack, opcode_of}
use vpn_app_ai.Protocol.Packet.{encode_packet, decode_packet}
use vpn_app_ai.Protocol.Packet.Codec.{decode-encode, encode-decode}
use vpn_app_ai.Protocol.Framing.{frame_packet, receive}
use vpn_app_ai.Protocol.Framing.Stream.{frame_all, IsCut, receive-frame_all}
use vpn_app_ai.Protocol.Control.Hello.{pack_cert_and_pubkey, unpack_hello, unpack-pack_hello}
use vpn_app_ai.Protocol.Replay.{ReplayWindow, new_window, advance, check_id, check, verdicts, after}
use vpn_app_ai.Protocol.Replay.History.{history_verdicts}
use vpn_app_ai.Protocol.Replay.Verdicts.{new_window-refines, no_replay}
use vpn_app_ai.Tests.Toys.{eight}

decode-encode_example :
    (encode_packet control 258 (7 ∷ 9 ∷ []) >>= decode_packet) ≡ ok (control, 258, 7 ∷ 9 ∷ [])
decode-encode_example = decode-encode control 258 (7 ∷ 9 ∷ []) (omega arith)

abbrev ack_packet : Bytes
ack_packet = 4 ∷ 0 ∷ 0 ∷ 0 ∷ 0 ∷ 0 ∷ 0 ∷ 1 ∷ 2 ∷ 9 ∷ []

ack_packet-decodes : decode_packet ack_packet ≡ ok (ack, 258, 9 ∷ [])
unfolding decode_packet unpack from_bytes from_bytes_onto opcode_of
ack_packet-decodes = refl

encode-decode_example : encode_packet ack 258 (9 ∷ []) ≡ ok ack_packet
encode-decode_example =
    encode-decode ack_packet ack 258 (9 ∷ [])
      (
        omega arith,
        (
          omega arith,
          (
            omega arith,
            (
              omega arith,
              (
                omega arith,
                (omega arith, (omega arith, (omega arith, (omega arith, (omega arith, tt))))),
              ),
            ),
          ),
        ),
      )
      ack_packet-decodes

decode_packet_short_example : decode_packet (4 ∷ []) ≡ raise value_error
unfolding decode_packet
decode_packet_short_example = refl

abbrev framed : Bytes
framed = (0 ∷ 8 ∷ eight) ++ (0 ∷ 10 ∷ ack_packet)

framed_all : frame_all (eight ∷ ack_packet ∷ []) ≡ ok framed
unfolding frame_all frame_packet pack big_endian
framed_all = refl

-- The frame of the eight bytes without its last five.
IsCut-frame : IsCut (0 ∷ 8 ∷ 1 ∷ 2 ∷ 3 ∷ [])
unfolding frame_packet pack big_endian
IsCut-frame = record {
  packet = eight;
  lost = 4 ∷ 5 ∷ 6 ∷ 7 ∷ 8 ∷ [];
  something = omega arith;
  framed = refl;
}

receive-frame_all_example : receive 3 (framed ++ (0 ∷ 8 ∷ 1 ∷ 2 ∷ 3 ∷ [])) ≡ eight ∷ ack_packet ∷ []
receive-frame_all_example =
    receive-frame_all 3 (eight ∷ ack_packet ∷ []) framed (0 ∷ 8 ∷ 1 ∷ 2 ∷ 3 ∷ []) framed_all
      IsCut-frame (omega arith)

unpack-pack_hello_example :
    (packed : Bytes) × (pack_cert_and_pubkey eight ack_packet ≡ ok packed)
    × (unpack_hello (packed ++ 1 ∷ []) 0 ≡ ok (eight, ack_packet, length packed))
unpack-pack_hello_example = unpack-pack_hello eight ack_packet (1 ∷ []) (omega arith) (omega arith)

abbrev key : Cipher
key = record { key = eight }

abbrev nonce : Bytes
nonce = eight ++ 9 ∷ 10 ∷ 11 ∷ 12 ∷ []

-- A window of four ids.
abbrev four : ReplayWindow
four = record { window_size = 4; highest = none; seen = 0 }

four-new : new_window 4 ≡ ok four
unfolding new_window
four-new = refl

abbrev ids : List ℤ
ids = pos 3 ∷ pos 1 ∷ pos 3 ∷ negsuc 0 ∷ pos 9 ∷ pos 5 ∷ pos 6 ∷ []

four-verdicts : verdicts four ids ≡ true ∷ true ∷ false ∷ false ∷ true ∷ false ∷ true ∷ []
unfolding verdicts check check_id advance
four-verdicts = refl

new_window-refines_example : verdicts four ids ≡ history_verdicts 4 [] ids
new_window-refines_example = new_window-refines 4 four ids four-new

eight-fresh : (check (after four ids) (pos 8)).0 ≡ true
unfolding after check check_id advance
eight-fresh = refl

no_replay_example : (check (after (check (after four ids) (pos 8)).1 ids) (pos 8)).0 ≡ false
no_replay_example = no_replay 4 four ids ids 8 four-new eight-fresh
