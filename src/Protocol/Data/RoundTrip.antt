-- ===== src/Protocol/Data/RoundTrip.antt =====
-- A packet that fits one datagram goes through unchanged.
use vpn_app_ai.Prelude.{
  ℕ, ◌+◌, ◌*◌, ◌^◌, ◌≤◌, ◌<◌, ◌≡◌, ◌∙◌, true, some, [], ◌∷◌, length, nat_beq, bit_and, arith,
}
use vpn_app_ai.Prelude.Bits.{bit, bit_and-pow}
use vpn_app_ai.Prelude.Int.{pos}
use vpn_app_ai.Prelude.Result.{returns}
use vpn_app_ai.Bytes.{Bytes}
use vpn_app_ai.Crypto.{Cipher, AeadLaws}
use vpn_app_ai.Protocol.Replay.{check}
use vpn_app_ai.Protocol.Data.Channel.{Packages, DataChannel, max_payload}
use vpn_app_ai.Protocol.Data.Encrypt.{encrypt}
use vpn_app_ai.Protocol.Data.Decrypt.{deliver, decrypt}
use vpn_app_ai.Protocol.Data.Delivery.{Lz4Laws, IsUsable, ArePaired, encrypt_one-delivery}

-- The first byte has no fragment bit: that of an IPv4 packet is 0x4_, of an IPv6 packet 0x6_.
abbrev pub IsPlain : Bytes → Type 0
IsPlain [] = ⊥
IsPlain (b ∷ rest) = b < 128

no_fragment_bit : (b : ℕ) → b < 128 → nat_beq (bit_and b 0x80) 0 ≡ true
no_fragment_bit b h =
    let e : bit_and b (2 ^ 7) ≡ bit 7 b * 2 ^ 7 = bit_and-pow 7 b in
    let z : bit 7 b ≡ 0 = unfold bit in omega arith in ground (arith, e, z)

pub deliver-IsPlain :
    (ch : DataChannel) (counter now : ℕ) (plain : Bytes)
    → IsPlain plain
    → deliver ch counter plain now ≡ returns (some plain) ch
unfolding deliver
deliver-IsPlain ch counter now [] h = absurd h
deliver-IsPlain ch counter now (b ∷ rest) h = rw (no_fragment_bit b h)

-- The counter of the next packet.
abbrev pub next_counter : DataChannel → ℕ
next_counter ch = ch.packet_counter + 1

-- A plaintext of 1 to 1400 bytes without the fragment bit is sent as one packet under the next
-- counter, and a paired channel whose replay window takes that counter returns exactly that
-- plaintext and changes nothing but its window; the counter fits 32 bits, and the packages keep
-- their documented laws.
pub decrypt-encrypt_packet :
    (p : Packages) (ch : DataChannel) (c : Cipher) (plain : Bytes) (nonces : ℕ → Bytes)
    → AeadLaws p.aead
    → Lz4Laws p.lz4
    → IsUsable p ch c
    → next_counter ch < 2 ^ 32
    → length (nonces (next_counter ch)) ≡ 12
    → IsPlain plain
    → length plain ≤ max_payload
    → (wire : Bytes) × (encrypt p ch plain nonces
        ≡ returns (wire ∷ []) (record ch { packet_counter = next_counter ch }))
      × ((r : DataChannel) (now : ℕ)
          → ArePaired ch r
          → (check r.replay (pos (next_counter ch))).0 ≡ true
          → decrypt p r wire now
            ≡ returns
                (some plain)
                (record r { replay = (check r.replay (pos (next_counter ch))).1 }))
unfolding encrypt
decrypt-encrypt_packet p ch c plain nonces laws zlaws usable counts fresh ip short =
    let counted = record ch { packet_counter = next_counter ch } in
    let u : IsUsable p counted c = record {
      has_cipher = usable.has_cipher;
      id_fits = usable.id_fits;
      can_compress = usable.can_compress;
    } in
    let (wire, e, d) =
      encrypt_one-delivery p counted c (next_counter ch) (nonces (next_counter ch)) plain laws zlaws
        u counts fresh in
    (
      wire,
      ground (arith, e),
      λ r now pair accept.
          d r now (record { same_id = pair.same_id; same_cipher = pair.same_cipher })
          ∙ rw accept (deliver-IsPlain _ (next_counter ch) now plain ip),
    )
