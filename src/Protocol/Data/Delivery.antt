-- ===== src/Protocol/Data/Delivery.antt =====
-- What one end of a data channel seals, the other end delivers.
use vpn_app_ai.Prelude.{
  ℕ, ◌^◌, ◌≤◌, ◌<◌, ◌≡◌, refl, ap, ap₂, ◌∙◌, inl, inr, Bool, true, false, Option, none, some, ◌∷◌,
  ◌++◌, length, length-append, take-append, drop-append, le→ltb, ltb, if◌then◌else◌, Bool-cases,
  Option-cases, arith,
}
use vpn_app_ai.Prelude.Int.{pos}
use vpn_app_ai.Prelude.Result.{ok, Outcome, returns}
use vpn_app_ai.Bytes.{Bytes, big_endian, from_bytes}
use vpn_app_ai.Bytes.Codec.{pack_fits, unpack-big_endian, length-big_endian}
use vpn_app_ai.Crypto
use vpn_app_ai.Crypto.{Cipher, AeadLaws, length-encrypt, decrypt-encrypt}
use vpn_app_ai.Protocol.Messages.{data_packet, opcode_value}
use vpn_app_ai.Protocol.Packet.Codec.{encode_packet_lem, decode_packet_lem, opcode_of-opcode_value}
use vpn_app_ai.Protocol.Replay.{check}
use vpn_app_ai.Protocol.Data.Channel.{Packages, Lz4, DataChannel, is_some, comp_none, comp_lzo}
use vpn_app_ai.Protocol.Data.Encrypt.{compress_with, wrap_inner, seal_with, encrypt_one}
use vpn_app_ai.Protocol.Data.Decrypt.{
  decompress, decompress_with, open_with, deliver, unwrap, accept_packet, decrypt_payload, decrypt,
}

-- The compressor, where there is one, is undone by its decompressor.
pub record Lz4Laws (lz4 : Option Lz4) : Type 0 where
  pub decompress-compress :
      (z : Lz4) → lz4 ≡ some z → (x : Bytes) → z.decompress (z.compress x) ≡ some x

-- A channel that can send: it has a cipher, its id is 64 bits, and it compresses only where there is
-- a compressor.
pub record IsUsable (p : Packages) (ch : DataChannel) (c : Cipher) : Type 0 where
  pub has_cipher : ch.cipher ≡ some c
  pub id_fits : from_bytes ch.shared_id < 2 ^ 64
  pub can_compress : ch.compressing ≡ true → is_some p.lz4 ≡ true

-- The two ends of a session share the id and the key.
pub record ArePaired (a b : DataChannel) : Type 0 where
  pub same_id : b.shared_id ≡ a.shared_id
  pub same_cipher : b.cipher ≡ a.cipher

-- What the receiving end does with an authentic packet: the replay window decides.
abbrev pub delivery : DataChannel → ℕ → Bytes → ℕ → Outcome DataChannel (Option Bytes)
delivery ch counter plain now =
    let (fresh, window) = check ch.replay (pos counter) in
    if fresh
    then deliver (record ch { replay = window }) counter plain now
    else returns none (record ch { replay = window })

wrap-decompress :
    (p : Packages)
    → Lz4Laws p.lz4
    → (compressing : Bool) (plain : Bytes) → (compressing ≡ true → is_some p.lz4 ≡ true)
    → (t : ℕ) × (raw : Bytes) × (wrap_inner p compressing plain ≡ ok (t ∷ raw))
      × (decompress p t raw ≡ some plain)
unfolding wrap_inner decompress
wrap-decompress p z false plain h = (comp_none, plain, refl, refl)
wrap-decompress p z true plain h = elim (Option-cases p.lz4) [
  | inl absent ↦ cc (h refl, ap is_some absent)
  | inr (l, e) ↦ elim (Bool-cases (ltb 32 (length plain))) [
    | inl long ↦ elim (Bool-cases (ltb (length (l.compress plain)) (length plain))) [
      | inl shrinks ↦ (
        comp_lzo,
        l.compress plain,
        rw (long, e, compress_with, shrinks),
        rw (e, decompress_with) (z.decompress-compress l e plain),
      )
      | inr grows ↦ (comp_none, plain, rw (long, e, compress_with, grows), refl)
    ]
    | inr short ↦ (comp_none, plain, rw short, refl)
  ]
]

-- The packet with this counter, sealed by `c` over the channel's id.
abbrev pub aad_of : DataChannel → ℕ → Bytes
aad_of ch counter = ch.shared_id ++ big_endian 4 counter

abbrev pub sealed_wire : Packages → DataChannel → Cipher → ℕ → Bytes → Bytes → Bytes
sealed_wire p ch c counter nonce inner =
    opcode_value data_packet ∷ big_endian 8 (from_bytes ch.shared_id)
    ++ (big_endian 4 counter ++ Crypto.encrypt p.aead c nonce inner (some (aad_of ch counter)))

module _ (p : Packages) (ch : DataChannel) (c : Cipher) (counter : ℕ) (nonce : Bytes)
    (usable : IsUsable p ch c) (counts : counter < 2 ^ 32) where
  encrypt_one-sealed :
      (plain inner : Bytes)
      → wrap_inner p ch.compressing plain ≡ ok inner
      → encrypt_one p ch plain counter nonce ≡ ok (sealed_wire p ch c counter nonce inner)
  unfolding encrypt_one seal_with
  encrypt_one-sealed plain inner e =
      rw (pack_fits 4 counter counts, e, usable.has_cipher)
        (encode_packet_lem data_packet (from_bytes ch.shared_id) _ usable.id_fits)

  module _ (laws : AeadLaws p.aead) (fresh_nonce : length nonce ≡ 12) where
    opened :
        (r : DataChannel) (inner : Bytes)
        → ArePaired ch r
        → open_with p r.cipher
            (Crypto.encrypt p.aead c nonce inner (some (aad_of ch counter)))
            (r.shared_id ++ big_endian 4 counter)
          ≡ ok inner
    unfolding open_with
    opened r inner pair =
        let ct = Crypto.encrypt p.aead c nonce inner (some (aad_of ch counter)) in
        ap₂ (λ (cy : Option Cipher) (id : Bytes). open_with p cy ct (id ++ big_endian 4 counter))
          (pair.same_cipher ∙ usable.has_cipher) pair.same_id
        ∙ decrypt-encrypt p.aead laws c nonce inner (some (aad_of ch counter)) fresh_nonce

    unwrap_lem :
        (r : DataChannel) (t now : ℕ) (raw plain : Bytes)
        → decompress p t raw ≡ some plain
        → unwrap p r counter (t ∷ raw) now ≡ deliver r counter plain now
    unfolding unwrap
    unwrap_lem r t now raw plain d = rw (d, unwrap)

    accept-sealed :
        (r : DataChannel) (t now : ℕ) (raw plain : Bytes)
        → ArePaired ch r
        → decompress p t raw ≡ some plain
        → accept_packet p r counter
            (big_endian 4 counter)
            (Crypto.encrypt p.aead c nonce (t ∷ raw) (some (aad_of ch counter)))
            now
          ≡ delivery r counter plain now
    unfolding accept_packet
    accept-sealed r t now raw plain pair d = ground (
      arith,
      opened r (t ∷ raw) pair,
      unwrap_lem (record r { replay = (check r.replay (pos counter)).1 }) t now raw plain d,
    )

    payload-sealed :
        (r : DataChannel) (t now : ℕ) (raw plain : Bytes)
        → ArePaired ch r
        → decompress p t raw ≡ some plain
        → decrypt_payload p r
            (big_endian 4 counter
              ++ Crypto.encrypt p.aead c nonce (t ∷ raw) (some (aad_of ch counter)))
            now
          ≡ delivery r counter plain now
    unfolding decrypt_payload
    payload-sealed r t now raw plain pair d =
        let ct = Crypto.encrypt p.aead c nonce (t ∷ raw) (some (aad_of ch counter)) in
        let four : length (big_endian 4 counter) ≡ 4 = length-big_endian 4 counter in
        let long : 33 ≤ length (big_endian 4 counter ++ ct) = omega (
          arith,
          length-append (big_endian 4 counter) ct,
          four,
          length-encrypt p.aead laws c nonce (t ∷ raw) (some (aad_of ch counter)) fresh_nonce,
        ) in
        rw
          (
            le→ltb (length (big_endian 4 counter ++ ct)) 33 long,
            take-append 4 (big_endian 4 counter) ct four,
            unpack-big_endian 4 counter counts,
            take-append 4 (big_endian 4 counter) ct four,
            drop-append 4 (big_endian 4 counter) ct four,
          )
          (accept-sealed r t now raw plain pair d)

    decrypt-sealed :
        (r : DataChannel) (t now : ℕ) (raw plain : Bytes)
        → ArePaired ch r
        → decompress p t raw ≡ some plain
        → decrypt p r (sealed_wire p ch c counter nonce (t ∷ raw)) now
          ≡ delivery r counter plain now
    unfolding decrypt
    decrypt-sealed r t now raw plain pair d =
        rw
          (
            decode_packet_lem (opcode_value data_packet) (big_endian 8 (from_bytes ch.shared_id))
                (big_endian 4 counter
                  ++ Crypto.encrypt p.aead c nonce (t ∷ raw) (some (aad_of ch counter)))
                (length-big_endian 8 (from_bytes ch.shared_id)),
            opcode_of-opcode_value data_packet,
            decrypt,
          )
          (payload-sealed r t now raw plain pair d)

-- The packet that `encrypt_one` makes of a plaintext, and what every paired channel does with it:
-- its replay window decides, and then the plaintext is delivered.
pub encrypt_one-delivery :
    (p : Packages) (ch : DataChannel) (c : Cipher) (counter : ℕ) (nonce plain : Bytes)
    → AeadLaws p.aead
    → Lz4Laws p.lz4
    → IsUsable p ch c
    → counter < 2 ^ 32
    → length nonce ≡ 12
    → (wire : Bytes) × (encrypt_one p ch plain counter nonce ≡ ok wire)
      × ((r : DataChannel) (now : ℕ)
          → ArePaired ch r
          → decrypt p r wire now ≡ delivery r counter plain now)
encrypt_one-delivery p ch c counter nonce plain laws zlaws usable counts fresh =
    let (t, raw, w, d) = wrap-decompress p zlaws ch.compressing plain usable.can_compress in
    (
      sealed_wire p ch c counter nonce (t ∷ raw),
      encrypt_one-sealed p ch c counter nonce usable counts plain (t ∷ raw) w,
      λ r now pair.
          decrypt-sealed p ch c counter nonce usable counts laws fresh r t now raw plain pair d,
    )
