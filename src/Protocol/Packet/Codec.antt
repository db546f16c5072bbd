-- ===== src/Protocol/Packet/Codec.antt =====
-- The packet format is read back as it was written.
use vpn_app_ai.Prelude.{
  ℕ, zero, suc, ◌+◌, ◌*◌, ◌^◌, ◌≤◌, ◌<◌, ◌≡◌, ◌⊎◌, inl, inr, refl, ap, ◌∙◌, sym, [], ◌∷◌, ◌++◌,
  length, take, drop, take-append, drop-append, take-append-drop, length-take, length-append,
  le→ltb, lt→ltb, All-take, arith, Bool-cases, ltb, ltb→lt,
}
use vpn_app_ai.Prelude.Result.{Exception, ok, raise, value_error, ◌>>=◌}
use vpn_app_ai.Bytes.{Bytes, IsBytes, pack, unpack, big_endian, from_bytes, from_bytes_onto}
use vpn_app_ai.Bytes.Codec.{
  length-big_endian, from_bytes-big_endian, big_endian-from_bytes, from_bytes-lt,
}
use vpn_app_ai.Protocol.Messages.{
  Opcode, opcode_value, opcode_of, hard_reset_client, hard_reset_server, control, ack, data_packet,
}
use vpn_app_ai.Protocol.Packet.{encode_packet, decode_packet}

pub opcode_of-opcode_value : (o : Opcode) → opcode_of (opcode_value o) ≡ ok o
unfolding opcode_of opcode_value
opcode_of-opcode_value hard_reset_client = refl
opcode_of-opcode_value _ = refl

-- What `encode_packet` writes, when the session id fits eight bytes.
pub encode_packet_lem :
    (o : Opcode) (sid : ℕ) (payload : Bytes)
    → sid < 256 ^ 8
    → encode_packet o sid payload ≡ ok (opcode_value o ∷ big_endian 8 sid ++ payload)
unfolding encode_packet pack big_endian
encode_packet_lem hard_reset_client sid payload h = rw (lt→ltb sid (256 ^ 8) h)
encode_packet_lem _ sid payload h = rw (lt→ltb sid (256 ^ 8) h)

-- A packet with a whole header, taken apart.
pub decode_packet_lem :
    (o : ℕ) (s payload : Bytes)
    → length s ≡ 8
    → decode_packet (o ∷ s ++ payload)
      ≡ (opcode_of o >>= λ opcode. ok (opcode, from_bytes s, payload))
unfolding decode_packet unpack from_bytes from_bytes_onto
decode_packet_lem o s payload e =
    let long : 9 ≤ length (o ∷ s ++ payload) = omega (arith, length-append s payload) in
    let first : 0 * 256 + o ≡ o = omega arith in
    rw (
      le→ltb (length (o ∷ s ++ payload)) 9 long,
      take-append 8 s payload e,
      drop-append 8 s payload e,
      e,
      first,
    )

-- A packet that was written is read back whole, when its session id is 64 bits.
pub decode-encode :
    (o : Opcode) (sid : ℕ) (payload : Bytes)
    → sid < 2 ^ 64
    → (encode_packet o sid payload >>= decode_packet) ≡ ok (o, sid, payload)
decode-encode o sid payload h =
    let e : from_bytes (big_endian 8 sid) ≡ sid = from_bytes-big_endian 8 sid h in
    rw (
      encode_packet_lem o sid payload h,
      decode_packet_lem (opcode_value o) (big_endian 8 sid) payload (length-big_endian 8 sid),
      opcode_of-opcode_value o,
      e,
    )

-- A number is the value of an opcode, or `Opcode(n)` raises ValueError.
pub opcode_of_cases :
    (n : ℕ)
    → ((o : Opcode) × (opcode_of n ≡ ok o) × (opcode_value o ≡ n))
      ⊎ (opcode_of n ≡ raise value_error)
unfolding opcode_of opcode_value
opcode_of_cases zero = inr refl
opcode_of_cases (suc zero) = inl (hard_reset_client, refl, refl)
opcode_of_cases (suc (suc zero)) = inl (hard_reset_server, refl, refl)
opcode_of_cases (suc (suc (suc zero))) = inl (control, refl, refl)
opcode_of_cases (suc (suc (suc (suc zero)))) = inl (ack, refl, refl)
opcode_of_cases (suc (suc (suc (suc (suc zero))))) = inl (data_packet, refl, refl)
opcode_of_cases (suc (suc (suc (suc (suc (suc n)))))) = inr refl

pub decode_packet_short :
    (packet : Bytes) → length packet < 9 → decode_packet packet ≡ raise value_error
unfolding decode_packet
decode_packet_short packet h = rw (lt→ltb (length packet) 9 h)

-- A packet that is long enough, split behind its header.
pub decode_packet_whole :
    (o : ℕ) (rest : Bytes)
    → 8 ≤ length rest
    → decode_packet (o ∷ rest)
      ≡ (opcode_of o >>= λ opcode. ok (opcode, from_bytes (take 8 rest), drop 8 rest))
decode_packet_whole o rest h =
    let e : length (take 8 rest) ≡ 8 = omega (arith, length-take 8 rest) in
    rw (take-append-drop 8 rest) at (decode_packet_lem o (take 8 rest) (drop 8 rest) e)

-- Every packet is refused with ValueError, or is an opcode and eight bytes or more.
pub decode_packet_cases :
    (packet : Bytes)
    → (decode_packet packet ≡ raise value_error)
      ⊎ ((op : Opcode) × (rest : Bytes) × (packet ≡ opcode_value op ∷ rest)
          × (8 ≤ length rest)
          × (decode_packet packet ≡ ok (op, from_bytes (take 8 rest), drop 8 rest)))
decode_packet_cases [] = inl (decode_packet_short [] (omega arith))
decode_packet_cases (o ∷ rest) = elim (Bool-cases (ltb (length rest) 8)) [
  | inl short ↦
      let h : length rest < 8 = ltb→lt (length rest) 8 short in
      inl (decode_packet_short (o ∷ rest) (omega arith))
  | inr long ↦
      let h : 8 ≤ length rest = ground arith in
      elim (opcode_of_cases o) [
        | inl (op, p, q) ↦
            inr (op, rest, ap (λ t. t ∷ rest) (sym q), h, rw p at (decode_packet_whole o rest h))
        | inr p ↦ inl (rw p at (decode_packet_whole o rest h))
      ]
]

-- `decode_packet` raises nothing but ValueError, which its callers catch.
pub decode_packet-value_error :
    (packet : Bytes) (x : Exception) → decode_packet packet ≡ raise x → x ≡ value_error
decode_packet-value_error packet x e = ground (arith, decode_packet_cases packet)

encode_parts :
    (op : Opcode) (rest : Bytes)
    → IsBytes rest
    → 8 ≤ length rest
    → encode_packet op (from_bytes (take 8 rest)) (drop 8 rest) ≡ ok (opcode_value op ∷ rest)
encode_parts op rest h long =
    let e : length (take 8 rest) ≡ 8 = omega (arith, length-take 8 rest) in
    let b : IsBytes (take 8 rest) = All-take (λ x. x < 256) 8 rest h in
    encode_packet_lem op (from_bytes (take 8 rest)) (drop 8 rest)
      (from_bytes-lt 8 (take 8 rest) b e)
    ∙ ap (λ (t : Bytes). ok (opcode_value op ∷ t ++ drop 8 rest))
        (big_endian-from_bytes 8 (take 8 rest) b (sym e))
    ∙ ap (λ (t : Bytes). ok (opcode_value op ∷ t)) (take-append-drop 8 rest)

-- What `decode_packet` accepts is exactly what `encode_packet` writes for the parts it returns.
pub encode-decode :
    (packet : Bytes) (o : Opcode) (sid : ℕ) (payload : Bytes)
    → IsBytes packet
    → decode_packet packet ≡ ok (o, sid, payload)
    → encode_packet o sid payload ≡ ok packet
encode-decode packet o sid payload h e = elim (decode_packet_cases packet) [
  | inl refused ↦ cc
  | inr (op, rest, shape, long, d) ↦
      let tail : IsBytes rest = (rw shape at h).1 in ground (arith, encode_parts op rest tail long)
]
