-- ===== src/Protocol/Data/Encrypt.antt =====
-- `DataChannel.encrypt` of src/protocol/data.py.
use vpn_app_ai.Prelude.{
  ℕ, zero, suc, ◌+◌, ◌-◌, ◌*◌, ◌/◌, Bool, ◌&&◌, Option, none, some, List, [], ◌∷◌, ◌++◌, length,
  take, drop, ltb, leb, nat_eq, if◌then◌else◌,
}
use vpn_app_ai.Prelude.Int.{int_eq}
use vpn_app_ai.Prelude.Result.{Result, ok, raise, attribute_error, ◌>>=◌, Outcome, returns, raises}
use vpn_app_ai.Bytes.{Bytes, pack, from_bytes}
use vpn_app_ai.Crypto
use vpn_app_ai.Crypto.{Aead, Cipher}
use vpn_app_ai.Protocol.Messages.{data_packet}
use vpn_app_ai.Protocol.Packet.{encode_packet}
use vpn_app_ai.Protocol.Data.Channel.{
  Packages, Lz4, DataChannel, comp_none, comp_lzo, frag_mask, max_payload,
}

module _ (p : Packages) where
  -- `_lz4_block.compress`, on a module that is None if lz4 is not installed.
  unfoldable pub compress_with : Option Lz4 → Bytes → Result Bytes
  compress_with none plaintext = raise attribute_error
  compress_with (some z) plaintext = ok (z.compress plaintext)

  -- The compression byte and what follows it.
  unfoldable pub wrap_inner : Bool → Bytes → Result Bytes
  unfolding compress_with
  wrap_inner compressing plaintext =
      if compressing && ltb 32 (length plaintext)
      then (do
        compressed ← compress_with p.lz4 plaintext
        ok (
            if ltb (length compressed) (length plaintext)
            then comp_lzo ∷ compressed
            else comp_none ∷ plaintext))
      else ok (comp_none ∷ plaintext)

  -- `self.cipher.encrypt(...)`; None has no such method.
  unfoldable pub seal_with : Option Cipher → Bytes → Bytes → Bytes → Result Bytes
  seal_with none nonce inner aad = raise attribute_error
  seal_with (some c) nonce inner aad = ok (Crypto.encrypt p.aead c nonce inner (some aad))

  unfoldable pub encrypt_one : DataChannel → Bytes → ℕ → Bytes → Result Bytes
  encrypt_one ch plaintext counter nonce = do
    counter_bytes ← pack 4 counter
    inner ← wrap_inner ch.compressing plaintext
    encrypted ← seal_with ch.cipher nonce inner (ch.shared_id ++ counter_bytes)
    encode_packet data_packet (from_bytes ch.shared_id) (counter_bytes ++ encrypted)

  -- The rounds `left` of the loop over `range(total)`, from round `i` on. `nonces n` is what
  -- `os.urandom(12)` returns for the packet with counter `n`.
  unfoldable pub encrypt_fragments :
      DataChannel → Bytes → ℕ → ℕ → (ℕ → Bytes) → ℕ → ℕ → Result (List Bytes)
  encrypt_fragments ch plaintext start total nonces i zero = ok []
  encrypt_fragments ch plaintext start total nonces i (suc left) = do
    t ← pack 1 total
    n ← pack 1 i
    encrypted ←
        encrypt_one ch
          ((frag_mask ∷ []) ++ (t ++ n) ++ take max_payload (drop (i * max_payload) plaintext))
          (start + i) (nonces (start + i))
    rest ← encrypt_fragments ch plaintext start total nonces (i + 1) left
    ok (encrypted ∷ rest)

  abbrev pub fragment_count : Bytes → ℕ
  fragment_count plaintext = (length plaintext + max_payload - 1) / max_payload

  abbrev keep_counter : DataChannel → ℕ → Result (List Bytes) → Outcome DataChannel (List Bytes)
  keep_counter ch after (ok wires) = returns wires (record ch { packet_counter = after })
  keep_counter ch after (raise x) = raises x ch

  unfoldable pub encrypt : DataChannel → Bytes → (ℕ → Bytes) → Outcome DataChannel (List Bytes)
  encrypt ch plaintext nonces =
      let start = ch.packet_counter + 1 in
      let counted = record ch { packet_counter = start } in
      let total = fragment_count plaintext in
      if leb (length plaintext) max_payload
      then keep_counter counted start
          (do one ← encrypt_one counted plaintext start (nonces start); ok (one ∷ []))
      else keep_counter counted (start + total - 1)
          (encrypt_fragments counted plaintext start total nonces 0 total)
