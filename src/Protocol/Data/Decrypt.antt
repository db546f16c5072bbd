-- ===== src/Protocol/Data/Decrypt.antt =====
-- `DataChannel.decrypt` of src/protocol/data.py.
use vpn_app_ai.Prelude.{
  ℕ, zero, suc, ◌+◌, Bool, true, false, not, Option, none, some, [], ◌∷◌, ◌++◌, length, take, drop,
  bit_and, ltb, nat_beq, nat_eq, if◌then◌else◌,
}
use vpn_app_ai.Prelude.Int.{ℤ, pos, sub_ℕ, int_eq}
use vpn_app_ai.Prelude.Dict.{Dict, lookup, insert, remove}
use vpn_app_ai.Prelude.Result.{
  Exception, Result, ok, raise, value_error, index_error, key_error, attribute_error, ◌>>=◌,
  Outcome, returns, raises,
}
use vpn_app_ai.Bytes.{Bytes, unpack}
use vpn_app_ai.Crypto
use vpn_app_ai.Crypto.{Aead, Cipher}
use vpn_app_ai.Protocol.Packet.{decode_packet}
use vpn_app_ai.Protocol.Replay.{check}
use vpn_app_ai.Protocol.Data.Channel.{
  Packages, Lz4, Group, DataChannel, comp_none, comp_lzo, frag_mask,
}

-- `b"".join(buf["fragments"][i] for i in range(total))`, from `i` on.
unfoldable pub join : Dict ℕ Bytes → ℕ → ℕ → Result Bytes
join parts i zero = ok []
join parts i (suc left) = elim (lookup i parts) [
  | none ↦ raise key_error
  | some part ↦ do rest ← join parts (i + 1) left; ok (part ++ rest)
]

-- A group that is there, or a new one.
unfoldable pub group_or_new : Option Group → ℕ → ℕ → Group
group_or_new none total now = record { total = total; parts = []; ts = now }
group_or_new (some buf) total now = buf

abbrev pub finish : DataChannel → ℤ → Result Bytes → Outcome DataChannel (Option Bytes)
finish ch group_id (ok whole) =
    returns (some whole) (record ch { fragments = remove group_id ch.fragments })
finish ch group_id (raise x) = raises x ch

-- A fragment `index` of `total`, in the group `group_id`.
unfoldable pub reassemble_in :
    DataChannel → ℤ → ℕ → ℕ → Bytes → ℕ → Outcome DataChannel (Option Bytes)
reassemble_in ch group_id total index raw now =
    let buf = group_or_new (lookup group_id ch.fragments) total now in
    if not (nat_beq buf.total total)
    then returns none (record ch { fragments = remove group_id ch.fragments })
    else let parts = insert index raw buf.parts in
      let stored = record ch {
        fragments = insert group_id (record buf { parts = parts }) ch.fragments;
      } in
      if nat_beq (length parts) total
      then finish stored group_id (join parts 0 total)
      else returns none stored

-- The group's id is the counter less the index.
unfoldable pub reassemble : DataChannel → ℕ → ℕ → ℕ → Bytes → ℕ → Outcome DataChannel (Option Bytes)
unfolding reassemble_in
reassemble ch counter total index raw now =
    reassemble_in ch (sub_ℕ counter index) total index raw now

-- A fragment is its total, its index and one byte at least.
unfoldable pub deliver_fragment : DataChannel → ℕ → Bytes → ℕ → Outcome DataChannel (Option Bytes)
deliver_fragment ch counter (total ∷ index ∷ x ∷ raw) now =
    reassemble ch counter total index (x ∷ raw) now
deliver_fragment ch counter _ now = returns none ch

-- What `decrypt` does with the decompressed plaintext.
unfoldable pub deliver : DataChannel → ℕ → Bytes → ℕ → Outcome DataChannel (Option Bytes)
deliver ch counter [] now = returns (some []) ch
deliver ch counter (b ∷ rest) now =
    if not (nat_beq (bit_and b frag_mask) 0)
    then deliver_fragment ch counter rest now
    else returns (some (b ∷ rest)) ch

abbrev min_payload : ℕ
min_payload = 4 + 12 + 16 + 1

-- `except (ValueError, IndexError)`
unfoldable pub is_value_or_index_error : Exception → Bool
is_value_or_index_error value_error = true
is_value_or_index_error index_error = true
is_value_or_index_error _ = false

module _ (p : Packages) where
  -- `self.cipher.decrypt(...)`
  unfoldable pub open_with : Option Cipher → Bytes → Bytes → Result Bytes
  open_with none encrypted aad = raise attribute_error
  open_with (some c) encrypted aad = Crypto.decrypt p.aead c encrypted (some aad)

  -- None where the code logs and returns None.
  unfoldable pub decompress_with : Option Lz4 → Bytes → Option Bytes
  decompress_with none raw = none
  decompress_with (some z) raw = z.decompress raw

  -- `_decompress`, of a first byte and the rest.
  unfoldable pub decompress : ℕ → Bytes → Option Bytes
  unfolding decompress_with
  decompress comp_type raw =
      if nat_beq comp_type comp_lzo
      then decompress_with p.lz4 raw
      else if nat_beq comp_type comp_none
      then some raw
      else none

  -- From the decrypted text on.
  unfoldable pub unwrap : DataChannel → ℕ → Bytes → ℕ → Outcome DataChannel (Option Bytes)
  unwrap ch counter [] now = returns none ch
  unwrap ch counter (comp_type ∷ raw) now = elim (decompress comp_type raw) [
    | none ↦ returns none ch
    | some plain ↦ deliver ch counter plain now
  ]

  -- From the counter on: the replay window first, and then the cipher.
  unfoldable pub accept_packet :
      DataChannel → ℕ → Bytes → Bytes → ℕ → Outcome DataChannel (Option Bytes)
  accept_packet ch counter counter_bytes encrypted now =
      let (fresh, window) = check ch.replay (pos counter) in
      let checked = record ch { replay = window } in
      if not fresh
      then returns none checked
      else elim (open_with ch.cipher encrypted (ch.shared_id ++ counter_bytes)) [
        | raise x ↦ returns none checked
        | ok inner ↦ unwrap checked counter inner now
      ]

  unfoldable pub decrypt_payload : DataChannel → Bytes → ℕ → Outcome DataChannel (Option Bytes)
  decrypt_payload ch payload now =
      if ltb (length payload) min_payload
      then returns none ch
      else elim (unpack 4 (take 4 payload)) [
        | raise x ↦ raises x ch
        | ok counter ↦ accept_packet ch counter (take 4 payload) (drop 4 payload) now
      ]

  -- `now` is what `time.time()` returns.
  unfoldable pub decrypt : DataChannel → Bytes → ℕ → Outcome DataChannel (Option Bytes)
  decrypt ch wire now = elim (decode_packet wire) [
    | raise x ↦ if is_value_or_index_error x then returns none ch else raises x ch
    | ok (opcode, sid, payload) ↦ decrypt_payload ch payload now
  ]
