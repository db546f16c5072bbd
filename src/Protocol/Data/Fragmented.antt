-- ===== src/Protocol/Data/Fragmented.antt =====
-- A payload above 1400 bytes goes through, whatever its size up to 255 fragments.
use vpn_app_ai.Prelude.{
  ℕ, zero, suc, ◌+◌, ◌-◌, ◌*◌, ◌%◌, ◌^◌, ◌≤◌, ◌<◌, ◌≡◌, refl, ap, ◌∙◌, false, Option, none, some,
  List, [], ◌∷◌, length, nat_eq, leb, arith,
}
use vpn_app_ai.Prelude.Dict.{Dict, lookup, remove_absent}
use vpn_app_ai.Prelude.Int.{ℤ, pos, int_eq}
use vpn_app_ai.Prelude.Result.{Result, ok, Outcome, returns, state, result}
use vpn_app_ai.Bytes.{Bytes, pack, big_endian}
use vpn_app_ai.Bytes.Codec.{pack_fits}
use vpn_app_ai.Crypto.{Cipher, AeadLaws}
use vpn_app_ai.Protocol.Replay.{check}
use vpn_app_ai.Protocol.Data.Channel.{Packages, DataChannel, Group, max_payload}
use vpn_app_ai.Protocol.Data.Encrypt.{encrypt_fragments, fragment_count, encrypt}
use vpn_app_ai.Protocol.Data.Decrypt.{group_or_new, decrypt}
use vpn_app_ai.Protocol.Data.Delivery.{Lz4Laws, IsUsable, ArePaired, delivery, encrypt_one-delivery}
use vpn_app_ai.Protocol.Data.RoundTrip.{next_counter}
use vpn_app_ai.Protocol.Data.Fragments.{parts_upto, chunk, Below, check-Below}
use vpn_app_ai.Protocol.Data.Reassembly.{fragment, Holds, delivery-kept, delivery-whole}

-- What a receiver makes of packets that arrive one after another, at the times of its clock.
unfoldable pub outputs :
    Packages → DataChannel → (ℕ → ℕ) → ℕ → List Bytes → List (Result (Option Bytes))
outputs p r clock j [] = []
outputs p r clock j (w ∷ ws) =
    let o = decrypt p r w (clock j) in result o ∷ outputs p (state o) clock (suc j) ws

unfoldable pub afterwards : Packages → DataChannel → (ℕ → ℕ) → ℕ → List Bytes → DataChannel
afterwards p r clock j [] = r
afterwards p r clock j (w ∷ ws) = afterwards p (state (decrypt p r w (clock j))) clock (suc j) ws

-- Nothing `n` times, and then this packet.
unfoldable pub nothing_then : ℕ → Bytes → List (Result (Option Bytes))
nothing_then zero plain = ok (some plain) ∷ []
nothing_then (suc n) plain = ok none ∷ nothing_then n plain

abbrev Arrived : Type 0
Arrived = Outcome DataChannel (Option Bytes)

pack-byte : (b : ℕ) → b < 256 → pack 1 b ≡ ok (b ∷ [])
pack-byte b h =
    let e : b % 256 ≡ b = omega arith in
    pack_fits 1 b h ∙ (unfold big_endian in ap (λ (x : ℕ). ok (x ∷ [])) e)

module _ (p : Packages) (ch : DataChannel) (c : Cipher) (plain : Bytes) (nonces : ℕ → Bytes)
    (laws : AeadLaws p.aead) (zlaws : Lz4Laws p.lz4) (usable : IsUsable p ch c)
    (fresh : (n : ℕ) → length (nonces n) ≡ 12) (start total : ℕ) (counts : start + total ≤ 2 ^ 32)
    (fits : total < 256) (covers : length plain ≤ total * max_payload)
    (needs : (i : ℕ) → i < total → i * max_payload < length plain) where
  -- What arrives of the rounds from `i` on.
  abbrev Arrives : ℕ → ℕ → List Bytes → Type 0
  Arrives i left wires =
      (others : Dict ℤ Group) (st : DataChannel) (clock : ℕ → ℕ) (j : ℕ)
      → ArePaired ch st
      → Below st.replay (start + i)
      → Holds plain start total others i st.fragments
      → (outputs p st clock j wires ≡ nothing_then left plain)
        × ((afterwards p st clock j wires).fragments ≡ others)

  round :
      (i left : ℕ) (rest : List Bytes)
      → i < total
      → encrypt_fragments p ch plain start total nonces (suc i) left ≡ ok rest
      → (wire : Bytes) × (encrypt_fragments p ch plain start total nonces i (suc left)
          ≡ ok (wire ∷ rest))
        × ((r : DataChannel) (now : ℕ)
            → ArePaired ch r
            → decrypt p r wire now ≡ delivery r (start + i) (fragment plain total i) now)
  unfolding encrypt_fragments chunk
  round i left rest small e =
      let (wire, sealed, d) =
        encrypt_one-delivery p ch c (start + i) (nonces (start + i)) (fragment plain total i) laws
          zlaws usable (omega arith) (fresh (start + i)) in
      let next : i + 1 ≡ suc i = omega arith in
      (wire, rw (next, pack-byte total fits, pack-byte i (omega arith), sealed, e) refl, d)

  rounds :
      (left i : ℕ)
      → i + suc left ≡ total
      → (wires : List Bytes) × (encrypt_fragments p ch plain start total nonces i (suc left)
          ≡ ok wires)
        × Arrives i left wires
  unfolding outputs afterwards nothing_then encrypt_fragments
  rounds zero i last =
      let (wire, sealed, d) = round i 0 [] (omega arith) refl in
      (
        wire ∷ [],
        sealed,
        λ others st clock j pair below h.
            let arrived =
              d st (clock j) pair
              ∙ delivery-whole plain start total others i st (clock j) below h (omega arith)
                  (needs i (omega arith)) covers in
            (
              ap (λ (o : Arrived). result o ∷ []) arrived,
              ap (λ (o : Arrived). (state o).fragments) arrived,
            ),
      )
  rounds (suc left) i more =
      let (rest, sealed_rest, later) = rounds left (suc i) (omega arith) in
      let (wire, sealed, d) = round i (suc left) rest (omega arith) sealed_rest in
      (
        wire ∷ rest,
        sealed,
        λ others st clock j pair below h.
            let (groups, kept, held) =
              delivery-kept plain start total others i st (clock j) below h (omega arith)
                (needs i (omega arith)) in
            let arrived = d st (clock j) pair ∙ kept in
            let st' = record st {
              replay = (check st.replay (pos (start + i))).1;
              fragments = groups;
            } in
            let pair' : ArePaired ch st' = record {
              same_id = pair.same_id;
              same_cipher = pair.same_cipher;
            } in
            let below' : Below st'.replay (start + suc i) = λ top e.
              let highest = (check-Below st.replay (start + i) below).1 in
              let same : top ≡ start + i = cc (e, highest) in omega arith in
            let (outs, after) = later others st' clock (suc j) pair' below' held in
            (
              ap (λ (o : Arrived). result o ∷ outputs p (state o) clock (suc j) rest) arrived
                  ∙ ap (λ os. ok none ∷ os) outs,
              ap (λ (o : Arrived). (afterwards p (state o) clock (suc j) rest).fragments) arrived
                  ∙ after,
            ),
      )

-- A payload above 1400 bytes and of at most 255 fragments is sent under consecutive counters, and
-- its packets, arriving in order at whatever times at a paired channel that has received nothing
-- with their counters and holds no group under the first, give nothing until the last and then
-- exactly that payload, and leave the channel's groups as they were; the counters fit 32 bits, the
-- nonces have 12 bytes, and the packages keep their documented laws.
pub outputs-encrypt :
    (p : Packages) (ch : DataChannel) (c : Cipher) (plain : Bytes) (nonces : ℕ → Bytes)
    (r : DataChannel) (clock : ℕ → ℕ)
    → AeadLaws p.aead
    → Lz4Laws p.lz4
    → IsUsable p ch c
    → next_counter ch + fragment_count p plain ≤ 2 ^ 32
    → ((n : ℕ) → length (nonces n) ≡ 12)
    → max_payload < length plain
    → fragment_count p plain < 256
    → ArePaired ch r
    → Below r.replay (next_counter ch)
    → lookup (pos (next_counter ch)) r.fragments ≡ none
    → (wires : List Bytes) × (encrypt p ch plain nonces
        ≡ returns wires
            (record ch { packet_counter = next_counter ch + fragment_count p plain - 1 }))
      × (outputs p r clock 0 wires ≡ nothing_then (fragment_count p plain - 1) plain)
      × ((afterwards p r clock 0 wires).fragments ≡ r.fragments)
unfolding encrypt group_or_new parts_upto
outputs-encrypt p ch c plain nonces r clock laws zlaws usable counts fresh long few pair below
      absent =
    let start = next_counter ch in
    let total = fragment_count p plain in
    let counted = record ch { packet_counter = start } in
    let u : IsUsable p counted c = record {
      has_cipher = usable.has_cipher;
      id_fits = usable.id_fits;
      can_compress = usable.can_compress;
    } in
    let (wires, sealed, arrive) =
      rounds p counted c plain nonces laws zlaws u fresh start total counts few (omega arith)
        (λ i h. omega arith) (total - 1) 0 (omega arith) in
    let above : leb (length plain) max_payload ≡ false = ground arith in
    let rounds_of : total ≡ suc (total - 1) = omega arith in
    let all =
      ap (λ (n : ℕ). encrypt_fragments p counted plain start total nonces 0 n) rounds_of ∙ sealed in
    let arrived =
      arrive r.fragments r clock 0
        (record { same_id = pair.same_id; same_cipher = pair.same_cipher })
        (λ h e. omega (arith, below h e))
        (record {
          others_stay = remove_absent (pos start) r.fragments absent;
          same_total = λ now. rw absent refl;
          same_parts = λ now. rw absent refl;
        }) in
    (wires, rw (above, all) refl, arrived.0, arrived.1)
