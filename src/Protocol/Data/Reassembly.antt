-- ===== src/Protocol/Data/Reassembly.antt =====
-- A payload above 1400 bytes, sent in fragments and put together again.
use vpn_app_ai.Prelude.{
  ℕ, suc, ◌+◌, ◌*◌, ◌≤◌, ◌<◌, ◌≡◌, refl, ap, ◌∙◌, none, some, ◌∷◌, length, nat_eq, nat_beq,
  if◌then◌else◌, arith,
}
use vpn_app_ai.Prelude.Dict.{Dict, lookup, insert, remove, lookup-insert_self, remove-insert_same}
use vpn_app_ai.Prelude.Int.{ℤ, pos, sub_ℕ, int_eq}
use vpn_app_ai.Prelude.Result.{ok, returns}
use vpn_app_ai.Bytes.{Bytes}
use vpn_app_ai.Protocol.Replay.{check}
use vpn_app_ai.Protocol.Data.Channel.{DataChannel, Group, frag_mask, max_payload}
use vpn_app_ai.Protocol.Data.Decrypt.{
  join, group_or_new, finish, reassemble_in, reassemble, deliver_fragment, deliver,
}
use vpn_app_ai.Protocol.Data.Delivery.{delivery}
use vpn_app_ai.Protocol.Data.Fragments.{
  parts_upto, length-parts_upto, insert-parts_upto, chunk, chunk-cons, join-parts_upto, Below,
  check-Below,
}

-- Fragment `i` of `total`, as it is sealed.
abbrev pub fragment : Bytes → ℕ → ℕ → Bytes
fragment plain total i = frag_mask ∷ total ∷ i ∷ chunk plain i

module _ (plain : Bytes) (start total : ℕ) where
  -- The groups of a receiver that has the first `i` fragments; `others` are its other groups.
  pub record Holds (others : Dict ℤ Group) (i : ℕ) (groups : Dict ℤ Group) : Type 0 where
    pub others_stay : remove (pos start) groups ≡ others
    pub same_total : (now : ℕ) → (group_or_new (lookup (pos start) groups) total now).total ≡ total
    pub same_parts :
        (now : ℕ)
        → (group_or_new (lookup (pos start) groups) total now).parts ≡ parts_upto (chunk plain) i

  reassemble-group :
      (i : ℕ) (st : DataChannel) (raw : Bytes) (now : ℕ)
      → reassemble st (start + i) total i raw now ≡ reassemble_in st (pos start) total i raw now
  unfolding reassemble
  reassemble-group i st raw now =
      let group_id : sub_ℕ (start + i) i ≡ pos start = ground arith in
      ap (λ (g : ℤ). reassemble_in st g total i raw now) group_id

  -- What `reassemble_in` does with fragment `i`.
  reassemble_view :
      (others : Dict ℤ Group) (i : ℕ) (st : DataChannel) (now : ℕ)
      → Holds others i st.fragments
      → let buf = group_or_new (lookup (pos start) st.fragments) total now in
        let parts = parts_upto (chunk plain) (suc i) in
        let stored = record st {
          fragments = insert (pos start) (record buf { parts = parts }) st.fragments;
        } in
        reassemble_in st (pos start) total i (chunk plain i) now ≡ (
          if nat_beq (suc i) total
          then finish stored (pos start) (join parts 0 total)
          else returns none stored)
  unfolding reassemble_in
  reassemble_view others i st now h = ground (
    arith,
    h.same_total now,
    h.same_parts now,
    insert-parts_upto (chunk plain) i,
    length-parts_upto (chunk plain) (suc i),
  )

  deliver_fragment-chunk :
      (i : ℕ) (st : DataChannel) (now : ℕ)
      → i * max_payload < length plain
      → deliver_fragment st (start + i) (total ∷ i ∷ chunk plain i) now
        ≡ reassemble st (start + i) total i (chunk plain i) now
  unfolding deliver_fragment
  deliver_fragment-chunk i st now there = let (x, raw, e) = chunk-cons plain i there in rw e refl

  abbrev checked : ℕ → DataChannel → DataChannel
  checked i st = record st { replay = (check st.replay (pos (start + i))).1 }

  delivery-fragment :
      (i : ℕ) (st : DataChannel) (now : ℕ)
      → Below st.replay (start + i)
      → i * max_payload < length plain
      → delivery st (start + i) (fragment plain total i) now
        ≡ reassemble_in (checked i st) (pos start) total i (chunk plain i) now
  unfolding deliver
  delivery-fragment i st now below there = rw (check-Below st.replay (start + i) below).0 (
      deliver_fragment-chunk i (checked i st) now there
      ∙ reassemble-group i (checked i st) (chunk plain i) now)

  -- A fragment before the last is kept and gives nothing.
  pub delivery-kept :
      (others : Dict ℤ Group) (i : ℕ) (st : DataChannel) (now : ℕ)
      → Below st.replay (start + i)
      → Holds others i st.fragments
      → suc i < total
      → i * max_payload < length plain
      → let o = delivery st (start + i) (fragment plain total i) now in
        (groups : Dict ℤ Group) × (o ≡ returns none (record (checked i st) { fragments = groups }))
        × Holds others (suc i) groups
  unfolding group_or_new
  delivery-kept others i st now below h more there =
      let buf = group_or_new (lookup (pos start) st.fragments) total now in
      let buf' = record buf { parts = parts_upto (chunk plain) (suc i) } in
      let groups = insert (pos start) buf' st.fragments in
      let found : lookup (pos start) groups ≡ some buf' =
        lookup-insert_self (pos start) buf' st.fragments in
      (
        groups,
        delivery-fragment i st now below there
            ∙ reassemble_view others i (checked i st) now h
            ∙ ground arith,
        record {
          others_stay = remove-insert_same (pos start) buf' st.fragments ∙ h.others_stay;
          same_total = λ later. rw found (h.same_total now);
          same_parts = λ later. rw found refl;
        },
      )

  -- The last one gives the payload, and its group is gone.
  pub delivery-whole :
      (others : Dict ℤ Group) (i : ℕ) (st : DataChannel) (now : ℕ)
      → Below st.replay (start + i)
      → Holds others i st.fragments
      → suc i ≡ total
      → i * max_payload < length plain
      → length plain ≤ total * max_payload
      → delivery st (start + i) (fragment plain total i) now
        ≡ returns (some plain) (record (checked i st) { fragments = others })
  delivery-whole others i st now below h last there fits =
      let whole : join (parts_upto (chunk plain) (suc i)) 0 total ≡ ok plain =
        join-parts_upto plain (suc i) 0 total (omega arith) (rw last fits) in
      delivery-fragment i st now below there
      ∙ reassemble_view others i (checked i st) now h
      ∙ ground (
        arith,
        last,
        whole,
        h.others_stay,
        remove-insert_same (pos start)
            (record (group_or_new (lookup (pos start) st.fragments) total now) {
              parts = parts_upto (chunk plain) (suc i);
            })
            st.fragments,
      )
