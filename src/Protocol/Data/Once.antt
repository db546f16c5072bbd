-- ===== src/Protocol/Data/Once.antt =====
-- Replayed and forged packets.
use vpn_app_ai.Prelude.{
  ℕ, zero, suc, ◌+◌, ◌≤◌, ◌≡◌, ◌⊎◌, refl, sym, ap, ◌∙◌, inl, inr, false, nat_eq, Option, none, List,
  [], ◌∷◌, ◌++◌, length, ltb, take, drop, arith, Bool-cases, Option-cases,
}
use vpn_app_ai.Prelude.Int.{ℤ, pos, sub_ℕ, int_eq}
use vpn_app_ai.Prelude.Result.{
  Exception, Result, ok, raise, key_error, Outcome, returns, state, result, Result-cases,
}
use vpn_app_ai.Bytes.{Bytes, from_bytes}
use vpn_app_ai.Protocol.Packet.Codec.{decode_packet_cases}
use vpn_app_ai.Protocol.Replay.{ReplayWindow, check, after}
use vpn_app_ai.Protocol.Replay.Window.{Agrees}
use vpn_app_ai.Protocol.Replay.Verdicts.{check_again}
use vpn_app_ai.Prelude.Dict.{Dict, lookup, insert}
use vpn_app_ai.Bytes.Codec.{unpack-take}
use vpn_app_ai.Protocol.Data.Channel.{Packages, DataChannel}
use vpn_app_ai.Protocol.Data.Decrypt.{
  decompress, finish, join, group_or_new, reassemble, deliver_fragment, deliver, open_with, unwrap,
  accept_packet, decrypt_payload, decrypt, is_value_or_index_error,
}

finish-replay :
    (ch : DataChannel) (g : ℤ) (r : Result Bytes) → (state (finish ch g r)).replay ≡ ch.replay
finish-replay ch g (ok whole) = refl
finish-replay ch g (raise x) = refl

reassemble-replay :
    (ch : DataChannel) (counter total index : ℕ) (raw : Bytes) (now : ℕ)
    → (state (reassemble ch counter total index raw now)).replay ≡ ch.replay
unfolding reassemble
reassemble-replay ch counter total index raw now = ground arith

deliver_fragment-replay :
    (ch : DataChannel) (counter : ℕ) (rest : Bytes) (now : ℕ)
    → (state (deliver_fragment ch counter rest now)).replay ≡ ch.replay
unfolding deliver_fragment
deliver_fragment-replay ch counter (total ∷ index ∷ x ∷ raw) now =
    reassemble-replay ch counter total index (x ∷ raw) now
deliver_fragment-replay ch counter _ now = refl

deliver-replay :
    (ch : DataChannel) (counter : ℕ) (plain : Bytes) (now : ℕ)
    → (state (deliver ch counter plain now)).replay ≡ ch.replay
unfolding deliver
deliver-replay ch counter [] now = refl
deliver-replay ch counter (b ∷ rest) now =
    ground (arith, deliver_fragment-replay ch counter rest now)

unwrap-replay :
    (p : Packages) (ch : DataChannel) (counter : ℕ) (inner : Bytes) (now : ℕ)
    → (state (unwrap p ch counter inner now)).replay ≡ ch.replay
unfolding unwrap
unwrap-replay p ch counter [] now = refl
unwrap-replay p ch counter (t ∷ raw) now = elim (Option-cases (decompress p t raw)) [
  | inl e ↦ rw (e, unwrap)
  | inr (plain, e) ↦ rw (e, unwrap) (deliver-replay ch counter plain now)
]

pub accept_packet-replay :
    (p : Packages) (ch : DataChannel) (counter : ℕ) (cb enc : Bytes) (now : ℕ)
    → (state (accept_packet p ch counter cb enc now)).replay ≡ (check ch.replay (pos counter)).1
unfolding accept_packet
accept_packet-replay p ch counter cb enc now =
    let checked : DataChannel = record ch { replay = (check ch.replay (pos counter)).1 } in
    elim (Result-cases (open_with p ch.cipher enc (ch.shared_id ++ cb))) [
      | inl (inner, e) ↦ ground (arith, e, unwrap-replay p checked counter inner now)
      | inr (x, e) ↦ ground (arith, e)
    ]

-- A wire either never gets to the replay window, or always with one counter.
pub decrypt_view :
    (p : Packages) (wire : Bytes)
    → ((ch : DataChannel) (now : ℕ) → decrypt p ch wire now ≡ returns none ch)
      ⊎ ((counter : ℕ) × (cb : Bytes) × (enc : Bytes) × ((ch : DataChannel) (now : ℕ)
            → decrypt p ch wire now ≡ accept_packet p ch counter cb enc now))
unfolding decrypt decrypt_payload is_value_or_index_error
decrypt_view p wire = elim (decode_packet_cases wire) [
  | inl refused ↦ inl (λ ch now. rw (refused, decrypt))
  | inr (op, rest, shape, long, d) ↦
      let payload = drop 8 rest in
      elim (Bool-cases (ltb (length payload) 33)) [
        | inl short ↦ inl (λ ch now. rw (d, decrypt) (rw short))
        | inr enough ↦
            let four : 4 ≤ length payload = ground arith in
            inr (
              from_bytes (take 4 payload),
              take 4 payload,
              drop 4 payload,
              λ ch now. rw (d, decrypt) (rw (enough, unpack-take 4 payload four)),
            )
      ]
]

pub refused_by_window :
    (p : Packages) (ch : DataChannel) (counter : ℕ) (cb enc : Bytes) (now : ℕ)
    → (check ch.replay (pos counter)).0 ≡ false
    → result (accept_packet p ch counter cb enc now) ≡ ok none
unfolding accept_packet
refused_by_window p ch counter cb enc now e = rw e

-- The channel behind packets that arrive one after the other, whatever comes of each.
unfoldable pub decrypt_all : Packages → DataChannel → List (Bytes × ℕ) → DataChannel
decrypt_all p ch [] = ch
decrypt_all p ch ((wire, now) ∷ later) = decrypt_all p (state (decrypt p ch wire now)) later

-- A packet asks the replay window about one id or none.
decrypt-replay :
    (p : Packages) (ch : DataChannel) (wire : Bytes) (now : ℕ)
    → (ps : List ℤ) × ((state (decrypt p ch wire now)).replay ≡ after ch.replay ps)
unfolding after
decrypt-replay p ch wire now = elim (decrypt_view p wire) [
  | inl never ↦ ([], rw (never ch now) refl)
  | inr (counter, cb, enc, e) ↦
      (pos counter ∷ [], rw (e ch now) (accept_packet-replay p ch counter cb enc now))
]

after-append : (w : ReplayWindow) (ps qs : List ℤ) → after w (ps ++ qs) ≡ after (after w ps) qs
unfolding after
after-append w [] qs = refl
after-append w (p ∷ ps) qs = after-append (check w p).1 ps qs

decrypt_all-replay :
    (p : Packages) (ch : DataChannel) (packets : List (Bytes × ℕ))
    → (ps : List ℤ) × ((decrypt_all p ch packets).replay ≡ after ch.replay ps)
unfolding decrypt_all after
decrypt_all-replay p ch [] = ([], refl)
decrypt_all-replay p ch ((wire, now) ∷ packets) =
    let (ps, first) = decrypt-replay p ch wire now in
    let (qs, others) = decrypt_all-replay p (state (decrypt p ch wire now)) packets in
    (
      ps ++ qs,
      others ∙ ap (λ (w : ReplayWindow). after w qs) first ∙ sym (after-append ch.replay ps qs),
    )

-- A packet that comes a second time gives nothing, whatever it is, whatever the first time did, also
-- if an exception left it, and whatever packets come in between: for a channel whose replay window
-- agrees with some history.
pub decrypt_twice :
    (p : Packages) (ch : DataChannel) (accepted : List ℕ) (wire : Bytes)
    (between : List (Bytes × ℕ)) (now later : ℕ)
    → Agrees ch.replay ch.replay.highest accepted
    → result (decrypt p (decrypt_all p (state (decrypt p ch wire now)) between) wire later)
      ≡ ok none
decrypt_twice p ch accepted wire between now later a = elim (decrypt_view p wire) [
  | inl never ↦ ap result (never (decrypt_all p (state (decrypt p ch wire now)) between) later)
  | inr (counter, cb, enc, e) ↦
      let first = state (decrypt p ch wire now) in
      let moved : first.replay ≡ (check ch.replay (pos counter)).1 =
        ap (λ (o : Outcome DataChannel (Option Bytes)). (state o).replay) (e ch now)
        ∙ accept_packet-replay p ch counter cb enc now in
      let (ps, others) = decrypt_all-replay p first between in
      let last = decrypt_all p first between in
      let shut : (check last.replay (pos counter)).0 ≡ false =
        ap (λ (w : ReplayWindow). (check w (pos counter)).0)
          (others ∙ ap (λ (w : ReplayWindow). after w ps) moved)
        ∙ check_again ch.replay accepted counter ps a in
      ap result (e last later) ∙ refused_by_window p last counter cb enc later shut
]

join_error :
    (parts : Dict ℕ Bytes) (i left : ℕ) (x : Exception)
    → join parts i left ≡ raise x
    → x ≡ key_error
unfolding join
join_error parts i zero x e = cc
join_error parts i (suc left) x e = ground (arith, join_error parts (i + 1) left x)

finish_error :
    (ch : DataChannel) (g : ℤ) (r : Result Bytes) (x : Exception)
    → (r ≡ raise x → x ≡ key_error)
    → result (finish ch g r) ≡ raise x
    → x ≡ key_error
finish_error ch g (ok whole) x h e = cc
finish_error ch g (raise y) x h e = h (ground arith)

reassemble_error :
    (ch : DataChannel) (counter total index : ℕ) (raw : Bytes) (now : ℕ) (x : Exception)
    → result (reassemble ch counter total index raw now) ≡ raise x
    → x ≡ key_error
unfolding reassemble
reassemble_error ch counter total index raw now x e =
    let gid = sub_ℕ counter index in
    let buf = group_or_new (lookup gid ch.fragments) total now in
    let parts = insert index raw buf.parts in
    let stored = record ch { fragments = insert gid (record buf { parts = parts }) ch.fragments } in
    ground (arith, finish_error stored gid (join parts 0 total) x (join_error parts 0 total x))

deliver_fragment_error :
    (ch : DataChannel) (counter : ℕ) (rest : Bytes) (now : ℕ) (x : Exception)
    → result (deliver_fragment ch counter rest now) ≡ raise x
    → x ≡ key_error
unfolding deliver_fragment
deliver_fragment_error ch counter (total ∷ index ∷ b ∷ raw) now x e =
    reassemble_error ch counter total index (b ∷ raw) now x e
deliver_fragment_error ch counter _ now x e = cc

deliver_error :
    (ch : DataChannel) (counter : ℕ) (plain : Bytes) (now : ℕ) (x : Exception)
    → result (deliver ch counter plain now) ≡ raise x
    → x ≡ key_error
unfolding deliver
deliver_error ch counter [] now x e = cc
deliver_error ch counter (b ∷ rest) now x e =
    ground (arith, deliver_fragment_error ch counter rest now x)

unwrap_error :
    (p : Packages) (ch : DataChannel) (counter : ℕ) (inner : Bytes) (now : ℕ) (x : Exception)
    → result (unwrap p ch counter inner now) ≡ raise x
    → x ≡ key_error
unfolding unwrap
unwrap_error p ch counter [] now x e = cc
unwrap_error p ch counter (t ∷ raw) now x e = elim (Option-cases (decompress p t raw)) [
  | inl d ↦ cc (rw (d, unwrap) at e)
  | inr (plain, d) ↦ deliver_error ch counter plain now x (rw (d, unwrap) at e)
]

accept_packet_error :
    (p : Packages) (ch : DataChannel) (counter : ℕ) (cb enc : Bytes) (now : ℕ) (x : Exception)
    → result (accept_packet p ch counter cb enc now) ≡ raise x
    → x ≡ key_error
unfolding accept_packet
accept_packet_error p ch counter cb enc now x e =
    let checked : DataChannel = record ch { replay = (check ch.replay (pos counter)).1 } in
    elim (Result-cases (open_with p ch.cipher enc (ch.shared_id ++ cb))) [
      | inl (inner, d) ↦ ground (arith, d, unwrap_error p checked counter inner now x)
      | inr (y, d) ↦ ground (arith, d)
    ]

-- The only exception that can leave `decrypt` is KeyError.
pub decrypt-key_error :
    (p : Packages) (ch : DataChannel) (wire : Bytes) (now : ℕ) (x : Exception)
    → result (decrypt p ch wire now) ≡ raise x
    → x ≡ key_error
decrypt-key_error p ch wire now x e = elim (decrypt_view p wire) [
  | inl never ↦ cc (ap result (never ch now))
  | inr (counter, cb, enc, d) ↦ accept_packet_error p ch counter cb enc now x (rw (d ch now) at e)
]
