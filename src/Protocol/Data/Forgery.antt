-- ===== src/Protocol/Data/Forgery.antt =====
-- What a packet does to a channel that did not come from its peer.
use vpn_app_ai.Prelude.{
  ℕ, ◌+◌, ◌^◌, ◌≤◌, ◌<◌, ◌≡◌, refl, sym, ap, ◌∙◌, false, Option, none, some, ◌++◌, length,
  take-append, drop-append, length-append, arith, le→ltb, Bool-cases,
}
use vpn_app_ai.Prelude.Int.{pos}
use vpn_app_ai.Prelude.Result.{Exception, Result, ok, raise, ◌>>=◌, Outcome, state, result}
use vpn_app_ai.Bytes.{Bytes, big_endian}
use vpn_app_ai.Bytes.Codec.{length-big_endian, unpack-big_endian}
use vpn_app_ai.Protocol.Messages.{data_packet}
use vpn_app_ai.Protocol.Packet.{encode_packet, decode_packet}
use vpn_app_ai.Protocol.Packet.Codec.{decode-encode}
use vpn_app_ai.Protocol.Replay.{ReplayWindow, check, check_id}
use vpn_app_ai.Protocol.Data.Channel.{Packages, DataChannel}
use vpn_app_ai.Protocol.Data.Decrypt.{open_with, accept_packet, decrypt_payload, decrypt}
use vpn_app_ai.Protocol.Data.Once.{accept_packet-replay, refused_by_window}

-- A data packet with this session id, counter and sealed part.
abbrev pub data_of : ℕ → ℕ → Bytes → Result Bytes
data_of sid counter body = encode_packet data_packet sid (big_endian 4 counter ++ body)

decrypt-data_of :
    (p : Packages) (ch : DataChannel) (sid counter : ℕ) (body wire : Bytes) (now : ℕ)
    → sid < 2 ^ 64
    → counter < 2 ^ 32
    → 29 ≤ length body
    → data_of sid counter body ≡ ok wire
    → decrypt p ch wire now ≡ accept_packet p ch counter (big_endian 4 counter) body now
unfolding decrypt decrypt_payload accept_packet
decrypt-data_of p ch sid counter body wire now hs hc long e =
    let four : length (big_endian 4 counter) ≡ 4 = length-big_endian 4 counter in
    let enough : 33 ≤ length (big_endian 4 counter ++ body) =
      omega (arith, length-append (big_endian 4 counter) body, four) in
    let d : decode_packet wire ≡ ok (data_packet, sid, big_endian 4 counter ++ body) =
      ap (λ (r : Result Bytes). r >>= decode_packet) (sym e)
      ∙ decode-encode data_packet sid (big_endian 4 counter ++ body) hs in
    rw (d, decrypt)
      (rw
        (
          le→ltb (length (big_endian 4 counter ++ body)) 33 enough,
          take-append 4 (big_endian 4 counter) body four,
          unpack-big_endian 4 counter hc,
          take-append 4 (big_endian 4 counter) body four,
          drop-append 4 (big_endian 4 counter) body four,
        )
        refl)

jump :
    (w : ReplayWindow) (h c : ℕ)
    → w.highest ≡ some h
    → h < c
    → ((check w (pos c)).1.highest ≡ some c) × ((check w (pos c)).1.window_size ≡ w.window_size)
unfolding check check_id
jump w h c e less = ground (arith, e, less)

behind :
    (w : ReplayWindow) (c g : ℕ)
    → w.highest ≡ some c
    → g + w.window_size ≤ c
    → g < c
    → (check w (pos g)).0 ≡ false
unfolding check check_id
behind w c g e far less = ground (arith, e)

unopened :
    (p : Packages) (ch : DataChannel) (counter : ℕ) (cb enc : Bytes) (now : ℕ) (x : Exception)
    → open_with p ch.cipher enc (ch.shared_id ++ cb) ≡ raise x
    → result (accept_packet p ch counter cb enc now) ≡ ok none
unfolding accept_packet
unopened p ch counter cb enc now x bad =
    ground (arith, bad, Bool-cases (check ch.replay (pos counter)).0)

-- A packet that does not open still moves the replay window: behind a forged packet with counter `c`
-- every genuine packet whose counter is a window or more below `c` gives nothing, when `c` is above the
-- highest counter so far.
pub forged_packet_shuts_out :
    (p : Packages) (ch : DataChannel) (h c g sid sid' : ℕ) (junk body forged genuine : Bytes)
    (now later : ℕ) (x : Exception)
    → ch.replay.highest ≡ some h
    → h < c
    → g + ch.replay.window_size ≤ c
    → g < c
    → (sid < 2 ^ 64) × (sid' < 2 ^ 64)
    → c < 2 ^ 32
    → (29 ≤ length junk) × (29 ≤ length body)
    → data_of sid c junk ≡ ok forged
    → data_of sid' g body ≡ ok genuine
    → open_with p ch.cipher junk (ch.shared_id ++ big_endian 4 c) ≡ raise x
    → let hit = decrypt p ch forged now in
      (result hit ≡ ok none) × (result (decrypt p (state hit) genuine later) ≡ ok none)
forged_packet_shuts_out p ch h c g sid sid' junk body forged genuine now later x top above far below
      sids fits long ef eg bad =
    let hit = decrypt p ch forged now in
    let e : hit ≡ accept_packet p ch c (big_endian 4 c) junk now =
      decrypt-data_of p ch sid c junk forged now sids.0 fits long.0 ef in
    let moved : (state hit).replay ≡ (check ch.replay (pos c)).1 =
      ap (λ (o : Outcome DataChannel (Option Bytes)). (state o).replay) e
      ∙ accept_packet-replay p ch c (big_endian 4 c) junk now in
    let after = jump ch.replay h c top above in
    let shut : (check (state hit).replay (pos g)).0 ≡ false =
      ap (λ (w : ReplayWindow). (check w (pos g)).0) moved
      ∙ behind (check ch.replay (pos c)).1 c g after.0 (omega (arith, after.1)) below in
    let small : g < 2 ^ 32 = omega arith in
    (
      ap result e ∙ unopened p ch c (big_endian 4 c) junk now x bad,
      ap result (decrypt-data_of p (state hit) sid' g body genuine later sids.1 small long.1 eg)
          ∙ refused_by_window p (state hit) g (big_endian 4 g) body later shut,
    )
