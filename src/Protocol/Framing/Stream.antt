-- ===== src/Protocol/Framing/Stream.antt =====
-- Whatever packets are framed onto a stream come off it whole and in order.
use vpn_app_ai.Prelude.{
  ℕ, zero, suc, ◌^◌, ◌≤◌, ◌<◌, ◌≡◌, refl, sym, ap, ap₂, ◌∙◌, none, some, List, [], ◌∷◌, ◌++◌, All,
  length, append_assoc, take-append, drop-append, length-append, lt→ltb, le→ltb, ltb, Bool-cases,
  arith,
}
use vpn_app_ai.Prelude.Result.{Result, ok, returns, ◌>>=◌, >>=-eq-ok}
use vpn_app_ai.Bytes.{Bytes, pack, big_endian}
use vpn_app_ai.Bytes.Codec.{pack_fits, unpack-big_endian, length-big_endian}
use vpn_app_ai.Protocol.Framing.{frame_packet, readexactly, read_frame, receive}

abbrev pub Fits : Bytes → Type 0
Fits packet = length packet < 2 ^ 16

frame_packet_lem :
    (packet : Bytes)
    → Fits packet
    → frame_packet packet ≡ ok (big_endian 2 (length packet) ++ packet)
unfolding frame_packet
frame_packet_lem packet h = rw (pack_fits 2 (length packet) h)

readexactly-append :
    (n : ℕ) (xs ys : Bytes) → length xs ≡ n → readexactly n (xs ++ ys) ≡ returns xs ys
unfolding readexactly
readexactly-append n xs ys e =
    let long : n ≤ length (xs ++ ys) = omega (arith, length-append xs ys) in
    rw (le→ltb (length (xs ++ ys)) n long, take-append n xs ys e, drop-append n xs ys e)

read_frame-append :
    (packet rest : Bytes)
    → Fits packet
    → read_frame (big_endian 2 (length packet) ++ (packet ++ rest)) ≡ returns (some packet) rest
unfolding read_frame
read_frame-append packet rest h =
    rw
      (
        readexactly-append 2 (big_endian 2 (length packet)) (packet ++ rest)
            (length-big_endian 2 (length packet)),
        read_frame,
      )
      (rw (unpack-big_endian 2 (length packet) h, read_frame)
        (rw (readexactly-append (length packet) packet rest refl, read_frame)))

-- The bytes of the frames of these packets.
unfoldable wire : List Bytes → Bytes
wire [] = []
wire (p ∷ ps) = big_endian 2 (length p) ++ (p ++ wire ps)

-- A stream that ends within a frame: fewer than two bytes, or a length and less than that many.
read_frame_short : (tail : Bytes) → length tail < 2 → read_frame tail ≡ returns none []
unfolding read_frame
read_frame_short tail h = rw (lt→ltb (length tail) 2 h, read_frame)

read_frame_cut :
    (n : ℕ) (part : Bytes)
    → n < 2 ^ 16
    → length part < n
    → read_frame (big_endian 2 n ++ part) ≡ returns none []
unfolding read_frame
read_frame_cut n part h short =
    rw (readexactly-append 2 (big_endian 2 n) part (length-big_endian 2 n), read_frame)
      (rw (unpack-big_endian 2 n h, read_frame) (rw (lt→ltb (length part) n short)))

-- Where a connection may break off.
data CutOff : Bytes → Type 0 where
  in_length : (tail : Bytes) → length tail < 2 → CutOff tail
  in_body :
      (tail part : Bytes) (n : ℕ)
      → n < 2 ^ 16
      → length part < n
      → tail ≡ big_endian 2 n ++ part
      → CutOff tail

read_frame-CutOff : (tail : Bytes) → CutOff tail → read_frame tail ≡ returns none []
read_frame-CutOff tail (in_length _ h) = read_frame_short tail h
read_frame-CutOff tail (in_body _ part n h short e) = rw e (read_frame_cut n part h short)

receive-wire :
    (fuel : ℕ) (ps : List Bytes) (tail : Bytes)
    → All Fits ps
    → CutOff tail
    → length ps < fuel
    → receive fuel (wire ps ++ tail) ≡ ps
unfolding receive wire
receive-wire zero ps tail h cut e = absurd (omega arith)
receive-wire (suc fuel) [] tail h cut e = rw (read_frame-CutOff tail cut, receive)
receive-wire (suc fuel) (p ∷ ps) tail h cut e =
    let shape : (big_endian 2 (length p) ++ (p ++ wire ps)) ++ tail
        ≡ big_endian 2 (length p) ++ (p ++ (wire ps ++ tail)) =
      append_assoc (big_endian 2 (length p)) (p ++ wire ps) tail
      ∙ ap (λ (t : Bytes). big_endian 2 (length p) ++ t) (append_assoc p (wire ps) tail) in
    rw shape (
      rw (read_frame-append p (wire ps ++ tail) h.0, receive)
        (ap (◌∷◌ p) (receive-wire fuel ps tail h.1 cut (omega arith))))

-- What a sender has written that frames packet behind packet; a packet that is too long raises.
unfoldable pub frame_all : List Bytes → Result Bytes
unfolding frame_packet
frame_all [] = ok []
frame_all (p ∷ ps) = do first ← frame_packet p; rest ← frame_all ps; ok (first ++ rest)

-- The start of some packet's frame, without its end.
pub record IsCut (tail : Bytes) : Type 0 where
  pub packet : Bytes
  pub lost : Bytes
  pub something : 0 < length lost
  pub framed : frame_packet packet ≡ ok (tail ++ lost)

packed_fits : (v : ℕ) (n : Bytes) → pack 2 v ≡ ok n → v < 2 ^ 16
unfolding pack
packed_fits v n e = ground (arith, e, Bool-cases (ltb v (256 ^ 2)))

-- Only a packet whose length two bytes can hold is framed.
frame_packet-Fits :
    (packet framed : Bytes)
    → frame_packet packet ≡ ok framed
    → Fits packet × (framed ≡ big_endian 2 (length packet) ++ packet)
unfolding frame_packet
frame_packet-Fits packet framed e =
    let (n, packed, e1) = >>=-eq-ok (pack 2 (length packet)) _ e in
    let fits : Fits packet = packed_fits (length packet) n packed in
    let same : framed ≡ big_endian 2 (length packet) ++ packet =
      cc (sym e ∙ frame_packet_lem packet fits) in
    (fits, same)

frame_all-wire :
    (ps : List Bytes) (stream : Bytes) → frame_all ps ≡ ok stream → All Fits ps × (stream ≡ wire ps)
unfolding frame_all wire
frame_all-wire [] stream e = (tt, cc e)
frame_all-wire (p ∷ ps) stream e =
    let (first, one, e1) = >>=-eq-ok (frame_packet p) _ e in
    let (rest, others, e2) = >>=-eq-ok (frame_all ps) _ e1 in
    let (fits, shape) = frame_packet-Fits p first one in
    let (all_fit, shapes) = frame_all-wire ps rest others in
    let whole : stream ≡ first ++ rest = cc e2 in
    (
      (fits, all_fit),
      whole
          ∙ ap₂ (λ (x y : Bytes). x ++ y) shape shapes
          ∙ append_assoc (big_endian 2 (length p)) p (wire ps),
    )

IsCut-CutOff : (tail : Bytes) → IsCut tail → CutOff tail
unfolding big_endian
IsCut-CutOff [] cut = in_length [] (omega arith)
IsCut-CutOff (x ∷ []) cut = in_length (x ∷ []) (omega arith)
IsCut-CutOff (x ∷ y ∷ part) cut =
    let (fits, shape) = frame_packet-Fits cut.packet (x ∷ y ∷ (part ++ cut.lost)) cut.framed in
    let body : part ++ cut.lost ≡ cut.packet = cc shape in
    let counted = length-append part cut.lost ∙ refl in
    let total : length (part ++ cut.lost) ≡ length cut.packet = ap (λ (t : Bytes). length t) body in
    let start : x ∷ y ∷ part ≡ big_endian 2 (length cut.packet) ++ part = cc shape in
    in_body (x ∷ y ∷ part) part (length cut.packet) fits
      (omega (arith, cut.something, counted, total)) start

-- The receiving loop hands on exactly the packets that were framed, whole and in order, and nothing
-- of a frame that the end of the stream cuts off, when there is a round for each packet and one more.
pub receive-frame_all :
    (fuel : ℕ) (ps : List Bytes) (stream tail : Bytes)
    → frame_all ps ≡ ok stream
    → IsCut tail
    → length ps < fuel
    → receive fuel (stream ++ tail) ≡ ps
receive-frame_all fuel ps stream tail framed cut enough =
    let (fits, shape) = frame_all-wire ps stream framed in
    ap (λ (t : Bytes). receive fuel (t ++ tail)) shape
    ∙ receive-wire fuel ps tail fits (IsCut-CutOff tail cut) enough
