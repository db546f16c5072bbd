-- ===== src/Protocol/Tls/Exchange.antt =====
-- Messages over a TLS socket arrive whole, however the stream is cut into pieces.
use vpn_app_ai.Prelude.{
  ℕ, zero, suc, ◌+◌, ◌-◌, ◌^◌, ◌≤◌, ◌<◌, ◌≡◌, refl, sym, ap, ◌∙◌, true, false, [], ◌∷◌, ◌++◌,
  length, length-append, append_assoc, append-nil, arith,
}
use vpn_app_ai.Prelude.Result.{ok, returns}
use vpn_app_ai.Bytes.{Bytes, big_endian}
use vpn_app_ai.Bytes.Codec.{pack_fits, unpack-big_endian, length-big_endian}
use vpn_app_ai.Protocol.Tls.{Socket, frame, send, recv_onto, recv_exact, recv, exchange_data_key}

-- What the package documents of a connection that holds: `recv` takes at most so many bytes off the
-- front of what is to come and takes none only at the end, and `sendall` writes everything.
pub record StreamLaws (k : Socket) : Type 0 where
  pub pending : k.State → Bytes
  pub written : k.State → Bytes
  pub recv_some :
      (n : ℕ) (s : k.State)
      → 0 < n
      → 0 < length (pending s)
      → (c : ℕ) × (cs : Bytes) × (t : k.State) × (k.recv n s ≡ returns (c ∷ cs) t)
        × (pending s ≡ (c ∷ cs) ++ pending t)
        × (length (c ∷ cs) ≤ n)
        × (written t ≡ written s)
  pub sendall_all :
      (message : Bytes) (s : k.State)
      → (t : k.State) × (k.sendall message s ≡ returns tt t)
        × (written t ≡ written s ++ message)
        × (pending t ≡ pending s)

-- `frame` of a message that fits.
abbrev pub frame_bytes : Bytes → Bytes
frame_bytes message = big_endian 4 (length message) ++ message

pub frame_lem :
    (message : Bytes) → length message < 2 ^ 32 → frame message ≡ ok (frame_bytes message)
unfolding frame
frame_lem message h = ground (arith, pack_fits 4 (length message) h)

append-eq-append :
    (xs us ys vs : Bytes)
    → xs ++ us ≡ ys ++ vs
    → length xs ≤ length ys
    → (zs : Bytes) × (ys ≡ xs ++ zs) × (us ≡ zs ++ vs)
append-eq-append [] us ys vs e h = (ys, refl, e)
append-eq-append (x ∷ xs) us [] vs e h = absurd (omega arith)
append-eq-append (x ∷ xs) us (y ∷ ys) vs e h =
    let same : x ≡ y = cc e in
    let tails : xs ++ us ≡ ys ++ vs = cc e in
    let (zs, split, next) = append-eq-append xs us ys vs tails (omega arith) in
    (zs, cc (same, split), next)

module _ (k : Socket) (laws : StreamLaws k) where
  -- The state `t` behind taking `message` off the front.
  pub record IsTaken (s t : k.State) (rest : Bytes) : Type 0 where
    pub left : laws.pending t ≡ rest
    pub kept : laws.written t ≡ laws.written s

  recv_onto_lem :
      (rounds : ℕ) (message rest buf : Bytes) (s : k.State)
      → length message ≤ rounds
      → laws.pending s ≡ message ++ rest
      → (t : k.State) × (recv_onto k rounds (length message) buf s ≡ returns (buf ++ message) t)
        × IsTaken s t rest
  unfolding recv_onto
  recv_onto_lem zero [] rest buf s h e =
      (s, ap (λ (b : Bytes). returns b s) (sym (append-nil buf)), record { left = e; kept = refl })
  recv_onto_lem zero (d ∷ message) rest buf s h e = absurd (omega arith)
  recv_onto_lem (suc rounds) [] rest buf s h e =
      (s, ap (λ (b : Bytes). returns b s) (sym (append-nil buf)), record { left = e; kept = refl })
  recv_onto_lem (suc rounds) (d ∷ message) rest buf s h e =
      let there : 0 < length (laws.pending s) =
        omega (arith, ap (λ (b : Bytes). length b) e, length-append (d ∷ message) rest) in
      let (c, cs, u, r, p, small, w) =
        laws.recv_some (length (d ∷ message)) s (omega arith) there in
      let (more, split, next) =
        append-eq-append (c ∷ cs) (laws.pending u) (d ∷ message) rest (sym p ∙ e) small in
      let sizes : length (d ∷ message) ≡ length (c ∷ cs) + length more =
        ap (λ (b : Bytes). length b) split ∙ length-append (c ∷ cs) more in
      let need : length (d ∷ message) - length (c ∷ cs) ≡ length more = omega arith in
      let (t, runs, taken) =
        recv_onto_lem rounds more rest (buf ++ (c ∷ cs)) u (omega arith) next in
      let whole : (buf ++ (c ∷ cs)) ++ more ≡ buf ++ (d ∷ message) =
        append_assoc buf (c ∷ cs) more ∙ ap (λ (b : Bytes). buf ++ b) (sym split) in
      (t, ground (arith, r, need, runs, whole), record { left = taken.left; kept = taken.kept ∙ w })

  recv_exact_lem :
      (message rest : Bytes) (s : k.State)
      → laws.pending s ≡ message ++ rest
      → (t : k.State) × (recv_exact k (length message) s ≡ returns message t) × IsTaken s t rest
  unfolding recv_exact
  recv_exact_lem message rest s e = recv_onto_lem (length message) message rest [] s (omega arith) e

  -- A framed message at the front of the stream is received whole, and nothing behind it.
  pub recv-frame :
      (message rest : Bytes) (s : k.State)
      → length message < 2 ^ 32
      → laws.pending s ≡ frame_bytes message ++ rest
      → (t : k.State) × (recv k s ≡ returns message t) × IsTaken s t rest
  unfolding recv
  recv-frame message rest s h e =
      let header = big_endian 4 (length message) in
      let four : length header ≡ 4 = length-big_endian 4 (length message) in
      let (u, first, taken) =
        recv_exact_lem header (message ++ rest) s (e ∙ append_assoc header message rest) in
      let (t, second, taken') = recv_exact_lem message rest u taken.left in
      (
        t,
        ground (arith, four, first, unpack-big_endian 4 (length message) h, second),
        record { left = taken'.left; kept = taken'.kept ∙ taken.kept },
      )

  send_lem :
      (message : Bytes) (s : k.State)
      → length message < 2 ^ 32
      → (t : k.State) × (send k message s ≡ returns tt t)
        × (laws.written t ≡ laws.written s ++ frame_bytes message)
        × (laws.pending t ≡ laws.pending s)
  unfolding send
  send_lem message s h =
      let (t, runs, w, p) = laws.sendall_all (frame_bytes message) s in
      (t, ground (arith, frame_lem message h, runs), w, p)

-- The two ends of a connection that holds exchange a key: the initiator writes a frame with its key
-- and returns the key, and the other end, to which that frame comes in pieces of whatever size,
-- returns the same key, has taken the whole frame and echoes it; both calls return, and the
-- initiator reads nothing.
pub exchange_data_key-agree :
    (k l : Socket) (laws : StreamLaws k) (laws' : StreamLaws l) (key other : Bytes) (s : k.State)
    (r : l.State)
    → length key < 2 ^ 32
    → laws'.pending r ≡ frame_bytes key
    → (t : k.State) × (u : l.State) × (exchange_data_key k true key s ≡ returns key t)
      × (laws.written t ≡ laws.written s ++ frame_bytes key)
      × (laws.pending t ≡ laws.pending s)
      × (exchange_data_key l false other r ≡ returns key u)
      × (laws'.pending u ≡ [])
      × (laws'.written u ≡ laws'.written r ++ frame_bytes key)
unfolding exchange_data_key
exchange_data_key-agree k l laws laws' key other s r h comes =
    let (t, sends, w, p) = send_lem k laws key s h in
    let (v, receives, taken) =
      recv-frame l laws' key [] r h (comes ∙ sym (append-nil (frame_bytes key))) in
    let (u, echoes, w', p') = send_lem l laws' key v h in
    (
      t,
      u,
      ground (arith, sends),
      w,
      p,
      ground (arith, receives, echoes),
      p' ∙ taken.left,
      w' ∙ ap (λ (b : Bytes). b ++ frame_bytes key) taken.kept,
    )
