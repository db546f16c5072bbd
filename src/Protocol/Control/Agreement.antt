-- ===== src/Protocol/Control/Agreement.antt =====
-- Both ends of a handshake come to the same salt, key and channel id.
use vpn_app_ai.Prelude.{
  ℕ, ◌≡◌, refl, sym, ap, ◌∙◌, Bool, true, false, Option, some, [], ◌∷◌, arith, Bool-cases, inl, inr,
}
use vpn_app_ai.Prelude.Result.{Result-cases, ok}
use vpn_app_ai.Prelude.Bits.{bit_xor_comm}
use vpn_app_ai.Bytes.{Bytes}
use vpn_app_ai.Crypto.{Cipher}
use vpn_app_ai.Crypto.Pki.{Pki, derive_shared_key, public_key_from_bytes}
use vpn_app_ai.Protocol.Replay.{new_window}
use vpn_app_ai.Protocol.Data.Channel.{Packages, DataChannel, derive_session_id, new_channel}
use vpn_app_ai.Protocol.Data.Delivery.{ArePaired}
use vpn_app_ai.Protocol.Control.Session.{
  Session, or_empty, bytes_lt, salt_of, handshake_salt, derive_cipher,
}

bytes_lt-total : (a b : Bytes) → bytes_lt a b ≡ false → bytes_lt b a ≡ false → a ≡ b
unfolding bytes_lt
bytes_lt-total [] [] h h' = refl
bytes_lt-total [] (y ∷ b) h h' = cc
bytes_lt-total (x ∷ a) [] h h' = cc
bytes_lt-total (x ∷ a) (y ∷ b) h h' = ground (arith, bytes_lt-total a b)

bytes_lt-asym : (a b : Bytes) → bytes_lt a b ≡ true → bytes_lt b a ≡ false
unfolding bytes_lt
bytes_lt-asym [] [] h = cc
bytes_lt-asym [] (y ∷ b) h = refl
bytes_lt-asym (x ∷ a) [] h = cc
bytes_lt-asym (x ∷ a) (y ∷ b) h =
    ground (arith, bytes_lt-asym a b, Bool-cases (bytes_lt a b), Bool-cases (bytes_lt b a))

-- The id of a channel does not depend on which end computes it.
pub derive_session_id_comm : (a b : Bytes) → derive_session_id a b ≡ derive_session_id b a
unfolding derive_session_id
derive_session_id_comm [] [] = refl
derive_session_id_comm [] (y ∷ b) = refl
derive_session_id_comm (x ∷ a) [] = refl
derive_session_id_comm (x ∷ a) (y ∷ b) =
    ground (arith, bit_xor_comm x y, derive_session_id_comm a b)

channel_ids :
    (p : Packages) (our_id peer_id : Bytes) (c : Option Cipher) (comp : Bool) (size : ℕ)
    (ch : DataChannel)
    → new_channel p our_id peer_id c comp size ≡ ok ch
    → (ch.shared_id ≡ derive_session_id our_id peer_id) × (ch.cipher ≡ c)
unfolding new_channel
channel_ids p our_id peer_id c comp size ch e = elim (Result-cases (new_window size)) [
  | inl (w, n) ↦ ground (arith, e, n)
  | inr (x, n) ↦ ground (arith, e, n)
]

-- What the package documents of X25519: a public key is read back from its bytes, and the shared
-- secret is the same at both ends.
pub record ExchangeLaws (k : Pki) : Type 0 where
  pub from_bytes : (key : k.PublicKey) → k.from_public_bytes (k.public_bytes key) ≡ some key
  pub symmetric :
      (a b : k.PrivateKey) → k.exchange a (k.public_key b) ≡ k.exchange b (k.public_key a)

module _ (k : Pki) where
  -- The salt does not depend on which end computes it.
  pub salt_of_comm : (a b : Bytes) → salt_of k a b ≡ salt_of k b a
  unfolding salt_of
  salt_of_comm a b = elim (Bool-cases (bytes_lt a b)) [
    | inl less ↦ rw (less, bytes_lt-asym a b less) refl
    | inr not_less ↦ elim (Bool-cases (bytes_lt b a)) [
      | inl more ↦ rw (not_less, more) refl
      | inr not_more ↦
          rw (not_less, not_more) (ground (arith, bytes_lt-total a b not_less not_more))
    ]
  ]

  -- Two sessions that know each other's ids, with the public keys of their own private keys.
  pub record AreCrossed (a b : Session k) : Type 0 where
    pub a_public : a.public_eph ≡ k.public_key a.private_eph
    pub b_public : b.public_eph ≡ k.public_key b.private_eph
    pub a_knows : a.peer_session_id ≡ some b.session_id
    pub b_knows : b.peer_session_id ≡ some a.session_id

module _ (k : Pki) (laws : ExchangeLaws k) where
  -- Two sessions that know each other's ids and public keys derive the same cipher, or fail alike.
  pub derive_cipher-agree :
      (a b : Session k)
      → AreCrossed k a b
      → derive_cipher k (k.public_bytes b.public_eph) a
        ≡ derive_cipher k (k.public_bytes a.public_eph) b
  unfolding derive_cipher public_key_from_bytes derive_shared_key handshake_salt
  derive_cipher-agree a b x =
      rw
        (
          laws.from_bytes a.public_eph,
          laws.from_bytes b.public_eph,
          x.a_public,
          x.b_public,
          x.a_knows,
          x.b_knows,
          laws.symmetric a.private_eph b.private_eph,
          salt_of_comm k a.session_id b.session_id,
        )
        refl

  -- The channels that two such sessions open over the ciphers they derived are paired: what one seals
  -- the other opens.
  pub new_channel-ArePaired :
      (p : Packages) (a b : Session k) (c d : Cipher) (comp comp' : Bool) (size size' : ℕ)
      (left right : DataChannel)
      → AreCrossed k a b
      → derive_cipher k (k.public_bytes b.public_eph) a ≡ ok c
      → derive_cipher k (k.public_bytes a.public_eph) b ≡ ok d
      → new_channel p a.session_id (or_empty a.peer_session_id) (some c) comp size ≡ ok left
      → new_channel p b.session_id (or_empty b.peer_session_id) (some d) comp' size' ≡ ok right
      → ArePaired left right
  new_channel-ArePaired p a b c d comp comp' size size' left right x ec ed el er =
      let same : c ≡ d = cc (ec, ed, derive_cipher-agree a b x) in
      let l = channel_ids p a.session_id (or_empty a.peer_session_id) (some c) comp size left el in
      let r =
        channel_ids p b.session_id (or_empty b.peer_session_id) (some d) comp' size' right er in
      record {
        same_id =
            r.0
            ∙ ap (λ q. derive_session_id b.session_id (or_empty q)) x.b_knows
            ∙ derive_session_id_comm b.session_id a.session_id
            ∙ sym (l.0 ∙ ap (λ q. derive_session_id a.session_id (or_empty q)) x.a_knows);
        same_cipher = r.1 ∙ ap some (sym same) ∙ sym l.1;
      }
