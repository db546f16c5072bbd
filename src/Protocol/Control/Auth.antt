-- ===== src/Protocol/Control/Auth.antt =====
-- Who can bring a session to the established state.
use vpn_app_ai.Prelude.{
  ℕ, ◌+◌, ◌≡◌, ◌≢◌, refl, sym, ap, ◌∙◌, inl, inr, true, Option, none, some, List, ◌∷◌, ◌++◌, arith,
}
use vpn_app_ai.Prelude.Result.{ok, >>=-eq-ok, Outcome, returns, raises, state, Result-cases}
use vpn_app_ai.Bytes.{Bytes, unpack}
use vpn_app_ai.Crypto.Pki.{Pki, Text, load_certificate, verify_certificate}
use vpn_app_ai.Protocol.Control.Hello.{slice, unpack_hello}
use vpn_app_ai.Protocol.Control.Session.{
  Session, established, error, verify_peer, verify_peer_cert, verify_signature, signature_passes,
  derive_cipher, load_peer_cert,
}
use vpn_app_ai.Protocol.Control.Server.{or_error}
use vpn_app_ai.Protocol.Control.Client.{
  send_finished, judge_server_hello, check_server_hello, client_handle_server_hello,
}

module _ (k : Pki) where
  -- The certificate is signed by the CA whose certificate lies at the path.
  pub record IsTrusted (ca : Text) (cert : k.Certificate) : Type 0 where
    pub issuer : k.Certificate
    pub loaded : load_certificate k ca ≡ ok issuer
    pub signed : verify_certificate k cert issuer ≡ true

  pub verify_peer-true :
      (c : ℕ) (cs : Text) (cert : Option k.Certificate)
      → verify_peer k (some (c ∷ cs)) cert ≡ ok true
      → (found : k.Certificate) × (cert ≡ some found) × IsTrusted (c ∷ cs) found
  unfolding verify_peer
  verify_peer-true c cs none e = cc
  verify_peer-true c cs (some cert) e =
      let (issuer, l, v) = >>=-eq-ok (load_certificate k (c ∷ cs)) _ e in
      (cert, refl, record { issuer = issuer; loaded = l; signed = ground (arith, v) })

  pub or_error-established :
      (o : Outcome (Session k) (List Bytes)) (packets : List Bytes) (s' : Session k)
      → or_error k o ≡ returns packets s'
      → s'.state ≢ error
      → o ≡ returns packets s'
  unfolding or_error
  or_error-established (returns ps t) packets s' e h = e
  or_error-established (raises x t) packets s' e h =
      absurd (h (sym (ap (λ (o : Outcome (Session k) (List Bytes)). (state o).state) e)))

  -- What a client in authenticated mode can rely on.
  pub record IsAuthenticated (s s' : Session k) (ca : Text) : Type 0 where
    pub cert : k.Certificate
    pub peer_pub : Bytes
    pub sig : Bytes
    pub has_cert : s'.peer_cert ≡ some cert
    pub trusted : IsTrusted ca cert
    pub has_peer_pub : s'.peer_pub_eph ≡ some peer_pub
    pub possession : verify_signature k cert (k.public_bytes s.public_eph ++ peer_pub) sig ≡ true

  signature_passes-some :
      (cert : Option k.Certificate) (found : k.Certificate) (b sig : Bytes)
      → cert ≡ some found
      → signature_passes k cert b sig ≡ true
      → verify_signature k found b sig ≡ true
  unfolding signature_passes
  signature_passes-some none found b sig e h = cc
  signature_passes-some (some cert) found b sig e h = ground (arith, h)

  send_finished-keeps :
      (signed : Bytes) (s s' : Session k) (packets : List Bytes)
      → send_finished k signed s ≡ returns packets s'
      → s' ≡ s
  unfolding send_finished
  send_finished-keeps signed s s' packets e = ground arith

  judged :
      (pub_data sig : Bytes) (s s' : Session k) (packets : List Bytes)
      → judge_server_hello k pub_data sig s ≡ returns packets s'
      → s'.state ≢ error
      → (verify_peer_cert k s ≡ ok true)
        × (signature_passes k s.peer_cert (k.public_bytes s.public_eph ++ pub_data) sig ≡ true)
        × (s'.peer_cert ≡ s.peer_cert)
        × (s'.peer_pub_eph ≡ s.peer_pub_eph)
  unfolding judge_server_hello
  judged pub_data sig s s' packets e h =
      let signed = k.public_bytes s.public_eph ++ pub_data in
      elim (Result-cases (derive_cipher k pub_data s)) [
        | inl (c, d) ↦
            let t : Session k = record s { cipher = some c; state = established } in
            ground (arith, d, send_finished-keeps signed t s' packets)
        | inr (x, d) ↦ ground (arith, d)
      ]

  -- The certificate that a hello has brought, and the key and the signature in it.
  checked :
      (payload : Bytes) (s s' : Session k) (packets : List Bytes)
      → check_server_hello k payload s ≡ returns packets s'
      → (pub_data : Bytes) × (sig : Bytes) × (cert : Option k.Certificate) × (judge_server_hello k
            pub_data sig
            (record s { peer_pub_eph = some pub_data; peer_cert = cert })
          ≡ returns packets s')
  unfolding check_server_hello
  checked payload s s' packets e = elim (Result-cases (unpack_hello payload 0)) [
    | inr (x, d) ↦ ground (arith, d)
    | inl ((cert_data, pub_data, offset), d) ↦
        elim (Result-cases (unpack 2 (slice payload offset 2))) [
          | inr (x, d2) ↦ ground (arith, d, d2)
          | inl (n, d2) ↦ elim (Result-cases (load_peer_cert k cert_data)) [
            | inr (x, d3) ↦ ground (arith, d, d2, d3)
            | inl (cert, d3) ↦
                (pub_data, slice payload (offset + 2) n, cert, ground (arith, d, d2, d3))
          ]
        ]
  ]

  -- A client with a CA comes out of SERVER_HELLO in any other state than the error state only if the
  -- peer showed a certificate that the CA's certificate verifies, and a signature over both public
  -- keys that the peer's certificate verifies.
  pub client-IsAuthenticated :
      (c : ℕ) (cs : Text) (payload : Bytes) (s s' : Session k) (packets : List Bytes)
      → s.ca_path ≡ some (c ∷ cs)
      → client_handle_server_hello k payload s ≡ returns packets s'
      → s'.state ≢ error
      → IsAuthenticated s s' (c ∷ cs)
  unfolding client_handle_server_hello verify_peer_cert
  client-IsAuthenticated c cs payload s s' packets ca e h =
      let (pub_data, sig, cert, j) =
        checked payload s s' packets
          (or_error-established (check_server_hello k payload s) packets s' e h) in
      let t : Session k = record s { peer_pub_eph = some pub_data; peer_cert = cert } in
      let (v, p, same_cert, same_pub) = judged pub_data sig t s' packets j h in
      let (found, f, trust) = verify_peer-true c cs cert (rw ca at v) in
      record {
        cert = found;
        peer_pub = pub_data;
        sig = sig;
        has_cert = same_cert ∙ f;
        trusted = trust;
        has_peer_pub = same_pub;
        possession = signature_passes-some cert found _ sig f p;
      }
