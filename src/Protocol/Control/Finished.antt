-- ===== src/Protocol/Control/Finished.antt =====
-- What CLIENT_FINISHED and CLIENT_HELLO do to a server's session.
use vpn_app_ai.Prelude.{
  ℕ, ◌≤◌, ◌<◌, ◌≡◌, ◌≢◌, ◌∙◌, inl, inr, Bool, true, Option, none, some, List, [], ◌∷◌, ◌++◌, length,
  take, if◌then◌else◌, arith, le→leb, length-take, leb, Bool-cases,
}
use vpn_app_ai.Prelude.Result.{struct_error, ok, raise, returns, Result-cases}
use vpn_app_ai.Bytes.{Bytes, unpack, from_bytes}
use vpn_app_ai.Bytes.Codec.{unpack-take}
use vpn_app_ai.Crypto.Pki.{Pki, Text}
use vpn_app_ai.Protocol.Control.Hello.{slice, unpack_hello}
use vpn_app_ai.Protocol.Control.Session.{
  Session, established, error, or_empty, verify_peer_cert, load_peer_cert, signature_passes,
  derive_cipher,
}
use vpn_app_ai.Protocol.Control.Auth.{IsTrusted, verify_peer-true, or_error-established}
use vpn_app_ai.Protocol.Control.Server.{
  or_error, send_server_hello, judge_client_hello, answer_client_hello, server_handle_client_hello,
  check_client_finished, server_handle_client_finished,
}

module _ (k : Pki) where
  -- The signature in a CLIENT_FINISHED, and what it is checked over.
  abbrev pub finished_passes : Session k → Bytes → Bool
  finished_passes s payload =
      signature_passes k s.peer_cert (or_empty s.peer_pub_eph ++ k.public_bytes s.public_eph)
        (slice payload 2 (from_bytes (take 2 payload)))

  unpack_short :
      (payload : Bytes) → length payload < 2 → unpack 2 (take 2 payload) ≡ raise struct_error
  unfolding unpack
  unpack_short payload h =
      let short : length (take 2 payload) < 2 = omega (arith, length-take 2 payload) in ground arith

  -- CLIENT_FINISHED sets the state, whatever it was, and nothing else: established if the payload
  -- holds a length and the signature passes, and the error state otherwise. It never raises and
  -- never sends.
  pub client_finished_lem :
      (payload : Bytes) (s : Session k)
      → server_handle_client_finished k payload s
        ≡ returns [] (record s {
          state =
              if leb 2 (length payload)
              then (if finished_passes s payload then established else error)
              else error;
        })
  unfolding server_handle_client_finished check_client_finished or_error
  client_finished_lem payload s = elim (Bool-cases (leb 2 (length payload))) [
    | inl long ↦ ground (arith, long, unpack-take 2 payload)
    | inr short ↦ ground (arith, short, unpack_short payload)
  ]

  -- With no certificate on record the signature is not looked at: one packet with two bytes behind
  -- its type establishes the session in any state, also with a CA configured and with no key agreed.
  pub finished_without_hello :
      (payload : Bytes) (s : Session k)
      → s.peer_cert ≡ none
      → 2 ≤ length payload
      → server_handle_client_finished k payload s ≡ returns [] (record s { state = established })
  unfolding signature_passes
  finished_without_hello payload s no_cert h =
      client_finished_lem payload s ∙ rw (le→leb 2 (length payload) h, no_cert)

  send_server_hello-keeps :
      (pub_data : Bytes) (s s' : Session k) (packets : List Bytes)
      → send_server_hello k pub_data s ≡ returns packets s'
      → s'.peer_cert ≡ s.peer_cert
  unfolding send_server_hello
  send_server_hello-keeps pub_data s s' packets e = ground arith

  judged :
      (pub_data : Bytes) (s s' : Session k) (packets : List Bytes)
      → judge_client_hello k pub_data s ≡ returns packets s'
      → s'.state ≢ error
      → (verify_peer_cert k s ≡ ok true) × (s'.peer_cert ≡ s.peer_cert)
  unfolding judge_client_hello
  judged pub_data s s' packets e h = elim (Result-cases (derive_cipher k pub_data s)) [
    | inl (c, d) ↦
        let t : Session k = record s { cipher = some c } in
        ground (arith, d, send_server_hello-keeps pub_data t s' packets)
    | inr (x, d) ↦ ground (arith, d)
  ]

  answered :
      (payload : Bytes) (s s' : Session k) (packets : List Bytes)
      → answer_client_hello k payload s ≡ returns packets s'
      → (pub_data : Bytes) × (cert : Option k.Certificate) × (judge_client_hello k pub_data
            (record s { peer_pub_eph = some pub_data; peer_cert = cert })
          ≡ returns packets s')
  unfolding answer_client_hello
  answered payload s s' packets e = elim (Result-cases (unpack_hello payload 0)) [
    | inr (x, d) ↦ ground (arith, d)
    | inl ((cert_data, pub_data, offset), d) ↦ elim (Result-cases (load_peer_cert k cert_data)) [
      | inr (x, d3) ↦ ground (arith, d, d3)
      | inl (cert, d3) ↦ (pub_data, cert, ground (arith, d, d3))
    ]
  ]

  -- A server with a CA comes out of CLIENT_HELLO in any other state than the error state only with a
  -- peer certificate on record that the CA's certificate verifies.
  pub server-IsTrusted :
      (c : ℕ) (cs : Text) (payload : Bytes) (s s' : Session k) (packets : List Bytes)
      → s.ca_path ≡ some (c ∷ cs)
      → server_handle_client_hello k payload s ≡ returns packets s'
      → s'.state ≢ error
      → (cert : k.Certificate) × (s'.peer_cert ≡ some cert) × IsTrusted k (c ∷ cs) cert
  unfolding server_handle_client_hello verify_peer_cert
  server-IsTrusted c cs payload s s' packets ca e h =
      let (pub_data, cert, j) =
        answered payload s s' packets
          (or_error-established k (answer_client_hello k payload s) packets s' e h) in
      let t : Session k = record s { peer_pub_eph = some pub_data; peer_cert = cert } in
      let (v, same_cert) = judged pub_data t s' packets j h in
      let (found, f, trust) = verify_peer-true k c cs cert (rw ca at v) in
      (found, same_cert ∙ f, trust)
