-- ===== src/Protocol/Control/Completion.antt =====
-- The handshake run to its end, over a path that loses nothing.
use vpn_app_ai.Prelude.{
  ℕ, ◌^◌, ◌<◌, ◌≡◌, refl, sym, ap, ◌∙◌, true, some, [], ◌∷◌, ◌++◌, length, append-nil, arith,
}
use vpn_app_ai.Prelude.Result.{ok, returns}
use vpn_app_ai.Bytes.{Bytes, from_bytes}
use vpn_app_ai.Crypto.{Cipher, new_cipher}
use vpn_app_ai.Crypto.Pki.{data_channel_info, Pki, derive_shared_key, public_key_from_bytes}
use vpn_app_ai.Protocol.Messages.{
  control, client_hello, server_hello, client_finished, message_value,
}
use vpn_app_ai.Protocol.Packet.{decode_packet}
use vpn_app_ai.Protocol.Control.Hello.{
  trailing_field, slice, field_bytes, unpack_hello, unpack-pack_hello,
}
use vpn_app_ai.Protocol.Control.Session.{
  Session, reset_sent, reset_rcvd, hello_sent, established, or_empty, signature_passes,
  handshake_salt, derive_cipher,
}
use vpn_app_ai.Protocol.Control.Server.{
  check_client_finished, or_error, server_handle_client_hello, server_handle_reset,
  server_handle_client_finished,
}
use vpn_app_ai.Protocol.Control.Client.{
  client_start_handshake, client_handle_reset_ack, client_handle_server_hello,
}
use vpn_app_ai.Protocol.Control.Resets.{
  IsId, client_start_handshake_lem, server_handle_reset_lem, client_handle_reset_ack_lem,
}
use vpn_app_ai.Protocol.Control.Hellos.{
  Accepts, server_handle_client_hello_lem, client_handle_server_hello_lem,
}
use vpn_app_ai.Protocol.Control.Agreement.{ExchangeLaws, AreCrossed, derive_cipher-agree}

-- What the package documents of its keys, beside the exchange: a public key is short, and HKDF gives
-- as many bytes as it is asked for.
pub record KeyLaws (k : Pki) : Type 0 where
  pub exchange : ExchangeLaws k
  pub public_fits : (key : k.PublicKey) → length (k.public_bytes key) < 2 ^ 16
  pub length-hkdf : (salt info shared : Bytes) → length (k.hkdf 32 salt info shared) ≡ 32

module _ (k : Pki) where
  -- The calls of both ends in their order, each on what the one before it sent.
  pub record IsCompleted (a b : Session k) (now : ℕ) : Type 0 where
    pub a1 : Session k
    pub a2 : Session k
    pub a3 : Session k
    pub b1 : Session k
    pub b2 : Session k
    pub b3 : Session k
    pub reset : Bytes
    pub reset_ack : Bytes
    pub hello_packet : Bytes
    pub hello : Bytes
    pub answer_packet : Bytes
    pub answer : Bytes
    pub finish_packet : Bytes
    pub finish : Bytes
    pub c : Cipher
    pub starts : client_start_handshake k a ≡ returns (reset ∷ []) a1
    pub resets : server_handle_reset k reset now b ≡ returns (reset_ack ∷ []) b1
    pub acknowledges : client_handle_reset_ack k reset_ack a1 ≡ returns (hello_packet ∷ []) a2
    pub carries_hello :
        decode_packet hello_packet
        ≡ ok (control, from_bytes a.session_id, message_value client_hello ∷ hello)
    pub greets : server_handle_client_hello k hello b1 ≡ returns (answer_packet ∷ []) b2
    pub carries_answer :
        decode_packet answer_packet
        ≡ ok (control, from_bytes b.session_id, message_value server_hello ∷ answer)
    pub answers : client_handle_server_hello k answer a2 ≡ returns (finish_packet ∷ []) a3
    pub carries_finish :
        decode_packet finish_packet
        ≡ ok (control, from_bytes a.session_id, message_value client_finished ∷ finish)
    pub finishes : server_handle_client_finished k finish b2 ≡ returns [] b3
    pub client_ready : a3.state ≡ established
    pub server_ready : b3.state ≡ established
    pub client_key : a3.cipher ≡ some c
    pub server_key : b3.cipher ≡ some c

  derive_cipher_lem :
      (s : Session k) (peer : k.PublicKey) (shared : Bytes)
      → KeyLaws k
      → k.exchange s.private_eph peer ≡ some shared
      → derive_cipher k (k.public_bytes peer) s
        ≡ ok (record { key = k.hkdf 32 (handshake_salt k s) data_channel_info shared })
  unfolding derive_cipher public_key_from_bytes derive_shared_key new_cipher
  derive_cipher_lem s peer shared laws e = ground (
    arith,
    laws.exchange.from_bytes peer,
    e,
    laws.length-hkdf (handshake_salt k s) data_channel_info shared,
  )

  finished_lem :
      (s : Session k) (sig signed : Bytes)
      → length sig < 2 ^ 16
      → or_empty s.peer_pub_eph ++ k.public_bytes s.public_eph ≡ signed
      → signature_passes k s.peer_cert signed sig ≡ true
      → server_handle_client_finished k (field_bytes sig) s
        ≡ returns [] (record s { state = established })
  unfolding server_handle_client_finished check_client_finished or_error slice
  finished_lem s sig signed fits e passes =
      let (size, found) = trailing_field [] sig fits in ground (arith, size, found, e, passes)

  -- Two new sessions whose ends take what the other shows come to the established state at both
  -- ends, with the same cipher.
  pub handshake-IsCompleted :
      (a b : Session k) (now : ℕ) (shared : Bytes)
      → KeyLaws k
      → IsId a.session_id
      → IsId b.session_id
      → a.public_eph ≡ k.public_key a.private_eph
      → b.public_eph ≡ k.public_key b.private_eph
      → k.exchange b.private_eph a.public_eph ≡ some shared
      → Accepts k b a (k.public_bytes a.public_eph ++ k.public_bytes b.public_eph)
      → Accepts k a b (k.public_bytes a.public_eph ++ k.public_bytes b.public_eph)
      → IsCompleted a b now
  handshake-IsCompleted a b now shared laws ia ib pa pb e ba ab =
      let pub_a = k.public_bytes a.public_eph in
      let pub_b = k.public_bytes b.public_eph in
      let cert_a = or_empty a.local_cert_bytes in
      let cert_b = or_empty b.local_cert_bytes in
      let (hello, packed, unpacked) =
        unpack-pack_hello cert_a pub_a [] ba.cert_fits (laws.public_fits a.public_eph) in
      let (hello_b, packed_b, unpacked_b) =
        unpack-pack_hello cert_b pub_b (field_bytes ab.sig) ab.cert_fits
          (laws.public_fits b.public_eph) in
      let (reset, starts, r1) = client_start_handshake_lem k a ia in
      let a1 = record a { state = reset_sent } in
      let (ack, resets, r2) = server_handle_reset_lem k b a.session_id reset now ib ia r1 in
      let b1 = record b {
        peer_session_id = some a.session_id;
        state = reset_rcvd;
        last_rx = now;
      } in
      let (packet, acknowledges, r3) =
        client_handle_reset_ack_lem k a1 b.session_id ack hello ia ib r2 packed in
      let a2 = record a1 { peer_session_id = some b.session_id; state = reset_rcvd } in
      let sb : Session k = record b1 { peer_pub_eph = some pub_a; peer_cert = ba.cert } in
      let sa : Session k = record a2 { peer_pub_eph = some pub_b; peer_cert = ab.cert } in
      let c : Cipher = record { key = k.hkdf 32 (handshake_salt k sb) data_channel_info shared } in
      let key_b = derive_cipher_lem sb a.public_eph shared laws e in
      let crossed : AreCrossed k sa sb = record {
        a_public = pa;
        b_public = pb;
        a_knows = refl;
        b_knows = refl;
      } in
      let key_a : derive_cipher k pub_b sa ≡ ok c =
        derive_cipher-agree k laws.exchange sa sb crossed ∙ key_b in
      let whole : unpack_hello hello 0 ≡ ok (cert_a, pub_a, length hello) =
        ap (λ (t : Bytes). unpack_hello t 0) (sym (append-nil hello)) ∙ unpacked in
      let (answer, greets, r4) =
        server_handle_client_hello_lem k b1 hello cert_a pub_a ab.sig hello_b (length hello) ba.cert
          c ib whole ba.loads ba.trusted key_b ab.signs ab.sig_fits packed_b in
      let b2 = record sb { cipher = some c; state = hello_sent } in
      let (size, found) = trailing_field hello_b ab.sig ab.sig_fits in
      let (finish, answers, r5) =
        client_handle_server_hello_lem k a2 (hello_b ++ field_bytes ab.sig) cert_b pub_b ab.sig
          ba.sig (length hello_b) ab.cert c ia unpacked_b size found ab.loads ab.trusted key_a
          ab.passes ba.signs ba.sig_fits in
      let a3 = record sa { cipher = some c; state = established } in
      record {
        a1 = a1;
        a2 = a2;
        a3 = a3;
        b1 = b1;
        b2 = b2;
        b3 = record b2 { state = established };
        reset = reset;
        reset_ack = ack;
        hello_packet = packet;
        hello = hello;
        answer_packet = answer;
        answer = hello_b ++ field_bytes ab.sig;
        finish_packet = finish;
        finish = field_bytes ba.sig;
        c = c;
        starts = starts;
        resets = resets;
        acknowledges = acknowledges;
        carries_hello = r3;
        greets = greets;
        carries_answer = r4;
        answers = answers;
        carries_finish = r5;
        finishes = finished_lem b2 ba.sig (pub_a ++ pub_b) ba.sig_fits refl ba.passes;
        client_ready = refl;
        server_ready = refl;
        client_key = refl;
        server_key = refl;
      }
