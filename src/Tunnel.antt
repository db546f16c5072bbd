-- ===== src/Tunnel.antt =====
-- The way of a packet from the client's TUN device to the server's.
pub mod Back
use vpn_app_ai.Prelude.{
  ℕ, ◌^◌, ◌≤◌, ◌<◌, ◌≡◌, refl, ◌∙◌, true, false, Option, some, [], ◌∷◌, ◌++◌, length, nat_eq,
  list_beq, arith, inl, inr,
}
use vpn_app_ai.Prelude.Dict.{lookup}
use vpn_app_ai.Prelude.Int.{pos}
use vpn_app_ai.Prelude.Result.{ok, >>=-eq-ok, Result-cases, returns}
use vpn_app_ai.Bytes.{Bytes, pack, big_endian, from_bytes}
use vpn_app_ai.Crypto.{Cipher, AeadLaws}
use vpn_app_ai.Crypto.Pki.{Pki, Text}
use vpn_app_ai.Config.{tcp, is_set}
use vpn_app_ai.Privileges.{System}
use vpn_app_ai.Protocol.Messages.{data_packet, opcode_value}
use vpn_app_ai.Protocol.Packet.{encode_packet}
use vpn_app_ai.Protocol.Replay.{check}
use vpn_app_ai.Protocol.Control.Session.{is_established}
use vpn_app_ai.Protocol.Data.Channel.{Packages, DataChannel, max_payload}
use vpn_app_ai.Protocol.Data.Encrypt.{encrypt_one, encrypt, wrap_inner, seal_with}
use vpn_app_ai.Protocol.Data.Decrypt.{decrypt}
use vpn_app_ai.Protocol.Data.Delivery.{Lz4Laws, IsUsable, ArePaired}
use vpn_app_ai.Protocol.Data.RoundTrip.{IsPlain, next_counter, decrypt-encrypt_packet}
use vpn_app_ai.Status.{record_out}
use vpn_app_ai.Client.State.{sendto, count, VpnClient, sync_send}
use vpn_app_ai.Client.Handle as AtClient
use vpn_app_ai.Client.Handle.{send_counted, encrypt_with, on_tun_readable}
use vpn_app_ai.Server.State.{
  tun_write, emit, Addr, addr_eq, ClientSession, Server, Surroundings, store,
}
use vpn_app_ai.Server.Handle as AtServer
use vpn_app_ai.Server.Handle.{handle_known, handle_data, handle_udp_data}

encode_packet-first :
    (sid : ℕ) (payload wire : Bytes)
    → encode_packet data_packet sid payload ≡ ok wire
    → (rest : Bytes) × (wire ≡ opcode_value data_packet ∷ rest)
unfolding encode_packet pack big_endian opcode_value
encode_packet-first sid payload wire e =
    let (s, _, e1) = >>=-eq-ok (pack 8 sid) _ e in (s ++ payload, ground (arith, e1))

encrypt_one-first :
    (p : Packages) (ch : DataChannel) (plain : Bytes) (counter : ℕ) (nonce wire : Bytes)
    → encrypt_one p ch plain counter nonce ≡ ok wire
    → (rest : Bytes) × (wire ≡ opcode_value data_packet ∷ rest)
unfolding encrypt_one
encrypt_one-first p ch plain counter nonce wire e =
    let (b, _, e1) = >>=-eq-ok (pack 4 counter) _ e in
    let (inner, _, e2) = >>=-eq-ok (wrap_inner p ch.compressing plain) _ e1 in
    let (sealed, _, e3) = >>=-eq-ok (seal_with p ch.cipher nonce inner (ch.shared_id ++ b)) _ e2 in
    encode_packet-first (from_bytes ch.shared_id) (b ++ sealed) wire e3

pub encrypt-first :
    (p : Packages) (ch ch' : DataChannel) (plain : Bytes) (nonces : ℕ → Bytes) (wire : Bytes)
    → length plain ≤ max_payload
    → encrypt p ch plain nonces ≡ returns (wire ∷ []) ch'
    → (rest : Bytes) × (wire ≡ opcode_value data_packet ∷ rest)
unfolding encrypt
encrypt-first p ch ch' plain nonces wire h e =
    let n = next_counter ch in
    let counted = record ch { packet_counter = n } in
    elim (Result-cases (encrypt_one p counted plain n (nonces n))) [
      | inl (w, o) ↦
          let (rest, shape) = encrypt_one-first p counted plain n (nonces n) w o in
          let same : wire ≡ w = ground (arith, e, o) in (rest, same ∙ shape)
      | inr (x, o) ↦ absurd (ground (arith, e, o))
    ]

module _ (p : Packages) (k : Pki) where
  -- A client that carries packets over UDP.
  pub record Carries (c : VpnClient k) (d : DataChannel) : Type 0 where
    pub is_udp : list_beq c.config.proto tcp ≡ false
    pub has_transport : c.has_transport ≡ true
    pub handshake_done : c.handshake_done ≡ true
    pub has_address : is_set c.assigned_ip ≡ true
    pub has_channel : c.channel ≡ some d

  -- The other end, at a server that knows the client's address.
  pub record IsServed (s : Server k) (addr : Addr) (d e : DataChannel) : Type 0 where
    pub cs : ClientSession k
    pub known : lookup addr s.clients ≡ some cs
    pub established : is_established k cs.session ≡ true
    pub has_channel : cs.channel ≡ some e
    pub paired : ArePaired d e
    pub fresh : (check e.replay (pos (next_counter d))).0 ≡ true

  sent :
      (y : System) (decode : Bytes → Option Text) (c : VpnClient k) (d d' : DataChannel)
      (packet : Bytes) (nonces : ℕ → Bytes) (wire : Bytes)
      → Carries c d
      → IsPlain packet
      → encrypt p d packet nonces ≡ returns (wire ∷ []) d'
      → (c' : VpnClient k) × (on_tun_readable p k y decode (some packet) nonces c ≡ returns tt c')
        × (c'.effects ≡ c.effects ++ sendto wire ∷ [])
  unfolding on_tun_readable encrypt_with AtClient.after_encrypt send_counted sync_send
  sent y decode c d d' [] nonces wire h plain e = absurd plain
  sent y decode c d d' (b ∷ packet) nonces wire h plain e = (
    record c {
      channel = some d';
      status = count (record_out (length wire)) c.status;
      effects = c.effects ++ sendto wire ∷ [];
    },
    ground (arith, e, h.is_udp, h.has_transport, h.handshake_done, h.has_address, h.has_channel),
    refl,
  )

  delivered :
      (env : Surroundings k) (s : Server k) (addr : Addr) (d e e' : DataChannel)
      (packet rest : Bytes)
      → (h : IsServed s addr d e) → IsPlain packet
      → decrypt p e (opcode_value data_packet ∷ rest) env.now ≡ returns (some packet) e'
      → (s' : Server k) × (handle_udp_data p k env (opcode_value data_packet ∷ rest) addr s
          ≡ returns tt s')
        × (s'.effects ≡ s.effects ++ tun_write packet ∷ [])
  unfolding handle_udp_data handle_known handle_data AtServer.after_decrypt AtServer.deliver_plain
      opcode_value
  delivered env s addr d e e' [] rest h plain dec = absurd plain
  delivered env s addr d e e' (b ∷ packet) rest h plain dec =
      let cs = record h.cs { last_seen = env.now } in
      (
        emit k (tun_write (b ∷ packet)) (store k (record cs { channel = some e' }) (store k cs s)),
        ground (arith, dec, h.known, h.established, h.has_channel),
        refl,
      )

  -- A packet of 1 to 1400 bytes that the TUN device of a connected client gives, and that starts as an
  -- IP packet does, goes out over UDP as one datagram; a server that serves the client takes that
  -- datagram and writes exactly the packet to its TUN device, and neither end does anything else.
  pub on_tun_readable-delivery :
      (y : System) (decode : Bytes → Option Text) (c : VpnClient k) (s : Server k) (addr : Addr)
      (d e : DataChannel) (cy : Cipher) (packet : Bytes) (nonces : ℕ → Bytes) (env : Surroundings k)
      → AeadLaws p.aead
      → Lz4Laws p.lz4
      → IsUsable p d cy
      → next_counter d < 2 ^ 32
      → length (nonces (next_counter d)) ≡ 12
      → Carries c d
      → IsServed s addr d e
      → IsPlain packet
      → length packet ≤ max_payload
      → (wire : Bytes) × (c' : VpnClient k) × (s' : Server k) × (on_tun_readable p k y decode
            (some packet)
            nonces
            c
          ≡ returns tt c')
        × (c'.effects ≡ c.effects ++ sendto wire ∷ [])
        × (handle_udp_data p k env wire addr s ≡ returns tt s')
        × (s'.effects ≡ s.effects ++ tun_write packet ∷ [])
  on_tun_readable-delivery y decode c s addr d e cy packet nonces env laws zlaws usable counts fresh
        hc hs plain short =
      let (wire, sealed, opens) =
        decrypt-encrypt_packet p d cy packet nonces laws zlaws usable counts fresh plain short in
      let (rest, shape) = encrypt-first p d _ packet nonces wire short sealed in
      let (c', runs, sends) = sent y decode c d _ packet nonces wire hc plain sealed in
      let opened = rw shape at (opens e env.now hs.paired hs.fresh) in
      let (s', takes, writes) = delivered env s addr d e _ packet rest hs plain opened in
      (wire, c', s', runs, sends, rw shape takes, writes)
