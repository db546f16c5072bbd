-- ===== src/Tunnel/Back.antt =====
-- The way back of a packet, from the server's TUN device to the client's: src/server.py makes the
-- datagram and does not send it.
use vpn_app_ai.Prelude.{
  ℕ, ◌^◌, ◌≤◌, ◌<◌, ◌≡◌, refl, ap, ◌∙◌, true, false, Option, some, [], ◌∷◌, ◌++◌, length, nat_eq,
  list_eq, arith, le→ltb,
}
use vpn_app_ai.Prelude.Dict.{lookup}
use vpn_app_ai.Prelude.Int.{pos}
use vpn_app_ai.Prelude.Result.{returns, state}
use vpn_app_ai.Bytes.{Bytes}
use vpn_app_ai.Crypto.{Cipher, AeadLaws}
use vpn_app_ai.Crypto.Pki.{Pki, Text}
use vpn_app_ai.Privileges.{System}
use vpn_app_ai.Protocol.Messages.{data_packet, opcode_value}
use vpn_app_ai.Protocol.Replay.{check}
use vpn_app_ai.Protocol.Control.Session.{is_established}
use vpn_app_ai.Protocol.Data.Channel.{Packages, DataChannel, max_payload}
use vpn_app_ai.Protocol.Data.Encrypt.{encrypt}
use vpn_app_ai.Protocol.Data.Decrypt.{decrypt}
use vpn_app_ai.Protocol.Data.Delivery.{Lz4Laws, IsUsable, ArePaired}
use vpn_app_ai.Protocol.Data.RoundTrip.{IsPlain, next_counter, decrypt-encrypt_packet}
use vpn_app_ai.Status.{record_in}
use vpn_app_ai.Client.State.{tun_write, count, VpnClient}
use vpn_app_ai.Client.Handle.{dispatch, handle_data, after_decrypt, deliver_plain, handle_udp_data}
use vpn_app_ai.Server.State.{
  is_tcp, sendto, Addr, addr_eq, ClientSession, Server, store, sync_send_to,
}
use vpn_app_ai.Server.Tun.{
  ipv4_dest, client_of, Coroutine, send_to, after_encrypt, encrypt_for, on_tun_readable,
}
use vpn_app_ai.Tunnel.{encrypt-first}

module _ (p : Packages) (k : Pki) where
  -- The packet's destination leads to an established client with this channel, of a server over UDP.
  pub record Reaches (s : Server k) (packet : Bytes) (d : DataChannel) : Type 0 where
    pub ip : Text
    pub addr : Addr
    pub cs : ClientSession k
    pub destined : ipv4_dest packet ≡ some ip
    pub mapped : lookup ip s.ip_to_addr ≡ some addr
    pub known : lookup addr s.clients ≡ some cs
    pub filed : cs.addr ≡ addr
    pub established : is_established k cs.session ≡ true
    pub has_channel : cs.channel ≡ some d
    pub is_udp : is_tcp s.config ≡ false
    pub has_transport : s.has_transport ≡ true

  -- A client whose channel is the other end.
  pub record Receives (c : VpnClient k) (d e : DataChannel) : Type 0 where
    pub has_channel : c.channel ≡ some e
    pub paired : ArePaired d e
    pub fresh : (check e.replay (pos (next_counter d))).0 ≡ true

  made :
      (s : Server k) (d d' : DataChannel) (packet : Bytes) (nonces : ℕ → Bytes) (wire : Bytes)
      → (h : Reaches s packet d) → 20 ≤ length packet
      → encrypt p d packet nonces ≡ returns (wire ∷ []) d'
      → let cs' = record h.cs { channel = some d' } in
        on_tun_readable p k (some packet) nonces s
        ≡ returns (send_to p k cs' wire ∷ []) (store k cs' s)
  unfolding on_tun_readable client_of encrypt_for after_encrypt
  made s d d' packet nonces wire h long e = ground (
    arith,
    le→ltb (length packet) 20 long,
    h.destined,
    h.mapped,
    h.known,
    h.established,
    h.has_channel,
    e,
  )

  would_send :
      (cs : ClientSession k) (wire : Bytes) (s : Server k)
      → is_tcp s.config ≡ false
      → s.has_transport ≡ true
      → (state (send_to p k cs wire s)).effects ≡ s.effects ++ sendto wire cs.addr ∷ []
  unfolding sync_send_to
  would_send cs wire s udp up = ground (arith, udp, up)

  taken :
      (y : System) (decode : Bytes → Option Text) (now : ℕ) (c : VpnClient k) (e e' : DataChannel)
      (packet rest : Bytes)
      → c.channel ≡ some e
      → IsPlain packet
      → decrypt p e (opcode_value data_packet ∷ rest) now ≡ returns (some packet) e'
      → (c' : VpnClient k) × (handle_udp_data p k y decode (opcode_value data_packet ∷ rest) now c
          ≡ returns tt c')
        × (c'.effects ≡ c.effects ++ tun_write packet ∷ [])
  unfolding handle_udp_data dispatch handle_data after_decrypt deliver_plain opcode_value
  taken y decode now c e e' [] rest has plain dec = absurd plain
  taken y decode now c e e' (b ∷ packet) rest has plain dec = (
    record c {
      last_seen = now;
      status = count (record_in (length (opcode_value data_packet ∷ rest))) c.status;
      channel = some e';
      effects = c.effects ++ tun_write (b ∷ packet) ∷ [];
    },
    rw has (rw dec refl),
    refl,
  )

  -- A packet of 20 to 1400 bytes from the TUN device of a server over UDP, whose destination, as
  -- `_ipv4_dest` reads it, leads to an established client with a channel, is sealed as one datagram for that client: if the coroutine
  -- object that the server makes ever ran, it would send the datagram to the client's address, and a
  -- client with the other end of the channel that takes the datagram writes exactly the packet to its
  -- TUN device. But the server drops the object: it sends nothing, and calls nothing else of the system.
  pub on_tun_readable-unsent :
      (y : System) (decode : Bytes → Option Text) (s : Server k) (c : VpnClient k)
      (d e : DataChannel) (cy : Cipher) (packet : Bytes) (nonces : ℕ → Bytes) (now : ℕ)
      → AeadLaws p.aead
      → Lz4Laws p.lz4
      → IsUsable p d cy
      → next_counter d < 2 ^ 32
      → length (nonces (next_counter d)) ≡ 12
      → (h : Reaches s packet d) → Receives c d e
      → IsPlain packet
      → 20 ≤ length packet
      → length packet ≤ max_payload
      → (wire : Bytes) × (task : Coroutine p k) × (s' : Server k) × (c' : VpnClient k)
        × (on_tun_readable p k (some packet) nonces s ≡ returns (task ∷ []) s')
        × (s'.effects ≡ s.effects)
        × ((state (task s')).effects ≡ s.effects ++ sendto wire h.addr ∷ [])
        × (handle_udp_data p k y decode wire now c ≡ returns tt c')
        × (c'.effects ≡ c.effects ++ tun_write packet ∷ [])
  on_tun_readable-unsent y decode s c d e cy packet nonces now laws zlaws usable counts nonced h hc
        plain long short =
      let (wire, sealed, opens) =
        decrypt-encrypt_packet p d cy packet nonces laws zlaws usable counts nonced plain short in
      let (rest, shape) = encrypt-first p d _ packet nonces wire short sealed in
      let opened = rw shape at (opens e now hc.paired hc.fresh) in
      let (c', takes, writes) = taken y decode now c e _ packet rest hc.has_channel plain opened in
      let cs' = record h.cs { channel = some (record d { packet_counter = next_counter d }) } in
      (
        wire,
        send_to p k cs' wire,
        store k cs' s,
        c',
        made s d _ packet nonces wire h long sealed,
        refl,
        would_send cs' wire (store k cs' s) h.is_udp h.has_transport
            ∙ ap (λ (a : Addr). s.effects ++ sendto wire a ∷ []) h.filed,
        rw shape takes,
        writes,
      )
