-- ===== src/Server/Handle.antt =====
-- `handle_udp_data`, `_assign_ip_to_client` and `_cleanup_stale` of src/server.py.
use vpn_app_ai.Prelude.{
  ℕ, ◌-◌, ◌*◌, Bool, not, ◌&&◌, Option, none, some, List, [], ◌∷◌, ltb, nat_beq, nat_eq, list_eq,
  if◌then◌else◌,
}
use vpn_app_ai.Prelude.Dict.{Dict, lookup, insert}
use vpn_app_ai.Prelude.Result.{Result, ok, raise, Outcome, returns, raises}
use vpn_app_ai.Prelude.Exec.{Exec, ◌>>=◌, ◌>>◌, pure, modify, calls}
use vpn_app_ai.Bytes.{Bytes, from_bytes}
use vpn_app_ai.Crypto.Pki.{Pki, Text}
use vpn_app_ai.Protocol.Messages.{
  control, hard_reset_client, hard_reset_server, data_packet, opcode_value, Opcode, MessageType,
  client_hello, client_finished, ip_assign, message_value, message_of, handshake_timeout,
}
use vpn_app_ai.Protocol.Packet.{encode_packet, decode_packet}
use vpn_app_ai.Protocol.Data.Channel.{Packages, DataChannel, new_channel}
use vpn_app_ai.Protocol.Data.Decrypt.{decrypt, is_value_or_index_error}
use vpn_app_ai.Protocol.Control.Session.{Session, is_established, is_expired, or_empty}
use vpn_app_ai.Protocol.Control.Server.{
  server_handle_reset, server_handle_client_hello, server_handle_client_finished,
}
use vpn_app_ai.Routing.Pool.{IpPool, allocate}
use vpn_app_ai.Server.State.{
  Addr, addr_eq, client_id, tun_write, add_route, ClientSession, Server, Surroundings, is_some,
  emit, store, sync_send_to, send_all, remove_client, get_or_create_session,
}

-- Seconds in milliseconds.
abbrev pub seconds : ℕ → ℕ
seconds n = n * 1000

-- `CONTROL_HANDLERS.get(msg_type)`
unfoldable pub control_handler :
    (k : Pki) → MessageType → Option (Bytes → Exec (Session k) (List Bytes))
control_handler k client_hello = some (server_handle_client_hello k)
control_handler k client_finished = some (server_handle_client_finished k)
control_handler k _ = none

module _ (p : Packages) (k : Pki) where
  abbrev pub after_handler :
      ClientSession k
      → Outcome (Session k) (List Bytes)
      → Exec (Server k) (List Bytes × ClientSession k)
  after_handler cs (returns packets t) s =
      let cs' = record cs { session = t } in returns (packets, cs') (store k cs' s)
  after_handler cs (raises x t) s = raises x (store k (record cs { session = t }) s)

  -- A handler on the client's session; what it leaves there stays, also if it raises.
  unfoldable pub on_session :
      ClientSession k
      → Exec (Session k) (List Bytes)
      → Exec (Server k) (List Bytes × ClientSession k)
  on_session cs handler s = after_handler cs (handler cs.session) s

  -- The assignment of an address that the pool has given.
  unfoldable pub announce_ip : ClientSession k → Text → Exec (Server k) (Unit {0})
  announce_ip cs ip = do
    let cs' = record cs {
      virtual_ip = some ip;
      session = record cs.session { assigned_ip = some ip };
    }
    modify (λ s. store k cs' (record s { ip_to_addr = insert ip cs.addr s.ip_to_addr }))
    packet ← calls (λ _.
        encode_packet control (from_bytes cs.session.session_id) (message_value ip_assign ∷ ip))
    sync_send_to k cs' packet
    modify (emit k (add_route ip))

  -- What the pool has given, and the pool behind it.
  abbrev pub assign_given : ClientSession k → Option Text × IpPool → Exec (Server k) (Unit {0})
  assign_given cs (none, pool) s = returns tt (record s { ip_pool = some pool })
  assign_given cs (some ip, pool) s = announce_ip cs ip (record s { ip_pool = some pool })

  abbrev pub assign_from : ClientSession k → Option IpPool → Exec (Server k) (Unit {0})
  assign_from cs none s = returns tt s
  assign_from cs (some pool) s = assign_given cs (allocate pool (client_id cs.addr)) s

  -- `_assign_ip_to_client`
  unfoldable pub assign_ip_to_client : ClientSession k → Exec (Server k) (Unit {0})
  assign_ip_to_client cs s = assign_from cs s.ip_pool s

  unfoldable pub open_channel : ClientSession k → Exec (Server k) (Unit {0})
  open_channel cs = do
    channel ← calls (λ s.
        new_channel p cs.session.session_id (or_empty cs.session.peer_session_id) cs.session.cipher
          s.config.compress 64)
    let cs' = record cs { channel = some channel }
    modify (store k cs')
    assign_ip_to_client cs'

  -- The channel and the address of a session that has just been established.
  unfoldable pub start_channel : ClientSession k → Exec (Server k) (Unit {0})
  start_channel cs =
      if is_established k cs.session && not (is_some cs.channel) then open_channel cs else pure tt

  abbrev pub apply_handler :
      ClientSession k
      → Bytes
      → Option (Bytes → Exec (Session k) (List Bytes))
      → Exec (Server k) (Unit {0})
  apply_handler cs inner none = pure tt
  apply_handler cs inner (some handler) = do
    (packets, cs') ← on_session cs (handler inner)
    send_all k cs' packets
    start_channel cs'

  -- A control message: a type that is no `MessageType` raises.
  unfoldable pub handle_message : ClientSession k → Bytes → Exec (Server k) (Unit {0})
  handle_message cs [] = pure tt
  handle_message cs (t ∷ inner) = do
    msg_type ← calls (λ _. message_of t)
    apply_handler cs inner (control_handler k msg_type)

  abbrev pub on_decoded : ClientSession k → Result (Opcode × ℕ × Bytes) → Exec (Server k) (Unit {0})
  on_decoded cs (ok (_, _, payload)) = handle_message cs payload
  on_decoded cs (raise x) = if is_value_or_index_error x then pure tt else raises x

  unfoldable pub handle_control : ClientSession k → Bytes → Exec (Server k) (Unit {0})
  handle_control cs packet s = on_decoded cs (decode_packet packet) s

  -- `if plain: self.tun.write(plain)`
  unfoldable pub deliver_plain : Option Bytes → Server k → Server k
  deliver_plain none s = s
  deliver_plain (some []) s = s
  deliver_plain (some (b ∷ bs)) s = emit k (tun_write (b ∷ bs)) s

  -- The channel of the client after a packet, kept also behind an exception.
  unfoldable pub after_decrypt :
      ClientSession k → Outcome DataChannel (Option Bytes) → Exec (Server k) (Unit {0})
  after_decrypt cs (returns plain d) s =
      returns tt (deliver_plain plain (store k (record cs { channel = some d }) s))
  after_decrypt cs (raises x d) s = raises x (store k (record cs { channel = some d }) s)

  unfoldable pub handle_data :
      ℕ → ClientSession k → Option DataChannel → Bytes → Exec (Server k) (Unit {0})
  handle_data now cs none packet = pure tt
  handle_data now cs (some d) packet =
      if is_established k cs.session then after_decrypt cs (decrypt p d packet now) else pure tt

  unfoldable pub handle_reset : Surroundings k → Addr → Bytes → Exec (Server k) (Unit {0})
  handle_reset env addr packet = do
    cs ← get_or_create_session k env addr none
    (packets, cs') ← on_session cs (server_handle_reset k packet env.now)
    send_all k cs' packets

  -- What a known client sent, with the first byte `o`.
  unfoldable pub handle_known : ℕ → ℕ → ClientSession k → Bytes → Exec (Server k) (Unit {0})
  handle_known now o old packet = do
    let cs = record old { last_seen = now }
    modify (store k cs)
    if nat_beq o (opcode_value control)
        then handle_control cs packet
        else if nat_beq o (opcode_value data_packet)
        then handle_data now cs cs.channel packet
        else pure tt

  abbrev pub on_datagram :
      Surroundings k → ℕ → Bytes → Option (ClientSession k) → Exec (Server k) (Unit {0})
  on_datagram env o packet none = pure tt
  on_datagram env o packet (some cs) = handle_known env.now o cs packet

  -- `handle_udp_data`
  unfoldable pub handle_udp_data : Surroundings k → Bytes → Addr → Exec (Server k) (Unit {0})
  handle_udp_data env [] addr = pure tt
  handle_udp_data env (o ∷ rest) addr =
      if nat_beq o (opcode_value hard_reset_client)
      then handle_reset env addr (o ∷ rest)
      else if nat_beq o (opcode_value hard_reset_server)
      then pure tt
      else λ s. on_datagram env o (o ∷ rest) (lookup addr s.clients) s

-- Which clients `_cleanup_stale` drops.
unfoldable pub is_stale : (k : Pki) → ℕ → ℕ → ClientSession k → Bool
is_stale k timeout now cs =
    if is_established k cs.session
    then ltb (seconds timeout) (now - cs.last_seen)
    else is_expired k cs.session (seconds handshake_timeout) now

unfoldable pub stale_addrs : (k : Pki) → ℕ → ℕ → Dict Addr (ClientSession k) → List Addr
stale_addrs k timeout now [] = []
stale_addrs k timeout now ((a, cs) ∷ rest) =
    let others = stale_addrs k timeout now rest in
    if is_stale k timeout now cs then a ∷ others else others

unfoldable pub remove_clients : (k : Pki) → List Addr → Server k → Server k
remove_clients k [] s = s
remove_clients k (a ∷ as') s = remove_clients k as' (remove_client k a s)

-- `_cleanup_stale`
unfoldable pub cleanup_stale : (k : Pki) → ℕ → Server k → Server k
unfolding stale_addrs remove_clients
cleanup_stale k now s = remove_clients k (stale_addrs k s.config.keepalive_timeout now s.clients) s
