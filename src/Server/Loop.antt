-- ===== src/Server/Loop.antt =====
-- `_send_keepalives`, the rounds of `run`, the streams of TCP clients and `ServerProtocol` of
-- src/server.py: the event loop as a list of events, each of which runs to its end before the next.
use vpn_app_ai.Prelude.{ℕ, ◌-◌, ◌&&◌, true, Option, none, some, List, [], ◌∷◌, leb, if◌then◌else◌}
use vpn_app_ai.Prelude.Dict.{keys, lookup}
use vpn_app_ai.Prelude.Result.{returns, state}
use vpn_app_ai.Prelude.Exec.{Exec, ◌>>=◌, ◌>>◌, pure, modify, calls}
use vpn_app_ai.Bytes.{Bytes, from_bytes}
use vpn_app_ai.Crypto.Pki.{Pki}
use vpn_app_ai.Protocol.Messages.{control, keepalive, message_value}
use vpn_app_ai.Protocol.Packet.{encode_packet}
use vpn_app_ai.Protocol.Data.Channel.{Packages, DataChannel, cleanup_fragments}
use vpn_app_ai.Server.State.{
  Addr, addr_eq, opened, ClientSession, Server, Surroundings, is_ready, store, sync_send_to,
  remove_client, get_or_create_session,
}
use vpn_app_ai.Server.Handle.{seconds, handle_udp_data, cleanup_stale}
use vpn_app_ai.Server.Tun.{on_tun_readable}

module _ (k : Pki) where
  abbrev pub keepalive_to : ClientSession k → Exec (Server k) (Unit {0})
  keepalive_to cs = do
    packet ← calls (λ _.
        encode_packet control (from_bytes cs.session.session_id) (message_value keepalive ∷ []))
    sync_send_to k cs packet

  -- The client object of the snapshot is the one in `clients`.
  abbrev pub send_keepalive : ℕ → Option (ClientSession k) → Exec (Server k) (Unit {0})
  send_keepalive now none s = returns tt s
  send_keepalive now (some cs) s =
      if is_ready k cs && leb (seconds s.config.keepalive_interval) (now - cs.last_keepalive)
      then (do keepalive_to cs; modify (store k (record cs { last_keepalive = now }))) s
      else returns tt s

  unfoldable pub keepalives : ℕ → List Addr → Exec (Server k) (Unit {0})
  keepalives now [] = pure tt
  keepalives now (a ∷ as') = do λ s. send_keepalive now (lookup a s.clients) s; keepalives now as'

  -- `_send_keepalives`, without another task between its sends.
  unfoldable pub send_keepalives : ℕ → Exec (Server k) (Unit {0})
  send_keepalives now s = keepalives now (keys s.clients) s

  abbrev pub clean_channel : ℕ → ClientSession k → Option DataChannel → Server k → Server k
  clean_channel now cs none s = s
  clean_channel now cs (some d) s =
      store k (record cs { channel = some (cleanup_fragments d now) }) s

  abbrev pub clean_client : ℕ → Option (ClientSession k) → Server k → Server k
  clean_client now none s = s
  clean_client now (some cs) s = clean_channel now cs cs.channel s

  -- The loop over `clients.values()` in a round.
  unfoldable pub clean_clients : ℕ → List Addr → Server k → Server k
  clean_clients now [] s = s
  clean_clients now (a ∷ as') s = clean_clients now as' (clean_client now (lookup a s.clients) s)

  -- A round of `run`, up to its sleep.
  unfoldable pub tick : ℕ → Exec (Server k) (Unit {0})
  tick now = do
    modify (cleanup_stale k now)
    send_keepalives now
    modify (λ s. clean_clients now (keys s.clients) s)

  -- `connection_made`
  unfoldable pub connection_made : Server k → Server k
  connection_made s = record s { has_transport = true }

  -- `_handle_tcp_client` until its loop.
  unfoldable pub accept_tcp : Surroundings k → Addr → Exec (Server k) (Unit {0})
  accept_tcp env addr = do get_or_create_session k env addr (some opened); pure tt

module _ (p : Packages) (k : Pki) where
  -- What the event loop runs: a UDP datagram or a frame of a TCP client, a packet at the TUN device,
  -- a round, the transport's start, and a TCP client's stream at its start and at its end.
  pub data Event : Type 0 where
    connected : Event
    datagram_received : Surroundings k → Bytes → Addr → Event
    tun_readable : Option Bytes → (ℕ → Bytes) → Event
    round : ℕ → Event
    tcp_accepted : Surroundings k → Addr → Event
    tcp_closed : Addr → Event

  unfoldable pub handle_event : Event → Server k → Server k
  handle_event connected s = connection_made k s
  handle_event (datagram_received env bytes addr) s = state (handle_udp_data p k env bytes addr s)
  handle_event (tun_readable packet nonces) s = state (on_tun_readable p k packet nonces s)
  handle_event (round now) s = state (tick k now s)
  handle_event (tcp_accepted env addr) s = state (accept_tcp k env addr s)
  handle_event (tcp_closed addr) s = remove_client k addr s
