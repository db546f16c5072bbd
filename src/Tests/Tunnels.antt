-- ===== src/Tests/Tunnels.antt =====
-- A packet on its way through the tunnel, and a client that waits for its server.
use vpn_app_ai.Prelude.{◌≡◌, refl, true, some, List, [], ◌∷◌, nat_eq, list_eq, arith}
use vpn_app_ai.Prelude.Tests.{list_beq}
use vpn_app_ai.Prelude.Dict.{lookup}
use vpn_app_ai.Prelude.Result.{returns, state}
use vpn_app_ai.Bytes.{Bytes}
use vpn_app_ai.Protocol.Replay.{check, check_id}
use vpn_app_ai.Protocol.Control.Session.{is_established}
use vpn_app_ai.Server.State.{addr_eq, ClientSession, Server}
use vpn_app_ai.Server.Handle.{handle_udp_data}
use vpn_app_ai.Client.State.{VpnClient}
use vpn_app_ai.Client.Handle.{on_tun_readable}
use vpn_app_ai.Server.State as AtServer
use vpn_app_ai.Client.State as AtClient
use vpn_app_ai.Prelude.Texts.{codes}
use vpn_app_ai.Ipv4.{show_octet}
use vpn_app_ai.Server.Tun.{ipv4_dest, dotted, header_length, Coroutine}
use vpn_app_ai.Server.Tun as FromServer
use vpn_app_ai.Client.Handle as AtClientEnd
use vpn_app_ai.Tunnel.Back.{Reaches, Receives, on_tun_readable-unsent}
use vpn_app_ai.Tunnel.{Carries, IsServed, on_tun_readable-delivery}
use vpn_app_ai.Client.Run.{Running, Round}
use vpn_app_ai.Tests.Clients as AtClients
use vpn_app_ai.Tests.Toys.{toy_pki, toy_packages, toy_aead-AeadLaws, toy_packages-Lz4Laws}
use vpn_app_ai.Tests.Channels.{key, channel, nonces, channel-IsUsable}
use vpn_app_ai.Tests.Clients.{system, decode, ready}
use vpn_app_ai.Tests.Servers.{env, peer, client, server}

abbrev carrier : VpnClient toy_pki
carrier = record ready {
  handshake_done = true;
  assigned_ip = some (b'1' ∷ []);
  channel = some channel;
}

abbrev served : ClientSession toy_pki
served = record client { channel = some channel }

abbrev host : Server toy_pki
host = record server { clients = (peer, served) ∷ [] }

carrier-Carries : Carries toy_packages toy_pki carrier channel
unfolding list_beq
carrier-Carries = record {
  is_udp = refl;
  has_transport = refl;
  handshake_done = refl;
  has_address = refl;
  has_channel = refl;
}

host-IsServed : IsServed toy_packages toy_pki host peer channel channel
unfolding lookup list_beq is_established check check_id
host-IsServed = record {
  cs = served;
  known = refl;
  established = refl;
  has_channel = refl;
  paired = record { same_id = refl; same_cipher = refl };
  fresh = refl;
}

abbrev packet : Bytes
packet = 69 ∷ 0 ∷ 0 ∷ 20 ∷ []

on_tun_readable-delivery_example :
    (wire : Bytes) × (c' : VpnClient toy_pki) × (s' : Server toy_pki) × (on_tun_readable
        toy_packages toy_pki system decode
        (some packet)
        nonces
        carrier
      ≡ returns tt c')
    × (c'.effects ≡ AtClient.sendto wire ∷ [])
    × (handle_udp_data toy_packages toy_pki env wire peer host ≡ returns tt s')
    × (s'.effects ≡ AtServer.tun_write packet ∷ [])
on_tun_readable-delivery_example =
    on_tun_readable-delivery toy_packages toy_pki system decode carrier host peer channel channel
      key packet nonces env toy_aead-AeadLaws toy_packages-Lz4Laws channel-IsUsable (omega arith)
      refl carrier-Carries host-IsServed (omega arith) (omega arith)

-- A packet of 28 bytes that `_ipv4_dest` reads 10.8.0.2 from.
abbrev answer : Bytes
answer =
    69 ∷ 0 ∷ 0 ∷ 28 ∷ 0 ∷ 0 ∷ 0 ∷ 0 ∷ 64 ∷ 17 ∷ 0 ∷ 0 ∷ 10 ∷ 8 ∷ 0 ∷ 1 ∷ 10 ∷ 8 ∷ 0 ∷ 2 ∷ 0 ∷ 1 ∷ 0
    ∷ 2 ∷ 10 ∷ 8 ∷ 0 ∷ 2 ∷ []

abbrev mapped_host : Server toy_pki
mapped_host = record host { ip_to_addr = (codes "10.8.0.2", peer) ∷ [] }

host-Reaches : Reaches toy_packages toy_pki mapped_host answer channel
unfolding lookup list_beq is_established ipv4_dest dotted header_length show_octet
host-Reaches = record {
  ip = codes "10.8.0.2";
  addr = peer;
  cs = served;
  destined = refl;
  mapped = refl;
  known = refl;
  filed = refl;
  established = refl;
  has_channel = refl;
  is_udp = refl;
  has_transport = refl;
}

carrier-Receives : Receives toy_packages toy_pki carrier channel channel
unfolding check check_id
carrier-Receives = record {
  has_channel = refl;
  paired = record { same_id = refl; same_cipher = refl };
  fresh = refl;
}

on_tun_readable-unsent_example :
    (wire : Bytes) × (task : Coroutine toy_packages toy_pki) × (s' : Server toy_pki)
    × (c' : VpnClient toy_pki) × (FromServer.on_tun_readable toy_packages toy_pki
          (some answer)
          nonces
          mapped_host
        ≡ returns (task ∷ []) s')
    × (s'.effects ≡ [])
    × ((state (task s')).effects ≡ AtServer.sendto wire host-Reaches.addr ∷ [])
    × (AtClientEnd.handle_udp_data toy_packages toy_pki system decode wire 7 carrier
        ≡ returns tt c')
    × (c'.effects ≡ AtClient.tun_write answer ∷ [])
on_tun_readable-unsent_example =
    on_tun_readable-unsent toy_packages toy_pki system decode mapped_host carrier channel channel
      key answer nonces 7 toy_aead-AeadLaws toy_packages-Lz4Laws channel-IsUsable (omega arith) refl
      host-Reaches carrier-Receives (omega arith) (omega arith) (omega arith)

abbrev rounds_of_quiet : List Round
rounds_of_quiet = record { now = 1000000; events = [] } ∷ record { now = 2000000; events = [] } ∷ []

abbrev quiet_client : Running toy_pki
quiet_client = record { client = AtClients.client; running = true }
