-- ===== src/Tests/Servers.antt =====
-- A server with one client.
use vpn_app_ai.Prelude.{◌↔◌, ◌≡◌, refl, true, false, none, some, [], ◌∷◌, nat_eq, list_eq}
use vpn_app_ai.Prelude.Tests.{list_beq}
use vpn_app_ai.Prelude.Dict.{lookup, remove}
use vpn_app_ai.Prelude.Result.{returns}
use vpn_app_ai.Protocol.Messages.{opcode_value, data_packet}
use vpn_app_ai.Protocol.Control.Session.{established, is_established, is_expired}
use vpn_app_ai.Server.State.{
  Addr, addr_eq, ClientSession, Server, remove_client, Surroundings, is_ready,
}
use vpn_app_ai.Server.Handle.{handle_udp_data, is_stale, stale_addrs, remove_clients, cleanup_stale}
use vpn_app_ai.Server.Forwarding.{serves, unready_data-effects}
use vpn_app_ai.Server.Staleness.{HasKeysOnce, IsDue, cleanup_stale-survivors_iff}
use vpn_app_ai.Tests.Toys.{toy_pki, toy_packages, toy_session, options, eight}

abbrev pub peer : Addr
peer = record { host = b'h' ∷ []; port = 4000 }

abbrev other : Addr
other = record { host = b'h' ∷ []; port = 4001 }

-- An established client without a channel, with an address.
abbrev pub client : ClientSession toy_pki
client = record {
  addr = peer;
  session = record (toy_session true) { state = established };
  channel = none;
  virtual_ip = some (b'1' ∷ []);
  last_seen = 50000;
  last_keepalive = 0;
  writer = none;
}

abbrev pub server : Server toy_pki
server = record {
  config = options;
  clients = (peer, client) ∷ [];
  ip_to_addr = (b'1' ∷ [], peer) ∷ [];
  ip_pool = none;
  has_transport = true;
  nat_interface = none;
  effects = [];
}

abbrev pub env : Surroundings toy_pki
env = record { now = 100000; urandom = eight; eph = 5 }

no_channel : serves toy_packages toy_pki server peer ≡ false
unfolding lookup list_beq is_ready is_established
no_channel = refl

unready_data-effects_example :
    (t : Server toy_pki) × (handle_udp_data toy_packages toy_pki env
        (opcode_value data_packet ∷ eight)
        peer
        server
      ≡ returns tt t)
    × (t.effects ≡ [])
unready_data-effects_example =
    unready_data-effects toy_packages toy_pki env eight peer server no_channel

peer-found : lookup peer server.clients ≡ some client
unfolding lookup list_beq
peer-found = refl

-- Two clients, of which the second has been silent for 99 seconds at 100 seconds.
abbrev silent : ClientSession toy_pki
silent = record client { addr = other; last_seen = 1000; virtual_ip = none }

abbrev crowd : Server toy_pki
crowd = record server { clients = (peer, client) ∷ (other, silent) ∷ [] }

crowd-HasKeysOnce : HasKeysOnce toy_pki crowd.clients
unfolding HasKeysOnce lookup list_beq
crowd-HasKeysOnce = (refl, (refl, tt))

silent_goes : lookup other (cleanup_stale toy_pki 100000 crowd).clients ≡ none
unfolding lookup list_beq cleanup_stale stale_addrs remove_clients is_stale is_established
    is_expired remove_client remove
silent_goes = refl

cleanup_stale-survivors_iff_example :
    (lookup other (cleanup_stale toy_pki 100000 crowd).clients ≡ some silent)
    ↔ ((lookup other crowd.clients ≡ some silent) × (¬ IsDue toy_pki 60 100000 silent))
cleanup_stale-survivors_iff_example =
    cleanup_stale-survivors_iff toy_pki 100000 crowd other silent crowd-HasKeysOnce
