-- ===== src/Tests/Events.antt =====
-- A server that hears of its transport, of a new client and of a packet from that client, and runs a round.
use vpn_app_ai.Prelude.{◌≡◌, refl, none, [], ◌∷◌, false}
use vpn_app_ai.Prelude.Result.{ok}
use vpn_app_ai.Protocol.Messages.{opcode_value, hard_reset_client, data_packet}
use vpn_app_ai.Server.State.{Server}
use vpn_app_ai.Server.Start.{new_server, pool_for}
use vpn_app_ai.Server.Loop.{Event, connected, datagram_received, round, handle_event}
use vpn_app_ai.Server.Linked.{IsLinked}
use vpn_app_ai.Server.Linked.Reachable.{IsReachable, constructed, next, reachable-IsLinked}
use vpn_app_ai.Tests.Toys.{toy_pki, toy_packages, options, eight}
use vpn_app_ai.Tests.Servers.{peer, env}

abbrev pub idle : Server toy_pki
idle = record {
  config = options;
  clients = [];
  ip_to_addr = [];
  ip_pool = none;
  has_transport = false;
  nat_interface = none;
  effects = [];
}

abbrev after : Event toy_packages toy_pki → Server toy_pki → Server toy_pki
after x s = handle_event toy_packages toy_pki x s

abbrev pub reset_event : Event toy_packages toy_pki
reset_event = datagram_received env (opcode_value hard_reset_client ∷ eight) peer

abbrev pub data_event : Event toy_packages toy_pki
data_event = datagram_received env (opcode_value data_packet ∷ eight) peer

pub idle_constructed : new_server toy_pki options ≡ ok idle
unfolding new_server pool_for
idle_constructed = refl

abbrev busy : Server toy_pki
busy = after (round 101000) (after data_event (after reset_event (after connected idle)))

busy-IsReachable : IsReachable toy_packages toy_pki options busy
busy-IsReachable = next (round 101000) _ (
    next data_event _
      (next reset_event _ (next connected idle (constructed idle idle_constructed))))

reachable-IsLinked_example : IsLinked toy_pki busy
reachable-IsLinked_example = reachable-IsLinked toy_packages toy_pki options busy busy-IsReachable
