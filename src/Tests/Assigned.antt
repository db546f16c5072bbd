-- ===== src/Tests/Assigned.antt =====
-- A server that gives a client an address.
use vpn_app_ai.Prelude.Tests.{list_beq}
use vpn_app_ai.Prelude.Dict.{lookup, insert}
use vpn_app_ai.Prelude.NatSet.{add, minimum, range}
use vpn_app_ai.Bytes.{from_bytes, unpack}
use vpn_app_ai.Ipv4.{show_ip, parse_network, add_ip, sub_ip}
use vpn_app_ai.Routing.Pool.{new_pool, allocate}
use vpn_app_ai.Server.State.{sync_send_to, send_all, get_or_create_session}
use vpn_app_ai.Server.Start.{pool_for, new_server}
use vpn_app_ai.Server.Handle.{
  control_handler, on_session, announce_ip, assign_ip_to_client, open_channel, start_channel,
  handle_message, handle_control, handle_reset, handle_known, handle_udp_data,
}
use vpn_app_ai.Server.Loop.{handle_event}
use vpn_app_ai.Protocol.Packet.{encode_packet, decode_packet}
use vpn_app_ai.Protocol.Messages.{opcode_value, opcode_of, message_value, message_of}
use vpn_app_ai.Protocol.Control.Session.{new_session, is_established, signature_passes}
use vpn_app_ai.Protocol.Control.Server.{
  or_error, server_handle_reset, check_client_finished, server_handle_client_finished,
}
use vpn_app_ai.Protocol.Data.Channel.{new_channel}
use vpn_app_ai.Protocol.Replay.{new_window}
use vpn_app_ai.Prelude.{◌≡◌, refl, none, some, [], ◌∷◌, ◌++◌, nat_eq, list_eq, false}
use vpn_app_ai.Prelude.Dict.{lookup, insert}
use vpn_app_ai.Prelude.Texts.{codes}
use vpn_app_ai.Prelude.Result.{ok}
use vpn_app_ai.Config.{Config}
use vpn_app_ai.Protocol.Messages.{opcode_value, control, client_finished, message_value}
use vpn_app_ai.Server.State.{addr_eq, ClientSession, Server}
use vpn_app_ai.Server.Start.{new_server}
use vpn_app_ai.Server.Loop.{Event, datagram_received, handle_event}
use vpn_app_ai.Server.Linked.Reachable.{IsReachable, constructed, next, exclusive_addresses}
use vpn_app_ai.Routing.Pool.{IpPool}
use vpn_app_ai.Tests.Toys.{toy_pki, toy_packages, options, eight}
use vpn_app_ai.Tests.Servers.{peer, env}
use vpn_app_ai.Tests.Events.{reset_event}

abbrev subnet_options : Config
subnet_options = record options { server = some (codes "10.8.0.0/30") }

-- The addresses of 10.8.0.0/30 between the server's and the broadcast address.
abbrev pool : IpPool
pool = record {
  network = record { base = 168296448; prefixlen = 30 };
  server_ip = codes "10.8.0.1";
  available = 168296450 ∷ [];
  allocated = [];
  allocated_by_int = [];
}

abbrev start : Server toy_pki
start = record {
  config = subnet_options;
  clients = [];
  ip_to_addr = [];
  ip_pool = some pool;
  has_transport = false;
  nat_interface = none;
  effects = [];
}

start_constructed : new_server toy_pki subnet_options ≡ ok start
unfolding add range show_ip parse_network add_ip sub_ip new_pool pool_for new_server
start_constructed = refl

abbrev finished_event : Event toy_packages toy_pki
finished_event =
    datagram_received env
      (opcode_value control ∷ eight ++ message_value client_finished ∷ 0 ∷ 0 ∷ []) peer

abbrev behind : Event toy_packages toy_pki → Server toy_pki → Server toy_pki
behind x s = handle_event toy_packages toy_pki x s

abbrev joined : Server toy_pki
joined = behind finished_event (behind reset_event start)

joined-IsReachable : IsReachable toy_packages toy_pki subnet_options joined
joined-IsReachable =
    next finished_event _ (next reset_event _ (constructed start start_constructed))

newcomer :
    (c : ClientSession toy_pki) × (lookup peer joined.clients ≡ some c)
    × (c.virtual_ip ≡ some (codes "10.8.0.2"))
unfolding list_beq lookup insert minimum from_bytes unpack allocate sync_send_to send_all
    get_or_create_session control_handler on_session announce_ip assign_ip_to_client open_channel
    start_channel handle_message handle_control handle_reset handle_known handle_udp_data
    handle_event encode_packet decode_packet opcode_of message_value message_of new_session
    is_established signature_passes or_error server_handle_reset check_client_finished
    server_handle_client_finished new_channel new_window show_ip
newcomer = (_, refl, refl)

exclusive_addresses_example : peer ≡ peer
exclusive_addresses_example =
    let (c, found, has) = newcomer in
    exclusive_addresses toy_packages toy_pki subnet_options joined peer peer c c (codes "10.8.0.2")
      joined-IsReachable found found has has
