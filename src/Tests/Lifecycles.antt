-- ===== src/Tests/Lifecycles.antt =====
-- A server from its set-up to its end.
use vpn_app_ai.Prelude.{◌≡◌, refl, none, some, List, [], ◌∷◌, true, false}
use vpn_app_ai.Prelude.Tests.{list_beq}
use vpn_app_ai.Prelude.Texts.{codes}
use vpn_app_ai.Prelude.Result.{ok, raise, os_error, returns, raises, state}
use vpn_app_ai.Crypto.Pki.{Text}
use vpn_app_ai.Server.State.{
  Server, tun_opened, forwarding_enabled, ip_set, mtu_set, add_route, nat_set_up,
  privileges_dropped, listener_opened,
}
use vpn_app_ai.Server.Start.{server_ip, server_network}
use vpn_app_ai.Server.Resources.{Resource, nat, route, tun, held, held_from}
use vpn_app_ai.Server.Loop.{connected}
use vpn_app_ai.Server.Run.{Machine, Round, set_up, take_down, run}
use vpn_app_ai.Server.Linked.Raising.{IsLasting, raising_teardown-keeps}
use vpn_app_ai.Server.Linked.Running.{run-releases, busy_port, busy_port-keeps}
use vpn_app_ai.Tests.Toys.{toy_pki, toy_packages, options}
use vpn_app_ai.Tests.Events.{idle, idle_constructed, reset_event, data_event}

abbrev machine : Machine
machine = record {
  open_tun = ok tt;
  set_ip = ok tt;
  set_mtu = ok tt;
  network_route = ok tt;
  default_interface = ok (some (codes "eth0"));
  setup_nat = ok tt;
  drop_privileges = ok tt;
  listen = ok tt;
  teardown_nat = ok tt;
  close_tun = ok tt;
}

abbrev network : Text
network = codes "10.8.0.0/24"

abbrev address : Text
address = codes "10.8.0.1/24"

abbrev ready : Server toy_pki
ready = record idle {
  has_transport = true;
  nat_interface = some (codes "eth0");
  effects =
      tun_opened
      ∷ ip_set address
      ∷ mtu_set 1500
      ∷ forwarding_enabled
      ∷ add_route network
      ∷ nat_set_up (codes "eth0") network
      ∷ privileges_dropped none
      ∷ listener_opened
      ∷ [];
}

set_up_ready : set_up toy_pki machine idle ≡ returns tt ready
unfolding set_up server_ip server_network list_beq
set_up_ready = refl

holds_nat : held (nat (codes "eth0") network) ready.effects ≡ true
unfolding held_from list_beq
holds_nat = refl

abbrev schedule : List (Round toy_packages toy_pki)
schedule =
    record { now = 99000; events = connected ∷ reset_event ∷ data_event ∷ [] }
    ∷ record { now = 101000; events = [] }
    ∷ []

run-releases_example :
    held
      (nat (codes "eth0") network)
      (state (run toy_packages toy_pki machine schedule idle)).effects
    ≡ false
run-releases_example =
    run-releases toy_packages toy_pki options machine schedule idle ready idle_constructed
      set_up_ready refl refl (nat (codes "eth0") network)

address_known : server_ip options ≡ ok address
unfolding server_ip
address_known = refl

busy_port-keeps_example :
    (t : Server toy_pki) × (run toy_packages toy_pki
        (busy_port (codes "eth0") os_error)
        schedule
        idle
      ≡ raises os_error t)
    × (held (nat (codes "eth0") (server_network options)) t.effects ≡ true)
    × (held (route (server_network options)) t.effects ≡ true)
    × (held tun t.effects ≡ true)
busy_port-keeps_example =
    busy_port-keeps toy_packages toy_pki options schedule b'e' (codes "th0") os_error address idle
      idle_constructed address_known

-- A machine on which `teardown_nat` raises.
abbrev unruly : Machine
unruly = record machine { teardown_nat = raise os_error }

raising_teardown-keeps_example :
    (t : Server toy_pki) × (take_down toy_pki unruly ready ≡ raises os_error t)
    × (t.nat_interface ≡ some (codes "eth0"))
    × ((r : Resource) → IsLasting toy_pki r → held r t.effects ≡ held r ready.effects)
raising_teardown-keeps_example =
    raising_teardown-keeps toy_pki unruly ready (codes "eth0") os_error refl refl
