-- ===== src/Server/Start.antt =====
-- The construction of `VpnServer` in src/server.py, and its addresses.
use vpn_app_ai.Prelude.{◌++◌, false, Option, none, some, [], ◌∷◌}
use vpn_app_ai.Prelude.Result.{Result, ok, ◌>>=◌}
use vpn_app_ai.Crypto.Pki.{Pki, Text}
use vpn_app_ai.Config.{Config}
use vpn_app_ai.Protocol.Control.Session.{or_empty}
use vpn_app_ai.Prelude.Texts.{codes, show_nat}
use vpn_app_ai.Ipv4.{slash, show_ip, parse_network, add_ip}
use vpn_app_ai.Routing.Pool.{IpPool, new_pool}
use vpn_app_ai.Server.State.{Server}

-- The pool of a server that names its subnet; a bad range raises.
unfoldable pub pool_for : Option Text → Option Text → Result (Option IpPool)
pool_for none range = ok none
pool_for (some []) range = ok none
pool_for (some (c ∷ cs)) range = do pool ← new_pool (c ∷ cs) (or_empty range); ok (some pool)

-- `VpnServer(config)`
unfoldable pub new_server : (k : Pki) → Config → Result (Server k)
new_server k c = do
  pool ← pool_for c.server c.ifconfig_pool
  ok (record {
    config = c;
    clients = [];
    ip_to_addr = [];
    ip_pool = pool;
    has_transport = false;
    nat_interface = none;
    effects = [];
  })

-- `_server_network`
unfoldable pub server_network : Config → Text
server_network c = elim c.server [ some (d ∷ ds) ↦ d ∷ ds | _ ↦ codes "10.8.0.0/24" ]

abbrev pub own_address : Option Text → Text
own_address (some (d ∷ ds)) = d ∷ ds
own_address _ = codes "10.8.0.1/24"

-- `server_ip`: the first address of the network with its prefix length.
unfoldable pub server_ip : Config → Result Text
server_ip c = elim c.server [
  | some (d ∷ ds) ↦ do
    net ← parse_network (d ∷ ds)
    first ← add_ip net.base 1
    ok (show_ip first ++ slash ∷ show_nat 2 net.prefixlen)
  | _ ↦ ok (own_address c.ifconfig)
]
