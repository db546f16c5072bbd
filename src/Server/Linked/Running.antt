-- ===== src/Server/Linked/Running.antt =====
-- `run` of src/server.py from its set-up to its end.
use vpn_app_ai.Prelude.{
  ℕ, ◌≡◌, refl, sym, ap, ◌∙◌, true, false, Option, none, some, List, [], ◌∷◌, nat_eq, list_eq,
  list_beq_iff, arith,
}
use vpn_app_ai.Prelude.Result.{>>=-eq-ok, Exception, ok, raise, Outcome, returns, raises, state}
use vpn_app_ai.Prelude.Exec.{bind-state}
use vpn_app_ai.Crypto.Pki.{Pki, Text}
use vpn_app_ai.Config.{Config}
use vpn_app_ai.Protocol.Data.Channel.{Packages}
use vpn_app_ai.Server.State.{
  addr_eq, tun_opened, ip_set, mtu_set, forwarding_enabled, add_route, nat_set_up,
  privileges_dropped, Server,
}
use vpn_app_ai.Routing.Pool.{IpPool}
use vpn_app_ai.Server.Start.{server_network, server_ip, pool_for, new_server}
use vpn_app_ai.Server.Resources.{Resource, route, nat, tun, held, held_from}
use vpn_app_ai.Server.Run.{Machine, set_up, in_order, Round, serve, reraise, finally, run}
use vpn_app_ai.Server.Linked.Reachable.{new_server-IsLinked}
use vpn_app_ai.Server.Linked.Lifecycle.{set_up-IsLinked, serve-IsLinked}
use vpn_app_ai.Server.Linked.Release.{downed, take_down_returns, take_down-releases}

-- The server that `new_server` gives, with its pool.
abbrev fresh : (k : Pki) → Config → Option IpPool → Server k
fresh k c pool = record {
  config = c;
  clients = [];
  ip_to_addr = [];
  ip_pool = pool;
  has_transport = false;
  nat_interface = none;
  effects = [];
}

new_server-fresh :
    (k : Pki) (c : Config) (s : Server k)
    → new_server k c ≡ ok s
    → (pool : Option IpPool) × (fresh k c pool ≡ s)
unfolding new_server
new_server-fresh k c s e =
    let (pool, e1, e2) =
      >>=-eq-ok (pool_for c.server c.ifconfig_pool) (λ pool. ok (fresh k c pool)) e in
    (pool, cc e2)

-- A machine on which everything gets through but the socket.
abbrev pub busy_port : Text → Exception → Machine
busy_port iface x = record {
  open_tun = ok tt;
  set_ip = ok tt;
  set_mtu = ok tt;
  network_route = ok tt;
  default_interface = ok (some iface);
  setup_nat = ok tt;
  drop_privileges = ok tt;
  listen = raise x;
  teardown_nat = ok tt;
  close_tun = ok tt;
}

module _ (p : Packages) (k : Pki) where
  finally-state :
      (m : Machine) (o : Outcome (Server k) (Unit {0}))
      → m.teardown_nat ≡ ok tt
      → m.close_tun ≡ ok tt
      → state (finally p k m o) ≡ downed k (state o)
  finally-state m (returns u s) torn closed =
      ap (λ r. state r) (take_down_returns k m s torn closed)
  finally-state m (raises x s) torn closed =
      ap (λ r. state (reraise p k x r)) (take_down_returns k m s torn closed)

  -- A server whose set-up gets through has called, when `run` ends by the end of the schedule or by
  -- an exception in a round, for everything to be given back that its calls have taken: every route
  -- to a client and the one to its network, the NAT rule, the socket and the TUN device. That holds
  -- where neither `teardown_nat` nor closing the TUN device raises; whether the system does what it
  -- is called for is not looked at.
  pub run-releases :
      (c : Config) (m : Machine) (rounds : List (Round p k)) (s t : Server k)
      → new_server k c ≡ ok s
      → set_up k m s ≡ returns tt t
      → m.teardown_nat ≡ ok tt
      → m.close_tun ≡ ok tt
      → (r : Resource) → held r (state (run p k m rounds s)).effects ≡ false
  unfolding run
  run-releases c m rounds s t built ready torn closed r =
      let (pool, same) = new_server-fresh k c s built in
      let linked =
        set_up-IsLinked k m s (new_server-IsLinked p k c s built)
          (sym (ap (λ (v : Server k). v.nat_interface) same)) in
      bind-state (λ (v : Server k). held r v.effects ≡ false) (set_up k m)
        (λ u v. finally p k m (serve p k rounds v)) s
        (λ u v e.
          ap (λ (w : Server k). held r w.effects) (finally-state m (serve p k rounds v) torn closed)
          ∙ take_down-releases k _ (serve-IsLinked p k rounds v (rw e at linked)) r)
        (λ x v e. cc (e, ready))

  -- What a busy port leaves behind.
  abbrev stranded : Config → Option IpPool → Text → Text → Server k
  stranded c pool iface address = record (fresh k c pool) {
    nat_interface = some iface;
    effects =
        tun_opened
        ∷ ip_set address
        ∷ mtu_set 1500
        ∷ forwarding_enabled
        ∷ add_route (server_network c)
        ∷ nat_set_up iface (server_network c)
        ∷ privileges_dropped c.user
        ∷ [];
  }

  run-stranded :
      (c : Config) (pool : Option IpPool) (rounds : List (Round p k)) (i : ℕ) (iface : Text)
      (x : Exception) (address : Text)
      → server_ip c ≡ ok address
      → run p k (busy_port (i ∷ iface) x) rounds (fresh k c pool)
        ≡ raises x (stranded c pool (i ∷ iface) address)
  unfolding run set_up in_order server_ip server_network
  run-stranded c pool rounds i iface x address e = rw e refl

  stranded-held :
      (c : Config) (pool : Option IpPool) (iface address : Text)
      → (held (nat iface (server_network c)) (stranded c pool iface address).effects ≡ true)
        × (held (route (server_network c)) (stranded c pool iface address).effects ≡ true)
        × (held tun (stranded c pool iface address).effects ≡ true)
  unfolding held_from
  stranded-held c pool iface address =
      let net = server_network c in
      let i = (list_beq_iff iface iface).1 refl in
      let n = (list_beq_iff net net).1 refl in (ground (arith, i, n), ground (arith, n), refl)

  -- Where everything gets through but the socket, `run` raises with the NAT rule, the route to its
  -- network and the TUN device in place.
  pub busy_port-keeps :
      (c : Config) (rounds : List (Round p k)) (i : ℕ) (iface : Text) (x : Exception)
      (address : Text) (s : Server k)
      → new_server k c ≡ ok s
      → server_ip c ≡ ok address
      → (t : Server k) × (run p k (busy_port (i ∷ iface) x) rounds s ≡ raises x t)
        × (held (nat (i ∷ iface) (server_network c)) t.effects ≡ true)
        × (held (route (server_network c)) t.effects ≡ true)
        × (held tun t.effects ≡ true)
  busy_port-keeps c rounds i iface x address s built e =
      let (pool, same) = new_server-fresh k c s built in
      let (nat_held, route_held, tun_held) = stranded-held c pool (i ∷ iface) address in
      (
        stranded c pool (i ∷ iface) address,
        ap (run p k (busy_port (i ∷ iface) x) rounds) (sym same)
            ∙ run-stranded c pool rounds i iface x address e,
        nat_held,
        route_held,
        tun_held,
      )
