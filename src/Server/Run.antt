-- ===== src/Server/Run.antt =====
-- `run` and `_cleanup` of src/server.py: what the server sets up, its loop on a schedule, and what it
-- takes down. What the calls of the system answer is a parameter.
use vpn_app_ai.Prelude.{
  ℕ, ◌||◌, Bool, true, false, Option, none, some, List, [], ◌∷◌, if◌then◌else◌,
}
use vpn_app_ai.Prelude.Dict.{Dict}
use vpn_app_ai.Prelude.Result.{Exception, Result, ok, raise, Outcome, returns, raises}
use vpn_app_ai.Prelude.Exec.{Exec, ◌>>=◌, ◌>>◌, pure, modify, calls}
use vpn_app_ai.Crypto.Pki.{Pki, Text}
use vpn_app_ai.Protocol.Data.Channel.{Packages}
use vpn_app_ai.Server.State.{
  is_tcp, Addr, add_route, delete_route, tun_opened, tun_closed, forwarding_enabled,
  listener_opened, listener_closed, ip_set, mtu_set, nat_set_up, nat_torn_down, privileges_dropped,
  ClientSession, Server, emit, close_tcp_writer,
}
use vpn_app_ai.Server.Start.{server_ip, server_network}
use vpn_app_ai.Server.Loop.{Event, handle_event, tick}

-- What each call of the set-up and of the `finally` block raises. `default_interface` is what
-- get_default_interface returns.
pub record Machine : Type 0 where
  pub open_tun : Result (Unit {0})
  pub set_ip : Result (Unit {0})
  pub set_mtu : Result (Unit {0})
  pub network_route : Result (Unit {0})
  pub default_interface : Result (Option Text)
  pub setup_nat : Result (Unit {0})
  pub drop_privileges : Result (Unit {0})
  pub listen : Result (Unit {0})
  pub teardown_nat : Result (Unit {0})
  pub close_tun : Result (Unit {0})

module _ (k : Pki) where
  -- A call that may raise, and what it changes if it does not.
  abbrev pub attempt : Result (Unit {0}) → (Server k → Server k) → Exec (Server k) (Unit {0})
  attempt (ok u) change s = returns tt (change s)
  attempt (raise x) change s = raises x s

  -- `except Exception` round `setup_nat`.
  abbrev pub nat_for : Result (Unit {0}) → Text → Server k → Server k
  nat_for (ok u) i s =
      emit k (nat_set_up i (server_network s.config)) (record s { nat_interface = some i })
  nat_for (raise x) i s = s

  -- `if nat_iface`
  abbrev pub nat_on : Result (Unit {0}) → Option Text → Server k → Server k
  nat_on answer none s = s
  nat_on answer (some []) s = s
  nat_on answer (some (c ∷ cs)) s = nat_for answer (c ∷ cs) s

  -- The socket: a TCP server, or the datagram transport.
  abbrev pub listening : Server k → Server k
  listening s =
      emit k listener_opened
        (record s { has_transport = if is_tcp s.config then s.has_transport else true })

  -- `get_default_interface` and `setup_nat` with its `try`.
  abbrev pub nat_step : Machine → Exec (Server k) (Unit {0})
  nat_step m = do iface ← calls (λ _. m.default_interface); modify (nat_on m.setup_nat iface)

  -- The calls of the set-up before the NAT rule, and those behind it.
  abbrev pub first_steps : Machine → Text → List (Exec (Server k) (Unit {0}))
  first_steps m address =
      attempt m.open_tun (emit k tun_opened)
      ∷ attempt m.set_ip (emit k (ip_set address))
      ∷ attempt m.set_mtu (emit k (mtu_set 1500))
      ∷ modify (emit k forwarding_enabled)
      ∷ attempt m.network_route (λ s. emit k (add_route (server_network s.config)) s)
      ∷ []

  abbrev pub last_steps : Machine → List (Exec (Server k) (Unit {0}))
  last_steps m =
      attempt m.drop_privileges (λ s. emit k (privileges_dropped s.config.user) s)
      ∷ attempt m.listen listening
      ∷ []

  unfoldable pub in_order : List (Exec (Server k) (Unit {0})) → Exec (Server k) (Unit {0})
  in_order [] = pure tt
  in_order (x ∷ xs) = do x; in_order xs

  -- `run` up to its loop.
  unfoldable pub set_up : Machine → Exec (Server k) (Unit {0})
  unfolding in_order
  set_up m = do
    address ← calls (λ s. server_ip s.config)
    in_order (first_steps m address)
    nat_step m
    in_order (last_steps m)

  abbrev pub drop_route : Option Text → Server k → Server k
  drop_route none s = s
  drop_route (some []) s = s
  drop_route (some (c ∷ cs)) s = emit k (delete_route (c ∷ cs)) s

  -- The loop over the clients in `_cleanup`.
  unfoldable pub take_down_clients : Dict Addr (ClientSession k) → Server k → Server k
  take_down_clients [] s = s
  take_down_clients ((a, cs) ∷ rest) s =
      take_down_clients rest (close_tcp_writer k cs (drop_route cs.virtual_ip s))

  -- `teardown_nat` runs iptables and passes over its exit code, but not over what running it raises.
  abbrev pub take_down_nat : Result (Unit {0}) → Option Text → Exec (Server k) (Unit {0})
  take_down_nat answer none s = returns tt s
  take_down_nat answer (some i) s =
      attempt answer
        (λ t.
          emit k (nat_torn_down i (server_network t.config)) (record t { nat_interface = none }))
        s

  -- `_cleanup`; `delete_route` passes over every exception.
  unfoldable pub cleanup : Machine → Exec (Server k) (Unit {0})
  cleanup m s =
      let cleared = record (take_down_clients s.clients s) { clients = []; ip_to_addr = [] } in
      let unrouted = emit k (delete_route (server_network cleared.config)) cleared in
      take_down_nat m.teardown_nat unrouted.nat_interface unrouted

  abbrev pub close_if : Bool → Server k → Server k
  close_if true s = emit k listener_closed s
  close_if false s = s

  -- `if self.transport` and `if self.tcp_server`
  abbrev pub close_listener : Server k → Server k
  close_listener s = close_if (is_tcp s.config || s.has_transport) s

  -- The `finally` block: an exception in it skips the rest.
  unfoldable pub take_down : Machine → Exec (Server k) (Unit {0})
  unfolding cleanup
  take_down m = do cleanup m; attempt m.close_tun (emit k tun_closed); modify close_listener

-- A round at a time, and what happens in its sleep.
pub record Round (p : Packages) (k : Pki) : Type 0 where
  pub now : ℕ
  pub events : List (Event p k)

module _ (p : Packages) (k : Pki) where
  unfoldable pub happen_all : List (Event p k) → Server k → Server k
  happen_all [] s = s
  happen_all (x ∷ xs) s = happen_all xs (handle_event p k x s)

  -- The loop until `stop`, at the end of the schedule, or until a round raises.
  unfoldable pub serve : List (Round p k) → Exec (Server k) (Unit {0})
  serve [] = pure tt
  serve (r ∷ rounds) = do tick k r.now; modify (happen_all r.events); serve rounds

  -- The exception of a round goes on behind the `finally` block, unless the block raises another.
  abbrev pub reraise : Exception → Outcome (Server k) (Unit {0}) → Outcome (Server k) (Unit {0})
  reraise x (returns u s) = raises x s
  reraise x (raises y s) = raises y s

  abbrev pub finally : Machine → Outcome (Server k) (Unit {0}) → Outcome (Server k) (Unit {0})
  finally m (returns u s) = take_down k m s
  finally m (raises x s) = reraise x (take_down k m s)

  -- `run`
  unfoldable pub run : Machine → List (Round p k) → Exec (Server k) (Unit {0})
  run m rounds = do set_up k m; λ s. finally m (serve rounds s)
