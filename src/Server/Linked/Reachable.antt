-- ===== src/Server/Linked/Reachable.antt =====
-- The events of the server of src/server.py: its tables hang together behind every sequence of them.
use vpn_app_ai.Prelude.{
  Bool-cases, arith, true, none, ◌≡◌, refl, sym, ap, subst, ◌∙◌, false, Option, some, [], ◌∷◌,
  nat_eq, list_eq,
}
use vpn_app_ai.Prelude.Dict.{lookup}
use vpn_app_ai.Prelude.Result.{>>=-eq-ok, ok, state}
use vpn_app_ai.Prelude.Exec.{pure}
use vpn_app_ai.Crypto.Pki.{Pki, Text}
use vpn_app_ai.Protocol.Data.Channel.{Packages}
use vpn_app_ai.Config.{Config}
use vpn_app_ai.Protocol.Control.Session.{or_empty}
use vpn_app_ai.Server.State.{
  is_tcp, Addr, addr_eq, ClientSession, opened, Server, Surroundings, remove_client,
  get_or_create_session,
}
use vpn_app_ai.Server.Start.{pool_for, new_server}
use vpn_app_ai.Server.Loop.{
  connection_made, accept_tcp, Event, connected, datagram_received, tun_readable, round,
  tcp_accepted, tcp_closed, handle_event,
}
use vpn_app_ai.Server.Resources.{Resource, route, nat, tun, listener, held, held_from, is_owned}
use vpn_app_ai.Server.Pooled.{IsSoundPool, IsPooled-exclusive}
use vpn_app_ai.Routing.Pool.{IpPool, new_pool}
use vpn_app_ai.Routing.Pool.Soundness.{new_pool-IsSound}
use vpn_app_ai.Routing.Pool.Range.{new_pool-IsInRange}
use vpn_app_ai.Server.Linked.{IsLinked, HasTables-IsLinked}
use vpn_app_ai.Server.Linked.Datagrams.{found_or_new-IsLinked, handle_udp_data-IsLinked}
use vpn_app_ai.Server.Linked.Removals.{drop_client-IsLinked}
use vpn_app_ai.Server.Linked.Rounds.{on_tun_readable-IsLinked, tick-IsLinked}

module _ (p : Packages) (k : Pki) where
  accept_tcp-IsLinked :
      (env : Surroundings k) (addr : Addr) (s : Server k)
      → IsLinked k s
      → IsLinked k (state (accept_tcp k env addr s))
  unfolding accept_tcp get_or_create_session
  accept_tcp-IsLinked env addr s h =
      found_or_new-IsLinked k env addr (some opened) (lookup addr s.clients) (λ c. pure tt) s refl h
        (λ c t found linked. linked)

  connected_owned :
      (s : Server k) (r : Resource)
      → is_owned k s r ≡ true
      → is_owned k (record s { has_transport = true }) r ≡ true
  connected_owned s (route ip) o = o
  connected_owned s (nat i n) o = o
  connected_owned s tun o = o
  connected_owned s listener o = ground (arith, Bool-cases (is_tcp s.config))

  pub handle_event-IsLinked :
      (x : Event p k) (s : Server k) → IsLinked k s → IsLinked k (handle_event p k x s)
  unfolding handle_event remove_client connection_made
  handle_event-IsLinked connected s h =
      HasTables-IsLinked k s _
        (record {
          same_clients = refl;
          same_ips = refl;
          same_pool = refl;
          same_held = λ r. refl;
          keeps_owned = λ r o. connected_owned s r o;
        })
        h
  handle_event-IsLinked (datagram_received env bytes addr) s h =
      handle_udp_data-IsLinked p k env bytes addr s h
  handle_event-IsLinked (tun_readable packet nonces) s h =
      on_tun_readable-IsLinked p k packet nonces s h
  handle_event-IsLinked (round now) s h = tick-IsLinked p k now s h
  handle_event-IsLinked (tcp_accepted env addr) s h = accept_tcp-IsLinked env addr s h
  handle_event-IsLinked (tcp_closed addr) s h =
      drop_client-IsLinked k (lookup addr s.clients) addr s refl h

  -- The servers that a sequence of events leads to, from one that was just constructed.
  pub data IsReachable (c : Config) : Server k → Type 0 where
    constructed : (s : Server k) → new_server k c ≡ ok s → IsReachable c s
    next : (x : Event p k) (s : Server k) → IsReachable c s → IsReachable c (handle_event p k x s)

  empty-IsLinked :
      (s : Server k)
      → s.clients ≡ []
      → s.ip_to_addr ≡ []
      → s.effects ≡ []
      → IsSoundPool s.ip_pool
      → IsLinked k s
  unfolding lookup held_from
  empty-IsLinked s no_clients no_ips no_effects sound = record {
    at_address =
        λ a cs f. let g : lookup a [] ≡ some cs = ap (lookup a) (sym no_clients) ∙ f in cc g;
    mapped = λ ip a f. let g : lookup ip [] ≡ some a = ap (lookup ip) (sym no_ips) ∙ f in cc g;
    no_empty = ap (lookup []) no_ips;
    unassigned =
        λ a cs f n. let g : lookup a [] ≡ some cs = ap (lookup a) (sym no_clients) ∙ f in cc g;
    accounted =
        λ r e. let nothing : held r [] ≡ true = ap (held r) (sym no_effects) ∙ e in cc nothing;
    pooled = record {
      sound = sound;
      recorded = λ a cs ip f has.
          let g : lookup a [] ≡ some cs = ap (lookup a) (sym no_clients) ∙ f in cc g;
    };
  }

  pool_for-IsSoundPool :
      (subnet range : Option Text) (pool : Option IpPool)
      → pool_for subnet range ≡ ok pool
      → IsSoundPool pool
  unfolding pool_for
  pool_for-IsSoundPool none range pool e = subst IsSoundPool {x = none} (cc e) tt
  pool_for-IsSoundPool (some []) range pool e = subst IsSoundPool {x = none} (cc e) tt
  pool_for-IsSoundPool (some (x ∷ xs)) range pool e =
      let (p, made, e') = >>=-eq-ok (new_pool (x ∷ xs) (or_empty range)) (λ p. ok (some p)) e in
      subst IsSoundPool {x = some p} (cc e') (
        new_pool-IsSound (x ∷ xs) (or_empty range) p made,
        new_pool-IsInRange (x ∷ xs) (or_empty range) p made,
      )

  pub new_server-IsLinked : (c : Config) (s : Server k) → new_server k c ≡ ok s → IsLinked k s
  unfolding new_server
  new_server-IsLinked c s e =
      let (pool, e1, e2) =
        >>=-eq-ok (pool_for c.server c.ifconfig_pool)
          (λ pool. ok (record {
            config = c;
            clients = [];
            ip_to_addr = [];
            ip_pool = pool;
            has_transport = false;
            nat_interface = none;
            effects = [];
          }))
          e in
      empty-IsLinked s (cc e2) (cc e2) (cc e2) (
        subst IsSoundPool {x = pool} (cc e2)
          (pool_for-IsSoundPool c.server c.ifconfig_pool pool e1))

  -- Behind every sequence of events, each client is filed under its own address, each address in
  -- `ip_to_addr` belongs to the client that it leads to, no address is the empty text, a client
  -- without a channel has no address, and what is held of routes, NAT rules and sockets the state
  -- knows of: a route belongs to an address in `ip_to_addr` or to the server's network. The address of
  -- each client is on record in the pool as the client's.
  pub reachable-IsLinked : (c : Config) (s : Server k) → IsReachable c s → IsLinked k s
  reachable-IsLinked c s (constructed s' e) = new_server-IsLinked c s e
  reachable-IsLinked c s (next x t r) = handle_event-IsLinked x t (reachable-IsLinked c t r)

  -- Behind every sequence of events, no two clients of the server have one virtual address.
  pub exclusive_addresses :
      (c : Config) (s : Server k) (a b : Addr) (first second : ClientSession k) (ip : Text)
      → IsReachable c s
      → lookup a s.clients ≡ some first
      → lookup b s.clients ≡ some second
      → first.virtual_ip ≡ some ip
      → second.virtual_ip ≡ some ip
      → a ≡ b
  exclusive_addresses c s a b first second ip r found found' has has' =
      IsPooled-exclusive k s.ip_pool s.clients a b first second ip (reachable-IsLinked c s r).pooled
        found found' has has'
