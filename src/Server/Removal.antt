-- ===== src/Server/Removal.antt =====
-- `_remove_client` and `_cleanup_stale` of src/server.py: what the server forgets.
use vpn_app_ai.Prelude.{
  ℕ, Bool, true, false, Option, none, some, List, [], ◌∷◌, nat_eq, list_eq, if◌then◌else◌, ◌≡◌,
  refl, ◌||◌, ap, ◌∙◌, same_refl, arith, Bool-cases,
}
use mathlib.Core.Option.{map}
use vpn_app_ai.Prelude.Dict.{Dict, lookup, remove, lookup-remove}
use vpn_app_ai.Crypto.Pki.{Pki, Text}
use vpn_app_ai.Config.{is_set}
use vpn_app_ai.Routing.Pool.{IpPool, release}
use vpn_app_ai.Server.State.{
  Addr, addr_eq, client_id, Writer, opened, closing, ClientSession, Server, close_tcp_writer,
  close_stream, drop_mapping, drop_ip, give_back, drop_client, remove_client,
}
use vpn_app_ai.Server.Handle.{is_stale, stale_addrs, remove_clients, cleanup_stale}

unfoldable pub member : Addr → List Addr → Bool
member b [] = false
member b (a ∷ as') = addr_eq.same a b || member b as'

module _ (k : Pki) where
  pub close_stream-keeps :
      (w : Option Writer) (a : Addr) (s : Server k)
      → ((close_stream k w a s).clients ≡ s.clients)
        × ((close_stream k w a s).ip_to_addr ≡ s.ip_to_addr)
        × ((close_stream k w a s).ip_pool ≡ s.ip_pool)
        × ((close_stream k w a s).config ≡ s.config)
  close_stream-keeps none a s = (refl, refl, refl, refl)
  close_stream-keeps (some opened) a s = (refl, refl, refl, refl)
  close_stream-keeps (some closing) a s = (refl, refl, refl, refl)

  drop_mapping-keeps :
      (m : Option Addr) (ip : Text) (s : Server k)
      → ((drop_mapping k m ip s).clients ≡ s.clients)
        × ((drop_mapping k m ip s).ip_pool ≡ s.ip_pool)
        × ((drop_mapping k m ip s).config ≡ s.config)
  drop_mapping-keeps none ip s = (refl, refl, refl)
  drop_mapping-keeps (some a) ip s = (refl, refl, refl)

  pub drop_ip-keeps :
      (ip : Option Text) (s : Server k)
      → ((drop_ip k ip s).clients ≡ s.clients)
        × ((drop_ip k ip s).ip_pool ≡ s.ip_pool)
        × ((drop_ip k ip s).config ≡ s.config)
  drop_ip-keeps none s = (refl, refl, refl)
  drop_ip-keeps (some []) s = (refl, refl, refl)
  drop_ip-keeps (some (c ∷ cs)) s = drop_mapping-keeps (lookup (c ∷ cs) s.ip_to_addr) (c ∷ cs) s

  pub drop_client-lookup :
      (found : Option (ClientSession k)) (a b : Addr) (s : Server k)
      → lookup a s.clients ≡ found
      → lookup b (drop_client k found a s).clients
        ≡ (if addr_eq.same a b then none else lookup b s.clients)
  unfolding close_tcp_writer
  drop_client-lookup none a b s h =
      ground (arith, addr_eq.same_iff a b, ap (λ x. lookup x s.clients) {x = a} {y = b})
  drop_client-lookup (some cs) a b s h =
      let popped = record s { clients = remove a s.clients } in
      let unrouted = drop_ip k cs.virtual_ip popped in
      let given = record unrouted { ip_pool = give_back k cs unrouted.ip_pool } in
      ap (lookup b)
        ((close_stream-keeps cs.writer cs.addr given).0 ∙ (drop_ip-keeps cs.virtual_ip popped).0)
      ∙ lookup-remove a b s.clients

  -- Removing a client drops it and no other; removing an address that is no client changes nothing.
  pub remove_client-lookup :
      (a b : Addr) (s : Server k)
      → lookup b (remove_client k a s).clients
        ≡ (if addr_eq.same a b then none else lookup b s.clients)
  unfolding remove_client
  remove_client-lookup a b s = drop_client-lookup (lookup a s.clients) a b s refl

  drop_mapping-lookup :
      (m : Option Addr) (ip : Text) (s : Server k)
      → lookup ip s.ip_to_addr ≡ m
      → lookup ip (drop_mapping k m ip s).ip_to_addr ≡ none
  drop_mapping-lookup none ip s h = h
  drop_mapping-lookup (some a) ip s h =
      ground (arith, lookup-remove ip ip s.ip_to_addr, same_refl ip)

  give_back-release :
      (cs : ClientSession k) (pool : Option IpPool)
      → is_set cs.virtual_ip ≡ true
      → give_back k cs pool ≡ map (λ q. release q (client_id cs.addr)) pool
  give_back-release cs none h = refl
  give_back-release cs (some q) h = ground (arith, h)

  drop_client-frees :
      (old : ClientSession k) (a : Addr) (c : ℕ) (ip : Text) (s : Server k)
      → let cs = record old { virtual_ip = some (c ∷ ip) } in
        let t = drop_client k (some cs) a s in
        (lookup (c ∷ ip) t.ip_to_addr ≡ none)
        × (t.ip_pool ≡ map (λ q. release q (client_id cs.addr)) s.ip_pool)
  unfolding close_tcp_writer
  drop_client-frees old a c ip s =
      let cs = record old { virtual_ip = some (c ∷ ip) } in
      let popped = record s { clients = remove a s.clients } in
      let unrouted = drop_ip k cs.virtual_ip popped in
      let given = record unrouted { ip_pool = give_back k cs unrouted.ip_pool } in
      let closed = close_stream-keeps cs.writer cs.addr given in
      (
        ap (lookup (c ∷ ip)) closed.1
            ∙ drop_mapping-lookup (lookup (c ∷ ip) s.ip_to_addr) (c ∷ ip) popped refl,
        closed.2
            ∙ ap (give_back k cs) (drop_ip-keeps cs.virtual_ip popped).1
            ∙ give_back-release cs s.ip_pool refl,
      )

  -- A removed client's address leaves the routing table, and its place in the pool is given back.
  pub remove_client-frees :
      (a : Addr) (cs : ClientSession k) (c : ℕ) (ip : Text) (s : Server k)
      → lookup a s.clients ≡ some cs
      → cs.virtual_ip ≡ some (c ∷ ip)
      → (lookup (c ∷ ip) (remove_client k a s).ip_to_addr ≡ none)
        × ((remove_client k a s).ip_pool ≡ map (λ q. release q (client_id cs.addr)) s.ip_pool)
  unfolding remove_client
  remove_client-frees a cs c ip s h v =
      let as_given : lookup a s.clients ≡ some (record cs { virtual_ip = some (c ∷ ip) }) =
        h ∙ ap (λ (x : Option Text). some (record cs { virtual_ip = x })) v in
      rw as_given (drop_client-frees cs a c ip s)

  remove_clients-lookup :
      (as' : List Addr) (b : Addr) (s : Server k) (cs : ClientSession k)
      → lookup b (remove_clients k as' s).clients ≡ some cs
      → (lookup b s.clients ≡ some cs) × (member b as' ≡ false)
  unfolding remove_clients member
  remove_clients-lookup [] b s cs h = (h, refl)
  remove_clients-lookup (a ∷ as') b s cs h =
      let (found, absent) = remove_clients-lookup as' b (remove_client k a s) cs h in
      ground (arith, found, absent, remove_client-lookup a b s, Bool-cases (addr_eq.same a b))

  -- A stale client's address is among those to remove.
  stale_addrs-member :
      (timeout now : ℕ) (d : Dict Addr (ClientSession k)) (b : Addr) (cs : ClientSession k)
      → lookup b d ≡ some cs
      → member b (stale_addrs k timeout now d) ≡ false
      → is_stale k timeout now cs ≡ false
  unfolding lookup member stale_addrs
  stale_addrs-member timeout now [] b cs h absent = cc
  stale_addrs-member timeout now ((a, c) ∷ d) b cs h absent = ground (
    arith,
    stale_addrs-member timeout now d b cs,
    Bool-cases (addr_eq.same a b),
    Bool-cases (is_stale k timeout now c),
  )

  -- What is left behind `_cleanup_stale` was there before, as it was, and is not stale.
  pub cleanup_stale-survivors :
      (now : ℕ) (s : Server k) (b : Addr) (cs : ClientSession k)
      → lookup b (cleanup_stale k now s).clients ≡ some cs
      → (lookup b s.clients ≡ some cs) × (is_stale k s.config.keepalive_timeout now cs ≡ false)
  unfolding cleanup_stale
  cleanup_stale-survivors now s b cs h =
      let timeout = s.config.keepalive_timeout in
      let (found, absent) = remove_clients-lookup (stale_addrs k timeout now s.clients) b s cs h in
      (found, stale_addrs-member timeout now s.clients b cs found absent)
