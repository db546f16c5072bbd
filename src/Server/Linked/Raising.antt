-- ===== src/Server/Linked/Raising.antt =====
-- The `finally` block of `run` in src/server.py where `teardown_nat` raises.
use vpn_app_ai.Prelude.{◌≡◌, refl, ap, ◌∙◌, Option, none, some, [], ◌∷◌, list_eq}
use vpn_app_ai.Prelude.Dict.{Dict}
use vpn_app_ai.Prelude.Result.{Exception, Result, ok, raise, raises}
use vpn_app_ai.Crypto.Pki.{Pki, Text}
use vpn_app_ai.Server.State.{
  Addr, Writer, opened, closing, delete_route, close_writer, ClientSession, Server, emit,
  close_stream, close_tcp_writer,
}
use vpn_app_ai.Server.Start.{server_network}
use vpn_app_ai.Server.Resources.{Resource, route, nat, tun, listener, held, held-append}
use vpn_app_ai.Server.Run.{Machine, drop_route, take_down_clients, cleanup, take_down}
use vpn_app_ai.Server.Linked.Release.{cleared, unrouted, rest_of, take_down_clients-Falls}

module _ (k : Pki) where
  -- No route.
  abbrev pub IsLasting : Resource → Type 0
  IsLasting (route ip) = ⊥
  IsLasting _ = Unit {0}

  delete_route-keeps :
      (r : Resource) (ip : Text) (s : Server k)
      → IsLasting r
      → held r (emit k (delete_route ip) s).effects ≡ held r s.effects
  delete_route-keeps (route a) ip s h = absurd h
  delete_route-keeps (nat i n) ip s h = held-append (nat i n) s.effects (delete_route ip)
  delete_route-keeps tun ip s h = held-append tun s.effects (delete_route ip)
  delete_route-keeps listener ip s h = held-append listener s.effects (delete_route ip)

  drop_route-keeps :
      (r : Resource) (v : Option Text) (s : Server k)
      → IsLasting r
      → held r (drop_route k v s).effects ≡ held r s.effects
  drop_route-keeps r none s h = refl
  drop_route-keeps r (some []) s h = refl
  drop_route-keeps r (some (c ∷ cs)) s h = delete_route-keeps r (c ∷ cs) s h

  close_stream-held :
      (r : Resource) (w : Option Writer) (a : Addr) (s : Server k)
      → held r (close_stream k w a s).effects ≡ held r s.effects
  close_stream-held r none a s = refl
  close_stream-held r (some opened) a s = held-append r s.effects (close_writer a)
  close_stream-held r (some closing) a s = refl

  take_down_clients-keeps :
      (r : Resource) (l : Dict Addr (ClientSession k)) (s : Server k)
      → IsLasting r
      → held r (take_down_clients k l s).effects ≡ held r s.effects
  unfolding take_down_clients close_tcp_writer
  take_down_clients-keeps r [] s h = refl
  take_down_clients-keeps r ((a, cs) ∷ rest) s h =
      let u = drop_route k cs.virtual_ip s in
      take_down_clients-keeps r rest (close_stream k cs.writer cs.addr u) h
      ∙ close_stream-held r cs.writer cs.addr u
      ∙ drop_route-keeps r cs.virtual_ip s h

  rest_raises :
      (torn closed : Result (Unit {0})) (j : Option Text) (i : Text) (x : Exception) (s : Server k)
      → j ≡ some i
      → torn ≡ raise x
      → rest_of k torn closed j s ≡ raises x s
  rest_raises torn closed none i x s e f = cc e
  rest_raises (ok u) closed (some j) i x s e f = cc f
  rest_raises (raise y) closed (some j) i x s e f =
      let same : y ≡ x = cc f in ap (λ (z : Exception). raises z s) same

  -- Where `teardown_nat` raises, the `finally` block raises the same at once: the NAT rule, the
  -- socket and the TUN device, as far as they are held, are still held, and the server still has its
  -- NAT interface on record.
  pub raising_teardown-keeps :
      (m : Machine) (s : Server k) (i : Text) (x : Exception)
      → s.nat_interface ≡ some i
      → m.teardown_nat ≡ raise x
      → (t : Server k) × (take_down k m s ≡ raises x t)
        × (t.nat_interface ≡ some i)
        × ((r : Resource) → IsLasting r → held r t.effects ≡ held r s.effects)
  unfolding take_down cleanup
  raising_teardown-keeps m s i x has_nat raising =
      let kept : (unrouted k s).nat_interface ≡ some i =
        (take_down_clients-Falls k s.clients s).same_nat ∙ has_nat in
      (
        unrouted k s,
        rest_raises m.teardown_nat m.close_tun (unrouted k s).nat_interface i x (unrouted k s) kept
            raising,
        kept,
        λ r lasting.
            delete_route-keeps r (server_network (cleared k s).config) (cleared k s) lasting
            ∙ take_down_clients-keeps r s.clients s lasting,
      )
