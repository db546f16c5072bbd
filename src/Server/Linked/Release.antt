-- ===== src/Server/Linked/Release.antt =====
-- `_cleanup` and the `finally` block of `run` in src/server.py: everything is given back.
use vpn_app_ai.Prelude.{
  ℕ, ◌≡◌, refl, sym, ap, ap₂, ◌∙◌, inl, inr, ◌&&◌, ◌||◌, Bool, true, false, Option, none, some, [],
  ◌∷◌, nat_eq, list_eq, list_beq, list_beq_iff, if◌then◌else◌, arith, Bool-cases, Option-cases,
}
use vpn_app_ai.Prelude.Dict.{Dict, lookup}
use vpn_app_ai.Prelude.Exec.{Exec, ◌>>◌, modify}
use vpn_app_ai.Prelude.Result.{Result, ok, raise, returns, state}
use vpn_app_ai.Crypto.Pki.{Pki, Text}
use vpn_app_ai.Config.{Config}
use vpn_app_ai.Server.State.{
  is_tcp, Addr, addr_eq, Writer, opened, closing, Effect, delete_route, close_writer, tun_closed,
  listener_closed, nat_torn_down, ClientSession, Server, emit, close_stream, close_tcp_writer,
}
use vpn_app_ai.Server.Start.{server_network}
use vpn_app_ai.Server.Resources.{
  Resource, route, nat, tun, listener, held, held_after, held-append, is_owned, is_named,
}
use vpn_app_ai.Server.Run.{
  drop_route, take_down_clients, take_down_nat, cleanup, close_if, close_listener, take_down,
  attempt, Machine,
}
use vpn_app_ai.Server.Linked.{IsLinked}

module _ (k : Pki) where
  -- A later server that holds nothing new and has the same options, NAT rule and socket.
  pub record Falls (s t : Server k) : Type 0 where
    holds_less : (r : Resource) → held r t.effects ≡ true → held r s.effects ≡ true
    same_config : t.config ≡ s.config
    pub same_nat : t.nat_interface ≡ s.nat_interface
    same_transport : t.has_transport ≡ s.has_transport

  Falls-trans : (s t u : Server k) → Falls s t → Falls t u → Falls s u
  Falls-trans s t u a b = record {
    holds_less = λ r e. a.holds_less r (b.holds_less r e);
    same_config = b.same_config ∙ a.same_config;
    same_nat = b.same_nat ∙ a.same_nat;
    same_transport = b.same_transport ∙ a.same_transport;
  }

  Falls-refl : (s : Server k) → Falls s s
  Falls-refl s = record {
    holds_less = λ r e. e;
    same_config = refl;
    same_nat = refl;
    same_transport = refl;
  }

  -- An effect that takes nothing.
  emit-Falls :
      (x : Effect) (s : Server k)
      → ((r : Resource) (b : Bool) → held_after r x b ≡ true → b ≡ true)
      → Falls s (emit k x s)
  emit-Falls x s less = record {
    holds_less = λ r e. less r (held r s.effects) (sym (held-append r s.effects x) ∙ e);
    same_config = refl;
    same_nat = refl;
    same_transport = refl;
  }

  -- `if b then false else c` is only true where c is.
  otherwise_true : (b c : Bool) → (if b then false else c) ≡ true → c ≡ true
  otherwise_true true c e = cc e
  otherwise_true false c e = e

  drop_route-Falls : (v : Option Text) (s : Server k) → Falls s (drop_route k v s)
  drop_route-Falls none s = Falls-refl s
  drop_route-Falls (some []) s = Falls-refl s
  drop_route-Falls (some (c ∷ cs)) s =
      emit-Falls (delete_route (c ∷ cs)) s (λ r b. otherwise_true _ b)

  close_stream-Falls :
      (w : Option Writer) (a : Addr) (s : Server k) → Falls s (close_stream k w a s)
  close_stream-Falls none a s = Falls-refl s
  close_stream-Falls (some opened) a s = emit-Falls (close_writer a) s (λ r b e. e)
  close_stream-Falls (some closing) a s = Falls-refl s

  take_down_client-Falls :
      (cs : ClientSession k) (s : Server k)
      → Falls s (close_stream k cs.writer cs.addr (drop_route k cs.virtual_ip s))
  take_down_client-Falls cs s =
      Falls-trans s (drop_route k cs.virtual_ip s) _ (drop_route-Falls cs.virtual_ip s)
        (close_stream-Falls cs.writer cs.addr (drop_route k cs.virtual_ip s))

  pub take_down_clients-Falls :
      (l : Dict Addr (ClientSession k)) (s : Server k) → Falls s (take_down_clients k l s)
  unfolding take_down_clients close_tcp_writer
  take_down_clients-Falls [] s = Falls-refl s
  take_down_clients-Falls ((a, cs) ∷ rest) s =
      let t = close_stream k cs.writer cs.addr (drop_route k cs.virtual_ip s) in
      Falls-trans s t _ (take_down_client-Falls cs s) (take_down_clients-Falls rest t)

  drop_route-releases :
      (v : Option Text) (c : ℕ) (ip : Text) (s : Server k)
      → v ≡ some (c ∷ ip)
      → held (route (c ∷ ip)) (drop_route k v s).effects ≡ true
      → false ≡ true
  drop_route-releases none c ip s e h = cc e
  drop_route-releases (some []) c ip s e h = cc e
  drop_route-releases (some (d ∷ ds)) c ip s e h =
      let same : d ∷ ds ≡ c ∷ ip = cc e in
      ground (
        arith,
        h,
        held-append (route (c ∷ ip)) s.effects (delete_route (d ∷ ds)),
        (list_beq_iff (d ∷ ds) (c ∷ ip)).1 same,
      )

  -- The route of a client's address is gone.
  take_down_clients-releases :
      (l : Dict Addr (ClientSession k)) (a : Addr) (cs : ClientSession k) (c : ℕ) (ip : Text)
      (s : Server k)
      → lookup a l ≡ some cs
      → cs.virtual_ip ≡ some (c ∷ ip)
      → held (route (c ∷ ip)) (take_down_clients k l s).effects ≡ true
      → false ≡ true
  unfolding take_down_clients close_tcp_writer lookup
  take_down_clients-releases [] a cs c ip s found e h = cc found
  take_down_clients-releases ((b, cs') ∷ rest) a cs c ip s found e h =
      let u = drop_route k cs'.virtual_ip s in
      let t = close_stream k cs'.writer cs'.addr u in
      elim (Bool-cases (addr_eq.same b a)) [
        | inl here ↦
            let it_is : cs' ≡ cs = ground (arith, here, found) in
            let down = (take_down_clients-Falls rest t).holds_less (route (c ∷ ip)) h in
            drop_route-releases cs'.virtual_ip c ip s
              (ap (λ (x : ClientSession k). x.virtual_ip) it_is ∙ e)
              ((close_stream-Falls cs'.writer cs'.addr u).holds_less (route (c ∷ ip)) down)
        | inr other ↦ take_down_clients-releases rest a cs c ip t (ground (arith, other, found)) e h
      ]

  -- `take_down_nat` and `take_down` where nothing raises.
  abbrev torn_down : Option Text → Server k → Server k
  torn_down i s = state (take_down_nat k (ok tt) i s)

  take_down_nat-Falls :
      (i : Option Text) (s : Server k) (r : Resource)
      → held r (torn_down i s).effects ≡ true
      → held r s.effects ≡ true
  take_down_nat-Falls none s r e = e
  take_down_nat-Falls (some i) s r e =
      otherwise_true _ (held r s.effects)
        (sym (held-append r s.effects (nat_torn_down i (server_network s.config))) ∙ e)

  take_down_nat-config :
      (i : Option Text) (s : Server k)
      → ((torn_down i s).config ≡ s.config) × ((torn_down i s).has_transport ≡ s.has_transport)
  take_down_nat-config none s = (refl, refl)
  take_down_nat-config (some i) s = (refl, refl)

  take_down_nat-releases :
      (i : Option Text) (j n : Text) (s : Server k)
      → is_named i j && list_beq (server_network s.config) n ≡ true
      → held (nat j n) (torn_down i s).effects ≡ true
      → false ≡ true
  take_down_nat-releases none j n s o e = cc o
  take_down_nat-releases (some i) j n s o e =
      ground
        (arith, o, e, held-append (nat j n) s.effects (nat_torn_down i (server_network s.config)))

  close_if-Falls :
      (b : Bool) (s : Server k) (r : Resource)
      → held r (close_if k b s).effects ≡ true
      → held r s.effects ≡ true
  close_if-Falls true s r e =
      otherwise_true _ (held r s.effects) (sym (held-append r s.effects listener_closed) ∙ e)
  close_if-Falls false s r e = e

  close_if-releases :
      (b : Bool) (s : Server k)
      → b ≡ true
      → held listener (close_if k b s).effects ≡ true
      → false ≡ true
  close_if-releases true s o e = sym (held-append listener s.effects listener_closed) ∙ e
  close_if-releases false s o e = o

  mapped_route :
      (s : Server k) (ip : Text) (a : Addr)
      → IsLinked k s
      → lookup ip s.ip_to_addr ≡ some a
      → held (route ip) (take_down_clients k s.clients s).effects ≡ true
      → false ≡ true
  mapped_route s [] a h e up = cc (e, h.no_empty)
  mapped_route s (c ∷ ip) a h e up =
      let (cs, found, holds) = h.mapped (c ∷ ip) a e in
      take_down_clients-releases s.clients a cs c ip s found holds up

  -- The server of `cleanup` before it deletes the route of its network, and behind that.
  abbrev pub cleared : Server k → Server k
  cleared s = record (take_down_clients k s.clients s) { clients = []; ip_to_addr = [] }

  abbrev pub unrouted : Server k → Server k
  unrouted s = emit k (delete_route (server_network (cleared s).config)) (cleared s)

  abbrev untranslated : Server k → Server k
  untranslated s = torn_down (unrouted s).nat_interface (unrouted s)

  abbrev pub downed : Server k → Server k
  downed s = close_listener k (emit k tun_closed (untranslated s))

  -- `take_down` from the NAT rule on, by what the two calls answer.
  abbrev pub rest_of :
      Result (Unit {0}) → Result (Unit {0}) → Option Text → Exec (Server k) (Unit {0})
  rest_of torn closed i = do
    take_down_nat k torn i
    attempt k closed (emit k tun_closed)
    modify (close_listener k)

  rest_returns :
      (torn closed : Result (Unit {0})) (i : Option Text) (s : Server k)
      → torn ≡ ok tt
      → closed ≡ ok tt
      → rest_of torn closed i s ≡ returns tt (close_listener k (emit k tun_closed (torn_down i s)))
  rest_returns (raise x) closed i s e f = cc e
  rest_returns (ok u) (raise x) i s e f = cc f
  rest_returns (ok u) (ok v) none s e f = refl
  rest_returns (ok u) (ok v) (some i) s e f = refl

  -- Where neither call raises, the whole block runs.
  pub take_down_returns :
      (m : Machine) (s : Server k)
      → m.teardown_nat ≡ ok tt
      → m.close_tun ≡ ok tt
      → take_down k m s ≡ returns tt (downed s)
  unfolding take_down cleanup
  take_down_returns m s torn closed =
      rest_returns m.teardown_nat m.close_tun (unrouted s).nat_interface (unrouted s) torn closed

  -- What stands of a resource at the steps of `take_down` if it is held behind the last.
  refuted :
      (r : Resource) (s : Server k)
      → IsLinked k s
      → held r (downed s).effects ≡ true
      → held_after r tun_closed (held r (untranslated s).effects) ≡ true
      → held r (untranslated s).effects ≡ true
      → held_after r (delete_route (server_network (cleared s).config)) (held r (cleared s).effects)
        ≡ true
      → held r (cleared s).effects ≡ true
      → is_owned k s r ≡ true
      → false ≡ true
  refuted (route ip) s h e closed at_w dropped at_u owned =
      elim (Option-cases (lookup ip s.ip_to_addr)) [
        | inl n ↦
            let network : list_beq (server_network s.config) ip ≡ true = ground (arith, n, owned) in
            let same = (take_down_clients-Falls s.clients s).same_config in
            let also : list_beq (server_network (cleared s).config) ip ≡ true =
              ap (λ (c : Config). list_beq (server_network c) ip) same ∙ network in
            ground (arith, also, dropped)
        | inr (a, m) ↦ mapped_route s ip a h m at_u
      ]
  refuted (nat j n) s h e closed at_w dropped at_u owned =
      let falls = take_down_clients-Falls s.clients s in
      take_down_nat-releases (unrouted s).nat_interface j n (unrouted s)
        (ap₂ (λ (i : Option Text) (c : Config). is_named i j && list_beq (server_network c) n)
            falls.same_nat falls.same_config
          ∙ owned)
        at_w
  refuted tun s h e closed at_w dropped at_u owned = closed
  refuted listener s h e closed at_w dropped at_u owned =
      let falls = take_down_clients-Falls s.clients s in
      let kept = take_down_nat-config (unrouted s).nat_interface (unrouted s) in
      let x = emit k tun_closed (untranslated s) in
      close_if-releases (is_tcp x.config || x.has_transport) x
        (ap₂ (λ (c : Config) (b : Bool). is_tcp c || b) (kept.0 ∙ falls.same_config)
            (kept.1 ∙ falls.same_transport)
          ∙ owned)
        e

  still_held :
      (r : Resource) (s : Server k) → IsLinked k s → held r (downed s).effects ≡ true → false ≡ true
  still_held r s h e =
      let w = untranslated s in
      let x = emit k tun_closed w in
      let at_x = close_if-Falls (is_tcp x.config || x.has_transport) x r e in
      let closed : held_after r tun_closed (held r w.effects) ≡ true =
        sym (held-append r w.effects tun_closed) ∙ at_x in
      let at_w = otherwise_true _ (held r w.effects) closed in
      let at_v = take_down_nat-Falls (unrouted s).nat_interface (unrouted s) r at_w in
      let dropped =
        sym (held-append r (cleared s).effects (delete_route (server_network (cleared s).config)))
        ∙ at_v in
      let at_u = otherwise_true _ (held r (cleared s).effects) dropped in
      let falls = take_down_clients-Falls s.clients s in
      refuted r s h e closed at_w dropped at_u (h.accounted r (falls.holds_less r at_u))

  pub take_down-releases :
      (s : Server k) → IsLinked k s → (r : Resource) → held r (downed s).effects ≡ false
  take_down-releases s h r = elim (Bool-cases (held r (downed s).effects)) [
    | inl e ↦ cc (still_held r s h e)
    | inr e ↦ e
  ]
