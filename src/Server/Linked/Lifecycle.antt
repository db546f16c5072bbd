-- ===== src/Server/Linked/Lifecycle.antt =====
-- `run` of src/server.py: what the set-up and the loop leave is known to the state.
use vpn_app_ai.Prelude.{
  ◌≡◌, refl, sym, ◌∙◌, ◌&&◌, Bool, Option, none, some, List, [], ◌∷◌, All, nat_eq, list_eq,
  list_beq, list_beq_iff, arith, Bool-cases,
}
use vpn_app_ai.Prelude.Result.{Result, ok, raise, state}
use vpn_app_ai.Prelude.Exec.{Exec, ◌>>◌, modify, bind-state, calls-state}
use vpn_app_ai.Prelude.Dict.{lookup}
use vpn_app_ai.Crypto.Pki.{Pki, Text}
use vpn_app_ai.Protocol.Data.Channel.{Packages}
use vpn_app_ai.Server.State.{
  is_tcp, is_some, Effect, add_route, tun_opened, forwarding_enabled, listener_opened, ip_set,
  mtu_set, nat_set_up, privileges_dropped, Server, emit,
}
use vpn_app_ai.Server.Start.{server_ip, server_network}
use vpn_app_ai.Server.Resources.{Resource, route, nat, tun, listener, held_after, held-append}
use vpn_app_ai.Server.Loop.{Event, handle_event, tick}
use vpn_app_ai.Server.Run.{
  Machine, attempt, nat_for, nat_on, nat_step, listening, first_steps, last_steps, in_order, set_up,
  Round, happen_all, serve,
}
use vpn_app_ai.Server.Linked.{
  IsLinked, Accounts, HasTables-IsLinked, emit-HasTables, emit-IsLinked, add_route-IsLinked,
}
use vpn_app_ai.Server.Linked.Rounds.{tick-IsLinked}
use vpn_app_ai.Server.Linked.Reachable.{handle_event-IsLinked}

module _ (k : Pki) where
  -- Linked, and no NAT rule is on record yet.
  abbrev IsUntranslated : Server k → Type 0
  IsUntranslated s = IsLinked k s × (s.nat_interface ≡ none)

  in_order-state {π} :
      (P : Server k → Type π) (xs : List (Exec (Server k) (Unit {0})))
      → All (λ (m : Exec (Server k) (Unit {0})). (s : Server k) → P s → P (state (m s))) xs
      → (s : Server k) → P s
      → P (state (in_order k xs s))
  unfolding in_order
  in_order-state P [] keeps s h = h
  in_order-state P (x ∷ xs) keeps s h =
      bind-state P x (λ u. in_order k xs) s
        (λ u t e. in_order-state P xs keeps.1 t (rw e at (keeps.0 s h)))
        (λ x' t e. rw e at (keeps.0 s h))

  attempt-state {π} :
      (P : Server k → Type π) (r : Result (Unit {0})) (change : Server k → Server k)
      → ((s : Server k) → P s → P (change s))
      → (s : Server k) → P s
      → P (state (attempt k r change s))
  attempt-state P (ok u) change keeps s h = keeps s h
  attempt-state P (raise x) change keeps s h = h

  quiet-IsLinked :
      (x : Effect)
      → ((r : Resource) (b : Bool) → held_after r x b ≡ b)
      → (s : Server k) → IsLinked k s
      → IsLinked k (emit k x s)
  quiet-IsLinked x quiet s h = HasTables-IsLinked k s (emit k x s) (emit-HasTables k x s quiet) h

  tun_opened-IsLinked : (s : Server k) → IsLinked k s → IsLinked k (emit k tun_opened s)
  tun_opened-IsLinked s h = emit-IsLinked k tun_opened s h known
    where
      known : Accounts k (emit k tun_opened s)
      known (route ip) e =
          h.accounted (route ip) (sym (held-append (route ip) s.effects tun_opened) ∙ e)
      known (nat i n) e =
          h.accounted (nat i n) (sym (held-append (nat i n) s.effects tun_opened) ∙ e)
      known tun e = refl
      known listener e = h.accounted listener (sym (held-append listener s.effects tun_opened) ∙ e)

  network_route-IsLinked :
      (s : Server k) → IsLinked k s → IsLinked k (emit k (add_route (server_network s.config)) s)
  network_route-IsLinked s h =
      add_route-IsLinked k (server_network s.config) s
        (ground (
          arith,
          list_beq_iff (server_network s.config) (server_network s.config),
          Bool-cases (is_some (lookup (server_network s.config) s.ip_to_addr)),
        ))
        h

  first_steps-IsUntranslated :
      (m : Machine) (address : Text) (s : Server k)
      → IsUntranslated s
      → IsUntranslated (state (in_order k (first_steps k m address) s))
  first_steps-IsUntranslated m address s h =
      in_order-state IsUntranslated (first_steps k m address)
        (
          attempt-state IsUntranslated m.open_tun _ (λ t g. (tun_opened-IsLinked t g.0, g.1)),
          (
            attempt-state IsUntranslated m.set_ip _
                (λ t g. (quiet-IsLinked (ip_set address) (λ r b. refl) t g.0, g.1)),
            (
              attempt-state IsUntranslated m.set_mtu _
                  (λ t g. (quiet-IsLinked (mtu_set 1500) (λ r b. refl) t g.0, g.1)),
              (
                λ t g. (quiet-IsLinked forwarding_enabled (λ r b. refl) t g.0, g.1),
                (
                  attempt-state IsUntranslated m.network_route _
                      (λ t g. (network_route-IsLinked t g.0, g.1)),
                  tt,
                ),
              ),
            ),
          ),
        )
        s h

  -- The first rule: none was held before.
  nat_for-IsLinked :
      (answer : Result (Unit {0})) (i : Text) (s : Server k)
      → IsUntranslated s
      → IsLinked k (nat_for k answer i s)
  nat_for-IsLinked (raise x) i s h = h.0
  nat_for-IsLinked (ok u) i s (h, fresh) = record {
    at_address = h.at_address;
    mapped = h.mapped;
    no_empty = h.no_empty;
    unassigned = h.unassigned;
    accounted = known;
    pooled = h.pooled;
  }
    where
      known : Accounts k (nat_for k (ok u) i s)
      known (route ip) e =
          h.accounted (route ip)
            (sym (held-append (route ip) s.effects (nat_set_up i (server_network s.config))) ∙ e)
      known (nat j n) e = ground (
        arith,
        e,
        fresh,
        held-append (nat j n) s.effects (nat_set_up i (server_network s.config)),
        h.accounted (nat j n),
        Bool-cases (list_beq i j && list_beq (server_network s.config) n),
      )
      known tun e = refl
      known listener e =
          h.accounted listener
            (sym (held-append listener s.effects (nat_set_up i (server_network s.config))) ∙ e)

  nat_on-IsLinked :
      (answer : Result (Unit {0})) (iface : Option Text) (s : Server k)
      → IsUntranslated s
      → IsLinked k (nat_on k answer iface s)
  nat_on-IsLinked answer none s h = h.0
  nat_on-IsLinked answer (some []) s h = h.0
  nat_on-IsLinked answer (some (c ∷ cs)) s h = nat_for-IsLinked answer (c ∷ cs) s h

  nat_step-IsLinked :
      (m : Machine) (s : Server k) → IsUntranslated s → IsLinked k (state (nat_step k m s))
  nat_step-IsLinked m s h =
      calls-state (IsLinked k) (λ (t : Server k). m.default_interface)
        (λ iface. modify (nat_on k m.setup_nat iface)) s h.0
        (λ iface e. nat_on-IsLinked m.setup_nat iface s h)

  listening-IsLinked : (s : Server k) → IsLinked k s → IsLinked k (listening k s)
  listening-IsLinked s h = record {
    at_address = h.at_address;
    mapped = h.mapped;
    no_empty = h.no_empty;
    unassigned = h.unassigned;
    accounted = known;
    pooled = h.pooled;
  }
    where
      known : Accounts k (listening k s)
      known (route ip) e =
          h.accounted (route ip) (sym (held-append (route ip) s.effects listener_opened) ∙ e)
      known (nat i n) e =
          h.accounted (nat i n) (sym (held-append (nat i n) s.effects listener_opened) ∙ e)
      known tun e = refl
      known listener e = ground (arith, Bool-cases (is_tcp s.config))

  last_steps-IsLinked :
      (m : Machine) (s : Server k)
      → IsLinked k s
      → IsLinked k (state (in_order k (last_steps k m) s))
  last_steps-IsLinked m s h =
      in_order-state (IsLinked k) (last_steps k m)
        (
          attempt-state (IsLinked k) m.drop_privileges _
              (λ t. quiet-IsLinked (privileges_dropped t.config.user) (λ r b. refl) t),
          (attempt-state (IsLinked k) m.listen _ listening-IsLinked, tt),
        )
        s h

  -- Also where a call of the set-up raises.
  pub set_up-IsLinked :
      (m : Machine) (s : Server k)
      → IsLinked k s
      → s.nat_interface ≡ none
      → IsLinked k (state (set_up k m s))
  unfolding set_up
  set_up-IsLinked m s h fresh =
      calls-state (IsLinked k) (λ (t : Server k). server_ip t.config) _ s h
        (λ address e.
          let first = first_steps-IsUntranslated m address s (h, fresh) in
          bind-state (IsLinked k) (in_order k (first_steps k m address)) _ s
            (λ u t e'.
              let g : IsUntranslated t = rw e' at first in
              let stepped = nat_step-IsLinked m t g in
              bind-state (IsLinked k) (nat_step k m) (λ u. in_order k (last_steps k m)) t
                (λ u v e''. last_steps-IsLinked m v (rw e'' at stepped))
                (λ x v e''. rw e'' at stepped))
            (λ x t e'. let g : IsUntranslated t = rw e' at first in g.0))

module _ (p : Packages) (k : Pki) where
  happen_all-IsLinked :
      (xs : List (Event p k)) (s : Server k) → IsLinked k s → IsLinked k (happen_all p k xs s)
  unfolding happen_all
  happen_all-IsLinked [] s h = h
  happen_all-IsLinked (x ∷ xs) s h =
      happen_all-IsLinked xs (handle_event p k x s) (handle_event-IsLinked p k x s h)

  pub serve-IsLinked :
      (rounds : List (Round p k)) (s : Server k)
      → IsLinked k s
      → IsLinked k (state (serve p k rounds s))
  unfolding serve
  serve-IsLinked [] s h = h
  serve-IsLinked (r ∷ rounds) s h =
      let ticked = tick-IsLinked p k r.now s h in
      bind-state (IsLinked k) (tick k r.now)
        (λ u. modify (happen_all p k r.events) >> serve p k rounds) s
        (λ u t e.
          serve-IsLinked rounds (happen_all p k r.events t)
            (happen_all-IsLinked r.events t (rw e at ticked)))
        (λ x t e. rw e at ticked)
