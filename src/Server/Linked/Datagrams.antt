-- ===== src/Server/Linked/Datagrams.antt =====
-- `handle_udp_data` of src/server.py: the tables of the server hang together behind it.
use vpn_app_ai.Prelude.{
  ℕ, ◌≡◌, refl, sym, ap, ◌∙◌, inl, inr, Option, none, some, List, [], ◌∷◌, nat_eq, nat_beq, list_eq,
  if◌then◌else◌, arith, Bool-cases,
}
use vpn_app_ai.Prelude.Dict.{lookup, lookup-insert}
use vpn_app_ai.Prelude.Result.{Outcome, returns, raises, state}
use vpn_app_ai.Prelude.Exec.{Exec, ◌>>=◌, pure, if-state}
use vpn_app_ai.Bytes.{Bytes}
use vpn_app_ai.Crypto.Pki.{Pki}
use vpn_app_ai.Protocol.Messages.{hard_reset_client, hard_reset_server, opcode_value}
use vpn_app_ai.Protocol.Data.Channel.{Packages}
use vpn_app_ai.Protocol.Control.Session.{Session}
use vpn_app_ai.Protocol.Control.Server.{server_handle_reset}
use vpn_app_ai.Server.State.{
  Addr, addr_eq, Writer, ClientSession, Server, Surroundings, store, send_all, fresh_session,
  new_client, found_or_new, get_or_create_session,
}
use vpn_app_ai.Server.Handle.{on_session, handle_reset, on_datagram, handle_udp_data}
use vpn_app_ai.Server.Pooled.{same_addresses-IsPooled}
use vpn_app_ai.Server.Linked.{
  IsLinked, HasTables-IsLinked, stored-cases, store-found, send_all-HasTables,
}
use vpn_app_ai.Server.Linked.Steps.{on_session-IsLinked, handle_known-IsLinked}

module _ (k : Pki) where
  -- A new client, at an address without one.
  newcomer-IsLinked :
      (cs : ClientSession k) (s : Server k)
      → lookup cs.addr s.clients ≡ none
      → cs.virtual_ip ≡ none
      → IsLinked k s
      → IsLinked k (store k cs s)
  newcomer-IsLinked cs s absent no_ip h = record {
    at_address = λ a c found. elim (stored-cases k cs s a c found) [
      | inl (e, here) ↦ ap (λ (x : ClientSession k). x.addr) e ∙ here
      | inr old ↦ h.at_address a c old
    ];
    mapped = λ ip a e.
        let (c, found, holds) = h.mapped ip a e in
        (
          c,
          elim (Bool-cases (addr_eq.same cs.addr a)) [
            | inl same ↦
                let nobody : lookup a s.clients ≡ none =
                  ap (λ (b : Addr). lookup b s.clients) (sym ((addr_eq.same_iff cs.addr a).0 same))
                  ∙ absent in
                cc (nobody, found)
            | inr differ ↦ ground (arith, differ, found, lookup-insert cs.addr a cs s.clients)
          ],
          holds,
        );
    no_empty = h.no_empty;
    unassigned = λ a c found n. elim (stored-cases k cs s a c found) [
      | inl (e, here) ↦ ap (λ (x : ClientSession k). x.virtual_ip) e ∙ no_ip
      | inr old ↦ h.unassigned a c old n
    ];
    accounted = h.accounted;
    pooled =
        same_addresses-IsPooled k s.ip_pool s.clients (store k cs s).clients
          (λ a c ip f has. elim (stored-cases k cs s a c f) [
            | inl (e, here) ↦
                let nothing : c.virtual_ip ≡ none =
                  ap (λ (x : ClientSession k). x.virtual_ip) e ∙ no_ip in
                cc (nothing, has)
            | inr f' ↦ (c, f', has)
          ])
          h.pooled;
  }

  new_client-IsLinked :
      (env : Surroundings k) (addr : Addr) (writer : Option Writer)
      (o : Outcome (Session k) (Unit {0})) (f : ClientSession k → Exec (Server k) (Unit {0}))
      (s : Server k)
      → lookup addr s.clients ≡ none
      → IsLinked k s
      → ((c : ClientSession k) (t : Server k)
          → lookup c.addr t.clients ≡ some c
          → IsLinked k t
          → IsLinked k (state (f c t)))
      → IsLinked k (state ((new_client k env addr writer o >>= f) s))
  new_client-IsLinked env addr writer (raises x session) f s absent h rest = h
  new_client-IsLinked env addr writer (returns u session) f s absent h rest =
      let cs : ClientSession k = record {
        addr = addr;
        session = session;
        channel = none;
        virtual_ip = none;
        last_seen = env.now;
        last_keepalive = 0;
        writer = writer;
      } in
      rest cs (store k cs s) (store-found k cs s) (newcomer-IsLinked cs s absent refl h)

  pub found_or_new-IsLinked :
      (env : Surroundings k) (addr : Addr) (writer : Option Writer)
      (found : Option (ClientSession k)) (f : ClientSession k → Exec (Server k) (Unit {0}))
      (s : Server k)
      → lookup addr s.clients ≡ found
      → IsLinked k s
      → ((c : ClientSession k) (t : Server k)
          → lookup c.addr t.clients ≡ some c
          → IsLinked k t
          → IsLinked k (state (f c t)))
      → IsLinked k (state ((found_or_new k env addr writer found >>= f) s))
  found_or_new-IsLinked env addr writer none f s e h rest =
      new_client-IsLinked env addr writer (fresh_session k env s.config) f s e h rest
  found_or_new-IsLinked env addr writer (some cs) f s e h rest =
      rest cs s (ap (λ (b : Addr). lookup b s.clients) (h.at_address addr cs e) ∙ e) h

module _ (p : Packages) (k : Pki) where
  answered :
      (c : ClientSession k) (packets : List Bytes) (t : Server k)
      → IsLinked k t
      → IsLinked k (state (send_all k c packets t))
  answered c packets t h = HasTables-IsLinked k t _ (send_all-HasTables k c packets t) h

  handle_reset-IsLinked :
      (env : Surroundings k) (addr : Addr) (packet : Bytes) (s : Server k)
      → IsLinked k s
      → IsLinked k (state (handle_reset p k env addr packet s))
  unfolding handle_reset get_or_create_session
  handle_reset-IsLinked env addr packet s h =
      found_or_new-IsLinked k env addr none (lookup addr s.clients)
        (λ cs. do
          (packets, cs') ← on_session p k cs (server_handle_reset k packet env.now)
          send_all k cs' packets)
        s refl h
        (λ cs t found linked.
          on_session-IsLinked p k cs (server_handle_reset k packet env.now)
            (λ (packets, cs'). send_all k cs' packets) t found linked
            (λ packets c t' found' linked'. answered c packets t' linked'))

  from_known :
      (env : Surroundings k) (o : ℕ) (rest : Bytes) (addr : Addr) (s : Server k)
      (found : Option (ClientSession k))
      → lookup addr s.clients ≡ found
      → IsLinked k s
      → IsLinked k (state (on_datagram p k env o (o ∷ rest) found s))
  from_known env o rest addr s none e h = h
  from_known env o rest addr s (some cs) e h =
      handle_known-IsLinked p k env.now o cs (o ∷ rest) s
        (ap (λ (b : Addr). lookup b s.clients) (h.at_address addr cs e) ∙ e) h

  pub handle_udp_data-IsLinked :
      (env : Surroundings k) (data' : Bytes) (addr : Addr) (s : Server k)
      → IsLinked k s
      → IsLinked k (state (handle_udp_data p k env data' addr s))
  unfolding handle_udp_data
  handle_udp_data-IsLinked env [] addr s h = h
  handle_udp_data-IsLinked env (o ∷ rest) addr s h =
      if-state (IsLinked k) (nat_beq o (opcode_value hard_reset_client))
        (handle_reset p k env addr (o ∷ rest))
        (if nat_beq o (opcode_value hard_reset_server) then pure tt else λ t.
          on_datagram p k env o (o ∷ rest) (lookup addr t.clients) t)
        s (λ e. handle_reset-IsLinked env addr (o ∷ rest) s h)
        (λ e.
          if-state (IsLinked k) (nat_beq o (opcode_value hard_reset_server)) (pure tt)
            (λ t. on_datagram p k env o (o ∷ rest) (lookup addr t.clients) t) s (λ e'. h)
            (λ e'. from_known env o rest addr s (lookup addr s.clients) refl h))
