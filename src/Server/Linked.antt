-- ===== src/Server/Linked.antt =====
-- How the tables of the server in src/server.py hang together: `clients`, by address, and `ip_to_addr`.
pub mod Assignment
pub mod Opening
pub mod Steps
pub mod Datagrams
pub mod Removals
pub mod Rounds
pub mod Reachable
pub mod Lifecycle
pub mod Release
pub mod Running
pub mod Raising
use vpn_app_ai.Prelude.{
  ℕ, ◌≡◌, ◌≢◌, refl, sym, ap, ◌∙◌, inl, inr, ◌&&◌, ◌⊎◌, Bool, true, false, Option, none, some, List,
  [], ◌∷◌, nat_eq, list_eq, if◌then◌else◌, same_refl, list_beq, list_beq_iff, arith, Bool-cases,
  Option-cases,
}
use vpn_app_ai.Prelude.Dict.{lookup, insert, lookup-insert, lookup-insert_self}
use vpn_app_ai.Prelude.Result.{Result-cases, Outcome, returns, raises, state}
use vpn_app_ai.Prelude.Exec.{Exec, if-outcome, bind-state}
use vpn_app_ai.Bytes.{Bytes}
use vpn_app_ai.Crypto.Pki.{Pki, Text}
use vpn_app_ai.Protocol.Framing.{frame_packet}
use vpn_app_ai.Server.Resources.{
  Resource, route, nat, tun, listener, held_after, held, held-append, is_owned,
}
use vpn_app_ai.Server.Pooled.{IsPooled, same_addresses-IsPooled}
use vpn_app_ai.Server.State.{
  is_tcp, is_some, Addr, addr_eq, ClientSession, Server, store, sync_send_to, send_all, Effect,
  write, sendto, add_route, emit,
}

module _ (k : Pki) where
  -- The state knows of every resource that is held.
  abbrev pub Accounts : Server k → Type 0
  Accounts s = (r : Resource) → held r s.effects ≡ true → is_owned k s r ≡ true

  -- Every client is filed under its own address, every address in `ip_to_addr` belongs to the client
  -- that it leads to, no address is the empty text, a client without a channel has no address, and
  -- the state knows of every resource that is held, and the addresses are on record in the pool.
  pub record IsLinked (s : Server k) : Type 0 where
    pub at_address : (a : Addr) (cs : ClientSession k) → lookup a s.clients ≡ some cs → cs.addr ≡ a
    pub mapped :
        (ip : Text) (a : Addr)
        → lookup ip s.ip_to_addr ≡ some a
        → (cs : ClientSession k) × (lookup a s.clients ≡ some cs) × (cs.virtual_ip ≡ some ip)
    pub no_empty : lookup [] s.ip_to_addr ≡ none
    pub unassigned :
        (a : Addr) (cs : ClientSession k)
        → lookup a s.clients ≡ some cs
        → cs.channel ≡ none
        → cs.virtual_ip ≡ none
    pub accounted : Accounts s
    pub pooled : IsPooled k s.ip_pool s.clients

  -- A server with the same two tables that holds the same.
  pub record HasTables (s t : Server k) : Type 0 where
    pub same_clients : t.clients ≡ s.clients
    pub same_ips : t.ip_to_addr ≡ s.ip_to_addr
    pub same_pool : t.ip_pool ≡ s.ip_pool
    pub same_held : (r : Resource) → held r t.effects ≡ held r s.effects
    pub keeps_owned : (r : Resource) → is_owned k s r ≡ true → is_owned k t r ≡ true

  pub HasTables-trans : {s t u : Server k} → HasTables s t → HasTables t u → HasTables s u
  HasTables-trans a b = record {
    same_clients = b.same_clients ∙ a.same_clients;
    same_ips = b.same_ips ∙ a.same_ips;
    same_pool = b.same_pool ∙ a.same_pool;
    same_held = λ r. b.same_held r ∙ a.same_held r;
    keeps_owned = λ r o. b.keeps_owned r (a.keeps_owned r o);
  }

  pub HasTables-IsLinked : (s t : Server k) → HasTables s t → IsLinked s → IsLinked t
  HasTables-IsLinked s t e h = record {
    at_address = λ a cs f. h.at_address a cs (ap (lookup a) (sym e.same_clients) ∙ f);
    mapped = λ ip a f.
        let (cs, found, holds) = h.mapped ip a (ap (lookup ip) (sym e.same_ips) ∙ f) in
        (cs, ap (lookup a) e.same_clients ∙ found, holds);
    no_empty = ap (lookup []) e.same_ips ∙ h.no_empty;
    unassigned = λ a cs f. h.unassigned a cs (ap (lookup a) (sym e.same_clients) ∙ f);
    accounted = λ r o. e.keeps_owned r (h.accounted r (sym (e.same_held r) ∙ o));
    pooled = rw (e.same_pool, e.same_clients) h.pooled;
  }

  -- A later version of a client, with its address and its virtual address.
  pub record IsUpdate (old new : ClientSession k) : Type 0 where
    pub same_addr : new.addr ≡ old.addr
    pub same_ip : new.virtual_ip ≡ old.virtual_ip
    pub keeps_channel : new.channel ≡ none → old.channel ≡ none

  pub store-found :
      (cs : ClientSession k) (s : Server k) → lookup cs.addr (store k cs s).clients ≡ some cs
  store-found cs s = lookup-insert_self cs.addr cs s.clients

  -- What the table has behind `store`.
  pub stored-cases :
      (new : ClientSession k) (s : Server k) (a : Addr) (cs : ClientSession k)
      → lookup a (store k new s).clients ≡ some cs
      → ((cs ≡ new) × (new.addr ≡ a)) ⊎ (lookup a s.clients ≡ some cs)
  stored-cases new s a cs f = elim (Bool-cases (addr_eq.same new.addr a)) [
    | inl e ↦ inl (
      ground (arith, e, f, lookup-insert new.addr a new s.clients),
      (addr_eq.same_iff new.addr a).0 e,
    )
    | inr e ↦ inr (ground (arith, e, f, lookup-insert new.addr a new s.clients))
  ]

  stored-mapped :
      (old new : ClientSession k) (s : Server k) (ip : Text) (a : Addr)
      → lookup old.addr s.clients ≡ some old
      → IsUpdate old new
      → (c : ClientSession k) → lookup a s.clients ≡ some c
      → c.virtual_ip ≡ some ip
      → (cs : ClientSession k) × (lookup a (store k new s).clients ≡ some cs)
        × (cs.virtual_ip ≡ some ip)
  stored-mapped old new s ip a found u c f holds = elim (Bool-cases (addr_eq.same new.addr a)) [
    | inl e ↦
        let here : new.addr ≡ a = (addr_eq.same_iff new.addr a).0 e in
        let there : lookup a s.clients ≡ some old =
          ap (λ (b : Addr). lookup b s.clients) (sym here ∙ u.same_addr) ∙ found in
        let same : old ≡ c = cc (there, f) in
        (
          new,
          ground (arith, e, lookup-insert new.addr a new s.clients),
          u.same_ip ∙ ap (λ (x : ClientSession k). x.virtual_ip) same ∙ holds,
        )
    | inr e ↦ (c, ground (arith, e, f, lookup-insert new.addr a new s.clients), holds)
  ]

  -- A client is stored back.
  pub store-IsLinked :
      (old new : ClientSession k) (s : Server k)
      → lookup old.addr s.clients ≡ some old
      → IsUpdate old new
      → IsLinked s
      → IsLinked (store k new s)
  store-IsLinked old new s found u h = record {
    at_address = λ a cs f. elim (stored-cases new s a cs f) [
      | inl (e, here) ↦ ap (λ (x : ClientSession k). x.addr) e ∙ here
      | inr f' ↦ h.at_address a cs f'
    ];
    mapped = λ ip a f.
        let (c, f', holds) = h.mapped ip a f in stored-mapped old new s ip a found u c f' holds;
    no_empty = h.no_empty;
    unassigned = λ a cs f n. elim (stored-cases new s a cs f) [
      | inl (e, here) ↦
          let none_there : new.channel ≡ none =
            ap (λ (x : ClientSession k). x.channel) (sym e) ∙ n in
          ap (λ (x : ClientSession k). x.virtual_ip) e
          ∙ u.same_ip
          ∙ h.unassigned old.addr old found (u.keeps_channel none_there)
      | inr f' ↦ h.unassigned a cs f' n
    ];
    accounted = h.accounted;
    pooled =
        same_addresses-IsPooled k s.ip_pool s.clients (store k new s).clients
          (λ a c ip f has. elim (stored-cases new s a c f) [
            | inl (e, here) ↦ (
              old,
              ap (λ (b : Addr). lookup b s.clients) (sym here ∙ u.same_addr) ∙ found,
              sym u.same_ip ∙ ap (λ (x : ClientSession k). x.virtual_ip) (sym e) ∙ has,
            )
            | inr f' ↦ (c, f', has)
          ])
          h.pooled;
  }

  pub same_tables : (s : Server k) → HasTables s s
  same_tables s = record {
    same_clients = refl;
    same_ips = refl;
    same_pool = refl;
    same_held = λ r. refl;
    keeps_owned = λ r o. o;
  }

  -- An effect that takes nothing and gives nothing back.
  pub emit-HasTables :
      (x : Effect) (s : Server k)
      → ((r : Resource) (b : Bool) → held_after r x b ≡ b)
      → HasTables s (emit k x s)
  emit-HasTables x s quiet = record {
    same_clients = refl;
    same_ips = refl;
    same_pool = refl;
    same_held = λ r. held-append r s.effects x ∙ quiet r (held r s.effects);
    keeps_owned = λ r o. o;
  }

  -- An effect whose resource the state knows of.
  pub emit-IsLinked :
      (x : Effect) (s : Server k) → IsLinked s → Accounts (emit k x s) → IsLinked (emit k x s)
  emit-IsLinked x s h e = record {
    at_address = h.at_address;
    mapped = h.mapped;
    no_empty = h.no_empty;
    unassigned = h.unassigned;
    accounted = e;
    pooled = h.pooled;
  }

  -- A route is added to an address that is mapped or to the server's network.
  pub add_route-IsLinked :
      (ip : Text) (s : Server k)
      → is_owned k s (route ip) ≡ true
      → IsLinked s
      → IsLinked (emit k (add_route ip) s)
  add_route-IsLinked ip s owned h = emit-IsLinked (add_route ip) s h accounts
    where
      accounts : Accounts (emit k (add_route ip) s)
      accounts (route ip') e = elim (Bool-cases (list_beq ip ip')) [
        | inl same ↦
            ap (λ (t : Text). is_owned k s (route t)) (sym ((list_beq_iff ip ip').0 same)) ∙ owned
        | inr differ ↦
            h.accounted (route ip')
              (ground (arith, differ, e, held-append (route ip') s.effects (add_route ip)))
      ]
      accounts (nat i n) e =
          h.accounted (nat i n) (sym (held-append (nat i n) s.effects (add_route ip)) ∙ e)
      accounts tun e = refl
      accounts listener e =
          h.accounted listener (sym (held-append listener s.effects (add_route ip)) ∙ e)

  pub sync_send_to-HasTables :
      (cs : ClientSession k) (packet : Bytes) (s : Server k)
      → HasTables s (state (sync_send_to k cs packet s))
  unfolding sync_send_to
  sync_send_to-HasTables cs packet s = elim (Bool-cases (is_tcp s.config && is_some cs.writer)) [
    | inl tcp ↦ elim (Result-cases (frame_packet packet)) [
      | inl (frame, e) ↦ rw (tcp, e) (emit-HasTables (write frame cs.addr) s (λ r b. refl))
      | inr (x, e) ↦ rw (tcp, e) (same_tables s)
    ]
    | inr udp ↦ rw udp (
        if-outcome (HasTables s) s.has_transport (returns tt (emit k (sendto packet cs.addr) s))
          (returns tt s) (λ up. emit-HasTables (sendto packet cs.addr) s (λ r b. refl))
          (λ down. same_tables s))
  ]

  pub send_all-HasTables :
      (cs : ClientSession k) (packets : List Bytes) (s : Server k)
      → HasTables s (state (send_all k cs packets s))
  unfolding send_all
  send_all-HasTables cs [] s = same_tables s
  send_all-HasTables cs (p ∷ ps) s =
      let first = sync_send_to-HasTables cs p s in
      bind-state (HasTables s) (sync_send_to k cs p) (λ u. send_all k cs ps) s
        (λ u t e. HasTables-trans (rw e at first) (send_all-HasTables cs ps t))
        (λ x t e. rw e at first)
