-- ===== src/Server/Linked/Assignment.antt =====
-- An address is assigned: the tables of the server hang together behind it.
use vpn_app_ai.Prelude.{
  true, ℕ, ◌/◌, ◌%◌, ◌^◌, ◌≡◌, ◌≢◌, refl, sym, ap, subst, ◌∙◌, inl, inr, Option, none, some, [],
  ◌∷◌, ◌++◌, nat_eq, list_eq, arith, Bool-cases,
}
use vpn_app_ai.Prelude.Dict.{lookup, insert, lookup-insert, lookup-insert_self}
use vpn_app_ai.Prelude.Result.{state}
use vpn_app_ai.Prelude.Exec.{◌>>◌, modify, bind-state, calls-state}
use vpn_app_ai.Bytes.{from_bytes}
use vpn_app_ai.Crypto.Pki.{Pki, Text}
use vpn_app_ai.Ipv4.{show_ip, show_octet, dot}
use vpn_app_ai.Protocol.Packet.{encode_packet}
use vpn_app_ai.Protocol.Messages.{control, ip_assign, message_value}
use vpn_app_ai.Protocol.Data.Channel.{Packages}
use vpn_app_ai.Routing.Pool.{IpPool, give, allocate}
use vpn_app_ai.Routing.Pool.Soundness.{allocate_cases}
use vpn_app_ai.Server.State.{
  Addr, addr_eq, client_id, add_route, ClientSession, Server, emit, store, sync_send_to,
}
use vpn_app_ai.Server.Handle.{announce_ip, assign_given, assign_from, assign_ip_to_client}
use vpn_app_ai.Server.Resources.{Resource, route, nat, tun, listener, is_owned}
use vpn_app_ai.Server.Pooled.{IsPooled, Records, given-Records, given-IsPooled, assigned-IsPooled}
use vpn_app_ai.Server.Linked.{
  Accounts, HasTables, add_route-IsLinked, IsLinked, HasTables-IsLinked, stored-cases, store-found,
  sync_send_to-HasTables,
}

module _ (p : Packages) (k : Pki) where
  -- A client that is to get an address: it is filed, has a channel and no address.
  pub record IsFresh (cs : ClientSession k) (s : Server k) : Type 0 where
    pub filed : lookup cs.addr s.clients ≡ some cs
    pub no_ip : cs.virtual_ip ≡ none
    pub ready : cs.channel ≢ none

  -- The two tables behind the assignment.
  abbrev assigned : ClientSession k → Text → Server k → Server k
  assigned cs ip s = store k cs (record s { ip_to_addr = insert ip cs.addr s.ip_to_addr })

  assigned-mapped :
      (cs new : ClientSession k) (ip : Text) (s : Server k) (ip' : Text) (a : Addr)
      → IsFresh cs s
      → IsLinked k s
      → new.addr ≡ cs.addr
      → new.virtual_ip ≡ some ip
      → lookup ip' (assigned new ip s).ip_to_addr ≡ some a
      → (c : ClientSession k) × (lookup a (assigned new ip s).clients ≡ some c)
        × (c.virtual_ip ≡ some ip')
  assigned-mapped cs new ip s ip' a f h same_addr has_ip e =
      elim (Bool-cases (list_eq.same ip ip')) [
        | inl here ↦
            let a_is : cs.addr ≡ a =
              ground (arith, here, e, same_addr, lookup-insert ip ip' new.addr s.ip_to_addr) in
            let text : ip ≡ ip' = (list_eq.same_iff ip ip').0 here in
            (
              new,
              ap (λ (b : Addr). lookup b (assigned new ip s).clients) (sym (same_addr ∙ a_is))
                  ∙ store-found k new s,
              has_ip ∙ ap (λ (t : Text). some t) text,
            )
        | inr other ↦
            let before : lookup ip' s.ip_to_addr ≡ some a =
              ground (arith, other, e, same_addr, lookup-insert ip ip' new.addr s.ip_to_addr) in
            let (c, found, holds) = h.mapped ip' a before in
            (
              c,
              elim (Bool-cases (addr_eq.same new.addr a)) [
                | inl same ↦
                    let there : lookup a s.clients ≡ some cs =
                      ap (λ (b : Addr). lookup b s.clients)
                        (sym ((addr_eq.same_iff new.addr a).0 same) ∙ same_addr)
                      ∙ f.filed in
                    let it_is : c ≡ cs = cc (there, found) in
                    let nothing : c.virtual_ip ≡ none =
                      ap (λ (x : ClientSession k). x.virtual_ip) it_is ∙ f.no_ip in
                    cc (nothing, holds)
                | inr differ ↦ ground (arith, differ, found, lookup-insert new.addr a new s.clients)
              ],
              holds,
            )
      ]

  longer : (xs ys : Text) (c : ℕ) → xs ++ c ∷ ys ≢ []
  longer [] ys c e = cc
  longer (x ∷ xs) ys c e = cc

  show_ip-nonempty : (n : ℕ) → show_ip n ≢ []
  unfolding show_ip
  show_ip-nonempty n =
      longer (show_octet (n / 2 ^ 24 % 256))
        (show_octet (n / 2 ^ 16 % 256)
          ++ dot ∷ (show_octet (n / 2 ^ 8 % 256) ++ dot ∷ show_octet (n % 256)))
        dot

  -- What was known of is known of with one address more.
  assigned_owned :
      (new : ClientSession k) (ip : Text) (s : Server k) (r : Resource)
      → is_owned k s r ≡ true
      → is_owned k (assigned new ip s) r ≡ true
  assigned_owned new ip s (route ip') o =
      ground (arith, o, lookup-insert ip ip' new.addr s.ip_to_addr)
  assigned_owned new ip s (nat i n) o = o
  assigned_owned new ip s tun o = o
  assigned_owned new ip s listener o = o

  assigned-IsLinked :
      (cs new : ClientSession k) (ip : Text) (s : Server k)
      → IsFresh cs s
      → IsLinked k s
      → ip ≢ []
      → new.addr ≡ cs.addr
      → new.virtual_ip ≡ some ip
      → new.channel ≡ cs.channel
      → Records s.ip_pool new.addr ip
      → IsLinked k (assigned new ip s)
  assigned-IsLinked cs new ip s f h nonempty same_addr has_ip same_channel known = record {
    at_address = λ a c found. elim (stored-cases k new s a c found) [
      | inl (e, here) ↦ ap (λ (x : ClientSession k). x.addr) e ∙ here
      | inr old ↦ h.at_address a c old
    ];
    mapped = λ ip' a e. assigned-mapped cs new ip s ip' a f h same_addr has_ip e;
    no_empty = elim (Bool-cases (list_eq.same ip [])) [
      | inl e ↦ absurd (nonempty ((list_eq.same_iff ip []).0 e))
      | inr e ↦ ground (arith, e, h.no_empty, lookup-insert ip [] new.addr s.ip_to_addr)
    ];
    unassigned = λ a c found n. elim (stored-cases k new s a c found) [
      | inl (e, here) ↦
          absurd (f.ready (sym same_channel ∙ ap (λ (x : ClientSession k). x.channel) (sym e) ∙ n))
      | inr old ↦ h.unassigned a c old n
    ];
    accounted = λ r e. assigned_owned new ip s r (h.accounted r e);
    pooled = assigned-IsPooled k s.ip_pool new ip s.clients has_ip known h.pooled;
  }

  -- Behind the announcement of an address.
  pub announce_ip-IsLinked :
      (cs : ClientSession k) (ip : Text) (s : Server k)
      → IsFresh cs s
      → IsLinked k s
      → ip ≢ []
      → Records s.ip_pool cs.addr ip
      → IsLinked k (state (announce_ip p k cs ip s))
  unfolding announce_ip
  announce_ip-IsLinked cs ip s f h nonempty on_record =
      let new = record cs {
        virtual_ip = some ip;
        session = record cs.session { assigned_ip = some ip };
      } in
      let linked = assigned-IsLinked cs new ip s f h nonempty refl refl refl on_record in
      let t = assigned new ip s in
      calls-state (IsLinked k)
        (λ (u : Server k).
          encode_packet control (from_bytes cs.session.session_id) (message_value ip_assign ∷ ip))
        (λ packet. sync_send_to k new packet >> modify (emit k (add_route ip))) t linked
        (λ packet e.
          let known : is_owned k t (route ip) ≡ true =
            ground (arith, lookup-insert_self ip cs.addr s.ip_to_addr) in
          let passed = sync_send_to-HasTables k new packet t in
          bind-state (IsLinked k) (sync_send_to k new packet) (λ u. modify (emit k (add_route ip)))
            t
            (λ u t' e'.
              let same : HasTables k t t' = rw e' at passed in
              add_route-IsLinked k ip t' (same.keeps_owned (route ip) known)
                (HasTables-IsLinked k t t' same linked))
            (λ x t' e'. HasTables-IsLinked k t t' (rw e' at passed) linked))

  pool-IsFresh :
      (cs : ClientSession k) (pool : Option IpPool) (s : Server k)
      → IsFresh cs s
      → IsFresh cs (record s { ip_pool = pool })
  pool-IsFresh cs pool s f = record { filed = f.filed; no_ip = f.no_ip; ready = f.ready }

  with_pool-IsLinked :
      (pool : Option IpPool) (s : Server k)
      → IsPooled k pool s.clients
      → IsLinked k s
      → IsLinked k (record s { ip_pool = pool })
  with_pool-IsLinked pool s known h = record {
    at_address = h.at_address;
    mapped = h.mapped;
    no_empty = h.no_empty;
    unassigned = h.unassigned;
    accounted = accounts;
    pooled = known;
  }
    where
      accounts : Accounts k (record s { ip_pool = pool })
      accounts (route ip) e = h.accounted (route ip) e
      accounts (nat i n) e = h.accounted (nat i n) e
      accounts tun e = refl
      accounts listener e = h.accounted listener e

  assign_given-IsLinked :
      (cs : ClientSession k) (pool : IpPool) (s : Server k)
      → s.ip_pool ≡ some pool
      → IsFresh cs s
      → IsLinked k s
      → IsLinked k (state (assign_given p k cs (allocate pool (client_id cs.addr)) s))
  assign_given-IsLinked cs pool s is_pool f h =
      let now : IsPooled k (some pool) s.clients =
        subst (λ (q : Option IpPool). IsPooled k q s.clients) is_pool h.pooled in
      elim (allocate_cases pool (client_id cs.addr)) [
        | inl (empty, e) ↦ rw e (with_pool-IsLinked (some pool) s now h)
        | inr (ip, m, least, e) ↦
            let given = (give pool (client_id cs.addr) ip).1 in
            rw e (
              announce_ip-IsLinked cs (show_ip ip) (record s { ip_pool = some given })
                (pool-IsFresh cs (some given) s f)
                (with_pool-IsLinked (some given) s
                  (given-IsPooled k pool ip cs s.clients m f.filed f.no_ip now) h)
                (show_ip-nonempty ip) (given-Records k pool cs.addr ip))
      ]

  assign_from-IsLinked :
      (cs : ClientSession k) (pool : Option IpPool) (s : Server k)
      → s.ip_pool ≡ pool
      → IsFresh cs s
      → IsLinked k s
      → IsLinked k (state (assign_from p k cs pool s))
  assign_from-IsLinked cs none s e f h = h
  assign_from-IsLinked cs (some pool) s e f h = assign_given-IsLinked cs pool s e f h

  pub assign_ip_to_client-IsLinked :
      (cs : ClientSession k) (s : Server k)
      → IsFresh cs s
      → IsLinked k s
      → IsLinked k (state (assign_ip_to_client p k cs s))
  unfolding assign_ip_to_client
  assign_ip_to_client-IsLinked cs s f h = assign_from-IsLinked cs s.ip_pool s refl f h
