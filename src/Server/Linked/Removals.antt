-- ===== src/Server/Linked/Removals.antt =====
-- `_remove_client` of src/server.py: the tables of the server hang together behind it.
use vpn_app_ai.Prelude.{
  list_beq, ◌≡◌, ◌≢◌, refl, sym, ap, subst, ◌∙◌, inl, inr, true, false, Option, none, some, List,
  [], ◌∷◌, nat_eq, list_eq, if◌then◌else◌, arith, Option-cases, Bool-cases,
}
use vpn_app_ai.Prelude.Dict.{lookup, remove, lookup-remove}
use vpn_app_ai.Crypto.Pki.{Pki, Text}
use vpn_app_ai.Server.State.{
  Writer, opened, closing, delete_route, close_writer, close_stream, Addr, addr_eq, ClientSession,
  Server, drop_mapping, drop_ip, give_back, drop_client, remove_client, close_tcp_writer,
}
use vpn_app_ai.Server.Handle.{remove_clients}
use vpn_app_ai.Server.Removal.{drop_client-lookup, drop_ip-keeps, close_stream-keeps}
use vpn_app_ai.Server.Resources.{route, nat, tun, listener, held-append}
use vpn_app_ai.Routing.Pool.{IpPool}
use vpn_app_ai.Server.Pooled.{IsPooled, removed-IsPooled}
use vpn_app_ai.Server.Linked.{Accounts, IsLinked}

module _ (k : Pki) where
  -- A client and its address are taken out of a server's tables.
  removed-IsLinked :
      (s t : Server k) (addr : Addr) (cs : ClientSession k)
      → lookup addr s.clients ≡ some cs
      → ((b : Addr)
          → lookup b t.clients ≡ (if addr_eq.same addr b then none else lookup b s.clients))
      → ((ip : Text) (a : Addr)
          → lookup ip t.ip_to_addr ≡ some a
          → (lookup ip s.ip_to_addr ≡ some a) × (cs.virtual_ip ≢ some ip))
      → Accounts k t
      → IsPooled k t.ip_pool t.clients
      → IsLinked k s
      → IsLinked k t
  removed-IsLinked s t addr cs found clients ips known on_record h = record {
    at_address = λ a c e. elim (Bool-cases (addr_eq.same addr a)) [
      | inl same ↦ ground (arith, same, e, clients a)
      | inr differ ↦ h.at_address a c (ground (arith, differ, e, clients a))
    ];
    mapped = λ ip a e.
        let (before, other) = ips ip a e in
        let (c, there, holds) = h.mapped ip a before in
        (
          c,
          elim (Bool-cases (addr_eq.same addr a)) [
            | inl same ↦
                let also : lookup a s.clients ≡ some cs =
                  ap (λ (b : Addr). lookup b s.clients) (sym ((addr_eq.same_iff addr a).0 same))
                  ∙ found in
                let it_is : cs ≡ c = cc (also, there) in
                absurd (other (ap (λ (x : ClientSession k). x.virtual_ip) it_is ∙ holds))
            | inr differ ↦ ground (arith, differ, there, clients a)
          ],
          holds,
        );
    no_empty = elim (Option-cases (lookup [] t.ip_to_addr)) [
      | inl n ↦ n
      | inr (a, e) ↦ let (before, other) = ips [] a e in cc (before, h.no_empty)
    ];
    unassigned = λ a c e n. elim (Bool-cases (addr_eq.same addr a)) [
      | inl same ↦ ground (arith, same, e, clients a)
      | inr differ ↦ h.unassigned a c (ground (arith, differ, e, clients a)) n
    ];
    accounted = known;
    pooled = on_record;
  }

  drop_mapping-lookup :
      (found : Option Addr) (v : Text) (s : Server k) (ip : Text) (a : Addr)
      → lookup v s.ip_to_addr ≡ found
      → lookup ip (drop_mapping k found v s).ip_to_addr ≡ some a
      → (lookup ip s.ip_to_addr ≡ some a) × (list_eq.same v ip ≡ false)
  drop_mapping-lookup none v s ip a e f = (
    f,
    elim (Bool-cases (list_eq.same v ip)) [
      | inl same ↦
          let nothing : lookup ip s.ip_to_addr ≡ none =
            ap (λ (x : Text). lookup x s.ip_to_addr) (sym ((list_eq.same_iff v ip).0 same)) ∙ e in
          cc (nothing, f)
      | inr differ ↦ differ
    ],
  )
  drop_mapping-lookup (some b) v s ip a e f = elim (Bool-cases (list_eq.same v ip)) [
    | inl same ↦ ground (arith, same, f, lookup-remove v ip s.ip_to_addr)
    | inr differ ↦ (ground (arith, differ, f, lookup-remove v ip s.ip_to_addr), differ)
  ]

  drop_ip-lookup :
      (v : Option Text) (s : Server k) (ip : Text) (a : Addr)
      → lookup [] s.ip_to_addr ≡ none
      → lookup ip (drop_ip k v s).ip_to_addr ≡ some a
      → (lookup ip s.ip_to_addr ≡ some a) × (v ≢ some ip)
  drop_ip-lookup none s ip a e f = (f, λ q. cc q)
  drop_ip-lookup (some []) s ip a e f = (
    f,
    λ q.
        let text : [] ≡ ip = cc q in
        let nothing : lookup ip s.ip_to_addr ≡ none =
          ap (λ (x : Text). lookup x s.ip_to_addr) (sym text) ∙ e in
        cc (nothing, f),
  )
  drop_ip-lookup (some (c ∷ cs)) s ip a e f =
      let (before, other) =
        drop_mapping-lookup (lookup (c ∷ cs) s.ip_to_addr) (c ∷ cs) s ip a refl f in
      (
        before,
        λ q.
            let text : c ∷ cs ≡ ip = cc q in
            let same : list_eq.same (c ∷ cs) ip ≡ true = (list_eq.same_iff (c ∷ cs) ip).1 text in
            cc (same, other),
      )

  -- The route of an address goes with its mapping.
  drop_mapping-Accounts :
      (found : Option Addr) (v : Text) (s : Server k)
      → Accounts k s
      → Accounts k (drop_mapping k found v s)
  drop_mapping-Accounts none v s h = h
  drop_mapping-Accounts (some b) v s h = known
    where
      known : Accounts k (drop_mapping k (some b) v s)
      known (route ip) e = elim (Bool-cases (list_beq v ip)) [
        | inl same ↦ ground (arith, same, e, held-append (route ip) s.effects (delete_route v))
        | inr differ ↦ ground (
          arith,
          differ,
          e,
          held-append (route ip) s.effects (delete_route v),
          h (route ip),
          lookup-remove v ip s.ip_to_addr,
        )
      ]
      known (nat i n) e = h (nat i n) (sym (held-append (nat i n) s.effects (delete_route v)) ∙ e)
      known tun e = refl
      known listener e = h listener (sym (held-append listener s.effects (delete_route v)) ∙ e)

  drop_ip-Accounts : (v : Option Text) (s : Server k) → Accounts k s → Accounts k (drop_ip k v s)
  drop_ip-Accounts none s h = h
  drop_ip-Accounts (some []) s h = h
  drop_ip-Accounts (some (c ∷ cs)) s h =
      drop_mapping-Accounts (lookup (c ∷ cs) s.ip_to_addr) (c ∷ cs) s h

  pub close_stream-Accounts :
      (w : Option Writer) (a : Addr) (s : Server k)
      → Accounts k s
      → Accounts k (close_stream k w a s)
  close_stream-Accounts none a s h = h
  close_stream-Accounts (some opened) a s h =
      λ r e. h r (sym (held-append r s.effects (close_writer a)) ∙ e)
  close_stream-Accounts (some closing) a s h = h

  pub drop_client-IsLinked :
      (found : Option (ClientSession k)) (addr : Addr) (s : Server k)
      → lookup addr s.clients ≡ found
      → IsLinked k s
      → IsLinked k (drop_client k found addr s)
  unfolding close_tcp_writer
  drop_client-IsLinked none addr s e h = h
  drop_client-IsLinked (some cs) addr s e h =
      let popped = record s { clients = remove addr s.clients } in
      let unrouted = drop_ip k cs.virtual_ip popped in
      let given = record unrouted { ip_pool = give_back k cs unrouted.ip_pool } in
      let kept = close_stream-keeps k cs.writer cs.addr given in
      let closed = drop_client k (some cs) addr s in
      let pool_is : closed.ip_pool ≡ give_back k cs s.ip_pool =
        kept.2 ∙ ap (give_back k cs) (drop_ip-keeps k cs.virtual_ip popped).1 in
      let on_record =
        removed-IsPooled k s.ip_pool cs s.clients closed.clients
          (λ b.
            subst
              (λ (x : Addr).
                lookup b closed.clients ≡ (if addr_eq.same x b then none else lookup b s.clients))
              (sym (h.at_address addr cs e)) (drop_client-lookup k (some cs) addr b s e))
          h.pooled in
      removed-IsLinked s (drop_client k (some cs) addr s) addr cs e
        (λ b. drop_client-lookup k (some cs) addr b s e)
        (λ ip a f.
          drop_ip-lookup cs.virtual_ip popped ip a h.no_empty (ap (lookup ip) (sym kept.1) ∙ f))
        (close_stream-Accounts cs.writer cs.addr given
          (drop_ip-Accounts cs.virtual_ip popped h.accounted))
        (subst (λ (q : Option IpPool). IsPooled k q closed.clients) (sym pool_is) on_record) h

  pub remove_clients-IsLinked :
      (as' : List Addr) (s : Server k) → IsLinked k s → IsLinked k (remove_clients k as' s)
  unfolding remove_clients remove_client
  remove_clients-IsLinked [] s h = h
  remove_clients-IsLinked (a ∷ as') s h =
      remove_clients-IsLinked as' (remove_client k a s)
        (drop_client-IsLinked (lookup a s.clients) a s refl h)
