-- ===== src/Server/Pooled.antt =====
-- How the clients of src/server.py and the records of its `IpPool` hang together.
use vpn_app_ai.Prelude.{
  ℕ, ◌≡◌, refl, sym, ap, subst, ◌∙◌, inl, inr, true, false, Option, none, some, nat_eq, list_eq,
  list_beq, list_beq_iff, if◌then◌else◌, arith, Bool-cases, Option-cases,
}
use vpn_app_ai.Prelude.Dict.{Dict, lookup, insert, lookup-insert, lookup-insert_self, lookup-remove}
use vpn_app_ai.Prelude.NatSet.{member}
use vpn_app_ai.Crypto.Pki.{Pki, Text}
use vpn_app_ai.Config.{is_set}
use vpn_app_ai.Ipv4.{show_ip}
use vpn_app_ai.Ipv4.Shown.{show_ip_same}
use vpn_app_ai.Routing.Pool.{IpPool, give, release}
use vpn_app_ai.Routing.Pool.Soundness.{IsSound, give-IsSound, release-IsSound}
use vpn_app_ai.Routing.Pool.Range.{IsInRange, give-IsInRange, release-IsInRange}
use vpn_app_ai.Server.ClientId.{client_id_same}
use vpn_app_ai.Server.State.{Addr, addr_eq, client_id, ClientSession, give_back}

abbrev pub Records : Option IpPool → Addr → Text → Type 0
Records none a ip = ⊥
Records (some p) a ip = (n : ℕ) × (lookup (client_id a) p.allocated ≡ some n) × (show_ip n ≡ ip)

abbrev pub IsSoundPool : Option IpPool → Type 0
IsSoundPool none = Unit {0}
IsSoundPool (some p) = IsSound p × IsInRange p

module _ (k : Pki) where
  -- The pool is sound, and the address of each client is on record there as the client's.
  pub record IsPooled (pool : Option IpPool) (clients : Dict Addr (ClientSession k)) : Type 0 where
    pub sound : IsSoundPool pool
    pub recorded :
        (a : Addr) (cs : ClientSession k) (ip : Text)
        → lookup a clients ≡ some cs
        → cs.virtual_ip ≡ some ip
        → Records pool a ip

  Records-same :
      (pool : Option IpPool) (a b : Addr) (ip : Text)
      → IsSoundPool pool
      → Records pool a ip
      → Records pool b ip
      → a ≡ b
  Records-same none a b ip s r r' = absurd r
  Records-same (some p) a b ip (s, g) (n, held, shown) (n', held', shown') =
      let one : n ≡ n' =
        show_ip_same n n' (g.held (client_id a) n held) (g.held (client_id b) n' held')
          (shown ∙ sym shown') in
      let mine = s.held (client_id a) n held in
      let yours = s.held (client_id b) n' held' in client_id_same a b (cc (mine, yours, one))

  -- Two clients with one address are the same.
  pub IsPooled-exclusive :
      (pool : Option IpPool) (clients : Dict Addr (ClientSession k)) (a b : Addr)
      (c d : ClientSession k) (ip : Text)
      → IsPooled pool clients
      → lookup a clients ≡ some c
      → lookup b clients ≡ some d
      → c.virtual_ip ≡ some ip
      → d.virtual_ip ≡ some ip
      → a ≡ b
  IsPooled-exclusive pool clients a b c d ip h found found' has has' =
      Records-same pool a b ip h.sound (h.recorded a c ip found has) (h.recorded b d ip found' has')

  -- Where every address of the new table comes from the old one.
  pub same_addresses-IsPooled :
      (pool : Option IpPool) (old new : Dict Addr (ClientSession k))
      → ((a : Addr) (c : ClientSession k) (ip : Text)
          → lookup a new ≡ some c
          → c.virtual_ip ≡ some ip
          → (d : ClientSession k) × (lookup a old ≡ some d) × (d.virtual_ip ≡ some ip))
      → IsPooled pool old
      → IsPooled pool new
  same_addresses-IsPooled pool old new from h = record {
    sound = h.sound;
    recorded = λ a c ip found has.
        let (d, before, had) = from a c ip found has in h.recorded a d ip before had;
  }

  other_id : (a b : Addr) → addr_eq.same a b ≡ false → list_beq (client_id a) (client_id b) ≡ false
  other_id a b differ = elim (Bool-cases (list_beq (client_id a) (client_id b))) [
    | inr e ↦ e
    | inl e ↦
        let same : addr_eq.same a b ≡ true =
          (addr_eq.same_iff a b).1
            (client_id_same a b ((list_beq_iff (client_id a) (client_id b)).0 e)) in
        cc (same, differ)
  ]

  -- The pool gives an address for a client that has none yet.
  pub given-IsPooled :
      (p : IpPool) (n : ℕ) (cs : ClientSession k) (clients : Dict Addr (ClientSession k))
      → member n p.available ≡ true
      → lookup cs.addr clients ≡ some cs
      → cs.virtual_ip ≡ none
      → IsPooled (some p) clients
      → IsPooled (some (give p (client_id cs.addr) n).1) clients
  given-IsPooled p n cs clients free filed no_ip h = record {
    sound = (
      give-IsSound p (client_id cs.addr) n h.sound.0 free,
      give-IsInRange p (client_id cs.addr) n h.sound.1 free,
    );
    recorded = λ a c ip found holds. elim (Bool-cases (addr_eq.same cs.addr a)) [
      | inl same ↦
          let here : cs.addr ≡ a = (addr_eq.same_iff cs.addr a).0 same in
          let it_is : cs ≡ c = cc (filed, ap (λ (b : Addr). lookup b clients) here, found) in
          let nothing : c.virtual_ip ≡ none =
            ap (λ (x : ClientSession k). x.virtual_ip) (sym it_is) ∙ no_ip in
          cc (nothing, holds)
      | inr differ ↦
          let (m, held, shown) = h.recorded a c ip found holds in
          (
            m,
            ground (
              arith,
              held,
              other_id cs.addr a differ,
              lookup-insert (client_id cs.addr) (client_id a) n p.allocated,
            ),
            shown,
          )
    ];
  }

  -- What the pool has given is on record.
  pub given-Records :
      (p : IpPool) (a : Addr) (n : ℕ) → Records (some (give p (client_id a) n).1) a (show_ip n)
  given-Records p a n = (n, lookup-insert_self (client_id a) n p.allocated, refl)

  -- A client is filed with an address that is on record as its own.
  pub assigned-IsPooled :
      (pool : Option IpPool) (new : ClientSession k) (ip : Text) (old : Dict Addr (ClientSession k))
      → new.virtual_ip ≡ some ip
      → Records pool new.addr ip
      → IsPooled pool old
      → IsPooled pool (insert new.addr new old)
  assigned-IsPooled pool new ip old has known h = record {
    sound = h.sound;
    recorded = λ a c ip' found holds. elim (Bool-cases (addr_eq.same new.addr a)) [
      | inl same ↦
          let here : new.addr ≡ a = (addr_eq.same_iff new.addr a).0 same in
          let it_is : new ≡ c = ground (arith, same, found, lookup-insert new.addr a new old) in
          let text : ip ≡ ip' = cc (has, ap (λ (x : ClientSession k). x.virtual_ip) it_is, holds) in
          subst (Records pool a) text (subst (λ (b : Addr). Records pool b ip) here known)
      | inr differ ↦
          h.recorded a c ip' (ground (arith, differ, found, lookup-insert new.addr a new old)) holds
    ];
  }

  released :
      (p : IpPool) (a b : Addr) (ip : Text)
      → addr_eq.same a b ≡ false
      → Records (some p) b ip
      → Records (some (release p (client_id a))) b ip
  unfolding release
  released p a b ip differ (m, held, shown) =
      elim (Option-cases (lookup (client_id a) p.allocated)) [
        | inl absent ↦ rw (absent, release) (m, held, shown)
        | inr (n, e) ↦
            rw (e, release)
              (
                m,
                ground (
                  arith,
                  held,
                  other_id a b differ,
                  lookup-remove (client_id a) (client_id b) p.allocated,
                ),
                shown,
              )
      ]

  -- A client goes, and its address goes back to the pool.
  pub removed-IsPooled :
      (pool : Option IpPool) (cs : ClientSession k) (old new : Dict Addr (ClientSession k))
      → ((b : Addr) → lookup b new ≡ (if addr_eq.same cs.addr b then none else lookup b old))
      → IsPooled pool old
      → IsPooled (give_back k cs pool) new
  removed-IsPooled none cs old new gone h =
      same_addresses-IsPooled none old new
        (λ a c ip found has.
          (c, ground (arith, found, gone a, Bool-cases (addr_eq.same cs.addr a)), has))
        h
  removed-IsPooled (some p) cs old new gone h = elim (Bool-cases (is_set cs.virtual_ip)) [
    | inl set ↦ rw set (record {
      sound = (
        release-IsSound p (client_id cs.addr) h.sound.0,
        release-IsInRange p (client_id cs.addr) h.sound.1,
      );
      recorded = λ a c ip found has. elim (Bool-cases (addr_eq.same cs.addr a)) [
        | inl same ↦ absurd (ground (arith, same, found, gone a))
        | inr differ ↦
            released p cs.addr a ip differ
              (h.recorded a c ip (ground (arith, differ, found, gone a)) has)
      ];
    })
    | inr unset ↦ rw unset (
        same_addresses-IsPooled (some p) old new
          (λ a c ip found has.
            (c, ground (arith, found, gone a, Bool-cases (addr_eq.same cs.addr a)), has))
          h)
  ]
