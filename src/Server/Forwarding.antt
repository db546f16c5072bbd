-- ===== src/Server/Forwarding.antt =====
-- What data packets do to the server of src/server.py.
use vpn_app_ai.Prelude.{
  ℕ, Bool, false, ◌&&◌, Option, none, some, ◌∷◌, nat_eq, list_eq, ◌≡◌, refl, inl, inr, arith,
  Bool-cases, Option-cases,
}
use vpn_app_ai.Prelude.Dict.{lookup}
use vpn_app_ai.Prelude.Result.{returns}
use vpn_app_ai.Bytes.{Bytes}
use vpn_app_ai.Crypto.Pki.{Pki}
use vpn_app_ai.Protocol.Data.Channel.{Packages, DataChannel}
use vpn_app_ai.Protocol.Messages.{data_packet, opcode_value}
use vpn_app_ai.Protocol.Control.Session.{is_established}
use vpn_app_ai.Server.State.{
  Addr, addr_eq, ClientSession, Server, Surroundings, store, is_ready, is_some,
}
use vpn_app_ai.Server.Handle.{handle_known, handle_data, handle_udp_data}

module _ (p : Packages) (k : Pki) where
  -- The address belongs to a client that is established and has its channel.
  abbrev pub serves : Server k → Addr → Bool
  serves s addr = elim (lookup addr s.clients) [ none ↦ false | some cs ↦ is_ready k cs ]

  handle_data-effects :
      (now : ℕ) (cs : ClientSession k) (d : Option DataChannel) (packet : Bytes) (s : Server k)
      → is_established k cs.session && is_some d ≡ false
      → handle_data p k now cs d packet s ≡ returns tt s
  unfolding handle_data
  handle_data-effects now cs none packet s h = refl
  handle_data-effects now cs (some d) packet s h =
      ground (arith, Bool-cases (is_established k cs.session))

  -- A data packet from an address that is no established client with a channel writes nothing to the
  -- TUN device, sends nothing and raises nothing.
  pub unready_data-effects :
      (env : Surroundings k) (rest : Bytes) (addr : Addr) (s : Server k)
      → serves s addr ≡ false
      → (t : Server k) × (handle_udp_data p k env (opcode_value data_packet ∷ rest) addr s
          ≡ returns tt t)
        × (t.effects ≡ s.effects)
  unfolding handle_udp_data handle_known is_ready opcode_value
  unready_data-effects env rest addr s h = elim (Option-cases (lookup addr s.clients)) [
    | inl n ↦ (s, ground (arith, n), refl)
    | inr (cs, c) ↦
        let cs' = record cs { last_seen = env.now } in
        (
          store k cs' s,
          ground (
            arith,
            h,
            c,
            handle_data-effects env.now cs' cs.channel (opcode_value data_packet ∷ rest)
                (store k cs' s),
          ),
          refl,
        )
  ]
