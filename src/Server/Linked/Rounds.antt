-- ===== src/Server/Linked/Rounds.antt =====
-- The TUN handler and the rounds of src/server.py: the tables of the server hang together behind them.
use vpn_app_ai.Prelude.{
  ℕ, ◌-◌, ◌&&◌, leb, ◌≡◌, refl, ap, ◌∙◌, inl, inr, Option, none, some, List, [], ◌∷◌, nat_eq,
  list_eq, arith, Option-cases, length, ltb,
}
use vpn_app_ai.Prelude.Dict.{keys, lookup}
use vpn_app_ai.Prelude.Result.{Outcome, returns, raises, state}
use vpn_app_ai.Prelude.Exec.{◌>>◌, modify, if-outcome, bind-state, calls-state}
use vpn_app_ai.Bytes.{Bytes, from_bytes}
use vpn_app_ai.Crypto.Pki.{Pki, Text}
use vpn_app_ai.Protocol.Messages.{control, keepalive, message_value}
use vpn_app_ai.Protocol.Packet.{encode_packet}
use vpn_app_ai.Protocol.Data.Channel.{Packages, DataChannel, cleanup_fragments}
use vpn_app_ai.Protocol.Data.Encrypt.{encrypt}
use vpn_app_ai.Protocol.Control.Session.{is_established}
use vpn_app_ai.Server.State.{Addr, addr_eq, is_ready, ClientSession, Server, store, sync_send_to}
use vpn_app_ai.Server.Handle.{seconds, stale_addrs, cleanup_stale}
use vpn_app_ai.Server.Tun.{client_of, after_encrypt, encrypt_for, on_tun_readable, ipv4_dest}
use vpn_app_ai.Server.Loop.{
  keepalive_to, send_keepalive, keepalives, send_keepalives, clean_channel, clean_client,
  clean_clients, tick,
}
use vpn_app_ai.Server.Linked.{
  IsLinked, HasTables, HasTables-IsLinked, same_tables, store-IsLinked, sync_send_to-HasTables,
}
use vpn_app_ai.Server.Linked.Steps.{channel_stored}
use vpn_app_ai.Server.Linked.Removals.{remove_clients-IsLinked}

module _ (k : Pki) where
  keepalive_to-HasTables :
      (cs : ClientSession k) (s : Server k) → HasTables k s (state (keepalive_to k cs s))
  keepalive_to-HasTables cs s =
      calls-state (HasTables k s)
        (λ (u : Server k).
          encode_packet control (from_bytes cs.session.session_id) (message_value keepalive ∷ []))
        (sync_send_to k cs) s (same_tables k s) (λ packet e. sync_send_to-HasTables k cs packet s)

  send_keepalive-IsLinked :
      (now : ℕ) (a : Addr) (found : Option (ClientSession k)) (s : Server k)
      → lookup a s.clients ≡ found
      → IsLinked k s
      → IsLinked k (state (send_keepalive k now found s))
  send_keepalive-IsLinked now a none s e h = h
  send_keepalive-IsLinked now a (some cs) s e h =
      let sent = keepalive_to-HasTables cs s in
      let done = λ (t : Server k). store k (record cs { last_keepalive = now }) t in
      if-outcome (IsLinked k)
        (is_ready k cs && leb (seconds s.config.keepalive_interval) (now - cs.last_keepalive))
        ((keepalive_to k cs >> modify done) s) (returns tt s)
        (λ due.
          bind-state (IsLinked k) (keepalive_to k cs) (λ u. modify done) s
            (λ u t e'.
              let same : HasTables k s t = rw e' at sent in
              store-IsLinked k cs (record cs { last_keepalive = now }) t
                (ap (lookup cs.addr) same.same_clients
                  ∙ ap (λ (b : Addr). lookup b s.clients) (h.at_address a cs e)
                  ∙ e)
                (record { same_addr = refl; same_ip = refl; keeps_channel = λ n. n })
                (HasTables-IsLinked k s t same h))
            (λ x t e'. HasTables-IsLinked k s t (rw e' at sent) h))
        (λ early. h)

  keepalives-IsLinked :
      (now : ℕ) (as' : List Addr) (s : Server k)
      → IsLinked k s
      → IsLinked k (state (keepalives k now as' s))
  unfolding keepalives
  keepalives-IsLinked now [] s h = h
  keepalives-IsLinked now (a ∷ as') s h =
      let linked = send_keepalive-IsLinked now a (lookup a s.clients) s refl h in
      bind-state (IsLinked k) (λ (t : Server k). send_keepalive k now (lookup a t.clients) t)
        (λ u. keepalives k now as') s (λ u t e. keepalives-IsLinked now as' t (rw e at linked))
        (λ x t e. rw e at linked)

module _ (p : Packages) (k : Pki) where
  after_encrypt-IsLinked :
      (cs : ClientSession k) (o : Outcome DataChannel (List Bytes)) (s : Server k)
      → lookup cs.addr s.clients ≡ some cs
      → IsLinked k s
      → IsLinked k (state (after_encrypt p k cs o s))
  unfolding after_encrypt
  after_encrypt-IsLinked cs (returns wires d) s found h = channel_stored p k cs d s found h
  after_encrypt-IsLinked cs (raises x d) s found h = channel_stored p k cs d s found h

  encrypt_for-IsLinked :
      (cs : ClientSession k) (d : Option DataChannel) (packet : Bytes) (nonces : ℕ → Bytes)
      (s : Server k)
      → lookup cs.addr s.clients ≡ some cs
      → IsLinked k s
      → IsLinked k (state (encrypt_for p k cs d packet nonces s))
  unfolding encrypt_for
  encrypt_for-IsLinked cs none packet nonces s found h = h
  encrypt_for-IsLinked cs (some d) packet nonces s found h =
      if-outcome (IsLinked k) (is_established k cs.session)
        (after_encrypt p k cs (encrypt p d packet nonces) s) (returns [] s)
        (λ e. after_encrypt-IsLinked cs (encrypt p d packet nonces) s found h) (λ e. h)

  -- The client that a destination leads to is filed.
  client_of-filed :
      (s : Server k) (ip : Text) (cs : ClientSession k)
      → client_of p k s ip ≡ some cs
      → IsLinked k s
      → lookup cs.addr s.clients ≡ some cs
  unfolding client_of
  client_of-filed s ip cs e h = elim (Option-cases (lookup ip s.ip_to_addr)) [
    | inl n ↦ ground (arith, e, n)
    | inr (a, m) ↦
        let found : lookup a s.clients ≡ some cs = ground (arith, e, m) in
        ap (λ (b : Addr). lookup b s.clients) (h.at_address a cs found) ∙ found
  ]

  pub on_tun_readable-IsLinked :
      (packet : Option Bytes) (nonces : ℕ → Bytes) (s : Server k)
      → IsLinked k s
      → IsLinked k (state (on_tun_readable p k packet nonces s))
  unfolding on_tun_readable
  on_tun_readable-IsLinked none nonces s h = h
  on_tun_readable-IsLinked (some packet) nonces s h =
      if-outcome (IsLinked k) (ltb (length packet) 20) (returns [] s) _ (λ e. h)
        (λ e. elim (Option-cases (ipv4_dest packet)) [
          | inl n ↦ rw n h
          | inr (ip, i) ↦ rw i (elim (Option-cases (client_of p k s ip)) [
            | inl n ↦ rw n h
            | inr (cs, c) ↦
                rw c (
                  encrypt_for-IsLinked cs cs.channel packet nonces s (client_of-filed s ip cs c h)
                    h)
          ])
        ])

  clean_channel-IsLinked :
      (now : ℕ) (cs : ClientSession k) (d : Option DataChannel) (s : Server k)
      → lookup cs.addr s.clients ≡ some cs
      → IsLinked k s
      → IsLinked k (clean_channel k now cs d s)
  clean_channel-IsLinked now cs none s found h = h
  clean_channel-IsLinked now cs (some d) s found h =
      channel_stored p k cs (cleanup_fragments d now) s found h

  clean_client-IsLinked :
      (now : ℕ) (a : Addr) (found : Option (ClientSession k)) (s : Server k)
      → lookup a s.clients ≡ found
      → IsLinked k s
      → IsLinked k (clean_client k now found s)
  clean_client-IsLinked now a none s e h = h
  clean_client-IsLinked now a (some cs) s e h =
      clean_channel-IsLinked now cs cs.channel s
        (ap (λ (b : Addr). lookup b s.clients) (h.at_address a cs e) ∙ e) h

  clean_clients-IsLinked :
      (now : ℕ) (as' : List Addr) (s : Server k)
      → IsLinked k s
      → IsLinked k (clean_clients k now as' s)
  unfolding clean_clients
  clean_clients-IsLinked now [] s h = h
  clean_clients-IsLinked now (a ∷ as') s h =
      clean_clients-IsLinked now as' (clean_client k now (lookup a s.clients) s)
        (clean_client-IsLinked now a (lookup a s.clients) s refl h)

  pub tick-IsLinked : (now : ℕ) (s : Server k) → IsLinked k s → IsLinked k (state (tick k now s))
  unfolding tick cleanup_stale send_keepalives
  tick-IsLinked now s h =
      let t = cleanup_stale k now s in
      let swept =
        remove_clients-IsLinked k (stale_addrs k s.config.keepalive_timeout now s.clients) s h in
      let kept = keepalives-IsLinked k now (keys t.clients) t swept in
      bind-state (IsLinked k) (send_keepalives k now)
        (λ u. modify (λ (v : Server k). clean_clients k now (keys v.clients) v)) t
        (λ u v e. clean_clients-IsLinked now (keys v.clients) v (rw e at kept))
        (λ x v e. rw e at kept)
