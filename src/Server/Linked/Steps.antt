-- ===== src/Server/Linked/Steps.antt =====
-- `handle_udp_data` of src/server.py: the tables of the server hang together behind it.
use vpn_app_ai.Prelude.{
  ℕ, ◌≡◌, refl, ap, ◌∙◌, Option, none, some, List, [], ◌∷◌, nat_eq, nat_beq, list_eq, if◌then◌else◌,
}
use vpn_app_ai.Prelude.Dict.{lookup}
use vpn_app_ai.Prelude.Result.{Result, ok, raise, Outcome, returns, raises, state}
use vpn_app_ai.Prelude.Exec.{Exec, ◌>>=◌, ◌>>◌, pure, if-state, bind-state, calls-state}
use vpn_app_ai.Bytes.{Bytes}
use vpn_app_ai.Crypto.Pki.{Pki}
use vpn_app_ai.Protocol.Packet.{decode_packet}
use vpn_app_ai.Protocol.Messages.{control, data_packet, opcode_value, Opcode, message_of}
use vpn_app_ai.Protocol.Data.Channel.{Packages, DataChannel}
use vpn_app_ai.Protocol.Data.Decrypt.{decrypt, is_value_or_index_error}
use vpn_app_ai.Protocol.Control.Session.{Session, is_established}
use vpn_app_ai.Server.State.{tun_write, addr_eq, ClientSession, Server, store, send_all}
use vpn_app_ai.Server.Handle.{
  control_handler, after_handler, on_session, start_channel, apply_handler, on_decoded,
  handle_message, handle_control, deliver_plain, after_decrypt, handle_data, handle_known,
}
use vpn_app_ai.Server.Linked.{
  IsLinked, HasTables, HasTables-IsLinked, same_tables, emit-HasTables, store-IsLinked, store-found,
  send_all-HasTables,
}
use vpn_app_ai.Server.Linked.Opening.{start_channel-IsLinked}

module _ (p : Packages) (k : Pki) where
  after_handler-state {π} :
      (P : Server k → Type π) (cs : ClientSession k)
      (f : List Bytes × ClientSession k → Exec (Server k) (Unit {0}))
      (o : Outcome (Session k) (List Bytes)) (s : Server k)
      → ((packets : List Bytes) (t : Session k)
          → P (
              state
                (f (packets, record cs { session = t }) (store k (record cs { session = t }) s))))
      → ((t : Session k) → P (store k (record cs { session = t }) s))
      → P (
          state (elim (after_handler p k cs o s) [ returns a t ↦ f a t | raises x t ↦ raises x t ]))
  after_handler-state P cs f (returns packets t) s h l = h packets t
  after_handler-state P cs f (raises x t) s h l = l t

  session_stored :
      (cs : ClientSession k) (t : Session k) (s : Server k)
      → lookup cs.addr s.clients ≡ some cs
      → IsLinked k s
      → IsLinked k (store k (record cs { session = t }) s)
  session_stored cs t s found h =
      store-IsLinked k cs (record cs { session = t }) s found
        (record { same_addr = refl; same_ip = refl; keeps_channel = λ n. n }) h

  -- A handler on a client's session, and then a method that keeps the tables together.
  pub on_session-IsLinked :
      (cs : ClientSession k) (handler : Exec (Session k) (List Bytes))
      (f : List Bytes × ClientSession k → Exec (Server k) (Unit {0})) (s : Server k)
      → lookup cs.addr s.clients ≡ some cs
      → IsLinked k s
      → ((packets : List Bytes) (c : ClientSession k) (t : Server k)
          → lookup c.addr t.clients ≡ some c
          → IsLinked k t
          → IsLinked k (state (f (packets, c) t)))
      → IsLinked k (state ((on_session p k cs handler >>= f) s))
  unfolding on_session
  on_session-IsLinked cs handler f s found h rest =
      after_handler-state (IsLinked k) cs f (handler cs.session) s
        (λ packets t.
          let c = record cs { session = t } in
          rest packets c (store k c s) (store-found k c s) (session_stored cs t s found h))
        (λ t. session_stored cs t s found h)

  after_packets :
      (c : ClientSession k) (packets : List Bytes) (t : Server k)
      → lookup c.addr t.clients ≡ some c
      → IsLinked k t
      → IsLinked k (state ((send_all k c packets >> start_channel p k c) t))
  after_packets c packets t found h =
      let sent = send_all-HasTables k c packets t in
      bind-state (IsLinked k) (send_all k c packets) (λ u. start_channel p k c) t
        (λ u t' e.
          let same : HasTables k t t' = rw e at sent in
          start_channel-IsLinked p k c t' (ap (lookup c.addr) same.same_clients ∙ found)
            (HasTables-IsLinked k t t' same h))
        (λ x t' e. HasTables-IsLinked k t t' (rw e at sent) h)

  handled-IsLinked :
      (cs : ClientSession k) (inner : Bytes)
      (found_handler : Option (Bytes → Exec (Session k) (List Bytes))) (s : Server k)
      → lookup cs.addr s.clients ≡ some cs
      → IsLinked k s
      → IsLinked k (state (apply_handler p k cs inner found_handler s))
  handled-IsLinked cs inner none s found h = h
  handled-IsLinked cs inner (some handler) s found h =
      on_session-IsLinked cs (handler inner)
        (λ (packets, cs'). send_all k cs' packets >> start_channel p k cs') s found h
        (λ packets c t. after_packets c packets t)

  handle_message-IsLinked :
      (cs : ClientSession k) (payload : Bytes) (s : Server k)
      → lookup cs.addr s.clients ≡ some cs
      → IsLinked k s
      → IsLinked k (state (handle_message p k cs payload s))
  unfolding handle_message
  handle_message-IsLinked cs [] s found h = h
  handle_message-IsLinked cs (t ∷ inner) s found h =
      calls-state (IsLinked k) (λ (u : Server k). message_of t)
        (λ msg_type. apply_handler p k cs inner (control_handler k msg_type)) s h
        (λ msg_type e. handled-IsLinked cs inner (control_handler k msg_type) s found h)

  decoded-IsLinked :
      (cs : ClientSession k) (r : Result (Opcode × ℕ × Bytes)) (s : Server k)
      → lookup cs.addr s.clients ≡ some cs
      → IsLinked k s
      → IsLinked k (state (on_decoded p k cs r s))
  decoded-IsLinked cs (ok (o, sid, payload)) s found h =
      handle_message-IsLinked cs payload s found h
  decoded-IsLinked cs (raise x) s found h =
      if-state (IsLinked k) (is_value_or_index_error x) (pure tt) (raises x) s (λ e. h) (λ e. h)

  handle_control-IsLinked :
      (cs : ClientSession k) (packet : Bytes) (s : Server k)
      → lookup cs.addr s.clients ≡ some cs
      → IsLinked k s
      → IsLinked k (state (handle_control p k cs packet s))
  unfolding handle_control
  handle_control-IsLinked cs packet s found h = decoded-IsLinked cs (decode_packet packet) s found h

  pub channel_stored :
      (cs : ClientSession k) (d : DataChannel) (s : Server k)
      → lookup cs.addr s.clients ≡ some cs
      → IsLinked k s
      → IsLinked k (store k (record cs { channel = some d }) s)
  channel_stored cs d s found h =
      store-IsLinked k cs (record cs { channel = some d }) s found
        (record { same_addr = refl; same_ip = refl; keeps_channel = λ n. cc n }) h

  deliver_plain-HasTables :
      (plain : Option Bytes) (s : Server k) → HasTables k s (deliver_plain p k plain s)
  unfolding deliver_plain
  deliver_plain-HasTables none s = same_tables k s
  deliver_plain-HasTables (some []) s = same_tables k s
  deliver_plain-HasTables (some (b ∷ bs)) s = emit-HasTables k (tun_write (b ∷ bs)) s (λ r b. refl)

  after_decrypt-IsLinked :
      (cs : ClientSession k) (o : Outcome DataChannel (Option Bytes)) (s : Server k)
      → lookup cs.addr s.clients ≡ some cs
      → IsLinked k s
      → IsLinked k (state (after_decrypt p k cs o s))
  unfolding after_decrypt
  after_decrypt-IsLinked cs (returns plain d) s found h =
      let t = store k (record cs { channel = some d }) s in
      HasTables-IsLinked k t _ (deliver_plain-HasTables plain t) (channel_stored cs d s found h)
  after_decrypt-IsLinked cs (raises x d) s found h = channel_stored cs d s found h

  handle_data-IsLinked :
      (now : ℕ) (cs : ClientSession k) (d : Option DataChannel) (packet : Bytes) (s : Server k)
      → lookup cs.addr s.clients ≡ some cs
      → IsLinked k s
      → IsLinked k (state (handle_data p k now cs d packet s))
  unfolding handle_data
  handle_data-IsLinked now cs none packet s found h = h
  handle_data-IsLinked now cs (some d) packet s found h =
      if-state (IsLinked k) (is_established k cs.session)
        (after_decrypt p k cs (decrypt p d packet now)) (pure tt) s
        (λ e. after_decrypt-IsLinked cs (decrypt p d packet now) s found h) (λ e. h)

  -- What a known client sent.
  pub handle_known-IsLinked :
      (now o : ℕ) (old : ClientSession k) (packet : Bytes) (s : Server k)
      → lookup old.addr s.clients ≡ some old
      → IsLinked k s
      → IsLinked k (state (handle_known p k now o old packet s))
  unfolding handle_known
  handle_known-IsLinked now o old packet s found h =
      let cs = record old { last_seen = now } in
      let t = store k cs s in
      let linked =
        store-IsLinked k old cs s found
          (record { same_addr = refl; same_ip = refl; keeps_channel = λ n. n }) h in
      let filed = store-found k cs s in
      if-state (IsLinked k) (nat_beq o (opcode_value control)) (handle_control p k cs packet)
        (if nat_beq o (opcode_value data_packet)
          then handle_data p k now cs cs.channel packet
          else pure tt)
        t (λ e. handle_control-IsLinked cs packet t filed linked)
        (λ e.
          if-state (IsLinked k) (nat_beq o (opcode_value data_packet))
            (handle_data p k now cs cs.channel packet) (pure tt) t
            (λ e'. handle_data-IsLinked now cs cs.channel packet t filed linked) (λ e'. linked))
