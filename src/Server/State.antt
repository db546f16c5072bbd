-- ===== src/Server/State.antt =====
-- The state of `VpnServer` and `ClientSession` in src/server.py, and what the handlers share. Sends,
-- writes and route changes are recorded in order in `effects`. Times are in milliseconds.
use vpn_app_ai.Prelude.{
  ℕ, Bool, true, false, ◌&&◌, Option, none, some, List, [], ◌∷◌, ◌++◌, nat_beq, nat_eq, list_eq,
  list_beq, list_beq_iff, Eq, if◌then◌else◌, ◌≡◌, ◌↔◌, arith, nat_beq_iff,
}
use vpn_app_ai.Prelude.Dict.{Dict, lookup, insert, remove}
use vpn_app_ai.Prelude.Texts.{show_nat}
use vpn_app_ai.Prelude.Result.{Outcome, returns, raises}
use vpn_app_ai.Prelude.Exec.{Exec, ◌>>=◌, ◌>>◌, pure, modify, calls}
use vpn_app_ai.Bytes.{Bytes}
use vpn_app_ai.Crypto.Pki.{Pki, Text}
use vpn_app_ai.Config.{Config, tcp, is_set}
use vpn_app_ai.Protocol.Framing.{frame_packet}
use vpn_app_ai.Protocol.Data.Channel.{DataChannel}
use vpn_app_ai.Protocol.Control.Session.{Session, new_session, configure, is_established}
use vpn_app_ai.Routing.Pool.{IpPool, release}

-- The peer's address, a host and a port.
pub record Addr : Type 0 where
  pub host : Text
  pub port : ℕ

abbrev pub addr_beq : Addr → Addr → Bool
addr_beq a b = list_beq a.host b.host && nat_beq a.port b.port

pub addr_beq_iff : (a b : Addr) → (addr_beq a b ≡ true) ↔ (a ≡ b)
addr_beq_iff a b = ground (arith, list_beq_iff a.host b.host, nat_beq_iff a.port b.port)

instance abbrev pub addr_eq : Eq Addr
addr_eq = record { same = addr_beq; same_iff = addr_beq_iff }

-- `str(addr)` of a pair of a text and a port: ('host', port).
unfoldable pub client_id : Addr → Text
unfolding show_nat
client_id a = b'(' ∷ 39 ∷ a.host ++ (39 ∷ b',' ∷ b' ' ∷ show_nat a.port a.port ++ (b')' ∷ []))

-- The stream of a TCP client.
pub data Writer : Type 0 where
  opened closing : Writer

pub data Effect : Type 0 where
  sendto : Bytes → Addr → Effect
  write : Bytes → Addr → Effect
  tun_write : Bytes → Effect
  add_route delete_route : Text → Effect
  close_writer : Addr → Effect
  tun_opened tun_closed forwarding_enabled listener_opened listener_closed : Effect
  ip_set : Text → Effect
  mtu_set : ℕ → Effect
  nat_set_up nat_torn_down : Text → Text → Effect
  privileges_dropped : Option Text → Effect

pub record ClientSession (k : Pki) : Type 0 where
  pub addr : Addr
  pub session : Session k
  pub channel : Option DataChannel
  pub virtual_ip : Option Text
  pub last_seen : ℕ
  pub last_keepalive : ℕ
  pub writer : Option Writer

pub record Server (k : Pki) : Type 0 where
  pub config : Config
  pub clients : Dict Addr (ClientSession k)
  pub ip_to_addr : Dict Text Addr
  pub ip_pool : Option IpPool
  pub has_transport : Bool
  pub nat_interface : Option Text
  pub effects : List Effect

-- What the surroundings give a call: the time, and the random choices for a new session.
pub record Surroundings (k : Pki) : Type 0 where
  pub now : ℕ
  pub urandom : Bytes
  pub eph : k.PrivateKey

abbrev pub is_tcp : Config → Bool
is_tcp c = list_beq c.proto tcp

abbrev pub is_some {ℓ} : {A : Type ℓ} → Option A → Bool
is_some none = false
is_some (some a) = true

module _ (k : Pki) where
  unfoldable pub is_ready : ClientSession k → Bool
  is_ready cs = is_established k cs.session && is_some cs.channel

  abbrev pub emit : Effect → Server k → Server k
  emit x s = record s { effects = s.effects ++ x ∷ [] }

  -- The client object is shared with `clients`, so a change to it shows there.
  abbrev pub store : ClientSession k → Server k → Server k
  store cs s = record s { clients = insert cs.addr cs s.clients }

  -- `_sync_send_to`
  unfoldable pub sync_send_to : ClientSession k → Bytes → Exec (Server k) (Unit {0})
  sync_send_to cs packet s =
      if is_tcp s.config && is_some cs.writer
      then (do frame ← calls (λ _. frame_packet packet); modify (emit (write frame cs.addr))) s
      else if s.has_transport
      then returns tt (emit (sendto packet cs.addr) s)
      else returns tt s

  unfoldable pub send_all : ClientSession k → List Bytes → Exec (Server k) (Unit {0})
  send_all cs [] = pure tt
  send_all cs (p ∷ ps) = do sync_send_to cs p; send_all cs ps

  abbrev pub close_stream : Option Writer → Addr → Server k → Server k
  close_stream none addr s = s
  close_stream (some opened) addr s = emit (close_writer addr) s
  close_stream (some closing) addr s = s

  -- `_close_tcp_writer`
  unfoldable pub close_tcp_writer : ClientSession k → Server k → Server k
  close_tcp_writer cs s = close_stream cs.writer cs.addr s

  abbrev pub drop_mapping : Option Addr → Text → Server k → Server k
  drop_mapping none ip s = s
  drop_mapping (some a) ip s =
      emit (delete_route ip) (record s { ip_to_addr = remove ip s.ip_to_addr })

  abbrev pub drop_ip : Option Text → Server k → Server k
  drop_ip none s = s
  drop_ip (some []) s = s
  drop_ip (some (c ∷ cs)) s = drop_mapping (lookup (c ∷ cs) s.ip_to_addr) (c ∷ cs) s

  abbrev pub give_back : ClientSession k → Option IpPool → Option IpPool
  give_back cs none = none
  give_back cs (some pool) =
      if is_set cs.virtual_ip then some (release pool (client_id cs.addr)) else some pool

  abbrev pub drop_client : Option (ClientSession k) → Addr → Server k → Server k
  drop_client none addr s = s
  drop_client (some cs) addr s =
      let popped = record s { clients = remove addr s.clients } in
      let unrouted = drop_ip cs.virtual_ip popped in
      close_tcp_writer cs (record unrouted { ip_pool = give_back cs unrouted.ip_pool })

  -- `_remove_client`
  unfoldable pub remove_client : Addr → Server k → Server k
  unfolding close_tcp_writer
  remove_client addr s = drop_client (lookup addr s.clients) addr s

  -- A session for a new client: in authenticated mode it reads the server's certificate.
  abbrev pub fresh_session : Surroundings k → Config → Outcome (Session k) (Unit {0})
  fresh_session env c =
      let s = new_session k true env.urandom env.eph env.now in
      elim c.ca [
        | some (a ∷ ca) ↦ elim c.cert [
          | some (b ∷ cert) ↦ elim c.key [
            | some (d ∷ key) ↦ configure k (a ∷ ca) (b ∷ cert) (d ∷ key) s
            | _ ↦ returns tt s
          ]
          | _ ↦ returns tt s
        ]
        | _ ↦ returns tt s
      ]

  abbrev pub new_client :
      Surroundings k
      → Addr
      → Option Writer
      → Outcome (Session k) (Unit {0})
      → Exec (Server k) (ClientSession k)
  new_client env addr writer (raises x session) s = raises x s
  new_client env addr writer (returns u session) s =
      let cs : ClientSession k = record {
        addr = addr;
        session = session;
        channel = none;
        virtual_ip = none;
        last_seen = env.now;
        last_keepalive = 0;
        writer = writer;
      } in
      returns cs (store cs s)

  abbrev pub found_or_new :
      Surroundings k
      → Addr
      → Option Writer
      → Option (ClientSession k)
      → Exec (Server k) (ClientSession k)
  found_or_new env addr writer (some cs) s = returns cs s
  found_or_new env addr writer none s = new_client env addr writer (fresh_session env s.config) s

  -- `_get_or_create_session`
  unfoldable pub get_or_create_session :
      Surroundings k → Addr → Option Writer → Exec (Server k) (ClientSession k)
  get_or_create_session env addr writer s = found_or_new env addr writer (lookup addr s.clients) s
