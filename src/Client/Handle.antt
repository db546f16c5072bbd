-- ===== src/Client/Handle.antt =====
-- `handle_udp_data`, `_handle_ip_assign` and `_on_tun_readable` of src/client.py. Commands and
-- writes to the TUN device do not fail.
use vpn_app_ai.Prelude.{
  ℕ, true, ◌&&◌, Option, none, some, List, [], ◌∷◌, ◌++◌, length, nat_beq, nat_eq, if◌then◌else◌,
}
use vpn_app_ai.Prelude.NatSet.{member}
use vpn_app_ai.Prelude.Exec.{Exec, ◌>>=◌, ◌>>◌, pure, modify, calls}
use vpn_app_ai.Prelude.Result.{unicode_error, ok, raise, Outcome, returns, raises}
use vpn_app_ai.Bytes.{Bytes, from_bytes}
use vpn_app_ai.Crypto.Pki.{Pki, Text, or_raise}
use vpn_app_ai.Config.{Config, is_set}
use vpn_app_ai.Ipv4.{split}
use vpn_app_ai.Privileges.{System, Call, maybe_drop_privileges}
use vpn_app_ai.Protocol.Messages.{
  control, hard_reset_server, data_packet, opcode_value, MessageType, server_hello, ip_assign,
  keepalive, message_value, message_of,
}
use vpn_app_ai.Protocol.Packet.{encode_packet, decode_packet}
use vpn_app_ai.Protocol.Data.Channel.{Packages, DataChannel}
use vpn_app_ai.Protocol.Data.Encrypt.{encrypt}
use vpn_app_ai.Protocol.Data.Decrypt.{decrypt, is_value_or_index_error}
use vpn_app_ai.Protocol.Control.Session.{Session}
use vpn_app_ai.Protocol.Control.Client.{client_handle_reset_ack, client_handle_server_hello}
use vpn_app_ai.Status.{record_in, record_out}
use vpn_app_ai.Client.State.{
  tun_write, set_ip, run, system, VpnClient, count, emit, write_status_file, sync_send, send_all,
}

abbrev slash : ℕ
slash = b'/'

-- What stands in front of the last dot, if there is one.
unfoldable pub before_last_dot : Text → Option Text
before_last_dot [] = none
before_last_dot (c ∷ cs) =
    let rest = before_last_dot cs in
    elim rest [ some front ↦ some (c ∷ front) | none ↦ if nat_beq c b'.' then some [] else none ]

-- `text.rsplit(".", 1)[0]`
unfoldable pub network_part : Text → Text
network_part text = elim (before_last_dot text) [ none ↦ text | some front ↦ front ]

-- `text.split("/")[0]` and `text.split("/")[1]`
unfoldable pub first_part : List Text → Text
first_part [] = []
first_part (a ∷ rest) = a

unfoldable pub second_part : List Text → Text
second_part (a ∷ b ∷ rest) = b
second_part _ = []

-- The prefix that an address without one gets: the one of `ifconfig`, or "24".
unfoldable pub prefix_for : Option Text → Text
prefix_for none = b'2' ∷ b'4' ∷ []
prefix_for (some text) =
    if member slash text then second_part (split slash text) else b'2' ∷ b'4' ∷ []

unfoldable pub cidr_for : Option Text → Text → Text
cidr_for ifconfig ip = if member slash ip then ip else ip ++ (slash ∷ prefix_for ifconfig)

-- The address of `ifconfig`, or "10.8.0.0".
unfoldable pub server_net : Option Text → Text
server_net none = b'1' ∷ b'0' ∷ b'.' ∷ b'8' ∷ b'.' ∷ b'0' ∷ b'.' ∷ b'0' ∷ []
server_net (some []) = b'1' ∷ b'0' ∷ b'.' ∷ b'8' ∷ b'.' ∷ b'0' ∷ b'.' ∷ b'0' ∷ []
server_net (some (c ∷ cs)) = first_part (split slash (c ∷ cs))

-- "ip", "route", "add"
abbrev ip_route_add : List Text
ip_route_add =
    (b'i' ∷ b'p' ∷ []) ∷ (b'r' ∷ b'o' ∷ b'u' ∷ b't' ∷ b'e' ∷ []) ∷ (b'a' ∷ b'd' ∷ b'd' ∷ []) ∷ []

abbrev dev_word : Text
dev_word = b'd' ∷ b'e' ∷ b'v' ∷ []

-- The route to the server's network.
unfoldable pub route_command : Config → List Text
route_command c =
    ip_route_add
    ++ ((network_part (server_net c.ifconfig) ++ (b'.' ∷ b'0' ∷ b'/' ∷ b'2' ∷ b'4' ∷ []))
        ∷ dev_word
        ∷ c.dev
        ∷ [])

-- The default route through the server.
unfoldable pub gateway_command : Config → List Text
gateway_command c =
    ip_route_add
    ++ ((b'd' ∷ b'e' ∷ b'f' ∷ b'a' ∷ b'u' ∷ b'l' ∷ b't' ∷ [])
        ∷ (b'v' ∷ b'i' ∷ b'a' ∷ [])
        ∷ (network_part (server_net c.ifconfig) ++ (b'.' ∷ b'1' ∷ []))
        ∷ dev_word
        ∷ c.dev
        ∷ (b'm' ∷ b'e' ∷ b't' ∷ b'r' ∷ b'i' ∷ b'c' ∷ [])
        ∷ (b'5' ∷ b'0' ∷ [])
        ∷ [])

-- `decode` is UTF-8: none where it raises UnicodeDecodeError.
module _ (p : Packages) (k : Pki) (y : System) (decode : Bytes → Option Text) where
  unfoldable pub add_route_command : List Text → VpnClient k → VpnClient k
  add_route_command command c = record (emit k (run command) c) {
    routes_added = c.routes_added ++ command ∷ [];
  }

  unfoldable pub accept_address : ℕ → Text → VpnClient k → VpnClient k
  accept_address now ip c =
      write_status_file k true now (record c { assigned_ip = some ip; connected = true })

  unfoldable pub redirect : VpnClient k → VpnClient k
  redirect c =
      if c.config.redirect_gateway then add_route_command (gateway_command c.config) c else c

  abbrev pub after_drop : Outcome (List Call) (Unit {0}) → Exec (VpnClient k) (Unit {0})
  after_drop (returns u done) c = returns tt (emit k (system done) c)
  after_drop (raises x done) c = raises x (emit k (system done) c)

  -- `_handle_ip_assign`
  unfoldable pub handle_ip_assign : ℕ → Text → Exec (VpnClient k) (Unit {0})
  handle_ip_assign now ip c =
      let addressed = emit k (set_ip (cidr_for c.config.ifconfig ip)) (accept_address now ip c) in
      let routed = redirect (add_route_command (route_command c.config) addressed) in
      after_drop (maybe_drop_privileges y c.config.user []) routed

  -- A handler of the handshake on the client's session; what it leaves there stays.
  unfoldable pub on_session : Exec (Session k) (List Bytes) → Exec (VpnClient k) (List Bytes)
  on_session handler c = elim (handler c.session) [
    | returns packets t ↦ returns packets (record c { session = t })
    | raises x t ↦ raises x (record c { session = t })
  ]

  unfoldable pub answer_keepalive : Exec (VpnClient k) (Unit {0})
  answer_keepalive = do
    packet ← calls (λ c.
        encode_packet control (from_bytes c.session.session_id) (message_value keepalive ∷ []))
    sync_send k packet

  unfoldable pub handle_message : ℕ → MessageType → Bytes → Exec (VpnClient k) (Unit {0})
  handle_message now server_hello inner = do
    packets ← on_session (client_handle_server_hello k inner)
    send_all k packets
  handle_message now ip_assign inner = do
    ip ← calls (λ _. or_raise unicode_error (decode inner))
    handle_ip_assign now ip
  handle_message now keepalive inner = answer_keepalive
  handle_message now _ inner = pure tt

  unfoldable pub handle_control_payload : ℕ → Bytes → Exec (VpnClient k) (Unit {0})
  handle_control_payload now [] = pure tt
  handle_control_payload now (t ∷ inner) = do
    msg_type ← calls (λ _. message_of t)
    handle_message now msg_type inner

  unfoldable pub handle_control : ℕ → Bytes → Exec (VpnClient k) (Unit {0})
  handle_control now packet c = elim (decode_packet packet) [
    | ok (_, _, payload) ↦ handle_control_payload now payload c
    | raise x ↦ if is_value_or_index_error x then returns tt c else raises x c
  ]

  unfoldable pub deliver_plain : Option Bytes → VpnClient k → VpnClient k
  deliver_plain none c = c
  deliver_plain (some []) c = c
  deliver_plain (some (b ∷ bs)) c = emit k (tun_write (b ∷ bs)) c

  unfoldable pub after_decrypt : Outcome DataChannel (Option Bytes) → Exec (VpnClient k) (Unit {0})
  after_decrypt (returns plain d) c =
      returns tt (deliver_plain plain (record c { channel = some d }))
  after_decrypt (raises x d) c = raises x (record c { channel = some d })

  unfoldable pub handle_data : Option DataChannel → Bytes → ℕ → Exec (VpnClient k) (Unit {0})
  handle_data none packet now = pure tt
  handle_data (some d) packet now = after_decrypt (decrypt p d packet now)

  -- By the first byte `o`.
  unfoldable pub dispatch : ℕ → Bytes → ℕ → Exec (VpnClient k) (Unit {0})
  dispatch o packet now c =
      if nat_beq o (opcode_value hard_reset_server)
      then (do packets ← on_session (client_handle_reset_ack k packet); send_all k packets) c
      else if nat_beq o (opcode_value control)
      then handle_control now packet c
      else if nat_beq o (opcode_value data_packet)
      then handle_data c.channel packet now c
      else returns tt c

  unfoldable pub handle_udp_data : Bytes → ℕ → Exec (VpnClient k) (Unit {0})
  handle_udp_data [] now c = returns tt c
  handle_udp_data (o ∷ rest) now c =
      dispatch o (o ∷ rest) now
        (record c { last_seen = now; status = count (record_in (length (o ∷ rest))) c.status })

  -- The loop over the packets: each is sent and counted.
  unfoldable pub send_counted : List Bytes → Exec (VpnClient k) (Unit {0})
  send_counted [] = pure tt
  send_counted (wire ∷ wires) = do
    sync_send k wire
    modify (λ c. record c { status = count (record_out (length wire)) c.status })
    send_counted wires

  unfoldable pub after_encrypt : Outcome DataChannel (List Bytes) → Exec (VpnClient k) (Unit {0})
  after_encrypt (returns wires d) c = send_counted wires (record c { channel = some d })
  after_encrypt (raises x d) c = raises x (record c { channel = some d })

  unfoldable pub encrypt_with :
      Option DataChannel → Bytes → (ℕ → Bytes) → Exec (VpnClient k) (Unit {0})
  encrypt_with none packet nonces = pure tt
  encrypt_with (some d) [] nonces = pure tt
  encrypt_with (some d) (b ∷ packet) nonces = after_encrypt (encrypt p d (b ∷ packet) nonces)

  -- `_on_tun_readable`, of what the TUN device gives: nothing behind an OSError.
  unfoldable pub on_tun_readable : Option Bytes → (ℕ → Bytes) → Exec (VpnClient k) (Unit {0})
  on_tun_readable none nonces c = returns tt c
  on_tun_readable (some packet) nonces c =
      if c.handshake_done && is_set c.assigned_ip
      then encrypt_with c.channel packet nonces c
      else returns tt c
