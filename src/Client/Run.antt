-- ===== src/Client/Run.antt =====
-- `run`, `_connect`, `_cleanup` and `stop` of src/client.py, over UDP. What happens while the loop sleeps
-- is a schedule, round by round.
use vpn_app_ai.Prelude.{
  ℕ, ◌-◌, ◌*◌, Bool, true, false, not, ◌&&◌, ◌||◌, Option, none, some, List, [], ◌∷◌, drop, ltb,
  nat_eq, if◌then◌else◌,
}
use vpn_app_ai.Prelude.Exec.{Exec, ◌>>=◌, ◌>>◌, modify, calls}
use vpn_app_ai.Prelude.Result.{Outcome, returns, raises, state}
use vpn_app_ai.Prelude.Texts.{codes}
use vpn_app_ai.Bytes.{Bytes}
use vpn_app_ai.Crypto.Pki.{Pki, Text}
use vpn_app_ai.Config.{Config, is_set}
use vpn_app_ai.Privileges.{System}
use vpn_app_ai.Status.{StatusFile}
use vpn_app_ai.Protocol.Data.Channel.{Packages, DataChannel, new_channel, cleanup_fragments}
use vpn_app_ai.Protocol.Control.Session.{Session, new_session, configure, is_established, or_empty}
use vpn_app_ai.Protocol.Control.Client.{client_start_handshake}
use vpn_app_ai.Client.State.{run, remove_status, VpnClient, emit, write_status_file, send_all}
use vpn_app_ai.Client.Handle.{on_session, handle_udp_data, on_tun_readable}

-- The client with its flag `_running`.
pub record Running (k : Pki) : Type 0 where
  pub client : VpnClient k
  pub running : Bool

-- A callback of the event loop: a datagram at a time, a packet of the TUN device, or a signal.
pub data Event : Type 0 where
  datagram : Bytes → ℕ → Event
  tun_packet : Option Bytes → (ℕ → Bytes) → Event
  interrupt : Event

-- A round of the loop at a time, and what happens in the sleep behind it.
pub record Round : Type 0 where
  pub now : ℕ
  pub events : List Event

-- How a round ends.
pub data Verdict : Type 0 where
  goes_on gives_up : Verdict

-- `["ip", "route", "delete"] + cmd[3:]`
unfoldable pub delete_command : List Text → List Text
delete_command command = codes "ip" ∷ codes "route" ∷ codes "delete" ∷ drop 3 command

module _ (p : Packages) (k : Pki) (y : System) (decode : Bytes → Option Text) where
  unfoldable pub stop : Running k → Running k
  stop r = record r { running = false; client = record r.client { connected = false } }

  -- The routes in reverse: the last one that was added is deleted first.
  unfoldable pub delete_routes : List (List Text) → VpnClient k → VpnClient k
  unfolding delete_command
  delete_routes [] c = c
  delete_routes (command ∷ commands) c =
      emit k (run (delete_command command)) (delete_routes commands c)

  -- `_cleanup`
  unfoldable pub cleanup : VpnClient k → VpnClient k
  unfolding delete_routes
  cleanup c = record (delete_routes c.routes_added c) { routes_added = [] }

  abbrev pub clean_channel : ℕ → Option DataChannel → Option DataChannel
  clean_channel now none = none
  clean_channel now (some d) = some (cleanup_fragments d now)

  -- The channel of a session that has just been established.
  unfoldable pub open_channel : Exec (VpnClient k) (Unit {0})
  open_channel = do
    channel ← calls (λ c.
        new_channel p c.session.session_id (or_empty c.session.peer_session_id) c.session.cipher
          c.config.compress 64)
    modify (λ c. record c { channel = some channel })

  unfoldable pub finish_handshake : Exec (VpnClient k) (Unit {0})
  unfolding open_channel
  finish_handshake c =
      if not c.handshake_done && is_established k c.session
      then open_channel (record c { handshake_done = true })
      else returns tt c

  -- Longer than the timeout without a datagram.
  unfoldable pub is_late : ℕ → VpnClient k → Bool
  is_late now c = ltb (c.config.keepalive_timeout * 1000) (now - c.last_seen)

  abbrev give_up : Exec (VpnClient k) Verdict
  give_up c = returns gives_up (record c { connected = false })

  unfoldable pub check_timeout : ℕ → Exec (VpnClient k) Verdict
  unfolding is_late
  check_timeout now c =
      if c.handshake_done && is_set c.assigned_ip
      then (if is_late now c then give_up c else returns goes_on c)
      else if c.handshake_done && is_late now c
      then give_up c
      else returns goes_on c

  -- The body of the loop, up to its sleep.
  unfoldable pub tick : ℕ → Exec (VpnClient k) Verdict
  tick now = do
    modify (λ c. record c { channel = clean_channel now c.channel })
    modify (write_status_file k false now)
    finish_handshake
    check_timeout now

  -- An exception in a callback is logged by the event loop; what the callback did stays.
  unfoldable pub happen : Event → Running k → Running k
  unfolding stop
  happen (datagram packet now) r = record r {
    client = state (handle_udp_data p k y decode packet now r.client);
  }
  happen (tun_packet packet nonces) r = record r {
    client = state (on_tun_readable p k y decode packet nonces r.client);
  }
  happen interrupt r = stop r

  unfoldable pub happen_all : List Event → Running k → Running k
  unfolding happen
  happen_all [] r = r
  happen_all (e ∷ es) r = happen_all es (happen e r)

  -- `while self._running`; at the end of the schedule the loop still sleeps.
  unfoldable pub rounds : List Round → Exec (Running k) (Unit {0})
  rounds [] r = returns tt r
  rounds (x ∷ xs) r = if not r.running then returns tt r else elim (tick x.now r.client) [
    | raises e c ↦ raises e (record r { client = c })
    | returns gives_up c ↦ returns tt (record r { client = c })
    | returns goes_on c ↦ rounds xs (happen_all x.events (record r { client = c }))
  ]

  abbrev remove_file : Option StatusFile → VpnClient k → VpnClient k
  remove_file none c = c
  remove_file (some f) c = emit k (remove_status f.path) c

  -- The `finally` of `_connect`.
  unfoldable pub disconnect : VpnClient k → VpnClient k
  unfolding cleanup
  disconnect c =
      let cleaned = record (cleanup c) { has_transport = false } in
      remove_file cleaned.status cleaned

  abbrev finally_disconnect : Outcome (Running k) (Unit {0}) → Outcome (Running k) (Unit {0})
  finally_disconnect (returns u r) = returns u (record r { client = disconnect r.client })
  finally_disconnect (raises x r) = raises x (record r { client = disconnect r.client })

  -- `_connect`, from the transport on.
  unfoldable pub connect : List Round → Exec (Running k) (Unit {0})
  unfolding rounds disconnect
  connect schedule r =
      elim (on_session p k y decode (client_start_handshake k)
        (record r.client { has_transport = true })) [
          | raises x c ↦ raises x (record r { client = c })
          | returns packets c ↦ elim (send_all k packets c) [
            | raises x c' ↦ raises x (record r { client = c' })
            | returns u c' ↦ finally_disconnect (rounds schedule (record r { client = c' }))
          ]
        ]

  -- What the surroundings give an attempt.
  pub record Attempt : Type 0 where
    pub now : ℕ
    pub urandom : Bytes
    pub eph : k.PrivateKey
    pub schedule : List Round

  -- A session for an attempt: in authenticated mode it reads the client's certificate.
  abbrev session_for : Config → Attempt → Outcome (Session k) (Unit {0})
  session_for c a =
      let s = new_session k false a.urandom a.eph a.now in
      elim c.ca [
        | some (x ∷ ca) ↦ elim c.cert [
          | some (z ∷ cert) ↦ elim c.key [
            | some (v ∷ key) ↦ configure k (x ∷ ca) (z ∷ cert) (v ∷ key) s
            | _ ↦ returns tt s
          ]
          | _ ↦ returns tt s
        ]
        | _ ↦ returns tt s
      ]

  abbrev reset : Session k → VpnClient k → VpnClient k
  reset s c = record c { handshake_done = false; assigned_ip = none; channel = none; session = s }

  unfoldable pub attempt : Attempt → Exec (Running k) (Unit {0})
  unfolding connect
  attempt a r = elim (session_for r.client.config a) [
    | raises x s ↦ raises x (record r { running = true; client = reset s r.client })
    | returns u s ↦ connect a.schedule (record r { running = true; client = reset s r.client })
  ]

  -- The loop of `run`, attempt after attempt, as far as they are given; the TUN device is open.
  unfoldable pub run_attempts : List Attempt → Exec (Running k) (Unit {0})
  unfolding attempt
  run_attempts [] r = returns tt r
  run_attempts (a ∷ as') r =
      if not (r.running || not r.client.connected) then returns tt r else elim (attempt a r) [
        | raises x t ↦ raises x t
        | returns u t ↦
            if not t.running || t.client.connected then returns tt t else run_attempts as' t
      ]

  -- `run`
  unfoldable pub run_client : List Attempt → Exec (Running k) (Unit {0})
  unfolding run_attempts
  run_client attempts r =
      if not (is_set r.client.config.remote) then returns tt r else run_attempts attempts r
