-- ===== src/TunWindows.antt =====
-- src/tun_windows.py: the TUN device of Windows over the Wintun driver. What the driver and the system
-- answer is a parameter; the calls that reach them are recorded in order.
pub mod Guid
pub mod Uses
pub mod Handles
pub mod Opening
pub mod Blocks
use vpn_app_ai.Prelude.{
  ℕ, ◌-◌, Bool, true, false, not, Option, none, some, List, [], ◌∷◌, ◌++◌, leb, nat_eq, length,
  if◌then◌else◌,
}
use vpn_app_ai.Prelude.Int.{ℤ, pos, negsuc}
use vpn_app_ai.Prelude.Exec.{Exec, ◌>>=◌, ◌>>◌, pure, modify, calls}
use vpn_app_ai.Prelude.Texts.{show_nat, codes, int_of}
use vpn_app_ai.Prelude.Result.{
  os_error, runtime_error, value_error, Result, ok, raise, Outcome, returns, raises, state,
}
use vpn_app_ai.Bytes.{Bytes}
use vpn_app_ai.Crypto.Pki.{Text}
use vpn_app_ai.Ipv4.{split}
use vpn_app_ai.Tun.Netmask.{prefixlen_to_netmask}
use vpn_app_ai.TunWindows.Guid.{guid_from_name}

-- The calls of the driver that take or give back something, and the commands.
pub data Call : Type 0 where
  adapter_created adapter_deleted session_started session_ended : ℕ → Call
  packet_received packet_released : ℕ → Call
  packet_sent : ℕ → Bytes → Call
  run : List Text → Call

-- What a round of the loop in `read` gets: nothing, or a pointer and what it points to.
pub data Arrival : Type 0 where
  nothing : Arrival
  packet : ℕ → Bytes → Arrival

-- `paths` are the places of the library in the order of the search, and `load_dll` loads one, with
-- the names of its functions. A handle that is null is none.
pub record Windows : Type 0 where
  pub paths : List Text
  pub path_exists : Text → Bool
  pub load_dll : Text → Result (Text → Bool)
  pub md5 : Bytes → Bytes
  pub create_adapter : Text → Bytes → Option ℕ
  pub start_session : ℕ → ℕ → Option ℕ
  pub read_wait_event : ℕ → ℕ
  pub allocate_send_packet : ℕ → ℕ → Option ℕ
  pub succeeds : List Text → Bool

-- Without the lock, which nothing takes.
pub record TunInterface : Type 0 where
  pub name : Text
  pub adapter : Option ℕ
  pub session : Option ℕ
  pub read_event : Option ℕ
  pub closed : Bool
  pub calls : List Call

abbrev pub new_tun : Text → TunInterface
new_tun name = record {
  name = name;
  adapter = none;
  session = none;
  read_event = none;
  closed = false;
  calls = [];
}

abbrev pub emit : Call → TunInterface → TunInterface
emit c t = record t { calls = t.calls ++ c ∷ [] }

abbrev pub function_names : List Text
function_names =
    codes "WintunCreateAdapter"
    ∷ codes "WintunDeleteAdapter"
    ∷ codes "WintunStartSession"
    ∷ codes "WintunEndSession"
    ∷ codes "WintunGetReadWaitEvent"
    ∷ codes "WintunReceivePacket"
    ∷ codes "WintunReleaseReceivePacket"
    ∷ codes "WintunAllocateSendPacket"
    ∷ codes "WintunSendPacket"
    ∷ []

unfoldable pub first_path : (Text → Bool) → List Text → Option Text
first_path path_exists [] = none
first_path path_exists (p ∷ ps) = if path_exists p then some p else first_path path_exists ps

unfoldable pub all_functions : (Text → Bool) → List Text → Bool
all_functions has [] = true
all_functions has (f ∷ fs) = if has f then all_functions has fs else false

abbrev pub adapter_name : TunInterface → Text
adapter_name t = codes "pyvpn-" ++ t.name

-- `prefixlen_to_netmask` of any integer: above 32 the shift is negative and raises, and below 0 no bit
-- stays.
unfoldable pub netmask_of : ℤ → Result Text
netmask_of (pos n) = if leb n 32 then ok (prefixlen_to_netmask n) else raise value_error
netmask_of (negsuc n) = ok (codes "0.0.0.0")

module _ (w : Windows) where
  -- `_load_wintun` in a process that has not loaded it: False without the library or a function of it.
  unfoldable pub load_wintun : Result Bool
  unfolding first_path all_functions
  load_wintun = elim (first_path w.path_exists w.paths) [
    | none ↦ ok false
    | some path ↦ elim (w.load_dll path) [
      | raise x ↦ raise x
      | ok has ↦ ok (all_functions has function_names)
    ]
  ]

  -- From the session on: without one the adapter is deleted again.
  abbrev pub with_session : ℕ → Option ℕ → Exec TunInterface (Unit {0})
  with_session adapter none t =
      raises runtime_error
        (emit (adapter_deleted adapter) (record t { adapter = none; session = none }))
  with_session adapter (some session) t = returns tt (
      emit (session_started session)
        (record t { session = some session; read_event = some (w.read_wait_event session) }))

  abbrev pub with_adapter : Option ℕ → Exec TunInterface (Unit {0})
  with_adapter none t = raises runtime_error (record t { adapter = none })
  with_adapter (some adapter) t =
      with_session adapter (w.start_session adapter 0x400000)
        (emit (adapter_created adapter) (record t { adapter = some adapter }))

  abbrev pub with_guid : Result Bytes → Exec TunInterface (Unit {0})
  with_guid (raise x) t = raises x t
  with_guid (ok guid) t = with_adapter (w.create_adapter (adapter_name t) guid) t

  abbrev pub with_library : Result Bool → Exec TunInterface (Unit {0})
  with_library (raise x) t = raises x t
  with_library (ok false) t = raises runtime_error t
  with_library (ok true) t = with_guid (guid_from_name w.md5 t.name) t

  -- `open`
  unfoldable pub open_tun : Exec TunInterface (Unit {0})
  open_tun t = with_library load_wintun t

  abbrev pub end_session : Option ℕ → TunInterface → TunInterface
  end_session none t = t
  end_session (some session) t = emit (session_ended session) (record t { session = none })

  abbrev pub delete_adapter : Option ℕ → TunInterface → TunInterface
  delete_adapter none t = t
  delete_adapter (some adapter) t = emit (adapter_deleted adapter) (record t { adapter = none })

  -- `close`
  unfoldable pub close_tun : TunInterface → TunInterface
  close_tun t =
      let ended = end_session t.session (record t { closed = true }) in
      delete_adapter ended.adapter ended

  -- The loop of `read` over what its rounds get; another thread closes the device at the end.
  unfoldable pub receive : List Arrival → Exec TunInterface Bytes
  receive [] t = raises os_error (record t { closed = true })
  receive (nothing ∷ later) t = receive later t
  receive (packet pointer [] ∷ later) t = receive later (emit (packet_received pointer) t)
  receive (packet pointer (b ∷ bs) ∷ later) t =
      returns (b ∷ bs) (emit (packet_released pointer) (emit (packet_received pointer) t))

  abbrev pub read_from : List Arrival → Option ℕ → Exec TunInterface Bytes
  read_from arrivals none t = raises runtime_error t
  read_from arrivals (some session) t = if t.closed then raises os_error t else receive arrivals t

  -- `read`; a device that is closed does not wait.
  unfoldable pub read : List Arrival → Exec TunInterface Bytes
  unfolding receive
  read arrivals t = read_from arrivals t.session t

  abbrev pub send_packet : Bytes → Option ℕ → Exec TunInterface ℕ
  send_packet bytes none t = returns 0 t
  send_packet bytes (some pointer) t = returns (length bytes) (emit (packet_sent pointer bytes) t)

  abbrev pub write_to : Bytes → Option ℕ → Exec TunInterface ℕ
  write_to bytes none t = raises runtime_error t
  write_to bytes (some session) t =
      send_packet bytes (w.allocate_send_packet session (length bytes)) t

  -- `write`
  unfoldable pub write : Bytes → Exec TunInterface ℕ
  write bytes t = write_to bytes t.session t

  -- A command with `check=True`: CalledProcessError is a `runtime_error` here.
  unfoldable pub run_checked : List Text → Exec TunInterface (Unit {0})
  run_checked command t =
      if w.succeeds command
      then returns tt (emit (run command) t)
      else raises runtime_error (emit (run command) t)

  abbrev pub netsh : Text → List Text → List Text
  netsh subject rest = codes "netsh" ∷ codes "interface" ∷ codes "ip" ∷ codes "set" ∷ subject ∷ rest

  abbrev pub or_value_error {ℓ} : {A : Type ℓ} → Option A → Result A
  or_value_error none = raise value_error
  or_value_error (some a) = ok a

  abbrev pub address_command : Text → Text → TunInterface → List Text
  address_command ip mask t = netsh (codes "address") (
      (codes "name=" ++ adapter_name t)
      ∷ (codes "source=static addr=" ++ ip ++ codes " mask=" ++ mask)
      ∷ [])

  abbrev pub interface_command : TunInterface → List Text
  interface_command t =
      netsh (codes "interface") ((codes "name=" ++ adapter_name t) ∷ codes "admin=enabled" ∷ [])

  -- The two commands of `set_ip` for an address and its mask.
  unfoldable pub set_address : Text → Text → Exec TunInterface (Unit {0})
  unfolding run_checked
  set_address ip mask t =
      (run_checked (address_command ip mask t) >> run_checked (interface_command t)) t

  abbrev pub set_parts : List Text → Exec TunInterface (Unit {0})
  set_parts (ip ∷ prefix ∷ []) = do
    number ← calls (λ _. or_value_error (int_of prefix))
    mask ← calls (λ _. netmask_of number)
    set_address ip mask
  set_parts _ = λ t. raises value_error t

  -- `set_ip`
  unfoldable pub set_ip : Text → Exec TunInterface (Unit {0})
  set_ip cidr = set_parts (split b'/' cidr)

  abbrev pub mtu_command : ℕ → TunInterface → List Text
  mtu_command mtu t =
      netsh (codes "subinterface")
        ((codes "name=" ++ adapter_name t) ∷ (codes "mtu=" ++ show_nat mtu mtu) ∷ [])

  unfoldable pub set_mtu : ℕ → Exec TunInterface (Unit {0})
  unfolding run_checked
  set_mtu mtu t = run_checked (mtu_command mtu t) t
