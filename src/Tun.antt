-- ===== src/Tun.antt =====
-- src/tun.py: the TUN device of Linux. What the system answers is a parameter; the calls that reach it
-- are recorded in order.
pub mod Netmask
use vpn_app_ai.Prelude.{
  ℕ, Bool, not, Option, none, some, List, [], ◌∷◌, ◌++◌, nat_beq, nat_eq, length, if◌then◌else◌,
}
use vpn_app_ai.Prelude.Exec.{Exec, ◌>>=◌, ◌>>◌, pure, modify}
use vpn_app_ai.Prelude.Texts.{show_nat, codes}
use vpn_app_ai.Prelude.Result.{os_error, runtime_error, value_error, Outcome, returns, raises}
use vpn_app_ai.Bytes.{Bytes}
use vpn_app_ai.Crypto.Pki.{Text}
use vpn_app_ai.Ipv4.{split}

-- The calls of the operating system.
pub data Call : Type 0 where
  os_open os_close : ℕ → Call
  set_interface : ℕ → Text → Call
  run : List Text → Call

-- `open` gives a descriptor, `accepts` says whether TUNSETIFF returns, `succeeds` whether a command
-- exits with 0; what is read and written is given by descriptor.
pub record System : Type 0 where
  pub has_fcntl : Bool
  pub has_device : Bool
  pub open_device : Option ℕ
  pub accepts : ℕ → Text → Bool
  pub succeeds : List Text → Bool
  pub read_from : ℕ → Option Bytes
  pub write_to : ℕ → Bytes → Option ℕ

pub record TunInterface : Type 0 where
  pub name : Text
  pub fd : Option ℕ
  pub calls : List Call

abbrev pub new_tun : Text → TunInterface
new_tun name = record { name = name; fd = none; calls = [] }

abbrev pub emit : Call → TunInterface → TunInterface
emit c t = record t { calls = t.calls ++ c ∷ [] }

-- `_delete_existing_interface`; whatever the command does is passed over.
unfoldable pub delete_existing_interface : TunInterface → TunInterface
delete_existing_interface t =
    emit (run (codes "ip" ∷ codes "link" ∷ codes "delete" ∷ t.name ∷ [])) t

module _ (y : System) where
  -- From the open descriptor on: a name that does not pass closes it again.
  unfoldable pub set_up : ℕ → Exec TunInterface (Unit {0})
  unfolding delete_existing_interface
  set_up fd t =
      let cleared = delete_existing_interface (emit (os_open fd) (record t { fd = some fd })) in
      let asked = emit (set_interface fd t.name) cleared in
      if y.accepts fd t.name
      then returns tt asked
      else raises os_error (emit (os_close fd) (record asked { fd = none }))

  -- `open`
  unfoldable pub open_tun : Exec TunInterface (Unit {0})
  unfolding set_up
  open_tun t =
      if not y.has_fcntl
      then raises runtime_error t
      else if not y.has_device
      then raises runtime_error t
      else elim y.open_device [ none ↦ raises os_error t | some fd ↦ set_up fd t ]

  abbrev close_fd : Option ℕ → TunInterface → TunInterface
  close_fd none t = t
  close_fd (some fd) t = emit (os_close fd) (record t { fd = none })

  -- `close`
  unfoldable pub close_tun : TunInterface → TunInterface
  unfolding delete_existing_interface
  close_tun t = delete_existing_interface (close_fd t.fd t)

  abbrev or_os_error {ℓ} : {A : Type ℓ} → Option A → Exec TunInterface A
  or_os_error none t = raises os_error t
  or_os_error (some a) t = returns a t

  -- `read`, of 65536 bytes at most
  unfoldable pub read : Exec TunInterface Bytes
  read t = elim t.fd [ none ↦ raises runtime_error t | some fd ↦ or_os_error (y.read_from fd) t ]

  unfoldable pub write : Bytes → Exec TunInterface ℕ
  write packet t = elim t.fd [
    | none ↦ raises runtime_error t
    | some fd ↦ or_os_error (y.write_to fd packet) t
  ]

  unfoldable pub fileno : Exec TunInterface ℕ
  fileno t = elim t.fd [ none ↦ raises runtime_error t | some fd ↦ returns fd t ]

  -- A command with `check=True`: CalledProcessError is a `runtime_error` here.
  unfoldable pub run_checked : List Text → Exec TunInterface (Unit {0})
  run_checked command t =
      let ran = emit (run command) t in
      if y.succeeds command then returns tt ran else raises runtime_error ran

  -- `set_ip`; `ip, _ = cidr.split("/")` raises ValueError unless there are two parts.
  unfoldable pub set_ip : Text → Exec TunInterface (Unit {0})
  unfolding run_checked
  set_ip cidr t =
      if not (nat_beq (length (split b'/' cidr)) 2)
      then raises value_error t
      else (do
        run_checked (codes "ip" ∷ codes "addr" ∷ codes "add" ∷ cidr ∷ codes "dev" ∷ t.name ∷ [])
        run_checked (codes "ip" ∷ codes "link" ∷ codes "set" ∷ t.name ∷ codes "up" ∷ []))
          t

  unfoldable pub set_mtu : ℕ → Exec TunInterface (Unit {0})
  unfolding run_checked
  set_mtu mtu t =
      run_checked
        (codes "ip" ∷ codes "link" ∷ codes "set" ∷ t.name ∷ codes "mtu" ∷ show_nat mtu mtu ∷ []) t
