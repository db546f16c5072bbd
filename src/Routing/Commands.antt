-- ===== src/Routing/Commands.antt =====
-- The calls of `ip` and `iptables` in src/routing.py. What a subprocess and the file system do is a
-- parameter.
pub mod Nat
use vpn_app_ai.Prelude.{
  ℕ, zero, suc, ◌+◌, Bool, true, false, ◌&&◌, ◌||◌, Option, none, some, List, [], ◌∷◌, ◌++◌, leb,
  nat_beq, list_beq, nat_eq, list_eq, if◌then◌else◌,
}
use vpn_app_ai.Prelude.Exec.{Exec, ◌>>=◌, ◌>>◌, pure, calls}
use vpn_app_ai.Prelude.Texts.{codes, words}
use vpn_app_ai.Prelude.Result.{
  Result, ok, raise, index_error, runtime_error, Outcome, returns, raises,
}
use vpn_app_ai.Bytes.{Bytes}
use vpn_app_ai.Crypto.Pki.{Text}

-- What `subprocess.run` returns. The output is text where the caller asks for text.
pub record Completed : Type 0 where
  pub returncode : ℕ
  pub stdout : Text
  pub stderr : Bytes

-- The system: commands and writes to files, each of which may raise, and `bytes.decode`.
pub record Shell : Type 1 where
  pub State : Type 0
  pub run : List Text → Exec State Completed
  pub write_file : Text → Text → Exec State (Unit {0})
  pub decode : Bytes → Result Text

-- The characters at which `splitlines` ends a line.
unfoldable pub is_line_end : ℕ → Bool
is_line_end c =
    leb 10 c && leb c 13
    || leb 28 c && leb c 30
    || nat_beq c 0x85
    || nat_beq c 0x2028
    || nat_beq c 0x2029

abbrev end_line : Text → List Text → List Text
end_line line lines = line ∷ lines

-- `splitlines`, with the characters of the line so far; `after_cr` is behind a carriage return, where
-- a line feed ends no further line.
unfoldable pub splitlines_onto : Text → Bool → Text → List Text
unfolding is_line_end
splitlines_onto [] after_cr [] = []
splitlines_onto (l ∷ line) after_cr [] = (l ∷ line) ∷ []
splitlines_onto line after_cr (c ∷ cs) =
    let skipped = splitlines_onto line false cs in
    let ended = line ∷ splitlines_onto [] (nat_beq c 13) cs in
    let longer = splitlines_onto (line ++ c ∷ []) false cs in
    if after_cr && nat_beq c 10 then skipped else if is_line_end c then ended else longer

abbrev pub splitlines : Text → List Text
splitlines text = splitlines_onto [] false text

-- `parts[parts.index("dev") + 1]`, if "dev" is there: its last place raises IndexError.
unfoldable pub dev_of : List Text → Option (Result Text)
dev_of [] = none
dev_of (part ∷ []) = if list_beq part (codes "dev") then some (raise index_error) else none
dev_of (part ∷ name ∷ rest) =
    let later = dev_of (name ∷ rest) in
    if list_beq part (codes "dev") then some (ok name) else later

unfoldable pub dev_in : List Text → Result (Option Text)
unfolding dev_of
dev_in [] = ok none
dev_in (line ∷ lines) = elim (dev_of (words line)) [
  | none ↦ dev_in lines
  | some (ok name) ↦ ok (some name)
  | some (raise x) ↦ raise x
]

module _ (y : Shell) where
  -- `check=True`: a command that fails raises CalledProcessError, a `runtime_error` here.
  abbrev pub exit_checked : Outcome y.State Completed → Outcome y.State Completed
  exit_checked (raises x t) = raises x t
  exit_checked (returns done t) =
      if nat_beq done.returncode 0 then returns done t else raises runtime_error t

  unfoldable pub run_checked : List Text → Exec y.State Completed
  run_checked command s = exit_checked (y.run command s)

  -- `get_default_interface`; `except Exception` round the command.
  unfoldable pub get_default_interface : Exec y.State (Option Text)
  unfolding run_checked dev_in
  get_default_interface s =
      elim (run_checked (codes "ip" ∷ codes "route" ∷ codes "show" ∷ codes "default" ∷ []) s) [
        | raises x t ↦ returns none t
        | returns done t ↦ calls (λ _. dev_in (splitlines done.stdout)) t
      ]

  -- The rule of a network behind an interface.
  abbrev pub masquerade : Text → Text → List Text
  masquerade interface tun_network =
      codes "-s" ∷ tun_network ∷ codes "-o" ∷ interface ∷ codes "-j" ∷ codes "MASQUERADE" ∷ []

  abbrev pub iptables : Text → List Text → List Text
  iptables action rule =
      codes "iptables" ∷ codes "-t" ∷ codes "nat" ∷ action ∷ codes "POSTROUTING" ∷ rule

  -- `setup_nat`; nothing looks at what the first command finds.
  unfoldable pub setup_nat : Text → Text → Exec y.State (Unit {0})
  unfolding run_checked
  setup_nat interface tun_network = do
    y.run (iptables (codes "-C") (masquerade interface tun_network))
    run_checked (iptables (codes "-A") (masquerade interface tun_network))
    pure tt

  unfoldable pub teardown_nat : Text → Text → Exec y.State (Unit {0})
  teardown_nat interface tun_network = do
    y.run (iptables (codes "-D") (masquerade interface tun_network))
    pure tt

  -- `except Exception: pass`
  abbrev pub passes {ℓ} : {A : Type ℓ} → Exec y.State A → Exec y.State (Unit {0})
  passes m s = elim (m s) [ returns a t ↦ returns tt t | raises x t ↦ returns tt t ]

  unfoldable pub enable_ip_forward : Exec y.State (Unit {0})
  enable_ip_forward = do
    passes (y.write_file (codes "/proc/sys/net/ipv4/ip_forward") (codes "1"))
    passes (y.write_file (codes "/proc/sys/net/ipv6/conf/all/forwarding") (codes "1"))

  -- `if via: cmd += [option, via]`
  abbrev pub option_words : Text → Option Text → List Text
  option_words name none = []
  option_words name (some []) = []
  option_words name (some (c ∷ cs)) = name ∷ (c ∷ cs) ∷ []

  abbrev pub route_words : Text → Text → Option Text → Option Text → List Text
  route_words action network via dev =
      codes "ip"
      ∷ codes "route"
      ∷ action
      ∷ network
      ∷ (option_words (codes "via") via ++ option_words (codes "dev") dev)

  -- What the handler of CalledProcessError does: it decodes what the command wrote, to log it.
  abbrev pub after_failure : Bytes → Exec y.State (Unit {0})
  after_failure [] = pure tt
  after_failure (b ∷ bs) = do text ← calls (λ _. y.decode (b ∷ bs)); pure tt

  -- `add_route`: only CalledProcessError is caught.
  unfoldable pub add_route : Text → Option Text → Option Text → Exec y.State (Unit {0})
  add_route network via dev s = elim (y.run (route_words (codes "add") network via dev) s) [
    | raises x t ↦ raises x t
    | returns done t ↦
        if nat_beq done.returncode 0 then returns tt t else after_failure done.stderr t
  ]

  unfoldable pub delete_route : Text → Option Text → Option Text → Exec y.State (Unit {0})
  unfolding run_checked
  delete_route network via dev = passes (run_checked (route_words (codes "delete") network via dev))
