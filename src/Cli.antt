-- ===== src/Cli.antt =====
-- `parse_args` of src/cli.py, behind argparse: its namespace is an argument, with the types that the
-- options declare.
pub mod Precedence
use vpn_app_ai.Prelude.{Bool, Option, none, some, List, [], ◌∷◌, nat_eq}
use vpn_app_ai.Prelude.Int.{ℤ}
use vpn_app_ai.Prelude.Result.{Result, ok, ◌>>=◌}
use vpn_app_ai.Crypto.Pki.{Text}
use vpn_app_ai.Config.Options.{
  Attr, dev, proto, port, remote, ifconfig, server, ifconfig_pool, ca, cert, key, cipher, comp_lzo,
  keepalive_interval, keepalive_timeout, verb, redirect_gateway, status_file, user, Value, text,
  number, flag, Attrs, assign, ConfigObject, new_config,
}
use vpn_app_ai.Config.Parse.{parse_config}

-- What argparse returns; none is None.
pub record Namespace : Type 0 where
  pub config : Option Text
  pub remote : Option Text
  pub port : Option ℤ
  pub proto : Option Text
  pub dev : Option Text
  pub server : Option Text
  pub ifconfig : Option Text
  pub ifconfig_pool : Option Text
  pub ca : Option Text
  pub cert : Option Text
  pub key : Option Text
  pub cipher : Option Text
  pub comp_lzo : Option Bool
  pub keepalive : Option (ℤ × ℤ)
  pub verb : Option ℤ
  pub redirect_gateway : Option Bool
  pub status : Option Text
  pub user : Option Text

-- An entry of `vars(ns)`, by its key.
pub data Entry : Type 0 where
  config_entry : Option Text → Entry
  keepalive_entry : Option (ℤ × ℤ) → Entry
  status_entry : Option Text → Entry
  attr_entry : Attr → Option Value → Entry

abbrev pub as_text : Option Text → Option Value
as_text none = none
as_text (some t) = some (text t)

abbrev pub as_number : Option ℤ → Option Value
as_number none = none
as_number (some n) = some (number n)

abbrev pub as_flag : Option Bool → Option Value
as_flag none = none
as_flag (some b) = some (flag b)

-- `vars(ns).items()`, in the order of the options.
abbrev pub vars : Namespace → List Entry
vars ns =
    config_entry ns.config
    ∷ attr_entry remote (as_text ns.remote)
    ∷ attr_entry port (as_number ns.port)
    ∷ attr_entry proto (as_text ns.proto)
    ∷ attr_entry dev (as_text ns.dev)
    ∷ attr_entry server (as_text ns.server)
    ∷ attr_entry ifconfig (as_text ns.ifconfig)
    ∷ attr_entry ifconfig_pool (as_text ns.ifconfig_pool)
    ∷ attr_entry ca (as_text ns.ca)
    ∷ attr_entry cert (as_text ns.cert)
    ∷ attr_entry key (as_text ns.key)
    ∷ attr_entry cipher (as_text ns.cipher)
    ∷ attr_entry comp_lzo (as_flag ns.comp_lzo)
    ∷ keepalive_entry ns.keepalive
    ∷ attr_entry verb (as_number ns.verb)
    ∷ attr_entry redirect_gateway (as_flag ns.redirect_gateway)
    ∷ status_entry ns.status
    ∷ attr_entry user (as_text ns.user)
    ∷ []

-- The body of the loop; every attribute is there, so `hasattr` holds.
unfoldable pub override : Entry → Attrs → Attrs
override (config_entry path) attrs = attrs
override (keepalive_entry none) attrs = attrs
override (keepalive_entry (some (interval, timeout))) attrs =
    assign keepalive_timeout (number timeout) (assign keepalive_interval (number interval) attrs)
override (status_entry none) attrs = attrs
override (status_entry (some path)) attrs = assign status_file (text path) attrs
override (attr_entry a none) attrs = attrs
override (attr_entry a (some v)) attrs = assign a v attrs

unfoldable pub override_all : List Entry → Attrs → Attrs
unfolding override
override_all [] attrs = attrs
override_all (e ∷ es) attrs = override_all es (override e attrs)

-- `Config.from_file(ns.config) if ns.config else Config()`
unfoldable pub base_config : (Text → Option (List Text)) → Option Text → Result ConfigObject
base_config files none = new_config
base_config files (some []) = new_config
base_config files (some (c ∷ cs)) = parse_config files (c ∷ cs)

unfoldable pub parse_args : (Text → Option (List Text)) → Namespace → Result ConfigObject
unfolding base_config override_all
parse_args files ns = do
  cfg ← base_config files ns.config
  ok (record cfg { attrs = override_all (vars ns) cfg.attrs })
